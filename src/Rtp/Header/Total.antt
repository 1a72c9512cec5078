-- ===== src/Rtp/Header/Total.antt =====
-- `readBlock` on arbitrary words, and the counters of `operator++`.
use net_isdn.Common.{
  ℕ, zero, suc, ◌+◌, ◌*◌, ◌%◌, ◌^◌, ◌≤◌, ◌<◌, ◌≡◌, bit_and, Option, some, List, [], arith, length,
  ltb, if◌then◌else◌, Bool-cases, inl, inr,
}
use net_isdn.Common.Bits.{◌>>◌, bit_and-mask}
use net_isdn.Rtp.Wire.{ByteOrder, IsWord, load_total, load_words_total}
use net_isdn.Rtp.Header.{RtpHeader, clear, flag, header_words, read_block, next}
use net_isdn.Rtp.Header.Fields.{Fits}
use net_isdn.Rtp.Header.RoundTrip.{read_csrcs-load_words}

module _ (net : ByteOrder) where
  header_words_total :
      (d : List ℕ) (h : RtpHeader)
      → length h.csrcs ≤ 15
      → 20 ≤ length d
      → (n : ℕ) × (header_words net d h ≡ some n)
  unfolding header_words
  header_words_total d h few room = elim (Bool-cases h.extension_bit) [
    | inl ext ↦
        let (w, p, _) = load_total net d (4 + length h.csrcs) (omega arith) in
        (3 + length h.csrcs + bit_and 0xffff w, rw (ext, p))
    | inr plain ↦ (3 + length h.csrcs, rw plain)
  ]

-- What a call of `readBlock` must give: a count of words within the array and a header that fits the
-- wire.
pub record Parsed (len : ℕ) (out : Option (ℕ × RtpHeader)) : Type 0 where
  pub count : ℕ
  pub header : RtpHeader
  pub returns : out ≡ some (count, header)
  pub within : count ≤ len
  pub fits : Fits header

-- Whatever words an array of at least 20 words holds, `readBlock` stays inside the array, and returns
-- a count within the given length and a header that fits the wire.
pub read_block-Parsed :
    (net : ByteOrder) (rand_r : ℕ → ℕ × ℕ) (h0 : RtpHeader) (d : List ℕ) (len : ℕ)
    → 20 ≤ length d
    → Parsed len (read_block net rand_r h0 d len)
unfolding read_block clear
read_block-Parsed net rand_r h0 d len room =
    let (w, p, hw) = load_total net d 0 (omega arith) in
    let (stamp, p1, h1) = load_total net d 1 (omega arith) in
    let (ssrc, p2, h2) = load_total net d 2 (omega arith) in
    let cc : ℕ = bit_and (w >> 24) 0x0f in
    let small : cc ≤ 15 = omega (arith, bit_and-mask 4 (w >> 24)) in
    let (ws, q, len_ws, all_ws) = load_words_total net d 3 cc (omega arith) in
    let h : RtpHeader = got w stamp ssrc (rand_r h0.random_seedp).1 ws in
    let (n, words) = header_words_total net d h (omega arith) room in
    record {
      count = if ltb len n then 0 else n;
      header = h;
      returns = rw (
        p,
        p1,
        p2,
        read_csrcs-load_words net d 3 cc (got w stamp ssrc (rand_r h0.random_seedp).1 []) ws
            (omega arith) q,
        words,
      );
      within = ground arith;
      fits = record {
        version = omega arith;
        payload_type = omega (arith, bit_and-mask 7 (w >> 16));
        sequence_number = omega (arith, bit_and-mask 16 w);
        timestamp = h1;
        ssrc = h2;
        count = omega arith;
        csrcs = all_ws;
      };
    }
  where
    got : ℕ → ℕ → ℕ → ℕ → List ℕ → RtpHeader
    got w stamp ssrc seed ws = record {
      version = w >> 30;
      padding_bit = flag (bit_and (w >> 28) 0x01);
      extension_bit = flag (bit_and (w >> 27) 0x01);
      marker_bit = flag (bit_and (w >> 23) 0x01);
      payload_type = bit_and (w >> 16) 0x7f;
      sequence_number = bit_and w 0xffff;
      timestamp = stamp;
      timestamp_interval = 44100;
      ssrc = ssrc;
      random_seedp = seed;
      csrcs = ws;
    }

-- `operator++` applied `n` times.
abbrev pub after : ℕ → RtpHeader → RtpHeader
after zero h = h
after (suc n) h = next (after n h)

-- After `n` packets the 16-bit sequence number has gone on by `n` and the 32-bit timestamp by `n`
-- intervals, both with wrap-around, and nothing else has changed.
pub after_lem :
    (n : ℕ) (h : RtpHeader)
    → h.sequence_number < 2 ^ 16
    → IsWord h.timestamp
    → after n h ≡ record h {
      sequence_number = (h.sequence_number + n) % 2 ^ 16;
      timestamp = (h.timestamp + n * h.timestamp_interval) % 2 ^ 32;
    }
unfolding next
after_lem zero h hs ht = ground arith
after_lem (suc n) h hs ht = rw (after_lem n h hs ht) (ground arith)

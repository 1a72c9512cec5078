-- ===== src/Rtp/Header/RoundTrip.antt =====
-- `readBlock` after `writeBlock`.
use net_isdn.Common.{
  ◌>>=◌, ℕ, zero, suc, ◌+◌, ◌%◌, ◌^◌, ◌≤◌, ◌<◌, ◌≡◌, sym, ap, ◌∙◌, true, false, some, List, [], ◌∷◌,
  ◌++◌, append-nil, append_assoc, arith, length, length-append, length-set, ltb, Option-cases,
  none≢some, some_inj, le→ltb, lt→ltb, inl, inr, if◌then◌else◌,
}
use net_isdn.Common.Bits.{mask-bit_and}
use net_isdn.Rtp.Wire.{
  ByteOrder, load, store, load_words, store_words, load-store_self, load-store_ne, load-store_words,
  load-store_words_behind, load_words-store_words,
}
use net_isdn.Rtp.Header.{
  RtpHeader, add_csrc, clear, first_word, read_csrcs, header_words, read_block, write_block,
  max_csrcs,
}
use net_isdn.Rtp.Header.Fields.{Fits, ReadsBack, first_word-IsWord, first_word-ReadsBack}

add_csrc-room :
    (h : RtpHeader) (w : ℕ)
    → length h.csrcs < max_csrcs
    → (add_csrc h w).1 ≡ record h { csrcs = h.csrcs ++ (w ∷ []) }
unfolding add_csrc
add_csrc-room h w lt = ground arith

module _ (net : ByteOrder) where
  -- As long as the list has room the loop appends the words that it reads.
  pub read_csrcs-load_words :
      (d : List ℕ) (i n : ℕ) (h : RtpHeader) (ws : List ℕ)
      → length h.csrcs + n ≤ max_csrcs
      → load_words net d i n ≡ some ws
      → read_csrcs net d i n h ≡ some (record h { csrcs = h.csrcs ++ ws })
  unfolding read_csrcs load_words
  read_csrcs-load_words d i zero h ws room e =
      ap (λ (l : List ℕ). some (record h { csrcs = l }))
        (sym (append-nil h.csrcs) ∙ ap (λ l. h.csrcs ++ l) (some_inj e))
  read_csrcs-load_words d i (suc n) h ws room e = elim (Option-cases (load net d i)) [
    | inl out ↦ absurd (none≢some (rw out at e))
    | inr (w, p) ↦ elim (Option-cases (load_words net d (i + 1) n)) [
      | inl out ↦ absurd (none≢some (rw (p, out) at e))
      | inr (vs, q) ↦
          let e' : w ∷ vs ≡ ws = some_inj (rw (p, q) at e) in
          rw (p, add_csrc-room h w (omega arith))
            (read_csrcs-load_words d (i + 1) n (record h { csrcs = h.csrcs ++ (w ∷ []) }) vs
                (omega (arith, length-append {0} h.csrcs (w ∷ []))) q
              ∙ ap (λ (l : List ℕ). some (record h { csrcs = l }))
                  (append_assoc h.csrcs (w ∷ []) vs ∙ ap (λ l. h.csrcs ++ l) e'))
    ]
  ]

-- The header that comes back: the extension bit and the timestamp interval are not on the wire, and
-- the bit that is read as the extension bit is the top bit of the number of sources.
abbrev pub received : RtpHeader → ℕ → RtpHeader
received h seed = record h {
  extension_bit = ltb 7 (length h.csrcs);
  timestamp_interval = 44100;
  random_seedp = seed;
}

module _ (net : ByteOrder) (rand_r : ℕ → ℕ × ℕ) (h h0 : RtpHeader) (d : List ℕ) (len : ℕ)
    (f : Fits h) (room : 3 + length h.csrcs ≤ len) (array : len ≤ length d) where
  abbrev sent : List ℕ
  sent = (write_block net h d len).1

  abbrev three_words : List ℕ
  three_words = store net (store net (store net d 0 (first_word h)) 1 h.timestamp) 2 h.ssrc

  write_sent : write_block net h d len ≡ (3 + length h.csrcs, store_words net three_words 3 h.csrcs)
  unfolding write_block
  write_sent = rw (le→ltb len (3 + length h.csrcs) room)

  sent_eq : sent ≡ store_words net three_words 3 h.csrcs
  sent_eq = ap (λ p. p.1) write_sent

  sent_zero : load net sent 0 ≡ some (first_word h)
  sent_zero =
      ap (λ l. load net l 0) sent_eq
      ∙ load-store_words net three_words 3 h.csrcs 0 (omega arith)
      ∙ load-store_ne net _ 2 0 h.ssrc (omega arith)
      ∙ load-store_ne net _ 1 0 h.timestamp (omega arith)
      ∙ load-store_self net d 0 (first_word h) (omega arith) (first_word-IsWord h)

  sent_one : load net sent 1 ≡ some h.timestamp
  sent_one =
      ap (λ l. load net l 1) sent_eq
      ∙ load-store_words net three_words 3 h.csrcs 1 (omega arith)
      ∙ load-store_ne net _ 2 1 h.ssrc (omega arith)
      ∙ load-store_self net (store net d 0 (first_word h)) 1 h.timestamp
          (rw length-set (omega arith)) f.timestamp

  sent_two : load net sent 2 ≡ some h.ssrc
  sent_two =
      ap (λ l. load net l 2) sent_eq
      ∙ load-store_words net three_words 3 h.csrcs 2 (omega arith)
      ∙ load-store_self net (store net (store net d 0 (first_word h)) 1 h.timestamp) 2 h.ssrc
          (rw (length-set, length-set) (omega arith)) f.ssrc

  sent_csrcs : load_words net sent 3 (length h.csrcs) ≡ some h.csrcs
  sent_csrcs =
      ap (λ l. load_words net l 3 (length h.csrcs)) sent_eq
      ∙ load_words-store_words net three_words 3 h.csrcs
          (rw (length-set, length-set, length-set) (omega arith)) f.csrcs

  -- All but the length of the header.
  read_sent : read_block net rand_r h0 sent len ≡ (
      header_words net sent (received h (rand_r h0.random_seedp).1) >>= λ ret.
      some (if ltb len ret then 0 else ret, received h (rand_r h0.random_seedp).1))
  unfolding read_block clear
  read_sent =
      let b : ReadsBack h (first_word h) = first_word-ReadsBack h f in
      rw
        (
          sent_zero, sent_one, sent_two, b.version, b.padding, b.extension, b.count, b.marker,
          b.payload_type, b.sequence_number,
        )
        (rw (
          read_csrcs-load_words net sent 3 (length h.csrcs)
            (record (received h (rand_r h0.random_seedp).1) { csrcs = [] }) h.csrcs
            (omega (arith, f.count)) sent_csrcs))

  -- A word behind the header is left alone.
  sent_behind : load net sent (4 + length h.csrcs) ≡ load net d (4 + length h.csrcs)
  sent_behind =
      ap (λ l. load net l (4 + length h.csrcs)) sent_eq
      ∙ load-store_words_behind net three_words 3 h.csrcs (4 + length h.csrcs) (omega arith)
      ∙ load-store_ne net _ 2 (4 + length h.csrcs) h.ssrc (omega arith)
      ∙ load-store_ne net _ 1 (4 + length h.csrcs) h.timestamp (omega arith)
      ∙ load-store_ne net d 0 (4 + length h.csrcs) (first_word h) (omega arith)

  -- A header that fits the wire, written to an array with room for it, takes 3 words and one for
  -- each contributing source. With at most 7 sources `readBlock` returns that number and the header,
  -- but for the extension bit, which is false, the interval, which is 44100, and the random seed.
  pub read_block-write_block :
      length h.csrcs ≤ 7
      → ((write_block net h d len).0 ≡ 3 + length h.csrcs)
        × (read_block net rand_r h0 (write_block net h d len).1 len
            ≡ some (
              3 + length h.csrcs,
              record h {
                extension_bit = false;
                timestamp_interval = 44100;
                random_seedp = (rand_r h0.random_seedp).1;
              },
            ))
  unfolding header_words
  read_block-write_block few = (
    ap (λ p. p.0) write_sent,
    read_sent ∙ (rw (le→ltb 7 (length h.csrcs) few, le→ltb len (3 + length h.csrcs) room)),
  )

  -- With 8 sources or more the bit read as the extension bit is set, and the length returned counts
  -- the low half of the word at `4 + csrcCount ()` of the array, which the header does not define:
  -- 0 is returned where the sum exceeds the array.
  pub read_block_many_csrcs :
      (w : ℕ)
      → 8 ≤ length h.csrcs
      → load net d (4 + length h.csrcs) ≡ some w
      → read_block net rand_r h0 (write_block net h d len).1 len
        ≡ some (
          if ltb len (3 + length h.csrcs + w % 2 ^ 16) then 0 else 3 + length h.csrcs + w % 2 ^ 16,
          record h {
            extension_bit = true;
            timestamp_interval = 44100;
            random_seedp = (rand_r h0.random_seedp).1;
          },
        )
  unfolding header_words
  read_block_many_csrcs w many stale =
      read_sent ∙ (rw (lt→ltb 7 (length h.csrcs) many, sent_behind, stale, mask-bit_and 16 w))

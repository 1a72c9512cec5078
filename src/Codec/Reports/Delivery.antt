-- ===== src/Codec/Reports/Delivery.antt =====
-- A report that one side generates, and what the other side takes from it.
use net_isdn.Common.{
  ℕ, ◌+◌, ◌-◌, ◌*◌, ◌%◌, ◌^◌, ◌≤◌, ◌<◌, ◌≡◌, refl, sym, ap, min, true, false, some, List, [], ◌∷◌,
  ◌++◌, append-nil, length, take, take-length, leb, ◌==◌, Word, arith, Bool-cases, inl, inr,
}
use net_isdn.Common.Bits.{◌>>◌, bit_or-shift, mask-bit_and, bit_and-mask}
use net_isdn.Rtp.Wire.{ByteOrder, All, IsWord}
use net_isdn.Rtp.Bytes.{IsByte}
use net_isdn.Rtp.Block.{Fractions, ReceptionBlock}
use net_isdn.Rtp.Block.RoundTrip.{IsBlock}
use net_isdn.Rtp.Sender.{SenderReport, blocks_sent, write_sender_report}
use net_isdn.Rtp.Sender.RoundTrip.{IsReport, received_report, written_report}
use net_isdn.Rtp.Source.{
  SourceDescription, Chunk, total_size, copy_bytes, has_type, add_chunk, until_nul, chunk_string,
  chunk_data, write_source,
}
use net_isdn.Rtp.Source.RoundTrip.{IsSource}
use net_isdn.Rtp.Compound.{new_control_header, read_control}
use net_isdn.Rtp.Compound.RoundTrip.{received, kept_source, read_control-written}
use net_isdn.Codec.Gpio.{gpio_chunk, changes}
use net_isdn.Codec.Gpio.Signals.{read_private-gpio_chunk}
use net_isdn.Codec.Stats.{CodecStats}
use net_isdn.Codec.Reports.{
  take_blocks, Endpoint, chunk_cname, chunk_priv, own_block, own_report, own_description, reported,
  has_news, generate_packet, take_chunk, take_chunks, take_description, take_report, receive_data,
}

-- A codec whose members fit the wire, with a name of at most 255 characters of one byte, none NUL.
pub record IsEndpoint {D : Type 0} (c : Endpoint D) : Type 0 where
  pub ssrc : IsWord c.ssrc
  pub packets : IsWord c.transmit_packets
  pub octets : IsWord c.transmit_octets
  pub lines : IsWord c.trans_gpio
  pub hi : c.receiver.sequence_hi_number < 2 ^ 16
  pub cname_length : length c.transmit_cname ≤ 255
  pub cname_bytes : All IsByte c.transmit_cname
  pub cname_text : All (λ b. 0 < b) c.transmit_cname

until_nul-text : (text : Word) → All (λ b. 0 < b) text → until_nul (text ++ (0 ∷ [])) ≡ some text
unfolding until_nul
until_nul-text [] h = refl
until_nul-text (b ∷ bs) (pos, rest) =
    let other : b == 0 ≡ false = ground (arith, pos) in rw (other, until_nul-text bs rest) refl

length-gpio_chunk : (lines : ℕ) → length (gpio_chunk lines) ≡ 9
unfolding gpio_chunk
length-gpio_chunk lines = refl

take-gpio_chunk : (lines : ℕ) → take 9 (gpio_chunk lines) ≡ gpio_chunk lines
unfolding gpio_chunk
take-gpio_chunk lines = refl

gpio_chunk-AllBytes : (lines : ℕ) → All IsByte (gpio_chunk lines)
unfolding gpio_chunk
gpio_chunk-AllBytes lines =
    rw
      (
        bit_and-mask 8 (lines >> 24),
        bit_and-mask 8 (lines >> 16),
        bit_and-mask 8 (lines >> 8),
        bit_and-mask 8 lines,
      )
      (
        omega arith,
        (
          omega arith,
          (
            omega arith,
            (
              omega arith,
              (omega arith, (omega arith, (omega arith, (omega arith, (omega arith, tt))))),
            ),
          ),
        ),
      )

copy_all : (bytes : List ℕ) (n : ℕ) → n ≡ length bytes → copy_bytes n bytes ≡ some bytes
copy_all bytes n same =
    let all : leb (length bytes) (length bytes) ≡ true = ground arith in
    rw (same, all, take-length bytes) refl

copied_lines : (lines : ℕ) → copy_bytes 9 (gpio_chunk lines ++ (0 ∷ [])) ≡ some (gpio_chunk lines)
unfolding gpio_chunk
copied_lines lines = refl

module _ {D : Type 0} (fr : Fractions D) (net : ByteOrder) (ratio : ℕ → ℕ → D) where
  pub cname_chunk : Endpoint D → Chunk
  cname_chunk c = record {
    type = chunk_cname;
    length = length c.transmit_cname;
    string = c.transmit_cname;
  }

  pub lines_chunk : Endpoint D → Chunk
  lines_chunk c = record { type = chunk_priv; length = 9; string = gpio_chunk c.trans_gpio }

  abbrev pub described : Endpoint D → SourceDescription
  described c = record {
    version = 2;
    padding_bit = false;
    chunks = cname_chunk c ∷ lines_chunk c ∷ [];
    ssrcs = c.ssrc ∷ c.ssrc ∷ [];
  }

  own_description-described :
      (c : Endpoint D) → IsEndpoint c → own_description fr net c ≡ some (described c)
  unfolding own_description add_chunk has_type cname_chunk lines_chunk
  own_description-described c f =
      let n = length c.transmit_cname in
      let short : min n 255 ≡ n = omega (arith, f.cname_length) in
      let first : copy_bytes n c.transmit_cname ≡ some c.transmit_cname =
        copy_all c.transmit_cname n refl in
      let second : copy_bytes 9 (gpio_chunk c.trans_gpio) ≡ some (gpio_chunk c.trans_gpio) =
        copy_all (gpio_chunk c.trans_gpio) 9 (sym (length-gpio_chunk c.trans_gpio)) in
      rw (short, first, second) refl

  pub described-IsSource : (c : Endpoint D) → IsEndpoint c → IsSource (described c)
  unfolding cname_chunk lines_chunk
  described-IsSource c f = record {
    version = omega arith;
    some_chunk = omega arith;
    count = omega arith;
    chunks = (
      record {
        type = omega arith;
        length = omega (arith, f.cname_length);
        string = omega arith;
        bytes = rw (take-length c.transmit_cname) f.cname_bytes;
      },
      (
        record {
          type = omega arith;
          length = omega arith;
          string = omega (arith, length-gpio_chunk c.trans_gpio);
          bytes = rw (take-gpio_chunk c.trans_gpio) (gpio_chunk-AllBytes c.trans_gpio);
        },
        tt,
      ),
    );
    some_ssrc = omega arith;
  }

  own_block-IsBlock : (c : Endpoint D) → IsEndpoint c → IsBlock (own_block fr net ratio c)
  own_block-IsBlock c f =
      let v = c.receiver in
      record {
        ssrc = f.ssrc;
        highest = rw (mask-bit_and 16 v.sequence_lo_number) (
            rw (bit_or-shift 16 v.sequence_hi_number (v.sequence_lo_number % 2 ^ 16) (omega arith))
              (omega (arith, f.hi)));
        jitter = omega arith;
        last_report = rw (mask-bit_and 32 (v.ntp_timestamp >> 16)) (omega arith);
        delay = omega arith;
      }

  pub record SmallReport (r : SenderReport D) : Type 0 where
    pub fits : IsReport r
    pub plain : r.padding_bit ≡ false
    pub version : r.version ≡ 2
    pub blocks : length r.reception_blocks ≤ 1

  pub own_report-Small :
      (c : Endpoint D) (ntp : ℕ)
      → IsEndpoint c
      → ntp < 2 ^ 64
      → SmallReport (own_report fr net ratio ntp c)
  unfolding own_report
  own_report-Small c ntp f time = elim (Bool-cases (has_news c.receiver)) [
    | inl e ↦ rw e (record {
      fits = record {
        version = omega arith;
        ssrc = f.ssrc;
        ntp = time;
        stamp = omega arith;
        packets = f.packets;
        octets = f.octets;
        count = omega arith;
        blocks = (own_block-IsBlock c f, tt);
      };
      plain = refl;
      version = refl;
      blocks = omega arith;
    })
    | inr e ↦ rw e (record {
      fits = record {
        version = omega arith;
        ssrc = f.ssrc;
        ntp = time;
        stamp = omega arith;
        packets = f.packets;
        octets = f.octets;
        count = omega arith;
        blocks = tt;
      };
      plain = refl;
      version = refl;
      blocks = omega arith;
    })
  ]

  -- The codec of the other side after the description.
  abbrev pub told : Endpoint D → Endpoint D → Endpoint D
  told c other = record other {
    recv_gpio = c.trans_gpio;
    stats = record other.stats { reception_cname = c.transmit_cname };
  }

  take_cname :
      (c other : Endpoint D) (v : ℕ)
      → IsEndpoint c
      → take_chunk fr net other (kept_source fr net (described c) v) 0 chunk_cname
        ≡ some
            (record other { stats = record other.stats { reception_cname = c.transmit_cname } }, [])
  unfolding take_chunk chunk_string cname_chunk
  take_cname c other v f =
      rw (take-length c.transmit_cname, until_nul-text c.transmit_cname f.cname_text) refl

  take_lines :
      (c other : Endpoint D) (v : ℕ)
      → IsEndpoint c
      → take_chunk fr net other (kept_source fr net (described c) v) 1 chunk_priv
        ≡ some
            (record other { recv_gpio = c.trans_gpio }, changes c.trans_gpio other.recv_gpio 0 32)
  unfolding take_chunk chunk_data lines_chunk
  take_lines c other v f =
      let bytes = gpio_chunk c.trans_gpio in
      let copied : copy_bytes 9 (bytes ++ (0 ∷ [])) ≡ some bytes = copied_lines c.trans_gpio in
      rw
        (
          take-gpio_chunk c.trans_gpio,
          copied,
          length-gpio_chunk c.trans_gpio,
          read_private-gpio_chunk other.recv_gpio c.trans_gpio f.lines,
        )
        refl

  pub take_description-told :
      (c other : Endpoint D) (v : ℕ)
      → IsEndpoint c
      → take_description fr net other (some (kept_source fr net (described c) v))
        ≡ some (told c other, changes c.trans_gpio other.recv_gpio 0 32)
  unfolding take_chunks cname_chunk lines_chunk
  take_description-told c other v f =
      let named = record other {
        stats = record other.stats { reception_cname = c.transmit_cname };
      } in
      rw
        (
          take_cname c other v f,
          take_lines c named v f,
          append-nil (changes c.trans_gpio other.recv_gpio 0 32),
        )
        refl

  -- What the other side has of a codec after its report.
  pub record Delivered (c other : Endpoint D) (ntp n : ℕ) (e : List ℕ) : Type 0 where
    pub codec : Endpoint D
    pub receives :
        receive_data fr net other e (4 * n)
        ≡ some (codec, changes c.trans_gpio other.recv_gpio 0 32, false)
    pub lines : codec.recv_gpio ≡ c.trans_gpio
    pub cname : codec.stats.reception_cname ≡ c.transmit_cname
    pub time : codec.receiver.ntp_timestamp ≡ ntp

  pub generated :
      (c : Endpoint D) (ntp n total : ℕ) (d e : List ℕ)
      → IsEndpoint c
      → write_source net
          (described c)
          (write_sender_report fr net (own_report fr net ratio ntp c) d 0 (length d)).1
          (write_sender_report fr net (own_report fr net ratio ntp c) d 0 (length d)).0
          (length d - (write_sender_report fr net (own_report fr net ratio ntp c) d 0 (length d)).0)
        ≡ some (total, e)
      → (write_sender_report fr net (own_report fr net ratio ntp c) d 0 (length d)).0 ≡ n
      → generate_packet fr net ratio ntp c d (length d)
        ≡ some (n + total, e, record c { receiver = reported c.receiver })
  unfolding generate_packet
  generated c ntp n total d e f wrote size =
      rw (own_description-described c f, wrote)
        (ap (λ k. some (k + total, e, record c { receiver = reported c.receiver })) size)

  take_blocks-cname :
      (st : CodecStats D) (bs : List (ReceptionBlock D))
      → (take_blocks fr net st bs).reception_cname ≡ st.reception_cname
  unfolding take_blocks
  take_blocks-cname st [] = refl
  take_blocks-cname st (b ∷ bs) = refl

  delivered :
      (c other : Endpoint D) (ntp v n : ℕ) (e : List ℕ)
      → IsEndpoint c
      → read_control fr net (new_control_header 2) e (4 * n)
        ≡ some (received fr net 2 (own_report fr net ratio ntp c) (described c) v)
      → Delivered c other ntp n e
  unfolding receive_data own_report take_report
  delivered c other ntp v n e f read = record {
    codec =
        take_report fr net (told c other) (received_report fr net (own_report fr net ratio ntp c));
    receives = rw (read, take_description-told c other v f) refl;
    lines = refl;
    cname =
        take_blocks-cname _
          (received_report fr net (own_report fr net ratio ntp c)).reception_blocks;
    time = refl;
  }

  pub blocks_sent-small : (m : ℕ) → m ≤ 1 → blocks_sent m ≡ 1
  unfolding blocks_sent
  blocks_sent-small m h = ground arith

  pub total_size-described : (c : Endpoint D) → IsEndpoint c → total_size (described c).chunks ≤ 72
  unfolding total_size cname_chunk lines_chunk
  total_size-described c f = omega (arith, f.cname_length)

  -- What a codec that fits the wire generates at a 64-bit time, into an array of at least 100 words,
  -- the other side takes: its lines, with the signals of the lines that change, its name and its time.
  pub generate_packet-Delivered :
      (c other : Endpoint D) (ntp : ℕ) (d : List ℕ)
      → IsEndpoint c
      → ntp < 2 ^ 64
      → 100 ≤ length d
      → (n : ℕ) × (e : List ℕ) × (generate_packet fr net ratio ntp c d (length d)
          ≡ some (n, e, record c { receiver = reported c.receiver }))
        × Delivered c other ntp n e
  generate_packet-Delivered c other ntp d f time room =
      let r = own_report fr net ratio ntp c in
      let s = described c in
      let small = own_report-Small c ntp f time in
      let g = described-IsSource c f in
      let m = length r.reception_blocks in
      let one : blocks_sent m ≡ 1 = blocks_sent-small m small.blocks in
      let most = total_size-described c f in
      let n = 7 + 6 * blocks_sent m in
      let total = total_size s.chunks in
      let (size, words) =
        written_report fr net r d 0 (length d) small.fits small.plain (omega arith)
          (omega (arith, small.blocks)) in
      let (e, v, wrote, third, read) =
        read_control-written fr net r s d 2 (length d) small.fits small.plain g small.version refl
          (omega arith) (omega arith) (omega arith) in
      (
        n + total,
        e,
        generated c ntp n total d e f wrote size,
        delivered c other ntp v (n + total) e f read,
      )

-- ===== src/Rtp/Block.antt =====
-- lib/rtpreceptionblock.cpp: the report on one source, a part of the sender and reception reports.
pub mod RoundTrip
use net_isdn.Common.{
  ℕ, zero, suc, ◌+◌, ◌<◌, ◌≡◌, bit_and, bit_or, Option, some, List, [], ◌∷◌, ltb, if◌then◌else◌,
  ◌>>=◌,
}
use net_isdn.Common.Bits.{◌<<◌, ◌>>◌}
use net_isdn.Rtp.Wire.{ByteOrder, load, store_words}

-- The `double` of a fraction of packets: `(uint32_t)(256.0*f)` and `((double)n)/256.0`. The division
-- by a power of two is exact, so a number below 256 comes back.
pub record Fractions (D : Type 0) : Type 0 where
  pub nothing : D
  pub parts : D → ℕ
  pub of_parts : ℕ → D
  pub parts-of_parts : (n : ℕ) → n < 256 → parts (of_parts n) ≡ n

-- The accessors of the class are the fields, its setters updates of them.
pub record ReceptionBlock (D : Type 0) : Type 0 where
  pub ssrc : ℕ
  pub fraction_packets_lost : D
  pub cumulative_packets_lost : ℕ
  pub highest_sequence_number : ℕ
  pub interarrival_jitter : ℕ
  pub last_send_report_timestamp : ℕ
  pub send_report_delay : ℕ

-- `RTPRECEPTIONBLOCK_MAX_SIZE`
abbrev pub block_size : ℕ
block_size = 6

module _ {D : Type 0} (fr : Fractions D) where
  -- `clear`, and the constructor.
  abbrev pub cleared_block : ReceptionBlock D
  cleared_block = record {
    ssrc = 0;
    fraction_packets_lost = fr.nothing;
    cumulative_packets_lost = 0;
    highest_sequence_number = 0;
    interarrival_jitter = 0;
    last_send_report_timestamp = 0;
    send_report_delay = 0;
  }

  abbrev pub new_block : ℕ → ReceptionBlock D
  new_block ssrc = record cleared_block { ssrc = ssrc }

  -- The word of the two counts of lost packets.
  unfoldable pub lost_word : ReceptionBlock D → ℕ
  lost_word b =
      bit_or (bit_and 0x0f (fr.parts b.fraction_packets_lost) << 24)
        (bit_and 0x07ff b.cumulative_packets_lost)

  module _ (net : ByteOrder) where
    -- `readBlock (data + at)`, which returns the size; `none`: it reads outside of `d`.
    unfoldable pub read_reception_block : List ℕ → ℕ → Option (ℕ × ReceptionBlock D)
    read_reception_block d at = do
      ssrc ← load net d at
      lost ← load net d (at + 1)
      highest ← load net d (at + 2)
      jitter ← load net d (at + 3)
      last_report ← load net d (at + 4)
      delay ← load net d (at + 5)
      some (
        block_size,
        record {
          ssrc = ssrc;
          fraction_packets_lost = fr.of_parts (bit_and 0xff (lost >> 24));
          cumulative_packets_lost = bit_and 0x7ff lost;
          highest_sequence_number = highest;
          interarrival_jitter = jitter;
          last_send_report_timestamp = last_report;
          send_report_delay = delay;
        },
      )

    -- The words of `writeBlock`, and the call on `data + at`.
    abbrev pub block_words : ReceptionBlock D → List ℕ
    block_words b =
        b.ssrc
        ∷ lost_word b
        ∷ b.highest_sequence_number
        ∷ b.interarrival_jitter
        ∷ b.last_send_report_timestamp
        ∷ b.send_report_delay
        ∷ []

    unfoldable pub write_reception_block : ReceptionBlock D → List ℕ → ℕ → ℕ → ℕ × List ℕ
    write_reception_block b d at len =
        if ltb len block_size then (0, d) else (block_size, store_words net d at (block_words b))

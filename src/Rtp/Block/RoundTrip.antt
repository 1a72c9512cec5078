-- ===== src/Rtp/Block/RoundTrip.antt =====
-- `readBlock` after the words of `writeBlock`, for one block and for the blocks of a report.
use net_isdn.Common.{ℕ, ◌+◌, ◌*◌, ◌%◌, ◌^◌, ◌≡◌, refl, ◌∙◌, bit_and, some, List, arith}
use net_isdn.Common.Bits.{◌>>◌, bit_or-shift, mask-bit_and}
use net_isdn.Rtp.Wire.{ByteOrder, All, IsWord, load_words, load_words-get}
use net_isdn.Rtp.Block.{
  Fractions, ReceptionBlock, block_size, lost_word, read_reception_block, block_words,
}

pub record IsBlock {D : Type 0} (b : ReceptionBlock D) : Type 0 where
  pub ssrc : IsWord b.ssrc
  pub highest : IsWord b.highest_sequence_number
  pub jitter : IsWord b.interarrival_jitter
  pub last_report : IsWord b.last_send_report_timestamp
  pub delay : IsWord b.send_report_delay

module _ {D : Type 0} (fr : Fractions D) where
  -- What is left of a block on the wire: four bits of the fraction and eleven of the count.
  abbrev pub received_block : ReceptionBlock D → ReceptionBlock D
  received_block b = record b {
    fraction_packets_lost = fr.of_parts (fr.parts b.fraction_packets_lost % 16);
    cumulative_packets_lost = b.cumulative_packets_lost % 2 ^ 11;
  }

  lost_word_sum :
      (b : ReceptionBlock D)
      → lost_word fr b
        ≡ fr.parts b.fraction_packets_lost % 16 * 2 ^ 24 + b.cumulative_packets_lost % 2 ^ 11
  unfolding lost_word
  lost_word_sum b =
      rw
        (
          mask-bit_and 4 (fr.parts b.fraction_packets_lost),
          mask-bit_and 11 b.cumulative_packets_lost,
        )
        (bit_or-shift 24 (fr.parts b.fraction_packets_lost % 16)
          (b.cumulative_packets_lost % 2 ^ 11) (omega arith))

  fraction_read :
      (b : ReceptionBlock D)
      → bit_and 0xff (lost_word fr b >> 24) ≡ fr.parts b.fraction_packets_lost % 16
  fraction_read b = mask-bit_and 8 (lost_word fr b >> 24) ∙ omega (arith, lost_word_sum b)

  cumulative_read :
      (b : ReceptionBlock D) → bit_and 0x7ff (lost_word fr b) ≡ b.cumulative_packets_lost % 2 ^ 11
  cumulative_read b = mask-bit_and 11 (lost_word fr b) ∙ omega (arith, lost_word_sum b)

  module _ (net : ByteOrder) where
    pub block_words-AllWords :
        (b : ReceptionBlock D) → IsBlock b → All IsWord (block_words fr net b)
    block_words-AllWords b f = (
      f.ssrc,
      (omega (arith, lost_word_sum b), (f.highest, (f.jitter, (f.last_report, (f.delay, tt))))),
    )

    -- Where the six words of a block stand, readBlock gives what is left of it.
    pub read_reception_block-words :
        (b : ReceptionBlock D) (d : List ℕ) (at : ℕ)
        → load_words net d at 6 ≡ some (block_words fr net b)
        → read_reception_block fr net d at ≡ some (block_size, received_block b)
    unfolding read_reception_block
    read_reception_block-words b d at h =
        let ws = block_words fr net b in
        rw
          (
            load_words-get net d ws at at 0 b.ssrc h (omega arith) refl,
            load_words-get net d ws at (at + 1) 1 (lost_word fr b) h refl refl,
            load_words-get net d ws at (at + 2) 2 b.highest_sequence_number h refl refl,
            load_words-get net d ws at (at + 3) 3 b.interarrival_jitter h refl refl,
            load_words-get net d ws at (at + 4) 4 b.last_send_report_timestamp h refl refl,
            load_words-get net d ws at (at + 5) 5 b.send_report_delay h refl refl,
            fraction_read b,
            cumulative_read b,
          )
          refl

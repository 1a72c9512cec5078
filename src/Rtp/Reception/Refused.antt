-- ===== src/Rtp/Reception/Refused.antt =====
-- No reception report of version 2 is read back.
use net_isdn.Common.{
  ℕ, ◌+◌, ◌-◌, ◌*◌, ◌/◌, ◌%◌, ◌^◌, ◌≤◌, ◌<◌, ◌≡◌, ◌≢◌, refl, sym, ap, ◌∙◌, bit_and, true, false,
  some, List, [], ◌∷◌, length, le→ltb, ◌==◌, arith, Bool-cases, inl, inr,
}
use net_isdn.Common.Bits.{◌>>◌, mask-bit_and}
use net_isdn.Rtp.Wire.{
  ByteOrder, All, IsWord, load, store, load-store_self, load-store_ne, length-store_words,
  load-store_words, store_words,
}
use net_isdn.Rtp.Head.{head_word, head_word_plain, head_word-plain_reads}
use net_isdn.Rtp.Block.{Fractions, ReceptionBlock, lost_word}
use net_isdn.Rtp.Block.RoundTrip.{IsBlock}
use net_isdn.Rtp.Sender.{max_blocks, blocks_sent, write_blocks}
use net_isdn.Rtp.Sender.RoundTrip.{
  zero_words-before, write_blocks-words, blocks_words, blocks_sent-le,
}
use net_isdn.Rtp.Reception.{
  ReceptionReport, reception_pt, cleared_reception, read_reception_report, reception_words,
  write_reception_report,
}

module _ {D : Type 0} where
  pub record IsReception (r : ReceptionReport D) : Type 0 where
    pub version : r.version < 4
    pub ssrc : IsWord r.ssrc
    pub count : length r.reception_blocks ≤ max_blocks
    pub blocks : All IsBlock r.reception_blocks

  module _ (fr : Fractions D) (net : ByteOrder) where
    -- A packet whose first word has an upper half other than 201, as every word of version 1 to 3.
    read_refused :
        (d : List ℕ) (at w : ℕ)
        → load net d at ≡ some w
        → w / 2 ^ 16 % 2 ^ 16 ≢ 201
        → read_reception_report fr net d at ≡ some (0, cleared_reception)
    unfolding read_reception_report
    read_refused d at w h ne =
        let other : bit_and 0xffff (w >> 16) == reception_pt ≡ false =
          rw (mask-bit_and 16 (w >> 16)) (ground arith) in
        rw (h, other) refl

    first_ssrc : List (ReceptionBlock D) → ℕ → ℕ
    first_ssrc [] w = w
    first_ssrc (b ∷ bs) w = b.ssrc

    abbrev head : ReceptionReport D → ℕ
    head r =
        head_word r.version r.padding_bit (length r.reception_blocks) reception_pt
          (2 + 6 * blocks_sent (length r.reception_blocks) - 1)

    first_stored :
        (r : ReceptionReport D) (d : List ℕ) (at : ℕ)
        → IsWord (head r)
        → at < length d
        → load net (store_words net d at (reception_words fr net r)) at ≡ some (head r)
    unfolding store_words
    first_stored r d at word lt =
        load-store_ne net (store net d at (head r)) (at + 1) at r.ssrc (λ e. absurd (omega arith))
        ∙ load-store_self net d at (head r) lt word

    first_ssrc_none :
        (bs : List (ReceptionBlock D)) (w : ℕ) → length bs == 0 ≡ true → first_ssrc bs w ≡ w
    unfolding first_ssrc
    first_ssrc_none [] w e = refl
    first_ssrc_none (b ∷ bs) w e = ground arith

    -- All but the first word of the blocks.
    abbrev block_tail : ReceptionBlock D → List (ReceptionBlock D) → List ℕ
    block_tail b bs =
        lost_word fr b
        ∷ b.highest_sequence_number
        ∷ b.interarrival_jitter
        ∷ b.last_send_report_timestamp
        ∷ b.send_report_delay
        ∷ blocks_words fr net bs

    blocks_first :
        (bs : List (ReceptionBlock D)) (d : List ℕ) (at w : ℕ)
        → load net d at ≡ some w
        → All IsBlock bs
        → at < length d
        → load net (write_blocks fr net d at bs) at ≡ some (first_ssrc bs w)
    unfolding first_ssrc write_blocks blocks_words store_words
    blocks_first [] d at w h a lt = h
    blocks_first (b ∷ bs) d at w h a lt =
        ap (λ l. load net l at) (write_blocks-words fr net d at (b ∷ bs))
        ∙ load-store_words net (store net d at b.ssrc) (at + 1) (block_tail b bs) at (omega arith)
        ∙ load-store_self net d at b.ssrc lt (a.0.ssrc)

    -- What stands in the first word of a packet that was written.
    first_written :
        (r : ReceptionReport D) (d : List ℕ) (at len : ℕ)
        → IsReception r
        → r.padding_bit ≡ false
        → 2 + 6 * blocks_sent (length r.reception_blocks) ≤ len
        → at + (2 + 6 * blocks_sent (length r.reception_blocks)) ≤ length d
        → load net (write_reception_report fr net r d at len).1 at
          ≡ some (first_ssrc r.reception_blocks (head r))
    unfolding write_reception_report
    first_written r d at len f plain room array =
        let n = length r.reception_blocks in
        let headed = store_words net d at (reception_words fr net r) in
        let le = blocks_sent-le fr net n f.count in
        let word : IsWord (head r) =
          rw plain
            (head_word-plain_reads r.version n reception_pt (2 + 6 * blocks_sent n - 1) f.version
              (omega (arith, f.count)) (omega arith) (omega (arith, le.0, le.1))).word in
        let at_first : load net headed at ≡ some (head r) =
          first_stored r d at word (omega (arith, le.0)) in
        rw (le→ltb len (2 + 6 * blocks_sent n) room) (elim (Bool-cases (n == 0)) [
          | inl e ↦ rw e (
              zero_words-before net headed (at + 2) 6 at (omega arith)
              ∙ at_first
              ∙ ap some (sym (first_ssrc_none r.reception_blocks (head r) e)))
          | inr e ↦ rw e (
              blocks_first r.reception_blocks headed at (head r) at_first f.blocks
                (rw (length-store_words net d at (reception_words fr net r)) (omega (arith, le.0))))
        ])

    first_other :
        (bs : List (ReceptionBlock D)) (w : ℕ)
        → All IsBlock bs
        → All (λ b. b.ssrc / 2 ^ 16 ≢ 201) bs
        → w / 2 ^ 16 % 2 ^ 16 ≢ 201
        → first_ssrc bs w / 2 ^ 16 % 2 ^ 16 ≢ 201
    unfolding first_ssrc
    first_other [] w a o h e = h e
    first_other (b ∷ bs) w a o h e = o.0 (omega (arith, a.0.ssrc))

    -- A report of version 1 to 3 without the padding bit that fits the wire, written to an array with
    -- room for it, where the source of no block has an upper half of 201, is refused by readBlock,
    -- with 0 and a cleared report: the first word holds the version beside the type, or the source
    -- of the first block.
    pub read_reception_report-write :
        (r : ReceptionReport D) (d : List ℕ) (at len : ℕ)
        → IsReception r
        → 0 < r.version
        → r.padding_bit ≡ false
        → 2 + 6 * blocks_sent (length r.reception_blocks) ≤ len
        → at + (2 + 6 * blocks_sent (length r.reception_blocks)) ≤ length d
        → All (λ b. b.ssrc / 2 ^ 16 ≢ 201) r.reception_blocks
        → read_reception_report fr net (write_reception_report fr net r d at len).1 at
          ≡ some (0, cleared_reception)
    read_reception_report-write r d at len f pos plain room array others =
        let n = length r.reception_blocks in
        let le = blocks_sent-le fr net n f.count in
        let sum : head r
            ≡ r.version * 2 ^ 30
              + 0 * 2 ^ 28
              + n * 2 ^ 24
              + 201 * 2 ^ 16
              + (2 + 6 * blocks_sent n - 1) =
          rw plain (
            head_word_plain r.version n reception_pt (2 + 6 * blocks_sent n - 1) f.version
              (omega (arith, f.count)) (omega arith) (omega (arith, le.0, le.1))) in
        read_refused (write_reception_report fr net r d at len).1 at
          (first_ssrc r.reception_blocks (head r)) (first_written r d at len f plain room array)
          (first_other r.reception_blocks (head r) f.blocks others
            (λ e. absurd (omega (arith, f.version, f.count, le.0, le.1))))

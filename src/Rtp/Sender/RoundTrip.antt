-- ===== src/Rtp/Sender/RoundTrip.antt =====
-- `readBlock` after `writeBlock` of a sender report.
use mathlib.Core.Option
use net_isdn.Common.{
  ℕ, zero, suc, ◌+◌, ◌-◌, ◌*◌, ◌/◌, ◌%◌, ◌^◌, ◌≤◌, ◌<◌, ◌≡◌, refl, sym, ap, ◌∙◌, bit_and, bit_or,
  false, some, List, [], ◌∷◌, ◌++◌, map, length, length-append, set, get_elem?-set_ne, ltb, le→ltb,
  ◌==◌, arith, Bool-cases, inl, inr,
}
use net_isdn.Common.Bits.{◌<<◌, ◌>>◌, bit_or-shift, mask-bit_and}
use net_isdn.Rtp.Wire.{
  ByteOrder, All, IsWord, load, load_words, load_words-get, store_words, store_words-append,
  load_words-append, load_words-store_words, load_words_same, load-store_words, All-append,
}
use net_isdn.Rtp.Head.{head_word, HeadReads, head_word-plain_reads}
use net_isdn.Rtp.Block.{Fractions, ReceptionBlock, block_size, block_words, write_reception_block}
use net_isdn.Rtp.Block.RoundTrip.{
  IsBlock, received_block, block_words-AllWords, read_reception_block-words,
}
use net_isdn.Rtp.Sender.{
  SenderReport, sender_pt, max_blocks, sender_base_size, blocks_sent, zero_words, read_blocks,
  write_blocks, read_sender_report, sender_words, write_sender_report,
}

module _ (net : ByteOrder) where
  pub zero_words-before :
      (d : List ℕ) (i n j : ℕ) → j < i → load net (zero_words d i n) j ≡ load net d j
  unfolding zero_words
  zero_words-before d i zero j h = refl
  zero_words-before d i (suc n) j h =
      zero_words-before (set d i 0) (i + 1) n j (omega arith)
      ∙ ap (Option.map net.ntohl) (get_elem?-set_ne d i j 0 (λ e. absurd (omega arith)))

module _ {D : Type 0} where
  -- A report whose fields fit the wire.
  pub record IsReport (r : SenderReport D) : Type 0 where
    pub version : r.version < 4
    pub ssrc : IsWord r.ssrc
    pub ntp : r.ntp_timestamp < 2 ^ 64
    pub stamp : IsWord r.rtp_timestamp
    pub packets : IsWord r.sender_packet_count
    pub octets : IsWord r.sender_octet_count
    pub count : length r.reception_blocks ≤ max_blocks
    pub blocks : All IsBlock r.reception_blocks

  module _ (fr : Fractions D) (net : ByteOrder) where
    -- The words of the blocks of a report.
    unfoldable pub blocks_words : List (ReceptionBlock D) → List ℕ
    blocks_words [] = []
    blocks_words (b ∷ bs) = block_words fr net b ++ blocks_words bs

    pub length-blocks_words :
        (bs : List (ReceptionBlock D)) → length (blocks_words bs) ≡ 6 * length bs
    unfolding blocks_words
    length-blocks_words [] = refl
    length-blocks_words (b ∷ bs) =
        omega
          (arith, length-append (block_words fr net b) (blocks_words bs), length-blocks_words bs)

    blocks_words-AllWords :
        (bs : List (ReceptionBlock D)) → All IsBlock bs → All IsWord (blocks_words bs)
    unfolding blocks_words
    blocks_words-AllWords [] h = tt
    blocks_words-AllWords (b ∷ bs) (hb, hbs) =
        All-append IsWord (block_words fr net b) (blocks_words bs)
          (block_words-AllWords fr net b hb) (blocks_words-AllWords bs hbs)

    pub write_blocks-words :
        (d : List ℕ) (at : ℕ) (bs : List (ReceptionBlock D))
        → write_blocks fr net d at bs ≡ store_words net d at (blocks_words bs)
    unfolding write_blocks blocks_words write_reception_block store_words
    write_blocks-words d at [] = refl
    write_blocks-words d at (b ∷ bs) =
        write_blocks-words (store_words net d at (block_words fr net b)) (at + 6) bs
        ∙ sym (store_words-append net d at (block_words fr net b) (blocks_words bs))

    pub read_blocks-words :
        (d : List ℕ) (at : ℕ) (bs : List (ReceptionBlock D))
        → load_words net d at (length (blocks_words bs)) ≡ some (blocks_words bs)
        → read_blocks fr net d at (length bs) ≡ some (map (received_block fr) bs)
    unfolding read_blocks blocks_words
    read_blocks-words d at [] h = refl
    read_blocks-words d at (b ∷ bs) h =
        let (first, rest) = load_words-append net d at (block_words fr net b) (blocks_words bs) h in
        rw (read_reception_block-words fr net b d at first, read_blocks-words d (at + 6) bs rest)
          refl

    -- The words of a report that a reader looks at.
    abbrev pub report_words : SenderReport D → List ℕ
    report_words r = sender_words fr net r ++ blocks_words r.reception_blocks

    -- What is left of a report on the wire.
    abbrev pub received_report : SenderReport D → SenderReport D
    received_report r = record r {
      padding_bit = ltb 15 (length r.reception_blocks);
      reception_blocks = map (received_block fr) r.reception_blocks;
    }

    pub blocks_sent-le : (n : ℕ) → n ≤ max_blocks → (1 ≤ blocks_sent n) × (blocks_sent n ≤ 31)
    unfolding blocks_sent
    blocks_sent-le n h = ground arith

    ntp_joined :
        (t : ℕ)
        → t < 2 ^ 64
        → bit_or (bit_and 0xffffffff (t >> 32) << 32) (bit_and 0xffffffff t) ≡ t
    ntp_joined t h =
        rw (mask-bit_and 32 (t >> 32), mask-bit_and 32 t)
          (bit_or-shift 32 (t / 2 ^ 32 % 2 ^ 32) (t % 2 ^ 32) (omega arith) ∙ omega arith)

    pub head-HeadReads :
        (r : SenderReport D)
        → IsReport r
        → r.padding_bit ≡ false
        → HeadReads
            (head_word r.version r.padding_bit
              (length r.reception_blocks)
              sender_pt
              (sender_base_size + block_size * blocks_sent (length r.reception_blocks) - 1))
            r.version
            (length r.reception_blocks)
            sender_pt
            (sender_base_size + block_size * blocks_sent (length r.reception_blocks) - 1)
            (ltb 15 (length r.reception_blocks))
    head-HeadReads r f plain =
        let n = length r.reception_blocks in
        let le = blocks_sent-le n f.count in
        rw plain (
          head_word-plain_reads r.version n sender_pt (7 + 6 * blocks_sent n - 1) f.version
            (omega (arith, f.count)) (omega arith) (omega (arith, le.0, le.1)))

    -- Where the words of a report stand, readBlock gives what is left of it.
    pub read_sender_report-words :
        (r : SenderReport D) (d : List ℕ) (at : ℕ)
        → IsReport r
        → r.padding_bit ≡ false
        → load_words net d at (length (report_words r)) ≡ some (report_words r)
        → read_sender_report fr net d at
          ≡ some (7 + length r.reception_blocks * 6, received_report r)
    unfolding read_sender_report
    read_sender_report-words r d at f plain h =
        let ws = sender_words fr net r in
        let bs = r.reception_blocks in
        let head = head-HeadReads r f plain in
        let (front, back) = load_words-append net d at ws (blocks_words bs) h in
        rw
          (
            load_words-get net d ws at at 0 _ front (omega arith) refl,
            head.type,
            load_words-get net d ws at (at + 1) 1 r.ssrc front refl refl,
            load_words-get net d ws at (at + 2) 2 _ front refl refl,
            load_words-get net d ws at (at + 3) 3 _ front refl refl,
            load_words-get net d ws at (at + 4) 4 r.rtp_timestamp front refl refl,
            load_words-get net d ws at (at + 5) 5 r.sender_packet_count front refl refl,
            load_words-get net d ws at (at + 6) 6 r.sender_octet_count front refl refl,
            head.count,
            head.version,
            head.padding,
            ntp_joined r.ntp_timestamp f.ntp,
            read_blocks-words d (at + 7) bs back,
          )
          refl

    report_words-AllWords :
        (r : SenderReport D) → IsReport r → r.padding_bit ≡ false → All IsWord (report_words r)
    report_words-AllWords r f plain = (
      (head-HeadReads r f plain).word,
      (
        f.ssrc,
        (
          rw (mask-bit_and 32 (r.ntp_timestamp >> 32)) (omega arith),
          (
            rw (mask-bit_and 32 r.ntp_timestamp) (omega arith),
            (f.stamp, (f.packets, (f.octets, blocks_words-AllWords r.reception_blocks f.blocks))),
          ),
        ),
      ),
    )

    -- The words of a report that were written.
    pub written_report :
        (r : SenderReport D) (d : List ℕ) (at len : ℕ)
        → IsReport r
        → r.padding_bit ≡ false
        → 7 + 6 * blocks_sent (length r.reception_blocks) ≤ len
        → at + (7 + 6 * length r.reception_blocks) ≤ length d
        → ((write_sender_report fr net r d at len).0
            ≡ 7 + 6 * blocks_sent (length r.reception_blocks))
          × (load_words net (write_sender_report fr net r d at len).1 at (length (report_words r))
              ≡ some (report_words r))
    unfolding write_sender_report
    written_report r d at len f plain room array =
        let n = length r.reception_blocks in
        let ws = report_words r in
        let size : length ws ≡ 7 + 6 * n = omega (arith, length-blocks_words r.reception_blocks) in
        let all = report_words-AllWords r f plain in
        let full = load_words-store_words net d at ws (omega arith) all in
        rw (le→ltb len (7 + 6 * blocks_sent n) room) (elim (Bool-cases (n == 0)) [
          | inl e ↦
              let headed = store_words net d at (sender_words fr net r) in
              let split =
                store_words-append net d at (sender_words fr net r)
                  (blocks_words r.reception_blocks) in
              rw e (
                refl,
                load_words_same net (zero_words headed (at + 7) 6) (store_words net d at ws) at
                      (length ws)
                      (λ j lo hi.
                        zero_words-before net headed (at + 7) 6 j (ground arith)
                        ∙ sym (
                            ap (λ l. load net l j) split
                            ∙ load-store_words net headed (at + 7) (blocks_words r.reception_blocks)
                                j (ground arith)))
                    ∙ full,
              )
          | inr e ↦ rw e (
            refl,
            ap (λ l. load_words net l at (length ws))
                  (write_blocks-words (store_words net d at (sender_words fr net r)) (at + 7)
                      r.reception_blocks
                    ∙ sym (
                        store_words-append net d at (sender_words fr net r)
                          (blocks_words r.reception_blocks)))
                ∙ full,
          )
        ])

    -- A report without the padding bit that fits the wire, written to an array with room for it,
    -- takes 7 words and 6 for each block, or for one null block, and readBlock returns the words
    -- without a null block and the report, except that the padding bit comes back set when there are
    -- 16 blocks or more, and of each block four bits of the fraction and eleven bits of the count of
    -- lost packets are left.
    pub read_sender_report-write :
        (r : SenderReport D) (d : List ℕ) (at len : ℕ)
        → IsReport r
        → r.padding_bit ≡ false
        → 7 + 6 * blocks_sent (length r.reception_blocks) ≤ len
        → at + (7 + 6 * length r.reception_blocks) ≤ length d
        → ((write_sender_report fr net r d at len).0
            ≡ 7 + 6 * blocks_sent (length r.reception_blocks))
          × (read_sender_report fr net (write_sender_report fr net r d at len).1 at
              ≡ some (7 + length r.reception_blocks * 6, received_report r))
    read_sender_report-write r d at len f plain room array =
        let (size, words) = written_report r d at len f plain room array in
        (size, read_sender_report-words r _ at f plain words)

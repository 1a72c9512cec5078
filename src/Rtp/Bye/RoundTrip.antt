-- ===== src/Rtp/Bye/RoundTrip.antt =====
-- `readBlock` after `writeBlock` of a BYE packet.
use net_isdn.Common.{
  ℕ, ◌+◌, ◌-◌, ◌≤◌, ◌<◌, ◌≡◌, refl, ap, ◌∙◌, true, false, none, some, List, length, length-set, ltb,
  le→ltb, arith,
}
use net_isdn.Rtp.Wire.{
  ByteOrder, All, IsWord, load, load_words, store, store_words, load-store_self, load-store_words,
  load_words-store_words, load_words_outside, length-store_words,
}
use net_isdn.Rtp.Head.{head_word, HeadReads, head_word-plain_reads, head_word-padded_reads}
use net_isdn.Rtp.Bye.{RtpBye, bye_pt, max_ssrcs, read_bye, write_bye}

-- A packet whose fields fit the wire.
pub record IsBye (b : RtpBye) : Type 0 where
  pub version : b.version < 4
  pub count : length b.ssrcs ≤ max_ssrcs
  pub ssrcs : All IsWord b.ssrcs

module _ (net : ByteOrder) (b : RtpBye) (d : List ℕ) (at len : ℕ) (f : IsBye b)
    (room : 1 + length b.ssrcs ≤ len) (array : at + 1 + length b.ssrcs ≤ length d) where
  abbrev pub head : ℕ
  head = head_word b.version b.padding_bit (length b.ssrcs) bye_pt (1 + length b.ssrcs - 1)

  pub bye_written :
      write_bye net b d at len
      ≡ (1 + length b.ssrcs, store_words net (store net d at head) (at + 1) b.ssrcs)
  unfolding write_bye
  bye_written = rw (le→ltb len (1 + length b.ssrcs) room)

  abbrev pub sent : List ℕ
  sent = (write_bye net b d at len).1

  pub sent-head : IsWord head → load net sent at ≡ some head
  sent-head h =
      ap (λ p. load net p.1 at) bye_written
      ∙ load-store_words net (store net d at head) (at + 1) b.ssrcs at (omega arith)
      ∙ load-store_self net d at head (omega arith) h

  sent-ssrcs : load_words net sent (at + 1) (length b.ssrcs) ≡ some b.ssrcs
  sent-ssrcs =
      ap (λ p. load_words net p.1 (at + 1) (length b.ssrcs)) bye_written
      ∙ load_words-store_words net (store net d at head) (at + 1) b.ssrcs
          (rw length-set (omega arith)) f.ssrcs

  -- A packet without the padding bit that fits the wire, written to an array with room for it, takes
  -- a word and one for each source, and readBlock returns that number and the packet, except that
  -- the padding bit comes back set when there are 16 sources or more.
  pub read_bye-write_bye :
      b.padding_bit ≡ false
      → ((write_bye net b d at len).0 ≡ 1 + length b.ssrcs)
        × (read_bye net (write_bye net b d at len).1 at
            ≡ some (1 + length b.ssrcs, record b { padding_bit = ltb 15 (length b.ssrcs) }))
  unfolding read_bye
  read_bye-write_bye plain = (
    ap (λ p. p.0) bye_written,
    (let r : HeadReads head b.version (length b.ssrcs) bye_pt (1 + length b.ssrcs - 1)
            (ltb 15 (length b.ssrcs)) =
          rw plain (
            head_word-plain_reads b.version (length b.ssrcs) bye_pt (1 + length b.ssrcs - 1)
              f.version (omega (arith, f.count)) (omega arith) (omega (arith, f.count))) in
        rw (sent-head r.word, r.type, r.count, r.version, r.padding, sent-ssrcs) refl),
  )

  -- With the padding bit and fewer than 16 sources, readBlock takes 16 sources too many, and reads
  -- outside of an array that ends before them.
  pub read_bye_padded :
      b.padding_bit ≡ true
      → length b.ssrcs < 16
      → length d < at + 1 + length b.ssrcs + 16
      → read_bye net (write_bye net b d at len).1 at ≡ none
  unfolding read_bye
  read_bye_padded padded few short =
      let r : HeadReads head b.version (length b.ssrcs + 16) bye_pt (1 + length b.ssrcs - 1) true =
        rw padded (
          head_word-padded_reads b.version (length b.ssrcs) bye_pt (1 + length b.ssrcs - 1)
            f.version few (omega arith) (omega arith)) in
      rw
        (
          sent-head r.word,
          r.type,
          r.count,
          load_words_outside net sent (at + 1) (length b.ssrcs + 16) (omega arith)
              (rw (ap (λ p. p.1) bye_written, length-store_words, length-set) (omega arith)),
        )
        refl

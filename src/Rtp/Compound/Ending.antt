-- ===== src/Rtp/Compound/Ending.antt =====
-- The compound packet of a sender report, a source description and a BYE, which ends a call.
use net_isdn.Common.{
  ℕ, suc, ◌+◌, ◌-◌, ◌*◌, ◌/◌, ◌%◌, ◌≤◌, ◌<◌, ◌≡◌, refl, sym, ap, ◌∙◌, false, none, some, List, [],
  ◌∷◌, length, length-set, ◌>>=◌, arith,
}
use net_isdn.Rtp.Wire.{
  ByteOrder, IsWord, load, load_words, load-store_ne, load-store_words, length-store_words,
  load_words_same, load_total,
}
use net_isdn.Rtp.Bytes.{Holds, byte_of, load_byte}
use net_isdn.Rtp.Head.{head_word, head_type, head_word-plain_reads}
use net_isdn.Rtp.Block.{Fractions}
use net_isdn.Rtp.Bye.{RtpBye, bye_pt, read_bye, write_bye}
use net_isdn.Rtp.Bye.RoundTrip.{IsBye, bye_written, sent-head, read_bye-write_bye}
use net_isdn.Rtp.Sender.{SenderReport, blocks_sent, write_sender_report}
use net_isdn.Rtp.Sender.RoundTrip.{IsReport, length-blocks_words, report_words, written_report}
use net_isdn.Rtp.Source.{SourceDescription, total_size, write_source}
use net_isdn.Rtp.Source.Layout.{chunks_bytes, chunks_bytes-total_size}
use net_isdn.Rtp.Source.RoundTrip.{IsSource, Sent, write_source-Sent}
use net_isdn.Rtp.Compound.{
  ControlHeader, new_control_header, read_packet, read_packets, read_control,
}
use net_isdn.Rtp.Compound.RoundTrip.{
  read_packets-enough, read_packets-stop, read_packets-step, length-write_sender_report, blocks_le,
  not_zero, head_of, received, read_two,
}

-- The BYE packet of one source.
abbrev pub bye_of : ℕ → RtpBye
bye_of ssrc = record { version = 2; padding_bit = false; ssrcs = ssrc ∷ [] }

bye_of-IsBye : (ssrc : ℕ) → IsWord ssrc → IsBye (bye_of ssrc)
bye_of-IsBye ssrc h = record { version = omega arith; count = omega arith; ssrcs = (h, tt) }

module _ (net : ByteOrder) where
  -- Bytes of words that are the same.
  Holds-same :
      (d e : List ℕ) (j k : ℕ) (bs : List ℕ)
      → ((i : ℕ) → i < k → load net e i ≡ load net d i)
      → j + length bs ≤ 4 * k
      → Holds (load_byte net d) j bs
      → Holds (load_byte net e) j bs
  unfolding load_byte
  Holds-same d e j k [] same h held = tt
  Holds-same d e j k (b ∷ bs) same h held = (
    ap (λ o. o >>= λ w. some (byte_of w (j % 4))) (same (j / 4) (omega arith)) ∙ held.0,
    Holds-same d e (j + 1) k bs same (omega arith) held.1,
  )

  Sent-same :
      (s : SourceDescription) (d e : List ℕ) (at k : ℕ)
      → IsSource s
      → ((i : ℕ) → i < k → load net e i ≡ load net d i)
      → at + total_size s.chunks ≤ k
      → length e ≡ length d
      → Sent net s d at
      → Sent net s e at
  Sent-same s d e at k g same le len sent =
      let least = chunks_bytes-total_size s.chunks g.chunks g.some_chunk in
      let (v, third) = sent.third_there in
      record {
        head_there = same at (omega arith) ∙ sent.head_there;
        chunks_there =
            Holds-same d e (4 * (at + 2)) k (chunks_bytes s.chunks) same (omega arith)
              sent.chunks_there;
        third_there = (v, same (at + 2) (omega arith) ∙ third);
        in_array = omega (arith, sent.in_array);
      }

  -- The words in front of a BYE packet stay.
  bye-before :
      (d : List ℕ) (at len ssrc i : ℕ)
      → IsWord ssrc
      → 2 ≤ len
      → at + 2 ≤ length d
      → i < at
      → load net (write_bye net (bye_of ssrc) d at len).1 i ≡ load net d i
  bye-before d at len ssrc i h room array lt =
      ap (λ p. load net p.1 i)
        (bye_written net (bye_of ssrc) d at len (bye_of-IsBye ssrc h) (omega arith) (omega arith))
      ∙ load-store_words net _ (at + 1) (ssrc ∷ []) i (omega arith)
      ∙ load-store_ne net d at i _ (omega arith)

  length-bye :
      (d : List ℕ) (at len ssrc : ℕ)
      → IsWord ssrc
      → 2 ≤ len
      → at + 2 ≤ length d
      → length (write_bye net (bye_of ssrc) d at len).1 ≡ length d
  length-bye d at len ssrc h room array =
      ap (λ p. length p.1)
        (bye_written net (bye_of ssrc) d at len (bye_of-IsBye ssrc h) (omega arith) (omega arith))
      ∙ length-store_words net _ (at + 1) (ssrc ∷ [])
      ∙ length-set d at _

module _ {D : Type 0} (fr : Fractions D) (net : ByteOrder) where
  read_packet-bye :
      (h : ControlHeader D) (d : List ℕ) (ptr n : ℕ) (b : RtpBye)
      → h.bye ≡ none
      → read_bye net d ptr ≡ some (suc n, b)
      → read_packet fr net h d ptr bye_pt ≡ some (record h { bye = some b })
  unfolding read_packet
  read_packet-bye h d ptr n b empty read = rw (empty, read, not_zero fr net n) refl

  -- The loop over a report, a description and a BYE packet behind them.
  read_control-three :
      (r : SenderReport D) (s : SourceDescription) (d : List ℕ) (n k len ssrc v : ℕ)
      → IsReport r
      → r.padding_bit ≡ false
      → IsSource s
      → r.version ≡ 2
      → s.version ≡ 2
      → IsWord ssrc
      → n ≡ 7 + 6 * blocks_sent (length r.reception_blocks)
      → k ≡ n + total_size s.chunks
      → load_words net d 0 (length (report_words fr net r)) ≡ some (report_words fr net r)
      → length (report_words fr net r) ≤ n
      → Sent net s d n
      → load net d (n + 2) ≡ some v
      → 2 ≤ len
      → k + 2 < length d
      → read_control fr net
          (new_control_header 2)
          (write_bye net (bye_of ssrc) d k len).1
          (4 * (k + 2))
        ≡ some (record (received fr net 2 r s v) { bye = some (bye_of ssrc) })
  unfolding read_control
  read_control-three r s d n k len ssrc v f plain g same₁ same₂ hs size all there short sent third
        room array =
      let total = total_size s.chunks in
      let least = chunks_bytes-total_size s.chunks g.chunks g.some_chunk in
      let e = (write_bye net (bye_of ssrc) d k len).1 in
      let h₂ = received fr net 2 r s v in
      let h₃ = record h₂ { bye = some (bye_of ssrc) } in
      let same : (i : ℕ) → i < k → load net e i ≡ load net d i =
        λ i. bye-before net d k len ssrc i hs room (omega arith) in
      let e_length = length-bye net d k len ssrc hs room (omega arith) in
      let is_bye = bye_of-IsBye ssrc hs in
      let w = head_word 2 false 1 bye_pt 1 in
      let reads =
        head_word-plain_reads 2 1 bye_pt 1 (omega arith) (omega arith) (omega arith)
          (omega arith) in
      let head_there : load net e k ≡ some w =
        sent-head net (bye_of ssrc) d k len is_bye room (omega arith) reads.word in
      let (w₄, last, hw) = load_total net e (k + 2) (omega (arith, e_length)) in
      let m = k - 1 in
      let there' =
        load_words_same net e d 0 (length (report_words fr net r)) (λ j lo hi. same j (omega arith))
        ∙ there in
      let (first, two) =
        read_two fr net r s e 2 n (k + 2) (suc m) v w f plain g same₁ same₂ size there'
          (Sent-same net s d e n k g same (omega arith) e_length sent)
          (same (n + 2) (omega arith) ∙ third) (ap (load net e) (sym all) ∙ head_there)
          (omega arith) in
      let bound : 4 * (k + 2) / 4 ≡ k + 2 = omega arith in
      let read₃ : read_packet fr net h₂ e k (head_type w) ≡ some h₃ = rw reads.type (
        read_packet-bye h₂ e k 1 (bye_of ssrc) refl
          (read_bye-write_bye net (bye_of ssrc) d k len is_bye room (omega arith) refl).1) in
      rw (first, bound)
        (read_packets-enough fr net (k + 2) (suc (suc (suc m))) (new_control_header 2) e (k + 2) 0
            (head_of fr net r) (omega arith) (omega arith)
          ∙ two
          ∙ ap (λ q. read_packets fr net (suc m) h₂ e (k + 2) q w) (sym all)
          ∙ read_packets-step fr net m h₂ h₃ e (k + 2) k w (k + 2) w₄ (omega arith) reads.version
              read₃ (omega (arith, reads.size)) last
          ∙ read_packets-stop fr net m h₃ e (k + 2) (k + 2) w₄ (omega arith))

  -- A report and a description, both of version 2, and a BYE packet written one behind the other, and
  -- read by a new header.
  pub read_control-ended :
      (r : SenderReport D) (s : SourceDescription) (d : List ℕ) (n ssrc : ℕ)
      → IsReport r
      → r.padding_bit ≡ false
      → IsSource s
      → r.version ≡ 2
      → s.version ≡ 2
      → IsWord ssrc
      → n ≡ 7 + 6 * blocks_sent (length r.reception_blocks)
      → n + total_size s.chunks + 2 < length d
      → (e : List ℕ) × (v : ℕ) × (write_source net s
            (write_sender_report fr net r d 0 (length d)).1
            (write_sender_report fr net r d 0 (length d)).0
            (length d - (write_sender_report fr net r d 0 (length d)).0)
          ≡ some (total_size s.chunks, e))
        × ((write_bye net
              (bye_of ssrc)
              e
              (n + total_size s.chunks)
              (length d - (n + total_size s.chunks))).0
            ≡ 2)
        × (read_control fr net
              (new_control_header 2)
              (write_bye net
                (bye_of ssrc)
                e
                (n + total_size s.chunks)
                (length d - (n + total_size s.chunks))).1
              (4 * (n + total_size s.chunks + 2))
            ≡ some (record (received fr net 2 r s v) { bye = some (bye_of ssrc) }))
  read_control-ended r s d n ssrc f plain g same₁ same₂ hs size_n more =
      let m = length r.reception_blocks in
      let len = length d in
      let k = n + total_size s.chunks in
      let le : m ≤ blocks_sent m = blocks_le fr net m in
      let d₁ = (write_sender_report fr net r d 0 len).1 in
      let d₁_length = length-write_sender_report fr net r d 0 len in
      let (size, words) = written_report fr net r d 0 len f plain (omega arith) (omega arith) in
      let (e, wrote, sent, (kept_length, before)) =
        write_source-Sent net s d₁ n (len - n) g (omega arith) (omega (arith, d₁_length)) in
      let (v, third) = sent.third_there in
      let short : length (report_words fr net r) ≤ n =
        omega (arith, length-blocks_words fr net r.reception_blocks) in
      let there =
        load_words_same net e d₁ 0 (length (report_words fr net r))
          (λ j lo hi. before j (omega arith))
        ∙ words in
      (
        e,
        v,
        ap (λ q. write_source net s d₁ q (len - q)) (size ∙ sym size_n) ∙ wrote,
        (read_bye-write_bye net (bye_of ssrc) e k (len - k) (bye_of-IsBye ssrc hs) (omega arith)
            (omega (arith, kept_length, d₁_length)) refl).0,
        read_control-three r s e n k (len - k) ssrc v f plain g same₁ same₂ hs size_n refl there
            short sent third (omega arith) (omega (arith, kept_length, d₁_length)),
      )

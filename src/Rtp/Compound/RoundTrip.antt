-- ===== src/Rtp/Compound/RoundTrip.antt =====
-- The compound packet of a sender report and a source description, and the bound on the loop.
use net_isdn.Common.{
  Bool-cases, inl, inr, ℕ, zero, suc, ◌+◌, ◌-◌, ◌*◌, ◌/◌, ◌≤◌, ◌<◌, ◌≡◌, refl, ap, ◌∙◌, false, not,
  none, some, List, length, map, replicate, ltb, le→ltb, lt→ltb, ◌==◌, ==_refl, if◌then◌else◌,
  ◌>>=◌, arith, >>=-ext,
}
use net_isdn.Rtp.Wire.{
  ByteOrder, length-store_words, store_words, load, load_words-get, load_words, load_words_same,
  load_total,
}
use net_isdn.Rtp.Head.{head_word, head_type, head_version, head_size}
use net_isdn.Rtp.Block.{Fractions, block_size}
use net_isdn.Rtp.Sender.{
  sender_base_size, sender_words, SenderReport, blocks_sent, sender_pt, read_sender_report,
  write_sender_report,
}
use net_isdn.Rtp.Sender.RoundTrip.{
  blocks_words, write_blocks-words, head-HeadReads, blocks_sent-le, length-blocks_words, IsReport,
  received_report, report_words, written_report, read_sender_report-words,
}
use net_isdn.Rtp.Source.{
  SourceDescription, source_word, source_pt, total_size, read_source, write_source,
}
use net_isdn.Rtp.Source.Layout.{
  chunks_bytes-total_size, received_chunk, total_size-le, source_word-HeadReads,
}
use net_isdn.Rtp.Source.RoundTrip.{length-zero_words, IsSource, Sent, write_source-Sent, Sent-read}
use net_isdn.Rtp.Compound.{
  ControlHeader, new_control_header, read_packet, read_packets, read_control,
}

module _ {D : Type 0} (fr : Fractions D) (net : ByteOrder) where
  -- The bound on the number of packets plays no part once it reaches the words that are left: every
  -- packet takes a word.
  pub read_packets-enough :
      (m n : ℕ) (h : ControlHeader D) (d : List ℕ) (words ptr w : ℕ)
      → words ≤ ptr + m
      → words ≤ ptr + n
      → read_packets fr net m h d words ptr w ≡ read_packets fr net n h d words ptr w
  unfolding read_packets
  read_packets-enough zero zero h d words ptr w hm hn = refl
  read_packets-enough zero (suc n) h d words ptr w hm hn = rw (le→ltb ptr words (omega arith)) refl
  read_packets-enough (suc m) zero h d words ptr w hm hn = rw (le→ltb ptr words (omega arith)) refl
  read_packets-enough (suc m) (suc n) h d words ptr w hm hn =
      ap
        (λ r.
          if not (ltb ptr words)
          then some h
          else if not (head_version w == h.version)
          then some h
          else r)
        (>>=-ext (read_packet fr net h d ptr (head_type w))
          (λ h'. load net d (ptr + (head_size w + 1)) >>= λ w'.
            read_packets fr net m h' d words (ptr + (head_size w + 1)) w')
          (λ h'. load net d (ptr + (head_size w + 1)) >>= λ w'.
            read_packets fr net n h' d words (ptr + (head_size w + 1)) w')
          (λ h'.
            >>=-ext (load net d (ptr + (head_size w + 1)))
              (λ w'. read_packets fr net m h' d words (ptr + (head_size w + 1)) w')
              (λ w'. read_packets fr net n h' d words (ptr + (head_size w + 1)) w')
              (λ w'.
                read_packets-enough m n h' d words (ptr + (head_size w + 1)) w' (omega arith)
                  (omega arith))))

  pub read_packets-stop :
      (n : ℕ) (h : ControlHeader D) (d : List ℕ) (words ptr w : ℕ)
      → words ≤ ptr
      → read_packets fr net n h d words ptr w ≡ some h
  unfolding read_packets
  read_packets-stop zero h d words ptr w le = refl
  read_packets-stop (suc n) h d words ptr w le = rw (le→ltb ptr words le) refl

  -- A packet of the version of the header, read, and the head of the next.
  pub read_packets-step :
      (n : ℕ) (h h' : ControlHeader D) (d : List ℕ) (words ptr w q w' : ℕ)
      → ptr < words
      → head_version w ≡ h.version
      → read_packet fr net h d ptr (head_type w) ≡ some h'
      → ptr + (head_size w + 1) ≡ q
      → load net d q ≡ some w'
      → read_packets fr net (suc n) h d words ptr w ≡ read_packets fr net n h' d words q w'
  unfolding read_packets
  read_packets-step n h h' d words ptr w q w' lt version packet there next =
      rw (lt→ltb ptr words lt, version, ==_refl h.version, packet, there, next) refl

  pub length-write_sender_report :
      (r : SenderReport D) (d : List ℕ) (at len : ℕ)
      → length (write_sender_report fr net r d at len).1 ≡ length d
  unfolding write_sender_report
  length-write_sender_report r d at len =
      let n = length r.reception_blocks in
      let headed = store_words net d at (sender_words fr net r) in
      let same = length-store_words net d at (sender_words fr net r) in
      elim (Bool-cases (ltb len (7 + 6 * blocks_sent n))) [
        | inl e ↦ rw e refl
        | inr e ↦ rw e (elim (Bool-cases (n == 0)) [
          | inl z ↦ rw z (length-zero_words headed (at + 7) 6 ∙ same)
          | inr z ↦ rw z (
              ap length (write_blocks-words fr net headed (at + 7) r.reception_blocks)
              ∙ length-store_words net headed (at + 7) (blocks_words fr net r.reception_blocks)
              ∙ same)
        ])
      ]

  pub blocks_le : (n : ℕ) → n ≤ blocks_sent n
  unfolding blocks_sent
  blocks_le n = ground arith

  pub not_zero : (n : ℕ) → suc n == 0 ≡ false
  not_zero n = ground arith

  -- The packet that a header keeps of a report and of a description.
  read_packet-report :
      (h : ControlHeader D) (d : List ℕ) (ptr n : ℕ) (r : SenderReport D)
      → h.sender_report ≡ none
      → read_sender_report fr net d ptr ≡ some (suc n, r)
      → read_packet fr net h d ptr sender_pt ≡ some (record h { sender_report = some r })
  unfolding read_packet
  read_packet-report h d ptr n r empty read = rw (empty, read, not_zero n) refl

  read_packet-source :
      (h : ControlHeader D) (d : List ℕ) (ptr n : ℕ) (s : SourceDescription)
      → h.source_description ≡ none
      → read_source net d ptr ≡ some (suc n, s)
      → read_packet fr net h d ptr source_pt ≡ some (record h { source_description = some s })
  unfolding read_packet
  read_packet-source h d ptr n s empty read = rw (empty, read, not_zero n) refl

  -- The first word of a report.
  abbrev pub head_of : SenderReport D → ℕ
  head_of r =
      head_word r.version r.padding_bit (length r.reception_blocks) sender_pt
        (sender_base_size + block_size * blocks_sent (length r.reception_blocks) - 1)

  -- What the header keeps of the two packets.
  abbrev pub kept_source : SourceDescription → ℕ → SourceDescription
  kept_source s v = record {
    version = s.version;
    padding_bit = false;
    chunks = map received_chunk s.chunks;
    ssrcs = replicate (suc (length s.chunks)) v;
  }

  abbrev pub received : ℕ → SenderReport D → SourceDescription → ℕ → ControlHeader D
  received version r s v = record (new_control_header {D = D} version) {
    sender_report = some (received_report fr net r);
    source_description = some (kept_source s v);
  }

  -- The loop over a report at the start of an array and a description behind it, up to the word
  -- behind them.
  pub read_two :
      (r : SenderReport D) (s : SourceDescription) (d : List ℕ) (version n words m v w₃ : ℕ)
      → IsReport r
      → r.padding_bit ≡ false
      → IsSource s
      → r.version ≡ version
      → s.version ≡ version
      → n ≡ 7 + 6 * blocks_sent (length r.reception_blocks)
      → load_words net d 0 (length (report_words fr net r)) ≡ some (report_words fr net r)
      → Sent net s d n
      → load net d (n + 2) ≡ some v
      → load net d (n + total_size s.chunks) ≡ some w₃
      → n + total_size s.chunks ≤ words
      → (load net d 0 ≡ some (head_of r))
        × (read_packets fr net (suc (suc m)) (new_control_header version) d words 0 (head_of r)
            ≡ read_packets fr net m (received version r s v) d words (n + total_size s.chunks) w₃)
  read_two r s d version n words m v w₃ f plain g same₁ same₂ size there sent third last room =
      let total = total_size s.chunks in
      let blocks = blocks_sent-le fr net (length r.reception_blocks) f.count in
      let most = total_size-le s.chunks g.chunks in
      let least = chunks_bytes-total_size s.chunks g.chunks g.some_chunk in
      let w₁ = head_of r in
      let w₂ = source_word s.version s.padding_bit (length s.chunks) (total - 1) in
      let r₁ = head-HeadReads fr net r f plain in
      let r₂ =
        source_word-HeadReads s.version (length s.chunks) (total - 1) s.padding_bit g.version
          g.count (omega (arith, g.count)) in
      let first : load net d 0 ≡ some w₁ =
        load_words-get net d (report_words fr net r) 0 0 0 w₁ there refl refl in
      let h₀ = new_control_header {D = D} version in
      let h₁ = record h₀ { sender_report = some (received_report fr net r) } in
      let length₁ : 0 + (head_size w₁ + 1) ≡ n = omega (arith, r₁.size) in
      let length₂ : n + (head_size w₂ + 1) ≡ n + total = omega (arith, r₂.size, most, least) in
      let read₁ : read_packet fr net h₀ d 0 (head_type w₁) ≡ some h₁ = rw r₁.type (
        read_packet-report h₀ d 0 (6 + length r.reception_blocks * 6) (received_report fr net r)
          refl
          (read_sender_report-words fr net r d 0 f plain there
            ∙ ap (λ k. some (k, received_report fr net r)) (omega arith))) in
      let read₂ : read_packet fr net h₁ d n (head_type w₂) ≡ some (received version r s v) =
        rw r₂.type (
          read_packet-source h₁ d n (total - 1) _ refl (
            Sent-read net s d n v g sent third
            ∙ ap (λ k. some (k, kept_source s v)) (omega arith))) in
      (
        first,
        read_packets-step (suc m) h₀ h₁ d words 0 w₁ n w₂ (omega arith) (r₁.version ∙ same₁) read₁
              length₁ sent.head_there
            ∙ read_packets-step m h₁ (received version r s v) d words n w₂ (n + total) w₃
                (omega arith) (r₂.version ∙ same₂) read₂ length₂ last,
      )

  read_control-two :
      (r : SenderReport D) (s : SourceDescription) (d : List ℕ) (version n v : ℕ)
      → IsReport r
      → r.padding_bit ≡ false
      → IsSource s
      → r.version ≡ version
      → s.version ≡ version
      → n ≡ 7 + 6 * blocks_sent (length r.reception_blocks)
      → load_words net d 0 (length (report_words fr net r)) ≡ some (report_words fr net r)
      → Sent net s d n
      → load net d (n + 2) ≡ some v
      → n + total_size s.chunks < length d
      → read_control fr net (new_control_header version) d (4 * (n + total_size s.chunks))
        ≡ some (received version r s v)
  unfolding read_control
  read_control-two r s d version n v f plain g same₁ same₂ size there sent third room =
      let total = total_size s.chunks in
      let (w₃, last, hw) = load_total net d (n + total) room in
      let m = n + total - 2 in
      let (first, two) =
        read_two r s d version n (n + total) m v w₃ f plain g same₁ same₂ size there sent third last
          (omega arith) in
      let bound : 4 * (n + total) / 4 ≡ n + total = omega arith in
      rw (first, bound)
        (read_packets-enough (n + total) (suc (suc m)) (new_control_header version) d (n + total) 0
            (head_of r) (omega arith) (omega arith)
          ∙ two
          ∙ read_packets-stop m (received version r s v) d (n + total) (n + total) w₃ (omega arith))

  -- A report without the padding bit and a description of at least one and fewer than 16 chunks,
  -- both of the version of the header and fitting the wire, written one behind the other to an
  -- array that has more words than they take: a new header that reads their words keeps the report,
  -- as far as the wire holds it, and the description with each chunk's type, length and bytes, with
  -- the third word of its packet in place of the source, and nothing else.
  pub read_control-written :
      (r : SenderReport D) (s : SourceDescription) (d : List ℕ) (version len : ℕ)
      → IsReport r
      → r.padding_bit ≡ false
      → IsSource s
      → r.version ≡ version
      → s.version ≡ version
      → 7 + 6 * blocks_sent (length r.reception_blocks) + total_size s.chunks ≤ len
      → len ≤ length d
      → 7 + 6 * blocks_sent (length r.reception_blocks) + total_size s.chunks < length d
      → (e : List ℕ) × (v : ℕ) × (write_source net s
            (write_sender_report fr net r d 0 len).1
            (write_sender_report fr net r d 0 len).0
            (len - (write_sender_report fr net r d 0 len).0)
          ≡ some (total_size s.chunks, e))
        × (load net e (7 + 6 * blocks_sent (length r.reception_blocks) + 2) ≡ some v)
        × (read_control fr net
              (new_control_header version)
              e
              (4 * (7 + 6 * blocks_sent (length r.reception_blocks) + total_size s.chunks))
            ≡ some (received version r s v))
  read_control-written r s d version len f plain g same₁ same₂ room array more =
      let m = length r.reception_blocks in
      let n = 7 + 6 * blocks_sent m in
      let le : m ≤ blocks_sent m = blocks_le m in
      let d₁ = (write_sender_report fr net r d 0 len).1 in
      let d₁_length = length-write_sender_report r d 0 len in
      let (size, words) = written_report fr net r d 0 len f plain (omega arith) (omega arith) in
      let (e, wrote, sent, (kept_length, before)) =
        write_source-Sent net s d₁ n (len - n) g (omega arith) (omega (arith, d₁_length)) in
      let (v, third) = sent.third_there in
      let short : length (report_words fr net r) ≤ n =
        omega (arith, length-blocks_words fr net r.reception_blocks) in
      let there =
        load_words_same net e d₁ 0 (length (report_words fr net r))
          (λ j lo hi. before j (omega arith))
        ∙ words in
      (
        e,
        v,
        ap (λ k. write_source net s d₁ k (len - k)) size ∙ wrote,
        third,
        read_control-two r s e version n v f plain g same₁ same₂ refl there sent third
            (omega (arith, kept_length, d₁_length)),
      )

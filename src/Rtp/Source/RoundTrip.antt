-- ===== src/Rtp/Source/RoundTrip.antt =====
-- `readBlock` after `writeBlock` of a source description.
use net_isdn.Common.{
  ℕ, zero, suc, ◌+◌, ◌-◌, ◌*◌, ◌≤◌, ◌<◌, ◌≡◌, refl, ◌∙◌, false, some, List, [], ◌∷◌, map, length,
  length-set, get_elem?, set, replicate, le→ltb, lt→ltb, arith,
}
use net_isdn.Rtp.Wire.{ByteOrder, All, load, store, load-store_self, load-store_ne, load_total}
use net_isdn.Rtp.Bytes.{Holds, load_byte, store_bytes-Stored}
use net_isdn.Rtp.Sender.{zero_words}
use net_isdn.Rtp.Sender.RoundTrip.{zero_words-before}
use net_isdn.Rtp.Source.{
  SourceDescription, total_size, source_word, put_word, read_source, write_chunks, write_source,
}
use net_isdn.Rtp.Source.Layout.{
  IsChunk, received_chunk, chunks_bytes, chunks_bytes-AllBytes, chunks_bytes-total_size,
  total_size-le, total_size-received, write_chunks-bytes, read_chunks-Holds, source_word-HeadReads,
}

-- A description of fewer than 16 chunks, at least one, that fit the wire.
pub record IsSource (s : SourceDescription) : Type 0 where
  pub version : s.version < 4
  pub some_chunk : 0 < length s.chunks
  pub count : length s.chunks < 16
  pub chunks : All IsChunk s.chunks
  pub some_ssrc : 0 < length s.ssrcs

pub length-zero_words : (d : List ℕ) (i n : ℕ) → length (zero_words d i n) ≡ length d
unfolding zero_words
length-zero_words d i zero = refl
length-zero_words d i (suc n) = length-zero_words (set d i 0) (i + 1) n ∙ length-set d i 0

get_elem?-total : (xs : List ℕ) → 0 < length xs → (x : ℕ) × (get_elem? xs 0 ≡ some x)
get_elem?-total [] h = absurd (omega arith)
get_elem?-total (x ∷ xs) h = (x, refl)

-- A packet in an array, as readBlock takes it.
pub record Sent (net : ByteOrder) (s : SourceDescription) (d : List ℕ) (at : ℕ) : Type 0 where
  pub head_there :
      load net d at
      ≡ some (source_word s.version s.padding_bit (length s.chunks) (total_size s.chunks - 1))
  pub chunks_there : Holds (load_byte net d) (4 * (at + 2)) (chunks_bytes s.chunks)
  pub third_there : (w : ℕ) × (load net d (at + 2) ≡ some w)
  pub in_array : at + total_size s.chunks ≤ length d

-- The words in front of a packet stay.
abbrev pub SameBefore : ByteOrder → List ℕ → List ℕ → ℕ → Type 0
SameBefore net d e at = (length e ≡ length d) × ((i : ℕ) → i < at → load net e i ≡ load net d i)

module _ (net : ByteOrder) where
  pub write_source-Sent :
      (s : SourceDescription) (d : List ℕ) (at len : ℕ)
      → IsSource s
      → total_size s.chunks ≤ len
      → at + len ≤ length d
      → (e : List ℕ) × (write_source net s d at len ≡ some (total_size s.chunks, e))
        × Sent net s e at
        × SameBefore net d e at
  unfolding write_source
  write_source-Sent s d at len f room array =
      let cs = s.chunks in
      let n = total_size cs in
      let bound = chunks_bytes-total_size cs f.chunks f.some_chunk in
      let most = total_size-le cs f.chunks in
      let w = source_word s.version s.padding_bit (length cs) (n - 1) in
      let reads =
        source_word-HeadReads s.version (length cs) (n - 1) s.padding_bit f.version f.count
          (omega (arith, f.count)) in
      let (x, first) = get_elem?-total s.ssrcs f.some_ssrc in
      let z = zero_words d at len in
      let z_length : length z ≡ length d = length-zero_words d at len in
      let d₁ = store net z at w in
      let d₁_length : length d₁ ≡ length d = length-set z at (net.htonl w) ∙ z_length in
      let d₂ = store net d₁ (at + 1) x in
      let d₂_length : length d₂ ≡ length d = length-set d₁ (at + 1) (net.htonl x) ∙ d₁_length in
      let (e, ok, there, stored) =
        store_bytes-Stored net d₂ (4 * (at + 2)) (chunks_bytes cs) (omega arith)
          (chunks_bytes-AllBytes cs f.chunks) in
      let (v, third, hv) = load_total net e (at + 2) (omega (arith, stored.same_length)) in
      let wrote : write_chunks net d₂ (4 * (at + 2)) cs ≡ some e =
        write_chunks-bytes net d₂ (4 * (at + 2)) cs f.chunks ∙ ok in
      let put_word₁ : put_word net z at w ≡ some d₁ =
        rw (lt→ltb at (length z) (omega arith)) refl in
      let put_word₂ : put_word net d₁ (at + 1) x ≡ some d₂ =
        rw (lt→ltb (at + 1) (length d₁) (omega arith)) refl in
      (
        e,
        rw
            (
              le→ltb len n room,
              le→ltb (length d) (at + len) array,
              first,
              put_word₁,
              put_word₂,
              wrote,
            )
            refl,
        record {
          head_there =
              stored.word_before at (omega arith)
              ∙ load-store_ne net d₁ (at + 1) at x (λ q. absurd (omega arith))
              ∙ load-store_self net z at w (omega arith) reads.word;
          chunks_there = there;
          third_there = (v, third);
          in_array = omega (arith, stored.same_length);
        },
        (
          stored.same_length ∙ d₂_length,
          λ i lt.
              stored.word_before i (omega arith)
              ∙ load-store_ne net d₁ (at + 1) i x (λ q. absurd (omega arith))
              ∙ load-store_ne net z at i w (λ q. absurd (omega arith))
              ∙ zero_words-before net d at len i lt,
        ),
      )

  pub Sent-read :
      (s : SourceDescription) (d : List ℕ) (at v : ℕ)
      → IsSource s
      → Sent net s d at
      → load net d (at + 2) ≡ some v
      → read_source net d at
        ≡ some (
          total_size s.chunks,
          record {
            version = s.version;
            padding_bit = false;
            chunks = map received_chunk s.chunks;
            ssrcs = replicate (suc (length s.chunks)) v;
          },
        )
  unfolding read_source
  Sent-read s d at v f sent third =
      let cs = s.chunks in
      let most = total_size-le cs f.chunks in
      let r =
        source_word-HeadReads s.version (length cs) (total_size cs - 1) s.padding_bit f.version
          f.count (omega (arith, f.count)) in
      rw
        (
          sent.head_there,
          r.type,
          third,
          r.count,
          read_chunks-Holds net d (4 * (at + 2)) cs f.chunks sent.chunks_there,
          r.version,
          r.padding,
          total_size-received cs,
        )
        refl

  -- A description of at least one and fewer than 16 chunks that fit the wire, written to an array
  -- with room for it, takes GetTotalSize words and stays within the array; readBlock returns that
  -- number, the version and each chunk with its type, its length and its bytes, with a NUL behind
  -- them. The padding bit comes back false, and in place of the source the third word of the packet,
  -- once more than there are chunks.
  pub read_source-write_source :
      (s : SourceDescription) (d : List ℕ) (at len : ℕ)
      → IsSource s
      → total_size s.chunks ≤ len
      → at + len ≤ length d
      → (e : List ℕ) × (v : ℕ) × (write_source net s d at len ≡ some (total_size s.chunks, e))
        × (load net e (at + 2) ≡ some v)
        × (read_source net e at
            ≡ some (
              total_size s.chunks,
              record {
                version = s.version;
                padding_bit = false;
                chunks = map received_chunk s.chunks;
                ssrcs = replicate (suc (length s.chunks)) v;
              },
            ))
  read_source-write_source s d at len f room array =
      let (e, wrote, sent, same) = write_source-Sent s d at len f room array in
      let (v, third) = sent.third_there in (e, v, wrote, third, Sent-read s e at v f sent third)

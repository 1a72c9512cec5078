-- ===== src/Rtp/Source/Layout.antt =====
-- The bytes of the chunks of a source description, and the words that they take.
use net_isdn.Common.{
  >>=-ext, ℕ, zero, suc, ◌+◌, ◌-◌, ◌*◌, ◌/◌, ◌%◌, ◌^◌, ◌≤◌, ◌<◌, ◌≡◌, refl, sym, ap, ◌∙◌, bit,
  bit_and, bit_or, Bool, true, false, none, Option, some, List, [], ◌∷◌, ◌++◌, map, length,
  length-append, length-take, take, leb, ltb, le→ltb, if◌then◌else◌, ◌>>=◌, arith, Option-cases,
  inl, inr,
}
use net_isdn.Common.Bits.{◌<<◌, ◌>>◌, bit_or-add, mask-bit_and}
use net_isdn.Rtp.Wire.{ByteOrder, All, All-append}
use net_isdn.Rtp.Bytes.{
  IsByte, Holds, Holds-append, load_byte, load_bytes, store_byte, store_bytes, load_bytes-Holds,
}
use net_isdn.Rtp.Header.{flag}
use net_isdn.Rtp.Head.{HeadReads}
use net_isdn.Rtp.Source.{Chunk, source_pt, total_size, source_word, read_chunks, write_chunks}

pub record IsChunk (c : Chunk) : Type 0 where
  pub type : IsByte c.type
  pub length : IsByte c.length
  pub string : c.length ≤ net_isdn.Common.length c.string
  pub bytes : All IsByte (take c.length c.string)

-- What comes back of a chunk: its bytes and a NUL.
abbrev pub received_chunk : Chunk → Chunk
received_chunk c = record c { string = take c.length c.string ++ (0 ∷ []) }

unfoldable pub chunks_bytes : List Chunk → List ℕ
chunks_bytes [] = []
chunks_bytes (c ∷ cs) = (c.type ∷ c.length ∷ take c.length c.string) ++ chunks_bytes cs

pub chunks_bytes-AllBytes : (cs : List Chunk) → All IsChunk cs → All IsByte (chunks_bytes cs)
unfolding chunks_bytes
chunks_bytes-AllBytes [] h = tt
chunks_bytes-AllBytes (c ∷ cs) (f, fs) = (
  f.type,
  (
    f.length,
    All-append IsByte (take c.length c.string) (chunks_bytes cs) f.bytes
        (chunks_bytes-AllBytes cs fs),
  ),
)

-- The words that GetTotalSize counts hold the bytes of the chunks and the two words before them, if
-- there is a chunk.
size_bytes :
    (cs : List Chunk)
    → All IsChunk cs
    → length (chunks_bytes cs) + 5 * length cs + 4 ≤ 4 * total_size cs
unfolding chunks_bytes total_size
size_bytes [] h = omega arith
size_bytes (c ∷ cs) (f, fs) = omega (
  arith,
  size_bytes cs fs,
  length-append (take c.length c.string) (chunks_bytes cs),
  length-take c.length c.string f.string,
)

pub chunks_bytes-total_size :
    (cs : List Chunk)
    → All IsChunk cs
    → 0 < length cs
    → length (chunks_bytes cs) + 9 ≤ 4 * total_size cs
chunks_bytes-total_size cs h pos = omega (arith, size_bytes cs h)

pub total_size-le : (cs : List Chunk) → All IsChunk cs → total_size cs ≤ 66 * length cs + 1
unfolding total_size
total_size-le [] h = omega arith
total_size-le (c ∷ cs) (f, fs) = omega (arith, f.length, total_size-le cs fs)

pub total_size-received : (cs : List Chunk) → total_size (map received_chunk cs) ≡ total_size cs
unfolding total_size
total_size-received [] = refl
total_size-received (c ∷ cs) = ap (λ t. 2 + (2 + c.length) / 4 + t) (total_size-received cs)

module _ (net : ByteOrder) where
  store_bytes-append :
      (d : List ℕ) (j : ℕ) (xs ys : List ℕ)
      → store_bytes net d j (xs ++ ys)
        ≡ (store_bytes net d j xs >>= λ e. store_bytes net e (j + length xs) ys)
  unfolding store_bytes
  store_bytes-append d j [] ys = ap (λ k. store_bytes net d k ys) (omega arith)
  store_bytes-append d j (x ∷ xs) ys = elim (Option-cases (store_byte net d j x)) [
    | inl e ↦ rw e refl
    | inr (f, e) ↦
        let there : j + 1 + length xs ≡ j + suc (length xs) = omega arith in
        rw e (rw there at (store_bytes-append f (j + 1) xs ys))
  ]

  store_bytes-none : (d : List ℕ) (j : ℕ) → some d ≡ store_bytes net d j []
  unfolding store_bytes
  store_bytes-none d j = refl

  -- The loop that writes the chunks stores their bytes.
  pub write_chunks-bytes :
      (d : List ℕ) (j : ℕ) (cs : List Chunk)
      → All IsChunk cs
      → write_chunks net d j cs ≡ store_bytes net d j (chunks_bytes cs)
  unfolding write_chunks chunks_bytes
  write_chunks-bytes d j [] h = store_bytes-none d j
  write_chunks-bytes d j (c ∷ cs) (f, fs) =
      let string = take c.length c.string in
      let bytes = c.type ∷ c.length ∷ string in
      let type : bit_and 0xff c.type ≡ c.type = mask-bit_and 8 c.type ∙ omega (arith, f.type) in
      let len : bit_and 0xff c.length ≡ c.length =
        mask-bit_and 8 c.length ∙ omega (arith, f.length) in
      let size : length bytes ≡ 2 + c.length =
        omega (arith, length-take c.length c.string f.string) in
      let there : leb c.length (length c.string) ≡ true = ground (arith, f.string) in
      let split : store_bytes net d j (bytes ++ chunks_bytes cs) ≡ (
          store_bytes net d j bytes >>= λ e.
          store_bytes net e (j + (2 + c.length)) (chunks_bytes cs)) =
        rw size at (store_bytes-append d j bytes (chunks_bytes cs)) in
      rw (there, type, len)
        (>>=-ext (store_bytes net d j bytes) (λ e. write_chunks net e (j + (2 + c.length)) cs)
            (λ e. store_bytes net e (j + (2 + c.length)) (chunks_bytes cs))
            (λ e. write_chunks-bytes e (j + (2 + c.length)) cs fs)
          ∙ sym split)

  -- The loop that reads chunks finds the chunks whose bytes are there.
  pub read_chunks-Holds :
      (d : List ℕ) (j : ℕ) (cs : List Chunk)
      → All IsChunk cs
      → Holds (load_byte net d) j (chunks_bytes cs)
      → read_chunks net d j (length cs) ≡ some (map received_chunk cs)
  unfolding read_chunks chunks_bytes
  read_chunks-Holds d j [] a h = refl
  read_chunks-Holds d j (c ∷ cs) (f, fs) (type, (len, rest)) =
      let string = take c.length c.string in
      let (bytes, others) =
        Holds-append (load_byte net d) (j + 1 + 1) string (chunks_bytes cs) rest in
      let size : length string ≡ c.length = length-take c.length c.string f.string in
      let two : j + 1 + 1 ≡ j + 2 = omega arith in
      let read : load_bytes net d (j + 2) c.length ≡ some string =
        rw two at (rw size at (load_bytes-Holds net d (j + 1 + 1) string bytes)) in
      let there : j + 1 + 1 + length string ≡ j + 2 + c.length = omega arith in
      rw (type, len, read, read_chunks-Holds d (j + 2 + c.length) cs fs (rw there at others)) refl

word_sum :
    (v p c n : ℕ)
    → v < 4
    → p < 2
    → c < 16
    → n < 2 ^ 16
    → bit_or (bit_or (bit_or (bit_or (v << 30) (p << 29)) (c << 24)) (202 << 16)) n
      ≡ v * 2 ^ 30 + p * 2 ^ 29 + c * 2 ^ 24 + 202 * 2 ^ 16 + n
word_sum v p c n hv hp hc hn =
    rw
      (
        bit_or-add 30 (v << 30) (p << 29) (omega arith) (omega arith),
        bit_or-add 29 (v * 2 ^ 30 + p * 2 ^ 29) (c << 24) (omega arith) (omega arith),
        bit_or-add 24 (v * 2 ^ 30 + p * 2 ^ 29 + c * 2 ^ 24) (202 << 16) (omega arith)
            (omega arith),
        bit_or-add 16 (v * 2 ^ 30 + p * 2 ^ 29 + c * 2 ^ 24 + 202 * 2 ^ 16) n (omega arith)
            (omega arith),
      )
      (omega arith)

-- The fields that come back: with fewer than 16 chunks, no padding bit.
pub source_word-HeadReads :
    (v c n : ℕ) (p : Bool)
    → v < 4
    → c < 16
    → n < 2 ^ 16
    → HeadReads (source_word v p c n) v c source_pt n false
unfolding source_word
source_word-HeadReads v c n p hv hc hn =
    let b = bit p % 2 in
    let w = source_word v p c n in
    let sum : w ≡ v * 2 ^ 30 + b * 2 ^ 29 + c * 2 ^ 24 + 202 * 2 ^ 16 + n =
      rw (mask-bit_and 2 v, mask-bit_and 1 (bit p), mask-bit_and 5 c, mask-bit_and 16 n)
        (word_sum (v % 4) b (c % 32) (n % 2 ^ 16) (omega arith) (omega arith) (omega arith)
            (omega arith)
          ∙ omega arith) in
    let small : b < 2 = omega arith in
    let zero_bit : w / 2 ^ 28 % 2 ≡ 0 = omega arith in
    record {
      version = mask-bit_and 2 (w >> 30) ∙ omega arith;
      padding = ap flag (mask-bit_and 1 (w >> 28) ∙ zero_bit);
      count = mask-bit_and 5 (w >> 24) ∙ omega arith;
      type = mask-bit_and 8 (w >> 16) ∙ omega arith;
      size = mask-bit_and 16 w ∙ omega arith;
      word = omega arith;
    }

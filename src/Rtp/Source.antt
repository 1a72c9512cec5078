-- ===== src/Rtp/Source.antt =====
-- lib/rtpsourcedescription.cpp: the RTCP packet that describes a source, with its chunks as bytes.
pub mod Layout
pub mod RoundTrip
use net_isdn.Common.{
  ℕ, zero, suc, ◌+◌, ◌-◌, ◌*◌, ◌/◌, min, bit_and, bit_or, Bool, true, false, not, bit, Option, none,
  some, List, [], ◌∷◌, ◌++◌, length, get_elem?, take, replicate, ltb, leb, ◌==◌, if◌then◌else◌,
  ◌>>=◌, ◌||◌,
}
use net_isdn.Common.Bits.{◌<<◌}
use net_isdn.Rtp.Wire.{ByteOrder, load, store}
use net_isdn.Rtp.Bytes.{load_byte, load_bytes, store_bytes}
use net_isdn.Rtp.Head.{head_type, head_version, head_padding, head_count}
use net_isdn.Rtp.Sender.{zero_words}

-- One element of `rtp_chunk_types`, `rtp_chunk_lengths` and `rtp_chunk_strings`, which grow and
-- shrink together; of the array behind a string, the bytes that were set.
pub record Chunk : Type 0 where
  pub type : ℕ
  pub length : ℕ
  pub string : List ℕ

-- The accessors of the class are the fields, its setters updates of them.
pub record SourceDescription : Type 0 where
  pub version : ℕ
  pub padding_bit : Bool
  pub chunks : List Chunk
  pub ssrcs : List ℕ

-- `RTPSOURCEDESCRIPTION_PT`, `RTPSOURCEDESCRIPTION_BASE_SIZE`
abbrev pub source_pt : ℕ
source_pt = 202

abbrev pub source_base_size : ℕ
source_base_size = 1

-- `clear`, and the constructor, which calls it after it has set the version.
abbrev pub cleared_source : SourceDescription
cleared_source = record { version = 2; padding_bit = false; chunks = []; ssrcs = [] }

abbrev pub new_source : ℕ → SourceDescription
new_source version = cleared_source

-- `GetTotalSize`, in words.
unfoldable pub total_size : List Chunk → ℕ
total_size [] = source_base_size
total_size (c ∷ cs) = 2 + (2 + c.length) / 4 + total_size cs

-- The first `n` bytes of an array; `none`: it has fewer.
abbrev pub copy_bytes : ℕ → List ℕ → Option (List ℕ)
copy_bytes n bytes = if leb n (length bytes) then some (take n bytes) else none

unfoldable pub has_type : ℕ → List Chunk → Bool
has_type type [] = false
has_type type (c ∷ cs) = type == c.type || has_type type cs

-- `addChunk (type, ssrc, data, len)`: `false`: there is a chunk of this type.
unfoldable pub add_chunk :
    SourceDescription → ℕ → ℕ → List ℕ → ℕ → Option (Bool × SourceDescription)
add_chunk s type ssrc bytes len =
    if has_type type s.chunks
    then some (false, s)
    else copy_bytes (min len 255) bytes >>= λ string. some (
      true,
      record s {
        chunks = s.chunks ++ (record { type = type; length = min len 255; string = string } ∷ []);
        ssrcs = s.ssrcs ++ (ssrc ∷ []);
      },
    )

-- `erase_at (begin () + n)`
unfoldable pub erase_at {ℓ} : {A : Type ℓ} → List A → ℕ → List A
erase_at [] n = []
erase_at (x ∷ xs) zero = xs
erase_at (x ∷ xs) (suc n) = x ∷ erase_at xs n

unfoldable pub remove_chunk : SourceDescription → ℕ → Bool × SourceDescription
remove_chunk s n =
    if leb (length s.chunks) n
    then (false, s)
    else (true, record s { chunks = erase_at s.chunks n; ssrcs = erase_at s.ssrcs n })

-- `chunkData (n, data, maxlen)`: the bytes stored to `data`.
unfoldable pub chunk_data : SourceDescription → ℕ → ℕ → Option (List ℕ)
chunk_data s n maxlen = get_elem? s.chunks n >>= λ c. copy_bytes (min c.length maxlen) c.string

-- The bytes up to a NUL; `none`: there is none among the bytes that were set.
unfoldable pub until_nul : List ℕ → Option (List ℕ)
until_nul [] = none
until_nul (b ∷ bs) =
    let rest = until_nul bs in if b == 0 then some [] else rest >>= λ cs. some (b ∷ cs)

unfoldable pub chunk_string : SourceDescription → ℕ → Option (List ℕ)
chunk_string s n = get_elem? s.chunks n >>= λ c. until_nul c.string

-- The first word of a packet: the padding bit is placed at bit 29.
unfoldable pub source_word : ℕ → Bool → ℕ → ℕ → ℕ
source_word version padding_bit count size =
    bit_or
      (bit_or
        (bit_or (bit_or (bit_and 0x03 version << 30) (bit_and 0x01 (bit padding_bit) << 29))
          (bit_and 0x1f count << 24))
        (bit_and 0xff source_pt << 16))
      (bit_and 0xffff size)

module _ (net : ByteOrder) where
  -- The loop over the chunks, from byte `j` on.
  unfoldable pub read_chunks : List ℕ → ℕ → ℕ → Option (List Chunk)
  read_chunks d j zero = some []
  read_chunks d j (suc n) = do
    type ← load_byte net d j
    len ← load_byte net d (j + 1)
    bytes ← load_bytes net d (j + 2) len
    cs ← read_chunks d (j + 2 + len) n
    some (record { type = type; length = len; string = bytes ++ (0 ∷ []) } ∷ cs)

  -- `readBlock (data + at)`: the source is taken from the first four bytes of the chunks, and kept
  -- once more than there are chunks. `none`: the call reads outside of `d`.
  unfoldable pub read_source : List ℕ → ℕ → Option (ℕ × SourceDescription)
  read_source d at = do
    w ← load net d at
    if not (head_type w == source_pt) then some (0, cleared_source) else do
      ssrc ← load net d (at + 2)
      chunks ← read_chunks d (4 * (at + 2)) (head_count w)
      some (
        total_size chunks,
        record {
          version = head_version w;
          padding_bit = head_padding w;
          chunks = chunks;
          ssrcs = replicate (suc (head_count w)) ssrc;
        },
      )

  unfoldable pub write_chunks : List ℕ → ℕ → List Chunk → Option (List ℕ)
  write_chunks d j [] = some d
  write_chunks d j (c ∷ cs) = do
    bytes ← copy_bytes c.length c.string
    e ← store_bytes net d j (bit_and 0xff c.type ∷ bit_and 0xff c.length ∷ bytes)
    write_chunks e (j + (2 + c.length)) cs

  -- `data[i] = htonl (w)`, in the array or `none`.
  abbrev pub put_word : List ℕ → ℕ → ℕ → Option (List ℕ)
  put_word d i w = if ltb i (length d) then some (store net d i w) else none

  -- `writeBlock (data + at, len)`: what it returns, and the array after it. `none`: the call writes
  -- outside of `d`, or reads the first source of none.
  unfoldable pub write_source : SourceDescription → List ℕ → ℕ → ℕ → Option (ℕ × List ℕ)
  write_source s d at len =
      if ltb len (total_size s.chunks)
      then some (0, d)
      else if ltb (length d) (at + len)
      then none
      else do
        ssrc ← get_elem? s.ssrcs 0
        d₁ ←
            put_word (zero_words d at len) at
              (source_word s.version s.padding_bit (length s.chunks) (total_size s.chunks - 1))
        d₂ ← put_word d₁ (at + 1) ssrc
        d₃ ← write_chunks d₂ (4 * (at + 2)) s.chunks
        some (total_size s.chunks, d₃)

-- ===== src/Ring/Vectors.antt =====
-- The zero-copy views `getReadVector` and `getWriteVector`.
use net_isdn.Common.{
  ℕ, ◌+◌, ◌-◌, ◌≤◌, ◌<◌, ◌≡◌, refl, sym, ap, ◌∙◌, List, ◌++◌, arith, length, ltb, take, drop,
  append-nil, if◌then◌else◌, Bool-cases, inl, inr, memcpy, slice, memcpy-zero, take-length,
}
use net_isdn.Ring.{
  RingBuffer, Segment, vector, get_read_vector, get_write_vector, write_advance, read_space,
  write_space,
}
use net_isdn.Ring.Inv.{IsValid, held, read_space_lem, write_space_lem}
use net_isdn.Ring.Copy.{wrap, stored, fetched, room, advance_lem, sum_fits}
use net_isdn.Ring.Contents.{contents}
use net_isdn.Ring.Read.{fetched-tabulate}
use net_isdn.Ring.Write.{contents-store}

-- The bytes that a segment shows.
abbrev pub shown : RingBuffer → Segment → List ℕ
shown r s = slice r.buf s.start s.len

-- The two parts of a view of `n` bytes from `x` on.
vector_lem :
    (r : RingBuffer) (x n : ℕ) (old : Segment)
    → IsValid r
    → x < r.size
    → n < r.size
    → vector r x n old ≡ (
        if ltb r.size (x + n)
        then (record { start = x; len = r.size - x }, record { start = 0; len = x + n - r.size })
        else (record { start = x; len = n }, record old { len = 0 }))
unfolding vector
vector_lem r x n old v hx hn =
    rw (advance_lem r x n v hx (omega arith), sum_fits r x n v hx (omega arith)) (ground arith)

read_vector_eq :
    (r : RingBuffer) (old : Segment)
    → get_read_vector r old ≡ vector r r.read_ptr (read_space r) old
unfolding get_read_vector read_space
read_vector_eq r old = refl

write_vector_eq :
    (r : RingBuffer) (old : Segment)
    → get_write_vector r old ≡ vector r r.write_ptr (write_space r) old
unfolding get_write_vector write_space
write_vector_eq r old = refl

abbrev parts : RingBuffer → ℕ → ℕ → Segment → Segment × Segment
parts r x n old =
    if ltb r.size (x + n)
    then (record { start = x; len = r.size - x }, record { start = 0; len = x + n - r.size })
    else (record { start = x; len = n }, record old { len = 0 })

shown-parts :
    (r : RingBuffer) (n : ℕ) (old : Segment)
    → shown r (parts r r.read_ptr n old).0 ++ shown r (parts r r.read_ptr n old).1 ≡ fetched r n
shown-parts r n old = elim (Bool-cases (ltb r.size (r.read_ptr + n))) [
  | inl two ↦ rw two
  | inr one ↦ rw one (append-nil _)
]

-- `getReadVector` shows exactly the bytes held, oldest first, in one part or two.
pub read_vector_contents :
    (r : RingBuffer) (old : Segment)
    → IsValid r
    → let (first, second) = get_read_vector r old in shown r first ++ shown r second ≡ contents r
read_vector_contents r old v =
    rw
      (
        read_vector_eq r old,
        read_space_lem r v,
        vector_lem r r.read_ptr (held r) old v v.read_in (ground arith),
      )
      (shown-parts r (held r) old ∙ fetched-tabulate r (held r) v (omega arith))

-- Filling the two parts of `getWriteVector` with bytes, first part first.
abbrev pub fill : RingBuffer → Segment × Segment → List ℕ → List ℕ
fill r (first, second) src =
    memcpy (memcpy r.buf first.start src first.len) second.start (drop first.len src) second.len

fill-parts :
    (r : RingBuffer) (n : ℕ) (old : Segment) (src : List ℕ)
    → fill r (parts r r.write_ptr n old) src ≡ stored r src n
fill-parts r n old src = elim (Bool-cases (ltb r.size (r.write_ptr + n))) [
  | inl two ↦ rw two
  | inr one ↦ rw one (memcpy-zero _ _ _)
]

parts_len :
    (r : RingBuffer) (x n : ℕ) (old : Segment)
    → x < r.size
    → (parts r x n old).0.len + (parts r x n old).1.len ≡ n
parts_len r x n old hx = ground arith

advanced :
    (r : RingBuffer) (b : List ℕ) (n : ℕ)
    → IsValid r
    → n ≤ r.size
    → write_advance (record r { buf = b }) n
      ≡ record r { buf = b; write_ptr = wrap r (r.write_ptr + n) }
unfolding write_advance
advanced r b n v hn = rw (advance_lem r r.write_ptr n v v.write_in hn)

-- `getWriteVector` offers as many bytes as `writeSpace` reports; filling its parts with as many bytes
-- and then advancing the write pointer by their number appends them to the bytes held.
pub write_vector_fill :
    (r : RingBuffer) (old : Segment) (src : List ℕ)
    → IsValid r
    → length src ≡ write_space r
    → let parts = get_write_vector r old in
      (parts.0.len + parts.1.len ≡ write_space r)
      × (contents (write_advance (record r { buf = fill r parts src }) (length src))
          ≡ contents r ++ src)
write_vector_fill r old src v e =
    rw
      (
        write_vector_eq r old,
        space,
        vector_lem r r.write_ptr (room r) old v v.write_in (ground arith),
        fill-parts r (room r) old src,
        advanced r (stored r src (room r)) (length src) v (omega (arith, all_fits)),
        all_fits,
      )
      (
        parts_len r r.write_ptr (room r) old v.write_in,
        contents-store r src (room r) v (omega (arith, all_fits)) (omega arith)
            ∙ ap (λ (k : ℕ). contents r ++ take k src) (sym all_fits)
            ∙ ap (λ l. contents r ++ l) (take-length src),
      )
  where
    space : write_space r ≡ room r
    space = omega (arith, write_space_lem r v)

    all_fits : length src ≡ room r
    all_fits = e ∙ space

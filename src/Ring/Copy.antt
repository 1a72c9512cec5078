-- ===== src/Ring/Copy.antt =====
-- What a transfer does to the storage and the pointers, with the `size_t` arithmetic done once.
use native.Mathlib.Nat.{mod-eq_of_lt, mod-eq-sub-mod}
use net_isdn.Common.{
  ℕ, ◌+◌, ◌-◌, ◌%◌, ◌≤◌, ◌<◌, ◌≡◌, ap, ◌∙◌, bit_and, List, ◌++◌, arith, drop, ltb, if◌then◌else◌,
  Bool-cases, inl, inr, memcpy, slice,
}
use net_isdn.Ring.{
  RingBuffer, add_size, write_advance, read_advance, first_part, second_part, store, fetch,
}
use net_isdn.Ring.Inv.{IsValid, mask_lem, held}

-- Index `x` of the ring, for x below twice the size.
abbrev pub wrap : RingBuffer → ℕ → ℕ
wrap r x = if ltb x r.size then x else x - r.size

mod_wrap : (s x : ℕ) → x < s + s → x % s ≡ (if ltb x s then x else x - s)
mod_wrap s x h = elim (Bool-cases (ltb x s)) [
  | inl lt ↦ rw lt (mod-eq_of_lt (ground arith))
  | inr ge ↦ rw ge (mod-eq-sub-mod {n = x} {m = s} (ground arith) ∙ mod-eq_of_lt (ground arith))
]

-- Both pointers advance round the ring.
pub advance_lem :
    (r : RingBuffer) (x n : ℕ)
    → IsValid r
    → x < r.size
    → n ≤ r.size
    → bit_and (add_size x n) r.size_mask ≡ wrap r (x + n)
advance_lem r x n v hx hn =
    rw (mask_lem r v) (ap (λ k. k % r.size) (omega arith) ∙ mod_wrap r.size (x + n) (omega arith))

pub sum_fits :
    (r : RingBuffer) (x n : ℕ) → IsValid r → x < r.size → n ≤ r.size → add_size x n ≡ x + n
sum_fits r x n v hx hn = omega arith

-- The storage after `n` bytes of `src` have been written from the write pointer on.
abbrev pub stored : RingBuffer → List ℕ → ℕ → List ℕ
stored r src n =
    let w = r.write_ptr in
    if ltb r.size (w + n)
    then memcpy (memcpy r.buf w src (r.size - w)) 0 (drop (r.size - w) src) (w + n - r.size)
    else memcpy r.buf w src n

abbrev pub room : RingBuffer → ℕ
room r = r.size - 1 - held r

first_part_lem :
    (r : RingBuffer) (x n : ℕ)
    → IsValid r
    → x < r.size
    → n ≤ r.size
    → first_part r x n ≡ (if ltb r.size (x + n) then r.size - x else n)
unfolding first_part
first_part_lem r x n v hx hn = rw (sum_fits r x n v hx hn) (ground arith)

second_part_lem :
    (r : RingBuffer) (x n : ℕ)
    → IsValid r
    → x < r.size
    → n ≤ r.size
    → second_part r x n ≡ (if ltb r.size (x + n) then x + n - r.size else 0)
unfolding second_part
second_part_lem r x n v hx hn =
    rw (advance_lem r x n v hx hn, sum_fits r x n v hx hn) (ground arith)

-- Filling up to the end brings a pointer to index 0, and from there it counts the bytes.
to_end :
    (r : RingBuffer) (x : ℕ)
    → IsValid r
    → x < r.size
    → bit_and (add_size x (r.size - x)) r.size_mask ≡ 0
to_end r x v hx = ground (arith, advance_lem r x (r.size - x) v hx)

from_start :
    (r : RingBuffer) (n : ℕ) → IsValid r → n < r.size → bit_and (add_size 0 n) r.size_mask ≡ n
from_start r n v hn = ground (arith, advance_lem r 0 n v)

pub store_eq :
    (r : RingBuffer) (src : List ℕ) (n : ℕ)
    → IsValid r
    → n < r.size
    → store r src n ≡ record r { buf = stored r src n; write_ptr = wrap r (r.write_ptr + n) }
unfolding store write_advance
store_eq r src n v hn =
    rw
      (
        first_part_lem r r.write_ptr n v v.write_in (omega arith),
        second_part_lem r r.write_ptr n v v.write_in (omega arith),
      )
      (elim (Bool-cases (ltb r.size (r.write_ptr + n))) [
        | inl two ↦
            rw
              (
                two,
                to_end r r.write_ptr v v.write_in,
                from_start r (r.write_ptr + n - r.size) v (ground arith),
              )
              (ground arith)
        | inr one ↦ rw one (rw (advance_lem r r.write_ptr n v v.write_in (omega arith)))
      ])

-- The `n` bytes from the read pointer on.
abbrev pub fetched : RingBuffer → ℕ → List ℕ
fetched r n =
    let p = r.read_ptr in
    if ltb r.size (p + n)
    then slice r.buf p (r.size - p) ++ slice r.buf 0 (p + n - r.size)
    else slice r.buf p n

pub fetch_eq :
    (r : RingBuffer) (n : ℕ)
    → IsValid r
    → n < r.size
    → fetch r n ≡ (fetched r n, record r { read_ptr = wrap r (r.read_ptr + n) })
unfolding fetch read_advance
fetch_eq r n v hn =
    rw
      (
        first_part_lem r r.read_ptr n v v.read_in (omega arith),
        second_part_lem r r.read_ptr n v v.read_in (omega arith),
      )
      (elim (Bool-cases (ltb r.size (r.read_ptr + n))) [
        | inl two ↦
            rw
              (
                two,
                to_end r r.read_ptr v v.read_in,
                from_start r (r.read_ptr + n - r.size) v (ground arith),
              )
              (ground arith)
        | inr one ↦ rw one (rw (advance_lem r r.read_ptr n v v.read_in (omega arith)))
      ])

-- ===== src/Ring/Inv.antt =====
-- The invariant of the ring: a power-of-two size, both pointers inside it; the constructor
-- establishes it, and under it the space computations are exact.

use native.Mathlib.Nat.{mod-eq_of_lt, mod-eq-sub-mod}
use net_isdn.Common.{
  ℕ, ◌+◌, ◌-◌, ◌%◌, ◌^◌, ◌≤◌, ◌<◌, ◌≡◌, ap, bit_and, arith, length, ltb, ◌∙◌, if◌then◌else◌,
}
use net_isdn.Common.Bits.{bit_and-mask}
use net_isdn.Ring.{RingBuffer, add_size, sub_size, write_space, read_space}

pub record IsValid (r : RingBuffer) : Type 0 where
  pub power : ℕ
  pub size_is : r.size ≡ 2 ^ power
  pub mask_is : r.size_mask ≡ r.size - 1
  pub storage : length r.buf ≡ r.size
  pub at_least : 2 ≤ r.size
  pub at_most : r.size ≤ 2 ^ 30
  pub write_in : r.write_ptr < r.size
  pub read_in : r.read_ptr < r.size

-- `& size_mask` is the remainder by the size.
pub mask_lem : (r : RingBuffer) → IsValid r → (x : ℕ) → bit_and x r.size_mask ≡ x % r.size
mask_lem r v x = rw (v.mask_is, v.size_is) (bit_and-mask v.power x)

-- The number of bytes held: the distance from the read to the write pointer, going round.
abbrev pub held : RingBuffer → ℕ
held r =
    if ltb r.write_ptr r.read_ptr
    then r.write_ptr + r.size - r.read_ptr
    else r.write_ptr - r.read_ptr

-- The unsigned difference, reduced by the mask, is the distance going round.
abbrev pub wrapped_gap : RingBuffer → ℕ → ℕ → ℕ
wrapped_gap r a b = bit_and (add_size (sub_size a b) r.size) r.size_mask

gap_below : (a b s : ℕ) → a < b → b < s → s ≤ 2 ^ 30 → add_size (sub_size a b) s % s ≡ a + s - b
gap_below a b s ab bs hs = ap (λ k. k % s) (omega arith) ∙ mod-eq_of_lt (omega arith)

gap_above : (a b s : ℕ) → b ≤ a → a < s → s ≤ 2 ^ 30 → add_size (sub_size a b) s % s ≡ a - b
gap_above a b s ab hs small =
    ap (λ k. k % s) (let e : add_size (sub_size a b) s ≡ s + (a - b) = omega arith in e)
    ∙ mod-eq-sub-mod (omega arith)
    ∙ mod-eq_of_lt (omega arith)
    ∙ omega arith

wrapped_gap_lem :
    (r : RingBuffer) (a b : ℕ)
    → IsValid r
    → a < r.size
    → b < r.size
    → wrapped_gap r a b ≡ (if ltb a b then a + r.size - b else a - b)
wrapped_gap_lem r a b v ha hb =
    rw (mask_lem r v) (ground (arith, gap_below a b r.size, gap_above a b r.size))

pub read_space_lem : (r : RingBuffer) → IsValid r → read_space r ≡ held r
unfolding read_space
read_space_lem r v = ground (arith, wrapped_gap_lem r r.write_ptr r.read_ptr v)

-- One byte of the ring always stays free.
pub write_space_lem : (r : RingBuffer) → IsValid r → write_space r + held r + 1 ≡ r.size
unfolding write_space
write_space_lem r v = ground (arith, wrapped_gap_lem r r.read_ptr r.write_ptr v)

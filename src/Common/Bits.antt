-- ===== src/Common/Bits.antt =====
-- `|` of disjoint fields and `&` with a mask of low ones, as arithmetic, at every width.
use Prim.Native.Nat.{
  ℕ, zero, suc, ◌+◌, ◌-◌, ◌*◌, ◌/◌, ◌%◌, ◌^◌, ◌≤◌, ◌<◌, min, max, bit_and, bit_or, digits, bitwise,
  bit_and-bitwise, bit_or-bitwise,
}
use native.Mathlib.Nat.{pow-suc, one-le-pow, le_refl}
use mathlib.Core.Path.{◌≡◌, refl, ap, sym, ◌∙◌}
use native.Mathlib.Omega.{arith}

infixl 64 ◌<<◌ ◌>>◌
abbrev pub ◌<<◌ : ℕ → ℕ → ℕ
x << k = x * 2 ^ k

abbrev pub ◌>>◌ : ℕ → ℕ → ℕ
x >> k = x / 2 ^ k

-- The native operations mean a recursion on binary digits; any fuel from the first number on
-- gives the same digits.
module _ (rest : ℕ → ℕ) (op : ℕ → ℕ → ℕ) where
  enough_fuel : (n m : ℕ) (a b : ℕ) → a ≤ n → a ≤ m → digits rest op n a b ≡ digits rest op m a b
  enough_fuel zero zero a b hn hm = refl
  enough_fuel zero (suc m) zero b hn hm = refl
  enough_fuel zero (suc m) (suc a) b hn hm = absurd (omega arith)
  enough_fuel (suc n) zero zero b hn hm = refl
  enough_fuel (suc n) zero (suc a) b hn hm = absurd (omega arith)
  enough_fuel (suc n) (suc m) zero b hn hm = refl
  enough_fuel (suc n) (suc m) (suc a) b hn hm =
      omega (arith, enough_fuel n m (suc a / 2) (b / 2) (omega arith) (omega arith))

  lowest_digit :
      (a b : ℕ)
      → bitwise rest op (suc a) b ≡ bitwise rest op (suc a / 2) (b / 2) * 2 + op (suc a % 2) (b % 2)
  lowest_digit a b =
      omega (arith, enough_fuel a (suc a / 2) (suc a / 2) (b / 2) (omega arith) (le_refl _))

or_digit : (a b : ℕ) → bit_or a b ≡ bit_or (a / 2) (b / 2) * 2 + max (a % 2) (b % 2)
or_digit zero b = simp bit_or-bitwise (omega arith)
or_digit (suc a) b = simp bit_or-bitwise (lowest_digit (λ y. y) max a b)

and_digit : (a b : ℕ) → bit_and a b ≡ bit_and (a / 2) (b / 2) * 2 + min (a % 2) (b % 2)
and_digit zero b = simp bit_and-bitwise (omega arith)
and_digit (suc a) b = simp bit_and-bitwise (lowest_digit (λ y. 0) min a b)

or_none : (n a : ℕ) → a ≤ n → bit_or a 0 ≡ a
or_none zero zero h = refl
or_none zero (suc a) h = absurd (omega arith)
or_none (suc n) zero h = refl
or_none (suc n) (suc a) h = omega (arith, or_digit (suc a) 0, or_none n (suc a / 2) (omega arith))

and_none : (n a : ℕ) → a ≤ n → bit_and a 0 ≡ 0
and_none zero zero h = refl
and_none zero (suc a) h = absurd (omega arith)
and_none (suc n) zero h = refl
and_none (suc n) (suc a) h =
    omega (arith, and_digit (suc a) 0, and_none n (suc a / 2) (omega arith))

double_shift : (q k : ℕ) → q << suc k ≡ 2 * (q << k)
double_shift q k = omega (arith, ap (λ (t : ℕ). q * t) (pow-suc 2 k))

-- `(q << k) | r` is a sum when `r` has at most `k` bits.
pub bit_or-shift : (k q r : ℕ) → r < 2 ^ k → bit_or (q << k) r ≡ (q << k) + r
bit_or-shift zero q r h = ground (arith, or_none q q)
bit_or-shift (suc k) q r h =
    ground
      (arith, or_digit (q << suc k) r, double_shift q k, bit_or-shift k q (r / 2) (omega arith))

and_field : (k q r : ℕ) → r < 2 ^ k → bit_and ((q << k) + r) (2 ^ k - 1) ≡ r
and_field zero q r h = omega (arith, and_none (q * 2 ^ 0 + r) (q * 2 ^ 0 + r) (le_refl _))
and_field (suc k) q r h = ground (
  arith,
  and_digit ((q << suc k) + r) (2 ^ suc k - 1),
  double_shift q k,
  pow-suc 2 k,
  and_field k q (r / 2) (omega arith),
)

-- `a & (2 ^ k - 1)` is the remainder by `2 ^ k`.
pub bit_and-mask : (k a : ℕ) → bit_and a (2 ^ k - 1) ≡ a % 2 ^ k
bit_and-mask k a = ground (arith, one-le-pow k 2, and_field k (a / 2 ^ k) (a % 2 ^ k))

-- `x | r` is a sum when the low `k` bits of `x` are zero and `r` has no other.
pub bit_or-add : (k x r : ℕ) → x % 2 ^ k ≡ 0 → r < 2 ^ k → bit_or x r ≡ x + r
bit_or-add k x r e h =
    let whole : x / 2 ^ k << k ≡ x = ground (arith, one-le-pow k 2) in
    rw whole at (bit_or-shift k (x / 2 ^ k) r h)

and_comm_fuel : (n a b : ℕ) → a ≤ n → bit_and a b ≡ bit_and b a
and_comm_fuel n zero b h = bit_and-bitwise 0 b ∙ sym (and_none b b (le_refl b))
and_comm_fuel zero (suc a) b h = absurd (omega arith)
and_comm_fuel (suc n) (suc a) b h = omega (
  arith,
  and_digit (suc a) b,
  and_digit b (suc a),
  and_comm_fuel n (suc a / 2) (b / 2) (omega arith),
)

pub bit_and_comm : (a b : ℕ) → bit_and a b ≡ bit_and b a
bit_and_comm a b = and_comm_fuel a a b (le_refl a)

-- `(2 ^ k - 1) & a` too is the remainder by `2 ^ k`.
pub mask-bit_and : (k a : ℕ) → bit_and (2 ^ k - 1) a ≡ a % 2 ^ k
mask-bit_and k a = bit_and_comm (2 ^ k - 1) a ∙ bit_and-mask k a

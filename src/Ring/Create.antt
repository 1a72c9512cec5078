-- ===== src/Ring/Create.antt =====
-- The constructor: the size that it chooses, and that the ring it makes is valid and empty.

use native.Mathlib.Nat.{pow-suc, one-le-pow, add-zero, add-suc}
use native.Mathlib.Numerals.{add-one}
use native.Mathlib.Decide.{dec_lt}
use mathlib.Core.Path.{subst}
use net_isdn.Common.{
  ℕ, zero, suc, ◌+◌, ◌-◌, ◌*◌, ◌^◌, ◌≤◌, ◌<◌, ◌≡◌, refl, ap, ◌∙◌, ◌⊎◌, inl, inr, some, List, [],
  arith, length, ltb, Bool-cases, true, false,
}
use net_isdn.Ring.{RingBuffer, power_of_two, create}
use net_isdn.Ring.Inv.{IsValid}
use net_isdn.Ring.Contents.{contents}

-- `q` is the power that the loop must return when it has come to `p`.
record IsPower (p sz q : ℕ) : Type 0 where
  from : p ≤ q
  below : q ≤ 30
  enough : sz ≤ 2 ^ q
  tight : (q ≡ p) ⊎ (2 ^ q < 2 * sz)

at_most_29 : (p sz : ℕ) → p ≤ 30 → sz ≤ 2 ^ 30 → ltb (2 ^ p) sz ≡ true → p ≤ 29
at_most_29 p sz hp h more = elim (dec_lt p 30) [
  | yes lt ↦ omega arith
  | no ge ↦
      let e : p ≡ 30 = omega arith in
      let full : 2 ^ p ≡ 2 ^ 30 = ap (λ k. 2 ^ k) e in absurd (ground arith)
]

later_tight : (p sz q : ℕ) → ltb (2 ^ p) sz ≡ true → (q ≡ p + 1) ⊎ (2 ^ q < 2 * sz) → 2 ^ q < 2 * sz
later_tight p sz q more (inl e) =
    let double : 2 ^ q ≡ 2 * 2 ^ p = ap (λ k. 2 ^ k) (e ∙ add-one p) ∙ pow-suc 2 p ∙ omega arith in
    ground arith
later_tight p sz q more (inr lt) = lt

power_of_two-IsPower :
    (left p sz : ℕ)
    → p + left ≡ 31
    → p ≤ 30
    → sz ≤ 2 ^ 30
    → (q : ℕ) × (power_of_two left p sz ≡ some q) × IsPower p sz q
unfolding power_of_two
power_of_two-IsPower zero p sz e hp h = absurd (omega arith)
power_of_two-IsPower (suc left) p sz e hp h = elim (Bool-cases (ltb (2 ^ p) sz)) [
  | inl more ↦ rw more (
      let small : p ≤ 29 = at_most_29 p sz hp h more in
      let (q, found, ok) = power_of_two-IsPower left (p + 1) sz (omega arith) (omega arith) h in
      (
        q,
        found,
        record {
          from = omega (arith, ok.from);
          below = ok.below;
          enough = ok.enough;
          tight = inr (later_tight p sz q more ok.tight);
        },
      ))
  | inr done ↦
      rw done (
        p,
        refl,
        record { from = omega arith; below = hp; enough = ground arith; tight = inl refl },
      )
]

-- What the constructor promises for a ring of at least `sz` bytes.
pub record Created (sz : ℕ) (r : RingBuffer) : Type 0 where
  pub valid : IsValid r
  pub empty : contents r ≡ []
  pub enough : sz ≤ r.size
  pub tight : (r.size ≡ 2) ⊎ (r.size < 2 * sz)

abbrev made : (ℕ → List ℕ) → ℕ → RingBuffer
made malloc q = record {
  buf = malloc (2 ^ q);
  write_ptr = 0;
  read_ptr = 0;
  size = 2 ^ q;
  size_mask = 2 ^ q - 1;
  mlocked = false;
}

two-le-pow : (q : ℕ) → 1 ≤ q → 2 ≤ 2 ^ q
two-le-pow zero h = absurd (omega arith)
two-le-pow (suc q) h = omega (arith, pow-suc 2 q, one-le-pow q 2)

pow_mono : (q d : ℕ) → 2 ^ q ≤ 2 ^ (q + d)
pow_mono q zero = rw add-zero (omega arith)
pow_mono q (suc d) = rw add-suc (omega (arith, pow-suc 2 (q + d), pow_mono q d))

pow-le : (q : ℕ) → q ≤ 30 → 2 ^ q ≤ 2 ^ 30
pow-le q h =
    subst (λ k. 2 ^ q ≤ 2 ^ k) (let e : q + (30 - q) ≡ 30 = omega arith in e) (pow_mono q (30 - q))

two_or_tight : (sz q : ℕ) → (q ≡ 1) ⊎ (2 ^ q < 2 * sz) → (2 ^ q ≡ 2) ⊎ (2 ^ q < 2 * sz)
two_or_tight sz q (inl e) = inl (ap (λ k. 2 ^ k) e)
two_or_tight sz q (inr lt) = inr lt

-- For a request of at most 2 ^ 30 bytes, where the allocation succeeds, the constructor returns: the
-- ring is valid and empty, its size is at least the request, and it is 2 or less than twice the
-- request.
pub create-Created :
    (malloc : ℕ → List ℕ) (sz : ℕ)
    → ((n : ℕ) → length (malloc n) ≡ n)
    → sz ≤ 2 ^ 30
    → (r : RingBuffer) × (create malloc sz ≡ some r) × Created sz r
unfolding create
create-Created malloc sz alloc h =
    let (q, e, p) = power_of_two-IsPower 30 1 sz refl (omega arith) h in
    let lo : 2 ≤ 2 ^ q = two-le-pow q p.from in
    let hi : 2 ^ q ≤ 2 ^ 30 = pow-le q p.below in
    (
      made malloc q,
      rw e,
      record {
        valid = record {
          power = q;
          size_is = refl;
          mask_is = refl;
          storage = alloc (2 ^ q);
          at_least = lo;
          at_most = hi;
          write_in = omega arith;
          read_in = omega arith;
        };
        empty = refl;
        enough = p.enough;
        tight = two_or_tight sz q p.tight;
      },
    )

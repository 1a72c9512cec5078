-- ===== src/Base64/Encode.antt =====
-- The encoder as a recursion on groups, the padding in its place.
use net_isdn.Common.{
  ℕ, suc, ◌+◌, ◌-◌, ◌*◌, ◌/◌, ◌%◌, ◌^◌, ◌≤◌, ◌<◌, ◌≡◌, ap, ap₂, List, [], ◌∷◌, ◌++◌, arith, length,
  take, ◌==◌, true, Bool-cases, inl, inr,
}
use net_isdn.Common.Bits.{◌<<◌, bit_or-add, mask-bit_and}
use net_isdn.Base64.{lookup, groups, pad_char, to_base64}
use net_isdn.Base64.Dict.{char}
use net_isdn.Base64.Group.{IsByte, word, lookup_lem, full_bits}

pub to_base64_one :
    (a : ℕ)
    → IsByte a
    → to_base64 (a ∷ []) ≡ char (a / 4) ∷ char (a % 4 * 16) ∷ pad_char ∷ pad_char ∷ []
unfolding to_base64 groups
to_base64_one a ha =
    rw (mask-bit_and 8 a, lookup_lem (a % 256 << 16))
      (let x : (a % 256 << 16) / 2 ^ 18 % 64 ≡ a / 4 = omega arith in
        let y : (a % 256 << 16) / 2 ^ 12 % 64 ≡ a % 4 * 16 = omega arith in
        ap₂ (λ x y. char x ∷ char y ∷ pad_char ∷ pad_char ∷ []) x y)

pub to_base64_two :
    (a b : ℕ)
    → IsByte a
    → IsByte b
    → to_base64 (a ∷ b ∷ [])
      ≡ char (a / 4) ∷ char (a % 4 * 16 + b / 16) ∷ char (b % 16 * 4) ∷ pad_char ∷ []
unfolding to_base64 groups
to_base64_two a b ha hb =
    rw
      (
        mask-bit_and 8 a,
        mask-bit_and 8 b,
        bit_or-add 16 (a % 256 << 16) (b % 256 << 8) (omega arith) (omega arith),
        lookup_lem ((a % 256 << 16) + (b % 256 << 8)),
      )
      (let buf : ℕ = (a % 256 << 16) + (b % 256 << 8) in
        let x : buf / 2 ^ 18 % 64 ≡ a / 4 = omega arith in
        let y : buf / 2 ^ 12 % 64 ≡ a % 4 * 16 + b / 16 = omega arith in
        let z : buf / 2 ^ 6 % 64 ≡ b % 16 * 4 = omega arith in
        ap₂ ◌∷◌ (ap char x) (ap₂ (λ y z. char y ∷ char z ∷ pad_char ∷ []) y z))

pub length-groups : (s : List ℕ) → 0 < length s → 4 ≤ length (groups s)
unfolding groups lookup
length-groups [] h = absurd (omega arith)
length-groups (a ∷ []) h = omega arith
length-groups (a ∷ b ∷ []) h = omega arith
length-groups (a ∷ b ∷ c ∷ rest) h = omega arith

pub take_behind :
    (k x y z w : ℕ) (g : List ℕ)
    → k ≤ length g
    → take (suc (suc (suc (suc (length g)))) - k) (x ∷ y ∷ z ∷ w ∷ g)
      ≡ x ∷ y ∷ z ∷ w ∷ take (length g - k) g
take_behind k x y z w g h =
    ap (λ (n : ℕ). take n (x ∷ y ∷ z ∷ w ∷ g))
      (let e : suc (suc (suc (suc (length g)))) - k ≡ suc (suc (suc (suc (length g - k)))) =
          omega arith in
        e)

pub to_base64_three :
    (a b c : ℕ) (rest : List ℕ)
    → IsByte a
    → IsByte b
    → IsByte c
    → to_base64 (a ∷ b ∷ c ∷ rest) ≡ lookup (word a b c) ++ to_base64 rest
unfolding to_base64 groups
to_base64_three a b c rest ha hb hc =
    rw
      (
        full_bits a b c ha hb hc,
        lookup_lem (word a b c),
        (let e : suc (suc (suc (length rest))) % 3 ≡ length rest % 3 = omega arith in e),
      )
      (elim (Bool-cases (length rest % 3 == 1)) [
        | inl one ↦ rw one (
            ap (λ l. l ++ (pad_char ∷ pad_char ∷ []))
              (take_behind 2 _ _ _ _ (groups rest) (omega (arith, some_group one))))
        | inr more ↦ elim (Bool-cases (length rest % 3 == 2)) [
          | inl two ↦
              rw (more, two)
                (ap (λ l. l ++ (pad_char ∷ []))
                  (take_behind 1 _ _ _ _ (groups rest) (omega (arith, some_group' two))))
          | inr full ↦ rw (more, full)
        ]
      ])
  where
    some_group : length rest % 3 == 1 ≡ true → 4 ≤ length (groups rest)
    some_group e = length-groups rest (ground arith)

    some_group' : length rest % 3 == 2 ≡ true → 4 ≤ length (groups rest)
    some_group' e = length-groups rest (ground arith)

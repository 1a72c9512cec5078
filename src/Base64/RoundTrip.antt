-- ===== src/Base64/RoundTrip.antt =====
-- Decoding an encoding gives the bytes back.
use native.Mathlib.Nat.{add-zero, zero-add}
use net_isdn.Common.{
  le→ltb, ℕ, ◌+◌, ◌-◌, ◌*◌, ◌/◌, ◌%◌, ◌^◌, ◌≤◌, ◌≡◌, sym, ap, ◌∙◌, some, List, [], ◌∷◌, ◌++◌, arith,
  length, length-append, replicate, length-replicate, take, take-append,
}
use net_isdn.Base64.{lookup, groups, to_base64, ungroup, from_base64, to_data}
use net_isdn.Base64.Group.{
  All, IsByte, word, lookup_lem, quad_digits, quad_two, quad_three, extract_lem,
}
use net_isdn.Base64.Encode.{to_base64_one, to_base64_two, to_base64_three}

-- A group of three bytes goes and comes back.
ungroup-lookup :
    (a b c pad : ℕ) (rest : List ℕ)
    → IsByte a
    → IsByte b
    → IsByte c
    → ungroup (lookup (word a b c) ++ rest) pad
      ≡ (a ∷ b ∷ c ∷ (ungroup rest pad).0, (ungroup rest pad).1)
unfolding ungroup
ungroup-lookup a b c pad rest ha hb hc =
    rw
      (
        lookup_lem (word a b c),
        quad_digits (word a b c / 2 ^ 18 % 64) (word a b c / 2 ^ 12 % 64) (word a b c / 2 ^ 6 % 64)
            (word a b c / 2 ^ 0 % 64) pad (omega arith) (omega arith) (omega arith) (omega arith),
      )
      (let e : word a b c / 2 ^ 18 % 64 * 2 ^ 18
              + word a b c / 2 ^ 12 % 64 * 2 ^ 12
              + word a b c / 2 ^ 6 % 64 * 2 ^ 6
              + word a b c / 2 ^ 0 % 64
            ≡ word a b c =
          omega arith in
        rw (e, extract_lem a b c ha hb hc))

none_held : (pad : ℕ) → ungroup (to_base64 []) pad ≡ ([], some (pad + 0))
unfolding ungroup to_base64 groups
none_held pad = ap (λ (k : ℕ). ([], some k)) (sym (add-zero pad))

one_held :
    (a pad : ℕ) → IsByte a → ungroup (to_base64 (a ∷ [])) pad ≡ (a ∷ 0 ∷ 0 ∷ [], some (pad + 2))
unfolding ungroup
one_held a pad ha =
    rw (to_base64_one a ha, quad_two (a / 4) (a % 4 * 16) pad (omega arith) (omega arith))
      (let e : a / 4 * 2 ^ 18 + a % 4 * 16 * 2 ^ 12 ≡ word a 0 0 = omega arith in
        let k : pad + 1 + 1 ≡ pad + 2 = omega arith in
        rw (e, k, extract_lem a 0 0 ha (omega arith) (omega arith)))

two_held :
    (a b pad : ℕ)
    → IsByte a
    → IsByte b
    → ungroup (to_base64 (a ∷ b ∷ [])) pad ≡ (a ∷ b ∷ 0 ∷ [], some (pad + 1))
unfolding ungroup
two_held a b pad ha hb =
    rw
      (
        to_base64_two a b ha hb,
        quad_three (a / 4) (a % 4 * 16 + b / 16) (b % 16 * 4) pad (omega arith) (omega arith)
            (omega arith),
      )
      (let e : a / 4 * 2 ^ 18 + (a % 4 * 16 + b / 16) * 2 ^ 12 + b % 16 * 4 * 2 ^ 6 ≡ word a b 0 =
          omega arith in
        rw (e, extract_lem a b 0 ha hb (omega arith)))

take_front : (s : List ℕ) (p : ℕ) → take (length (s ++ replicate p 0) - p) (s ++ replicate p 0) ≡ s
take_front s p =
    rw (length-append s (replicate p 0), length-replicate {A = ℕ} p 0)
      (ap (λ n. take n (s ++ replicate p 0))
          (let e : length s + p - p ≡ length s = omega arith in e)
        ∙ take-append s (replicate p 0))

-- What decoding an encoding gives before the padding is taken off: the bytes, then a zero byte for
-- each padding character.
ungroup-to_base64 :
    (s : List ℕ) (pad : ℕ)
    → All IsByte s
    → (p : ℕ) × (p ≤ 2) × (ungroup (to_base64 s) pad ≡ (s ++ replicate p 0, some (pad + p)))
ungroup-to_base64 [] pad h = (0, omega arith, none_held pad)
ungroup-to_base64 (a ∷ []) pad h = (2, omega arith, one_held a pad h.0)
ungroup-to_base64 (a ∷ b ∷ []) pad h = (1, omega arith, two_held a b pad h.0 h.1.0)
ungroup-to_base64 (a ∷ b ∷ c ∷ rest) pad h =
    let (p, hp, e) = ungroup-to_base64 rest pad h.1.1.1 in
    (
      p,
      hp,
      ap (λ l. ungroup l pad) (to_base64_three a b c rest h.0 h.1.0 h.1.1.0)
          ∙ ungroup-lookup a b c pad (to_base64 rest) h.0 h.1.0 h.1.1.0
          ∙ (rw e),
    )

-- Bytes encoded by `NetStringToBase64` come back from `NetBase64ToString`, with `*ok` true.
pub from_base64-to_base64 : (s : List ℕ) → All IsByte s → from_base64 (to_base64 s) ≡ some s
unfolding from_base64
from_base64-to_base64 s h =
    let (p, hp, e) = ungroup-to_base64 s 0 h in
    rw (e, le→ltb 2 (0 + p) (omega arith))
      (ap (λ (k : ℕ). some (take (length (s ++ replicate p 0) - k) (s ++ replicate p 0)))
          (zero-add p)
        ∙ ap some (take_front s p))

-- Decoding the encoding of bytes to an array returns their number and stores them in order, with at
-- most two zero bytes behind them, whatever `maxlen` says.
pub to_data-to_base64 :
    (s : List ℕ) (maxlen : ℕ)
    → All IsByte s
    → (p : ℕ) × (p ≤ 2) × (to_data (to_base64 s) maxlen ≡ (length s, s ++ replicate p 0))
unfolding to_data
to_data-to_base64 s maxlen h =
    let (p, hp, e) = ungroup-to_base64 s 0 h in
    (
      p,
      hp,
      rw (e, le→ltb 2 (0 + p) (omega arith))
          (ap (λ (k : ℕ). (k, s ++ replicate p 0))
            (rw (ap (λ o. o.0) e, length-append s (replicate p 0), length-replicate {A = ℕ} p 0)
              (omega arith))),
    )

-- ===== src/Base64/Group.antt =====
-- The groups of the codec: three bytes, 24 bits, four digits.
use net_isdn.Common.{
  ℕ, ◌+◌, ◌*◌, ◌/◌, ◌%◌, ◌^◌, ◌<◌, ◌≡◌, refl, ap, ap₂, ◌∙◌, bit_and, bit_or, some, List, [], ◌∷◌,
  arith,
}
use net_isdn.Common.Bits.{◌<<◌, ◌>>◌, bit_or-add, mask-bit_and}
use net_isdn.Base64.{lookup, pad_char, digit, quad, extract}
use net_isdn.Base64.Dict.{char, digit-char}

abbrev pub All {ℓ κ} : {A : Type ℓ} → (A → Type κ) → List A → Type κ
All P [] = Unit
All P (x ∷ xs) = P x × All P xs

abbrev pub IsByte : ℕ → Type 0
IsByte x = x < 256

-- The 24 bits of three bytes.
abbrev pub word : ℕ → ℕ → ℕ → ℕ
word a b c = a * 2 ^ 16 + b * 2 ^ 8 + c

pub six : (buf k : ℕ) → bit_and 0x3f (buf >> k) ≡ (buf >> k) % 64
six buf k = mask-bit_and 6 (buf >> k)

pub lookup_lem :
    (buf : ℕ)
    → lookup buf
      ≡ char (buf / 2 ^ 18 % 64)
        ∷ char (buf / 2 ^ 12 % 64)
        ∷ char (buf / 2 ^ 6 % 64)
        ∷ char (buf / 2 ^ 0 % 64)
        ∷ []
unfolding lookup
lookup_lem buf = rw (six buf 18, six buf 12, six buf 6, six buf 0)

-- The encoder's bits.
pub full_bits :
    (a b c : ℕ)
    → IsByte a
    → IsByte b
    → IsByte c
    → bit_or (bit_or (bit_and 0xff a << 16) (bit_and 0xff b << 8)) (bit_and 0xff c) ≡ word a b c
full_bits a b c ha hb hc =
    rw
      (
        mask-bit_and 8 a,
        mask-bit_and 8 b,
        mask-bit_and 8 c,
        bit_or-add 16 (a % 256 << 16) (b % 256 << 8) (omega arith) (omega arith),
        bit_or-add 8 (a % 256 * 2 ^ 16 + b % 256 * 2 ^ 8) (c % 256) (omega arith) (omega arith),
      )
      (omega arith)

-- Four digits of six bits join to their 24 bits.
pub quad_digits :
    (x y z w pad : ℕ)
    → x < 64
    → y < 64
    → z < 64
    → w < 64
    → quad (some (char x)) (some (char y)) (some (char z)) (some (char w)) pad
      ≡ some (x * 2 ^ 18 + y * 2 ^ 12 + z * 2 ^ 6 + w, pad)
quad_digits x y z w pad hx hy hz hw =
    rw
      (
        digit-char x 18 0 pad hx,
        bit_or-add 24 0 (x << 18) (omega arith) (omega arith),
        digit-char y 12 (0 + x * 2 ^ 18) pad hy,
        bit_or-add 18 (0 + x * 2 ^ 18) (y << 12) (omega arith) (omega arith),
        digit-char z 6 (0 + x * 2 ^ 18 + y * 2 ^ 12) pad hz,
        bit_or-add 12 (0 + x * 2 ^ 18 + y * 2 ^ 12) (z << 6) (omega arith) (omega arith),
        digit-char w 0 (0 + x * 2 ^ 18 + y * 2 ^ 12 + z * 2 ^ 6) pad hw,
        bit_or-add 6 (0 + x * 2 ^ 18 + y * 2 ^ 12 + z * 2 ^ 6) (w << 0) (omega arith) (omega arith),
      )
      (ap (λ (k : ℕ). some (k, pad)) (omega arith))

pub digit_pad : (shift buf pad : ℕ) → digit (some pad_char) shift (buf, pad) ≡ some (buf, pad + 1)
unfolding digit
digit_pad shift buf pad = refl

-- A group with two padding characters, or with one.
pub quad_two :
    (x y pad : ℕ)
    → x < 64
    → y < 64
    → quad (some (char x)) (some (char y)) (some pad_char) (some pad_char) pad
      ≡ some (x * 2 ^ 18 + y * 2 ^ 12, pad + 1 + 1)
quad_two x y pad hx hy =
    rw
      (
        digit-char x 18 0 pad hx,
        bit_or-add 24 0 (x << 18) (omega arith) (omega arith),
        digit-char y 12 (0 + x * 2 ^ 18) pad hy,
        bit_or-add 18 (0 + x * 2 ^ 18) (y << 12) (omega arith) (omega arith),
        digit_pad 6 (0 + x * 2 ^ 18 + y * 2 ^ 12) pad,
        digit_pad 0 (0 + x * 2 ^ 18 + y * 2 ^ 12) (pad + 1),
      )
      (ap (λ (k : ℕ). some (k, pad + 1 + 1)) (omega arith))

pub quad_three :
    (x y z pad : ℕ)
    → x < 64
    → y < 64
    → z < 64
    → quad (some (char x)) (some (char y)) (some (char z)) (some pad_char) pad
      ≡ some (x * 2 ^ 18 + y * 2 ^ 12 + z * 2 ^ 6, pad + 1)
quad_three x y z pad hx hy hz =
    rw
      (
        digit-char x 18 0 pad hx,
        bit_or-add 24 0 (x << 18) (omega arith) (omega arith),
        digit-char y 12 (0 + x * 2 ^ 18) pad hy,
        bit_or-add 18 (0 + x * 2 ^ 18) (y << 12) (omega arith) (omega arith),
        digit-char z 6 (0 + x * 2 ^ 18 + y * 2 ^ 12) pad hz,
        bit_or-add 12 (0 + x * 2 ^ 18 + y * 2 ^ 12) (z << 6) (omega arith) (omega arith),
        digit_pad 0 (0 + x * 2 ^ 18 + y * 2 ^ 12 + z * 2 ^ 6) pad,
      )
      (ap (λ (k : ℕ). some (k, pad + 1)) (omega arith))

pub extract_lem :
    (a b c : ℕ) → IsByte a → IsByte b → IsByte c → extract (word a b c) ≡ a ∷ b ∷ c ∷ []
unfolding extract
extract_lem a b c ha hb hc = ap₂ ◌∷◌ (mask-bit_and 8 (word a b c >> 16) ∙ omega arith) (
    ap₂ ◌∷◌ (mask-bit_and 8 (word a b c >> 8) ∙ omega arith)
      (ap (λ k. k ∷ []) (mask-bit_and 8 (word a b c >> 0) ∙ omega arith)))

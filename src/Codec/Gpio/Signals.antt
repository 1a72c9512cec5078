-- ===== src/Codec/Gpio/Signals.antt =====
-- What the signals of the lines say, and that the chunk carries the lines.
use net_isdn.Common.{
  ℕ, zero, suc, ◌+◌, ◌*◌, ◌/◌, ◌%◌, ◌^◌, ◌≤◌, ◌<◌, ◌≡◌, refl, sym, ap, ◌∙◌, bit_and, bit_or, Bool,
  true, false, not, List, [], ◌∷◌, ◌==◌, ==_iff, if◌then◌else◌, arith, Bool-cases, inl, inr,
}
use net_isdn.Common.Bits.{◌<<◌, ◌>>◌, bit_and-mask, bit_or-add}
use net_isdn.Codec.Gpio.{gpio_chunk, changes, is_gpio, gpio_lines, read_private, line_on}

gpio_sum :
    (x y z w : ℕ)
    → x < 256
    → y < 256
    → z < 256
    → w < 256
    → bit_or (bit_or (bit_or (x << 24) (y << 16)) (z << 8)) w
      ≡ x * 2 ^ 24 + y * 2 ^ 16 + z * 2 ^ 8 + w
gpio_sum x y z w hx hy hz hw =
    rw
      (
        bit_or-add 24 (x << 24) (y << 16) (omega arith) (omega arith),
        bit_or-add 16 (x * 2 ^ 24 + y * 2 ^ 16) (z << 8) (omega arith) (omega arith),
        bit_or-add 8 (x * 2 ^ 24 + y * 2 ^ 16 + z * 2 ^ 8) w (omega arith) (omega arith),
      )
      refl

-- The reader of the chunk of some lines takes these lines, and signals the changes to them.
pub read_private-gpio_chunk :
    (old lines : ℕ)
    → lines < 2 ^ 32
    → read_private old (gpio_chunk lines) ≡ (changes lines old 0 32, lines)
unfolding read_private is_gpio gpio_lines gpio_chunk
read_private-gpio_chunk old lines h =
    let sum : bit_or
          (bit_or (bit_or (lines / 2 ^ 24 % 256 << 24) (lines / 2 ^ 16 % 256 << 16))
            (lines / 2 ^ 8 % 256 << 8))
          (lines % 256)
        ≡ lines =
      gpio_sum (lines / 2 ^ 24 % 256) (lines / 2 ^ 16 % 256) (lines / 2 ^ 8 % 256) (lines % 256)
        (omega arith) (omega arith) (omega arith) (omega arith)
      ∙ omega arith in
    rw
      (
        bit_and-mask 8 (lines >> 24),
        bit_and-mask 8 (lines >> 16),
        bit_and-mask 8 (lines >> 8),
        bit_and-mask 8 lines,
        sum,
      )
      refl

-- The lines as a client that follows the signals sees them.
unfoldable pub follow : List (ℕ × Bool) → (ℕ → Bool) → ℕ → Bool
follow [] view k = view k
follow ((i, on) ∷ ps) view k = if i == k then on else follow ps view k

unsignalled :
    (new old i k : ℕ)
    → bit_and new (1 << i) == bit_and old (1 << i) ≡ true
    → i == k ≡ true
    → line_on old k ≡ line_on new k
unfolding line_on
unsignalled new old i k same here =
    let place : i ≡ k = (==_iff i k).0 here in
    let bits : bit_and new (1 << k) ≡ bit_and old (1 << k) =
      rw place at ((==_iff (bit_and new (1 << i)) (bit_and old (1 << i))).0 same) in
    ap (λ b. not (b == 0)) (sym bits)

follow-changes :
    (new old i n k : ℕ)
    → (k < i → follow (changes new old i n) (line_on old) k ≡ line_on old k)
      × (i ≤ k → k < i + n → follow (changes new old i n) (line_on old) k ≡ line_on new k)
unfolding changes follow
follow-changes new old i zero k = (λ lt. refl, λ le lt. absurd (omega arith))
follow-changes new old i (suc n) k =
    let (before, within) = follow-changes new old (i + 1) n k in
    elim (Bool-cases (bit_and new (1 << i) == bit_and old (1 << i))) [
      | inl same ↦ rw same (
        (λ lt. before (omega arith)),
        λ le lt. elim (Bool-cases (i == k)) [
          | inl here ↦
              let place : i ≡ k = (==_iff i k).0 here in
              before (omega arith) ∙ unsignalled new old i k same here
          | inr other ↦
              let apart : i ≡ k → ⊥ = λ e. absurd (ground (arith, e)) in
              within (ground (arith, other)) (omega arith)
        ],
      )
      | inr differ ↦ rw differ (
        (λ lt. let other : i == k ≡ false = ground (arith, lt) in rw other (before (omega arith))),
        λ le lt. elim (Bool-cases (i == k)) [
          | inl here ↦ let place : i ≡ k = (==_iff i k).0 here in rw here (ap (line_on new) place)
          | inr other ↦ rw other (within (ground (arith, other)) (omega arith))
        ],
      )
    ]

-- A client that saw the lines as they were and follows the signals emitted for a private chunk sees
-- each of the 32 lines as it is after the chunk.
pub follow-read_private :
    (old : ℕ) (bytes : List ℕ) (k : ℕ)
    → k < 32
    → follow (read_private old bytes).0 (line_on old) k ≡ line_on (read_private old bytes).1 k
unfolding read_private follow
follow-read_private old bytes k lt = elim (Bool-cases (is_gpio bytes)) [
  | inl e ↦ rw e ((follow-changes (gpio_lines bytes) old 0 32 k).1 (omega arith) (omega arith))
  | inr e ↦ rw e refl
]

-- ===== src/Base64/Dict.antt =====
-- The dictionary has 64 different entries, so the decoder finds the digit that the encoder wrote.
use native.Mathlib.Nat.{zero-add}
use net_isdn.Common.{
  ℕ, zero, suc, ◌+◌, ◌<◌, ◌≡◌, refl, ap, ◌≢◌, bit_or, Bool, true, false, not, ◌&&◌, List, [], ◌∷◌,
  arith, length, get_or, ◌==◌, ==_refl, some,
}
use net_isdn.Common.Bits.{◌<<◌}
use net_isdn.Base64.{base64_dict, scan, digit, pad_char}

absent : ℕ → List ℕ → Bool
absent c [] = true
absent c (d ∷ ds) = not (d == c) && absent c ds

distinct : List ℕ → Bool
distinct [] = true
distinct (d ∷ ds) = absent d ds && distinct ds

dict-distinct : distinct base64_dict ≡ true
unfolding distinct absent
dict-distinct = refl

absent-ne : (c : ℕ) (ds : List ℕ) (i : ℕ) → absent c ds ≡ true → i < length ds → get_or ds i 0 ≢ c
unfolding absent
absent-ne c [] i h lt = absurd (omega arith)
absent-ne c (d ∷ ds) zero h lt = ground arith
absent-ne c (d ∷ ds) (suc i) h lt = absent-ne c ds i (ground arith) (omega arith)

no_pad : absent pad_char base64_dict ≡ true
unfolding absent
no_pad = refl

==_false : (d c : ℕ) → c ≢ d → d == c ≡ false
==_false d c ne = ground arith

==_false' : (d c : ℕ) → d ≢ c → d == c ≡ false
==_false' d c ne = ground arith

scan-absent :
    (ds : List ℕ) (k c shift buf : ℕ) (found : Bool)
    → absent c ds ≡ true
    → scan ds k c shift buf found ≡ (buf, found)
unfolding scan absent
scan-absent [] k c shift buf found h = refl
scan-absent (d ∷ ds) k c shift buf found h =
    ground (arith, scan-absent ds (k + 1) c shift buf found)

-- The loop over different entries finds entry `i` and adds its number.
scan-get_or :
    (ds : List ℕ) (k i shift buf : ℕ) (found : Bool)
    → distinct ds ≡ true
    → i < length ds
    → scan ds k (get_or ds i 0) shift buf found ≡ (bit_or buf ((k + i) << shift), true)
unfolding scan distinct
scan-get_or [] k i shift buf found h lt = absurd (omega arith)
scan-get_or (d ∷ ds) k zero shift buf found h lt =
    rw (==_refl d, scan-absent ds (k + 1) d shift (bit_or buf (k << shift)) true (ground arith))
      (ap (λ j. (bit_or buf (j << shift), true)) (omega arith))
scan-get_or (d ∷ ds) k (suc i) shift buf found h lt =
    rw
      (
        ==_false d (get_or ds i 0) (absent-ne d ds i (ground arith) (omega arith)),
        scan-get_or ds (k + 1) i shift buf found (ground arith) (omega arith),
      )
      (ap (λ j. (bit_or buf (j << shift), true)) (omega arith))

abbrev pub char : ℕ → ℕ
char i = get_or base64_dict i 0

pub char-ne-pad : (i : ℕ) → i < 64 → char i == pad_char ≡ false
char-ne-pad i h = ==_false' (char i) pad_char (absent-ne pad_char base64_dict i no_pad h)

-- A character of the alphabet adds its six bits.
pub digit-char :
    (i shift buf pad : ℕ)
    → i < 64
    → digit (some (char i)) shift (buf, pad) ≡ some (bit_or buf (i << shift), pad)
unfolding digit
digit-char i shift buf pad h =
    rw (char-ne-pad i h, scan-get_or base64_dict 0 i shift buf false dict-distinct h)
      (ap (λ j. some (bit_or buf (j << shift), pad)) (zero-add i))

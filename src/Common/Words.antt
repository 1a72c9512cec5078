-- ===== src/Common/Words.antt =====
-- Texts as lists of character codes, and their comparison.
use net_isdn.Common.Tests.{◌==◌}
use Prim.Native.Nat.{ℕ}
use mathlib.Core.Path.{◌≡◌, refl, ap₂}
use mathlib.Core.Bool.{Bool, true, false, ◌&&◌}
use mathlib.Core.List.{List, [], ◌∷◌}
use native.Mathlib.Omega.{arith}

abbrev pub Word : Type 0
Word = List ℕ

-- `==` on texts.
unfoldable pub same : Word → Word → Bool
same [] [] = true
same [] (y ∷ ys) = false
same (x ∷ xs) [] = false
same (x ∷ xs) (y ∷ ys) = x == y && same xs ys

pub same_refl : (xs : Word) → same xs xs ≡ true
unfolding same
same_refl [] = refl
same_refl (x ∷ xs) = ground (arith, same_refl xs)

pub same-eq : (xs ys : Word) → same xs ys ≡ true → xs ≡ ys
unfolding same
same-eq [] [] h = refl
same-eq [] (y ∷ ys) h = ground arith
same-eq (x ∷ xs) [] h = ground arith
same-eq (x ∷ xs) (y ∷ ys) h = ap₂ ◌∷◌ (ground arith) (same-eq xs ys (ground arith))

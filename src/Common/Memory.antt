-- ===== src/Common/Memory.antt =====
-- `memcpy` into and out of arrays, and lists read off by index.
use Prim.Native.Nat.{ℕ, zero, suc, ◌+◌, ◌-◌, ◌≤◌, ◌<◌}
use mathlib.Core.Path.{◌≡◌, refl, sym, ap, ap₂, ◌∙◌}
use mathlib.Core.Bool.{◌&&◌}
use mathlib.Core.List.{List, [], ◌∷◌, ◌++◌}
use native.Mathlib.Nat.{zero-add, suc-add}
use native.Mathlib.Omega.{arith}
use net_isdn.Common.Tests.{ltb, leb, if◌then◌else◌}
use net_isdn.Common.Lists.{
  length, get_or, set, take, drop, length-set, get_or-set_self, get_or-set_ne,
}

-- The list of `f 0`, `f 1`, … up to `n` elements.
abbrev pub tabulate {ℓ} : {A : Type ℓ} → (ℕ → A) → ℕ → List A
tabulate f zero = []
tabulate f (suc n) = f 0 ∷ tabulate (λ i. f (suc i)) n

pub tabulate_ext {ℓ} :
    {A : Type ℓ} (f g : ℕ → A) (n : ℕ) → ((i : ℕ) → i < n → f i ≡ g i) → tabulate f n ≡ tabulate g n
tabulate_ext f g zero h = refl
tabulate_ext f g (suc n) h =
    ap₂ ◌∷◌ (h 0 (omega arith))
      (tabulate_ext (λ i. f (suc i)) (λ i. g (suc i)) n (λ i lt. h (suc i) (omega arith)))

pub tabulate-add {ℓ} :
    {A : Type ℓ} (f : ℕ → A) (n k : ℕ)
    → tabulate f (n + k) ≡ tabulate f n ++ tabulate (λ i. f (n + i)) k
tabulate-add f zero k =
    ap (tabulate f) (zero-add k)
    ∙ tabulate_ext f (λ i. f (0 + i)) k (λ i h. ap f (sym (zero-add i)))
tabulate-add f (suc n) k =
    ap (tabulate f) (suc-add n k)
    ∙ ap (◌∷◌ (f 0)) (tabulate-add (λ i. f (suc i)) n k)
    ∙ ap (λ l. f 0 ∷ tabulate (λ i. f (suc i)) n ++ l)
        (tabulate_ext (λ i. f (suc (n + i))) (λ i. f (suc n + i)) k
          (λ i h. ap f (sym (suc-add n i))))

pub length-tabulate {ℓ} : {A : Type ℓ} (f : ℕ → A) (n : ℕ) → length (tabulate f n) ≡ n
length-tabulate f zero = refl
length-tabulate f (suc n) = ap suc (length-tabulate (λ i. f (suc i)) n)

-- The `n` bytes from `off` on.
abbrev pub slice : List ℕ → ℕ → ℕ → List ℕ
slice xs off n = take n (drop off xs)

-- A store of consecutive bytes. A store past the end of `dest` is dropped.
pub copy_to : List ℕ → ℕ → List ℕ → List ℕ
copy_to dest off [] = dest
copy_to dest off (x ∷ xs) = copy_to (set dest off x) (off + 1) xs

-- `memcpy (dest + off, src, n)`.
unfoldable pub memcpy : List ℕ → ℕ → List ℕ → ℕ → List ℕ
memcpy dest off src n = copy_to dest off (take n src)

pub length-copy_to :
    (dest : List ℕ) (off : ℕ) (xs : List ℕ) → length (copy_to dest off xs) ≡ length dest
unfolding copy_to
length-copy_to dest off [] = refl
length-copy_to dest off (x ∷ xs) =
    length-copy_to (set dest off x) (off + 1) xs ∙ length-set dest off x

get_or_tail : (x : ℕ) (xs : List ℕ) (i : ℕ) → 0 < i → get_or (x ∷ xs) i 0 ≡ get_or xs (i - 1) 0
get_or_tail x xs zero h = absurd (omega arith)
get_or_tail x xs (suc i) h = ap (λ k. get_or xs k 0) (omega arith)

-- After the store, index `j` holds the stored byte if it lies in the range stored to, and the old
-- byte otherwise.
pub get_or-copy_to :
    (dest : List ℕ) (off : ℕ) (xs : List ℕ) (j : ℕ)
    → off + length xs ≤ length dest
    → get_or (copy_to dest off xs) j 0
      ≡ (if leb off j && ltb j (off + length xs) then get_or xs (j - off) 0 else get_or dest j 0)
unfolding copy_to
get_or-copy_to dest off [] j h = ground arith
get_or-copy_to dest off (x ∷ xs) j h = ground (
  arith,
  length-set dest off x,
  get_or-copy_to (set dest off x) (off + 1) xs j,
  get_or-set_self dest off x 0,
  get_or-set_ne dest off j x 0,
  get_or_tail x xs (j - off),
)

pub length-take {ℓ} : {A : Type ℓ} (n : ℕ) (xs : List A) → n ≤ length xs → length (take n xs) ≡ n
length-take zero xs h = refl
length-take (suc n) [] h = absurd (omega arith)
length-take (suc n) (x ∷ xs) h = ap suc (length-take n xs (omega arith))

pub get_or-take : (n : ℕ) (xs : List ℕ) (i : ℕ) → i < n → get_or (take n xs) i 0 ≡ get_or xs i 0
get_or-take zero xs i h = absurd (omega arith)
get_or-take (suc n) [] i h = refl
get_or-take (suc n) (x ∷ xs) zero h = refl
get_or-take (suc n) (x ∷ xs) (suc i) h = get_or-take n xs i (omega arith)

pub get_or-drop : (n : ℕ) (xs : List ℕ) (i : ℕ) → get_or (drop n xs) i 0 ≡ get_or xs (n + i) 0
get_or-drop zero xs i = ap (λ k. get_or xs k 0) (omega arith)
get_or-drop (suc n) [] i = refl
get_or-drop (suc n) (x ∷ xs) i =
    get_or-drop n xs i
    ∙ sym (get_or_tail x xs (suc n + i) (omega arith) ∙ ap (λ k. get_or xs k 0) (omega arith))

pub take-tabulate :
    (n : ℕ) (xs : List ℕ) → n ≤ length xs → take n xs ≡ tabulate (λ i. get_or xs i 0) n
take-tabulate zero xs h = refl
take-tabulate (suc n) [] h = absurd (omega arith)
take-tabulate (suc n) (x ∷ xs) h = ap (◌∷◌ x) (take-tabulate n xs (omega arith))

pub length-drop {ℓ} : {A : Type ℓ} (n : ℕ) (xs : List A) → length (drop n xs) ≡ length xs - n
length-drop zero xs = omega arith
length-drop (suc n) [] = omega arith
length-drop (suc n) (x ∷ xs) = omega (arith, length-drop n xs)

pub length-memcpy :
    (dest : List ℕ) (off : ℕ) (src : List ℕ) (n : ℕ) → length (memcpy dest off src n) ≡ length dest
unfolding memcpy
length-memcpy dest off src n = length-copy_to dest off (take n src)

-- `memcpy` of bytes that are there into a range that is there.
pub get_or-memcpy :
    (dest : List ℕ) (off : ℕ) (src : List ℕ) (n j : ℕ)
    → n ≤ length src
    → off + n ≤ length dest
    → get_or (memcpy dest off src n) j 0
      ≡ (if leb off j && ltb j (off + n) then get_or src (j - off) 0 else get_or dest j 0)
unfolding memcpy
get_or-memcpy dest off src n j hs hd = ground (
  arith,
  length-take n src hs,
  get_or-copy_to dest off (take n src) j,
  get_or-take n src (j - off),
)

pub slice-tabulate :
    (xs : List ℕ) (off n : ℕ)
    → off + n ≤ length xs
    → slice xs off n ≡ tabulate (λ i. get_or xs (off + i) 0) n
slice-tabulate xs off n h =
    take-tabulate n (drop off xs) (omega (arith, length-drop {0} off xs))
    ∙ tabulate_ext (λ i. get_or (drop off xs) i 0) (λ i. get_or xs (off + i) 0) n
        (λ i lt. get_or-drop off xs i)

pub memcpy-zero : (dest : List ℕ) (off : ℕ) (src : List ℕ) → memcpy dest off src 0 ≡ dest
unfolding memcpy copy_to
memcpy-zero dest off src = refl

pub take-length {ℓ} : {A : Type ℓ} (xs : List A) → take (length xs) xs ≡ xs
take-length [] = refl
take-length (x ∷ xs) = ap (◌∷◌ x) (take-length xs)

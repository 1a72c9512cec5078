-- ===== src/Rtp/Wire.antt =====
-- Arrays of 32-bit words in network order, as the `readBlock` and `writeBlock` methods of lib/ read
-- and write them. `none` is a read outside of the array.
use mathlib.Core.Option
use net_isdn.Common.{
  ◌++◌, >>=-eq-some, none≢some, some_inj, cons-inj_head, cons-inj_tail, >>=-none, none,
  Option-cases, inl, inr, ℕ, zero, suc, ◌+◌, ◌^◌, ◌≤◌, ◌<◌, ◌≡◌, refl, ◌≢◌, ◌∙◌, ap, Option, some,
  List, [], ◌∷◌, arith, ◌>>=◌, length, get_elem?, set, length-set, get_elem?-set_self,
  get_elem?-set_ne,
}

-- `htonl` and `ntohl` of <arpa/inet.h>: the one undoes the other, and `ntohl` returns 32 bits.
pub record ByteOrder : Type 0 where
  pub htonl : ℕ → ℕ
  pub ntohl : ℕ → ℕ
  pub ntohl-htonl : (x : ℕ) → x < 2 ^ 32 → ntohl (htonl x) ≡ x
  pub ntohl-lt : (x : ℕ) → ntohl x < 2 ^ 32

abbrev pub All {ℓ κ} : {A : Type ℓ} → (A → Type κ) → List A → Type κ
All P [] = Unit
All P (x ∷ xs) = P x × All P xs

abbrev pub IsWord : ℕ → Type 0
IsWord x = x < 2 ^ 32

module _ (net : ByteOrder) where
  -- `ntohl (data[i])`
  abbrev pub load : List ℕ → ℕ → Option ℕ
  load d i = Option.map net.ntohl (get_elem? d i)

  -- `data[i] = htonl (w)`
  abbrev pub store : List ℕ → ℕ → ℕ → List ℕ
  store d i w = set d i (net.htonl w)

  -- The loops that read `n` words from index `i` on, and that write words there.
  unfoldable pub load_words : List ℕ → ℕ → ℕ → Option (List ℕ)
  load_words d i zero = some []
  load_words d i (suc n) = load d i >>= λ w. load_words d (i + 1) n >>= λ ws. some (w ∷ ws)

  unfoldable pub store_words : List ℕ → ℕ → List ℕ → List ℕ
  store_words d i [] = d
  store_words d i (w ∷ ws) = store_words (store d i w) (i + 1) ws

  pub load-store_self :
      (d : List ℕ) (i w : ℕ) → i < length d → IsWord w → load (store d i w) i ≡ some w
  load-store_self d i w h hw =
      ap (Option.map net.ntohl) (get_elem?-set_self d i (net.htonl w) h)
      ∙ ap some (net.ntohl-htonl w hw)

  pub load-store_ne : (d : List ℕ) (i j w : ℕ) → i ≢ j → load (store d i w) j ≡ load d j
  load-store_ne d i j w h = ap (Option.map net.ntohl) (get_elem?-set_ne d i j (net.htonl w) h)

  pub length-store_words :
      (d : List ℕ) (i : ℕ) (ws : List ℕ) → length (store_words d i ws) ≡ length d
  unfolding store_words
  length-store_words d i [] = refl
  length-store_words d i (w ∷ ws) =
      length-store_words (store d i w) (i + 1) ws ∙ length-set d i (net.htonl w)

  pub load-store_words :
      (d : List ℕ) (i : ℕ) (ws : List ℕ) (j : ℕ) → j < i → load (store_words d i ws) j ≡ load d j
  unfolding store_words
  load-store_words d i [] j h = refl
  load-store_words d i (w ∷ ws) j h =
      load-store_words (store d i w) (i + 1) ws j (omega arith)
      ∙ load-store_ne d i j w (omega arith)

  pub load-store_words_behind :
      (d : List ℕ) (i : ℕ) (ws : List ℕ) (j : ℕ)
      → i + length ws ≤ j
      → load (store_words d i ws) j ≡ load d j
  unfolding store_words
  load-store_words_behind d i [] j h = refl
  load-store_words_behind d i (w ∷ ws) j h =
      load-store_words_behind (store d i w) (i + 1) ws j (omega arith)
      ∙ load-store_ne d i j w (omega arith)

  -- What a loop wrote, a loop reads back.
  pub load_words-store_words :
      (d : List ℕ) (i : ℕ) (ws : List ℕ)
      → i + length ws ≤ length d
      → All IsWord ws
      → load_words (store_words d i ws) i (length ws) ≡ some ws
  unfolding load_words store_words
  load_words-store_words d i [] h a = refl
  load_words-store_words d i (w ∷ ws) h a = rw (
    load-store_words (store d i w) (i + 1) ws i (omega arith),
    load-store_self d i w (omega arith) a.0,
    load_words-store_words (store d i w) (i + 1) ws (rw length-set (omega arith)) a.1,
  )

  -- A read of words that are there succeeds.
  pub load_total : (d : List ℕ) (i : ℕ) → i < length d → (w : ℕ) × (load d i ≡ some w) × IsWord w
  load_total [] i h = absurd (omega arith)
  load_total (x ∷ d) zero h = (net.ntohl x, refl, net.ntohl-lt x)
  load_total (x ∷ d) (suc i) h = load_total d i (omega arith)

  pub load_words_total :
      (d : List ℕ) (i n : ℕ)
      → i + n ≤ length d
      → (ws : List ℕ) × (load_words d i n ≡ some ws) × (length ws ≡ n) × All IsWord ws
  unfolding load_words
  load_words_total d i zero h = ([], refl, refl, tt)
  load_words_total d i (suc n) h =
      let (w, p, hw) = load_total d i (omega arith) in
      let (ws, q, len, hws) = load_words_total d (i + 1) n (omega arith) in
      (w ∷ ws, rw (p, q), ap suc len, (hw, hws))

  load_outside : (d : List ℕ) (i : ℕ) → length d ≤ i → load d i ≡ none
  load_outside [] i h = refl
  load_outside (x ∷ d) zero h = absurd (omega arith)
  load_outside (x ∷ d) (suc i) h = load_outside d i (omega arith)

  -- A loop that runs past the end of the array reads outside of it.
  pub load_words_outside :
      (d : List ℕ) (i n : ℕ) → zero < n → length d < i + n → load_words d i n ≡ none
  unfolding load_words
  load_words_outside d i zero pos h = absurd (omega arith)
  load_words_outside d i (suc zero) pos h = rw (load_outside d i (omega arith)) refl
  load_words_outside d i (suc (suc n)) pos h =
      let rest = load_words_outside d (i + 1) (suc n) (omega arith) (omega arith) in
      elim (Option-cases (load d i)) [
        | inl out ↦ rw out refl
        | inr (w, p) ↦ rw p (>>=-none (load_words d (i + 1) (suc n)) (λ ws. some (w ∷ ws)) rest)
      ]

  -- The first word and the rest that a loop read.
  pub load_words-cons :
      (d : List ℕ) (i n w : ℕ) (ws : List ℕ)
      → load_words d i (suc n) ≡ some (w ∷ ws)
      → (load d i ≡ some w) × (load_words d (i + 1) n ≡ some ws)
  unfolding load_words
  load_words-cons d i n w ws h =
      let (v, p, h') = >>=-eq-some (load d i) _ h in
      let (vs, q, e) = >>=-eq-some (load_words d (i + 1) n) (λ us. some (v ∷ us)) h' in
      let heads : v ≡ w = cons-inj_head (some_inj e) in
      let tails : vs ≡ ws = cons-inj_tail (some_inj e) in (p ∙ ap some heads, q ∙ ap some tails)

  -- Each word that a loop read.
  pub load_words-get :
      (d : List ℕ) (ws : List ℕ) (i j k w : ℕ)
      → load_words d i (length ws) ≡ some ws
      → j ≡ i + k
      → get_elem? ws k ≡ some w
      → load d j ≡ some w
  load_words-get d [] i j k w h e g = absurd (none≢some g)
  load_words-get d (x ∷ ws) i j zero w h e g =
      let here : j ≡ i = omega arith in rw here ((load_words-cons d i (length ws) x ws h).0 ∙ g)
  load_words-get d (x ∷ ws) i j (suc k) w h e g =
      load_words-get d ws (i + 1) j k w (load_words-cons d i (length ws) x ws h).1 (omega arith) g

  pub store_words-append :
      (d : List ℕ) (i : ℕ) (xs ys : List ℕ)
      → store_words d i (xs ++ ys) ≡ store_words (store_words d i xs) (i + length xs) ys
  unfolding store_words
  store_words-append d i [] ys = ap (λ j. store_words d j ys) (omega arith)
  store_words-append d i (x ∷ xs) ys =
      store_words-append (store d i x) (i + 1) xs ys
      ∙ ap (λ j. store_words (store_words (store d i x) (i + 1) xs) j ys) (omega arith)

  -- What a loop read in one go, two loops read.
  pub load_words-append :
      (d : List ℕ) (i : ℕ) (xs ys : List ℕ)
      → load_words d i (length (xs ++ ys)) ≡ some (xs ++ ys)
      → (load_words d i (length xs) ≡ some xs)
        × (load_words d (i + length xs) (length ys) ≡ some ys)
  unfolding load_words
  load_words-append d i [] ys h = let here : i + 0 ≡ i = omega arith in (refl, rw here h)
  load_words-append d i (x ∷ xs) ys h =
      let (p, q) = load_words-cons d i (length (xs ++ ys)) x (xs ++ ys) h in
      let (front, back) = load_words-append d (i + 1) xs ys q in
      (rw (p, front) refl, ap (λ j. load_words d j (length ys)) (omega arith) ∙ back)

  -- Two loops read what one reads.
  pub load_words-join :
      (d : List ℕ) (i : ℕ) (xs ys : List ℕ)
      → load_words d i (length xs) ≡ some xs
      → load_words d (i + length xs) (length ys) ≡ some ys
      → load_words d i (length (xs ++ ys)) ≡ some (xs ++ ys)
  unfolding load_words
  load_words-join d i [] ys h k = ap (λ j. load_words d j (length ys)) (omega arith) ∙ k
  load_words-join d i (x ∷ xs) ys h k =
      let (p, q) = load_words-cons d i (length xs) x xs h in
      let rest =
        load_words-join d (i + 1) xs ys q
          (ap (λ j. load_words d j (length ys)) (omega arith) ∙ k) in
      rw (p, rest) refl

  -- Arrays that agree on the words that are read give the same words.
  pub load_words_same :
      (d e : List ℕ) (i n : ℕ)
      → ((j : ℕ) → i ≤ j → j < i + n → load d j ≡ load e j)
      → load_words d i n ≡ load_words e i n
  unfolding load_words
  load_words_same d e i zero h = refl
  load_words_same d e i (suc n) h =
      rw
        (
          h i (omega arith) (omega arith),
          load_words_same d e (i + 1) n (λ j lo hi. h j (omega arith) (omega arith)),
        )
        refl

pub All-append {ℓ κ} :
    {A : Type ℓ} (P : A → Type κ) (xs ys : List A) → All P xs → All P ys → All P (xs ++ ys)
All-append P [] ys hx hy = hy
All-append P (x ∷ xs) ys hx hy = (hx.0, All-append P xs ys hx.1 hy)

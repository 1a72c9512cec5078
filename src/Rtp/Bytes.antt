-- ===== src/Rtp/Bytes.antt =====
-- The bytes of an array of 32-bit words in network order, as the casts to `char *` in lib/ reach
-- them: byte `j` is the one of word `j / 4` that has `j % 4` before it, the highest first. `none` is
-- an access outside of the array.

use net_isdn.Common.{
  ℕ, zero, suc, ◌+◌, ◌-◌, ◌*◌, ◌/◌, ◌%◌, ◌^◌, ◌≤◌, ◌<◌, ◌≡◌, ◌≢◌, refl, ap, ◌∙◌, Option, some, List,
  [], ◌∷◌, ◌++◌, length, length-set, ◌>>=◌, arith, inl, inr, ==_iff, ◌==◌, Bool-cases,
}
use net_isdn.Rtp.Wire.{
  ByteOrder, All, IsWord, load, store, load-store_self, load-store_ne, load_total,
}

abbrev pub IsByte : ℕ → Type 0
IsByte b = b < 256

abbrev weight : ℕ → ℕ
weight zero = 2 ^ 24
weight (suc zero) = 2 ^ 16
weight (suc (suc zero)) = 2 ^ 8
weight (suc (suc (suc k))) = 1

unfoldable pub byte_of : ℕ → ℕ → ℕ
byte_of w k = w / weight k % 256

unfoldable pub with_byte : ℕ → ℕ → ℕ → ℕ
with_byte w k b = w - byte_of w k * weight k + b * weight k

with_byte_self :
    (w k b : ℕ)
    → k < 4
    → IsWord w
    → IsByte b
    → IsWord (with_byte w k b) × (byte_of (with_byte w k b) k ≡ b)
unfolding byte_of with_byte
with_byte_self w zero b hk hw hb = (omega arith, omega arith)
with_byte_self w (suc zero) b hk hw hb = (omega arith, omega arith)
with_byte_self w (suc (suc zero)) b hk hw hb = (omega arith, omega arith)
with_byte_self w (suc (suc (suc zero))) b hk hw hb = (omega arith, omega arith)
with_byte_self w (suc (suc (suc (suc k)))) b hk hw hb = absurd (omega arith)

with_byte_ne :
    (w k m b : ℕ)
    → k < 4
    → m < 4
    → k ≢ m
    → IsWord w
    → IsByte b
    → byte_of (with_byte w k b) m ≡ byte_of w m
unfolding byte_of with_byte
with_byte_ne w zero zero b hk hm ne hw hb = absurd (ne refl)
with_byte_ne w zero (suc zero) b hk hm ne hw hb = omega arith
with_byte_ne w zero (suc (suc zero)) b hk hm ne hw hb = omega arith
with_byte_ne w zero (suc (suc (suc zero))) b hk hm ne hw hb = omega arith
with_byte_ne w (suc zero) zero b hk hm ne hw hb = omega arith
with_byte_ne w (suc zero) (suc zero) b hk hm ne hw hb = absurd (ne refl)
with_byte_ne w (suc zero) (suc (suc zero)) b hk hm ne hw hb = omega arith
with_byte_ne w (suc zero) (suc (suc (suc zero))) b hk hm ne hw hb = omega arith
with_byte_ne w (suc (suc zero)) zero b hk hm ne hw hb = omega arith
with_byte_ne w (suc (suc zero)) (suc zero) b hk hm ne hw hb = omega arith
with_byte_ne w (suc (suc zero)) (suc (suc zero)) b hk hm ne hw hb = absurd (ne refl)
with_byte_ne w (suc (suc zero)) (suc (suc (suc zero))) b hk hm ne hw hb = omega arith
with_byte_ne w (suc (suc (suc zero))) zero b hk hm ne hw hb = omega arith
with_byte_ne w (suc (suc (suc zero))) (suc zero) b hk hm ne hw hb = omega arith
with_byte_ne w (suc (suc (suc zero))) (suc (suc zero)) b hk hm ne hw hb = omega arith
with_byte_ne w (suc (suc (suc zero))) (suc (suc (suc zero))) b hk hm ne hw hb = absurd (ne refl)
with_byte_ne w zero (suc (suc (suc (suc m)))) b hk hm ne hw hb = absurd (omega arith)
with_byte_ne w (suc zero) (suc (suc (suc (suc m)))) b hk hm ne hw hb = absurd (omega arith)
with_byte_ne w (suc (suc zero)) (suc (suc (suc (suc m)))) b hk hm ne hw hb = absurd (omega arith)
with_byte_ne w (suc (suc (suc zero))) (suc (suc (suc (suc m)))) b hk hm ne hw hb =
    absurd (omega arith)
with_byte_ne w (suc (suc (suc (suc k)))) m b hk hm ne hw hb = absurd (omega arith)

-- What a loop over consecutive positions finds: the values `bs` from position `j` on.
abbrev pub Holds {ℓ} : {A : Type ℓ} → (ℕ → Option A) → ℕ → List A → Type ℓ
Holds get j [] = Unit
Holds get j (b ∷ bs) = (get j ≡ some b) × Holds get (j + 1) bs

pub Holds-append {ℓ} :
    {A : Type ℓ} (get : ℕ → Option A) (j : ℕ) (bs cs : List A)
    → Holds get j (bs ++ cs)
    → Holds get j bs × Holds get (j + length bs) cs
Holds-append get j [] cs h = let here : j + 0 ≡ j = omega arith in (tt, rw here h)
Holds-append get j (b ∷ bs) cs h =
    let (front, back) = Holds-append get (j + 1) bs cs h.1 in
    let there : j + suc (length bs) ≡ j + 1 + length bs = omega arith in
    ((h.0, front), rw there back)

module _ (net : ByteOrder) where
  -- `byte[j]`, and a store to it.
  unfoldable pub load_byte : List ℕ → ℕ → Option ℕ
  load_byte d j = load net d (j / 4) >>= λ w. some (byte_of w (j % 4))

  unfoldable pub store_byte : List ℕ → ℕ → ℕ → Option (List ℕ)
  store_byte d j b = load net d (j / 4) >>= λ w. some (store net d (j / 4) (with_byte w (j % 4) b))

  -- The loops that copy `n` bytes out of the array and that store bytes to it.
  unfoldable pub load_bytes : List ℕ → ℕ → ℕ → Option (List ℕ)
  load_bytes d j zero = some []
  load_bytes d j (suc n) = do b ← load_byte d j; bs ← load_bytes d (j + 1) n; some (b ∷ bs)

  unfoldable pub store_bytes : List ℕ → ℕ → List ℕ → Option (List ℕ)
  store_bytes d j [] = some d
  store_bytes d j (b ∷ bs) = store_byte d j b >>= λ e. store_bytes e (j + 1) bs

  pub load_bytes-Holds :
      (d : List ℕ) (j : ℕ) (bs : List ℕ)
      → Holds (load_byte d) j bs
      → load_bytes d j (length bs) ≡ some bs
  unfolding load_bytes
  load_bytes-Holds d j [] h = refl
  load_bytes-Holds d j (b ∷ bs) h = rw (h.0, load_bytes-Holds d (j + 1) bs h.1) refl

  -- An array after a store of `n` bytes from byte `j` on.
  pub record Stored (d : List ℕ) (j n : ℕ) (e : List ℕ) : Type 0 where
    pub same_length : length e ≡ length d
    pub before : (k : ℕ) → k < j → load_byte e k ≡ load_byte d k
    pub behind : (k : ℕ) → j + n ≤ k → load_byte e k ≡ load_byte d k
    pub word_before : (i : ℕ) → 4 * i + 4 ≤ j → load net e i ≡ load net d i

  store_byte-Stored :
      (d : List ℕ) (j b : ℕ)
      → j < 4 * length d
      → IsByte b
      → (e : List ℕ) × (store_byte d j b ≡ some e) × (load_byte e j ≡ some b) × Stored d j 1 e
  unfolding store_byte load_byte
  store_byte-Stored d j b lt hb =
      let i = j / 4 in
      let k = j % 4 in
      let (w, found, hw) = load_total net d i (omega arith) in
      let (hw', self) = with_byte_self w k b (omega arith) hw hb in
      let v = with_byte w k b in
      let there : load net (store net d i v) i ≡ some v =
        load-store_self net d i v (omega arith) hw' in
      let other : (m : ℕ) → m ≢ j → load_byte (store net d i v) m ≡ load_byte d m = λ m ne.
        elim (Bool-cases (m / 4 == i)) [
          | inl e ↦
              let q : m / 4 ≡ i = (==_iff (m / 4) i).0 e in
              rw (q, there, found)
                (ap some (
                  with_byte_ne w k (m % 4) b (omega arith) (omega arith) (λ r. ne (omega arith)) hw
                    hb))
          | inr e ↦ rw (load-store_ne net d i (m / 4) v (λ q. absurd (ground arith))) refl
        ] in
      (
        store net d i v,
        rw found refl,
        rw there (ap some self),
        record {
          same_length = length-set d i (net.htonl v);
          before = λ m lt. other m (λ q. absurd (omega arith));
          behind = λ m le. other m (λ q. absurd (omega arith));
          word_before = λ m le. load-store_ne net d i m v (λ q. absurd (omega arith));
        },
      )

  -- A store of bytes to an array that has them succeeds and is found there, and changes no other
  -- byte.
  pub store_bytes-Stored :
      (d : List ℕ) (j : ℕ) (bs : List ℕ)
      → j + length bs ≤ 4 * length d
      → All IsByte bs
      → (e : List ℕ) × (store_bytes d j bs ≡ some e)
        × Holds (load_byte e) j bs
        × Stored d j (length bs) e
  unfolding store_bytes
  store_bytes-Stored d j [] h a = (
    d,
    refl,
    tt,
    record {
      same_length = refl;
      before = λ k lt. refl;
      behind = λ k le. refl;
      word_before = λ i le. refl;
    },
  )
  store_bytes-Stored d j (b ∷ bs) h a =
      let (e, ok, here, s) = store_byte-Stored d j b (omega arith) a.0 in
      let (f, ok', rest, s') = store_bytes-Stored e (j + 1) bs (omega (arith, s.same_length)) a.1 in
      (
        f,
        rw ok ok',
        (s'.before j (omega arith) ∙ here, rest),
        record {
          same_length = s'.same_length ∙ s.same_length;
          before = λ k lt. s'.before k (omega arith) ∙ s.before k lt;
          behind = λ k le. s'.behind k (omega arith) ∙ s.behind k (omega arith);
          word_before = λ i le. s'.word_before i (omega arith) ∙ s.word_before i le;
        },
      )

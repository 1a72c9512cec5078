-- ===== src/Sip/Table.antt =====
-- Lookups in the table of connections, behind each change of it.
use net_isdn.Common.{
  ℕ, suc, length, ◌≡◌, ◌≢◌, refl, sym, ◌∙◌, ap, true, false, none, some, none≢some, some_inj, [],
  ◌∷◌, ◌==◌, arith, Bool-cases, inl, inr, ◌⊎◌, ==_iff,
}
use net_isdn.Sip.Connection.{SipConnection, Table, find, edit, insert, erase}

pub find_hit :
    (k fd : ℕ) (c : SipConnection) (t : Table) → k == fd ≡ true → find ((k, c) ∷ t) fd ≡ some c
find_hit k fd c t e = rw e refl

pub find_miss :
    (k fd : ℕ) (c : SipConnection) (t : Table) → k == fd ≡ false → find ((k, c) ∷ t) fd ≡ find t fd
find_miss k fd c t e = rw e refl

pub ==_true : (a b : ℕ) → a ≡ b → a == b ≡ true
==_true a b h = ground arith

pub ==_false : (a b : ℕ) → a ≢ b → a == b ≡ false
==_false a b h = ground arith

pub find-edit_self :
    (t : Table) (fd : ℕ) (f : SipConnection → SipConnection) (c : SipConnection)
    → find t fd ≡ some c
    → find (edit t fd f) fd ≡ some (f c)
find-edit_self [] fd f c h = absurd (none≢some h)
find-edit_self ((k, x) ∷ t) fd f c h = elim (Bool-cases (k == fd)) [
  | inl e ↦
      let same : x ≡ c = some_inj (sym (find_hit k fd x t e) ∙ h) in
      rw (e, e) (ap (λ y. some (f y)) same)
  | inr e ↦ rw (e, e) (find-edit_self t fd f c (sym (find_miss k fd x t e) ∙ h))
]

pub find-edit_ne :
    (t : Table) (fd fd' : ℕ) (f : SipConnection → SipConnection)
    → fd ≢ fd'
    → find (edit t fd f) fd' ≡ find t fd'
find-edit_ne [] fd fd' f h = refl
find-edit_ne ((k, x) ∷ t) fd fd' f h = elim (Bool-cases (k == fd)) [
  | inl e ↦ rw (e, ==_false k fd' (ground arith)) refl
  | inr e ↦ rw e (elim (Bool-cases (k == fd')) [
    | inl e' ↦ rw e' refl
    | inr e' ↦ rw e' (find-edit_ne t fd fd' f h)
  ])
]

-- What is found behind a change is the changed connection, or stood there before.
pub find-edit_cases :
    (t : Table) (fd a : ℕ) (f : SipConnection → SipConnection) (c x : SipConnection)
    → find t fd ≡ some c
    → find (edit t fd f) a ≡ some x
    → ((fd ≡ a) × (x ≡ f c)) ⊎ ((fd ≢ a) × (find t a ≡ some x))
find-edit_cases t fd a f c x h found = elim (Bool-cases (fd == a)) [
  | inl e ↦
      let same : fd ≡ a = (==_iff fd a).0 e in
      inl (
        same,
        some_inj (sym found ∙ sym (ap (find (edit t fd f)) same) ∙ find-edit_self t fd f c h),
      )
  | inr e ↦ let ne : fd ≢ a = λ q. ground arith in inr (ne, sym (find-edit_ne t fd a f ne) ∙ found)
]

pub find-insert_self : (t : Table) (fd : ℕ) (c : SipConnection) → find (insert t fd c) fd ≡ some c
unfolding insert
find-insert_self [] fd c = rw (==_true fd fd refl) refl
find-insert_self ((k, x) ∷ t) fd c = ground (arith, find-insert_self t fd c)

pub find-insert_ne :
    (t : Table) (fd fd' : ℕ) (c : SipConnection) → fd ≢ fd' → find (insert t fd c) fd' ≡ find t fd'
unfolding insert
find-insert_ne [] fd fd' c h = rw (==_false fd fd' h) refl
find-insert_ne ((k, x) ∷ t) fd fd' c h = ground (arith, find-insert_ne t fd fd' c h)

pub find-erase_ne : (t : Table) (fd fd' : ℕ) → fd ≢ fd' → find (erase t fd) fd' ≡ find t fd'
unfolding erase
find-erase_ne [] fd fd' h = refl
find-erase_ne ((k, x) ∷ t) fd fd' h = ground (arith, find-erase_ne t fd fd' h)

pub find-erase_self : (t : Table) (fd : ℕ) → find (erase t fd) fd ≡ none
unfolding erase
find-erase_self [] fd = refl
find-erase_self ((k, x) ∷ t) fd = ground (arith, find-erase_self t fd)

pub edit-edit :
    (t : Table) (fd : ℕ) (f g : SipConnection → SipConnection)
    → edit (edit t fd f) fd g ≡ edit t fd (λ c. g (f c))
edit-edit [] fd f g = refl
edit-edit ((k, x) ∷ t) fd f g = elim (Bool-cases (k == fd)) [
  | inl e ↦ rw (e, e) refl
  | inr e ↦ rw (e, e) (ap (◌∷◌ (k, x)) (edit-edit t fd f g))
]

pub erase-edit :
    (t : Table) (fd : ℕ) (f : SipConnection → SipConnection) → erase (edit t fd f) fd ≡ erase t fd
unfolding erase
erase-edit [] fd f = refl
erase-edit ((k, x) ∷ t) fd f = elim (Bool-cases (k == fd)) [
  | inl e ↦ rw (e, e) refl
  | inr e ↦ rw (e, e) (ap (◌∷◌ (k, x)) (erase-edit t fd f))
]

pub length-edit :
    (t : Table) (fd : ℕ) (f : SipConnection → SipConnection) → length (edit t fd f) ≡ length t
length-edit [] fd f = refl
length-edit ((k, x) ∷ t) fd f = elim (Bool-cases (k == fd)) [
  | inl e ↦ rw e refl
  | inr e ↦ rw e (ap suc (length-edit t fd f))
]

pub find-erase_inv :
    (t : Table) (fd a : ℕ) (x : SipConnection) → find (erase t fd) a ≡ some x → find t a ≡ some x
find-erase_inv t fd a x found = elim (Bool-cases (fd == a)) [
  | inl e ↦
      let same : fd ≡ a = (==_iff fd a).0 e in
      absurd (none≢some (sym (find-erase_self t fd) ∙ ap (find (erase t fd)) same ∙ found))
  | inr e ↦ let ne : fd ≢ a = λ q. ground arith in sym (find-erase_ne t fd a ne) ∙ found
]

pub find-insert_cases :
    (t : Table) (fd a : ℕ) (c x : SipConnection)
    → find (insert t fd c) a ≡ some x
    → ((fd ≡ a) × (x ≡ c)) ⊎ ((fd ≢ a) × (find t a ≡ some x))
find-insert_cases t fd a c x found = elim (Bool-cases (fd == a)) [
  | inl e ↦
      let same : fd ≡ a = (==_iff fd a).0 e in
      inl (
        same,
        some_inj (sym found ∙ sym (ap (find (insert t fd c)) same) ∙ find-insert_self t fd c),
      )
  | inr e ↦
      let ne : fd ≢ a = λ q. ground arith in inr (ne, sym (find-insert_ne t fd a c ne) ∙ found)
]

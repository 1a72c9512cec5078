-- ===== src/Sip/Sound.antt =====
-- The invariant of the table of connections: links are mutual, and only members have one.
use net_isdn.Common.{
  ℕ, ◌≡◌, ◌≢◌, sym, ◌∙◌, ap, true, false, none, some, some_inj, ◌==◌, arith, Bool-cases, inl, inr,
  ==_iff,
}
use net_isdn.Sip.Connection.{SipConnection, Table, find, edit}
use net_isdn.Sip.Table.{find-edit_cases, find-edit_self, find-edit_ne}

-- A connection of a user that is online.
pub record IsMember (c : SipConnection) : Type 0 where
  pub authenticated : c.is_authenticated ≡ true
  pub user : c.uid ≢ 0
  pub alive : c.zombie ≡ false

-- A linked connection is a member's, and one that is authenticated and no zombie has a user.
pub record IsLocal (c : SipConnection) : Type 0 where
  pub linked : c.connection_fd ≢ none → IsMember c
  pub known : c.is_authenticated ≡ true → c.zombie ≡ false → c.uid ≢ 0

-- `find t a ≡ some c`, with the connection.
pub record Has (t : Table) (a : ℕ) (P : SipConnection → Type 0) : Type 0 where
  pub it : SipConnection
  pub found : find t a ≡ some it
  pub holds : P it

pub record IsSound (t : Table) : Type 0 where
  pub paired :
      (a b : ℕ) (c : SipConnection)
      → find t a ≡ some c
      → c.connection_fd ≡ some b
      → Has t b (λ d. d.connection_fd ≡ some a)
  pub local : (a : ℕ) (c : SipConnection) → find t a ≡ some c → IsLocal c

unlinked-IsLocal :
    (c d : SipConnection)
    → IsLocal c
    → d.connection_fd ≡ none
    → d.is_authenticated ≡ c.is_authenticated
    → d.zombie ≡ c.zombie
    → d.uid ≡ c.uid
    → IsLocal d
unlinked-IsLocal c d l none_d auth zomb uid = record {
  linked = λ h. absurd (h none_d);
  known = λ a z u. l.known (sym auth ∙ a) (sym zomb ∙ z) (sym uid ∙ u);
}

pub ne_of : (a b : ℕ) → a == b ≡ false → a ≢ b
ne_of a b h e = ground arith

pub eq_of : (a b : ℕ) → a == b ≡ true → a ≡ b
eq_of a b h = (==_iff a b).0 h

-- A link to somewhere else, or a changed connection that keeps it.
Has-edit :
    (t : Table) (fd a b : ℕ) (f : SipConnection → SipConnection) (c : SipConnection)
    → find t fd ≡ some c
    → (f c).connection_fd ≡ c.connection_fd
    → Has t b (λ d. d.connection_fd ≡ some a)
    → Has (edit t fd f) b (λ d. d.connection_fd ≡ some a)
Has-edit t fd a b f c h same w = elim (Bool-cases (fd == b)) [
  | inl e ↦
      let q : fd ≡ b = eq_of fd b e in
      let is : c ≡ w.it = some_inj (sym h ∙ ap (find t) q ∙ w.found) in
      record {
        it = f c;
        found = rw⁻¹ q (find-edit_self t fd f c h);
        holds = same ∙ ap (λ d. d.connection_fd) is ∙ w.holds;
      }
  | inr e ↦ record {
    it = w.it;
    found = find-edit_ne t fd b f (ne_of fd b e) ∙ w.found;
    holds = w.holds;
  }
]

-- A change of one connection that keeps its link.
pub IsSound-edit :
    (t : Table) (fd : ℕ) (f : SipConnection → SipConnection) (c : SipConnection)
    → IsSound t
    → find t fd ≡ some c
    → (f c).connection_fd ≡ c.connection_fd
    → IsLocal (f c)
    → IsSound (edit t fd f)
IsSound-edit t fd f c s h same l = record { paired = pair; local = loc }
  where
    pair :
        (a b : ℕ) (x : SipConnection)
        → find (edit t fd f) a ≡ some x
        → x.connection_fd ≡ some b
        → Has (edit t fd f) b (λ d. d.connection_fd ≡ some a)
    pair a b x found link = elim (find-edit_cases t fd a f c x h found) [
      | inl (q, e) ↦
          let old : find t a ≡ some c = rw⁻¹ q h in
          let linked : c.connection_fd ≡ some b =
            sym same ∙ ap (λ y. y.connection_fd) (sym e) ∙ link in
          Has-edit t fd a b f c h same (s.paired a b c old linked)
      | inr (ne, old) ↦ Has-edit t fd a b f c h same (s.paired a b x old link)
    ]

    loc : (a : ℕ) (x : SipConnection) → find (edit t fd f) a ≡ some x → IsLocal x
    loc a x found = elim (find-edit_cases t fd a f c x h found) [
      | inl (q, e) ↦ rw e l
      | inr (ne, old) ↦ s.local a x old
    ]

-- What the functions `unlink` and `idle` do to a connection.
pub record Unlinks (f : SipConnection → SipConnection) : Type 0 where
  pub gone : (c : SipConnection) → (f c).connection_fd ≡ none
  pub authenticated : (c : SipConnection) → (f c).is_authenticated ≡ c.is_authenticated
  pub alive : (c : SipConnection) → (f c).zombie ≡ c.zombie
  pub user : (c : SipConnection) → (f c).uid ≡ c.uid

pub Unlinks-IsLocal :
    (f : SipConnection → SipConnection) (c : SipConnection) → Unlinks f → IsLocal c → IsLocal (f c)
Unlinks-IsLocal f c u l =
    unlinked-IsLocal c (f c) l (u.gone c) (u.authenticated c) (u.alive c) (u.user c)

pub IsSound-unlink :
    (t : Table) (fd : ℕ) (f : SipConnection → SipConnection) (c : SipConnection)
    → Unlinks f
    → IsSound t
    → find t fd ≡ some c
    → c.connection_fd ≡ none
    → IsSound (edit t fd f)
IsSound-unlink t fd f c u s h unlinked =
    IsSound-edit t fd f c s h (u.gone c ∙ sym unlinked) (Unlinks-IsLocal f c u (s.local fd c h))

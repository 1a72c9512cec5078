-- ===== src/Sip/Links.antt =====
-- The invariant behind the two changes at the ends of a link.
use mathlib.Core.Bool.{false≢true}
use net_isdn.Common.{
  refl, ℕ, ◌≡◌, ◌≢◌, sym, ◌∙◌, ap, none, some, none≢some, some_inj, ◌==◌, Bool-cases, inl, inr,
}
use net_isdn.Sip.Connection.{SipConnection, Table, find, edit, insert, erase, clear}
use net_isdn.Sip.Table.{
  find-edit_self, find-edit_ne, find-edit_cases, find-erase_ne, find-erase_inv, find-insert_ne,
  find-insert_cases,
}
use net_isdn.Sip.Sound.{IsSound, IsMember, IsLocal, Has, Unlinks, Unlinks-IsLocal, eq_of, ne_of}

-- Only connection `a` may have a link that is not answered, and nothing links to it.
record IsNearly (t : Table) (a : ℕ) : Type 0 where
  others :
      (x b : ℕ) (c : SipConnection)
      → a ≢ x
      → find t x ≡ some c
      → c.connection_fd ≡ some b
      → (a ≢ b) × Has t b (λ d. d.connection_fd ≡ some x)
  local : (x : ℕ) (c : SipConnection) → find t x ≡ some c → IsLocal c

link_of :
    (t : Table) (a b x y : ℕ) (c d : SipConnection)
    → find t a ≡ some c
    → find t b ≡ some d
    → a ≡ b
    → c.connection_fd ≡ some x
    → d.connection_fd ≡ some y
    → x ≡ y
link_of t a b x y c d ha hb e hx hy =
    let same : c ≡ d = some_inj (sym ha ∙ ap (find t) e ∙ hb) in
    some_inj (sym hx ∙ ap (λ z. z.connection_fd) same ∙ hy)

unlink-IsNearly :
    (t : Table) (a d : ℕ) (f : SipConnection → SipConnection) (c : SipConnection)
    → Unlinks f
    → IsSound t
    → find t a ≡ some c
    → c.connection_fd ≡ some d
    → IsNearly (edit t d f) a
unlink-IsNearly t a d f c u s h link =
    let peer = s.paired a d c h link in
    record {
      others = λ x b z ne found linked. elim (find-edit_cases t d x f peer.it z peer.found found) [
        | inl (q, e) ↦
            absurd (none≢some (sym (u.gone peer.it) ∙ ap (λ y. y.connection_fd) (sym e) ∙ linked))
        | inr (d≢x, old) ↦
            let w = s.paired x b z old linked in
            let b≢a : a ≢ b = λ e. d≢x (link_of t a b d x c w.it h w.found e link w.holds) in
            let d≢b : d ≢ b =
              λ e. ne (link_of t d b a x peer.it w.it peer.found w.found e peer.holds w.holds) in
            (b≢a, record { it = w.it; found = find-edit_ne t d b f d≢b ∙ w.found; holds = w.holds })
      ];
      local = λ x z found. elim (find-edit_cases t d x f peer.it z peer.found found) [
        | inl (q, e) ↦ rw e (Unlinks-IsLocal f peer.it u (s.local d peer.it peer.found))
        | inr (ne, old) ↦ s.local x z old
      ];
    }

IsNearly-unlink :
    (t : Table) (a : ℕ) (g : SipConnection → SipConnection) (c : SipConnection)
    → Unlinks g
    → IsNearly t a
    → find t a ≡ some c
    → IsSound (edit t a g)
IsNearly-unlink t a g c u s h = record {
  paired = λ x b z found linked. elim (find-edit_cases t a x g c z h found) [
    | inl (q, e) ↦ absurd (none≢some (sym (u.gone c) ∙ ap (λ y. y.connection_fd) (sym e) ∙ linked))
    | inr (ne, old) ↦
        let (a≢b, w) = s.others x b z ne old linked in
        record { it = w.it; found = find-edit_ne t a b g a≢b ∙ w.found; holds = w.holds }
  ];
  local = λ x z found. elim (find-edit_cases t a x g c z h found) [
    | inl (q, e) ↦ rw e (Unlinks-IsLocal g c u (s.local a c h))
    | inr (ne, old) ↦ s.local x z old
  ];
}

-- A property that the change keeps, at the changed connection or another one.
pub Has-edit_any :
    (t : Table) (d a : ℕ) (f : SipConnection → SipConnection) (P : SipConnection → Type 0)
    → ((c : SipConnection) → P c → P (f c))
    → Has t a P
    → Has (edit t d f) a P
Has-edit_any t d a f P keep w = elim (Bool-cases (d == a)) [
  | inl e ↦
      let q : d ≡ a = eq_of d a e in
      record {
        it = f w.it;
        found = rw q (find-edit_self t a f w.it w.found);
        holds = keep w.it w.holds;
      }
  | inr e ↦ record {
    it = w.it;
    found = find-edit_ne t d a f (ne_of d a e) ∙ w.found;
    holds = w.holds;
  }
]

-- Both sides of a call lose their link.
pub IsSound-unlink_pair :
    (t : Table) (a d : ℕ) (f g : SipConnection → SipConnection) (c : SipConnection)
    → Unlinks f
    → Unlinks g
    → IsSound t
    → find t a ≡ some c
    → c.connection_fd ≡ some d
    → IsSound (edit (edit t d f) a g)
IsSound-unlink_pair t a d f g c uf ug s h link =
    let w =
      Has-edit_any t d a f (λ _. Unit) (λ _ _. tt) (record { it = c; found = h; holds = tt }) in
    IsNearly-unlink (edit t d f) a g w.it ug (unlink-IsNearly t a d f c uf s h link) w.found

-- What `link` does to a connection.
pub record LinksTo (b : ℕ) (f : SipConnection → SipConnection) : Type 0 where
  pub to : (c : SipConnection) → (f c).connection_fd ≡ some b
  pub member : (c : SipConnection) → IsMember c → IsMember (f c)

member-IsLocal : (c : SipConnection) → IsMember c → IsLocal c
member-IsLocal c m = record { linked = λ _. m; known = λ _ _. m.user }

-- Nobody links to a connection that has no link.
no_link_to :
    (t : Table) (a x b : ℕ) (c z : SipConnection)
    → IsSound t
    → find t a ≡ some c
    → c.connection_fd ≡ none
    → find t x ≡ some z
    → z.connection_fd ≡ some b
    → a ≢ b
no_link_to t a x b c z s h unlinked found linked e =
    let w = s.paired x b z found linked in
    let same : c ≡ w.it = some_inj (sym h ∙ ap (find t) e ∙ w.found) in
    none≢some (sym unlinked ∙ ap (λ y. y.connection_fd) same ∙ w.holds)

-- Both sides of a call get their link.
pub IsSound-link :
    (t : Table) (a b : ℕ) (f g : SipConnection → SipConnection) (c d : SipConnection)
    → IsSound t
    → LinksTo b f
    → LinksTo a g
    → find t a ≡ some c
    → find t b ≡ some d
    → c.connection_fd ≡ none
    → d.connection_fd ≡ none
    → IsMember c
    → IsMember d
    → IsSound (edit (edit t a f) b g)
IsSound-link t a b f g c d s lf lg ha hb uc ud mc md = record { paired = pair; local = loc }
  where
    t' : Table
    t' = edit t a f

    callee : Has t' b IsMember
    callee = Has-edit_any t a b f IsMember lf.member (record { it = d; found = hb; holds = md })

    at_b : Has (edit t' b g) b (λ z. z.connection_fd ≡ some a)
    at_b = record {
      it = g callee.it;
      found = find-edit_self t' b g callee.it callee.found;
      holds = lg.to callee.it;
    }

    at_a : Has (edit t' b g) a (λ z. z.connection_fd ≡ some b)
    at_a = elim (Bool-cases (b == a)) [
      | inl e ↦
          let q : b ≡ a = eq_of b a e in
          record {
            it = at_b.it;
            found = ap (find (edit t' b g)) (sym q) ∙ at_b.found;
            holds = at_b.holds ∙ ap some (sym q);
          }
      | inr e ↦ record {
        it = f c;
        found = find-edit_ne t' b a g (ne_of b a e) ∙ find-edit_self t a f c ha;
        holds = lf.to c;
      }
    ]

    pair :
        (x y : ℕ) (z : SipConnection)
        → find (edit t' b g) x ≡ some z
        → z.connection_fd ≡ some y
        → Has (edit t' b g) y (λ w. w.connection_fd ≡ some x)
    pair x y z found link = elim (find-edit_cases t' b x g callee.it z callee.found found) [
      | inl (q, e) ↦
          let a≡y : a ≡ y =
            some_inj (sym (lg.to callee.it) ∙ ap (λ w. w.connection_fd) (sym e) ∙ link) in
          rw⁻¹ (a≡y, q) at_a
      | inr (b≢x, old) ↦ elim (find-edit_cases t a x f c z ha old) [
        | inl (q, e) ↦
            let b≡y : b ≡ y = some_inj (sym (lf.to c) ∙ ap (λ w. w.connection_fd) (sym e) ∙ link) in
            rw⁻¹ (b≡y, q) at_b
        | inr (a≢x, older) ↦
            let w = s.paired x y z older link in
            let a≢y = no_link_to t a x y c z s ha uc older link in
            let b≢y = no_link_to t b x y d z s hb ud older link in
            record {
              it = w.it;
              found = find-edit_ne t' b y g b≢y ∙ find-edit_ne t a y f a≢y ∙ w.found;
              holds = w.holds;
            }
      ]
    ]

    loc : (x : ℕ) (z : SipConnection) → find (edit t' b g) x ≡ some z → IsLocal z
    loc x z found = elim (find-edit_cases t' b x g callee.it z callee.found found) [
      | inl (q, e) ↦ rw e (member-IsLocal (g callee.it) (lg.member callee.it callee.holds))
      | inr (b≢x, old) ↦ elim (find-edit_cases t a x f c z ha old) [
        | inl (q, e) ↦ rw e (member-IsLocal (f c) (lf.member c mc))
        | inr (a≢x, older) ↦ s.local x z older
      ]
    ]

pub IsSound-erase :
    (t : Table) (fd : ℕ) (c : SipConnection)
    → IsSound t
    → find t fd ≡ some c
    → c.connection_fd ≡ none
    → IsSound (erase t fd)
IsSound-erase t fd c s h unlinked = record {
  paired = λ x y z found link.
      let old = find-erase_inv t fd x z found in
      let w = s.paired x y z old link in
      let ne = no_link_to t fd x y c z s h unlinked old link in
      record { it = w.it; found = find-erase_ne t fd y ne ∙ w.found; holds = w.holds };
  local = λ x z found. s.local x z (find-erase_inv t fd x z found);
}

pub IsSound-insert :
    (t : Table) (fd peer now : ℕ)
    → IsSound t
    → find t fd ≡ none
    → IsSound (insert t fd (clear peer now))
IsSound-insert t fd peer now s h = record {
  paired = λ x y z found link. elim (find-insert_cases t fd x (clear peer now) z found) [
    | inl (q, e) ↦ absurd (none≢some (ap (λ w. w.connection_fd) (sym e) ∙ link))
    | inr (ne, old) ↦
        let w = s.paired x y z old link in
        let ne' : fd ≢ y = λ e. none≢some (sym h ∙ ap (find t) e ∙ w.found) in
        record {
          it = w.it;
          found = find-insert_ne t fd y (clear peer now) ne' ∙ w.found;
          holds = w.holds;
        }
  ];
  local = λ x z found. elim (find-insert_cases t fd x (clear peer now) z found) [
    | inl (q, e) ↦
        rw e (record {
          linked = λ nn. absurd (nn refl);
          known = λ no_auth. absurd (false≢true no_auth);
        })
    | inr (ne, old) ↦ s.local x z old
  ];
}

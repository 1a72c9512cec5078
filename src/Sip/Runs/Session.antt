-- ===== src/Sip/Runs/Session.antt =====
-- `EndCall`, `Logout` and `socketKill` return on a sound table and leave a sound one.
use mathlib.Core.Path.{subst}
use mathlib.Core.Bool.{false≢true}
use net_isdn.Common.{
  none≢some, Option-cases, ℕ, ◌≡◌, refl, sym, ◌∙◌, ap, true, not, ◌||◌, Option, none, some, ◌==◌,
  arith, Bool-cases, inl, inr,
}
use net_isdn.Sip.Connection.{SipConnection, Table, Server, find, edit, erase}
use net_isdn.Sip.Session.{
  hang_up, end_call, release, drop_call, leave, logout, kill, socket_kill, idle, unlink,
  forget_user, mark_zombie,
}
use net_isdn.Sip.Sound.{IsSound, IsLocal, Has, Unlinks, IsSound-unlink, IsSound-edit}
use net_isdn.Sip.Links.{Has-edit_any, IsSound-unlink_pair, IsSound-erase}
use net_isdn.Sip.Table.{find-edit_self, edit-edit, erase-edit}
use net_isdn.Sip.Runs.Returns.{
  Returns, Returns-bind, Returns-some, Returns-mono, conn-Returns, send_command-Returns, Leaves,
}

-- The same user with the same standing.
pub record IsLike (c d : SipConnection) : Type 0 where
  pub user : d.uid ≡ c.uid
  pub authenticated : d.is_authenticated ≡ c.is_authenticated
  pub alive : d.zombie ≡ c.zombie

IsLike-refl : (c : SipConnection) → IsLike c c
IsLike-refl c = record { user = refl; authenticated = refl; alive = refl }

-- Sound, with the connection still like `c`.
pub record Keeps (fd : ℕ) (c : SipConnection) (t : Table) : Type 0 where
  pub sound : IsSound t
  pub has : Has t fd (IsLike c)

idle-Unlinks : Unlinks idle
idle-Unlinks = record {
  gone = λ c. refl;
  authenticated = λ c. refl;
  alive = λ c. refl;
  user = λ c. refl;
}

unlink-Unlinks : Unlinks unlink
unlink-Unlinks = record {
  gone = λ c. refl;
  authenticated = λ c. refl;
  alive = λ c. refl;
  user = λ c. refl;
}

-- The table behind a change at the other end of a link.
abbrev peer_edit : Option ℕ → (SipConnection → SipConnection) → Table → Table
peer_edit none f t = t
peer_edit (some d) f t = edit t d f

-- Both ends of the link of `fd`, where there is one, are changed by an unlinking function.
unlink_ends :
    (t : Table) (fd : ℕ) (o : Option ℕ) (f : SipConnection → SipConnection) (c : SipConnection)
    → Unlinks f
    → IsSound t
    → find t fd ≡ some c
    → c.connection_fd ≡ o
    → IsSound (edit (peer_edit o f t) fd f)
unlink_ends t fd none f c u s h e = IsSound-unlink t fd f c u s h e
unlink_ends t fd (some d) f c u s h e = IsSound-unlink_pair t fd d f f c u u s h e

Unlinks-IsLike :
    (f : SipConnection → SipConnection) (c d : SipConnection)
    → Unlinks f
    → IsLike c d
    → IsLike c (f d)
Unlinks-IsLike f c d u l = record {
  user = u.user d ∙ l.user;
  authenticated = u.authenticated d ∙ l.authenticated;
  alive = u.alive d ∙ l.alive;
}

peer_edit-Has :
    (t : Table) (fd : ℕ) (o : Option ℕ) (f : SipConnection → SipConnection) (c : SipConnection)
    → Unlinks f
    → Has t fd (IsLike c)
    → Has (peer_edit o f t) fd (IsLike c)
peer_edit-Has t fd none f c u h = h
peer_edit-Has t fd (some d) f c u h =
    Has-edit_any t d fd f (IsLike c) (λ x l. Unlinks-IsLike f c x u l) h

hang_up-Returns :
    (fd : ℕ) (o : Option ℕ) (s : Server) (c : SipConnection)
    → IsSound s.connections
    → find s.connections fd ≡ some c
    → c.connection_fd ≡ o
    → Returns (hang_up o s) (λ (uid, s'). Leaves (peer_edit o idle s.connections) s')
unfolding hang_up
hang_up-Returns fd none s c sound h e = Returns-some _ refl
hang_up-Returns fd (some d) s c sound h e =
    let w = sound.paired fd d c h e in
    Returns-bind (conn-Returns d s w.it w.found) λ x _.
      Returns-bind (send_command-Returns d _ s w.it w.found)
        λ s' same. Returns-some _ (ap (λ t. edit t d idle) same)

release-Returns :
    (fd : ℕ) (o : Option ℕ) (s : Server) (c : SipConnection)
    → IsSound s.connections
    → find s.connections fd ≡ some c
    → c.connection_fd ≡ o
    → Returns (release o s) (Leaves (peer_edit o unlink s.connections))
unfolding release
release-Returns fd none s c sound h e = Returns-some _ refl
release-Returns fd (some d) s c sound h e =
    let w = sound.paired fd d c h e in
    Returns-bind (conn-Returns d s w.it w.found) λ x _. Returns-some _ refl

-- Behind a change at the other end, a change at this one.
both_ends-Keeps :
    (t : Table) (fd : ℕ) (f : SipConnection → SipConnection) (c : SipConnection)
    → Unlinks f
    → IsSound t
    → find t fd ≡ some c
    → Keeps fd c (edit (peer_edit c.connection_fd f t) fd f)
both_ends-Keeps t fd f c u sound h =
    let here =
      peer_edit-Has t fd c.connection_fd f c u
        (record { it = c; found = h; holds = IsLike-refl c }) in
    record {
      sound = unlink_ends t fd c.connection_fd f c u sound h refl;
      has =
          Has-edit_any (peer_edit c.connection_fd f t) fd fd f (IsLike c)
            (λ x l. Unlinks-IsLike f c x u l) here;
    }

pub end_call-Returns :
    (fd : ℕ) (s : Server) (c : SipConnection)
    → IsSound s.connections
    → find s.connections fd ≡ some c
    → Returns (end_call fd s) (λ s'.
      (s'.connections ≡ edit (peer_edit c.connection_fd idle s.connections) fd idle)
      × Keeps fd c s'.connections)
unfolding end_call
end_call-Returns fd s c sound h = Returns-bind (conn-Returns fd s c h) λ c0 e0.
    Returns-bind
      (hang_up-Returns fd c0.connection_fd s c sound h (ap (λ x. x.connection_fd) (sym e0)))
      λ p left.
        let here =
          peer_edit-Has s.connections fd c0.connection_fd idle c idle-Unlinks
            (record { it = c; found = h; holds = IsLike-refl c }) in
        let found1 = ap (λ t. find t fd) left ∙ here.found in
        Returns-bind (conn-Returns fd p.1 here.it found1) λ c1 e1.
          Returns-bind (send_command-Returns fd _ _ here.it found1) λ s2 same.
            let final =
              ap (λ t. edit t fd idle)
                (same
                  ∙ left
                  ∙ ap (λ o. peer_edit o idle s.connections) (ap (λ x. x.connection_fd) e0)) in
            Returns-some _ (
              final,
              subst (Keeps fd c) (sym final)
                  (both_ends-Keeps s.connections fd idle c idle-Unlinks sound h),
            )

drop_call-Returns :
    (fd : ℕ) (o : Option ℕ) (s : Server) (c : SipConnection)
    → IsSound s.connections
    → find s.connections fd ≡ some c
    → Returns (drop_call o fd s) (λ s'. Keeps fd c s'.connections)
unfolding drop_call
drop_call-Returns fd none s c sound h =
    Returns-some _
      (record { sound = sound; has = record { it = c; found = h; holds = IsLike-refl c } })
drop_call-Returns fd (some cid) s c sound h =
    Returns-mono (end_call-Returns fd s c sound h) λ s' p. p.1

-- The connection may be dropped: marked as a zombie or erased.
pub record IsLeft (fd : ℕ) (t : Table) : Type 0 where
  pub marked : IsSound (edit t fd mark_zombie)
  pub erased : IsSound (erase t fd)
  pub has : Has t fd (λ _. Unit)

zombie-IsLocal : (c : SipConnection) → c.connection_fd ≡ none → c.zombie ≡ true → IsLocal c
zombie-IsLocal c none_c z = record {
  linked = λ h. absurd (h none_c);
  known = λ _ alive. absurd (false≢true (sym alive ∙ z));
}

unlinked-IsLeft :
    (t : Table) (fd : ℕ) (c : SipConnection)
    → IsSound t
    → find t fd ≡ some c
    → c.connection_fd ≡ none
    → IsLeft fd t
unlinked-IsLeft t fd c s h e = record {
  marked = IsSound-edit t fd mark_zombie c s h refl (zombie-IsLocal (mark_zombie c) e refl);
  erased = IsSound-erase t fd c s h e;
  has = record { it = c; found = h; holds = tt };
}

forgotten-IsLeft :
    (t : Table) (fd : ℕ) (c : SipConnection)
    → IsSound t
    → find t fd ≡ some c
    → c.connection_fd ≡ none
    → IsLeft fd (edit t fd forget_user)
forgotten-IsLeft t fd c s h e = record {
  marked = rw (edit-edit t fd forget_user mark_zombie) (
      IsSound-edit t fd (λ x. mark_zombie (forget_user x)) c s h refl
        (zombie-IsLocal (mark_zombie (forget_user c)) e refl));
  erased = rw (erase-edit t fd forget_user) (IsSound-erase t fd c s h e);
  has = record { it = forget_user c; found = find-edit_self t fd forget_user c h; holds = tt };
}

leave-Returns :
    (fd : ℕ) (s : Server) (c : SipConnection)
    → IsSound s.connections
    → find s.connections fd ≡ some c
    → Returns (leave fd s) (λ s'. IsLeft fd s'.connections)
unfolding leave
leave-Returns fd s c sound h = Returns-bind (conn-Returns fd s c h) λ c0 e0.
    Returns-bind (drop_call-Returns fd c0.cid s c sound h) λ s1 k.
      let c1 = k.has.it in
      Returns-bind (conn-Returns fd s1 c1 k.has.found) λ c1' e1.
        Returns-bind
          (release-Returns fd c1'.connection_fd s1 c1 k.sound k.has.found
            (ap (λ x. x.connection_fd) (sym e1)))
          λ s2 left.
            let here =
              peer_edit-Has s1.connections fd c1'.connection_fd unlink c1 unlink-Unlinks
                (record { it = c1; found = k.has.found; holds = IsLike-refl c1 }) in
            let found2 = ap (λ t. find t fd) left ∙ here.found in
            let ends =
              unlink_ends s1.connections fd c1'.connection_fd unlink c1 unlink-Unlinks k.sound
                k.has.found (ap (λ x. x.connection_fd) (sym e1)) in
            Returns-bind (conn-Returns fd s2 here.it found2) λ c2 e2. Returns-some _ (
              forgotten-IsLeft (edit s2.connections fd unlink) fd (unlink here.it)
                (subst (λ t. IsSound (edit t fd unlink)) (sym left) ends)
                (find-edit_self s2.connections fd unlink here.it found2) refl)

-- A connection that is not online has no link.
not_member-unlinked :
    (c : SipConnection)
    → IsLocal c
    → not c.is_authenticated || c.uid == 0 ≡ true
    → c.connection_fd ≡ none
not_member-unlinked c l e = elim (Option-cases c.connection_fd) [
  | inl n ↦ n
  | inr (d, link) ↦
      let m = l.linked (λ n. none≢some (sym n ∙ link)) in
      let auth = m.authenticated in let user = m.user in absurd (ground arith)
]

pub logout-Returns :
    (fd : ℕ) (s : Server) (c : SipConnection)
    → IsSound s.connections
    → find s.connections fd ≡ some c
    → Returns (logout fd s) (λ s'. IsLeft fd s'.connections)
unfolding logout
logout-Returns fd s c sound h = Returns-bind (conn-Returns fd s c h) λ c0 e0.
    elim (Bool-cases (not c0.is_authenticated || c0.uid == 0)) [
      | inl e ↦ rw e (
          Returns-some _ (
            unlinked-IsLeft s.connections fd c sound h
              (not_member-unlinked c (sound.local fd c h) (rw⁻¹ e0 e))))
      | inr e ↦ rw e (leave-Returns fd s c sound h)
    ]

abbrev pub Sound : Server → Type 0
Sound s = IsSound s.connections

pub socket_kill-Returns :
    (fd : ℕ) (s : Server) (c : SipConnection)
    → IsSound s.connections
    → find s.connections fd ≡ some c
    → Returns (socket_kill fd s) Sound
unfolding socket_kill kill
socket_kill-Returns fd s c sound h = Returns-bind (conn-Returns fd s c h) λ c0 e0.
    elim (Bool-cases c0.zombie) [
      | inl e ↦ rw e (Returns-some _ sound)
      | inr e ↦
          rw e (Returns-bind (logout-Returns fd s c sound h) λ s1 left. Returns-some _ left.marked)
    ]

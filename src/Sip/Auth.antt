-- ===== src/Sip/Auth.antt =====
-- A login with the right answer to the challenge makes the connection that user's, a wrong answer
-- drops it.
use net_isdn.Common.{
  ℕ, Word, same, same_refl, same-eq, ◌≡◌, ◌≢◌, refl, sym, ◌∙◌, ap, true, false, not, ◌&&◌, none,
  some, List, [], ◌∷◌, length, ◌==◌, if◌then◌else◌, ◌>>=◌, arith, Bool-cases, inl, inr,
}
use net_isdn.Sip.Outside.{Outside, User}
use net_isdn.Sip.Connection.{SipConnection, Table, Server, command, find, edit, send_command}
use net_isdn.Sip.Table.{find-edit_self, ==_true, ==_false}
use net_isdn.Sip.Reply.{pw}
use net_isdn.Sip.Session.{logout, kill, socket_kill, mark_zombie}
use net_isdn.Sip.Login.{
  arg, refuse, password_hash, generate_challenge, identified, identify, challenge, login,
  authenticate, accept, check_password, password, get_fd_by_uid,
}
use net_isdn.Sip.Sound.{Has}
use net_isdn.Sip.Runs.Returns.{
  Returns, Returns-bind, Returns-some, Returns-mono, conn-Returns, send_command-Returns, Leaves,
}

send_known :
    (fd : ℕ) (cmd : Word) (s : Server) (c : SipConnection)
    → find s.connections fd ≡ some c
    → Returns (send_command fd cmd s) (λ s'. s' ≡ record s { sent = command fd cmd ∷ s.sent })
unfolding send_command
send_known fd cmd s c h = Returns-bind (conn-Returns fd s c h) λ _ _. Returns-some _ refl

cons-agree :
    (k : ℕ) (c : SipConnection) (fd uid : ℕ) (t t' : Table)
    → get_fd_by_uid t uid fd ≡ get_fd_by_uid t' uid fd
    → get_fd_by_uid ((k, c) ∷ t) uid fd ≡ get_fd_by_uid ((k, c) ∷ t') uid fd
unfolding get_fd_by_uid
cons-agree k c fd uid t t' h = ap (λ o. if c.uid == uid && not (k == fd) then some k else o) h

cons-except :
    (k : ℕ) (c : SipConnection) (fd uid : ℕ) (t : Table)
    → k == fd ≡ true
    → get_fd_by_uid ((k, c) ∷ t) uid fd ≡ get_fd_by_uid t uid fd
unfolding get_fd_by_uid
cons-except k c fd uid t h = rw h (ground arith)

-- A change of the connection that is left out is not seen.
get_fd_by_uid-edit :
    (t : Table) (uid fd : ℕ) (f : SipConnection → SipConnection)
    → get_fd_by_uid (edit t fd f) uid fd ≡ get_fd_by_uid t uid fd
get_fd_by_uid-edit [] uid fd f = refl
get_fd_by_uid-edit ((k, c) ∷ t) uid fd f = elim (Bool-cases (k == fd)) [
  | inl e ↦ rw e (cons-except k (f c) fd uid t e ∙ sym (cons-except k c fd uid t e))
  | inr e ↦ rw e (cons-agree k c fd uid (edit t fd f) t (get_fd_by_uid-edit t uid fd f))
]

differ : (xs ys : Word) → xs ≢ ys → same xs ys ≡ false
differ xs ys ne = elim (Bool-cases (same xs ys)) [
  | inl e ↦ absurd (ne (same-eq xs ys e))
  | inr e ↦ e
]

module _ (env : Outside) where
  login-identifies :
      (fd : ℕ) (cmd : List Word) (s : Server) (c : SipConnection) (u : User) (hash : Word)
      → length cmd ≡ 4
      → find s.connections fd ≡ some c
      → env.select_user s.statements (arg cmd 1) ≡ some u
      → password_hash env u.password (generate_challenge env 4 s.draws) ≡ some hash
      → Returns
          (login env fd cmd s)
          (Leaves (edit s.connections fd (identified env u (arg cmd 2) (arg cmd 3) hash)))
  unfolding login challenge identify
  login-identifies fd cmd s c u hash four h eu eh =
      rw (==_true (length cmd) 4 four)
        (Returns-bind (send_known fd _ _ c h) λ s1 e1. rw (e1, eu, eh) (Returns-some _ refl))

  accept-authenticates :
      (fd : ℕ) (s : Server) (c : SipConnection)
      → find s.connections fd ≡ some c
      → Returns (accept env fd c s) (λ s'. Has s'.connections fd (λ d. d ≡ authenticate env c))
  unfolding accept
  accept-authenticates fd s c h =
      let found = find-edit_self s.connections fd (authenticate env) c h in
      Returns-bind (send_command-Returns fd _ _ (authenticate env c) found) λ s1 same_table.
        Returns-some _ (record {
          it = authenticate env c;
          found = ap (λ t. find t fd) same_table ∙ found;
          holds = refl;
        })

  -- A connection that answers the challenge with the hash of the user's password and the challenge is
  -- authenticated as that user, where the user has a number that is not 0 and is on no other connection.
  pub login-password :
      (fd : ℕ) (cmd : List Word) (s : Server) (c : SipConnection) (u : User) (reply : Word)
      → length cmd ≡ 4
      → find s.connections fd ≡ some c
      → env.select_user s.statements (arg cmd 1) ≡ some u
      → u.id ≢ 0
      → password_hash env u.password (generate_challenge env 4 s.draws) ≡ some reply
      → get_fd_by_uid s.connections u.id fd ≡ none
      → Returns
          (login env fd cmd s >>= password env fd (pw ∷ reply ∷ []))
          (λ s'. Has s'.connections fd (λ d. (d.is_authenticated ≡ true) × (d.uid ≡ u.id)))
  unfolding password check_password
  login-password fd cmd s c u reply four h eu ne eh alone =
      Returns-bind (login-identifies fd cmd s c u reply four h eu eh) λ s1 left.
        let f = identified env u (arg cmd 2) (arg cmd 3) reply in
        let found = ap (λ t. find t fd) left ∙ find-edit_self s.connections fd f c h in
        let alone1 =
          ap (λ t. get_fd_by_uid t u.id fd) left
          ∙ get_fd_by_uid-edit s.connections u.id fd f
          ∙ alone in
        Returns-bind (conn-Returns fd s1 (f c) found) λ c1 e1.
          rw (e1, ==_false u.id 0 ne, same_refl reply, alone1)
            (Returns-mono (accept-authenticates fd s1 (f c) found) λ s2 w. record {
              it = w.it;
              found = w.found;
              holds = (ap (λ d. d.is_authenticated) w.holds, ap (λ d. d.uid) w.holds);
            })

  kill-marks :
      (fd : ℕ) (s : Server) (c : SipConnection)
      → find s.connections fd ≡ some c
      → c.is_authenticated ≡ false
      → Returns
          (kill fd s)
          (λ s'. Has s'.connections fd (λ d. (d.is_authenticated ≡ false) × (d.zombie ≡ true)))
  unfolding kill logout
  kill-marks fd s c h unknown =
      let stays : Returns (logout fd s) (λ s'. s' ≡ s) =
        Returns-bind (conn-Returns fd s c h) λ c0 e0. rw (e0, unknown) (Returns-some s refl) in
      Returns-bind stays λ s1 same_server. Returns-some _ (record {
        it = mark_zombie c;
        found =
            find-edit_self s1.connections fd mark_zombie c
              (ap (λ x. find x.connections fd) same_server ∙ h);
        holds = (unknown, refl);
      })

  -- A connection that is not authenticated nor dropped, and answers the challenge with anything else, is
  -- dropped and not authenticated.
  pub login-password_wrong :
      (fd : ℕ) (cmd : List Word) (s : Server) (c : SipConnection) (u : User) (hash reply : Word)
      → length cmd ≡ 4
      → find s.connections fd ≡ some c
      → c.is_authenticated ≡ false
      → c.zombie ≡ false
      → env.select_user s.statements (arg cmd 1) ≡ some u
      → password_hash env u.password (generate_challenge env 4 s.draws) ≡ some hash
      → reply ≢ hash
      → Returns
          (login env fd cmd s >>= password env fd (pw ∷ reply ∷ []))
          (λ s'. Has s'.connections fd (λ d. (d.is_authenticated ≡ false) × (d.zombie ≡ true)))
  unfolding password check_password refuse socket_kill
  login-password_wrong fd cmd s c u hash reply four h unknown alive eu eh ne =
      Returns-bind (login-identifies fd cmd s c u hash four h eu eh) λ s1 left.
        let f = identified env u (arg cmd 2) (arg cmd 3) hash in
        let found = ap (λ t. find t fd) left ∙ find-edit_self s.connections fd f c h in
        let refused = Returns-bind (send_command-Returns fd _ s1 (f c) found) λ s2 left2.
          let found2 = ap (λ t. find t fd) left2 ∙ found in
          Returns-bind (conn-Returns fd s2 (f c) found2)
            λ c2 e2. rw (e2, alive) (kill-marks fd s2 (f c) found2 unknown) in
        Returns-bind (conn-Returns fd s1 (f c) found) λ c1 e1.
          rw e1 (elim (Bool-cases (u.id == 0)) [
            | inl e ↦ rw e refused
            | inr e ↦ rw (e, differ reply hash ne) refused
          ])

-- ===== src/Sip/Runs/Login.antt =====
-- `Login` and `Password` return on a sound table and leave a sound one.
use mathlib.Core.Path.{subst}
use net_isdn.Common.{
  ℕ, zero, suc, ◌+◌, ◌*◌, ◌≤◌, Word, same, ◌≡◌, ◌≢◌, refl, sym, ◌∙◌, ap, not, Option, none, some,
  List, ◌∷◌, ◌++◌, length, length-append, lt→ltb, ◌==◌, arith, Bool-cases, inl, inr,
}
use net_isdn.Sip.Outside.{Outside, User}
use net_isdn.Sip.Connection.{SipConnection, Server, find, edit}
use net_isdn.Sip.Session.{is_some}
use net_isdn.Sip.Login.{
  arg, refuse, hex_digits, password_hash, generate_challenge, identified, identify, challenge,
  login, authenticate, accept, check_password, password, get_fd_by_uid,
}
use net_isdn.Sip.Sound.{IsSound, IsLocal, IsSound-edit, ne_of}
use net_isdn.Sip.Table.{find-edit_self}
use net_isdn.Sip.Runs.Returns.{
  Returns, Returns-bind, Returns-some, conn-Returns, send_command-Returns,
}
use net_isdn.Sip.Runs.Session.{Sound, socket_kill-Returns}

-- What the server relies on in the table USERS (lib/ and netadmin/createdb.cpp): a number is not 0
-- (auto_increment), and a password fits its column, char(64).
pub record IsDatabase (env : Outside) : Type 0 where
  pub numbered : (q : List _) (n : Word) (u : User) → env.select_user q n ≡ some u → u.id ≢ 0
  pub fits :
      (q : List _) (n : Word) (u : User) → env.select_user q n ≡ some u → length u.password ≤ 64

module _ (env : Outside) where
  pub refuse-Returns :
      (code fd : ℕ) (s : Server) (c : SipConnection)
      → IsSound s.connections
      → find s.connections fd ≡ some c
      → Returns (refuse env code fd s) Sound
  unfolding refuse
  refuse-Returns code fd s c sound h = Returns-bind (send_command-Returns fd _ s c h) λ s1 same.
      socket_kill-Returns fd s1 c (subst IsSound (sym same) sound) (ap (λ t. find t fd) same ∙ h)

  length-generate_challenge : (n draws : ℕ) → length (generate_challenge env n draws) ≡ 8 * n
  unfolding generate_challenge
  length-generate_challenge zero draws = refl
  length-generate_challenge (suc n) draws = omega (
    arith,
    length-append (env.hex8 (env.rand draws)) (generate_challenge env n (draws + 1)),
    env.length-hex8 (env.rand draws),
    length-generate_challenge n (draws + 1),
  )

  password_hash-Returns :
      (passwd chal : Word)
      → length passwd ≤ 64
      → length chal ≡ 32
      → Returns
          (password_hash env passwd chal)
          (λ h. h ≡ hex_digits env (env.md5 (chal ++ (b'|' ∷ passwd))))
  unfolding password_hash
  password_hash-Returns passwd chal short len =
      rw
        (lt→ltb (length (chal ++ (b'|' ∷ passwd))) 2048
          (omega (arith, length-append chal (b'|' ∷ passwd))))
        (Returns-some _ refl)

  identified-IsLocal :
      (u : User) (addr version h : Word) (c : SipConnection)
      → u.id ≢ 0
      → IsLocal c
      → IsLocal (identified env u addr version h c)
  identified-IsLocal u addr version h c ne l = record {
    linked = λ n.
        let m = l.linked n in
        record { authenticated = m.authenticated; user = ne; alive = m.alive };
    known = λ _ _. ne;
  }

  identify-Returns :
      (fd : ℕ) (cmd : List Word) (chal : Word) (o : Option User) (s : Server) (c : SipConnection)
      → ((u : User) → o ≡ some u → (u.id ≢ 0) × (length u.password ≤ 64))
      → length chal ≡ 32
      → IsSound s.connections
      → find s.connections fd ≡ some c
      → Returns (identify env fd cmd chal o s) Sound
  unfolding identify
  identify-Returns fd cmd chal none s c laws len sound h = Returns-some _ sound
  identify-Returns fd cmd chal (some u) s c laws len sound h =
      let (ne, short) = laws u refl in
      Returns-bind (password_hash-Returns u.password chal short len) λ hash _. Returns-some _ (
        IsSound-edit s.connections fd _ c sound h refl
          (identified-IsLocal u (arg cmd 2) (arg cmd 3) hash c ne (sound.local fd c h)))

  challenge-Returns :
      (fd : ℕ) (cmd : List Word) (s : Server) (c : SipConnection)
      → IsDatabase env
      → IsSound s.connections
      → find s.connections fd ≡ some c
      → Returns (challenge env fd cmd s) Sound
  unfolding challenge
  challenge-Returns fd cmd s c db sound h =
      Returns-bind (send_command-Returns fd _ _ c h) λ s1 same.
        identify-Returns fd cmd _ _ s1 c
          (λ u e.
            (db.numbered s1.statements (arg cmd 1) u e, db.fits s1.statements (arg cmd 1) u e))
          (length-generate_challenge 4 s.draws) (subst IsSound (sym same) sound)
          (ap (λ t. find t fd) same ∙ h)

  pub login-Returns :
      (fd : ℕ) (cmd : List Word) (s : Server) (c : SipConnection)
      → IsDatabase env
      → IsSound s.connections
      → find s.connections fd ≡ some c
      → Returns (login env fd cmd s) Sound
  unfolding login
  login-Returns fd cmd s c db sound h = elim (Bool-cases (not (length cmd == 4))) [
    | inl e ↦ rw e (refuse-Returns _ fd s c sound h)
    | inr e ↦ rw e (challenge-Returns fd cmd s c db sound h)
  ]

  authenticate-IsLocal : (c : SipConnection) → c.uid ≢ 0 → IsLocal c → IsLocal (authenticate env c)
  authenticate-IsLocal c ne l = record {
    linked = λ n. record { authenticated = refl; user = ne; alive = (l.linked n).alive };
    known = λ _ _. ne;
  }

  accept-Returns :
      (fd : ℕ) (s : Server) (c : SipConnection)
      → c.uid ≢ 0
      → IsSound s.connections
      → find s.connections fd ≡ some c
      → Returns (accept env fd c s) Sound
  unfolding accept
  accept-Returns fd s c ne sound h =
      let t' = edit s.connections fd (authenticate env) in
      let sound' : IsSound t' =
        IsSound-edit s.connections fd (authenticate env) c sound h refl
          (authenticate-IsLocal c ne (sound.local fd c h)) in
      Returns-bind
        (send_command-Returns fd _ _ (authenticate env c)
          (find-edit_self s.connections fd (authenticate env) c h))
        λ s1 same. Returns-some _ (subst IsSound (sym same) sound')

  check_password-Returns :
      (fd : ℕ) (cmd : List Word) (s : Server) (c : SipConnection)
      → IsSound s.connections
      → find s.connections fd ≡ some c
      → Returns (check_password env fd cmd c s) Sound
  unfolding check_password
  check_password-Returns fd cmd s c sound h = elim (Bool-cases (c.uid == 0)) [
    | inl e ↦ rw e (refuse-Returns _ fd s c sound h)
    | inr e ↦ rw e (elim (Bool-cases (not (same (arg cmd 1) c.hash))) [
      | inl e1 ↦ rw e1 (refuse-Returns _ fd s c sound h)
      | inr e1 ↦ rw e1 (elim (Bool-cases (is_some (get_fd_by_uid s.connections c.uid fd))) [
        | inl e2 ↦ rw e2 (refuse-Returns _ fd s c sound h)
        | inr e2 ↦ rw e2 (accept-Returns fd s c (ne_of c.uid 0 e) sound h)
      ])
    ])
  ]

  pub password-Returns :
      (fd : ℕ) (cmd : List Word) (s : Server) (c : SipConnection)
      → IsSound s.connections
      → find s.connections fd ≡ some c
      → Returns (password env fd cmd s) Sound
  unfolding password
  password-Returns fd cmd s c sound h = Returns-bind (conn-Returns fd s c h) λ c0 e0.
      elim (Bool-cases (not (length cmd == 2))) [
        | inl e ↦ rw e (refuse-Returns _ fd s c sound h)
        | inr e ↦ rw (e, e0) (check_password-Returns fd cmd s c sound h)
      ]

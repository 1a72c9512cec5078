-- ===== src/Sip/Runs/Call.antt =====
-- `InitiateCall` between a free caller and a free callee, both online, returns and leaves a sound
-- table.
use mathlib.Core.Path.{subst}
use net_isdn.Common.{
  ℕ, ◌<◌, Word, ◌≡◌, refl, sym, ◌∙◌, ap, false, not, Option, none, some, none≢some, some_inj, List,
  [], ◌∷◌, length, ◌==◌, if◌then◌else◌, arith, Bool-cases, ◌⊎◌, inl, inr,
}
use net_isdn.Sip.Outside.{Outside, User, Contact}
use net_isdn.Sip.Connection.{SipConnection, Table, Server, find, edit, on}
use net_isdn.Sip.Table.{==_true, find_hit, find_miss, length-edit}
use net_isdn.Sip.Session.{is_some}
use net_isdn.Sip.Login.{arg}
use net_isdn.Sip.Port.{generate_port}
use net_isdn.Sip.Port.Free.{generate_port-IsFree}
use net_isdn.Sip.Call.{
  find_callee, link, set_port, set_cid, set_cids, send_field, send_contact, send_metadata, announce,
  log_call, assign_ports, connect, call_to, call_user, initiate_call,
}
use net_isdn.Sip.Sound.{IsSound, IsMember, IsLocal, Has, IsSound-edit}
use net_isdn.Sip.Links.{Has-edit_any, IsSound-link, LinksTo}
use net_isdn.Sip.Runs.Returns.{
  Returns, Returns-bind, Returns-some, Returns-mono, conn-Returns, send_command-Returns, Leaves,
}
use net_isdn.Sip.Runs.Session.{Sound}

-- A change that the invariant does not look at.
pub record IsQuiet (f : SipConnection → SipConnection) : Type 0 where
  pub linked : (c : SipConnection) → (f c).connection_fd ≡ c.connection_fd
  pub authenticated : (c : SipConnection) → (f c).is_authenticated ≡ c.is_authenticated
  pub alive : (c : SipConnection) → (f c).zombie ≡ c.zombie
  pub user : (c : SipConnection) → (f c).uid ≡ c.uid

quiet-IsLocal :
    (f : SipConnection → SipConnection) (c : SipConnection) → IsQuiet f → IsLocal c → IsLocal (f c)
quiet-IsLocal f c q l = record {
  linked = λ n.
      let m = l.linked (λ e. n (q.linked c ∙ e)) in
      record {
        authenticated = q.authenticated c ∙ m.authenticated;
        user = λ e. m.user (sym (q.user c) ∙ e);
        alive = q.alive c ∙ m.alive;
      };
  known = λ a z e. l.known (sym (q.authenticated c) ∙ a) (sym (q.alive c) ∙ z) (sym (q.user c) ∙ e);
}

pub IsSound-quiet :
    (t : Table) (fd : ℕ) (f : SipConnection → SipConnection) (c : SipConnection)
    → IsQuiet f
    → IsSound t
    → find t fd ≡ some c
    → IsSound (edit t fd f)
IsSound-quiet t fd f c q s h =
    IsSound-edit t fd f c s h (q.linked c) (quiet-IsLocal f c q (s.local fd c h))

-- Sound, with both sides of a call there, and with few connections.
pub record IsReady (fd dest_fd : ℕ) (t : Table) : Type 0 where
  pub sound : IsSound t
  pub caller : Has t fd (λ _. Unit)
  pub callee : Has t dest_fd (λ _. Unit)
  pub few : length t < 30266

Has-keep :
    (t : Table) (x a : ℕ) (f : SipConnection → SipConnection)
    → Has t a (λ _. Unit)
    → Has (edit t x f) a (λ _. Unit)
Has-keep t x a f h = Has-edit_any t x a f (λ _. Unit) (λ _ _. tt) h

IsReady-edit :
    (fd dest_fd x : ℕ) (t : Table) (f : SipConnection → SipConnection)
    → IsQuiet f
    → Has t x (λ _. Unit)
    → IsReady fd dest_fd t
    → IsReady fd dest_fd (edit t x f)
IsReady-edit fd dest_fd x t f q h r = record {
  sound = IsSound-quiet t x f h.it q r.sound h.found;
  caller = Has-keep t x fd f r.caller;
  callee = Has-keep t x dest_fd f r.callee;
  few = subst (λ n. n < 30266) (sym (length-edit t x f)) r.few;
}

module _ (env : Outside) where
  send_contact-Returns :
      (o : Option Contact) (fd : ℕ) (s : Server) (c : SipConnection)
      → find s.connections fd ≡ some c
      → Returns (send_contact env o fd s) (Leaves s.connections)
  unfolding send_contact send_field
  send_contact-Returns none fd s c h = Returns-some _ refl
  send_contact-Returns (some k) fd s c h = Returns-bind (send_command-Returns fd _ s c h) λ s1 e1.
      Returns-bind (send_command-Returns fd _ s1 c (ap (λ t. find t fd) e1 ∙ h)) λ s2 e2.
        Returns-bind (send_command-Returns fd _ s2 c (ap (λ t. find t fd) (e2 ∙ e1) ∙ h)) λ s3 e3.
          Returns-mono (send_command-Returns fd _ s3 c (ap (λ t. find t fd) (e3 ∙ e2 ∙ e1) ∙ h))
            λ s4 e4. e4 ∙ e3 ∙ e2 ∙ e1

  send_metadata-Returns :
      (id fd : ℕ) (s : Server) (c : SipConnection)
      → find s.connections fd ≡ some c
      → Returns (send_metadata env id fd s) (Leaves s.connections)
  unfolding send_metadata
  send_metadata-Returns id fd s c h = send_contact-Returns _ fd s c h

  announce-Returns :
      (fd dest_fd src_addr dest_addr : ℕ) (cmd : List Word) (s : Server) (c d : SipConnection)
      → find s.connections fd ≡ some c
      → find s.connections dest_fd ≡ some d
      → Returns (announce env fd dest_fd src_addr dest_addr cmd s) (Leaves s.connections)
  unfolding announce
  announce-Returns fd dest_fd src_addr dest_addr cmd s c d hc hd =
      Returns-bind (conn-Returns fd s c hc) λ _ _. Returns-bind (conn-Returns dest_fd s d hd) λ _ _.
        Returns-bind (send_command-Returns fd _ s c hc) λ s1 e1.
          Returns-bind (send_command-Returns dest_fd _ s1 d (ap (λ t. find t dest_fd) e1 ∙ hd))
            λ s2 e2.
              Returns-bind
                (send_metadata-Returns _ dest_fd s2 d (ap (λ t. find t dest_fd) (e2 ∙ e1) ∙ hd))
                λ s3 e3.
                  Returns-bind
                    (send_metadata-Returns _ fd s3 c (ap (λ t. find t fd) (e3 ∙ e2 ∙ e1) ∙ hc))
                    λ s4 e4. Returns-some _ (e4 ∙ e3 ∙ e2 ∙ e1)

  set_cid-IsQuiet : (cid : Option ℕ) → IsQuiet (set_cid cid)
  set_cid-IsQuiet cid = record {
    linked = λ _. refl;
    authenticated = λ _. refl;
    alive = λ _. refl;
    user = λ _. refl;
  }

  set_port-IsQuiet : (port : ℕ) → IsQuiet (set_port port)
  set_port-IsQuiet port = record {
    linked = λ _. refl;
    authenticated = λ _. refl;
    alive = λ _. refl;
    user = λ _. refl;
  }

  set_cids-IsReady :
      (o : Option ℕ) (fd dest_fd : ℕ) (s : Server)
      → IsReady fd dest_fd s.connections
      → IsReady fd dest_fd (set_cids o fd dest_fd s).connections
  unfolding set_cids
  set_cids-IsReady none fd dest_fd s r = r
  set_cids-IsReady (some cid) fd dest_fd s r =
      let r1 =
        IsReady-edit fd dest_fd fd s.connections (set_cid (some cid)) (set_cid-IsQuiet _) r.caller
          r in
      IsReady-edit fd dest_fd dest_fd _ (set_cid (some cid)) (set_cid-IsQuiet _) r1.callee r1

  log_call-Returns :
      (fd dest_fd src_addr dest_addr : ℕ) (cmd : List Word) (s : Server)
      → IsReady fd dest_fd s.connections
      → Returns
          (log_call env fd dest_fd src_addr dest_addr cmd s)
          (λ s'. IsReady fd dest_fd s'.connections)
  unfolding log_call
  log_call-Returns fd dest_fd src_addr dest_addr cmd s r =
      Returns-bind (conn-Returns fd s r.caller.it r.caller.found) λ _ _.
        Returns-bind (conn-Returns dest_fd s r.callee.it r.callee.found)
          λ _ _. Returns-some _ (set_cids-IsReady _ fd dest_fd _ r)

  generate_port-Returns :
      (addr : ℕ) (t : Table) → length t < 30266 → Returns (generate_port addr t) (λ _. Unit)
  generate_port-Returns addr t few =
      let (port, e, _, _, _) = generate_port-IsFree addr t few in
      record { result = port; returned = e; ensures = tt }

  assign_ports-Returns :
      (fd dest_fd src_addr dest_addr : ℕ) (s : Server)
      → IsReady fd dest_fd s.connections
      → Returns
          (assign_ports env fd dest_fd src_addr dest_addr s)
          (λ s'. IsReady fd dest_fd s'.connections)
  unfolding assign_ports
  assign_ports-Returns fd dest_fd src_addr dest_addr s r =
      Returns-bind (generate_port-Returns src_addr s.connections r.few) λ port _.
        let r1 =
          IsReady-edit fd dest_fd fd s.connections (set_port port) (set_port-IsQuiet port) r.caller
            r in
        Returns-bind (generate_port-Returns dest_addr _ r1.few) λ dest_port _. Returns-some _ (
          IsReady-edit fd dest_fd dest_fd _ (set_port dest_port) (set_port-IsQuiet dest_port)
            r1.callee r1)

  -- A side of a call that is set up: online and in no call.
  abbrev pub IsAvailable : SipConnection → Type 0
  IsAvailable c = IsMember c × (c.connection_fd ≡ none)

  link-LinksTo : (b : ℕ) → LinksTo b (link b)
  link-LinksTo b = record {
    to = λ _. refl;
    member = λ c m. record { authenticated = m.authenticated; user = m.user; alive = m.alive };
  }

  linked-IsReady :
      (fd dest_fd : ℕ) (t : Table) (c d : SipConnection)
      → IsSound t
      → find t fd ≡ some c
      → find t dest_fd ≡ some d
      → IsAvailable c
      → IsAvailable d
      → length t < 30266
      → IsReady fd dest_fd (edit (edit t fd (link dest_fd)) dest_fd (link fd))
  linked-IsReady fd dest_fd t c d s hc hd (mc, uc) (md, ud) few = record {
    sound =
        IsSound-link t fd dest_fd (link dest_fd) (link fd) c d s (link-LinksTo dest_fd)
          (link-LinksTo fd) hc hd uc ud mc md;
    caller =
        Has-keep _ dest_fd fd (link fd)
          (Has-keep t fd fd (link dest_fd) (record { it = c; found = hc; holds = tt }));
    callee =
        Has-keep _ dest_fd dest_fd (link fd)
          (Has-keep t fd dest_fd (link dest_fd) (record { it = d; found = hd; holds = tt }));
    few =
        subst (λ n. n < 30266)
          (sym (
            length-edit (edit t fd (link dest_fd)) dest_fd (link fd)
            ∙ length-edit t fd (link dest_fd)))
          few;
  }

  connect-Returns :
      (fd dest_fd : ℕ) (cmd : List Word) (s : Server) (c d : SipConnection)
      → IsSound s.connections
      → find s.connections fd ≡ some c
      → find s.connections dest_fd ≡ some d
      → IsAvailable c
      → IsAvailable d
      → length s.connections < 30266
      → Returns (connect env fd dest_fd cmd s) Sound
  unfolding connect
  connect-Returns fd dest_fd cmd s c d sound hc hd ac ad few =
      Returns-bind (send_command-Returns fd _ s c hc) λ s1 same.
        let r =
          linked-IsReady fd dest_fd s1.connections c d (subst IsSound (sym same) sound)
            (ap (λ t. find t fd) same ∙ hc) (ap (λ t. find t dest_fd) same ∙ hd) ac ad
            (subst (λ t. length t < 30266) (sym same) few) in
        let s2 = on dest_fd (link fd) (on fd (link dest_fd) s1) in
        Returns-bind (conn-Returns fd s2 r.caller.it r.caller.found) λ c' _.
          Returns-bind (conn-Returns dest_fd s2 r.callee.it r.callee.found) λ d' _.
            Returns-bind (assign_ports-Returns fd dest_fd _ _ _ r) λ s3 r3.
              Returns-bind (log_call-Returns fd dest_fd _ _ cmd s3 r3) λ s4 r4.
                Returns-mono
                  (announce-Returns fd dest_fd _ _ cmd s4 r4.caller.it r4.callee.it r4.caller.found
                    r4.callee.found)
                  λ s5 e5. subst IsSound (sym e5) r4.sound

  -- What the clients keep to when one of them calls: it is online and in no call itself, the
  -- connection that is found for its callee has answered its challenge, and the connections are few.
  pub record IsCall (fd : ℕ) (cmd : List Word) (s : Server) : Type 0 where
    pub free : (c : SipConnection) → find s.connections fd ≡ some c → IsAvailable c
    pub answered :
        (u : User) (k : ℕ) (d : SipConnection)
        → env.select_user s.statements (arg cmd 1) ≡ some u
        → find_callee s.connections u.id none ≡ some k
        → find s.connections k ≡ some d
        → d.connection_fd ≡ none
        → IsMember d
    pub few : length s.connections < 30266

  Has-cons :
      (t : Table) (j k : ℕ) (c : SipConnection)
      → Has t k (λ _. Unit)
      → Has ((j, c) ∷ t) k (λ _. Unit)
  Has-cons t j k c w = elim (Bool-cases (j == k)) [
    | inl e ↦ record { it = c; found = find_hit j k c t e; holds = tt }
    | inr e ↦ record { it = w.it; found = find_miss j k c t e ∙ w.found; holds = tt }
  ]

  -- The callee that is found is in the table.
  find_callee-found :
      (t : Table) (uid : ℕ) (o : Option ℕ) (k : ℕ)
      → find_callee t uid o ≡ some k
      → Has t k (λ _. Unit) ⊎ (o ≡ some k)
  unfolding find_callee
  find_callee-found [] uid o k e = inr e
  find_callee-found ((j, c) ∷ t) uid o k e = elim (Bool-cases (c.uid == uid)) [
    | inl b ↦
        elim (find_callee-found t uid (some j) k
          (subst (λ x. find_callee t uid (if x then some j else o) ≡ some k) b e)) [
            | inl w ↦ inl (Has-cons t j k c w)
            | inr e' ↦ inl (record {
              it = c;
              found = find_hit j k c t (==_true j k (some_inj e'));
              holds = tt;
            })
          ]
    | inr b ↦
        elim (find_callee-found t uid o k
          (subst (λ x. find_callee t uid (if x then some j else o) ≡ some k) b e)) [
            | inl w ↦ inl (Has-cons t j k c w)
            | inr e' ↦ inr e'
          ]
  ]

  no_link : (o : Option ℕ) → is_some o ≡ false → o ≡ none
  no_link none e = refl
  no_link (some k) e = ground arith

  call_to-Returns :
      (fd : ℕ) (o : Option ℕ) (cmd : List Word) (s : Server) (c : SipConnection) (u : User)
      → IsSound s.connections
      → find s.connections fd ≡ some c
      → IsCall fd cmd s
      → env.select_user s.statements (arg cmd 1) ≡ some u
      → find_callee s.connections u.id none ≡ o
      → Returns (call_to env fd o cmd s) Sound
  unfolding call_to
  call_to-Returns fd none cmd s c u sound h call eu eo =
      Returns-mono (send_command-Returns fd _ s c h) λ s' e. subst IsSound (sym e) sound
  call_to-Returns fd (some k) cmd s c u sound h call eu eo =
      elim (find_callee-found s.connections u.id none k eo) [
        | inl w ↦ Returns-bind (conn-Returns k s w.it w.found) λ d ed.
            elim (Bool-cases (is_some d.connection_fd)) [
              | inl e ↦ rw e (
                  Returns-mono (send_command-Returns fd _ s c h)
                    λ s' q. subst IsSound (sym q) sound)
              | inr e ↦
                  let found = w.found ∙ ap some (sym ed) in
                  let free = no_link d.connection_fd e in
                  rw e (
                    connect-Returns fd k cmd s c d sound h found (call.free c h)
                      (call.answered u k d eu eo found free, free) call.few)
            ]
        | inr e ↦ absurd (none≢some e)
      ]

  call_user-Returns :
      (fd : ℕ) (o : Option User) (cmd : List Word) (s : Server) (c : SipConnection)
      → IsSound s.connections
      → find s.connections fd ≡ some c
      → IsCall fd cmd s
      → env.select_user s.statements (arg cmd 1) ≡ o
      → Returns (call_user env fd o cmd s) Sound
  unfolding call_user
  call_user-Returns fd none cmd s c sound h call e =
      Returns-mono (send_command-Returns fd _ s c h) λ s' q. subst IsSound (sym q) sound
  call_user-Returns fd (some u) cmd s c sound h call e =
      call_to-Returns fd _ cmd s c u sound h call e refl

  pub initiate_call-Returns :
      (fd : ℕ) (cmd : List Word) (s : Server) (c : SipConnection)
      → IsSound s.connections
      → find s.connections fd ≡ some c
      → IsCall fd cmd s
      → Returns (initiate_call env fd cmd s) Sound
  unfolding initiate_call
  initiate_call-Returns fd cmd s c sound h call = elim (Bool-cases (not (length cmd == 14))) [
    | inl e ↦
        rw e (Returns-mono (send_command-Returns fd _ s c h) λ s' q. subst IsSound (sym q) sound)
    | inr e ↦ rw e (call_user-Returns fd _ cmd s c sound h call refl)
  ]

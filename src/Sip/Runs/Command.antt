-- ===== src/Sip/Runs/Command.antt =====
-- The commands and the slots of netsipd return on a sound table and leave a sound one.
use mathlib.Core.Path.{subst}
use mathlib.Core.Bool.{false≢true}
use net_isdn.Common.{
  ℕ, ◌+◌, Word, same, ◌≡◌, ◌≢◌, refl, sym, ◌∙◌, ap, Bool, true, not, ◌||◌, Option, none, some,
  none≢some, some_inj, Option-cases, same-eq, List, [], ◌∷◌, length, get_elem?, ltb, ◌==◌, arith,
  Bool-cases, inl, inr,
}
use net_isdn.Sip.Outside.{Outside, Statement}
use net_isdn.Sip.Connection.{SipConnection, Server, find, on}
use net_isdn.Sip.Table.{find-edit_self}
use net_isdn.Sip.Reply.{li, pw, ca, by, cb, md, er, pg, bang}
use net_isdn.Sip.Login.{arg}
use net_isdn.Sip.Command.{
  forward_to, forward_message, receive_field, receive_fields, receive_metadata, update_ping,
  member_command, dispatch, parse_command, receive_char, clear_line, add_char, zombie_data, expire,
  ping_timer_data, ping_timeout,
}
use net_isdn.Sip.Sound.{IsSound, IsLocal, eq_of}
use net_isdn.Sip.Links.{IsSound-erase}
use net_isdn.Sip.Runs.Returns.{
  Returns, Returns-bind, Returns-some, Returns-mono, conn-Returns, send_command-Returns, Leaves,
}
use net_isdn.Sip.Runs.Session.{Sound, end_call-Returns, logout-Returns}
use net_isdn.Sip.Runs.Login.{IsDatabase, refuse-Returns, login-Returns, password-Returns}
use net_isdn.Sip.Runs.Call.{IsQuiet, IsSound-quiet, IsCall, initiate_call-Returns}

forward_message-Returns :
    (fd : ℕ) (cmd : List Word) (s : Server) (c : SipConnection)
    → IsSound s.connections
    → find s.connections fd ≡ some c
    → Returns (forward_message fd cmd s) Sound
unfolding forward_message forward_to
forward_message-Returns fd cmd s c sound h =
    Returns-bind (conn-Returns fd s c h)
      λ c0 e0. to c0.connection_fd (ap (λ x. x.connection_fd) (sym e0))
  where
    to : (o : Option ℕ) → c.connection_fd ≡ o → Returns (forward_to o cmd s) Sound
    to none e = Returns-some _ sound
    to (some d) e =
        let w = sound.paired fd d c h e in
        Returns-mono (send_command-Returns d _ s w.it w.found) λ s' q. subst IsSound (sym q) sound

receive_field-Returns :
    (field : Word) (row : Word → ℕ → Statement) (fd : ℕ) (cmd : List Word) (value : Word)
    (s : Server) (c : SipConnection)
    → get_elem? cmd 2 ≡ some value
    → find s.connections fd ≡ some c
    → Returns (receive_field field row fd cmd s) (Leaves s.connections)
unfolding receive_field
receive_field-Returns field row fd cmd value s c ev h = elim (Bool-cases (same (arg cmd 1) field)) [
  | inl e ↦ rw (e, ev) (Returns-bind (conn-Returns fd s c h) λ _ _. Returns-some _ refl)
  | inr e ↦ rw e (Returns-some _ refl)
]

receive_metadata-Returns :
    (fd : ℕ) (cmd : List Word) (s : Server) (c : SipConnection)
    → length cmd ≢ 2
    → IsSound s.connections
    → find s.connections fd ≡ some c
    → Returns (receive_metadata fd cmd s) Sound
unfolding receive_metadata receive_fields
receive_metadata-Returns fd cmd s c ne sound h =
    elim (Bool-cases (length cmd == 2 || length cmd == 3)) [
      | inl e ↦
          let (value, ev) = third cmd (ground arith) in
          rw e (
            Returns-bind (receive_field-Returns _ _ fd cmd value s c ev h) λ s1 e1.
              Returns-bind
                (receive_field-Returns _ _ fd cmd value s1 c ev (ap (λ t. find t fd) e1 ∙ h))
                λ s2 e2.
                  Returns-bind
                    (receive_field-Returns _ _ fd cmd value s2 c ev
                      (ap (λ t. find t fd) (e2 ∙ e1) ∙ h))
                    λ s3 e3.
                      Returns-bind (conn-Returns fd s3 c (ap (λ t. find t fd) (e3 ∙ e2 ∙ e1) ∙ h))
                        λ _ _. Returns-some _ (subst IsSound (sym (e3 ∙ e2 ∙ e1)) sound))
      | inr e ↦ rw e (Returns-some _ sound)
    ]
  where
    third : (cmd : List Word) → length cmd ≡ 3 → (value : Word) × (get_elem? cmd 2 ≡ some value)
    third [] e = absurd (omega arith)
    third (a ∷ []) e = absurd (omega arith)
    third (a ∷ b ∷ []) e = absurd (omega arith)
    third (a ∷ b ∷ v ∷ ws) e = (v, refl)

IsQuiet-refl :
    (f : SipConnection → SipConnection)
    → ((c : SipConnection) → (f c).connection_fd ≡ c.connection_fd)
    → ((c : SipConnection) → (f c).is_authenticated ≡ c.is_authenticated)
    → ((c : SipConnection) → (f c).zombie ≡ c.zombie)
    → ((c : SipConnection) → (f c).uid ≡ c.uid)
    → IsQuiet f
IsQuiet-refl f l a z u = record { linked = l; authenticated = a; alive = z; user = u }

clear_line-IsQuiet : IsQuiet clear_line
clear_line-IsQuiet = IsQuiet-refl clear_line (λ _. refl) (λ _. refl) (λ _. refl) (λ _. refl)

update_ping-Returns :
    (fd : ℕ) (s : Server) (c : SipConnection)
    → IsSound s.connections
    → find s.connections fd ≡ some c
    → Returns (update_ping fd s) Sound
unfolding update_ping
update_ping-Returns fd s c sound h = Returns-bind (conn-Returns fd s c h) λ _ _. Returns-some _ (
    IsSound-quiet s.connections fd _ c
      (IsQuiet-refl _ (λ _. refl) (λ _. refl) (λ _. refl) (λ _. refl)) sound h)

module _ (env : Outside) where
  -- What the clients keep to in a command: a call is made as `IsCall` has it, and metadata comes with
  -- its text. The words are `cmds`, and the server is as `ParseCommand` hands it on.
  pub record IsCommand (fd : ℕ) (cmds : List Word) (s : Server) : Type 0 where
    pub calls : arg cmds 0 ≡ ca → IsCall env fd cmds s
    pub texts : arg cmds 0 ≡ md → length cmds ≢ 2

  member_command-Returns :
      (fd : ℕ) (word : Word) (cmds : List Word) (s : Server) (c : SipConnection)
      → arg cmds 0 ≡ word
      → IsCommand fd cmds s
      → IsSound s.connections
      → find s.connections fd ≡ some c
      → Returns (member_command env fd word cmds s) Sound
  unfolding member_command
  member_command-Returns fd word cmds s c ew ok sound h = elim (Bool-cases (same word ca)) [
    | inl e ↦
        rw e (initiate_call-Returns env fd cmds s c sound h (ok.calls (ew ∙ same-eq word ca e)))
    | inr e ↦ rw e (elim (Bool-cases (same word by)) [
      | inl e1 ↦ rw e1 (Returns-mono (end_call-Returns fd s c sound h) λ s' k. k.1.sound)
      | inr e1 ↦ rw e1 (elim (Bool-cases (same word cb)) [
        | inl e2 ↦ rw e2 (forward_message-Returns fd cmds s c sound h)
        | inr e2 ↦ rw e2 (elim (Bool-cases (same word md)) [
          | inl e3 ↦
              rw e3
                (receive_metadata-Returns fd cmds s c (ok.texts (ew ∙ same-eq word md e3)) sound h)
          | inr e3 ↦ rw e3 (elim (Bool-cases (same word er)) [
            | inl e4 ↦ rw e4 (forward_message-Returns fd cmds s c sound h)
            | inr e4 ↦ rw e4 (elim (Bool-cases (same word pg)) [
              | inl e5 ↦ rw e5 (update_ping-Returns fd s c sound h)
              | inr e5 ↦ rw e5 (
                  Returns-mono (send_command-Returns fd _ s c h)
                    λ s' q. subst IsSound (sym q) sound)
            ])
          ])
        ])
      ])
    ])
  ]

  dispatch-Returns :
      (fd : ℕ) (auth : Bool) (word : Word) (cmds : List Word) (s : Server) (c : SipConnection)
      → IsDatabase env
      → arg cmds 0 ≡ word
      → IsCommand fd cmds s
      → IsSound s.connections
      → find s.connections fd ≡ some c
      → Returns (dispatch env fd auth word cmds s) Sound
  unfolding dispatch
  dispatch-Returns fd auth word cmds s c db ew ok sound h = elim (Bool-cases (same word li)) [
    | inl e ↦ rw e (login-Returns env fd cmds s c db sound h)
    | inr e ↦ rw e (elim (Bool-cases (same word pw)) [
      | inl e1 ↦ rw e1 (password-Returns env fd cmds s c sound h)
      | inr e1 ↦ rw e1 (elim (Bool-cases (not auth)) [
        | inl e2 ↦ rw e2 (refuse-Returns env _ fd s c sound h)
        | inr e2 ↦ rw e2 (member_command-Returns fd word cmds s c ew ok sound h)
      ])
    ])
  ]

  -- A line that holds a word and is a command as the clients send them.
  pub record IsLine (fd : ℕ) (line : Word) (s : Server) : Type 0 where
    pub word : Word
    pub first : get_elem? (env.words line) 0 ≡ some word
    pub command : IsCommand fd (env.words line) (on fd clear_line s)

  first_arg : (ws : List Word) (w : Word) → get_elem? ws 0 ≡ some w → arg ws 0 ≡ w
  first_arg [] w e = absurd (none≢some e)
  first_arg (v ∷ ws) w e = some_inj e

  parse_command-Returns :
      (fd : ℕ) (s : Server) (c : SipConnection)
      → IsDatabase env
      → IsLine fd c.cmdline s
      → IsSound s.connections
      → find s.connections fd ≡ some c
      → Returns (parse_command env fd s) Sound
  unfolding parse_command
  parse_command-Returns fd s c db line sound h = Returns-bind (conn-Returns fd s c h) λ c0 e0.
      rw (e0, line.first)
        (dispatch-Returns fd c.is_authenticated line.word (env.words c.cmdline) _ (clear_line c) db
          (first_arg (env.words c.cmdline) line.word line.first) line.command
          (IsSound-quiet s.connections fd clear_line c clear_line-IsQuiet sound h)
          (find-edit_self s.connections fd clear_line c h))

  pub receive_char-Returns :
      (fd ch : ℕ) (s : Server) (c : SipConnection)
      → IsDatabase env
      → (ch ≡ bang → IsLine fd c.cmdline s)
      → IsSound s.connections
      → find s.connections fd ≡ some c
      → Returns (receive_char env fd ch s) Sound
  unfolding receive_char
  receive_char-Returns fd ch s c db line sound h = Returns-bind (conn-Returns fd s c h) λ _ _.
      elim (Bool-cases (ch == bang)) [
        | inl e ↦ rw e (parse_command-Returns fd s c db (line (eq_of ch bang e)) sound h)
        | inr e ↦ rw e (
            Returns-some _ (
              IsSound-quiet s.connections fd (add_char env ch) c
                (IsQuiet-refl _ (λ _. refl) (λ _. refl) (λ _. refl) (λ _. refl)) sound h))
      ]

-- A sound zombie has no link.
zombie-unlinked : (c : SipConnection) → IsLocal c → c.zombie ≡ true → c.connection_fd ≡ none
zombie-unlinked c l z = elim (Option-cases c.connection_fd) [
  | inl n ↦ n
  | inr (d, link) ↦
      let m = l.linked (λ n. none≢some (sym n ∙ link)) in absurd (false≢true (sym m.alive ∙ z))
]

pub zombie_data-Returns :
    (fd : ℕ) (s : Server) (c : SipConnection)
    → IsSound s.connections
    → find s.connections fd ≡ some c
    → Returns (zombie_data fd s) Sound
unfolding zombie_data
zombie_data-Returns fd s c sound h = Returns-bind (conn-Returns fd s c h) λ c0 e0.
    elim (Bool-cases c.zombie) [
      | inl e ↦
          rw (e0, e)
            (Returns-some _
              (IsSound-erase s.connections fd c sound h (zombie-unlinked c (sound.local fd c h) e)))
      | inr e ↦ rw (e0, e) (Returns-some _ sound)
    ]

pub ping_timer_data-Returns :
    (fd : ℕ) (s : Server) (c : SipConnection)
    → IsSound s.connections
    → find s.connections fd ≡ some c
    → Returns (ping_timer_data fd s) Sound
unfolding ping_timer_data expire
ping_timer_data-Returns fd s c sound h = Returns-bind (conn-Returns fd s c h) λ c0 _.
    elim (Bool-cases (ltb (c0.ping_timestamp + ping_timeout) s.now)) [
      | inl e ↦
          rw e (Returns-bind (logout-Returns fd s c sound h) λ s1 left. Returns-some _ left.erased)
      | inr e ↦
          rw e (Returns-mono (send_command-Returns fd _ s c h) λ s' q. subst IsSound (sym q) sound)
    ]

-- ===== src/Sip/Command.antt =====
-- `ForwardMessage`, `ReceiveMetadata`, `UpdatePing`, `ParseCommand` and the slots of
-- netsipd/netsipd.cpp.
use net_isdn.Common.{
  ℕ, ◌+◌, ◌-◌, Word, same, Bool, not, ◌||◌, Option, none, some, List, [], ◌∷◌, ◌++◌, length, take,
  get_elem?, ltb, ◌==◌, if◌then◌else◌, ◌>>=◌,
}
use net_isdn.Base64.{from_base64}
use net_isdn.Sip.Outside.{Outside, Statement, set_full_name, set_email, set_phone_number}
use net_isdn.Sip.Connection.{
  SipConnection, Server, conn, on, send_command, query, send_uid_update, clear, insert, erase,
}
use net_isdn.Sip.Reply.{
  li, pw, ca, by, cb, md, er, pg, fn, ma, ph, stop, bang, spaced, error_reply, unknown_command,
  authentication_needed,
}
use net_isdn.Sip.Session.{end_call, logout}
use net_isdn.Sip.Login.{arg, login, password, refuse}
use net_isdn.Sip.Call.{initiate_call}

-- `NETSIPD_PING_TIMEOUT` in seconds.
abbrev pub ping_timeout : ℕ
ping_timeout = 6

-- "PG!"
abbrev pub ping : Word
ping = pg ++ stop

-- `newConnection`
unfoldable pub new_connection : ℕ → ℕ → Server → Server
new_connection fd peer s = record s { connections = insert s.connections fd (clear peer s.now) }

unfoldable pub forward_to : Option ℕ → List Word → Server → Option Server
forward_to none cmd s = some s
forward_to (some dest_fd) cmd s =
    let msg = spaced cmd in send_command dest_fd (take (length msg - 1) msg ++ stop) s

unfoldable pub forward_message : ℕ → List Word → Server → Option Server
forward_message fd cmd s = do c ← conn fd s; forward_to c.connection_fd cmd s

-- The null string where the field is no Base64.
unfoldable pub decoded : Word → Word
decoded value = elim (from_base64 value) [ none ↦ [] | some text ↦ text ]

-- One of the tests of `ReceiveMetadata`; `none`: there is no third word to read.
unfoldable pub receive_field :
    Word → (Word → ℕ → Statement) → ℕ → List Word → Server → Option Server
receive_field field row fd cmd s =
    if same (arg cmd 1) field
    then (do value ← get_elem? cmd 2; c ← conn fd s; some (query (row (decoded value) c.uid) s))
    else some s

unfoldable pub receive_fields : ℕ → List Word → Server → Option Server
receive_fields fd cmd s = do
  s1 ← receive_field fn set_full_name fd cmd s
  s2 ← receive_field ma set_email fd cmd s1
  s3 ← receive_field ph set_phone_number fd cmd s2
  c ← conn fd s3
  some (send_uid_update c.uid s3)

unfoldable pub receive_metadata : ℕ → List Word → Server → Option Server
receive_metadata fd cmd s =
    if length cmd == 2 || length cmd == 3 then receive_fields fd cmd s else some s

unfoldable pub update_ping : ℕ → Server → Option Server
update_ping fd s = do _ ← conn fd s; some (on fd (λ c. record c { ping_timestamp = s.now }) s)

abbrev pub clear_line : SipConnection → SipConnection
clear_line c = record c { cmdline = [] }

module _ (env : Outside) where
  -- The commands of an authenticated connection.
  unfoldable pub member_command : ℕ → Word → List Word → Server → Option Server
  member_command fd word cmds s =
      if same word ca
      then initiate_call env fd cmds s
      else if same word by
      then end_call fd s
      else if same word cb
      then forward_message fd cmds s
      else if same word md
      then receive_metadata fd cmds s
      else if same word er
      then forward_message fd cmds s
      else if same word pg
      then update_ping fd s
      else send_command fd (error_reply env unknown_command) s

  unfoldable pub dispatch : ℕ → Bool → Word → List Word → Server → Option Server
  dispatch fd authenticated word cmds s =
      if same word li
      then login env fd cmds s
      else if same word pw
      then password env fd cmds s
      else if not authenticated
      then refuse env authentication_needed fd s
      else member_command fd word cmds s

  -- `none` also where the line has no word: `cmds[0]` is out of range.
  unfoldable pub parse_command : ℕ → Server → Option Server
  parse_command fd s = do
    c ← conn fd s
    let cmds = env.words c.cmdline
    word ← get_elem? cmds 0
    dispatch fd c.is_authenticated word cmds (on fd clear_line s)

  abbrev pub add_char : ℕ → SipConnection → SipConnection
  add_char ch c = record c { cmdline = c.cmdline ++ (ch ∷ []) }

  -- The body of the loop of `socketReady` for one character, and the loop.
  unfoldable pub receive_char : ℕ → ℕ → Server → Option Server
  receive_char fd ch s = do
    _ ← conn fd s
    if ch == bang then parse_command fd s else some (on fd (add_char ch) s)

  unfoldable pub socket_ready : ℕ → List ℕ → Server → Option Server
  socket_ready fd [] s = some s
  socket_ready fd (ch ∷ chs) s = do s1 ← receive_char fd ch s; socket_ready fd chs s1

-- The bodies of the loops of `zombieData` and `pingTimerData` for one connection.
unfoldable pub zombie_data : ℕ → Server → Option Server
zombie_data fd s = do
  c ← conn fd s
  if c.zombie then some (record s { connections = erase s.connections fd }) else some s

unfoldable pub expire : ℕ → Server → Option Server
expire fd s = do s1 ← logout fd s; some (record s1 { connections = erase s1.connections fd })

unfoldable pub ping_timer_data : ℕ → Server → Option Server
ping_timer_data fd s = do
  c ← conn fd s
  if ltb (c.ping_timestamp + ping_timeout) s.now then expire fd s else send_command fd ping s

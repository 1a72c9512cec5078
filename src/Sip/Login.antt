-- ===== src/Sip/Login.antt =====
-- `Login`, `Password`, `GetFdByUid` and `GenerateChallenge` of netsipd/netsipd.cpp, and
-- `passwordHash` of lib/controlconnect.cpp.
use net_isdn.Common.{
  ℕ, zero, suc, ◌+◌, Word, same, true, not, ◌&&◌, Option, none, some, List, [], ◌∷◌, ◌++◌, length,
  get_or, ltb, ◌==◌, if◌then◌else◌, ◌>>=◌,
}
use net_isdn.Text.Escape.{escape_string}
use net_isdn.Sip.Outside.{Outside, User, Place, set_online}
use net_isdn.Sip.Connection.{
  SipConnection, Table, Server, conn, on, send_command, query, send_uid_update,
}
use net_isdn.Sip.Reply.{
  li, ok, stop, space, error_reply, malformed, user_invalid, user_active, registration_interval,
}
use net_isdn.Sip.Session.{is_some, socket_kill}

-- `(*cmd)[i]` behind a test of the size.
abbrev pub arg : List Word → ℕ → Word
arg cmd i = get_or cmd i []

abbrev pub unknown_location : Word
unknown_location =
    b'P' ∷ b'r' ∷ b'i' ∷ b'v' ∷ b'a' ∷ b't' ∷ b'e' ∷ b'/' ∷ b'U' ∷ b'n' ∷ b'k' ∷ b'n' ∷ b'o' ∷ b'w'
    ∷ b'n' ∷ []

abbrev pub comma : Word
comma = b',' ∷ b' ' ∷ []

-- `GetFdByUid`: the first connection of a user, but for `except_fd`.
unfoldable pub get_fd_by_uid : Table → ℕ → ℕ → Option ℕ
get_fd_by_uid [] uid except_fd = none
get_fd_by_uid ((k, c) ∷ t) uid except_fd =
    if c.uid == uid && not (k == except_fd) then some k else get_fd_by_uid t uid except_fd

module _ (env : Outside) where
  -- An `ER` reply, and the connection is dropped.
  unfoldable pub refuse : ℕ → ℕ → Server → Option Server
  refuse code fd s = do s1 ← send_command fd (error_reply env code) s; socket_kill fd s1

  unfoldable pub hex_digits : List ℕ → Word
  hex_digits [] = []
  hex_digits (b ∷ bs) = env.hex2 b ++ hex_digits bs

  -- `passwordHash`; `none` where the text overruns `plaintext`.
  unfoldable pub password_hash : Word → Word → Option Word
  password_hash passwd chal =
      let text = chal ++ (b'|' ∷ passwd) in
      if ltb (length text) 2048 then some (hex_digits (env.md5 text)) else none

  -- `GenerateChallenge`: `n` times eight digits, from the given result of `rand ()` on.
  unfoldable pub generate_challenge : ℕ → ℕ → Word
  generate_challenge zero draws = []
  generate_challenge (suc n) draws = env.hex8 (env.rand draws) ++ generate_challenge n (draws + 1)

  abbrev pub identified : User → Word → Word → Word → SipConnection → SipConnection
  identified u address version hash c = record c {
    uid = u.id;
    username = u.name;
    local_address = env.parse_address address;
    client_version = version;
    hash = hash;
  }

  -- The connection takes the user's data, where there is one.
  unfoldable pub identify : ℕ → List Word → Word → Option User → Server → Option Server
  identify fd cmd chal none s = some s
  identify fd cmd chal (some u) s = do
    h ← password_hash u.password chal
    some (on fd (identified u (arg cmd 2) (arg cmd 3) h) s)

  unfoldable pub challenge : ℕ → List Word → Server → Option Server
  challenge fd cmd s = do
    let chal = generate_challenge 4 s.draws
    s1 ← send_command fd (li ++ (space ∷ chal ++ stop)) (record s { draws = s.draws + 4 })
    identify fd cmd chal (env.select_user s1.statements (arg cmd 1)) s1

  unfoldable pub login : ℕ → List Word → Server → Option Server
  login fd cmd s = if not (length cmd == 4) then refuse malformed fd s else challenge fd cmd s

  unfoldable pub location : Option Place → Word
  location none = unknown_location
  location (some p) = p.city ++ (comma ++ (p.region ++ (comma ++ p.country_code)))

  abbrev pub authenticate : SipConnection → SipConnection
  authenticate c = record c { is_authenticated = true }

  -- What `Password` does once the checks have passed.
  unfoldable pub accept : ℕ → SipConnection → Server → Option Server
  accept fd c s = do
    let row =
        set_online c.peer_address c.client_version
          (escape_string env.narrow (location (env.locate c.peer_address))) c.uid
    s1 ←
        send_command fd (ok ++ (space ∷ env.decimal registration_interval ++ stop))
          (query row (on fd authenticate s))
    some (send_uid_update c.uid s1)

  unfoldable pub check_password : ℕ → List Word → SipConnection → Server → Option Server
  check_password fd cmd c s =
      if c.uid == 0
      then refuse user_invalid fd s
      else if not (same (arg cmd 1) c.hash)
      then refuse user_invalid fd s
      else if is_some (get_fd_by_uid s.connections c.uid fd)
      then refuse user_active fd s
      else accept fd c s

  unfoldable pub password : ℕ → List Word → Server → Option Server
  password fd cmd s = do
    c ← conn fd s
    if not (length cmd == 2) then refuse malformed fd s else check_password fd cmd c s

-- ===== src/Sip/Connection.antt =====
-- netsipd/sipconnection.cpp, and the table of connections in `MainObject`.
use net_isdn.Common.{
  ℕ, Word, Bool, false, Option, none, some, List, [], ◌∷◌, ◌==◌, ltb, if◌then◌else◌, ◌>>=◌,
}
use net_isdn.Sip.Outside.{Statement}

-- The accessors of the class are the fields, its setters updates of them. -1 is `none` in `cid` and `connection_fd`; `peer_address` is the socket's.
pub record SipConnection : Type 0 where
  pub cmdline : Word
  pub peer_address : ℕ
  pub uid : ℕ
  pub cid : Option ℕ
  pub username : Word
  pub hash : Word
  pub connection_fd : Option ℕ
  pub source_port : ℕ
  pub local_address : ℕ
  pub client_version : Word
  pub zombie : Bool
  pub is_authenticated : Bool
  pub ping_timestamp : ℕ

abbrev pub initial_version : Word
initial_version = b'0' ∷ b'.' ∷ b'0' ∷ b'.' ∷ b'0' ∷ []

-- A connection as the constructor leaves it.
abbrev pub clear : ℕ → ℕ → SipConnection
clear peer now = record {
  cmdline = [];
  peer_address = peer;
  uid = 0;
  cid = none;
  username = [];
  hash = [];
  connection_fd = none;
  source_port = 0;
  local_address = 0;
  client_version = initial_version;
  zombie = false;
  is_authenticated = false;
  ping_timestamp = now;
}

-- `std::map<int,SipConnection *>`, in the order of its iterator.
abbrev pub Table : Type 0
Table = List (ℕ × SipConnection)

abbrev pub find : Table → ℕ → Option SipConnection
find [] fd = none
find ((k, c) ∷ t) fd = if k == fd then some c else find t fd

abbrev pub edit : Table → ℕ → (SipConnection → SipConnection) → Table
edit [] fd f = []
edit ((k, c) ∷ t) fd f = if k == fd then (k, f c) ∷ t else (k, c) ∷ edit t fd f

unfoldable pub insert : Table → ℕ → SipConnection → Table
insert [] fd x = (fd, x) ∷ []
insert ((k, c) ∷ t) fd x =
    if k == fd
    then (k, x) ∷ t
    else if ltb fd k
    then (fd, x) ∷ (k, c) ∷ t
    else (k, c) ∷ insert t fd x

-- A key stands in the table once.
unfoldable pub erase : Table → ℕ → Table
erase [] fd = []
erase ((k, c) ∷ t) fd = if k == fd then erase t fd else (k, c) ∷ erase t fd

-- What leaves the server: a command on a connection, and the datagrams on a changed user or call.
pub data Message : Type 0 where
  command : ℕ → Word → Message
  user_changed : ℕ → Message
  call_changed : Option ℕ → Message

-- The fields of `MainObject` that the handlers change, the messages and statements so far (latest
-- first), the number of calls of `rand ()`, and the clock in seconds.
pub record Server : Type 0 where
  pub connections : Table
  pub statements : List Statement
  pub sent : List Message
  pub draws : ℕ
  pub now : ℕ
  pub zombie_timer : Bool

-- `sip_connections[fd]->...`; `none` where there is no such connection, since the pointer is null.
abbrev pub conn : ℕ → Server → Option SipConnection
conn fd s = find s.connections fd

abbrev pub on : ℕ → (SipConnection → SipConnection) → Server → Server
on fd f s = record s { connections = edit s.connections fd f }

-- `SendCommand`
unfoldable pub send_command : ℕ → Word → Server → Option Server
send_command fd cmd s = do _ ← conn fd s; some (record s { sent = command fd cmd ∷ s.sent })

-- A `NetSqlQuery` that changes the database.
abbrev pub query : Statement → Server → Server
query q s = record s { statements = q ∷ s.statements }

-- `SendUidUpdate`, `SendCidUpdate`
abbrev pub send_uid_update : ℕ → Server → Server
send_uid_update uid s = record s { sent = user_changed uid ∷ s.sent }

abbrev pub send_cid_update : Option ℕ → Server → Server
send_cid_update cid s = record s { sent = call_changed cid ∷ s.sent }

-- ===== src/Sip/Call.antt =====
-- `InitiateCall` and `SendMetadata` of netsipd/netsipd.cpp.
use net_isdn.Common.{
  ℕ, Word, not, Option, none, some, List, [], ◌∷◌, ◌++◌, length, ◌==◌, if◌then◌else◌, ◌>>=◌,
}
use net_isdn.Base64.{to_base64}
use net_isdn.Sip.Outside.{Outside, User, Contact, CallRow, insert_call}
use net_isdn.Sip.Connection.{
  SipConnection, Table, Server, conn, on, send_command, query, send_uid_update, send_cid_update,
}
use net_isdn.Sip.Reply.{
  me, md, fn, ma, ph, lc, stop, space, spaced, error_reply, malformed, caller_unknown,
  caller_offline, caller_busy, call_proceeding,
}
use net_isdn.Sip.Session.{is_some}
use net_isdn.Sip.Login.{arg}
use net_isdn.Sip.Port.{generate_port}

-- The loop that finds the callee: the last connection of the user, with the result so far.
unfoldable pub find_callee : Table → ℕ → Option ℕ → Option ℕ
find_callee [] dest_uid dest_fd = dest_fd
find_callee ((k, c) ∷ t) dest_uid dest_fd =
    find_callee t dest_uid (if (c.uid == dest_uid) then some k else dest_fd)

abbrev pub link : ℕ → SipConnection → SipConnection
link fd c = record c { connection_fd = some fd }

abbrev pub set_port : ℕ → SipConnection → SipConnection
set_port port c = record c { source_port = port }

abbrev pub set_cid : Option ℕ → SipConnection → SipConnection
set_cid cid c = record c { cid = cid }

-- The addresses of the two sides: the local ones behind one address.
unfoldable pub call_addresses : SipConnection → SipConnection → ℕ × ℕ
call_addresses c d =
    if c.peer_address == d.peer_address
    then (c.local_address, d.local_address)
    else (c.peer_address, d.peer_address)

-- The number of the call, where the database knows it, goes to both sides.
unfoldable pub set_cids : Option ℕ → ℕ → ℕ → Server → Server
set_cids none fd dest_fd s = s
set_cids (some cid) fd dest_fd s = on dest_fd (set_cid (some cid)) (on fd (set_cid (some cid)) s)

module _ (env : Outside) where
  -- One field of `SendMetadata`.
  unfoldable pub send_field : ℕ → Word → Word → Server → Option Server
  send_field fd field value s =
      send_command fd (md ++ (space ∷ field ++ (space ∷ to_base64 value ++ stop))) s

  unfoldable pub send_contact : Option Contact → ℕ → Server → Option Server
  send_contact none fd s = some s
  send_contact (some k) fd s = do
    s1 ← send_field fd fn k.full_name s
    s2 ← send_field fd ma k.phone_number s1
    s3 ← send_field fd ph k.email s2
    send_field fd lc k.location s3

  unfoldable pub send_metadata : ℕ → ℕ → Server → Option Server
  send_metadata id fd s = send_contact (env.select_contact s.statements id) fd s

  abbrev pub number : List Word → ℕ → ℕ
  number cmd i = env.to_uint (arg cmd i)

  abbrev pub call_row : SipConnection → SipConnection → ℕ → ℕ → ℕ → List Word → CallRow
  call_row c d src_addr dest_addr now cmd = record {
    orig_uid = c.uid;
    orig_addr = src_addr;
    orig_port = c.source_port;
    dest_uid = d.uid;
    dest_addr = dest_addr;
    dest_port = d.source_port;
    start_datetime = now;
    format = number cmd 2;
    sample_rate = number cmd 3;
    channels = number cmd 4;
    bit_rate = number cmd 5;
    dest_format = number cmd 8;
    dest_sample_rate = number cmd 9;
    dest_channels = number cmd 10;
    dest_bit_rate = number cmd 11;
  }

  abbrev pub numbers : List Word → List ℕ → List Word
  numbers cmd [] = []
  numbers cmd (i ∷ is) = env.decimal (number cmd i) ∷ numbers cmd is

  -- "ME %s %u %s %u" with the ten numbers behind.
  unfoldable pub media_start : Word → ℕ → ℕ → ℕ → List Word → Word → Word
  media_start name port addr peer_port parameters last =
      spaced
        (me ∷ name ∷ env.decimal port ∷ env.show_address addr ∷ env.decimal peer_port ∷ parameters)
      ++ (last ++ stop)

  abbrev caller_parameters : List ℕ
  caller_parameters = 2 ∷ 3 ∷ 4 ∷ 5 ∷ 6 ∷ 7 ∷ 8 ∷ 9 ∷ 10 ∷ []

  abbrev pub callee_parameters : List ℕ
  callee_parameters = 8 ∷ 9 ∷ 10 ∷ 11 ∷ 12 ∷ 13 ∷ 2 ∷ 3 ∷ 4 ∷ []

  -- The messages to both sides. The last number to the caller is printed by "%d", as `Outside.decimal`
  -- has it.
  unfoldable pub announce : ℕ → ℕ → ℕ → ℕ → List Word → Server → Option Server
  announce fd dest_fd src_addr dest_addr cmd s = do
    c ← conn fd s
    d ← conn dest_fd s
    s1 ←
        send_command fd
          (media_start d.username c.source_port dest_addr d.source_port
            (numbers cmd caller_parameters) (env.decimal (number cmd 11)))
          s
    s2 ←
        send_command dest_fd
          (media_start c.username d.source_port src_addr c.source_port
            (numbers cmd callee_parameters) (env.decimal (number cmd 5)))
          s1
    s3 ← send_metadata c.uid dest_fd s2
    s4 ← send_metadata d.uid fd s3
    some (send_cid_update c.cid (send_uid_update d.uid (send_uid_update c.uid s4)))

  -- The row in CALLS and the number it got.
  unfoldable pub log_call : ℕ → ℕ → ℕ → ℕ → List Word → Server → Option Server
  log_call fd dest_fd src_addr dest_addr cmd s = do
    c ← conn fd s
    d ← conn dest_fd s
    let s1 = query (insert_call (call_row c d src_addr dest_addr s.now cmd)) s
    some (set_cids (env.select_call s1.statements c.uid) fd dest_fd s1)

  -- The ports of both sides, the second chosen with the first in place.
  unfoldable pub assign_ports : ℕ → ℕ → ℕ → ℕ → Server → Option Server
  assign_ports fd dest_fd src_addr dest_addr s = do
    port ← generate_port src_addr s.connections
    let s1 = on fd (set_port port) s
    dest_port ← generate_port dest_addr s1.connections
    some (on dest_fd (set_port dest_port) s1)

  unfoldable pub connect : ℕ → ℕ → List Word → Server → Option Server
  connect fd dest_fd cmd s = do
    s1 ← send_command fd (error_reply env call_proceeding) s
    let s2 = on dest_fd (link fd) (on fd (link dest_fd) s1)
    c ← conn fd s2
    d ← conn dest_fd s2
    let (src_addr, dest_addr) = call_addresses c d
    s3 ← assign_ports fd dest_fd src_addr dest_addr s2
    s4 ← log_call fd dest_fd src_addr dest_addr cmd s3
    announce fd dest_fd src_addr dest_addr cmd s4

  -- The callee is looked at, where it is online.
  unfoldable pub call_to : ℕ → Option ℕ → List Word → Server → Option Server
  call_to fd none cmd s = send_command fd (error_reply env caller_offline) s
  call_to fd (some dest_fd) cmd s = do
    d ← conn dest_fd s
    if is_some d.connection_fd
        then send_command fd (error_reply env caller_busy) s
        else connect fd dest_fd cmd s

  unfoldable pub call_user : ℕ → Option User → List Word → Server → Option Server
  call_user fd none cmd s = send_command fd (error_reply env caller_unknown) s
  call_user fd (some u) cmd s = call_to fd (find_callee s.connections u.id none) cmd s

  unfoldable pub initiate_call : ℕ → List Word → Server → Option Server
  initiate_call fd cmd s =
      if not (length cmd == 14)
      then send_command fd (error_reply env malformed) s
      else call_user fd (env.select_user s.statements (arg cmd 1)) cmd s

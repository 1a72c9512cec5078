-- ===== src/Sip/Session.antt =====
-- `EndCall`, `Logout` and `socketKill` of netsipd/netsipd.cpp.
use net_isdn.Common.{
  ℕ, Bool, true, false, not, ◌||◌, Option, none, some, [], ◌++◌, ◌==◌, if◌then◌else◌, ◌>>=◌,
}
use net_isdn.Sip.Outside.{set_offline, end_call_row}
use net_isdn.Sip.Connection.{
  SipConnection, Server, conn, on, send_command, query, send_uid_update, send_cid_update,
}
use net_isdn.Sip.Reply.{ms, stop}

abbrev pub is_some : Option ℕ → Bool
is_some none = false
is_some (some _) = true

-- `setConnectionFd(-1)`
abbrev pub unlink : SipConnection → SipConnection
unlink c = record c { connection_fd = none }

-- `setConnectionFd(-1); setCid(-1); setSourcePort(0)`
abbrev pub idle : SipConnection → SipConnection
idle c = record c { connection_fd = none; cid = none; source_port = 0 }

-- The part of `EndCall` for the other side: its user, 0 where there is none.
unfoldable pub hang_up : Option ℕ → Server → Option (ℕ × Server)
hang_up none s = some (0, s)
hang_up (some dest_fd) s = do
  d ← conn dest_fd s
  s' ← send_command dest_fd (ms ++ stop) s
  some (d.uid, on dest_fd idle s')

unfoldable pub end_call : ℕ → Server → Option Server
end_call fd s = do
  c ← conn fd s
  (dest_uid, s1) ← hang_up c.connection_fd s
  c1 ← conn fd s1
  s2 ← send_command fd (ms ++ stop) (query (end_call_row c1.cid) s1)
  some (send_cid_update c1.cid (send_uid_update dest_uid (send_uid_update c.uid (on fd idle s2))))

-- The other side of a connection loses its link.
unfoldable pub release : Option ℕ → Server → Option Server
release none s = some s
release (some dest_fd) s = do _ ← conn dest_fd s; some (on dest_fd unlink s)

-- `setUid(0); setUsername(""); setHash(""); setLocalAddress(QHostAddress())`
abbrev pub forget_user : SipConnection → SipConnection
forget_user c = record c { uid = 0; username = []; hash = []; local_address = 0 }

unfoldable pub drop_call : Option ℕ → ℕ → Server → Option Server
drop_call none fd s = some s
drop_call (some _) fd s = end_call fd s

unfoldable pub leave : ℕ → Server → Option Server
leave fd s = do
  c ← conn fd s
  s1 ← drop_call c.cid fd s
  c1 ← conn fd s1
  s2 ← release c1.connection_fd s1
  c2 ← conn fd s2
  some (send_uid_update c2.uid (on fd forget_user (query (set_offline c2.uid) (on fd unlink s2))))

unfoldable pub logout : ℕ → Server → Option Server
logout fd s = do c ← conn fd s; if not c.is_authenticated || c.uid == 0 then some s else leave fd s

abbrev pub mark_zombie : SipConnection → SipConnection
mark_zombie c = record c { zombie = true }

unfoldable pub kill : ℕ → Server → Option Server
kill fd s = do s1 ← logout fd s; some (record (on fd mark_zombie s1) { zombie_timer = true })

unfoldable pub socket_kill : ℕ → Server → Option Server
socket_kill fd s = do c ← conn fd s; if c.zombie then some s else kill fd s

-- ===== src/Sip/Input.antt =====
-- Runs of netsipd: the slots that Qt calls, one after the other.
use net_isdn.Common.{ℕ, Word, false, Option, some, List, [], ◌∷◌, ◌>>=◌}
use net_isdn.Sip.Outside.{Outside}
use net_isdn.Sip.Connection.{Server}
use net_isdn.Sip.Session.{socket_kill}
use net_isdn.Sip.Command.{new_connection, socket_ready, zombie_data, ping_timer_data}

pub data Input : Type 0 where
  accepted : ℕ → ℕ → Input
  arrived : ℕ → Word → Input
  closed : ℕ → Input
  reaped : ℕ → Input
  pinged : ℕ → Input
  clock : ℕ → Input

-- A server with no connection.
abbrev pub started : ℕ → Server
started now = record {
  connections = [];
  statements = [];
  sent = [];
  draws = 0;
  now = now;
  zombie_timer = false;
}

module _ (env : Outside) where
  unfoldable pub handle : Input → Server → Option Server
  handle (accepted fd peer) s = some (new_connection fd peer s)
  handle (arrived fd chs) s = socket_ready env fd chs s
  handle (closed fd) s = socket_kill fd s
  handle (reaped fd) s = zombie_data fd s
  handle (pinged fd) s = ping_timer_data fd s
  handle (clock time) s = some (record s { now = time })

  unfoldable pub run : List Input → Server → Option Server
  run [] s = some s
  run (i ∷ is) s = do s1 ← handle i s; run is s1

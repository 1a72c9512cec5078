-- ===== src/Sip/Runs/Inputs.antt =====
-- Every run of inputs that the clients keep to the protocol in is handled, and leaves links mutual.
use net_isdn.Common.{ℕ, Word, ◌≡◌, none, some, none≢some, List, [], ◌∷◌}
use net_isdn.Sip.Outside.{Outside}
use net_isdn.Sip.Connection.{Server, find}
use net_isdn.Sip.Reply.{bang}
use net_isdn.Sip.Command.{new_connection, receive_char, socket_ready}
use net_isdn.Sip.Input.{
  Input, accepted, arrived, closed, reaped, pinged, clock, handle, run, started,
}
use net_isdn.Sip.Sound.{IsSound, Has}
use net_isdn.Sip.Links.{IsSound-insert}
use net_isdn.Sip.Runs.Returns.{Returns, Returns-bind, Returns-some, Returns-known}
use net_isdn.Sip.Runs.Session.{Sound, socket_kill-Returns}
use net_isdn.Sip.Runs.Login.{IsDatabase}
use net_isdn.Sip.Runs.Command.{
  IsLine, receive_char-Returns, zombie_data-Returns, ping_timer_data-Returns,
}

module _ (env : Outside) where
  -- A character comes on a connection that is there, and "!" behind a proper command.
  abbrev IsChar : ℕ → ℕ → Server → Type 0
  IsChar fd ch s = Has s.connections fd (λ c. ch ≡ bang → IsLine env fd c.cmdline s)

  abbrev IsText : ℕ → Word → Server → Type 0
  IsText fd [] s = Unit
  IsText fd (ch ∷ chs) s =
      IsChar fd ch s × ((s' : Server) → receive_char env fd ch s ≡ some s' → IsText fd chs s')

  abbrev IsInput : Input → Server → Type 0
  IsInput (accepted fd peer) s = find s.connections fd ≡ none
  IsInput (arrived fd chs) s = IsText fd chs s
  IsInput (closed fd) s = Has s.connections fd (λ _. Unit)
  IsInput (reaped fd) s = Has s.connections fd (λ _. Unit)
  IsInput (pinged fd) s = Has s.connections fd (λ _. Unit)
  IsInput (clock time) s = Unit

  -- Each input is proper in the state that it comes in.
  abbrev pub IsConducted : List Input → Server → Type 0
  IsConducted [] s = Unit
  IsConducted (i ∷ is) s =
      IsInput i s × ((s' : Server) → handle env i s ≡ some s' → IsConducted is s')

  socket_ready-Returns :
      (fd : ℕ) (chs : Word) (s : Server)
      → IsDatabase env
      → IsText fd chs s
      → IsSound s.connections
      → Returns (socket_ready env fd chs s) Sound
  unfolding socket_ready
  socket_ready-Returns fd [] s db text sound = Returns-some _ sound
  socket_ready-Returns fd (ch ∷ chs) s db (char, rest) sound =
      let r = receive_char-Returns env fd ch s char.it db char.holds sound char.found in
      Returns-bind (Returns-known r)
        λ s1 (e, sound1). socket_ready-Returns fd chs s1 db (rest s1 e) sound1

  handle-Returns :
      (i : Input) (s : Server)
      → IsDatabase env
      → IsInput i s
      → IsSound s.connections
      → Returns (handle env i s) Sound
  unfolding handle new_connection
  handle-Returns (accepted fd peer) s db h sound =
      Returns-some _ (IsSound-insert s.connections fd peer s.now sound h)
  handle-Returns (arrived fd chs) s db h sound = socket_ready-Returns fd chs s db h sound
  handle-Returns (closed fd) s db h sound = socket_kill-Returns fd s h.it sound h.found
  handle-Returns (reaped fd) s db h sound = zombie_data-Returns fd s h.it sound h.found
  handle-Returns (pinged fd) s db h sound = ping_timer_data-Returns fd s h.it sound h.found
  handle-Returns (clock time) s db h sound = Returns-some _ sound

  -- From a sound table, with user numbers that are not 0 and passwords of at most 64 characters, each
  -- run of inputs that are proper when they come (an input names a connection that is there, a new one
  -- is not; a command line has a word; "MD" does not come with two words; "CA" comes from a connection
  -- that is online and in no call, to one that, if in no call, is online, with fewer than 30266
  -- connections) is handled to its end, with no null connection, no read out of range and no endless
  -- search for a port, and leaves a sound table: links are mutual, and a linked connection is online.
  pub run-Returns :
      (is : List Input) (s : Server)
      → IsDatabase env
      → IsConducted is s
      → IsSound s.connections
      → Returns (run env is s) (λ s'. IsSound s'.connections)
  unfolding run
  run-Returns [] s db h sound = Returns-some _ sound
  run-Returns (i ∷ is) s db (h, rest) sound =
      Returns-bind (Returns-known (handle-Returns i s db h sound))
        λ s1 (e, sound1). run-Returns is s1 db (rest s1 e) sound1

-- The table of a server that has just started is sound.
pub started-IsSound : (now : ℕ) → IsSound (started now).connections
started-IsSound now = record {
  paired = λ a b c h. absurd (none≢some h);
  local = λ a c h. absurd (none≢some h);
}

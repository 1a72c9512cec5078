-- ===== src/Codec/Call.antt =====
-- The connection state of lib/codec.cpp, and what a call holds while it lasts.
pub mod Whole
use net_isdn.Common.{
  ℕ, Bool, true, false, not, ◌&&◌, ◌||◌, ◌==◌, Option, none, some, List, [], ◌∷◌, ◌++◌,
  if◌then◌else◌, ◌>>=◌,
}

-- `ConnectionState`
pub data ConnectionState : Type 0 where
  idle connecting connected : ConnectionState

-- `AudioSettings::Format`
pub data Format : Type 0 where
  no_format layer3 vorbis speex : Format

-- The members that a call acquires: `true` for a pointer that is set, or a stream or an encoder
-- that is open. `header` is `codec_transmit_header`, `meters` are the averages of the meters with
-- their timer, and `format` is that of `codec_settings` for the transmit direction.
pub record Call : Type 0 where
  pub state : ConnectionState
  pub format : Format
  pub encoder : Bool
  pub header : Bool
  pub decoder : Bool
  pub sockets : Bool
  pub destination : Bool
  pub audio : Bool
  pub meters : Bool
  pub locked : Bool
  pub lock_state : Bool
  pub loopback : Bool

-- Signals, the packets sent and the timer set.
pub data Event : Type 0 where
  connection_state_changed : ConnectionState → Event
  is_locked : Bool → Event
  looped_back : Bool → Event
  levels_cleared : Event
  bye_sent : Event
  timeout_stopped : Event
  timeout_started : Event

-- The constructor, which leaves `codec_transmit_header` unset: that is taken as null.
abbrev pub new_call : Call
new_call = record {
  state = idle;
  format = no_format;
  encoder = false;
  header = false;
  decoder = false;
  sockets = false;
  destination = false;
  audio = false;
  meters = false;
  locked = false;
  lock_state = false;
  loopback = false;
}

-- `SetConnectionState`
abbrev pub set_connection_state : ConnectionState → Call → Call × List Event
set_connection_state state c = (record c { state = state }, connection_state_changed state ∷ [])

-- What `connectToHost` meets: the transmit format and the sample rate of the settings, whether both
-- sockets can be bound, whether the address is not null, and whether the audio streams can be opened.
pub record Attempt : Type 0 where
  pub format : Format
  pub sample_rate : ℕ
  pub bound : Bool
  pub addressed : Bool
  pub opened : Bool

abbrev pub free_coders : Call → Call
free_coders c = record c { encoder = false; decoder = false }

abbrev pub free_sockets : Call → Call
free_sockets c = record c { sockets = false }

-- Back to the idle state, behind the signal of the connecting state.
abbrev pub give_up : Call → Call × List Event
give_up c = (
  record c { state = idle },
  connection_state_changed connecting ∷ connection_state_changed idle ∷ [],
)

abbrev pub is_idle : ConnectionState → Bool
is_idle idle = true
is_idle connecting = false
is_idle connected = false

-- Whether the switch of `InitEncoder` sets `codec_transmit_header`.
unfoldable pub sets_header : Format → ℕ → Bool
sets_header no_format rate = false
sets_header layer3 rate = true
sets_header vorbis rate = true
sets_header speex rate = rate == 8000 || (rate == 16000 || rate == 32000)

-- Whether the format has an encoder to open and to free.
abbrev pub has_encoder : Format → Bool
has_encoder no_format = false
has_encoder layer3 = true
has_encoder vorbis = true
has_encoder speex = true

-- `InitEncoder`, which uses `codec_transmit_header` behind its switch; `none`: it is null. A header
-- that an attempt before has left is used again.
unfoldable pub init_encoder : Format → ℕ → Call → Option Call
init_encoder format rate c =
    if sets_header format rate || c.header
    then some (record c { format = format; encoder = has_encoder format; header = true })
    else none

-- `connectToHost` from `InitDecoder` on; the address that was set stays when the audio streams cannot
-- be opened, and the header stays after every attempt.
unfoldable pub open_streams : Attempt → Call → Call × List Event
open_streams a c =
    let c₁ = record c { decoder = true } in
    let c₂ = record c₁ { sockets = true } in
    let c₃ = record c₂ { destination = true } in
    if not a.bound
    then give_up (free_coders c₁)
    else if not a.addressed
    then give_up (free_coders (free_sockets (record c₂ { destination = false })))
    else if not a.opened
    then give_up (free_coders (free_sockets c₃))
    else (record c₃ { audio = true; meters = true }, connection_state_changed connecting ∷ [])

-- `connectToHost`; `none`: a null pointer is used.
unfoldable pub connect_to_host : Attempt → Call → Option (Call × List Event)
connect_to_host a c =
    if not (is_idle c.state)
    then some (c, [])
    else (init_encoder a.format a.sample_rate (record c { state = connecting }) >>= λ c₁.
        some (open_streams a c₁))

-- `StopMeters`
abbrev pub stop_meters : Call → Call
stop_meters c = record c { meters = false; locked = false; lock_state = false }

-- `disconnect`; `none`: a null pointer is used or freed. The decoder is not freed.
unfoldable pub disconnect : Call → Option (Call × List Event)
disconnect c =
    if is_idle c.state
    then some (c, [])
    else if c.meters
        && c.audio
        && c.sockets
        && c.destination
        && c.header
        && (c.encoder || not (has_encoder c.format))
    then some (
      record (stop_meters c) {
        state = idle;
        audio = false;
        sockets = false;
        encoder = false;
        header = false;
      },
      is_locked false ∷ levels_cleared ∷ bye_sent ∷ connection_state_changed idle ∷ [],
    )
    else none

-- `setLoopback`
unfoldable pub set_loopback : Bool → Call → Call × List Event
set_loopback true c =
    if c.loopback then (c, []) else (record c { loopback = true }, looped_back true ∷ [])
set_loopback false c =
    if c.loopback then (record c { loopback = false }, looped_back false ∷ []) else (c, [])

-- The lock as `meterData` follows it.
abbrev pub lock_change : ConnectionState → Bool
lock_change idle = false
lock_change connecting = true
lock_change connected = false

unfoldable pub follow_lock : Call → Call × List Event
follow_lock c =
    if c.locked
    then (if c.lock_state
        then (c, [])
        else if lock_change c.state
        then (
          record c { state = connected; lock_state = true },
          connection_state_changed connected ∷ timeout_stopped ∷ is_locked true ∷ [],
        )
        else (record c { lock_state = true }, timeout_stopped ∷ is_locked true ∷ []))
    else if c.lock_state
    then (record c { lock_state = false }, timeout_started ∷ is_locked false ∷ [])
    else (c, [])

-- `meterData`, which the timer of the meters calls while it runs; `none`: the averages are not there.
unfoldable pub meter_data : Call → Option (Call × List Event)
meter_data c = if c.meters then some (follow_lock c) else none

-- `codec_locked` as the audio thread sets it, while the streams are open.
abbrev pub set_locked : Bool → Call → Call
set_locked locked c = if c.audio then record c { locked = locked } else c

-- What happens to a codec: the calls of its slots, the timers and the audio thread. A timer of the
-- meters that does not run does not call.
pub data Input : Type 0 where
  connecting_to : Attempt → Input
  disconnecting : Input
  looping : Bool → Input
  metering : Input
  timing_out : Input
  playing : Bool → Input

unfoldable pub step : Call → Input → Option (Call × List Event)
step c (connecting_to a) = connect_to_host a c
step c disconnecting = disconnect c
step c (looping on) = some (set_loopback on c)
step c metering = if c.meters then meter_data c else some (c, [])
step c timing_out = disconnect c
step c (playing on) = some (set_locked on c, [])

unfoldable pub run : Call → List Input → Option (Call × List Event)
run c [] = some (c, [])
run c (i ∷ is) = do (c₁, first) ← step c i; (c₂, rest) ← run c₁ is; some (c₂, first ++ rest)

-- ===== src/Codec/Call/Whole.antt =====
-- A call holds everything it needs, or nothing.
use net_isdn.Common.{◌≡◌, refl, true, false, not, Option, some, List, [], ◌∷◌}
use net_isdn.Codec.Call.{
  sets_header, Call, Event, Attempt, Input, is_idle, new_call, connecting_to, disconnecting,
  looping, metering, timing_out, playing,
}

-- The members as the state has them: held unless the codec is idle, when it is not locked either.
pub record IsWhole (c : Call) : Type 0 where
  pub encoder : c.encoder ≡ not (is_idle c.state)
  pub header : not (is_idle c.state) ≡ true → c.header ≡ true
  pub sockets : c.sockets ≡ not (is_idle c.state)
  pub audio : c.audio ≡ not (is_idle c.state)
  pub meters : c.meters ≡ not (is_idle c.state)
  pub destination : not (is_idle c.state) ≡ true → c.destination ≡ true
  pub unlocked : is_idle c.state ≡ true → (c.locked ≡ false) × (c.lock_state ≡ false)

pub new_call-IsWhole : IsWhole new_call
new_call-IsWhole = record {
  encoder = refl;
  header = λ e. cc;
  sockets = refl;
  audio = refl;
  meters = refl;
  destination = λ e. cc;
  unlocked = λ e. (refl, refl);
}

-- A step that goes through and leaves the codec whole.
abbrev Goes : Option (Call × List Event) → Type 0
Goes o = (c : Call) × (out : List Event) × (o ≡ some (c, out)) × IsWhole c

-- Every attempt of the inputs asks for a format and a rate that set the header of the packets sent.
abbrev pub HasFormat : Attempt → Type 0
HasFormat a = sets_header a.format a.sample_rate ≡ true

abbrev pub AllHaveFormats : List Input → Type 0
AllHaveFormats [] = Unit
AllHaveFormats (connecting_to a ∷ is) = HasFormat a × AllHaveFormats is
AllHaveFormats (disconnecting ∷ is) = AllHaveFormats is
AllHaveFormats (looping on ∷ is) = AllHaveFormats is
AllHaveFormats (metering ∷ is) = AllHaveFormats is
AllHaveFormats (timing_out ∷ is) = AllHaveFormats is
AllHaveFormats (playing on ∷ is) = AllHaveFormats is

-- What `open_streams` finds: an open encoder and its header, and nothing else.
record IsReady (c : Call) : Type 0 where
  encoder : c.encoder ≡ true
  header : c.header ≡ true
  state : is_idle c.state ≡ false
  sockets : c.sockets ≡ false
  audio : c.audio ≡ false
  meters : c.meters ≡ false
  unlocked : (c.locked ≡ false) × (c.lock_state ≡ false)

-- A codec that is idle and holds nothing.
pub record IsFree (c : Call) : Type 0 where
  pub state : is_idle c.state ≡ true
  pub sockets : c.sockets ≡ false
  pub audio : c.audio ≡ false
  pub encoder : c.encoder ≡ false
  pub meters : c.meters ≡ false

-- ===== src/Client/Tests.antt =====
-- The client at concrete messages.
use net_isdn.Common.{
  ℕ, ◌+◌, ◌-◌, ◌≡◌, refl, Bool, true, false, not, ◌&&◌, Option, some, [], ◌∷◌, get_or, Word, ◌==◌,
  ◌>>=◌, same, arith,
}
use net_isdn.Sip.Outside.{Outside}
use net_isdn.Sip.Reply.{bang}
use net_isdn.Sip.World.{world, split}
use net_isdn.Sip.Call.{media_start, callee_parameters, number, numbers}
use net_isdn.Client.Settings.{AudioSettings, Stream, cleared_settings, speex, auto_vector}
use net_isdn.Client.Connect.{
  Client, media_start_received, sent, take_command, take_bytes, ready_read_data,
}
use net_isdn.Client.Framing.{NoBang, take_commands, ready_read_data-commands}
use net_isdn.Client.Calls.{
  ReadsBack, IsSettings, callee_settings, start_text, call_command, take_bytes-media_start,
}

-- Numbers and addresses as one character each.
abbrev text_of : ℕ → Word
text_of n = (n + 1000) ∷ []

abbrev number_in : Word → ℕ
number_in w = get_or w 0 0 - 1000

abbrev office : Outside
office = record world {
  decimal = text_of;
  to_uint = number_in;
  show_address = text_of;
  parse_address = number_in;
}

abbrev to_int : Word → Option ℕ
to_int w = some (number_in w)

office-ReadsBack : ReadsBack office to_int
office-ReadsBack = record {
  unsigned = λ n h. omega arith;
  integer = λ n h. let same : n + 1000 - 1000 ≡ n = omega arith in rw same refl;
  address = λ a h. omega arith;
}

abbrev mono : Stream
mono = record {
  format = speex;
  channels = 1;
  bit_rate = 24000;
  enable_processor = true;
  stream_ratio = 1;
}

abbrev wanted : AudioSettings
wanted = record cleared_settings {
  transmit_stream = mono;
  receive_stream = record mono { channels = 2; enable_processor = false };
  sample_rate = 32000;
}

wanted-IsSettings : IsSettings wanted
wanted-IsSettings = record {
  transmit_stream = record {
    format = omega arith;
    channels = omega arith;
    bit_rate = omega arith;
    stream_ratio = omega arith;
  };
  receive_stream = record {
    format = omega arith;
    channels = omega arith;
    bit_rate = omega arith;
    stream_ratio = omega arith;
  };
  sample_rate = omega arith;
}

abbrev quiet : Word → Bool
quiet [] = true
quiet (b ∷ bs) = not (b == bang) && quiet bs

both : (a b : Bool) → a && b ≡ true → (a ≡ true) × (b ≡ true)
both true true h = (refl, refl)
both true false h = absurd (ground arith)
both false b h = absurd (ground arith)

quiet-NoBang : (w : Word) → quiet w ≡ true → NoBang w
quiet-NoBang [] h = tt
quiet-NoBang (b ∷ bs) h =
    let (first, rest) = both (not (b == bang)) (quiet bs) h in
    ((λ e. absurd (ground (arith, first, e))), quiet-NoBang bs rest)

abbrev idle : Client
idle = record {
  username = b'b' ∷ [];
  password = b'y' ∷ [];
  hostname = b'h' ∷ [];
  tcp_port = 5858;
  connected_once = true;
  cmdline = [];
}

-- "PG!PG!L" in three blocks.
ready_read_data-commands_example :
    ready_read_data office
      (split [])
      to_int
      []
      []
      true
      idle
      ((80 ∷ []) ∷ (71 ∷ 33 ∷ 80 ∷ 71 ∷ []) ∷ (33 ∷ 76 ∷ []) ∷ [])
    ≡ (take_commands office (split []) to_int [] [] true idle ((80 ∷ 71 ∷ []) ∷ (80 ∷ 71 ∷ []) ∷ [])
        >>= λ outs. some (record idle { cmdline = 76 ∷ [] }, outs))
ready_read_data-commands_example =
    ready_read_data-commands office (split []) to_int [] [] true idle
      ((80 ∷ []) ∷ (71 ∷ 33 ∷ 80 ∷ 71 ∷ []) ∷ (33 ∷ 76 ∷ []) ∷ [])
      ((80 ∷ 71 ∷ []) ∷ (80 ∷ 71 ∷ []) ∷ []) (76 ∷ []) refl
      (quiet-NoBang (80 ∷ 71 ∷ []) refl, (quiet-NoBang (80 ∷ 71 ∷ []) refl, tt))
      (quiet-NoBang (76 ∷ []) refl) refl

-- Both commands are answered.
two_pings :
    take_commands office (split []) to_int [] [] true idle ((80 ∷ 71 ∷ []) ∷ (80 ∷ 71 ∷ []) ∷ [])
    ≡ some (sent (b'P' ∷ b'G' ∷ b'!' ∷ []) ∷ sent (b'P' ∷ b'G' ∷ b'!' ∷ []) ∷ [])
unfolding take_command split same
two_pings = refl

take_bytes-media_start_example :
    take_bytes office (split []) to_int [] [] true idle (
      media_start office
        (b'a' ∷ [])
        30000
        7
        30002
        (numbers office
          (call_command office (split []) to_int [] [] office-ReadsBack (b'b' ∷ []) wanted)
          (callee_parameters office))
        (text_of (
          number office
            (call_command office (split []) to_int [] [] office-ReadsBack (b'b' ∷ []) wanted)
            5)))
    ≡ some (idle, media_start_received 30000 7 30002 (callee_settings wanted (b'a' ∷ [])) ∷ [])
unfolding split auto_vector
take_bytes-media_start_example =
    take_bytes-media_start office (split []) to_int [] [] office-ReadsBack idle (b'b' ∷ [])
      (b'a' ∷ []) 30000 7 30002 wanted wanted-IsSettings (omega arith) (omega arith) (omega arith)
      (omega arith) refl
      (quiet-NoBang
        (start_text office (split []) to_int [] [] office-ReadsBack (b'a' ∷ []) 30000 7 30002
          wanted)
        refl)
      refl

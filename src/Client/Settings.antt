-- ===== src/Client/Settings.antt =====
-- lib/audiosettings.cpp: the settings of a call, for its two directions.
use net_isdn.Common.{ℕ, Bool, true, false, ◌&&◌, [], Word, ◌==◌, if◌then◌else◌}

pub data Direction : Type 0 where
  transmit receive : Direction

-- `Format`: NoFormat, Layer3, Vorbis, Speex.
abbrev pub no_format : ℕ
no_format = 0

abbrev pub layer3 : ℕ
layer3 = 3

abbrev pub vorbis : ℕ
vorbis = 4

abbrev pub speex : ℕ
speex = 5

-- The elements of the arrays of the class for one direction.
pub record Stream : Type 0 where
  pub format : ℕ
  pub channels : ℕ
  pub bit_rate : ℕ
  pub enable_processor : Bool
  pub stream_ratio : ℕ

-- The accessors of the class that have no direction are the fields, its setters updates of them. The
-- commands, addresses and ports of the signal lines are functions of the line and its state, with 0
-- for the null address.
pub record AudioSettings : Type 0 where
  pub transmit_stream : Stream
  pub receive_stream : Stream
  pub sample_rate : ℕ
  pub username : Word
  pub password : Word
  pub rml_port : ℕ
  pub input_gain : ℕ
  pub use_realtime : Bool
  pub gpio_command : ℕ → ℕ → Word
  pub gpio_address : ℕ → ℕ → ℕ
  pub gpio_port : ℕ → ℕ → ℕ

-- `clear`, and the constructor.
abbrev pub cleared_stream : Stream
cleared_stream = record {
  format = speex;
  channels = 0;
  bit_rate = 0;
  enable_processor = false;
  stream_ratio = 1;
}

abbrev pub cleared_settings : AudioSettings
cleared_settings = record {
  transmit_stream = cleared_stream;
  receive_stream = cleared_stream;
  sample_rate = 0;
  username = [];
  password = [];
  rml_port = 5859;
  input_gain = 0;
  use_realtime = true;
  gpio_command = λ i j. [];
  gpio_address = λ i j. 0;
  gpio_port = λ i j. 5859;
}

abbrev pub stream : AudioSettings → Direction → Stream
stream s transmit = s.transmit_stream
stream s receive = s.receive_stream

-- The direction whose settings stand for those of `dir`: a side that receives no format takes the
-- settings of the other.
unfoldable pub auto_vector : AudioSettings → Direction → Bool → Direction
auto_vector s dir trans = if trans && s.receive_stream.format == no_format then transmit else dir

-- The accessors that have a direction.
abbrev pub format : AudioSettings → Direction → Bool → ℕ
format s dir trans = (stream s (auto_vector s dir trans)).format

abbrev pub channels : AudioSettings → Direction → Bool → ℕ
channels s dir trans = (stream s (auto_vector s dir trans)).channels

abbrev pub bit_rate : AudioSettings → Direction → Bool → ℕ
bit_rate s dir trans = (stream s (auto_vector s dir trans)).bit_rate

abbrev pub enable_processor : AudioSettings → Direction → Bool → Bool
enable_processor s dir trans = (stream s (auto_vector s dir trans)).enable_processor

abbrev pub stream_ratio : AudioSettings → Direction → Bool → ℕ
stream_ratio s dir trans = (stream s (auto_vector s dir trans)).stream_ratio

-- Their setters, as an update of the direction.
abbrev pub set_stream : AudioSettings → Direction → (Stream → Stream) → AudioSettings
set_stream s transmit change = record s { transmit_stream = change s.transmit_stream }
set_stream s receive change = record s { receive_stream = change s.receive_stream }

abbrev pub set_format : AudioSettings → Direction → ℕ → AudioSettings
set_format s dir f = set_stream s dir (λ t. record t { format = f })

abbrev pub set_channels : AudioSettings → Direction → ℕ → AudioSettings
set_channels s dir n = set_stream s dir (λ t. record t { channels = n })

abbrev pub set_bit_rate : AudioSettings → Direction → ℕ → AudioSettings
set_bit_rate s dir n = set_stream s dir (λ t. record t { bit_rate = n })

abbrev pub set_enable_processor : AudioSettings → Direction → Bool → AudioSettings
set_enable_processor s dir state = set_stream s dir (λ t. record t { enable_processor = state })

abbrev pub set_stream_ratio : AudioSettings → Direction → ℕ → AudioSettings
set_stream_ratio s dir n = set_stream s dir (λ t. record t { stream_ratio = n })

-- The setters of one signal line and state.
abbrev pub at_line {ℓ} : {A : Type ℓ} → (ℕ → ℕ → A) → ℕ → ℕ → A → ℕ → ℕ → A
at_line f chan state value i j = if i == chan then (if j == state then value else f i j) else f i j

abbrev pub set_gpio_command : AudioSettings → ℕ → ℕ → Word → AudioSettings
set_gpio_command s chan state text = record s {
  gpio_command = at_line s.gpio_command chan state text;
}

abbrev pub set_gpio_address : AudioSettings → ℕ → ℕ → ℕ → AudioSettings
set_gpio_address s chan state addr = record s {
  gpio_address = at_line s.gpio_address chan state addr;
}

abbrev pub set_gpio_port : AudioSettings → ℕ → ℕ → ℕ → AudioSettings
set_gpio_port s chan state port = record s { gpio_port = at_line s.gpio_port chan state port }

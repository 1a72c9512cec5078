-- ===== src/Client/Connect.antt =====
-- lib/controlconnect.cpp: what the client sends to the directory server and takes from it.
use net_isdn.Common.{
  ℕ, ◌*◌, ◌%◌, ◌^◌, Bool, true, not, ◌&&◌, Option, none, some, List, [], ◌∷◌, ◌++◌, Word, same,
  ◌==◌, if◌then◌else◌, ◌>>=◌, bit,
}
use net_isdn.Base64.{to_base64, from_base64}
use net_isdn.Rtp.Header.{flag}
use net_isdn.Sip.Outside.{Outside}
use net_isdn.Sip.Login.{password_hash}
use net_isdn.Sip.Reply.{
  bang, space, stop, li, pw, ca, by, cb, md, er, pg, ok, me, ms, fn, ma, ph, lc, malformed,
  error_reply,
}
use net_isdn.Client.Settings.{
  AudioSettings, transmit, receive, layer3, cleared_settings, format, channels, bit_rate,
  enable_processor, stream_ratio, set_format, set_channels, set_bit_rate, set_enable_processor,
  set_stream_ratio,
}

-- `MetadataField`
pub data MetadataField : Type 0 where
  metadata_name metadata_email metadata_phone metadata_location : MetadataField

-- The signals of the class, what it writes to its socket, and the timers that it sets.
pub data Output : Type 0 where
  sent : Word → Output
  response_received : ℕ → Output
  media_start_received : ℕ → ℕ → ℕ → AudioSettings → Output
  media_stop_received : Output
  codebook_received : Word → Word → Word → Output
  metadata_received : MetadataField → Word → Output
  network_error_received : ℕ → Output
  open_socket : Word → ℕ → Output
  reauthenticate_in : ℕ → Output
  stop_reauthenticate : Output
  reconnect_in : ℕ → Output

-- The `conn_…` members.
pub record Client : Type 0 where
  pub username : Word
  pub password : Word
  pub hostname : Word
  pub tcp_port : ℕ
  pub connected_once : Bool
  pub cmdline : Word

-- Outputs in front of those of a later step.
abbrev pub after : List Output → Option (Client × List Output) → Option (Client × List Output)
after first none = none
after first (some (c, rest)) = some (c, first ++ rest)

abbrev pub login_ok : ℕ
login_ok = 0

abbrev pub format_unsupported : ℕ
format_unsupported = 14

-- `words` is `QStringList::split (" ", …)`, `to_int` is `toInt (&ok)`, as a number of 32 bits, and
-- `own_address` the address of the socket; `tag` is "linux-" or "windows-" with the version, and
-- `has_l3` tells whether the program is built with MPEG layer 3.
module _ (env : Outside) (words : Word → List Word) (to_int : Word → Option ℕ)
    (own_address tag : Word) (has_l3 : Bool) where
  -- `connectedData`
  unfoldable pub connected_data : Client → Client × List Output
  connected_data c = (
    record c { connected_once = true },
    sent (
          li
          ++ (space ∷ (c.username ++ (space ∷ (own_address ++ (space ∷ space ∷ (tag ++ stop)))))))
        ∷ [],
  )

  -- `connectToHost`, where `connected` tells the state of the socket, and `reconnectData`.
  unfoldable pub connect_to_host : Bool → Client → Word → Word → Word → ℕ → Client × List Output
  connect_to_host connected c username passwd hostname tcp_port =
      let c₁ = record c {
        username = username;
        password = passwd;
        hostname = hostname;
        tcp_port = tcp_port;
      } in
      if connected then connected_data c₁ else (c₁, open_socket hostname tcp_port ∷ [])

  unfoldable pub reconnect_data : Bool → Client → Client × List Output
  reconnect_data connected c =
      connect_to_host connected c c.username c.password c.hostname c.tcp_port

  -- `connectionClosedData`, where `active` tells whether the timer runs, and `errorData`.
  abbrev pub connection_closed_data : Bool → List Output
  connection_closed_data active =
      (if active then stop_reauthenticate ∷ [] else []) ++ (reconnect_in 10000 ∷ [])

  unfoldable pub error_data : Bool → Client → ℕ → List Output
  error_data active c err =
      if c.connected_once then connection_closed_data active else network_error_received err ∷ []

  -- `initiateCall`
  unfoldable pub call_words : AudioSettings → List Word
  call_words s =
      env.decimal (format s transmit true)
      ∷ env.decimal s.sample_rate
      ∷ env.decimal (channels s transmit true)
      ∷ env.decimal (bit_rate s transmit true)
      ∷ env.decimal (bit (enable_processor s transmit true))
      ∷ env.decimal (stream_ratio s transmit true)
      ∷ env.decimal (format s receive true)
      ∷ env.decimal s.sample_rate
      ∷ env.decimal (channels s receive true)
      ∷ env.decimal (bit_rate s receive true)
      ∷ env.decimal (bit (enable_processor s receive true))
      ∷ env.decimal (stream_ratio s receive true)
      ∷ []

  abbrev pub joined : List Word → Word
  joined [] = []
  joined (w ∷ ws) = space ∷ (w ++ joined ws)

  unfoldable pub initiate_call : Word → AudioSettings → List Output
  initiate_call username s =
      sent (ca ++ (space ∷ (username ++ (joined (call_words s) ++ stop)))) ∷ []

  -- `endCall`, `sendCodebook` and `sendMetadata`; the location is not sent.
  abbrev pub end_call : List Output
  end_call = sent (by ++ stop) ∷ []

  unfoldable pub send_codebook : Word → Word → Word → List Output
  send_codebook start comment codebook =
      sent (cb ++ (space ∷ (start ++ (space ∷ (comment ++ (space ∷ (codebook ++ stop))))))) ∷ []

  unfoldable pub send_metadata : MetadataField → Word → List Output
  send_metadata metadata_name text =
      sent (md ++ (space ∷ (fn ++ (space ∷ (to_base64 text ++ stop))))) ∷ []
  send_metadata metadata_email text =
      sent (md ++ (space ∷ (ma ++ (space ∷ (to_base64 text ++ stop))))) ∷ []
  send_metadata metadata_phone text =
      sent (md ++ (space ∷ (ph ++ (space ∷ (to_base64 text ++ stop))))) ∷ []
  send_metadata metadata_location text = []

  -- `Challenge`; `none`: the text overruns the array of `passwordHash`.
  unfoldable pub take_challenge : Client → List Word → Option (List Output)
  take_challenge c (cmd ∷ chal ∷ []) = password_hash env c.password chal >>= λ hash.
      some (sent (pw ++ (space ∷ (hash ++ stop))) ∷ [])
  take_challenge c [] = some []
  take_challenge c (cmd ∷ []) = some []
  take_challenge c (cmd ∷ chal ∷ more ∷ rest) = some []

  -- `Login`
  abbrev pub take_seconds : Option ℕ → List Output
  take_seconds none = response_received malformed ∷ []
  take_seconds (some secs) =
      reauthenticate_in (secs * 1000 % 2 ^ 32) ∷ response_received login_ok ∷ []

  unfoldable pub take_login : List Word → List Output
  take_login (cmd ∷ secs ∷ []) = take_seconds (to_int secs)
  take_login [] = response_received malformed ∷ []
  take_login (cmd ∷ []) = response_received malformed ∷ []
  take_login (cmd ∷ secs ∷ more ∷ rest) = response_received malformed ∷ []

  -- `Response`
  unfoldable pub take_response : List Word → List Output
  take_response (cmd ∷ code ∷ []) = response_received (env.to_uint code) ∷ []
  take_response [] = []
  take_response (cmd ∷ []) = []
  take_response (cmd ∷ code ∷ more ∷ rest) = []

  -- The settings of `MediaStart`; the sample rate of the other direction is not read.
  unfoldable pub media_settings :
      Word → Word → Word → Word → Word → Word → Word → Word → Word → Word → AudioSettings
  media_settings name f₁ rate chans₁ rate₁ proc ratio f₂ chans₂ rate₂ =
      let t =
        set_stream_ratio
          (set_enable_processor
            (set_bit_rate
              (set_channels
                (record (set_format (record cleared_settings { username = name }) transmit
                  (env.to_uint f₁)) { sample_rate = env.to_uint rate })
                transmit (env.to_uint chans₁))
              transmit (env.to_uint rate₁))
            transmit (flag (env.to_uint proc)))
          transmit (env.to_uint ratio) in
      set_bit_rate
        (set_channels (set_format t receive (env.to_uint f₂)) receive (env.to_uint chans₂)) receive
        (env.to_uint rate₂)

  -- What is emitted once the settings are read.
  unfoldable pub start_media : ℕ → ℕ → ℕ → AudioSettings → List Output
  start_media src addr dest s =
      if not has_l3 && format s receive true == layer3
      then sent (error_reply env format_unsupported) ∷ []
      else media_start_received src addr dest s ∷ []

  abbrev pub take_ports : Option ℕ → ℕ → Option ℕ → AudioSettings → List Output
  take_ports none addr dest s = []
  take_ports (some src) addr none s = []
  take_ports (some src) addr (some dest) s = start_media (src % 2 ^ 16) addr (dest % 2 ^ 16) s

  -- `MediaStart`: a command of 15 words.
  unfoldable pub take_media_start : List Word → List Output
  take_media_start
        (cmd ∷ name ∷ src ∷ addr ∷ dest ∷ f₁ ∷ rate ∷ chans₁ ∷ rate₁ ∷ proc ∷ ratio ∷ f₂ ∷ other
          ∷ chans₂ ∷ rate₂ ∷ []) =
      if env.parse_address addr == 0
      then []
      else take_ports (to_int src) (env.parse_address addr) (to_int dest)
          (media_settings name f₁ rate chans₁ rate₁ proc ratio f₂ chans₂ rate₂)
  take_media_start ws = []

  -- `CodeBook`
  unfoldable pub take_codebook : List Word → List Output
  take_codebook (cmd ∷ start ∷ comment ∷ codebook ∷ []) =
      codebook_received start comment codebook ∷ []
  take_codebook ws = []

  -- The field of a name, and the signal of its text.
  unfoldable pub metadata_field : Word → Option MetadataField
  metadata_field field =
      if same field fn
      then some metadata_name
      else if same field ma
      then some metadata_email
      else if same field ph
      then some metadata_phone
      else if same field lc
      then some metadata_location
      else none

  abbrev pub metadata_output : Option MetadataField → Word → List Output
  metadata_output none text = []
  metadata_output (some field) text = metadata_received field text ∷ []

  -- `NetBase64ToString`, where the null string is the empty text.
  abbrev pub text_or_null : Option Word → Word
  text_or_null none = []
  text_or_null (some text) = text

  -- `Metadata`
  unfoldable pub take_metadata : List Word → List Output
  take_metadata (cmd ∷ field ∷ []) = metadata_output (metadata_field field) []
  take_metadata (cmd ∷ field ∷ text ∷ []) =
      metadata_output (metadata_field field) (text_or_null (from_base64 text))
  take_metadata ws = []

  -- `ParseCommand`, on the words of the command.
  unfoldable pub take_command : Client → List Word → Option (List Output)
  take_command c [] = some []
  take_command c (cmd ∷ args) =
      let ws = cmd ∷ args in
      if same cmd li
      then take_challenge c ws
      else if same cmd ok
      then some (take_login ws)
      else if same cmd er
      then some (take_response ws)
      else if same cmd me
      then some (take_media_start ws)
      else if same cmd ms
      then some (media_stop_received ∷ [])
      else if same cmd md
      then some (take_metadata ws)
      else if same cmd cb
      then some (take_codebook ws)
      else if same cmd pg
      then some (sent (pg ++ stop) ∷ [])
      else some []

  unfoldable pub parse_command : Client → Option (Client × List Output)
  parse_command c = do
    outputs ← take_command c (words c.cmdline)
    some (record c { cmdline = [] }, outputs)

  -- One byte of `readyReadData`.
  unfoldable pub take_byte : Client → ℕ → Option (Client × List Output)
  take_byte c b =
      if b == bang then parse_command c else some (record c { cmdline = c.cmdline ++ (b ∷ []) }, [])

  -- The bytes of a block, and the blocks that the socket gives.
  unfoldable pub take_bytes : Client → List ℕ → Option (Client × List Output)
  take_bytes c [] = some (c, [])
  take_bytes c (b ∷ bs) = take_byte c b >>= λ (c₁, first). after first (take_bytes c₁ bs)

  unfoldable pub ready_read_data : Client → List (List ℕ) → Option (Client × List Output)
  ready_read_data c [] = some (c, [])
  ready_read_data c (block ∷ blocks) =
      take_bytes c block >>= λ (c₁, first). after first (ready_read_data c₁ blocks)

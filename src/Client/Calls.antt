-- ===== src/Client/Calls.antt =====
-- What the two clients of a call learn from each other's settings through the directory server.
use net_isdn.Common.{
  ℕ, ◌^◌, ◌%◌, ◌<◌, ◌≡◌, refl, sym, ap, ◌∙◌, Bool, true, false, Option, some, List, [], ◌∷◌, ◌++◌,
  append_assoc, Word, ◌==◌, ◌>>=◌, same, bit, arith,
}
use net_isdn.Rtp.Header.{flag}
use net_isdn.Sip.Outside.{Outside}
use net_isdn.Sip.Reply.{ca, bang, me, spaced}
use net_isdn.Sip.Call.{media_start, callee_parameters, number, numbers}
use net_isdn.Client.Settings.{
  AudioSettings, Stream, Direction, transmit, receive, cleared_settings, cleared_stream, stream,
  auto_vector,
}
use net_isdn.Client.Connect.{
  Client, media_start_received, call_words, media_settings, start_media, take_media_start,
  take_command, parse_command, take_bytes,
}
use net_isdn.Client.Framing.{NoBang, take_bytes-command}

-- What the texts of numbers and addresses are read back as.
pub record ReadsBack (env : Outside) (to_int : Word → Option ℕ) : Type 0 where
  pub unsigned : (n : ℕ) → n < 2 ^ 32 → env.to_uint (env.decimal n) ≡ n
  pub integer : (n : ℕ) → n < 2 ^ 16 → to_int (env.decimal n) ≡ some n
  pub address : (a : ℕ) → a < 2 ^ 32 → env.parse_address (env.show_address a) ≡ a

-- Settings that fit unsigned numbers.
pub record IsStream (t : Stream) : Type 0 where
  pub format : t.format < 2 ^ 32
  pub channels : t.channels < 2 ^ 32
  pub bit_rate : t.bit_rate < 2 ^ 32
  pub stream_ratio : t.stream_ratio < 2 ^ 32

pub record IsSettings (s : AudioSettings) : Type 0 where
  pub transmit_stream : IsStream s.transmit_stream
  pub receive_stream : IsStream s.receive_stream
  pub sample_rate : s.sample_rate < 2 ^ 32

stream-IsStream : (s : AudioSettings) (dir : Direction) → IsSettings s → IsStream (stream s dir)
stream-IsStream s transmit f = f.transmit_stream
stream-IsStream s receive f = f.receive_stream

-- The settings that the called side gets of the caller's settings `s`: it sends the stream that the
-- caller receives, and receives the format, channels and bit rate that the caller sends, without the
-- voice processor and at the ratio 1.
abbrev pub callee_settings : AudioSettings → Word → AudioSettings
callee_settings s name =
    let t = stream s (auto_vector s transmit true) in
    record cleared_settings {
      username = name;
      sample_rate = s.sample_rate;
      transmit_stream = stream s (auto_vector s receive true);
      receive_stream = record cleared_stream {
        format = t.format;
        channels = t.channels;
        bit_rate = t.bit_rate;
      };
    }

-- The words that the server sends to the called side, of those of the command of the caller.
abbrev pub callee_words : Outside → Word → ℕ → ℕ → ℕ → AudioSettings → List Word
callee_words env name src addr dest s =
    let t = stream s (auto_vector s transmit true) in
    let r = stream s (auto_vector s receive true) in
    env.decimal r.format
    ∷ env.decimal s.sample_rate
    ∷ env.decimal r.channels
    ∷ env.decimal r.bit_rate
    ∷ env.decimal (bit r.enable_processor)
    ∷ env.decimal r.stream_ratio
    ∷ env.decimal t.format
    ∷ env.decimal s.sample_rate
    ∷ env.decimal t.channels
    ∷ []

flag-bit : (b : Bool) → flag (bit b) ≡ b
flag-bit true = refl
flag-bit false = refl

module _ (env : Outside) (words : Word → List Word) (to_int : Word → Option ℕ)
    (own_address tag : Word) (back : ReadsBack env to_int) where
  bit-back : (b : Bool) → env.to_uint (env.decimal (bit b)) ≡ bit b
  bit-back true = back.unsigned 1 (omega arith)
  bit-back false = back.unsigned 0 (omega arith)

  -- The command of the caller.
  abbrev pub call_command : Word → AudioSettings → List Word
  call_command user s = ca ∷ user ∷ call_words env words to_int own_address tag true s

  numbers-callee :
      (user name : Word) (src addr dest : ℕ) (s : AudioSettings)
      → IsSettings s
      → (numbers env (call_command user s) (callee_parameters env)
          ≡ callee_words env name src addr dest s)
        × (env.decimal (number env (call_command user s) 5)
            ≡ env.decimal (stream s (auto_vector s transmit true)).bit_rate)
  unfolding call_words
  numbers-callee user name src addr dest s f =
      let t = stream s (auto_vector s transmit true) in
      let r = stream s (auto_vector s receive true) in
      let ft = stream-IsStream s (auto_vector s transmit true) f in
      let fr = stream-IsStream s (auto_vector s receive true) f in
      (
        rw
            (
              back.unsigned r.format fr.format,
              back.unsigned s.sample_rate f.sample_rate,
              back.unsigned r.channels fr.channels,
              back.unsigned r.bit_rate fr.bit_rate,
              bit-back r.enable_processor,
              back.unsigned r.stream_ratio fr.stream_ratio,
              back.unsigned t.format ft.format,
              back.unsigned t.channels ft.channels,
            )
            refl,
        ap env.decimal (back.unsigned t.bit_rate ft.bit_rate),
      )

  -- All words of the message to the called side.
  abbrev pub start_words : Word → ℕ → ℕ → ℕ → AudioSettings → List Word
  start_words name src addr dest s =
      (me
        ∷ name
        ∷ env.decimal src
        ∷ env.show_address addr
        ∷ env.decimal dest
        ∷ callee_words env name src addr dest s)
      ++ (env.decimal (stream s (auto_vector s transmit true)).bit_rate ∷ [])

  -- The text of the message without its '!'.
  abbrev pub start_text : Word → ℕ → ℕ → ℕ → AudioSettings → Word
  start_text name src addr dest s =
      spaced (
        me
        ∷ name
        ∷ env.decimal src
        ∷ env.show_address addr
        ∷ env.decimal dest
        ∷ callee_words env name src addr dest s)
      ++ env.decimal (stream s (auto_vector s transmit true)).bit_rate

  take_media_start-callee_settings :
      (name : Word) (src addr dest : ℕ) (s : AudioSettings)
      → IsSettings s
      → src < 2 ^ 16
      → dest < 2 ^ 16
      → addr < 2 ^ 32
      → 0 < addr
      → take_media_start env words to_int own_address tag true (start_words name src addr dest s)
        ≡ media_start_received src addr dest (callee_settings s name) ∷ []
  unfolding take_media_start media_settings start_media
  take_media_start-callee_settings name src addr dest s f hs hd ha pos =
      let t = stream s (auto_vector s transmit true) in
      let r = stream s (auto_vector s receive true) in
      let ft = stream-IsStream s (auto_vector s transmit true) f in
      let fr = stream-IsStream s (auto_vector s receive true) f in
      let there : addr == 0 ≡ false = ground (arith, pos) in
      let src_same : src % 2 ^ 16 ≡ src = omega arith in
      let dest_same : dest % 2 ^ 16 ≡ dest = omega arith in
      rw
        (
          back.address addr ha,
          there,
          back.integer src hs,
          back.integer dest hd,
          src_same,
          dest_same,
          back.unsigned r.format fr.format,
          back.unsigned s.sample_rate f.sample_rate,
          back.unsigned r.channels fr.channels,
          back.unsigned r.bit_rate fr.bit_rate,
          bit-back r.enable_processor,
          flag-bit r.enable_processor,
          back.unsigned r.stream_ratio fr.stream_ratio,
          back.unsigned t.format ft.format,
          back.unsigned t.channels ft.channels,
          back.unsigned t.bit_rate ft.bit_rate,
        )
        refl

  take_command-start :
      (c : Client) (args : List Word)
      → take_command env words to_int own_address tag true c (me ∷ args)
        ≡ some (take_media_start env words to_int own_address tag true (me ∷ args))
  unfolding take_command same
  take_command-start c args = refl

  message :
      (name : Word) (src addr dest : ℕ) (s : AudioSettings) (params : List Word) (last : Word)
      → params ≡ callee_words env name src addr dest s
      → last ≡ env.decimal (stream s (auto_vector s transmit true)).bit_rate
      → media_start env name src addr dest params last
        ≡ start_text name src addr dest s ++ (bang ∷ [])
  unfolding media_start
  message name src addr dest s params last p q =
      rw (p, q)
        (sym (
          append_assoc
            (spaced (
              me
              ∷ name
              ∷ env.decimal src
              ∷ env.show_address addr
              ∷ env.decimal dest
              ∷ callee_words env name src addr dest s))
            (env.decimal (stream s (auto_vector s transmit true)).bit_rate) (bang ∷ [])))

  parsed :
      (c : Client) (name : Word) (src addr dest : ℕ) (s : AudioSettings)
      → IsSettings s
      → src < 2 ^ 16
      → dest < 2 ^ 16
      → addr < 2 ^ 32
      → 0 < addr
      → words (start_text name src addr dest s) ≡ start_words name src addr dest s
      → c.cmdline ≡ []
      → parse_command env words to_int own_address tag true
          (record c { cmdline = c.cmdline ++ start_text name src addr dest s })
        ≡ some (
          record c { cmdline = [] },
          media_start_received src addr dest (callee_settings s name) ∷ [],
        )
  unfolding parse_command
  parsed c name src addr dest s f hs hd ha pos split fresh =
      let started = record c { cmdline = start_text name src addr dest s } in
      let line : c.cmdline ++ start_text name src addr dest s ≡ start_text name src addr dest s =
        ap (λ l. l ++ start_text name src addr dest s) fresh in
      rw (line, split)
        (ap (λ o. o >>= λ outs. some (record c { cmdline = [] }, outs))
          (take_command-start started _
            ∙ ap some (take_media_start-callee_settings name src addr dest s f hs hd ha pos)))

  -- The called side, built with MPEG layer 3, takes the message that the server composes for it of
  -- the caller's command: it starts with the ports and the address of the message, with the stream to
  -- send that the caller wants to receive, and with a stream to receive that has the format, the
  -- channels and the bit rate of what the caller sends, but no voice processor and the ratio 1, where
  -- the settings fit unsigned numbers, the ports 16 bits and the address 32, the address is not null,
  -- the message splits into its words and has no '!' within.
  pub take_bytes-media_start :
      (c : Client) (user name : Word) (src addr dest : ℕ) (s : AudioSettings)
      → IsSettings s
      → src < 2 ^ 16
      → dest < 2 ^ 16
      → addr < 2 ^ 32
      → 0 < addr
      → words (start_text name src addr dest s) ≡ start_words name src addr dest s
      → NoBang (start_text name src addr dest s)
      → c.cmdline ≡ []
      → take_bytes env words to_int own_address tag true c (
          media_start env name src addr dest
            (numbers env (call_command user s) (callee_parameters env))
            (env.decimal (number env (call_command user s) 5)))
        ≡ some (
          record c { cmdline = [] },
          media_start_received src addr dest (callee_settings s name) ∷ [],
        )
  take_bytes-media_start c user name src addr dest s f hs hd ha pos split quiet fresh =
      let (params, last) = numbers-callee user name src addr dest s f in
      let text = start_text name src addr dest s in
      ap (take_bytes env words to_int own_address tag true c)
        (message name src addr dest s _ _ params last)
      ∙ take_bytes-command env words to_int own_address tag true c text quiet
      ∙ parsed c name src addr dest s f hs hd ha pos split fresh

-- ===== src/Client/Framing.antt =====
-- How the bytes that the client receives make up commands.
use net_isdn.Common.{
  ℕ, ◌≡◌, ◌≢◌, refl, sym, ap, ◌∙◌, Bool, false, Option, none, some, List, [], ◌∷◌, ◌++◌,
  append_assoc, append-nil, Word, ◌==◌, ◌>>=◌, >>=-ext, arith,
}
use net_isdn.Rtp.Wire.{All}
use net_isdn.Sip.Outside.{Outside}
use net_isdn.Sip.Reply.{bang}
use net_isdn.Client.Connect.{
  Client, Output, after, parse_command, take_byte, take_bytes, ready_read_data, take_command,
  take_challenge,
}

-- The bytes of all blocks.
abbrev pub concat : List (List ℕ) → List ℕ
concat [] = []
concat (block ∷ blocks) = block ++ concat blocks

-- `false` where a byte is '!'.
abbrev pub NoBang : Word → Type 0
NoBang w = All (λ b. b ≢ bang) w

-- The text of commands with their '!', and behind them what is not yet a command.
abbrev pub commands_text : List Word → Word → List ℕ
commands_text [] tail = tail
commands_text (w ∷ ws) tail = (w ++ (bang ∷ [])) ++ commands_text ws tail

after-nil : (o : Option (Client × List Output)) → after [] o ≡ o
after-nil none = refl
after-nil (some (c, out)) = refl

after-append :
    (xs ys : List Output) (o : Option (Client × List Output))
    → after (xs ++ ys) o ≡ after xs (after ys o)
after-append xs ys none = refl
after-append xs ys (some (d, zs)) = ap (λ l. some (d, l)) (append_assoc xs ys zs)

bind-end : (o : Option (Client × List Output)) → (o >>= λ (c, out). after out (some (c, []))) ≡ o
bind-end none = refl
bind-end (some (c, out)) = ap (λ l. some (c, l)) (append-nil out)

-- Three steps in sequence, the outputs of the first two taken together or one by one.
after-steps :
    (o : Option (Client × List Output)) (f g : Client → Option (Client × List Output))
    → ((o >>= λ (c, first). after first (f c)) >>= λ (c, first). after first (g c))
      ≡ (o >>= λ (c, first). after first (f c >>= λ (d, second). after second (g d)))
after-steps none f g = refl
after-steps (some (c, first)) f g = inner (f c)
  where
    inner :
        (o : Option (Client × List Output))
        → (after first o >>= λ (d, out). after out (g d))
          ≡ after first (o >>= λ (d, second). after second (g d))
    inner none = refl
    inner (some (d, second)) = after-append first second (g d)

-- The outputs of a command, and then those of the rest.
first_then :
    (o : Option (List Output)) (d e : Client) (rest : Option (List Output))
    (f : Client → Option (Client × List Output))
    → f d ≡ (rest >>= λ outs. some (e, outs))
    → ((o >>= λ outs. some (d, outs)) >>= λ (d', first). after first (f d'))
      ≡ ((o >>= λ first. rest >>= λ outs. some (first ++ outs)) >>= λ outs. some (e, outs))
first_then none d e rest f h = refl
first_then (some first) d e rest f h = ap (after first) h ∙ inner rest
  where
    inner :
        (o : Option (List Output))
        → after first (o >>= λ outs. some (e, outs))
          ≡ ((o >>= λ outs. some (first ++ outs)) >>= λ outs. some (e, outs))
    inner none = refl
    inner (some outs) = refl

module _ (env : Outside) (words : Word → List Word) (to_int : Word → Option ℕ)
    (own_address tag : Word) (has_l3 : Bool) where
  abbrev bytes : Client → List ℕ → Option (Client × List Output)
  bytes = take_bytes env words to_int own_address tag has_l3

  abbrev byte : Client → ℕ → Option (Client × List Output)
  byte = take_byte env words to_int own_address tag has_l3

  take_bytes-append :
      (c : Client) (xs ys : List ℕ)
      → bytes c (xs ++ ys) ≡ (bytes c xs >>= λ (d, first). after first (bytes d ys))
  unfolding take_bytes
  take_bytes-append c [] ys = sym (after-nil (bytes c ys))
  take_bytes-append c (b ∷ xs) ys =
      >>=-ext (byte c b) (λ (d, first). after first (bytes d (xs ++ ys)))
        (λ (d, first). after first (bytes d xs >>= λ (e, second). after second (bytes e ys)))
        (λ (d, first). ap (after first) (take_bytes-append d xs ys))
      ∙ sym (after-steps (byte c b) (λ d. bytes d xs) (λ e. bytes e ys))

  ready_read_data-concat :
      (c : Client) (blocks : List (List ℕ))
      → ready_read_data env words to_int own_address tag has_l3 c blocks
        ≡ take_bytes env words to_int own_address tag has_l3 c (concat blocks)
  unfolding take_bytes ready_read_data
  ready_read_data-concat c [] = refl
  ready_read_data-concat c (block ∷ blocks) =
      >>=-ext (bytes c block)
        (λ (d, first).
          after first (ready_read_data env words to_int own_address tag has_l3 d blocks))
        (λ (d, first). after first (bytes d (concat blocks)))
        (λ (d, first). ap (after first) (ready_read_data-concat d blocks))
      ∙ sym (take_bytes-append c block (concat blocks))

  -- A command up to its '!' is parsed behind what came before.
  pub take_bytes-command :
      (c : Client) (w : Word)
      → NoBang w
      → bytes c (w ++ (bang ∷ []))
        ≡ parse_command env words to_int own_address tag has_l3
            (record c { cmdline = c.cmdline ++ w })
  unfolding take_bytes take_byte
  take_bytes-command c [] h = bind-end (parse c.cmdline) ∙ ap parse (sym (append-nil c.cmdline))
    where
      parse : Word → Option (Client × List Output)
      parse line =
          parse_command env words to_int own_address tag has_l3 (record c { cmdline = line })
  take_bytes-command c (b ∷ w) (ne, h) =
      let other : b == bang ≡ false = ground (arith, ne) in
      let longer = record c { cmdline = c.cmdline ++ (b ∷ []) } in
      rw other (
        after-nil (bytes longer (w ++ (bang ∷ [])))
        ∙ take_bytes-command longer w h
        ∙ ap
            (λ line.
              parse_command env words to_int own_address tag has_l3 (record c { cmdline = line }))
            (append_assoc c.cmdline (b ∷ []) w))

  -- What the client does for commands, each taken by itself and in their order.
  abbrev pub take_commands : Client → List Word → Option (List Output)
  take_commands c [] = some []
  take_commands c (w ∷ ws) = do
    first ← take_command env words to_int own_address tag has_l3 c (words w)
    rest ← take_commands c ws
    some (first ++ rest)

  take_bytes-tail :
      (c : Client) (w : Word)
      → NoBang w
      → bytes c w ≡ some (record c { cmdline = c.cmdline ++ w }, [])
  unfolding take_bytes take_byte
  take_bytes-tail c [] h =
      ap (λ l. some (record c { cmdline = l }, [])) (sym (append-nil c.cmdline))
  take_bytes-tail c (b ∷ w) (ne, h) =
      let other : b == bang ≡ false = ground (arith, ne) in
      let longer = record c { cmdline = c.cmdline ++ (b ∷ []) } in
      rw other (
        after-nil (bytes longer w)
        ∙ take_bytes-tail longer w h
        ∙ ap (λ l. some (record c { cmdline = l }, [])) (append_assoc c.cmdline (b ∷ []) w))

  -- A command does not look at the line that is gathered.
  take_command-line :
      (c : Client) (l : Word) (ws : List Word)
      → take_command env words to_int own_address tag has_l3 (record c { cmdline = l }) ws
        ≡ take_command env words to_int own_address tag has_l3 c ws
  unfolding take_command take_challenge
  take_command-line c l [] = refl
  take_command-line c l (cmd ∷ args) = refl

  -- A command from an empty line on leaves an empty line.
  parse_command-taken :
      (c : Client) (w : Word)
      → parse_command env words to_int own_address tag has_l3 (record c { cmdline = w }) ≡ (
          take_command env words to_int own_address tag has_l3 c (words w) >>= λ outs.
          some (record c { cmdline = [] }, outs))
  unfolding parse_command
  parse_command-taken c w =
      ap (λ o. o >>= λ outs. some (record c { cmdline = [] }, outs))
        (take_command-line c w (words w))

  take_bytes-commands :
      (c : Client) (ws : List Word) (tail : Word)
      → All NoBang ws
      → NoBang tail
      → bytes (record c { cmdline = [] }) (commands_text ws tail)
        ≡ (take_commands c ws >>= λ outs. some (record c { cmdline = tail }, outs))
  take_bytes-commands c [] tail hs h = take_bytes-tail (record c { cmdline = [] }) tail h
  take_bytes-commands c (w ∷ ws) tail (hw, hs) h =
      let fresh = record c { cmdline = [] } in
      take_bytes-append fresh (w ++ (bang ∷ [])) (commands_text ws tail)
      ∙ ap (λ o. o >>= λ (d, first). after first (bytes d (commands_text ws tail)))
          (take_bytes-command fresh w hw ∙ parse_command-taken c w)
      ∙ first_then (take_command env words to_int own_address tag has_l3 c (words w)) fresh
          (record c { cmdline = tail }) (take_commands c ws) (λ d. bytes d (commands_text ws tail))
          (take_bytes-commands c ws tail hs h)

  -- Commands that end with a '!' each and have none within, and a tail without one, received by a
  -- client with an empty line and divided into blocks in any way, are taken one by one and in their
  -- order, each split into its words; the tail is what the client keeps for the next command.
  pub ready_read_data-commands :
      (c : Client) (blocks : List (List ℕ)) (ws : List Word) (tail : Word)
      → concat blocks ≡ commands_text ws tail
      → All NoBang ws
      → NoBang tail
      → c.cmdline ≡ []
      → ready_read_data env words to_int own_address tag has_l3 c blocks
        ≡ (take_commands c ws >>= λ outs. some (record c { cmdline = tail }, outs))
  ready_read_data-commands c blocks ws tail text hs h fresh =
      ready_read_data-concat c blocks
      ∙ ap (bytes c) text
      ∙ ap (λ l. bytes (record c { cmdline = l }) (commands_text ws tail)) fresh
      ∙ take_bytes-commands c ws tail hs h

-- ===== src/Codec/Gpio.antt =====
-- The 32 signal lines of lib/codec.cpp: `sendGpio`, the chunk that carries them, and its reader.
pub mod Signals
use net_isdn.Common.{
  ℕ, zero, suc, ◌+◌, ◌-◌, ◌*◌, ◌/◌, ◌%◌, ◌^◌, bit_and, bit_or, Bool, true, false, not, ◌&&◌, ◌||◌,
  Option, none, some, List, [], ◌∷◌, length, get_or, ltb, ◌==◌, if◌then◌else◌,
}
use net_isdn.Common.Bits.{◌<<◌, ◌>>◌}

-- `mask & lines` and `~mask & lines` for the mask of one line, and `mask | lines`.
unfoldable pub line_on : ℕ → ℕ → Bool
line_on lines i = not (bit_and lines (1 << i) == 0)

-- `lines & ~mask`, of 32 bits.
unfoldable pub drop_line : ℕ → ℕ → ℕ
drop_line lines i = bit_and lines (0xffffffff - (1 << i))

-- `sendGpio (line, state, interval)`: the lines after it, and the oneshot timer it starts.
unfoldable pub send_gpio : ℕ → ℕ → Bool → ℕ → ℕ × Option (ℕ × ℕ)
send_gpio lines line state interval =
    if state
    then (if not (line_on lines line)
        then (bit_or lines (1 << line), if ltb 0 interval then some (line, interval) else none)
        else (lines, none))
    else if line_on lines line
    then (drop_line lines line, none)
    else (lines, none)

-- `transOneshotData (line)`
unfoldable pub oneshot_data : ℕ → ℕ → ℕ
oneshot_data lines line = drop_line lines line

-- The bytes of the private chunk: the length of the name, "GPIO", and the lines.
unfoldable pub gpio_chunk : ℕ → List ℕ
gpio_chunk lines =
    4
    ∷ 71
    ∷ 80
    ∷ 73
    ∷ 79
    ∷ bit_and (lines >> 24) 0xff
    ∷ bit_and (lines >> 16) 0xff
    ∷ bit_and (lines >> 8) 0xff
    ∷ bit_and lines 0xff
    ∷ []

-- The signals of the loop over the lines, from line `i` on.
unfoldable pub changes : ℕ → ℕ → ℕ → ℕ → List (ℕ × Bool)
changes new old i zero = []
changes new old i (suc n) =
    let rest = changes new old (i + 1) n in
    if bit_and new (1 << i) == bit_and old (1 << i) then rest else (i, line_on new i) ∷ rest

-- Whether the bytes are those of the private chunk of the lines.
unfoldable pub is_gpio : List ℕ → Bool
is_gpio bytes =
    length bytes == 9
    && get_or bytes 0 0 == 4
    && get_or bytes 1 0 == 71
    && get_or bytes 2 0 == 80
    && get_or bytes 3 0 == 73
    && get_or bytes 4 0 == 79

unfoldable pub gpio_lines : List ℕ → ℕ
gpio_lines bytes =
    bit_or
      (bit_or (bit_or (get_or bytes 5 0 << 24) (get_or bytes 6 0 << 16)) (get_or bytes 7 0 << 8))
      (get_or bytes 8 0)

-- `ReadPrivateSourceChunk (data, len)`, of all of the bytes of the list: the signals emitted, and
-- the lines after it.
unfoldable pub read_private : ℕ → List ℕ → List (ℕ × Bool) × ℕ
read_private old bytes =
    if is_gpio bytes then (changes (gpio_lines bytes) old 0 32, gpio_lines bytes) else ([], old)

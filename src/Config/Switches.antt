-- ===== src/Config/Switches.antt =====
-- lib/cmd_switch.cpp: the switches of a command line.
use net_isdn.Common.{
  ℕ, Bool, false, ◌||◌, Option, none, some, List, [], ◌∷◌, if◌then◌else◌, Word, same, get_elem?,
  set,
}
use net_isdn.Config.{split_value}

-- An element of the three vectors of the class.
pub record Switch : Type 0 where
  pub key : Word
  pub value : Word
  pub processed : Bool

pub record CmdSwitch : Type 0 where
  pub switches : List Switch
  pub debug : Bool

-- "--version", "--help", "-d"
abbrev pub version : Word
version = b'-' ∷ b'-' ∷ b'v' ∷ b'e' ∷ b'r' ∷ b's' ∷ b'i' ∷ b'o' ∷ b'n' ∷ []

abbrev pub help : Word
help = b'-' ∷ b'-' ∷ b'h' ∷ b'e' ∷ b'l' ∷ b'p' ∷ []

abbrev pub debug_switch : Word
debug_switch = b'-' ∷ b'd' ∷ []

-- The switch of an argument: what stands before and behind its first '=', or the whole.
abbrev pub switch_of : Word → Option (Word × Word) → Switch
switch_of arg none = record { key = arg; value = []; processed = false }
switch_of arg (some (key, value)) = record { key = key; value = value; processed = false }

abbrev pub new_switch : Word → Switch
new_switch arg = switch_of arg (split_value arg)

-- The constructor on the arguments; `none`: the program prints its version or its usage and exits.
unfoldable pub read_switches : List Word → Option CmdSwitch
read_switches [] = some (record { switches = []; debug = false })
read_switches (arg ∷ args) =
    let rest = read_switches args in
    if same arg version || same arg help then none else elim rest [
      | none ↦ none
      | some c ↦ some (record {
        switches = new_switch arg ∷ c.switches;
        debug = same arg debug_switch || c.debug;
      })
    ]

-- `key (n)`, `value (n)`, `processed (n)` are the fields of a switch.
abbrev pub switch : CmdSwitch → ℕ → Option Switch
switch c n = get_elem? c.switches n

abbrev put_switch : CmdSwitch → ℕ → Bool → Option Switch → CmdSwitch
put_switch c n state none = c
put_switch c n state (some s) = record c {
  switches = set c.switches n (record s { processed = state });
}

-- `setProcessed (n, state)`
unfoldable pub set_processed : CmdSwitch → ℕ → Bool → CmdSwitch
set_processed c n state = put_switch c n state (switch c n)

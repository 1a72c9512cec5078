-- ===== src/Config.antt =====
-- The configuration file: lib/profile.cpp with lib/profilesection.cpp and lib/profileline.cpp, and
-- what lib/netconfig.cpp takes from it.
pub mod Database
pub mod Switches
pub mod RoundTrip
mod Tests
use net_isdn.Common.{
  ℕ, zero, suc, ◌-◌, Bool, true, false, not, ◌&&◌, ◌||◌, Option, none, some, List, [], ◌∷◌, ◌++◌,
  length, take, drop, ◌==◌, ltb, if◌then◌else◌, Word, same,
}

-- The accessors of the classes are the fields, the setters updates of them.
pub record ProfileLine : Type 0 where
  pub tag : Word
  pub value : Word

pub record ProfileSection : Type 0 where
  pub name : Word
  pub lines : List ProfileLine

pub record Profile : Type 0 where
  pub source : Word
  pub sections : List ProfileSection

-- `ProfileSection::getValue` and `addValue`; `none` for the return value false.
unfoldable pub get_value : List ProfileLine → Word → Option Word
get_value [] tag = none
get_value (l ∷ ls) tag =
    let rest = get_value ls tag in if same l.tag tag then some l.value else rest

abbrev pub add_value : ProfileSection → Word → Word → ProfileSection
add_value s tag value = record s { lines = s.lines ++ (record { tag = tag; value = value } ∷ []) }

-- `line.left (1) == c` and `line.right (1) == c` for a text of one character.
unfoldable pub starts : Word → ℕ → Bool
starts [] c = false
starts (x ∷ xs) c = x == c

unfoldable pub ends : Word → ℕ → Bool
ends [] c = false
ends (x ∷ []) c = x == c
ends (x ∷ y ∷ ys) c = ends (y ∷ ys) c

-- `line.mid (1, line.length () - 2)`
unfoldable pub middle : Word → Word
middle line = take (length line - 2) (drop 1 line)

-- What stands before and behind the first '='.
unfoldable pub split_value : Word → Option (Word × Word)
split_value [] = none
split_value (x ∷ xs) =
    let rest = split_value xs in
    if x == b'=' then some ([], xs) else elim rest [ none ↦ none | some p ↦ some (x ∷ p.0, p.1) ]

-- `profile_section.back ().addValue (tag, value)`; there always is a section.
unfoldable pub add_to_back : List ProfileSection → Word → Word → List ProfileSection
add_to_back [] tag value = []
add_to_back (s ∷ []) tag value = add_value s tag value ∷ []
add_to_back (s ∷ t ∷ ts) tag value = s ∷ add_to_back (t ∷ ts) tag value

-- `QString::stripWhiteSpace`
module _ (strip : Word → Word) where
  -- The body of the loop, on a line that was stripped.
  unfoldable pub read_line : List ProfileSection → Word → List ProfileSection
  read_line ss line =
      if starts line b';' || starts line b'#'
      then ss
      else if starts line b'[' && ends line b']'
      then ss ++ (record { name = middle line; lines = [] } ∷ [])
      else elim (split_value line) [ none ↦ ss | some p ↦ add_to_back ss p.0 (strip p.1) ]

  unfoldable pub read_lines : List ProfileSection → List Word → List ProfileSection
  read_lines ss [] = ss
  read_lines ss (line ∷ ls) = read_lines (read_line ss (strip line)) ls

  -- `setSource (filename)` on the lines of the file; `none`: it cannot be opened.
  unfoldable pub set_source : Word → Option (List Word) → Bool × Profile
  set_source filename file =
      let first = record { name = []; lines = [] } ∷ [] in
      elim file [
        | none ↦ (false, record { source = filename; sections = first })
        | some ls ↦ (true, record { source = filename; sections = read_lines first ls })
      ]

-- `stringValue`: the first section of the name, and the first line of the tag in it. `false` for
-- `*ok`.
unfoldable pub find_value : List ProfileSection → Word → Word → Word → Word × Bool
find_value [] section tag fallback = (fallback, false)
find_value (s ∷ ss) section tag fallback =
    let rest = find_value ss section tag fallback in
    if same s.name section
    then elim (get_value s.lines tag) [ none ↦ (fallback, false) | some v ↦ (v, true) ]
    else rest

abbrev pub string_value : Profile → Word → Word → Word → Word × Bool
string_value p section tag fallback = find_value p.sections section tag fallback

-- The numbers of `intValue`, `floatValue` and `doubleValue`, where `parse` is `toInt` to base 10 or
-- `toDouble`; `floatValue` rounds the number to a float.
unfoldable pub number_value :
    {N : Type 0} → (Word → Option N) → Profile → Word → Word → N → N × Bool
number_value parse p section tag fallback = elim (parse (string_value p section tag []).0) [
  | none ↦ (fallback, false)
  | some n ↦ (n, true)
]

abbrev pub int_value : {N : Type 0} → (Word → Option N) → Profile → Word → Word → N → N × Bool
int_value to_int p section tag fallback = number_value to_int p section tag fallback

abbrev pub double_value : {N : Type 0} → (Word → Option N) → Profile → Word → Word → N → N × Bool
double_value to_double p section tag fallback = number_value to_double p section tag fallback

-- `hexValue`, where `lower` is `QString::lower` and `to_hex` is `toInt` to base 16.
unfoldable pub hex_value :
    {N : Type 0} → (Word → Word) → (Word → Option N) → Profile → Word → Word → N → N × Bool
hex_value lower to_hex p section tag fallback =
    let text = (string_value p section tag []).0 in
    let digits = if same (lower (take 2 text)) (b'0' ∷ b'x' ∷ []) then drop 2 text else text in
    elim (to_hex digits) [ none ↦ (fallback, false) | some n ↦ (n, true) ]

-- "yes", "true", "on", and "no", "false", "off".
abbrev pub says_yes : Word → Bool
says_yes text =
    same text (b'y' ∷ b'e' ∷ b's' ∷ [])
    || same text (b't' ∷ b'r' ∷ b'u' ∷ b'e' ∷ [])
    || same text (b'o' ∷ b'n' ∷ [])

abbrev pub says_no : Word → Bool
says_no text =
    same text (b'n' ∷ b'o' ∷ [])
    || same text (b'f' ∷ b'a' ∷ b'l' ∷ b's' ∷ b'e' ∷ [])
    || same text (b'o' ∷ b'f' ∷ b'f' ∷ [])

unfoldable pub bool_value : (Word → Word) → Profile → Word → Word → Bool → Bool × Bool
bool_value lower p section tag fallback =
    let found = string_value p section tag [] in
    let text = lower found.0 in
    if not found.1
    then (fallback, false)
    else if says_yes text
    then (true, true)
    else if says_no text
    then (false, true)
    else (fallback, false)

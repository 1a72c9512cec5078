-- ===== src/Text/Tests.antt =====
-- A place name through the escape and back.
use net_isdn.Common.{ℕ, some, ◌≡◌, refl, [], ◌∷◌, ◌++◌, ltb, if◌then◌else◌, lt→ltb, arith}
use net_isdn.Text.Escape.{KeepsLatin1, escape_string, read_quoted, read_quoted-escape_string}

-- A character beyond Latin-1 becomes a question mark.
abbrev latin1 : ℕ → ℕ
latin1 c = if ltb c 256 then c else b'?'

latin1-KeepsLatin1 : KeepsLatin1 latin1
latin1-KeepsLatin1 c h = rw (lt→ltb c 256 h) refl

read_quoted-escape_string_example :
    read_quoted (escape_string latin1 (b'a' ∷ b'"' ∷ b'\\' ∷ []) ++ (b'"' ∷ b'x' ∷ []))
    ≡ some (b'a' ∷ b'"' ∷ b'\\' ∷ [], b'x' ∷ [])
read_quoted-escape_string_example =
    read_quoted-escape_string latin1 (b'a' ∷ b'"' ∷ b'\\' ∷ []) (b'x' ∷ []) latin1-KeepsLatin1
      (omega arith, (omega arith, (omega arith, tt))) refl

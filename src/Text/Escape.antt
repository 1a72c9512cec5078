-- ===== src/Text/Escape.antt =====
-- lib/escape_string.cpp: a backslash before the characters that are special to a shell or to SQL.
use net_isdn.Common.{
  ℕ, Word, Bool, false, ◌||◌, ◌≡◌, ◌≢◌, refl, ap, ◌∙◌, ◌<◌, Option, none, some, List, [], ◌∷◌, ◌++◌,
  ◌==◌, if◌then◌else◌, ◌>>=◌, arith, Bool-cases, inl, inr,
}

abbrev pub backslash : ℕ
backslash = b'\\'

abbrev pub one_of : ℕ → List ℕ → Bool
one_of c [] = false
one_of c (k ∷ ks) = c == k || one_of c ks

-- The labels of the switch.
abbrev pub specials : List ℕ
specials =
    b'(' ∷ b')' ∷ b'{' ∷ b'"' ∷ b'`' ∷ b' ' ∷ b'[' ∷ b'\'' ∷ b'\\' ∷ b'?' ∷ b'&' ∷ b';' ∷ b'<'
    ∷ b'>' ∷ b'|' ∷ []

-- `narrow` is Qt's conversion of a character of a `QString` by `(const char *)str`.
unfoldable pub escape_string : (ℕ → ℕ) → Word → Word
escape_string narrow [] = []
escape_string narrow (c ∷ cs) =
    let b = narrow c in
    let rest = escape_string narrow cs in
    if one_of b specials then backslash ∷ b ∷ rest else b ∷ rest

-- The text as it is converted.
abbrev pub narrowed : (ℕ → ℕ) → Word → Word
narrowed narrow [] = []
narrowed narrow (c ∷ cs) = narrow c ∷ narrowed narrow cs

-- The characters of Latin-1, which the conversion keeps.
abbrev pub IsLatin1 : Word → Type 0
IsLatin1 [] = Unit
IsLatin1 (c ∷ cs) = (c < 256) × IsLatin1 cs

abbrev pub KeepsLatin1 : (ℕ → ℕ) → Type 0
KeepsLatin1 narrow = (c : ℕ) → c < 256 → narrow c ≡ c

abbrev pub is_quote : Word → Bool
is_quote [] = false
is_quote (c ∷ cs) = c == b'"'

-- How a quoted text of SQL is read: a backslash stands for the character behind it, two quotes for
-- one, and another quote ends the text. The result is what was quoted and what follows the closing
-- quote.
pub read_quoted : Word → Option (Word × Word)
read_quoted [] = none
read_quoted (c ∷ []) = if c == b'"' then some ([], []) else none
read_quoted (c ∷ d ∷ cs) =
    let escaped = read_quoted cs in
    let plain = read_quoted (d ∷ cs) in
    if c == b'"'
    then (if d == b'"' then (escaped >>= λ (q, r). some (b'"' ∷ q, r)) else some ([], d ∷ cs))
    else if c == backslash
    then (escaped >>= λ (q, r). some (d ∷ q, r))
    else (plain >>= λ (q, r). some (c ∷ q, r))

not_quote : (c : ℕ) → one_of c specials ≡ false → c == b'"' ≡ false
not_quote c e = ground arith

not_backslash : (c : ℕ) → one_of c specials ≡ false → c == backslash ≡ false
not_backslash c e = ground arith

read_plain :
    (c : ℕ) (cs q r : Word)
    → one_of c specials ≡ false
    → cs ≢ []
    → read_quoted cs ≡ some (q, r)
    → read_quoted (c ∷ cs) ≡ some (c ∷ q, r)
unfolding read_quoted
read_plain c [] q r e ne h = absurd (ne refl)
read_plain c (d ∷ cs) q r e ne h = rw (not_quote c e, not_backslash c e, h) refl

nonempty : (xs : Word) (y : ℕ) (ys : Word) → xs ++ (y ∷ ys) ≢ []
nonempty [] y ys e = ground arith
nonempty (x ∷ xs) y ys e = ground arith

read_end : (rest : Word) → is_quote rest ≡ false → read_quoted (b'"' ∷ rest) ≡ some ([], rest)
unfolding read_quoted
read_end [] h = refl
read_end (d ∷ cs) h = rw h refl

read_narrowed :
    (narrow : ℕ → ℕ) (text rest : Word)
    → is_quote rest ≡ false
    → read_quoted (escape_string narrow text ++ (b'"' ∷ rest)) ≡ some (narrowed narrow text, rest)
unfolding escape_string read_quoted
read_narrowed narrow [] rest h = read_end rest h
read_narrowed narrow (c ∷ cs) rest h =
    let ih = read_narrowed narrow cs rest h in
    elim (Bool-cases (one_of (narrow c) specials)) [
      | inl e ↦ rw (e, ih) refl
      | inr e ↦ rw e (
          read_plain (narrow c) (escape_string narrow cs ++ (b'"' ∷ rest)) (narrowed narrow cs) rest
            e (nonempty (escape_string narrow cs) b'"' rest) ih)
    ]

narrowed-IsLatin1 :
    (narrow : ℕ → ℕ) (text : Word)
    → KeepsLatin1 narrow
    → IsLatin1 text
    → narrowed narrow text ≡ text
narrowed-IsLatin1 narrow [] keeps h = refl
narrowed-IsLatin1 narrow (c ∷ cs) keeps (small, h) =
    rw (keeps c small, narrowed-IsLatin1 narrow cs keeps h) refl

-- A text of Latin-1 characters, which the conversion to bytes keeps, that EscapeString escaped, read
-- as a quoted text of SQL with the closing quote and anything behind it but a second quote, is the
-- text, and what stands behind the quote is left.
pub read_quoted-escape_string :
    (narrow : ℕ → ℕ) (text rest : Word)
    → KeepsLatin1 narrow
    → IsLatin1 text
    → is_quote rest ≡ false
    → read_quoted (escape_string narrow text ++ (b'"' ∷ rest)) ≡ some (text, rest)
read_quoted-escape_string narrow text rest keeps latin end =
    read_narrowed narrow text rest end
    ∙ ap (λ q. some (q, rest)) (narrowed-IsLatin1 narrow text keeps latin)

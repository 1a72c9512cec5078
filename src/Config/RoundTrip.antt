-- ===== src/Config/RoundTrip.antt =====
-- A configuration file that was printed is read back.
use net_isdn.Common.{
  ℕ, suc, ◌-◌, ◌≡◌, ◌≢◌, refl, sym, ap, ◌∙◌, Bool, true, false, ◌||◌, some, List, [], ◌∷◌, ◌++◌,
  append-nil, append_assoc, length, length-append, take, take-append, ◌==◌, ==_refl, Word, same,
  arith,
}
use net_isdn.Rtp.Wire.{All}
use net_isdn.Config.Switches.{
  Switch, version, help, debug_switch, switch_of, new_switch, read_switches,
}
use net_isdn.Config.Database.{NetConfig, load_config, config_sections}
use net_isdn.Config.{
  find_value, get_value, ProfileLine, ProfileSection, add_value, starts, ends, middle, split_value,
  add_to_back, read_line, read_lines, set_source,
}

-- A section as it stands in a file.
unfoldable pub print_line : ProfileLine → Word
print_line l = l.tag ++ (b'=' ∷ l.value)

unfoldable pub print_head : ProfileSection → Word
print_head s = b'[' ∷ (s.name ++ (b']' ∷ []))

unfoldable pub print_lines : List ProfileLine → List Word
print_lines [] = []
print_lines (l ∷ ls) = print_line l ∷ print_lines ls

unfoldable pub print_sections : List ProfileSection → List Word
print_sections [] = []
print_sections (s ∷ ss) = (print_head s ∷ print_lines s.lines) ++ print_sections ss

-- A tag that does not look like a comment or a section, without '='.
abbrev pub IsTag : Word → Type 0
IsTag [] = ⊥
IsTag (x ∷ xs) = (x ≢ b';') × (x ≢ b'#') × (x ≢ b'[') × All (λ c. c ≢ b'=') (x ∷ xs)

differ : (a b : ℕ) → a ≢ b → a == b ≡ false
differ a b h = ground (arith, h)

split_value-append :
    (tag value : Word)
    → All (λ c. c ≢ b'=') tag
    → split_value (tag ++ (b'=' ∷ value)) ≡ some (tag, value)
unfolding split_value
split_value-append [] value h = refl
split_value-append (x ∷ xs) value (ne, h) =
    rw (split_value-append xs value h, differ x b'=' ne) refl

ends-append : (xs : Word) (c : ℕ) → ends (xs ++ (c ∷ [])) c ≡ true
unfolding ends
ends-append [] c = ==_refl c
ends-append (x ∷ []) c = ==_refl c
ends-append (x ∷ y ∷ ys) c = ends-append (y ∷ ys) c

middle-head : (name : Word) → middle (b'[' ∷ (name ++ (b']' ∷ []))) ≡ name
unfolding middle
middle-head name =
    let n : suc (length (name ++ (b']' ∷ []))) - 2 ≡ length name =
      omega (arith, length-append name (b']' ∷ [])) in
    ap (λ k. take k (name ++ (b']' ∷ []))) n ∙ take-append name (b']' ∷ [])

module _ (strip : Word → Word) where
  -- Lines and sections that stripWhiteSpace leaves as they are.
  pub record IsLine (l : ProfileLine) : Type 0 where
    pub tag : IsTag l.tag
    pub value : strip l.value ≡ l.value
    pub line : strip (print_line l) ≡ print_line l

  pub record IsSection (s : ProfileSection) : Type 0 where
    pub head : strip (print_head s) ≡ print_head s
    pub lines : All IsLine s.lines

  add_to_back-append :
      (ss : List ProfileSection) (s : ProfileSection) (tag value : Word)
      → add_to_back (ss ++ (s ∷ [])) tag value ≡ ss ++ (add_value s tag value ∷ [])
  unfolding add_to_back
  add_to_back-append [] s tag value = refl
  add_to_back-append (t ∷ []) s tag value = refl
  add_to_back-append (t ∷ u ∷ us) s tag value = ap (◌∷◌ t) (add_to_back-append (u ∷ us) s tag value)

  read_line-value :
      (ss : List ProfileSection) (tag value : Word)
      → IsTag tag
      → strip value ≡ value
      → read_line strip ss (tag ++ (b'=' ∷ value)) ≡ add_to_back ss tag value
  unfolding read_line starts
  read_line-value ss [] value f same = absurd f
  read_line-value ss (x ∷ xs) value (a, b, c, d) same =
      rw
        (
          differ x b';' a,
          differ x b'#' b,
          differ x b'[' c,
          split_value-append (x ∷ xs) value d,
          same,
        )
        refl

  read_line-head :
      (ss : List ProfileSection) (s : ProfileSection)
      → read_line strip ss (print_head s) ≡ ss ++ (record { name = s.name; lines = [] } ∷ [])
  unfolding read_line print_head starts
  read_line-head ss s = rw (ends-append (b'[' ∷ s.name) b']', middle-head s.name) refl

  read_lines-append :
      (ss : List ProfileSection) (xs ys : List Word)
      → read_lines strip ss (xs ++ ys) ≡ read_lines strip (read_lines strip ss xs) ys
  unfolding read_lines
  read_lines-append ss [] ys = refl
  read_lines-append ss (x ∷ xs) ys = read_lines-append (read_line strip ss (strip x)) xs ys

  -- The lines of a section go to the section at the back.
  read_lines-lines :
      (ss : List ProfileSection) (name : Word) (done ls : List ProfileLine)
      → All IsLine ls
      → read_lines strip (ss ++ (record { name = name; lines = done } ∷ [])) (print_lines ls)
        ≡ ss ++ (record { name = name; lines = done ++ ls } ∷ [])
  unfolding read_lines print_lines print_line
  read_lines-lines ss name done [] h =
      ap (λ d. ss ++ (record { name = name; lines = d } ∷ [])) (sym (append-nil done))
  read_lines-lines ss name done (l ∷ ls) (f, fs) =
      let s : ProfileSection = record { name = name; lines = done } in
      ap (λ us. read_lines strip us (print_lines ls))
        (ap (read_line strip (ss ++ (s ∷ []))) f.line
          ∙ read_line-value (ss ++ (s ∷ [])) l.tag l.value f.tag f.value
          ∙ add_to_back-append ss s l.tag l.value)
      ∙ read_lines-lines ss name (done ++ (l ∷ [])) ls fs
      ∙ ap (λ d. ss ++ (record { name = name; lines = d } ∷ [])) (append_assoc done (l ∷ []) ls)

  read_lines-section :
      (ss : List ProfileSection) (t : ProfileSection)
      → IsSection t
      → read_lines strip ss (print_head t ∷ print_lines t.lines) ≡ ss ++ (t ∷ [])
  unfolding read_lines
  read_lines-section ss t f =
      ap (λ us. read_lines strip us (print_lines t.lines))
        (ap (read_line strip ss) f.head ∙ read_line-head ss t)
      ∙ read_lines-lines ss t.name [] t.lines f.lines

  read_lines-sections :
      (ss ts : List ProfileSection)
      → All IsSection ts
      → read_lines strip ss (print_sections ts) ≡ ss ++ ts
  unfolding read_lines print_sections
  read_lines-sections ss [] h = sym (append-nil ss)
  read_lines-sections ss (t ∷ ts) (f, fs) =
      read_lines-append ss (print_head t ∷ print_lines t.lines) (print_sections ts)
      ∙ ap (λ us. read_lines strip us (print_sections ts)) (read_lines-section ss t f)
      ∙ read_lines-sections (ss ++ (t ∷ [])) ts fs
      ∙ append_assoc ss (t ∷ []) ts

  -- The lines of sections, in a file that can be opened, give these sections behind the section
  -- without a name, where stripWhiteSpace leaves each line and each value as it is, and no tag is
  -- empty, contains '=' or begins with ';', '#' or '['.
  pub set_source-print :
      (filename : Word) (ts : List ProfileSection)
      → All IsSection ts
      → set_source strip filename (some (print_sections ts))
        ≡ (true, record { source = filename; sections = record { name = []; lines = [] } ∷ ts })
  unfolding set_source
  set_source-print filename ts h =
      ap (λ ss. (true, record { source = filename; sections = ss }))
        (read_lines-sections (record { name = []; lines = [] } ∷ []) ts h)

-- A file of the settings, where stripWhiteSpace leaves each line and each value as it is, is loaded
-- back, whatever the settings were before.
pub load_config-print :
    (strip : Word → Word) (c old : NetConfig)
    → All (IsSection strip) (config_sections c)
    → load_config strip
        (some (print_sections (config_sections c)))
        (record old { filename = c.filename })
      ≡ c
unfolding load_config config_sections find_value get_value same
load_config-print strip c old h = rw (set_source-print strip c.filename (config_sections c) h) refl

-- A switch as an argument.
unfoldable pub print_switch : Switch → Word
print_switch s = s.key ++ (b'=' ∷ s.value)

abbrev pub print_switches : List Switch → List Word
print_switches [] = []
print_switches (s ∷ ss) = print_switch s ∷ print_switches ss

-- A key without '=', and an argument that does not end the program.
pub record IsSwitch (s : Switch) : Type 0 where
  pub key : All (λ c. c ≢ b'=') s.key
  pub fresh : s.processed ≡ false
  pub goes_on : same (print_switch s) version || same (print_switch s) help ≡ false

new_switch-print : (s : Switch) → IsSwitch s → new_switch (print_switch s) ≡ s
unfolding print_switch
new_switch-print s f =
    ap (switch_of (print_switch s)) (split_value-append s.key s.value f.key)
    ∙ (ap (λ p. record { key = s.key; value = s.value; processed = p }) (sym f.fresh))

-- The arguments of switches with '=', none of which is one that ends the program, give these switches
-- in their order, none processed, if no key contains '='.
pub read_switches-print :
    (ss : List Switch)
    → All IsSwitch ss
    → (debug : Bool) × (read_switches (print_switches ss)
        ≡ some (record { switches = ss; debug = debug }))
unfolding read_switches
read_switches-print [] h = (false, refl)
read_switches-print (s ∷ ss) (f, fs) =
    let (debug, rest) = read_switches-print ss fs in
    (same (print_switch s) debug_switch || debug, rw (f.goes_on, rest, new_switch-print s f) refl)

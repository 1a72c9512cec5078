-- ===== src/Base64.antt =====
-- The Base64 functions of lib/netconf.cpp, which carry the metadata and the codebooks of the control
-- protocol. A character is its code; the functions look at the low eight bits.
pub mod Dict
pub mod Group
pub mod Encode
pub mod RoundTrip
mod Tests
use net_isdn.Common.{
  ◌>>=◌, ℕ, zero, suc, ◌+◌, ◌-◌, ◌*◌, ◌%◌, ◌^◌, bit_and, bit_or, Bool, true, false, Option, none,
  some, List, [], ◌∷◌, ◌++◌, length, take, get_or, ltb, ◌==◌, if◌then◌else◌,
}
use net_isdn.Common.Bits.{◌<<◌, ◌>>◌}

-- `base64_dict`
abbrev pub base64_dict : List ℕ
base64_dict =
    65 ∷ 66 ∷ 67 ∷ 68 ∷ 69 ∷ 70 ∷ 71 ∷ 72 ∷ 73 ∷ 74 ∷ 75 ∷ 76 ∷ 77 ∷ 78 ∷ 79 ∷ 80 ∷ 81 ∷ 82 ∷ 83
    ∷ 84 ∷ 85 ∷ 86 ∷ 87 ∷ 88 ∷ 89 ∷ 90 ∷ 97 ∷ 98 ∷ 99 ∷ 100 ∷ 101 ∷ 102 ∷ 103 ∷ 104 ∷ 105 ∷ 106
    ∷ 107 ∷ 108 ∷ 109 ∷ 110 ∷ 111 ∷ 112 ∷ 113 ∷ 114 ∷ 115 ∷ 116 ∷ 117 ∷ 118 ∷ 119 ∷ 120 ∷ 121 ∷ 122
    ∷ 48 ∷ 49 ∷ 50 ∷ 51 ∷ 52 ∷ 53 ∷ 54 ∷ 55 ∷ 56 ∷ 57 ∷ 43 ∷ 47 ∷ []

-- The loop of the dictionary lookup: four characters for 24 bits.
pub lookup : ℕ → List ℕ
lookup buf =
    get_or base64_dict (bit_and 0x3f (buf >> 18)) 0
    ∷ get_or base64_dict (bit_and 0x3f (buf >> 12)) 0
    ∷ get_or base64_dict (bit_and 0x3f (buf >> 6)) 0
    ∷ get_or base64_dict (bit_and 0x3f (buf >> 0)) 0
    ∷ []

-- The loop over groups of three; a group at the end may be shorter.
pub groups : List ℕ → List ℕ
groups [] = []
groups (a ∷ []) = lookup (bit_and 0xff a << 16)
groups (a ∷ b ∷ []) = lookup (bit_or (bit_and 0xff a << 16) (bit_and 0xff b << 8))
groups (a ∷ b ∷ c ∷ rest) =
    lookup (bit_or (bit_or (bit_and 0xff a << 16) (bit_and 0xff b << 8)) (bit_and 0xff c))
    ++ groups rest

abbrev pub pad_char : ℕ
pad_char = 61

-- `NetStringToBase64`, and `NetDataToBase64` on an array.
pub to_base64 : List ℕ → List ℕ
to_base64 str =
    let ret = groups str in
    if length str % 3 == 1
    then take (length ret - 2) ret ++ (pad_char ∷ pad_char ∷ [])
    else if length str % 3 == 2
    then take (length ret - 1) ret ++ (pad_char ∷ [])
    else ret

-- The loop over the dictionary, at entry `k`, for a digit that is shifted by `shift`: the bits
-- gathered, and whether the character was found.
pub scan : List ℕ → ℕ → ℕ → ℕ → ℕ → Bool → ℕ × Bool
scan [] k c shift buf found = (buf, found)
scan (d ∷ dict) k c shift buf found =
    scan dict (k + 1) c shift (if d == c then bit_or buf (k << shift) else buf)
      (if d == c then true else found)

-- One character of a group, where there is one: the bits and the padding so far. `none`: an illegal
-- character.
pub digit : Option ℕ → ℕ → ℕ × ℕ → Option (ℕ × ℕ)
digit none shift (buf, pad) = some (buf, pad)
digit (some c) shift (buf, pad) =
    let (buf', found) = scan base64_dict 0 c shift buf false in
    if c == pad_char then some (buf, pad + 1) else if found then some (buf', pad) else none

abbrev pub quad : Option ℕ → Option ℕ → Option ℕ → Option ℕ → ℕ → Option (ℕ × ℕ)
quad c0 c1 c2 c3 pad =
    digit c0 18 (0, pad) >>= λ s. digit c1 12 s >>= λ s. digit c2 6 s >>= λ s. digit c3 0 s

-- The three bytes of a group.
pub extract : ℕ → List ℕ
extract buf = bit_and 0xff (buf >> 16) ∷ bit_and 0xff (buf >> 8) ∷ bit_and 0xff (buf >> 0) ∷ []

-- The bytes of one group in front of those of the later groups; after an illegal character there are
-- none.
abbrev pub group_out : Option (ℕ × ℕ) → (ℕ → List ℕ × Option ℕ) → List ℕ × Option ℕ
group_out none later = ([], none)
group_out (some (buf, pad)) later = (extract buf ++ (later pad).0, (later pad).1)

-- The loop over groups of four: the bytes of the groups before an illegal character, and, if there is
-- no such character, the number of padding characters.
pub ungroup : List ℕ → ℕ → List ℕ × Option ℕ
ungroup [] pad = ([], some pad)
ungroup (c0 ∷ []) pad = group_out (quad (some c0) none none none pad) (λ p. ([], some p))
ungroup (c0 ∷ c1 ∷ []) pad = group_out (quad (some c0) (some c1) none none pad) (λ p. ([], some p))
ungroup (c0 ∷ c1 ∷ c2 ∷ []) pad =
    group_out (quad (some c0) (some c1) (some c2) none pad) (λ p. ([], some p))
ungroup (c0 ∷ c1 ∷ c2 ∷ c3 ∷ rest) pad =
    group_out (quad (some c0) (some c1) (some c2) (some c3) pad) (ungroup rest)

-- `NetBase64ToString`; `none` is the null string, with `*ok` false.
pub from_base64 : List ℕ → Option (List ℕ)
from_base64 str =
    let (ret, padding) = ungroup str 0 in
    padding >>= λ pad. if ltb 2 pad then none else some (take (length ret - pad) ret)

-- `NetBase64ToData`: the count that is returned, 0 on an error, and the bytes stored through the
-- pointer. `maxlen` is not read.
pub to_data : List ℕ → ℕ → ℕ × List ℕ
to_data str maxlen =
    let (stored, padding) = ungroup str 0 in
    (elim padding [ none ↦ 0 | some pad ↦ if ltb 2 pad then 0 else length stored - pad ], stored)

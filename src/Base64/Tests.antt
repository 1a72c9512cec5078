-- ===== src/Base64/Tests.antt =====
-- Test vectors of RFC 3548, and the theorems at concrete texts.
use net_isdn.Common.{ℕ, ◌≤◌, ◌≡◌, refl, none, some, List, [], ◌∷◌, ◌++◌, arith, replicate}
use net_isdn.Base64.{lookup, groups, to_base64, scan, digit, extract, ungroup, from_base64, to_data}
use net_isdn.Base64.RoundTrip.{from_base64-to_base64, to_data-to_base64}

-- "fooba"
abbrev fooba : List ℕ
fooba = 102 ∷ 111 ∷ 111 ∷ 98 ∷ 97 ∷ []

-- "Zm9vYmE="
to_base64-fooba : to_base64 fooba ≡ 90 ∷ 109 ∷ 57 ∷ 118 ∷ 89 ∷ 109 ∷ 69 ∷ 61 ∷ []
unfolding to_base64 groups lookup
to_base64-fooba = refl

illegal : from_base64 (90 ∷ 33 ∷ []) ≡ none
unfolding from_base64 ungroup digit scan
illegal = refl

-- Without its padding character a text is accepted, and a zero byte stays at the end.
no_padding : from_base64 (89 ∷ 109 ∷ 69 ∷ []) ≡ some (98 ∷ 97 ∷ 0 ∷ [])
unfolding from_base64 ungroup digit scan extract
no_padding = refl

from_base64-to_base64_example : from_base64 (to_base64 fooba) ≡ some fooba
from_base64-to_base64_example = from_base64-to_base64 fooba (omega arith)

to_data-to_base64_example :
    (p : ℕ) × (p ≤ 2) × (to_data (to_base64 fooba) 3 ≡ (5, fooba ++ replicate p 0))
to_data-to_base64_example = to_data-to_base64 fooba 3 (omega arith)

-- ===== src/Sip/World.antt =====
-- A small world around the server: two users, and simple text functions.
use net_isdn.Common.{
  ℕ, zero, suc, ◌+◌, ◌*◌, ◌-◌, ◌/◌, ◌%◌, ◌≤◌, Word, same, ◌≡◌, ◌≢◌, refl, ◌∙◌, Bool, true, false,
  Option, none, some, none≢some, some_inj, List, [], ◌∷◌, ◌++◌, length, ltb, ◌==◌, if◌then◌else◌,
  arith,
}
use net_isdn.Sip.Outside.{Outside, User, Contact}
use net_isdn.Sip.Reply.{space}
use mathlib.Core.Path.{subst}
use net_isdn.Sip.Runs.Login.{IsDatabase}

-- The words of a line.
unfoldable pub split : Word → Word → List Word
split [] [] = []
split (c ∷ cs) [] = (c ∷ cs) ∷ []
split word (c ∷ cs) =
    if c == space
    then (if ltb 0 (length word) then word ∷ split [] cs else split [] cs)
    else split (word ++ (c ∷ [])) cs

pub number_of : ℕ → Word → ℕ
number_of n [] = n
number_of n (c ∷ cs) = number_of (10 * n + (c - 48)) cs

unfoldable pub digits : ℕ → ℕ → ℕ → Word → Word
digits base zero n w = w
digits base (suc k) n w = digits base k (n / base) ((48 + n % base) ∷ w)

pub length-digits : (base k n : ℕ) (w : Word) → length (digits base k n w) ≡ k + length w
unfolding digits
length-digits base zero n w = omega arith
length-digits base (suc k) n w = length-digits base k (n / base) ((48 + n % base) ∷ w) ∙ omega arith

abbrev pub ann : User
ann = record { id = 1; name = b'a' ∷ []; password = b'x' ∷ [] }

abbrev pub bob : User
bob = record { id = 2; name = b'b' ∷ []; password = b'y' ∷ [] }

unfoldable pub user_by_name : Word → Option User
user_by_name n =
    if same n (b'a' ∷ []) then some ann else if same n (b'b' ∷ []) then some bob else none

pub contact_of : ℕ → Option Contact
contact_of uid = some record {
  full_name = b'A' ∷ [];
  phone_number = b'1' ∷ [];
  email = b'@' ∷ [];
  location = b'L' ∷ [];
}

unfoldable pub world : Outside
world = record {
  words = split [];
  to_uint = number_of 0;
  narrow = λ c. if ltb c 256 then c else b'?';
  decimal = λ n. digits 10 5 n [];
  hex8 = λ n. digits 16 8 n [];
  hex2 = λ n. digits 16 2 n [];
  length-hex8 = λ n. length-digits 16 8 n [] ∙ refl;
  rand = λ n. n * n;
  parse_address = number_of 0;
  show_address = λ n. digits 10 5 n [];
  md5 = λ w. length w ∷ [];
  locate = λ a. none;
  select_user = λ q n. user_by_name n;
  select_call = λ q uid. some (length q);
  select_contact = λ q uid. contact_of uid;
}

-- What is relied on in the answer to a query for a user.
abbrev Fine : Option User → Type 0
Fine o = (u : User) → o ≡ some u → (u.id ≢ 0) × (length u.password ≤ 64)

Fine-user : (v : User) → v.id ≢ 0 → length v.password ≤ 64 → Fine (some v)
Fine-user v ne le u e = subst (λ x. (x.id ≢ 0) × (length x.password ≤ 64)) (some_inj e) (ne, le)

Fine-if : (b : Bool) (x y : Option User) → Fine x → Fine y → Fine (if b then x else y)
Fine-if true x y fx fy = fx
Fine-if false x y fx fy = fy

user_cases : (n : Word) → Fine (user_by_name n)
unfolding user_by_name
user_cases n =
    Fine-if (same n (b'a' ∷ [])) (some ann) _
      (Fine-user ann (λ e. absurd (omega arith)) (omega arith))
      (Fine-if (same n (b'b' ∷ [])) (some bob) none
        (Fine-user bob (λ e. absurd (omega arith)) (omega arith)) (λ u e. absurd (none≢some e)))

pub world-IsDatabase : IsDatabase world
unfolding world
world-IsDatabase = record {
  numbered = λ q n u e. (user_cases n u e).0;
  fits = λ q n u e. (user_cases n u e).1;
}

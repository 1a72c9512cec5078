-- ===== src/Sip/Runs/Returns.antt =====
-- What a fallible step returns and ensures, along the chain of steps.
use net_isdn.Common.{ℕ, Word, ◌≡◌, refl, Option, some, ◌>>=◌}
use net_isdn.Sip.Connection.{SipConnection, Table, Server, conn, find, send_command}

-- The step returns, with a result that has the property.
pub record Returns {A : Type 0} (o : Option A) (P : A → Type 0) : Type 0 where
  pub result : A
  pub returned : o ≡ some result
  pub ensures : P result

pub Returns-bind :
    {A B : Type 0} {o : Option A} {P : A → Type 0} {Q : B → Type 0} {f : A → Option B}
    → Returns o P
    → ((a : A) → P a → Returns (f a) Q)
    → Returns (o >>= f) Q
Returns-bind r k =
    let r' = k r.result r.ensures in
    record { result = r'.result; returned = rw r.returned r'.returned; ensures = r'.ensures }

pub Returns-some : {A : Type 0} {P : A → Type 0} (a : A) → P a → Returns (some a) P
Returns-some a p = record { result = a; returned = refl; ensures = p }

pub Returns-mono :
    {A : Type 0} {o : Option A} {P Q : A → Type 0}
    → Returns o P
    → ((a : A) → P a → Q a)
    → Returns o Q
Returns-mono r k = record {
  result = r.result;
  returned = r.returned;
  ensures = k r.result r.ensures;
}

-- The result is the step's.
pub Returns-known :
    {A : Type 0} {o : Option A} {P : A → Type 0} → Returns o P → Returns o (λ a. (o ≡ some a) × P a)
Returns-known r = record {
  result = r.result;
  returned = r.returned;
  ensures = (r.returned, r.ensures);
}

-- A connection that is there is read.
pub conn-Returns :
    (fd : ℕ) (s : Server) (c : SipConnection)
    → find s.connections fd ≡ some c
    → Returns (conn fd s) (λ d. d ≡ c)
conn-Returns fd s c h = record { result = c; returned = h; ensures = refl }

-- The step leaves this table.
abbrev pub Leaves : Table → Server → Type 0
Leaves t s = s.connections ≡ t

pub send_command-Returns :
    (fd : ℕ) (cmd : Word) (s : Server) (c : SipConnection)
    → find s.connections fd ≡ some c
    → Returns (send_command fd cmd s) (Leaves s.connections)
unfolding send_command
send_command-Returns fd cmd s c h = Returns-bind (conn-Returns fd s c h) λ d e. Returns-some _ refl

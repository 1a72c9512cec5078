-- ===== src/Sip/Tests.antt =====
-- Runs of the server in a small world, and the theorems at concrete servers.
use net_isdn.Common.{
  ◌>>=◌, ℕ, ◌+◌, ◌*◌, ◌≤◌, Word, same, ◌≡◌, ◌≢◌, refl, sym, ◌∙◌, true, false, none, some, none≢some,
  some_inj, List, [], ◌∷◌, ◌==◌, arith, Bool-cases, inl, inr,
}
use net_isdn.Sip.Connection.{SipConnection, Table, Server, find, clear, on}
use net_isdn.Sip.Reply.{ca, li, pw, bang}
use net_isdn.Sip.Login.{
  password_hash, hex_digits, generate_challenge, get_fd_by_uid, login, password,
}
use net_isdn.Sip.Auth.{login-password, login-password_wrong}
use net_isdn.Sip.Table.{find_hit, find_miss}
use net_isdn.Sip.Call.{find_callee}
use net_isdn.Sip.Command.{clear_line}
use net_isdn.Sip.Runs.Call.{IsCall, IsAvailable}
use net_isdn.Sip.Runs.Command.{IsLine}
use mathlib.Core.Path.{subst}
use net_isdn.Sip.Port.{generate_port, rtp_port}
use net_isdn.Sip.Port.Free.{IsFree, generate_port-IsFree}
use net_isdn.Sip.Sound.{Has, IsSound, IsMember, IsLocal}
use net_isdn.Sip.Input.{Input, arrived, clock, run}
use net_isdn.Sip.Runs.Returns.{Returns}
use net_isdn.Sip.Runs.Inputs.{IsConducted, run-Returns}
use net_isdn.Sip.World.{world, world-IsDatabase, user_by_name, split, digits, ann}

-- "CA b 3 48000 ..." on the connection of `ann`.
abbrev call_line : Word
call_line =
    b'C' ∷ b'A' ∷ b' ' ∷ b'b' ∷ b' ' ∷ b'3' ∷ b' ' ∷ b'8' ∷ b' ' ∷ b'2' ∷ b' ' ∷ b'6' ∷ b' ' ∷ b'0'
    ∷ b' ' ∷ b'1' ∷ b' ' ∷ b'4' ∷ b' ' ∷ b'9' ∷ b' ' ∷ b'1' ∷ b' ' ∷ b'5' ∷ b' ' ∷ b'0' ∷ b' '
    ∷ b'1' ∷ []

abbrev online : ℕ → ℕ → Word → SipConnection
online uid peer line = record (clear peer 0) { uid = uid; is_authenticated = true; cmdline = line }

abbrev two_online : Server
two_online = record {
  connections = (4, online 1 70 call_line) ∷ (5, online 2 80 []) ∷ [];
  statements = [];
  sent = [];
  draws = 0;
  now = 3;
  zombie_timer = false;
}

online-IsMember : (uid peer : ℕ) (line : Word) → uid ≢ 0 → IsMember (online uid peer line)
online-IsMember uid peer line ne = record { authenticated = refl; user = ne; alive = refl }

free-IsLocal : (c : SipConnection) → c.connection_fd ≡ none → c.uid ≢ 0 → IsLocal c
free-IsLocal c n ne = record { linked = λ h. absurd (h n); known = λ _ _. ne }

-- A table of free connections of users is sound.
abbrev Free : Table → Type 0
Free t = (a : ℕ) (c : SipConnection) → find t a ≡ some c → (c.connection_fd ≡ none) × (c.uid ≢ 0)

Free-IsSound : (t : Table) → Free t → IsSound t
Free-IsSound t f = record {
  paired = λ a b c h link. absurd (none≢some (sym (f a c h).0 ∙ link));
  local = λ a c h. free-IsLocal c (f a c h).0 (f a c h).1;
}

Free-cons :
    (k : ℕ) (x : SipConnection) (t : Table)
    → x.connection_fd ≡ none
    → x.uid ≢ 0
    → Free t
    → Free ((k, x) ∷ t)
Free-cons k x t n ne f a c h = elim (Bool-cases (k == a)) [
  | inl e ↦
      subst (λ y. (y.connection_fd ≡ none) × (y.uid ≢ 0)) (some_inj (sym (find_hit k a x t e) ∙ h))
        (n, ne)
  | inr e ↦ f a c (sym (find_miss k a x t e) ∙ h)
]

two_online-IsSound : IsSound two_online.connections
two_online-IsSound = Free-IsSound two_online.connections (
    Free-cons 4 (online 1 70 call_line) ((5, online 2 80 []) ∷ []) refl (λ e. absurd (omega arith))
      (Free-cons 5 (online 2 80 []) [] refl (λ e. absurd (omega arith))
        (λ a c h. absurd (none≢some h))))

abbrev inputs : List Input
inputs = arrived 4 (bang ∷ []) ∷ clock 9 ∷ []

abbrev cleared : Server
cleared = on 4 clear_line two_online

words_of_call : List Word
unfolding world split
words_of_call = world.words call_line

the_call : IsCall world 4 words_of_call cleared
unfolding world split user_by_name same find_callee words_of_call
the_call = record {
  free = λ c h.
      subst (IsAvailable world) (some_inj h)
        (online-IsMember 1 70 [] (λ e. absurd (omega arith)), refl);
  answered = λ u k d eu ek ed free.
      let callee : some 5 ≡ some k =
        subst (λ v. find_callee cleared.connections v.id none ≡ some k) (sym (some_inj eu)) ek in
      let found : find cleared.connections 5 ≡ some d =
        subst (λ j. find cleared.connections j ≡ some d) (sym (some_inj callee)) ed in
      subst IsMember (some_inj found) (online-IsMember 2 80 [] (λ e. absurd (omega arith)));
  few = omega arith;
}

the-IsLine : IsLine world 4 call_line two_online
unfolding world split words_of_call
the-IsLine = record {
  word = ca;
  first = refl;
  command = record { calls = λ _. the_call; texts = λ _ e. absurd (omega arith) };
}

inputs-IsConducted : IsConducted world inputs two_online
inputs-IsConducted = (
  (record { it = online 1 70 call_line; found = refl; holds = λ _. the-IsLine }, λ s' e. tt),
  λ s' e. (tt, λ s'' e'. tt),
)

run-Returns_example : Returns (run world inputs two_online) (λ s'. IsSound s'.connections)
run-Returns_example =
    run-Returns world inputs two_online world-IsDatabase inputs-IsConducted two_online-IsSound

generate_port-IsFree_example :
    (port : ℕ) × (generate_port 70 two_online.connections ≡ some port)
    × IsFree 70 port two_online.connections
    × (rtp_port ≤ port)
    × (port ≤ rtp_port + 2 * 2)
generate_port-IsFree_example = generate_port-IsFree 70 two_online.connections (omega arith)

-- A connection that has sent nothing yet, and a login on it.
abbrev fresh : Server
fresh = record two_online { connections = (4, clear 70 0) ∷ [] }

abbrev login_words : List Word
login_words = li ∷ (b'a' ∷ []) ∷ (b'7' ∷ []) ∷ (b'v' ∷ []) ∷ []

abbrev ann_reply : Word
ann_reply = 50 ∷ 50 ∷ []

ann_hash :
    password_hash world ann.password (generate_challenge world 4 fresh.draws) ≡ some ann_reply
unfolding world digits password_hash generate_challenge hex_digits
ann_hash = refl

ann_selected : world.select_user fresh.statements (b'a' ∷ []) ≡ some ann
unfolding world user_by_name same
ann_selected = refl

ann_alone : get_fd_by_uid fresh.connections 1 4 ≡ none
unfolding get_fd_by_uid
ann_alone = refl

login-password_example :
    Returns
      (login world 4 login_words fresh >>= password world 4 (pw ∷ ann_reply ∷ []))
      (λ s'. Has s'.connections 4 (λ d. (d.is_authenticated ≡ true) × (d.uid ≡ 1)))
login-password_example =
    login-password world 4 login_words fresh (clear 70 0) ann ann_reply refl refl ann_selected
      (λ e. absurd (omega arith)) ann_hash ann_alone

login-password_wrong_example :
    Returns
      (login world 4 login_words fresh >>= password world 4 (pw ∷ [] ∷ []))
      (λ s'. Has s'.connections 4 (λ d. (d.is_authenticated ≡ false) × (d.zombie ≡ true)))
login-password_wrong_example =
    login-password_wrong world 4 login_words fresh (clear 70 0) ann ann_reply [] refl refl refl refl
      ann_selected ann_hash (λ e. ground arith)

-- ===== src/Sip/Reply.antt =====
-- The words of the control protocol, and the replies that netsipd composes of them.
use net_isdn.Common.{ℕ, Word, List, [], ◌∷◌, ◌++◌}
use net_isdn.Sip.Outside.{Outside}

abbrev pub bang : ℕ
bang = b'!'

abbrev pub space : ℕ
space = b' '

-- "!"
abbrev pub stop : Word
stop = bang ∷ []

abbrev pub li : Word
li = b'L' ∷ b'I' ∷ []

abbrev pub pw : Word
pw = b'P' ∷ b'W' ∷ []

abbrev pub ca : Word
ca = b'C' ∷ b'A' ∷ []

abbrev pub by : Word
by = b'B' ∷ b'Y' ∷ []

abbrev pub cb : Word
cb = b'C' ∷ b'B' ∷ []

abbrev pub md : Word
md = b'M' ∷ b'D' ∷ []

abbrev pub er : Word
er = b'E' ∷ b'R' ∷ []

abbrev pub pg : Word
pg = b'P' ∷ b'G' ∷ []

abbrev pub ok : Word
ok = b'O' ∷ b'K' ∷ []

abbrev pub me : Word
me = b'M' ∷ b'E' ∷ []

abbrev pub ms : Word
ms = b'M' ∷ b'S' ∷ []

abbrev pub fn : Word
fn = b'F' ∷ b'N' ∷ []

abbrev pub ma : Word
ma = b'M' ∷ b'A' ∷ []

abbrev pub ph : Word
ph = b'P' ∷ b'H' ∷ []

abbrev pub lc : Word
lc = b'L' ∷ b'C' ∷ []

-- `NetConfig::ResponseCode`
abbrev pub user_invalid : ℕ
user_invalid = 1

abbrev pub user_active : ℕ
user_active = 2

abbrev pub malformed : ℕ
malformed = 3

abbrev pub unknown_command : ℕ
unknown_command = 4

abbrev pub authentication_needed : ℕ
authentication_needed = 5

abbrev pub call_proceeding : ℕ
call_proceeding = 10

abbrev pub caller_unknown : ℕ
caller_unknown = 11

abbrev pub caller_offline : ℕ
caller_offline = 12

abbrev pub caller_busy : ℕ
caller_busy = 13

-- `NETSIP_REGISTRATION_INTERVAL`
abbrev pub registration_interval : ℕ
registration_interval = 300

-- Words with a space after each.
abbrev pub spaced : List Word → Word
spaced [] = []
spaced (w ∷ ws) = w ++ (space ∷ spaced ws)

-- "ER %u!"
abbrev pub error_reply : Outside → ℕ → Word
error_reply env code = er ++ (space ∷ env.decimal code ++ stop)

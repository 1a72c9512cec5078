-- ===== src/Sip/Port.antt =====
-- `GeneratePort` of netsipd/netsipd.cpp.
pub mod Free
use net_isdn.Common.{
  ℕ, zero, suc, ◌+◌, ◌%◌, ◌^◌, Bool, true, false, ◌&&◌, Option, none, some, [], ◌∷◌, length, ◌==◌,
  if◌then◌else◌,
}
use net_isdn.Sip.Connection.{SipConnection, Table}

-- `NETSIP_RTP_PORT`
abbrev pub rtp_port : ℕ
rtp_port = 5004

-- The test of the inner loop.
abbrev pub taken : ℕ → ℕ → SipConnection → Bool
taken addr port c = c.peer_address == addr && c.source_port == port

-- The inner loop: the port, which is a `Q_UINT16`, and `found`.
unfoldable pub sweep : ℕ → Table → ℕ → Bool → ℕ × Bool
sweep addr [] port found = (port, found)
sweep addr ((k, c) ∷ t) port found =
    if taken addr port c then sweep addr t ((port + 2) % 2 ^ 16) true else sweep addr t port found

-- The outer loop; `none`: the fuel is out.
unfoldable pub search_port : ℕ → ℕ → Table → ℕ → Option ℕ
search_port zero addr t port = none
search_port (suc fuel) addr t port =
    let (port', found) = sweep addr t port false in
    let rest = search_port fuel addr t port' in if found then rest else some port'

abbrev pub generate_port : ℕ → Table → Option ℕ
generate_port addr t = search_port (suc (length t)) addr t rtp_port

-- ===== src/Rtp/Orders.antt =====
-- The two byte orders of a host, as instances of `ByteOrder`; the tests and examples use them.
use net_isdn.Common.{ℕ, ◌+◌, ◌*◌, ◌/◌, ◌%◌, ◌^◌, ◌<◌, ◌≡◌, arith}
use net_isdn.Rtp.Wire.{ByteOrder}

abbrev pub swap : ℕ → ℕ
swap x = x % 256 * 2 ^ 24 + x / 2 ^ 8 % 256 * 2 ^ 16 + x / 2 ^ 16 % 256 * 2 ^ 8 + x / 2 ^ 24 % 256

pub swap-swap : (x : ℕ) → x < 2 ^ 32 → swap (swap x) ≡ x
swap-swap x h = omega arith

pub swap-lt : (x : ℕ) → swap x < 2 ^ 32
swap-lt x = omega arith

abbrev pub little_endian : ByteOrder
little_endian = record { htonl = swap; ntohl = swap; ntohl-htonl = swap-swap; ntohl-lt = swap-lt }

-- ===== src/Sip/Outside.antt =====
-- What netsipd takes from outside of the repository: Qt, the C library, OpenSSL, GeoIP and the
-- database; and the statements it sends to the database.
use net_isdn.Common.{ℕ, ◌≡◌, Word, Option, List, length}

-- A row of USERS, as `Login` and `InitiateCall` select it.
pub record User : Type 0 where
  pub id : ℕ
  pub name : Word
  pub password : Word

-- A row of USERS, as `SendMetadata` selects it.
pub record Contact : Type 0 where
  pub full_name : Word
  pub phone_number : Word
  pub email : Word
  pub location : Word

-- `GeoIPRecord`
pub record Place : Type 0 where
  pub city : Word
  pub region : Word
  pub country_code : Word

-- The row that `InitiateCall` inserts into CALLS.
pub record CallRow : Type 0 where
  pub orig_uid : ℕ
  pub orig_addr : ℕ
  pub orig_port : ℕ
  pub dest_uid : ℕ
  pub dest_addr : ℕ
  pub dest_port : ℕ
  pub start_datetime : ℕ
  pub format : ℕ
  pub sample_rate : ℕ
  pub channels : ℕ
  pub bit_rate : ℕ
  pub dest_format : ℕ
  pub dest_sample_rate : ℕ
  pub dest_channels : ℕ
  pub dest_bit_rate : ℕ

-- A statement that changes the database, with the values that are written into it. The number of a
-- call is `none` for -1.
pub data Statement : Type 0 where
  set_online : ℕ → Word → Word → ℕ → Statement
  set_offline : ℕ → Statement
  insert_call : CallRow → Statement
  end_call_row : Option ℕ → Statement
  set_full_name : Word → ℕ → Statement
  set_email : Word → ℕ → Statement
  set_phone_number : Word → ℕ → Statement

-- What the database answers depends on the statements executed so far, the latest first. A user
-- name stands in the text of a query between quotes and is not escaped: `select_user` takes it raw.
pub record Outside : Type 0 where
  -- `QStringList::split (" ", line.stripWhiteSpace ())` and `QString::toUInt`.
  pub words : Word → List Word
  pub to_uint : Word → ℕ
  -- The conversion of a character of a `QString` by `(const char *)`.
  pub narrow : ℕ → ℕ
  -- `sprintf` with "%u" or "%d", with "%08x" and with "%02x". "%d" is taken as "%u" where it prints an
  -- `unsigned`, as in the last number of a message of `InitiateCall`: they differ from 2 ^ 31 on.
  pub decimal : ℕ → Word
  pub hex8 : ℕ → Word
  pub hex2 : ℕ → Word
  pub length-hex8 : (n : ℕ) → length (hex8 n) ≡ 8
  -- The n-th result of `rand ()`.
  pub rand : ℕ → ℕ
  -- `QHostAddress::setAddress` and `toString`; 0 is the null address.
  pub parse_address : Word → ℕ
  pub show_address : ℕ → Word
  pub md5 : Word → List ℕ
  pub locate : ℕ → Option Place
  pub select_user : List Statement → Word → Option User
  pub select_call : List Statement → ℕ → Option ℕ
  pub select_contact : List Statement → ℕ → Option Contact

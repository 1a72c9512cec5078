-- ===== src/Config/Database.antt =====
-- lib/netconfig.cpp: the settings of the directory server.
use net_isdn.Common.{Option, List, [], ◌∷◌, Word}
use net_isdn.Config.{Profile, string_value, set_source}

-- The accessors of the class are the fields, its setter an update of one.
pub record NetConfig : Type 0 where
  pub filename : Word
  pub global_interface : Word
  pub mysql_hostname : Word
  pub mysql_username : Word
  pub mysql_dbname : Word
  pub mysql_password : Word
  pub mysql_driver : Word

-- "0.0.0.0"
abbrev pub any_address : Word
any_address = b'0' ∷ b'.' ∷ b'0' ∷ b'.' ∷ b'0' ∷ b'.' ∷ b'0' ∷ []

-- "Global", "Interface" and "mySQL"
abbrev pub global : Word
global = b'G' ∷ b'l' ∷ b'o' ∷ b'b' ∷ b'a' ∷ b'l' ∷ []

abbrev pub interface : Word
interface = b'I' ∷ b'n' ∷ b't' ∷ b'e' ∷ b'r' ∷ b'f' ∷ b'a' ∷ b'c' ∷ b'e' ∷ []

abbrev pub my_sql : Word
my_sql = b'm' ∷ b'y' ∷ b'S' ∷ b'Q' ∷ b'L' ∷ []

-- The tags of the section of the database, and their default values.
abbrev pub hostname : Word
hostname = b'H' ∷ b'o' ∷ b's' ∷ b't' ∷ b'n' ∷ b'a' ∷ b'm' ∷ b'e' ∷ []

abbrev pub default_hostname : Word
default_hostname = b'l' ∷ b'o' ∷ b'c' ∷ b'a' ∷ b'l' ∷ b'h' ∷ b'o' ∷ b's' ∷ b't' ∷ []

abbrev pub loginname : Word
loginname = b'L' ∷ b'o' ∷ b'g' ∷ b'i' ∷ b'n' ∷ b'n' ∷ b'a' ∷ b'm' ∷ b'e' ∷ []

abbrev pub default_username : Word
default_username = b'n' ∷ b'e' ∷ b't' ∷ b'u' ∷ b's' ∷ b'e' ∷ b'r' ∷ []

abbrev pub database : Word
database = b'D' ∷ b'a' ∷ b't' ∷ b'a' ∷ b'b' ∷ b'a' ∷ b's' ∷ b'e' ∷ []

abbrev pub default_database : Word
default_database = b'N' ∷ b'e' ∷ b't' ∷ b'I' ∷ b'S' ∷ b'D' ∷ b'N' ∷ []

abbrev pub password : Word
password = b'P' ∷ b'a' ∷ b's' ∷ b's' ∷ b'w' ∷ b'o' ∷ b'r' ∷ b'd' ∷ []

abbrev pub default_password : Word
default_password = b'l' ∷ b'e' ∷ b't' ∷ b'm' ∷ b'e' ∷ b'i' ∷ b'n' ∷ []

abbrev pub driver : Word
driver = b'D' ∷ b'r' ∷ b'i' ∷ b'v' ∷ b'e' ∷ b'r' ∷ []

abbrev pub default_driver : Word
default_driver = b'Q' ∷ b'M' ∷ b'Y' ∷ b'S' ∷ b'Q' ∷ b'L' ∷ b'3' ∷ []

-- `clear`, and the constructors, with the name of the file as an argument.
abbrev pub cleared_config : Word → NetConfig
cleared_config filename = record {
  filename = filename;
  global_interface = any_address;
  mysql_hostname = [];
  mysql_username = [];
  mysql_dbname = [];
  mysql_password = [];
  mysql_driver = [];
}

-- `load`, where `file` has the lines of the file, if it can be opened, and `strip` is
-- `QString::stripWhiteSpace`.
unfoldable pub load_config : (Word → Word) → Option (List Word) → NetConfig → NetConfig
load_config strip file c =
    let p = (set_source strip c.filename file).1 in
    record c {
      global_interface = (string_value p global interface any_address).0;
      mysql_hostname = (string_value p my_sql hostname default_hostname).0;
      mysql_username = (string_value p my_sql loginname default_username).0;
      mysql_dbname = (string_value p my_sql database default_database).0;
      mysql_password = (string_value p my_sql password default_password).0;
      mysql_driver = (string_value p my_sql driver default_driver).0;
    }

-- The settings as a file.
unfoldable pub config_sections : NetConfig → List net_isdn.Config.ProfileSection
config_sections c =
    record { name = global; lines = record { tag = interface; value = c.global_interface } ∷ [] }
    ∷ record {
      name = my_sql;
      lines =
          record { tag = hostname; value = c.mysql_hostname }
          ∷ record { tag = loginname; value = c.mysql_username }
          ∷ record { tag = database; value = c.mysql_dbname }
          ∷ record { tag = password; value = c.mysql_password }
          ∷ record { tag = driver; value = c.mysql_driver }
          ∷ [];
    }
    ∷ []

-- ===== src/Config/Tests.antt =====
-- A configuration file at concrete settings, without white space.
use net_isdn.Common.{
  ℕ, ◌≡◌, ◌≢◌, refl, Bool, true, false, not, ◌&&◌, some, [], ◌∷◌, ◌==◌, Word, same, drop, arith,
}
use net_isdn.Rtp.Wire.{All}
use net_isdn.Config.{set_source}
use net_isdn.Config.Database.{
  NetConfig, load_config, config_sections, hostname, loginname, database, password, driver,
  interface,
}
use net_isdn.Config.Switches.{Switch, read_switches}
use net_isdn.Config.RoundTrip.{
  print_switch, print_switches, IsSwitch, read_switches-print, IsTag, IsSection, print_sections,
  set_source-print, load_config-print,
}

abbrev unchanged : Word → Word
unchanged w = w

abbrev is_other : ℕ → ℕ → Bool
is_other a b = not (a == b)

other : (a b : ℕ) → is_other a b ≡ true → a ≢ b
other a b h = λ e. absurd (ground (arith, h, e))

abbrev no_equals : Word → Bool
no_equals [] = true
no_equals (x ∷ xs) = is_other x b'=' && no_equals xs

both : (a b : Bool) → a && b ≡ true → (a ≡ true) × (b ≡ true)
both true true h = (refl, refl)
both true false h = absurd (ground arith)
both false b h = absurd (ground arith)

no_equals-All : (w : Word) → no_equals w ≡ true → All (λ c. c ≢ b'=') w
no_equals-All [] h = tt
no_equals-All (x ∷ xs) h =
    let (a, b) = both (is_other x b'=') (no_equals xs) h in (other x b'=' a, no_equals-All xs b)

IsTag-checked :
    (x : ℕ) (xs : Word)
    → is_other x b';' ≡ true
    → is_other x b'#' ≡ true
    → is_other x b'[' ≡ true
    → no_equals (x ∷ xs) ≡ true
    → IsTag (x ∷ xs)
IsTag-checked x xs a b c h =
    (other x b';' a, other x b'#' b, other x b'[' c, no_equals-All (x ∷ xs) h)

abbrev settings : NetConfig
settings = record {
  filename = b'n' ∷ [];
  global_interface = b'1' ∷ [];
  mysql_hostname = b'h' ∷ [];
  mysql_username = b'u' ∷ [];
  mysql_dbname = b'd' ∷ [];
  mysql_password = b'=' ∷ [];
  mysql_driver = [];
}

settings-AllSections : All (IsSection unchanged) (config_sections settings)
unfolding config_sections
settings-AllSections = (
  record {
    head = refl;
    lines = (
      record {
        tag = IsTag-checked b'I' (drop 1 interface) refl refl refl refl;
        value = refl;
        line = refl;
      },
      tt,
    );
  },
  (
    record {
      head = refl;
      lines = (
        record {
          tag = IsTag-checked b'H' (drop 1 hostname) refl refl refl refl;
          value = refl;
          line = refl;
        },
        (
          record {
            tag = IsTag-checked b'L' (drop 1 loginname) refl refl refl refl;
            value = refl;
            line = refl;
          },
          (
            record {
              tag = IsTag-checked b'D' (drop 1 database) refl refl refl refl;
              value = refl;
              line = refl;
            },
            (
              record {
                tag = IsTag-checked b'P' (drop 1 password) refl refl refl refl;
                value = refl;
                line = refl;
              },
              (
                record {
                  tag = IsTag-checked b'D' (drop 1 driver) refl refl refl refl;
                  value = refl;
                  line = refl;
                },
                tt,
              ),
            ),
          ),
        ),
      );
    },
    tt,
  ),
)

set_source-print_example :
    set_source unchanged (b'n' ∷ []) (some (print_sections (config_sections settings))) ≡ (
      true,
      record {
        source = b'n' ∷ [];
        sections = record { name = []; lines = [] } ∷ config_sections settings;
      },
    )
set_source-print_example =
    set_source-print unchanged (b'n' ∷ []) (config_sections settings) settings-AllSections

load_config-print_example :
    load_config unchanged (some (print_sections (config_sections settings))) settings ≡ settings
load_config-print_example = load_config-print unchanged settings settings settings-AllSections

abbrev rate : Switch
rate = record { key = b'r' ∷ []; value = b'=' ∷ b'4' ∷ []; processed = false }

rate-IsSwitch : IsSwitch rate
unfolding print_switch same
rate-IsSwitch = record { key = (other b'r' b'=' refl, tt); fresh = refl; goes_on = refl }

read_switches-print_example :
    (debug : Bool) × (read_switches (print_switches (rate ∷ []))
      ≡ some (record { switches = rate ∷ []; debug = debug }))
read_switches-print_example = read_switches-print (rate ∷ []) (rate-IsSwitch, tt)

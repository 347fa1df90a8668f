-- ===== src/Auth/Bruteforce/Tests.antt =====
-- Runs of core-rs/crates/nc-auth/src/bruteforce.rs at the inputs of its own tests, and the laws at
-- a table with one failed login.
use nc_server_rs.Prelude.{ℕ, ◌≤◌, ◌≡◌, refl, ◌↔◌, true, false, none, some, [], ◌∷◌, All, arith}
use nc_server_rs.Prelude.Int.{pos, ltb_ℤ}
use nc_server_rs.Prelude.Decimal.{decimal}
use nc_server_rs.Prelude.Net.{parse_ip, octets, hex_group, v4}
use nc_server_rs.Prelude.Text.{Text, codes, text_eq}
use nc_server_rs.Db.AppConfig.{values_with_prefix, get_int, get_raw}
use nc_server_rs.Auth.Bruteforce.{
  CountEntry, World, ip_to_subnet, is_ip_allowlisted, check_throttle, query_counts, decide,
  count_since, fresh_entry, record_attempt, max_attempts_of, too_many,
}
use nc_server_rs.Auth.Bruteforce.Throttle.{
  IsBounded, check_throttle-IsBounded, Reckoned, check_throttle_rejects_iff,
}
use nc_server_rs.Auth.Bruteforce.Windows.{
  IsWindowed, check_throttle-IsWindowed, record_attempt-check_throttle,
}

subnets :
    (ip_to_subnet (codes "192.168.1.42") ≡ codes "192.168.1.0/24")
    × (ip_to_subnet (codes "2001:db8:85a3::8a2e:370:7334") ≡ codes "2001:db8:85a3::/48")
    × (ip_to_subnet (codes "localhost") ≡ codes "localhost")
unfolding ip_to_subnet parse_ip octets hex_group decimal
subnets = (refl, refl, refl)

abbrev login : Text
login = codes "login"

abbrev client : Text
client = codes "10.0.0.1"

abbrev world : World
world = record {
  protection_enabled = true;
  appconfig = [];
  attempts = record_attempt true 1_000_000 login client [];
  short_ok = true;
  long_ok = true;
  now = 1_000_060;
  instant = 60_000;
}

abbrev entry : CountEntry
entry = record {
  action = login;
  subnet = codes "10.0.0.0/24";
  short = 11;
  long = 12;
  cached_at = 59_000;
}

first_delay :
    ((check_throttle world [] login client).0.delay ≡ some 200)
    × ((check_throttle world (entry ∷ []) login client).0 ≡ too_many)
unfolding check_throttle query_counts decide count_since fresh_entry record_attempt
    is_ip_allowlisted values_with_prefix get_int get_raw ip_to_subnet parse_ip octets decimal
    text_eq
first_delay = (refl, refl)

not_listed : is_ip_allowlisted client [] ≡ false
unfolding is_ip_allowlisted values_with_prefix
not_listed = refl

no_entry : fresh_entry [] login (ip_to_subnet client) 60_000 ≡ none
unfolding fresh_entry
no_entry = refl

has_entry : fresh_entry (entry ∷ []) login (ip_to_subnet client) 60_000 ≡ some entry
unfolding fresh_entry ip_to_subnet parse_ip octets decimal text_eq
has_entry = refl

client_address : parse_ip client ≡ some (v4 167_772_161)
unfolding parse_ip
client_address = refl

check_throttle-IsBounded_example : IsBounded (check_throttle world [] login client).0
check_throttle-IsBounded_example = check_throttle-IsBounded world [] login client

check_throttle_rejects_iff_example :
    ((check_throttle world (entry ∷ []) login client).0.should_reject ≡ true) ↔ (
      (world.protection_enabled ≡ true)
      × (is_ip_allowlisted client world.appconfig ≡ false)
      × (n : ℕ) × Reckoned world (entry ∷ []) login (ip_to_subnet client) n
      × (ltb_ℤ (max_attempts_of world.appconfig) (pos n) ≡ true))
check_throttle_rejects_iff_example = check_throttle_rejects_iff world (entry ∷ []) login client

check_throttle-IsWindowed_example :
    All IsWindowed (check_throttle world (entry ∷ []) login client).1
check_throttle-IsWindowed_example =
    check_throttle-IsWindowed world (entry ∷ []) login client (omega arith, tt)

record_attempt-check_throttle_example :
    (d : ℕ) × ((check_throttle world [] login client).0.delay ≡ some d) × (200 ≤ d)
record_attempt-check_throttle_example =
    record_attempt-check_throttle world [] [] login client 1_000_000 refl (omega arith) refl
      not_listed refl refl no_entry

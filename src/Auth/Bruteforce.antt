-- ===== src/Auth/Bruteforce.antt =====
-- core-rs/crates/nc-auth/src/bruteforce.rs: the throttle of failed logins. The table of attempts
-- is the list of its rows, the count cache the list of its entries; the clocks are arguments. The
-- wall clock is in seconds, the cache's in milliseconds, and both count from 0.
pub mod Subnet
pub mod Throttle
pub mod Windows
mod Tests
use nc_server_rs.Prelude.{
  ℕ, ◌+◌, ◌-◌, ◌*◌, ◌/◌, ◌^◌, min, Bool, true, false, not, ◌&&◌, ◌||◌, Option, none, some, List, [],
  ◌∷◌, ◌++◌, leb, ltb, if◌then◌else◌, any, suc,
}
use nc_server_rs.Prelude.Decimal.{decimal}
use nc_server_rs.Prelude.Int.{ℤ, pos, negsuc, ltb_ℤ}
use nc_server_rs.Prelude.Net.{IpAddr, v4, v6, parse_ip, octets, hex_group}
use nc_server_rs.Prelude.Text.{Text, codes, text_eq}
use nc_server_rs.Db.AppConfig.{AppConfigCache, values_with_prefix, get_int}

-- A delay in milliseconds.
pub record ThrottleResult : Type 0 where
  pub delay : Option ℕ
  pub should_reject : Bool
  pub retry_after_secs : ℕ

abbrev pub default_max_attempts : ℤ
default_max_attempts = pos 10

abbrev pub short_window_secs : ℕ
short_window_secs = 30 * 60

abbrev pub long_window_secs : ℕ
long_window_secs = 12 * 60 * 60

abbrev pub max_delay_ms : ℕ
max_delay_ms = 25_000

abbrev pub count_cache_ttl_ms : ℕ
count_cache_ttl_ms = 30_000

-- The counts of the short and the long window, and when they were read.
pub record CountEntry : Type 0 where
  pub action : Text
  pub subnet : Text
  pub short : ℕ
  pub long : ℕ
  pub cached_at : ℕ

-- A row of `bruteforce_attempts`.
pub record Attempt : Type 0 where
  pub action : Text
  pub occurred : ℕ
  pub ip : Text
  pub subnet : Text

-- What a check finds: the settings, the table, whether each of the two queries succeeds, the
-- clocks.
pub record World : Type 0 where
  pub protection_enabled : Bool
  pub appconfig : AppConfigCache
  pub attempts : List Attempt
  pub short_ok : Bool
  pub long_ok : Bool
  pub now : ℕ
  pub instant : ℕ

-- The four segments of a dotted address and the first three of a v6 one.
abbrev pub first_groups : List ℕ → ℕ × ℕ × ℕ
first_groups (a ∷ b ∷ c ∷ gs) = (a, b, c)
first_groups _ = (0, 0, 0)

unfoldable pub ip_to_subnet : Text → Text
ip_to_subnet ip = elim (parse_ip ip) [
  | none ↦ ip
  | some addr ↦ elim addr [
    | v4 n ↦
        let (a, b, c) = first_groups (octets n) in
        decimal a ++ (b'.' ∷ (decimal b ++ (b'.' ∷ (decimal c ++ codes ".0/24"))))
    | v6 groups ↦
        let (a, b, c) = first_groups groups in
        hex_group a ++ (b':' ∷ (hex_group b ++ (b':' ∷ (hex_group c ++ codes "::/48"))))
  ]
]

unfoldable pub is_ip_allowlisted : Text → AppConfigCache → Bool
is_ip_allowlisted client_ip ac =
    let client_subnet = ip_to_subnet client_ip in
    any (λ cidr. text_eq cidr client_ip || text_eq cidr client_subnet)
      (values_with_prefix ac (codes "bruteForce") (codes "whitelist_"))

-- `SELECT COUNT(*)` of an action and a subnet from a time on.
unfoldable pub count_since : List Attempt → Text → Text → ℕ → ℕ
count_since [] action subnet cutoff = 0
count_since (a ∷ rows) action subnet cutoff =
    let rest = count_since rows action subnet cutoff in
    if text_eq a.action action && text_eq a.subnet subnet && leb cutoff a.occurred
    then suc rest
    else rest

abbrev pub is_for : Text → Text → CountEntry → Bool
is_for action subnet e = text_eq e.action action && text_eq e.subnet subnet

-- The entry of a key, unless it is too old.
unfoldable pub fresh_entry : List CountEntry → Text → Text → ℕ → Option CountEntry
fresh_entry [] action subnet instant = none
fresh_entry (e ∷ es) action subnet instant =
    let rest = fresh_entry es action subnet instant in
    if is_for action subnet e
    then if ltb (instant - e.cached_at) count_cache_ttl_ms then some e else none
    else rest

unfoldable pub insert_entry : CountEntry → List CountEntry → List CountEntry
insert_entry new [] = new ∷ []
insert_entry new (e ∷ es) =
    let rest = insert_entry new es in if is_for new.action new.subnet e then new ∷ es else e ∷ rest

abbrev pub no_throttle : ThrottleResult
no_throttle = record { delay = none; should_reject = false; retry_after_secs = 0 }

abbrev pub too_many : ThrottleResult
too_many = record { delay = some max_delay_ms; should_reject = true; retry_after_secs = 30 }

-- From the counts on.
unfoldable pub decide : ℤ → ℕ → ℕ → ThrottleResult
decide max_attempts short long =
    if ltb_ℤ max_attempts (pos short)
    then too_many
    else if leb long 0
    then no_throttle
    else record {
      delay = some (min (100 * 2 ^ min long 8) max_delay_ms);
      should_reject = false;
      retry_after_secs = 0;
    }

abbrev pub max_attempts_of : AppConfigCache → ℤ
max_attempts_of ac = elim (get_int ac (codes "auth") (codes "bruteforce.max-attempts")) [
  | some n ↦ n
  | none ↦ default_max_attempts
]

-- Without a fresh entry: the queries, and the new entry of the cache.
unfoldable pub query_counts :
    World → List CountEntry → Text → Text → ThrottleResult × List CountEntry
query_counts w cache action subnet =
    let max_attempts = max_attempts_of w.appconfig in
    let short = count_since w.attempts action subnet (w.now - short_window_secs) in
    let long = count_since w.attempts action subnet (w.now - long_window_secs) in
    if not w.short_ok
    then (no_throttle, cache)
    else if ltb_ℤ max_attempts (pos short)
    then (too_many, cache)
    else if not w.long_ok
    then (no_throttle, cache)
    else (
      decide max_attempts short long,
      insert_entry
          (record {
            action = action;
            subnet = subnet;
            short = short;
            long = long;
            cached_at = w.instant;
          })
          cache,
    )

-- The result and the count cache after it.
unfoldable pub check_throttle :
    World → List CountEntry → Text → Text → ThrottleResult × List CountEntry
check_throttle w cache action client_ip =
    if not w.protection_enabled || is_ip_allowlisted client_ip w.appconfig
    then (no_throttle, cache)
    else (let subnet = ip_to_subnet client_ip in
        elim (fresh_entry cache action subnet w.instant) [
          | some e ↦ (decide (max_attempts_of w.appconfig) e.short e.long, cache)
          | none ↦ query_counts w cache action subnet
        ])

-- The table after a failed login; the insertion itself may fail.
unfoldable pub record_attempt : Bool → ℕ → Text → Text → List Attempt → List Attempt
record_attempt ok now action client_ip attempts =
    if ok
    then record { action = action; occurred = now; ip = client_ip; subnet = ip_to_subnet client_ip }
      ∷ attempts
    else attempts

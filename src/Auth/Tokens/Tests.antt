-- ===== src/Auth/Tokens/Tests.antt =====
-- Runs of core-rs/crates/nc-auth/src/bearer.rs and basic.rs, and the law of lookups behind a fetch. The
-- digest here is the text itself.
use nc_server_rs.Prelude.{◌≡◌, refl, true, false, none, some, List, [], ◌∷◌, map}
use nc_server_rs.Prelude.Int.{pos, ◌-ℤ◌}
use nc_server_rs.Prelude.Text.{
  codes, text_eq, to_ascii_lower, strip_prefix, split_once, trim, trim_by, trim_start_by,
  trim_end_by,
}
use nc_server_rs.Auth.Tokens.{
  TokenRow, Lookup, cached_from, new_token_cache, token_hash, find_token, fetch_token,
  lookup_bearer, try_app_token, extract_basic, is_expired, is_cache_stale, writes_activity,
}
use nc_server_rs.Auth.Tokens.Cached.{Event, fetched, cache_after, Rests, lookup_bearer-Backed}

abbrev row : TokenRow
row = record {
  id = pos 7;
  uid = codes "bo";
  login_name = codes "Bo";
  token = codes "tok-s";
  token_type = some (pos 1);
  scope = none;
  expires = some (pos 50);
  last_activity = none;
}

abbrev w : Lookup
w = record { rows = row ∷ []; query_ok = true; now = pos 50; instant = 9 }

found :
    (lookup_bearer (λ s. s) w new_token_cache (codes "-s") (codes "tok")).0
    ≡ some (cached_from 9 row)
unfolding lookup_bearer fetch_token find_token token_hash text_eq
found = refl

expired :
    (lookup_bearer
      (λ s. s)
      (record w { now = pos 51 })
      new_token_cache
      (codes "-s")
      (codes "tok")).0
    ≡ none
unfolding lookup_bearer fetch_token find_token token_hash text_eq
expired = refl

other_login :
    try_app_token (λ s. s) (map to_ascii_lower) w (codes "bob") (codes "tok") (codes "-s") ≡ none
unfolding try_app_token find_token token_hash text_eq
other_login = refl

credentials :
    (extract_basic (λ s. some s) (λ s. some s) (codes "Basic a:b:c")
      ≡ some (codes "a", codes "b:c"))
    × (extract_basic (λ s. some s) (λ s. some s) (codes "Basic ab") ≡ none)
    × (extract_basic (λ s. some s) (λ s. some s) (codes "basic a:b") ≡ none)
unfolding extract_basic strip_prefix split_once trim trim_by trim_start_by trim_end_by
credentials = (refl, refl, refl)

activity :
    (writes_activity (pos 100) (pos 41) ≡ false) × (writes_activity (pos 100) (pos 40) ≡ true)
unfolding writes_activity ◌-ℤ◌
activity = (refl, refl)

-- The row is gone, and the token of a fetch before is still found.
abbrev gone : Lookup
gone = record { rows = []; query_ok = true; now = pos 50; instant = 1_009 }

abbrev past : List Event
past = fetched w (codes "tok") ∷ []

still_found :
    (lookup_bearer
      (λ s. s)
      gone
      (cache_after (λ s. s) (codes "-s") past)
      (codes "-s")
      (codes "tok")).0
    ≡ some (cached_from 9 row)
unfolding lookup_bearer fetch_token find_token token_hash text_eq is_cache_stale is_expired
still_found = refl

lookup_bearer-Backed_example :
    Rests (λ s. s) (codes "-s") past gone (codes "tok") (cached_from 9 row)
lookup_bearer-Backed_example =
    lookup_bearer-Backed (λ s. s) (codes "-s") past gone (codes "tok") (cached_from 9 row)
      still_found

-- ===== src/Auth/Session/Tests.antt =====
-- Runs of core-rs/crates/nc-auth/src/session.rs, and the law of the cache at a history.
use nc_server_rs.Prelude.{◌≡◌, refl, true, false, none, some, List, [], ◌∷◌, arith}
use nc_server_rs.Prelude.Text.{
  codes, text_eq, strip_prefix, split, split_parts, trim, trim_by, trim_start_by, trim_end_by,
}
use nc_server_rs.Auth.Session.{
  SessionIdentity, cookie_value, first_value, pair_value, has_session, check_samesite_cookies,
  passed, strict_check_failed, no_session_cookies, session_cookie_value, hit, cache_lookup,
  entry_lookup,
}
use nc_server_rs.Auth.Session.Cache.{
  Act, resolved, failed, evicted, after, latest, cache_lookup-after,
}

cookies_read :
    (cookie_value (codes "a=1; b = 2;  c= 3 ") (codes "c") ≡ some (codes "3"))
    × (cookie_value (codes "a=1; b = 2;  c= 3 ") (codes "b") ≡ none)
    × (cookie_value (codes "abc=1; ab=2") (codes "ab") ≡ some (codes "2"))
    × (session_cookie_value (codes "oc1") (codes "nc_token=t; oc1=v") ≡ some (codes "v"))
    × (session_cookie_value [] (codes "nc_token=t; oc1=v") ≡ some (codes "t"))
unfolding cookie_value first_value pair_value session_cookie_value split split_parts strip_prefix
    trim trim_by trim_start_by trim_end_by text_eq
cookies_read = (refl, refl, refl, refl, refl)

guards :
    (check_samesite_cookies (codes "oc1=v; nc_sameSiteCookielax=true") (codes "oc1") false
      ≡ strict_check_failed)
    × (check_samesite_cookies (codes "nc_session_id=v") (codes "oc1") false ≡ no_session_cookies)
    × (check_samesite_cookies
          (codes "oc1=v; __Host-nc_sameSiteCookielax=true; __Host-nc_sameSiteCookiestrict=true")
          (codes "oc1")
          true
        ≡ passed)
unfolding check_samesite_cookies has_session cookie_value first_value pair_value split split_parts
    strip_prefix trim trim_by trim_start_by trim_end_by text_eq
guards = (refl, refl, refl)

abbrev alice : SessionIdentity
alice = record { uid = codes "alice"; dav_authenticated_uid = none }

-- Latest first: an eviction at 7 s, a failure of another key, a success at 2 s.
abbrev history : List Act
history = evicted 7_000 ∷ failed (codes "l") 3_000 ∷ resolved (codes "k") alice 2_000 ∷ []

cache_lookup-after_example :
    cache_lookup (after history) (codes "k") 60_000 8_000
    ≡ entry_lookup 60_000 8_000 (latest (codes "k") history)
cache_lookup-after_example =
    cache_lookup-after history (codes "k") 60_000 8_000 (omega arith) (omega arith)

still_there : entry_lookup 60_000 8_000 (latest (codes "k") history) ≡ hit alice
unfolding entry_lookup latest text_eq
still_there = refl

-- ===== src/Server/AuthCheck/Tests.antt =====
-- Runs of core-rs/crates/nc-server/src/middleware/auth.rs at a small site, and its laws there.
use nc_server_rs.Prelude.{◌≡◌, refl, true, false, none, some, [], arith}
use nc_server_rs.Prelude.Int.{pos}
use nc_server_rs.Prelude.Text.{
  codes, text_eq, contains_text, starts_with, strip_prefix, split, split_parts, split_once, trim,
  trim_by, trim_start_by, trim_end_by,
}
use nc_server_rs.Prelude.Net.{parse_ip}
use nc_server_rs.Db.AppConfig.{get_raw, get_int, values_with_prefix}
use nc_server_rs.Auth.Bruteforce.{
  check_throttle, query_counts, decide, fresh_entry, count_since, insert_entry, ip_to_subnet,
  is_ip_allowlisted,
}
use nc_server_rs.Auth.Session.{
  cookie_value, first_value, pair_value, session_cookie_value, cache_lookup, entry_lookup,
  has_session, check_samesite_cookies, new_session_cache,
}
use nc_server_rs.Auth.Tokens.{
  find_token, token_hash, try_app_token, verify_basic, find_user, extract_basic,
}
use nc_server_rs.Auth.Users.{
  AuthInfo, basic, session, is_admin_user, requires_2fa, cached_user_state, refresh_user_state,
  read_user_state, sharing_disabled_for_user, lookup_user_display_name, account_name,
}
use nc_server_rs.Server.Routes.{dav_served_by_rust, trim_start_matches, trim_rounds}
use nc_server_rs.Server.AuthCheck.{
  Env, admitted, challenge_missing, precondition_failed, resolve_miss, session_auth, finish,
  verify_password, throttled, session_first, check_basic, check_cookies, check_header, auth_check,
  is_samesite_refused, dav_session_guard, is_dav_path,
}
use nc_server_rs.Server.AuthCheck.Samples.{lib, app, env, store, al, guarded, request}
use nc_server_rs.Server.AuthCheck.Genuine.{IsGenuine, auth_check-IsGenuine}
use nc_server_rs.Server.AuthCheck.Sessions.{told, session_auth-again}

abbrev as_al : AuthInfo
as_al = record {
  uid = codes "al";
  is_admin = false;
  method = session;
  token_id = none;
  raw_token = none;
}

abbrev as_bo : AuthInfo
as_bo = record {
  uid = codes "bo";
  is_admin = true;
  method = basic;
  token_id = some (pos 7);
  raw_token = some (codes "tok");
}

by_cookies :
    (auth_check lib app env store (request none (some guarded))).0
    ≡ admitted (some as_al) al.set_cookies
unfolding auth_check is_samesite_refused check_header check_cookies session_auth resolve_miss
    session_cookie_value cookie_value first_value pair_value has_session check_samesite_cookies
    split split_parts strip_prefix trim trim_by trim_start_by trim_end_by text_eq starts_with
    contains_text cache_lookup entry_lookup is_admin_user dav_session_guard dav_served_by_rust
    trim_start_matches trim_rounds is_dav_path
by_cookies = refl

without_guards :
    (auth_check lib app env store (request none (some (codes "oc1=abc")))).0 ≡ precondition_failed
unfolding auth_check is_samesite_refused has_session check_samesite_cookies cookie_value first_value
    pair_value split split_parts strip_prefix trim trim_by trim_start_by trim_end_by text_eq
    starts_with
without_guards = refl

by_app_token :
    (auth_check lib app env store (request (some (codes "Basic bO:tok")) none)).0
    ≡ admitted (some as_bo) []
unfolding auth_check is_samesite_refused check_header check_basic session_first throttled
    check_throttle query_counts decide fresh_entry count_since insert_entry ip_to_subnet
    is_ip_allowlisted parse_ip values_with_prefix get_int get_raw verify_password extract_basic
    verify_basic try_app_token find_token token_hash split_once finish cached_user_state
    refresh_user_state read_user_state requires_2fa is_admin_user sharing_disabled_for_user
    lookup_user_display_name account_name strip_prefix trim trim_by trim_start_by trim_end_by
    text_eq starts_with
by_app_token = refl

second_factor :
    (auth_check lib app env store (request (some (codes "Basic CY:pw")) none)).0 ≡ challenge_missing
unfolding auth_check is_samesite_refused check_header check_basic session_first throttled
    check_throttle query_counts decide fresh_entry count_since insert_entry ip_to_subnet
    is_ip_allowlisted parse_ip values_with_prefix get_int get_raw verify_password extract_basic
    verify_basic try_app_token find_token find_user token_hash split_once finish cached_user_state
    refresh_user_state read_user_state requires_2fa is_admin_user sharing_disabled_for_user
    lookup_user_display_name account_name strip_prefix trim trim_by trim_start_by trim_end_by
    text_eq starts_with
second_factor = refl

auth_check-IsGenuine_example : IsGenuine lib app env (request none (some guarded)) store as_al
auth_check-IsGenuine_example =
    auth_check-IsGenuine lib app env (request none (some guarded)) store as_al al.set_cookies
      by_cookies

-- A second and a half later.
abbrev later : Env
later = record env { instant = 1_600 }

cookie_named : session_cookie_value app.instanceid guarded ≡ some (codes "abc")
unfolding session_cookie_value cookie_value first_value pair_value split split_parts strip_prefix
    trim trim_by trim_start_by trim_end_by text_eq
cookie_named = refl

-- A request that Rust serves, and a proxied one with the same cookies.
session_auth-again_example :
    session_auth lib app later
      (session_auth lib app env new_session_cache guarded true).1
      guarded
      false
    ≡ told lib app guarded
        (codes "abc")
        refl
        cookie_named
        true
        false
        later
        new_session_cache
        (session_auth lib app env new_session_cache guarded true).1
        (env.resolve guarded true)
unfolding cache_lookup entry_lookup
session_auth-again_example =
    session_auth-again lib app guarded (codes "abc") refl cookie_named env later true false
      new_session_cache refl refl refl (omega arith) (omega arith)

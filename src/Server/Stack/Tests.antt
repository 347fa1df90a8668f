-- ===== src/Server/Stack/Tests.antt =====
-- Runs of the stack of core-rs/crates/nc-server/src/router.rs at a small site, and its law there.
use nc_server_rs.Prelude.{◌≡◌, refl, true, false, none, some, [], ◌∷◌, Bool}
use nc_server_rs.Prelude.Net.{v4}
use nc_server_rs.Prelude.Text.{
  Text, codes, text_eq, starts_with, contains_text, strip_prefix, trim_start_by, split, split_parts,
  trim, trim_by, trim_end_by,
}
use nc_server_rs.Auth.Session.{
  cookie_value, first_value, pair_value, session_cookie_value, cache_lookup, entry_lookup,
  has_session, check_samesite_cookies,
}
use nc_server_rs.Auth.Users.{AuthInfo, session, is_admin_user}
use nc_server_rs.Server.ClientIdentity.{
  Regexes, resolve, trusted_domains_response, server_protocol, server_proto, is_trusted_proxy,
}
use nc_server_rs.Server.Maintenance.{plain_text, maintenance_check}
use nc_server_rs.Server.Routes.{dav_served_by_rust, trim_start_matches, trim_rounds}
use nc_server_rs.Server.AuthCheck.{
  is_samesite_refused, check_header, check_cookies, session_auth, resolve_miss, auth_check,
  dav_session_guard, is_dav_path,
}
use nc_server_rs.Server.AuthCheck.Samples.{lib, app, env, store, al, guarded, headers_of}
use nc_server_rs.Server.Stack.{
  Arrival, Site, in_maintenance, handled, is_static, try_static_files_check, past_static,
  http_middleware_stack,
}
use nc_server_rs.Server.Stack.Confined.{Confined}

abbrev plain : Regexes
plain = record { Regex = Text; new = λ s. some s; is_match = text_eq; escape = λ s. s }

abbrev site : Site
site = record {
  cfg = record {
    installed = false;
    trusted_proxies = none;
    forwarded_for_headers = none;
    overwritecondaddr = none;
    overwriteprotocol = none;
    overwritehost = none;
    trusted_domains = none;
  };
  app = app;
  static_prefixes = codes "/core/" ∷ [];
}

abbrev everywhere : Text → Bool
everywhere path = true

abbrev arrival : Arrival
arrival = record {
  path = codes "/remote.php/dav/files/al/x";
  query = none;
  method = codes "GET";
  headers = headers_of none (some guarded);
  peer = v4 3_221_225_991;
}

abbrev as_al : AuthInfo
as_al = record {
  uid = codes "al";
  is_admin = false;
  method = session;
  token_id = none;
  raw_token = none;
}

abbrev script : Arrival
script = record arrival { path = codes "/core/a.js" }

outside :
    try_static_files_check everywhere site.static_prefixes (codes "GET") (codes "/core/../config")
    ≡ false
unfolding try_static_files_check is_static starts_with contains_text strip_prefix text_eq
outside = refl

held_up :
    (http_middleware_stack plain (λ s. s) lib everywhere site true env store arrival).0
    ≡ in_maintenance plain_text
unfolding http_middleware_stack past_static trusted_domains_response maintenance_check
    try_static_files_check is_static starts_with contains_text strip_prefix text_eq
held_up = refl

passes :
    (http_middleware_stack plain (λ s. s) lib everywhere site false env store arrival).0
    ≡ handled (some as_al) al.set_cookies
unfolding http_middleware_stack past_static trusted_domains_response maintenance_check
    try_static_files_check is_static resolve server_protocol server_proto is_trusted_proxy
    auth_check is_samesite_refused check_header check_cookies session_auth resolve_miss
    session_cookie_value cookie_value first_value pair_value has_session check_samesite_cookies
    split split_parts strip_prefix trim trim_by trim_start_by trim_end_by text_eq starts_with
    contains_text cache_lookup entry_lookup is_admin_user dav_session_guard dav_served_by_rust
    trim_start_matches trim_rounds is_dav_path
passes = refl

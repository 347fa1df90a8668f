-- ===== src/Server/AuthCheck/Samples.antt =====
-- A small site for the runs: digests are the texts themselves, PHP knows the session `abc` of the
-- user `al`, and the table of tokens has one row, of the user `bo`.
use nc_server_rs.Prelude.{true, false, Option, none, some, [], ◌∷◌, if◌then◌else◌, map}
use nc_server_rs.Prelude.Int.{pos}
use nc_server_rs.Prelude.Text.{Text, codes, text_eq, to_ascii_lower, contains_text}
use nc_server_rs.Auth.Session.{SessionResolveResult, new_session_cache}
use nc_server_rs.Auth.Tokens.{TokenRow, new_token_cache}
use nc_server_rs.Auth.Users.{UserTables}
use nc_server_rs.Server.Routes.{samesite_gated_prefixes}
use nc_server_rs.Server.AuthCheck.{Request, AppState, Store, Library, Env}

abbrev pub lib : Library
lib = record {
  sha256 = λ s. s;
  sha512 = λ s. s;
  base64 = λ s. some s;
  from_utf8 = λ s. some s;
  verify = text_eq;
  lower = map to_ascii_lower;
  json_list = λ s. none;
  json_name = λ s. none;
}

abbrev pub app : AppState
app = record {
  instanceid = codes "oc1";
  secret = none;
  session_cache_ttl = none;
  samesite_gated_prefixes = samesite_gated_prefixes;
  has_session_cache = true;
  has_fastcgi = true;
}

abbrev pub tables : UserTables
tables = record {
  memberships = some (record { gid = codes "admin"; uid = codes "bo" } ∷ []);
  providers = some (record { uid = codes "cy"; enabled = 1 } ∷ []);
  exclude_groups = none;
  exclude_groups_list = none;
  displayname = none;
  account = none;
}

abbrev pub token : TokenRow
token = record {
  id = pos 7;
  uid = codes "bo";
  login_name = codes "Bo";
  token = codes "tok";
  token_type = none;
  scope = none;
  expires = some (pos 2_000);
  last_activity = none;
}

abbrev pub al : SessionResolveResult
al = record {
  identity = record { uid = codes "al"; dav_authenticated_uid = none };
  set_cookies = codes "nc_token=n" ∷ [];
}

abbrev pub env : Env
env = record {
  world = record {
    protection_enabled = true;
    appconfig = [];
    attempts = [];
    short_ok = true;
    long_ok = true;
    now = 1_000;
    instant = 100;
  };
  permit = true;
  resolve = λ cookies login. if contains_text (codes "oc1=abc") cookies then some al else none;
  instant = 100;
  lookup = record { rows = token ∷ []; query_ok = true; now = pos 1_000; instant = 100 };
  user_rows = record { uid = codes "cy"; uid_lower = codes "cy"; password = codes "pw" } ∷ [];
  users_ok = true;
  user_tables = λ uid. tables;
  record_ok = true;
  record_now = 1_000;
}

abbrev pub store : Store
store = record {
  sessions = new_session_cache;
  tokens = new_token_cache;
  users = λ uid. none;
  counts = [];
  attempts = [];
}

abbrev pub guarded : Text
guarded = codes "oc1=abc; nc_sameSiteCookielax=true; nc_sameSiteCookiestrict=true"

abbrev pub headers_of : Option Text → Option Text → Text → Option Text
headers_of authorization cookie name =
    if text_eq name (codes "authorization")
    then authorization
    else if text_eq name (codes "cookie")
    then cookie
    else none

abbrev pub request : Option Text → Option Text → Request
request authorization cookie = record {
  path = codes "/remote.php/dav/files/al/x";
  method = codes "GET";
  headers = headers_of authorization cookie;
  identity = some (codes "192.0.2.7", false);
}

-- ===== src/Server/Stack.antt =====
-- core-rs/crates/nc-server/src/router.rs: the stack that every request goes through before its
-- route: static files, the trusted host, maintenance, and who the request comes from.
pub mod Confined
mod Tests
use nc_server_rs.Prelude.{
  Bool, true, false, ◌&&◌, ◌||◌, not, Option, none, some, List, [], ◌∷◌, ◌++◌, if◌then◌else◌, any,
}
use nc_server_rs.Prelude.Net.{IpAddr, print_ip}
use nc_server_rs.Prelude.Text.{
  Text, codes, text_eq, starts_with, strip_prefix, contains_text, trim_start_by,
}
use nc_server_rs.Auth.Users.{AuthInfo}
use nc_server_rs.Server.ClientIdentity.{
  Config, Regexes, ClientIdentity, Refusal, resolve, trusted_domains_response,
}
use nc_server_rs.Server.Maintenance.{Body, maintenance_check}
use nc_server_rs.Server.AuthCheck.{
  Request, AppState, Store, Library, Env, Outcome, admitted, unauthorized, challenge_missing,
  precondition_failed, too_many_requests, internal_error, auth_check,
}
use nc_server_rs.Prelude.{◌==◌}

-- What arrives: the path, the query, the method, the headers and the peer.
pub record Arrival : Type 0 where
  pub path : Text
  pub query : Option Text
  pub method : Text
  pub headers : Text → Option Text
  pub peer : IpAddr

pub record Site : Type 0 where
  pub cfg : Config
  pub app : AppState
  pub static_prefixes : List Text

-- The answer, or the identity and the cookies with which the routes go on.
pub data Reply : Type 0 where
  static_file : Text → Reply
  untrusted : Refusal → Reply
  in_maintenance : Body → Reply
  rejected : Outcome → Reply
  handled : Option AuthInfo → List Text → Reply

unfoldable pub is_static : List Text → Text → Bool
is_static prefixes path =
    any (λ p. starts_with p path) prefixes
    || text_eq path (codes "/robots.txt")
    || text_eq path (codes "/index.html")

-- `is_file` is whether there is a regular file at a path below the root.
unfoldable pub try_static_files_check : (Text → Bool) → List Text → Text → Text → Bool
try_static_files_check is_file prefixes method path =
    (text_eq method (codes "GET") || text_eq method (codes "HEAD"))
    && is_static prefixes path
    && not (contains_text (codes ".php") path)
    && not (contains_text (codes "..") path)
    && is_file (trim_start_by (λ c. c == b'/') path)

abbrev pub path_info_of : Text → Text
path_info_of path = elim (strip_prefix (codes "/index.php") path) [ some rest ↦ rest | none ↦ path ]

abbrev pub uri_with_query : Text → Option Text → Text
uri_with_query path (some q) = path ++ (codes "?" ++ q)
uri_with_query path none = path

abbrev pub reply_of : Outcome → Reply
reply_of (admitted info cookies) = handled info cookies
reply_of (unauthorized www_authenticate) = rejected (unauthorized www_authenticate)
reply_of challenge_missing = rejected challenge_missing
reply_of precondition_failed = rejected precondition_failed
reply_of (too_many_requests retry_after) = rejected (too_many_requests retry_after)
reply_of internal_error = rejected internal_error

module _ (rx : Regexes) (lower : Text → Text) (lib : Library) (is_file : Text → Bool) where
  abbrev pub request_of : Site → Arrival → Request
  request_of site a =
      let identity : ClientIdentity = resolve rx lower a.headers a.peer site.cfg in
      record {
        path = a.path;
        method = a.method;
        headers = a.headers;
        identity = some (print_ip identity.ip, identity.https);
      }

  abbrev pub refusal_of : Site → Arrival → Option Refusal
  refusal_of site a =
      trusted_domains_response rx lower site.cfg a.peer a.headers (uri_with_query a.path a.query)
        (path_info_of a.path)

  -- From the trusted host on; `maintenance` is whether the mode is on.
  unfoldable pub past_static : Site → Bool → Env → Store → Arrival → Reply × Store
  past_static site maintenance env st a = elim (refusal_of site a) [
    | some refusal ↦ (untrusted refusal, st)
    | none ↦ elim (maintenance_check maintenance a.path) [
      | some body ↦ (in_maintenance body, st)
      | none ↦
          let (outcome, after) = auth_check lib site.app env st (request_of site a) in
          (reply_of outcome, after)
    ]
  ]

  unfoldable pub http_middleware_stack : Site → Bool → Env → Store → Arrival → Reply × Store
  http_middleware_stack site maintenance env st a =
      if try_static_files_check is_file site.static_prefixes a.method a.path
      then (static_file a.path, st)
      else past_static site maintenance env st a

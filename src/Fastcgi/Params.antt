-- ===== src/Fastcgi/Params.antt =====
-- core-rs/crates/nc-fastcgi/src/lib.rs: the parameters that PHP gets with a request. The map of
-- parameters is the list of what was inserted, the latest first, and a lookup takes the latest.
pub mod Trust
mod Tests
use nc_server_rs.Prelude.{
  ℕ, ◌+◌, ◌-◌, ◌==◌, Bool, true, false, ◌&&◌, ◌||◌, not, Option, none, some, List, [], ◌∷◌, ◌++◌,
  leb, if◌then◌else◌, map, any, take, drop,
}
use nc_server_rs.Prelude.Decimal.{decimal}
use nc_server_rs.Prelude.Net.{IpAddr, print_ip}
use nc_server_rs.Prelude.Search.{find_subsequence}
use nc_server_rs.Prelude.Text.{Text, codes, text_eq, starts_with, to_ascii_lower, trim_start_by}
use nc_server_rs.Auth.Users.{AuthInfo}
use nc_server_rs.Server.ClientIdentity.{ClientIdentity, to_ascii_upper}

abbrev pub Params : Type 0
Params = List (Text × Text)

unfoldable pub get_param : Params → Text → Option Text
get_param [] key = none
get_param ((k, v) ∷ params) key =
    let rest = get_param params key in if text_eq k key then some v else rest

-- The entries of a header map: names in lower case, and the values that are visible ASCII.
abbrev pub HeaderList : Type 0
HeaderList = List (Text × Option Text)

abbrev pub stripped : List Text
stripped =
    codes "content-type"
    ∷ codes "content-length"
    ∷ codes "x-nc-user"
    ∷ codes "x-nc-session-token"
    ∷ codes "x-nc-is-admin"
    ∷ codes "x-nc-proxied"
    ∷ []

abbrev pub is_stripped : Text → Bool
is_stripped name = any (λ s. text_eq s (map to_ascii_lower name)) stripped

abbrev pub key_char : ℕ → ℕ
key_char c = let u = to_ascii_upper c in if u == b'-' then b'_' else u

abbrev pub param_key : Text → Text
param_key name = codes "HTTP_" ++ map key_char name

unfoldable pub build_fcgi_params : HeaderList → List (Text × Text)
build_fcgi_params [] = []
build_fcgi_params ((name, value) ∷ headers) =
    let rest = build_fcgi_params headers in
    if is_stripped name
    then rest
    else elim value [ some v ↦ (param_key name, v) ∷ rest | none ↦ rest ]

-- Each is inserted behind those before it.
unfoldable pub insert_all : List (Text × Text) → Params → Params
insert_all [] params = params
insert_all (p ∷ ps) params = insert_all ps (p ∷ params)

unfoldable pub derive_script_info : Text → Text × Text
derive_script_info uri_path = elim (find_subsequence (codes ".php") uri_path) [
  | some at ↦ (take (at + 4) uri_path, drop (at + 4) uri_path)
  | none ↦ (codes "/index.php", uri_path)
]

unfoldable pub header_str : HeaderList → Text → Text
header_str [] name = []
header_str ((n, value) ∷ headers) name =
    let rest = header_str headers name in
    if text_eq n name then elim value [ some v ↦ v | none ↦ [] ] else rest

pub record FastCgiState : Type 0 where
  pub nc_root : Text
  pub shim_path : Text

pub record Parts : Type 0 where
  pub method : Text
  pub uri_path : Text
  pub query : Option Text
  pub headers : HeaderList
  pub identity : Option ClientIdentity
  pub auth_info : Option AuthInfo

-- `Path::join`, for a part that does not begin with a slash.
abbrev pub join : Text → Text → Text
join root part = root ++ (codes "/" ++ part)

abbrev pub flag : Bool → Text → Text → Text
flag b set unset = if b then set else unset

unfoldable pub request_params : FastCgiState → Parts → Params
request_params fpm parts =
    let (script_rel, path_info) = derive_script_info parts.uri_path in
    let identity = parts.identity in
    (codes "PATH_INFO", path_info)
    ∷ (codes "CONTENT_LENGTH", header_str parts.headers (codes "content-length"))
    ∷ (codes "CONTENT_TYPE", header_str parts.headers (codes "content-type"))
    ∷ (codes "QUERY_STRING", elim parts.query [ some q ↦ q | none ↦ [] ])
    ∷ (
      codes "REQUEST_URI",
      elim parts.query [ some q ↦ parts.uri_path ++ (codes "?" ++ q) | none ↦ parts.uri_path ],
    )
    ∷ (codes "SCRIPT_NAME", script_rel)
    ∷ (codes "NC_ROOT", fpm.nc_root)
    ∷ (codes "NC_ORIGINAL_SCRIPT", join fpm.nc_root (trim_start_by (λ c. c == b'/') script_rel))
    ∷ (codes "HTTPS", elim identity [ some i ↦ flag i.https (codes "on") [] | none ↦ [] ])
    ∷ (codes "REMOTE_ADDR", elim identity [ some i ↦ print_ip i.ip | none ↦ codes "127.0.0.1" ])
    ∷ (codes "SERVER_PORT", elim identity [ some i ↦ decimal i.port | none ↦ codes "80" ])
    ∷ (codes "SERVER_NAME", elim identity [ some i ↦ i.host | none ↦ codes "localhost" ])
    ∷ (codes "SCRIPT_FILENAME", fpm.shim_path)
    ∷ (codes "REQUEST_METHOD", parts.method)
    ∷ (codes "SERVER_PROTOCOL", codes "HTTP/1.1")
    ∷ (codes "SERVER_SOFTWARE", codes "nc-server/0.1")
    ∷ (codes "GATEWAY_INTERFACE", codes "CGI/1.1")
    ∷ []

unfoldable pub inject_identity : Option AuthInfo → Params → Params
inject_identity none params = params
inject_identity (some info) params =
    let known =
      (codes "HTTP_X_NC_IS_ADMIN", flag info.is_admin (codes "1") (codes "0"))
      ∷ (codes "HTTP_X_NC_USER", info.uid)
      ∷ params in
    elim info.raw_token [
      | some token ↦ (codes "HTTP_X_NC_SESSION_TOKEN", token) ∷ known
      | none ↦ known
    ]

unfoldable pub proxy_params : FastCgiState → Parts → Params
proxy_params fpm parts =
    (codes "HTTP_X_NC_PROXIED", codes "1")
    ∷ inject_identity parts.auth_info
        (insert_all (build_fcgi_params parts.headers) (request_params fpm parts))

unfoldable pub resolve_params : FastCgiState → Text → Bool → Params
resolve_params fpm raw_cookie_header login =
    (codes "NC_SESSION_RESOLVE_LOGIN", flag login (codes "1") (codes "0"))
    ∷ (codes "HTTP_X_NC_PROXIED", codes "1")
    ∷ (codes "HTTP_COOKIE", raw_cookie_header)
    ∷ (codes "NC_ROOT", fpm.nc_root)
    ∷ (codes "PATH_INFO", [])
    ∷ (codes "CONTENT_LENGTH", codes "0")
    ∷ (codes "CONTENT_TYPE", [])
    ∷ (codes "QUERY_STRING", [])
    ∷ (codes "REQUEST_URI", codes "/__session_resolve")
    ∷ (codes "SCRIPT_NAME", codes "/__session_resolve")
    ∷ (codes "NC_ORIGINAL_SCRIPT", codes "__session_resolve")
    ∷ (codes "SCRIPT_FILENAME", fpm.shim_path)
    ∷ (codes "REQUEST_METHOD", codes "GET")
    ∷ (codes "SERVER_PROTOCOL", codes "HTTP/1.1")
    ∷ (codes "SERVER_SOFTWARE", codes "nc-server/0.1")
    ∷ (codes "GATEWAY_INTERFACE", codes "CGI/1.1")
    ∷ []

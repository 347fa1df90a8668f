-- ===== src/Server/AuthCheck.antt =====
-- core-rs/crates/nc-server/src/middleware/auth.rs: who a request comes from. The caches, the table
-- of failed attempts and the count of them are a store that a check is given and gives back; what
-- the queries, the clocks and the interpreter of PHP answer is its environment.
pub mod Sessions
pub mod Genuine
pub mod Samples
mod Tests
use nc_server_rs.Prelude.{
  ℕ, ◌*◌, Bool, true, false, ◌&&◌, ◌||◌, not, Option, none, some, List, [], ◌∷◌, ◌++◌,
  if◌then◌else◌, any, map,
}
use nc_server_rs.Prelude.Int.{ℤ, pos}
use nc_server_rs.Prelude.Text.{Text, codes, text_eq, starts_with, contains_text, to_ascii_lower}
use nc_server_rs.Db.AppConfig.{get_bool}
use nc_server_rs.Auth.Bruteforce.{
  World, CountEntry, Attempt, ThrottleResult, check_throttle, record_attempt,
}
use nc_server_rs.Auth.Session.{
  SessionIdentity, SessionResolveResult, SessionCache, CacheLookup, hit, rejected, miss,
  cache_lookup, cache_insert, cache_insert_negative, session_cookie_value, has_remember_me_cookies,
  strict_check_failed, check_samesite_cookies, CookieCheck, passed, no_session_cookies,
}
use nc_server_rs.Auth.Tokens.{
  CachedToken, TokenCache, Lookup, UserRow, BasicAuthResult, extract_bearer, extract_basic,
  lookup_bearer, verify_basic, or_else,
}
use nc_server_rs.Auth.Users.{
  AuthInfo, bearer, basic, session, UserState, UserStateCache, UserTables, is_admin_user,
  cached_user_state, is_permanent,
}
use nc_server_rs.Server.Routes.{dav_served_by_rust}

-- `headers` gives the first value of a header that is visible ASCII, `identity` the address that
-- was resolved, printed, and whether the scheme is https.
pub record Request : Type 0 where
  pub path : Text
  pub method : Text
  pub headers : Text → Option Text
  pub identity : Option (Text × Bool)

-- What stays the same from one request to the next.
pub record AppState : Type 0 where
  pub instanceid : Text
  pub secret : Option Text
  pub session_cache_ttl : Option ℕ
  pub samesite_gated_prefixes : List Text
  pub has_session_cache : Bool
  pub has_fastcgi : Bool

pub record Store : Type 0 where
  pub sessions : SessionCache
  pub tokens : TokenCache
  pub users : UserStateCache
  pub counts : List CountEntry
  pub attempts : List Attempt

-- Where the code is not in the repository: SHA-256, SHA-512, Base64, UTF-8, the check of a
-- password, `to_lowercase`, and JSON.
pub record Library : Type 0 where
  pub sha256 : Text → Text
  pub sha512 : Text → Text
  pub base64 : Text → Option Text
  pub from_utf8 : Text → Option Text
  pub verify : Text → Text → Bool
  pub lower : Text → Text
  pub json_list : Text → Option (List Text)
  pub json_name : Text → Option Text

-- `world` is what the throttle meets, but for the attempts; `permit` whether a permit for the
-- resolution comes in time, `resolve` what PHP answers to cookies and a login flag; `lookup` and
-- the rest is what is met after the delay of the throttle.
pub record Env : Type 0 where
  pub world : World
  pub permit : Bool
  pub resolve : Text → Bool → Option SessionResolveResult
  pub instant : ℕ
  pub lookup : Lookup
  pub user_rows : List UserRow
  pub users_ok : Bool
  pub user_tables : Text → UserTables
  pub record_ok : Bool
  pub record_now : ℕ

pub data Outcome : Type 0 where
  admitted : Option AuthInfo → List Text → Outcome
  unauthorized : Option Text → Outcome
  challenge_missing : Outcome
  precondition_failed : Outcome
  too_many_requests : ℕ → Outcome
  internal_error : Outcome

unfoldable pub is_dav_path : Text → Bool
is_dav_path path =
    starts_with (codes "/remote.php") path
    || starts_with (codes "/dav") path
    || starts_with (codes "/public.php") path

unfoldable pub should_cache_negative_resolve : Bool → Bool → Bool
should_cache_negative_resolve login has_remember_me = login || not has_remember_me

unfoldable pub dav_session_guard : Text → Option Text → Bool
dav_session_guard uid none = true
dav_session_guard uid (some dav_uid) = text_eq dav_uid uid

-- The `WWW-Authenticate` of a 401, if it has one.
unfoldable pub build_401 : Bool → Bool → Bool → Outcome
build_401 send_www_auth is_xhr is_dav =
    if not send_www_auth
    then unauthorized none
    else unauthorized (
        some (
          (if is_xhr then codes "DummyBasic" else codes "Basic")
          ++ (codes " realm=\""
              ++ ((if is_dav then codes "Nextcloud" else codes "Authorisation Required")
                  ++ codes "\""))))

abbrev pub is_equal_ignoring_case : Text → Text → Bool
is_equal_ignoring_case s t = text_eq (map to_ascii_lower s) (map to_ascii_lower t)

abbrev pub is_header : Request → Text → Text → Bool
is_header req name value = elim (req.headers name) [
  | none ↦ false
  | some v ↦ is_equal_ignoring_case v value
]

abbrev pub positive_ttl_of : AppState → ℕ
positive_ttl_of app = or_else app.session_cache_ttl 60 * 1_000

module _ (lib : Library) (app : AppState) where
  -- A miss: the resolution by PHP, with a permit.
  unfoldable pub resolve_miss :
      Env → SessionCache → Text → Text → Bool → Option SessionResolveResult × SessionCache
  resolve_miss env cache key cookie_header login =
      if not app.has_fastcgi || not env.permit
      then (none, cache)
      else elim (env.resolve cookie_header login) [
        | some result ↦ (some result, cache_insert cache key result.identity env.instant)
        | none ↦ (
          none,
          if should_cache_negative_resolve login (has_remember_me_cookies cookie_header)
              then cache_insert_negative cache key env.instant
              else cache,
        )
      ]

  unfoldable pub session_auth :
      Env → SessionCache → Text → Bool → Option SessionResolveResult × SessionCache
  session_auth env cache cookie_header login =
      if not app.has_session_cache
      then (none, cache)
      else elim (session_cookie_value app.instanceid cookie_header) [
        | none ↦ (none, cache)
        | some raw_val ↦
            let key = lib.sha256 raw_val in
            elim (cache_lookup cache key (positive_ttl_of app) env.instant) [
              | hit identity ↦ (some (record { identity = identity; set_cookies = [] }), cache)
              | rejected ↦ (none, cache)
              | miss ↦ resolve_miss env cache key cookie_header login
            ]
      ]

  abbrev pub session_info : Env → SessionResolveResult → AuthInfo
  session_info env sa = record {
    uid = sa.identity.uid;
    is_admin = is_admin_user (env.user_tables sa.identity.uid) sa.identity.uid;
    method = session;
    token_id = none;
    raw_token = none;
  }

  abbrev pub passes_guard : Bool → SessionResolveResult → Bool
  passes_guard is_dav sa =
      not is_dav || dav_session_guard sa.identity.uid sa.identity.dav_authenticated_uid

  abbrev pub secret_of : Text
  secret_of = or_else app.secret []

  -- The second factor and the groups, for credentials that are right.
  unfoldable pub finish : Env → Store → AuthInfo → ℤ → Outcome × Store
  finish env st info token_type =
      let (found, users) =
        cached_user_state lib.json_list lib.json_name (env.user_tables info.uid) st.users info.uid
          env.instant in
      let after = record st { users = users } in
      elim found [
        | none ↦ (internal_error, after)
        | some state ↦
            if not (is_permanent token_type) && state.twofa_enabled
            then (challenge_missing, after)
            else (admitted (some (record info { is_admin = state.is_admin })) [], after)
      ]

  abbrev pub client_ip_of : Request → Text
  client_ip_of req = elim req.identity [ some (ip, https) ↦ ip | none ↦ codes "127.0.0.1" ]

  -- The store with a failed attempt.
  abbrev pub refused : Env → Store → Request → Store
  refused env st req = record st {
    attempts =
        record_attempt env.record_ok env.record_now (codes "login") (client_ip_of req) st.attempts;
  }

  abbrev pub throttle_of : Env → Store → Request → ThrottleResult × List CountEntry
  throttle_of env st req =
      check_throttle (record env.world { attempts = st.attempts }) st.counts (codes "login")
        (client_ip_of req)

  abbrev pub is_xhr_of : Request → Bool
  is_xhr_of req = is_header req (codes "x-requested-with") (codes "XMLHttpRequest")

  unfoldable pub verify_token : Env → Store → Request → Text → Outcome × Store
  verify_token env st req ah =
      let raw = or_else (extract_bearer ah) [] in
      let (found, tokens) = lookup_bearer lib.sha512 env.lookup st.tokens secret_of raw in
      let after = record st { tokens = tokens } in
      elim found [
        | some cached ↦
            finish env after
              (record {
                uid = cached.uid;
                is_admin = false;
                method = bearer;
                token_id = some cached.id;
                raw_token = extract_bearer ah;
              })
              cached.token_type
        | none ↦ (
          build_401
              (get_bool env.world.appconfig (codes "oauth2") (codes "enable_oc_clients")
                && contains_text (codes "mirall") (or_else (req.headers (codes "user-agent")) []))
              (is_xhr_of req) (is_dav_path req.path),
          refused env after req,
        )
      ]

  unfoldable pub verify_password : Env → Store → Request → Text → Outcome × Store
  verify_password env st req ah = elim (extract_basic lib.base64 lib.from_utf8 ah) [
    | none ↦ (build_401 true (is_xhr_of req) (is_dav_path req.path), st)
    | some (login, password) ↦
        elim (verify_basic lib.sha512 lib.lower lib.verify env.lookup env.user_rows env.users_ok
          login password secret_of) [
            | some result ↦
                finish env st
                  (record {
                    uid = result.uid;
                    is_admin = false;
                    method = basic;
                    token_id = result.token_id;
                    raw_token = elim result.token_id [ some _ ↦ some password | none ↦ none ];
                  })
                  (or_else result.token_type (pos 0))
            | none ↦ (build_401 true (is_xhr_of req) (is_dav_path req.path), refused env st req)
          ]
  ]

  -- Behind the throttle; its delay shows in the environment only.
  unfoldable pub throttled :
      (Env → Store → Request → Text → Outcome × Store)
      → Env
      → Store
      → Request
      → Text
      → Outcome × Store
  throttled verify env st req ah =
      let (throttle, counts) = throttle_of env st req in
      let after = record st { counts = counts } in
      if throttle.should_reject
      then (too_many_requests throttle.retry_after_secs, after)
      else verify env after req ah

  abbrev pub cookies_of : Request → Text
  cookies_of req = or_else (req.headers (codes "cookie")) []

  abbrev pub serves_self : Request → Bool
  serves_self req = dav_served_by_rust req.path req.method

  -- A session goes before a password.
  unfoldable pub session_first : Env → Store → Request → Option SessionResolveResult × Store
  session_first env st req =
      if text_eq (cookies_of req) []
      then (none, st)
      else (let (found, sessions) =
            session_auth env st.sessions (cookies_of req) (serves_self req) in
          let after = record st { sessions = sessions } in
          elim found [
            | none ↦ (none, after)
            | some sa ↦ (if passes_guard (is_dav_path req.path) sa then some sa else none, after)
          ])

  unfoldable pub check_basic : Env → Store → Request → Text → Outcome × Store
  check_basic env st req ah =
      let (first, after) = session_first env st req in
      elim first [
        | some sa ↦ (admitted (some (session_info env sa)) sa.set_cookies, after)
        | none ↦ throttled verify_password env after req ah
      ]

  unfoldable pub check_cookies : Env → Store → Request → Outcome × Store
  check_cookies env st req =
      let (found, sessions) = session_auth env st.sessions (cookies_of req) (serves_self req) in
      let after = record st { sessions = sessions } in
      elim found [
        | none ↦ (admitted none [], after)
        | some sa ↦
            if passes_guard (is_dav_path req.path) sa
            then (admitted (some (session_info env sa)) sa.set_cookies, after)
            else (build_401 true (is_xhr_of req) true, after)
      ]

  unfoldable pub is_samesite_refused : Request → Bool
  is_samesite_refused req =
      let https : Bool = elim req.identity [ some (ip, https) ↦ https | none ↦ false ] in
      let fails : Bool = elim (check_samesite_cookies (cookies_of req) app.instanceid https) [
        | strict_check_failed ↦ true
        | passed ↦ false
        | no_session_cookies ↦ false
      ] in
      let no_header : Bool = elim (req.headers (codes "authorization")) [
        | none ↦ true
        | some _ ↦ false
      ] in
      no_header
      && not (is_header req (codes "ocs-apirequest") (codes "true"))
      && any (λ p. starts_with p req.path) app.samesite_gated_prefixes
      && fails

  unfoldable pub check_header : Env → Store → Request → Option Text → Outcome × Store
  check_header env st req none = check_cookies env st req
  check_header env st req (some ah) =
      if starts_with (codes "Bearer ") ah
      then throttled verify_token env st req ah
      else if starts_with (codes "Basic ") ah
      then check_basic env st req ah
      else check_cookies env st req

  unfoldable pub auth_check : Env → Store → Request → Outcome × Store
  auth_check env st req =
      if text_eq req.path (codes "/status.php") || text_eq req.path (codes "/heartbeat")
      then (admitted none [], st)
      else if is_samesite_refused req
      then (precondition_failed, st)
      else check_header env st req (req.headers (codes "authorization"))

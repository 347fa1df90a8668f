-- ===== src/Server/AuthCheck/Genuine.antt =====
-- core-rs/crates/nc-server/src/middleware/auth.rs: which identities a request is given.
use nc_server_rs.Prelude.{
  ◌≡◌, refl, sym, ◌∙◌, ap, Bool, true, false, ◌&&◌, not, Option, none, some, List, [], arith,
  Bool-cases, Option-cases, inl, inr,
}
use nc_server_rs.Prelude.Int.{ℤ, pos}
use nc_server_rs.Prelude.Text.{Text, codes, text_eq, starts_with}
use nc_server_rs.Auth.Session.{SessionResolveResult, SessionCache}
use nc_server_rs.Auth.Tokens.{
  CachedToken, BasicAuthResult, extract_bearer, extract_basic, lookup_bearer, verify_basic, or_else,
}
use nc_server_rs.Auth.Users.{AuthInfo, bearer, basic, UserState, cached_user_state, is_permanent}
use nc_server_rs.Server.AuthCheck.{
  Request, AppState, Store, Library, Env, Outcome, admitted, is_dav_path, build_401, session_auth,
  session_info, passes_guard, secret_of, finish, throttle_of, verify_token, verify_password,
  throttled, cookies_of, serves_self, session_first, check_basic, check_cookies, check_header,
  auth_check,
}

module _ (lib : Library) (app : AppState) (env : Env) (req : Request) where
  -- What is known of a user at the check, fresh or from the cache.
  abbrev pub user_state_of : Store → Text → Option UserState
  user_state_of st uid =
      (cached_user_state lib.json_list lib.json_name (env.user_tables uid) st.users uid
        env.instant).0

  -- The user is known, and has no second factor unless the token is permanent.
  abbrev pub Passes : Store → Text → ℤ → Bool → Type 0
  Passes st uid token_type is_admin =
      (state : UserState) × (user_state_of st uid ≡ some state)
      × (state.is_admin ≡ is_admin)
      × ((not (is_permanent token_type) && state.twofa_enabled) ≡ false)

  finish-admitted :
      (st : Store) (info : AuthInfo) (token_type : ℤ) {i : AuthInfo} {cs : List Text}
      → (finish lib app env st info token_type).0 ≡ admitted (some i) cs
      → (i ≡ record info { is_admin = i.is_admin }) × Passes st info.uid token_type i.is_admin
  unfolding finish
  finish-admitted st info token_type {i} {cs} e = elim (Option-cases (user_state_of st info.uid)) [
    | inl missed ↦ absurd (ground arith)
    | inr (state, found) ↦ (ground arith, (state, found, ground arith, ground arith))
  ]

  abbrev pub found_token : Store → Text → Option CachedToken
  found_token st ah =
      (lookup_bearer lib.sha512 env.lookup st.tokens (secret_of lib app)
        (or_else (extract_bearer ah) [])).0

  abbrev pub found_password : Text → Text → Option BasicAuthResult
  found_password login password =
      verify_basic lib.sha512 lib.lower lib.verify env.lookup env.user_rows env.users_ok login
        password (secret_of lib app)

  abbrev pub found_session : Store → Option SessionResolveResult
  found_session st =
      (session_auth lib app env st.sessions (cookies_of lib app req) (serves_self lib app req)).0

  abbrev pub IsUnthrottled : Store → Type 0
  IsUnthrottled st = (throttle_of lib app env st req).0.should_reject ≡ false

  -- Where an identity comes from.
  pub data IsGenuine (st : Store) (i : AuthInfo) : Type 0 where
    by_token :
        (ah : Text) (t : CachedToken)
        → req.headers (codes "authorization") ≡ some ah
        → IsUnthrottled st
        → found_token st ah ≡ some t
        → (i.method ≡ bearer) × (i.uid ≡ t.uid) × (i.token_id ≡ some t.id)
        → Passes st t.uid t.token_type i.is_admin
        → IsGenuine st i
    by_password :
        (ah login password : Text) (result : BasicAuthResult)
        → req.headers (codes "authorization") ≡ some ah
        → IsUnthrottled st
        → extract_basic lib.base64 lib.from_utf8 ah ≡ some (login, password)
        → found_password login password ≡ some result
        → (i.method ≡ basic) × (i.uid ≡ result.uid) × (i.token_id ≡ result.token_id)
        → Passes st result.uid (or_else result.token_type (pos 0)) i.is_admin
        → IsGenuine st i
    by_session :
        (sa : SessionResolveResult)
        → found_session st ≡ some sa
        → passes_guard lib app (is_dav_path req.path) sa ≡ true
        → i ≡ session_info lib app env sa
        → IsGenuine st i

  abbrev counted : Store → SessionCache → Store
  counted st sessions = record st {
    counts = (throttle_of lib app env st req).1;
    sessions = sessions;
  }

  module _ (st : Store) (sessions : SessionCache) (ah : Text)
      (given : req.headers (codes "authorization") ≡ some ah) {i : AuthInfo} {cs : List Text} where
    token-IsGenuine :
        IsUnthrottled st
        → (verify_token lib app env (counted st sessions) req ah).0 ≡ admitted (some i) cs
        → IsGenuine st i
    unfolding verify_token build_401
    token-IsGenuine free e = elim (Option-cases (found_token st ah)) [
      | inl missed ↦ absurd (ground arith)
      | inr (t, found) ↦
          let info : AuthInfo = record {
            uid = t.uid;
            is_admin = false;
            method = bearer;
            token_id = some t.id;
            raw_token = extract_bearer ah;
          } in
          let tokens =
            (lookup_bearer lib.sha512 env.lookup st.tokens (secret_of lib app)
              (or_else (extract_bearer ah) [])).1 in
          let done : (finish lib app env (record (counted st sessions) { tokens = tokens }) info
                t.token_type).0
              ≡ admitted (some i) cs =
            ground arith in
          let (shape, passes) =
            finish-admitted (record (counted st sessions) { tokens = tokens }) info t.token_type
              done in
          by_token ah t given free found
            (
              ap (λ (r : AuthInfo). r.method) shape,
              ap (λ (r : AuthInfo). r.uid) shape,
              ap (λ (r : AuthInfo). r.token_id) shape,
            )
            passes
    ]

    password-IsGenuine :
        IsUnthrottled st
        → (verify_password lib app env (counted st sessions) req ah).0 ≡ admitted (some i) cs
        → IsGenuine st i
    unfolding verify_password build_401
    password-IsGenuine free e = elim (Option-cases (extract_basic lib.base64 lib.from_utf8 ah)) [
      | inl garbled ↦ absurd (ground arith)
      | inr ((login, password), read) ↦ elim (Option-cases (found_password login password)) [
        | inl missed ↦ absurd (ground arith)
        | inr (result, found) ↦
            let raw : Option Text = elim result.token_id [ some _ ↦ some password | none ↦ none ] in
            let info : AuthInfo = record {
              uid = result.uid;
              is_admin = false;
              method = basic;
              token_id = result.token_id;
              raw_token = raw;
            } in
            let token_type = or_else result.token_type (pos 0) in
            let done : (finish lib app env (counted st sessions) info token_type).0
                ≡ admitted (some i) cs =
              ground arith in
            let (shape, passes) = finish-admitted (counted st sessions) info token_type done in
            by_password ah login password result given free read found
              (
                ap (λ (r : AuthInfo). r.method) shape,
                ap (λ (r : AuthInfo). r.uid) shape,
                ap (λ (r : AuthInfo). r.token_id) shape,
              )
              passes
      ]
    ]

  throttled-IsGenuine :
      (verify : Env → Store → Request → Text → Outcome × Store) (st : Store)
      (sessions : SessionCache) (ah : Text) {i : AuthInfo} {cs : List Text}
      → (IsUnthrottled st
          → (verify env (counted st sessions) req ah).0 ≡ admitted (some i) cs
          → IsGenuine st i)
      → (throttled lib app verify env (record st { sessions = sessions }) req ah).0
        ≡ admitted (some i) cs
      → IsGenuine st i
  unfolding throttled
  throttled-IsGenuine verify st sessions ah verified e =
      elim (Bool-cases (throttle_of lib app env st req).0.should_reject) [
        | inl rejects ↦ absurd (ground arith)
        | inr free ↦ verified free (ground arith)
      ]

  cookies-IsGenuine :
      (st : Store) {i : AuthInfo} {cs : List Text}
      → (check_cookies lib app env st req).0 ≡ admitted (some i) cs
      → IsGenuine st i
  unfolding check_cookies build_401
  cookies-IsGenuine st e = elim (Option-cases (found_session st)) [
    | inl missed ↦ absurd (ground arith)
    | inr (sa, found) ↦ elim (Bool-cases (passes_guard lib app (is_dav_path req.path) sa)) [
      | inl passes ↦ by_session sa found passes (ground arith)
      | inr fails ↦ absurd (ground arith)
    ]
  ]

  -- A session that goes first is one that passes, and only the cache of sessions changes.
  session_first_lem :
      (st : Store)
      → ((sa : SessionResolveResult)
          → (session_first lib app env st req).0 ≡ some sa
          → (found_session st ≡ some sa) × (passes_guard lib app (is_dav_path req.path) sa ≡ true))
        × ((session_first lib app env st req).1
            ≡ record st { sessions = (session_first lib app env st req).1.sessions })
  unfolding session_first
  session_first_lem st = elim (Bool-cases (text_eq (cookies_of lib app req) [])) [
    | inl bare ↦ ((λ sa e. absurd (ground arith)), ground arith)
    | inr cookies ↦ elim (Option-cases (found_session st)) [
      | inl missed ↦ ((λ sa e. absurd (ground arith)), ground arith)
      | inr (found, at) ↦ ((λ sa e. (ground arith, ground arith)), ground arith)
    ]
  ]

  basic-IsGenuine :
      (st : Store) (ah : Text)
      → req.headers (codes "authorization") ≡ some ah
      → {i : AuthInfo} {cs : List Text}
      → (check_basic lib app env st req ah).0 ≡ admitted (some i) cs
      → IsGenuine st i
  unfolding check_basic
  basic-IsGenuine st ah given {i} {cs} e =
      let (first, keeps) = session_first_lem st in
      let after = (session_first lib app env st req).1 in
      elim (Option-cases (session_first lib app env st req).0) [
        | inl none_first ↦
            let asked : (throttled lib app (verify_password lib app) env after req ah).0
                ≡ admitted (some i) cs =
              ground arith in
            let asked' : (throttled lib app (verify_password lib app) env
                  (record st { sessions = after.sessions }) req ah).0
                ≡ admitted (some i) cs =
              ap (λ (s : Store). (throttled lib app (verify_password lib app) env s req ah).0)
                (sym keeps)
              ∙ asked in
            throttled-IsGenuine (verify_password lib app) st after.sessions ah
              (password-IsGenuine st after.sessions ah given) asked'
        | inr (sa, found) ↦
            let (was, passes) = first sa found in by_session sa was passes (ground arith)
      ]

  header-IsGenuine :
      (st : Store) (header : Option Text)
      → req.headers (codes "authorization") ≡ header
      → {i : AuthInfo} {cs : List Text}
      → (check_header lib app env st req header).0 ≡ admitted (some i) cs
      → IsGenuine st i
  unfolding check_header
  header-IsGenuine st none given e = cookies-IsGenuine st e
  header-IsGenuine st (some ah) given {i} {cs} e =
      elim (Bool-cases (starts_with (codes "Bearer ") ah)) [
        | inl is_bearer ↦
            throttled-IsGenuine (verify_token lib app) st st.sessions ah {i = i} {cs = cs}
              (token-IsGenuine st st.sessions ah given) (ground arith)
        | inr other ↦ elim (Bool-cases (starts_with (codes "Basic ") ah)) [
          | inl is_basic ↦ basic-IsGenuine st ah given {i = i} {cs = cs} (ground arith)
          | inr neither ↦ cookies-IsGenuine st {i = i} {cs = cs} (ground arith)
        ]
      ]

  -- Whatever a request is given as its identity is one of three. It is the user of a token that a
  -- lookup of the bearer value finds, or of a password or app token that verifies, each only if
  -- the throttle lets the address through, the state of the user is known, the identity has its
  -- admin flag, and the user has no second factor unless the token is permanent. Or it is the user
  -- of the session of the request's cookies, which on a DAV path is bound to no other user.
  pub auth_check-IsGenuine :
      (st : Store) (i : AuthInfo) (cs : List Text)
      → (auth_check lib app env st req).0 ≡ admitted (some i) cs
      → IsGenuine st i
  unfolding auth_check
  auth_check-IsGenuine st i cs e =
      header-IsGenuine st (req.headers (codes "authorization")) refl {i = i} {cs = cs}
        (ground arith)

-- ===== src/Server/AuthCheck/Sessions.antt =====
-- core-rs/crates/nc-server/src/middleware/auth.rs: what one resolution of a session by PHP means
-- for the requests after it.
use nc_server_rs.Prelude.{
  ℕ, ◌-◌, ◌<◌, ◌≡◌, refl, Bool, true, Option, none, some, [], arith, if◌then◌else◌, Bool-cases, inl,
  inr,
}
use nc_server_rs.Prelude.Text.{Text, text_eq_refl}
use nc_server_rs.Auth.Session.{
  SessionIdentity, SessionResolveResult, SessionCache, hit, rejected, miss, put_entry, cache_lookup,
  cache_insert, cache_insert_negative, entry_lookup, session_cookie_value, has_remember_me_cookies,
  session_negative_cache_ttl,
}
use nc_server_rs.Server.AuthCheck.{
  AppState, Library, Env, should_cache_negative_resolve, positive_ttl_of, resolve_miss,
  session_auth,
}

inserted :
    (cache : SessionCache) (key : Text) (identity : SessionIdentity) (at now ttl : ℕ)
    → now - at < ttl
    → cache_lookup (cache_insert cache key identity at) key ttl now ≡ hit identity
unfolding cache_lookup cache_insert put_entry entry_lookup
inserted cache key identity at now ttl young = ground (arith, text_eq_refl key)

inserted_negative :
    (cache : SessionCache) (key : Text) (at now ttl : ℕ)
    → now - at < session_negative_cache_ttl
    → cache_lookup (cache_insert_negative cache key at) key ttl now ≡ rejected
unfolding cache_lookup cache_insert_negative put_entry entry_lookup
inserted_negative cache key at now ttl young = ground (arith, text_eq_refl key)

module _ (lib : Library) (app : AppState) (cookies raw_val : Text)
    (has_cache : app.has_session_cache ≡ true)
    (named : session_cookie_value app.instanceid cookies ≡ some raw_val) where
  abbrev key_of : Text
  key_of = lib.sha256 raw_val

  -- Where the cache answers, PHP is not asked.
  answered :
      (env : Env) (login : Bool) (cache : SessionCache) {identity : SessionIdentity}
      → cache_lookup cache key_of (positive_ttl_of app) env.instant ≡ hit identity
      → session_auth lib app env cache cookies login
        ≡ (some (record { identity = identity; set_cookies = [] }), cache)
  unfolding session_auth
  answered env login cache e = ground arith

  refuses :
      (env : Env) (login : Bool) (cache : SessionCache)
      → cache_lookup cache key_of (positive_ttl_of app) env.instant ≡ rejected
      → session_auth lib app env cache cookies login ≡ (none, cache)
  unfolding session_auth
  refuses env login cache e = ground arith

  asks :
      (env : Env) (login : Bool) (cache : SessionCache)
      → cache_lookup cache key_of (positive_ttl_of app) env.instant ≡ miss
      → session_auth lib app env cache cookies login
        ≡ resolve_miss lib app env cache key_of cookies login
  unfolding session_auth
  asks env login cache e = ground arith

  -- The answer that a later request has from what PHP answered to one.
  abbrev pub told :
      Bool
      → Bool
      → Env
      → SessionCache
      → SessionCache
      → Option SessionResolveResult
      → Option SessionResolveResult × SessionCache
  told login login' later before after (some r) =
      (some (record { identity = r.identity; set_cookies = [] }), after)
  told login login' later before after none =
      if should_cache_negative_resolve login (has_remember_me_cookies cookies)
      then (none, after)
      else session_auth lib app later before cookies login'

  again :
      (env later : Env) (login login' : Bool) (cache : SessionCache)
      (answer : Option SessionResolveResult)
      → env.resolve cookies login ≡ answer
      → app.has_fastcgi ≡ true
      → env.permit ≡ true
      → later.instant - env.instant < positive_ttl_of app
      → later.instant - env.instant < session_negative_cache_ttl
      → session_auth lib app later
          (resolve_miss lib app env cache key_of cookies login).1
          cookies
          login'
        ≡ told login login' later cache
            (resolve_miss lib app env cache key_of cookies login).1
            answer
  unfolding resolve_miss
  again env later login login' cache (some r) e fpm permit young brief =
      let after = cache_insert cache key_of r.identity env.instant in
      let stored : (resolve_miss lib app env cache key_of cookies login).1 ≡ after = ground arith in
      rw stored (
        answered later login' after
          (inserted cache key_of r.identity env.instant later.instant (positive_ttl_of app) young))
  again env later login login' cache none e fpm permit young brief =
      elim (Bool-cases (should_cache_negative_resolve login (has_remember_me_cookies cookies))) [
        | inl final ↦
            let after = cache_insert_negative cache key_of env.instant in
            let stored : (resolve_miss lib app env cache key_of cookies login).1 ≡ after =
              ground arith in
            rw (stored, final)
              (refuses later login' after (
                inserted_negative cache key_of env.instant later.instant (positive_ttl_of app)
                  brief))
        | inr open_yet ↦
            let stored : (resolve_miss lib app env cache key_of cookies login).1 ≡ cache =
              ground arith in
            rw (stored, open_yet) refl
      ]

  -- If the cache misses a session and PHP is asked about it, a request with the same cookies,
  -- served by Rust or proxied whichever the first was, that is near enough for both lifetimes has
  -- its answer from that: the identity, without new cookies, if PHP gave one; none, if the failure
  -- is final (the first request was served by Rust, or the cookies to be remembered by are not all
  -- there); in both cases nothing more is stored and PHP is not asked. After a failure that is not
  -- final the cache is as if nobody had asked.
  pub session_auth-again :
      (env later : Env) (login login' : Bool) (cache : SessionCache)
      → cache_lookup cache key_of (positive_ttl_of app) env.instant ≡ miss
      → app.has_fastcgi ≡ true
      → env.permit ≡ true
      → later.instant - env.instant < positive_ttl_of app
      → later.instant - env.instant < session_negative_cache_ttl
      → session_auth lib app later (session_auth lib app env cache cookies login).1 cookies login'
        ≡ told login login' later cache
            (session_auth lib app env cache cookies login).1
            (env.resolve cookies login)
  session_auth-again env later login login' cache missed fpm permit young brief =
      rw (asks env login cache missed)
        (again env later login login' cache (env.resolve cookies login) refl fpm permit young brief)

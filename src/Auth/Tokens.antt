-- ===== src/Auth/Tokens.antt =====
-- core-rs/crates/nc-auth/src/token.rs, bearer.rs and basic.rs: tokens of the table `oc_authtoken`,
-- the cache of bearer tokens, and passwords. The table is the list of its rows. SHA-512 with its
-- print in hexadecimal, Base64, UTF-8, the check of a password hash and `to_lowercase` are parameters.
pub mod Cached
mod Tests
use nc_server_rs.Prelude.{
  ℕ, ◌-◌, ◌*◌, Bool, true, false, ◌&&◌, ◌||◌, not, Option, none, some, List, [], ◌∷◌, ◌++◌, ltb,
  leb, if◌then◌else◌, ◌>>=◌,
}
use nc_server_rs.Prelude.Int.{ℤ, pos, ltb_ℤ, ◌-ℤ◌}
use nc_server_rs.Prelude.Text.{Text, codes, text_eq, strip_prefix, split_once, trim}

-- A row of `oc_authtoken`; `type`, `scope` and `last_activity` may be NULL.
pub record TokenRow : Type 0 where
  pub id : ℤ
  pub uid : Text
  pub login_name : Text
  pub token : Text
  pub token_type : Option ℤ
  pub scope : Option Text
  pub expires : Option ℤ
  pub last_activity : Option ℤ

pub record CachedToken : Type 0 where
  pub id : ℤ
  pub uid : Text
  pub token_type : ℤ
  pub scope : Text
  pub expires : Option ℤ
  pub last_activity : ℤ
  pub cached_at : ℕ

-- In milliseconds.
abbrev pub token_ttl : ℕ
token_ttl = 5 * 60 * 1_000

abbrev pub TokenCache : Type 0
TokenCache = Text → Option CachedToken

abbrev pub new_token_cache : TokenCache
new_token_cache hash = none

abbrev pub is_past : Option ℤ → ℤ → Bool
is_past none now = false
is_past (some exp) now = ltb_ℤ exp now

unfoldable pub is_expired : CachedToken → ℤ → Bool
is_expired t now = is_past t.expires now

unfoldable pub is_cache_stale : CachedToken → ℕ → Bool
is_cache_stale t instant = leb token_ttl (instant - t.cached_at)

-- `COALESCE`.
abbrev pub or_else {ℓ} : {A : Type ℓ} → Option A → A → A
or_else none a = a
or_else (some b) a = b

-- `SELECT … WHERE token = $1`; the column is unique.
unfoldable pub find_token : List TokenRow → Text → Option TokenRow
find_token [] hash = none
find_token (r ∷ rows) hash =
    let rest = find_token rows hash in if text_eq r.token hash then some r else rest

abbrev pub cached_from : ℕ → TokenRow → CachedToken
cached_from instant r = record {
  id = r.id;
  uid = r.uid;
  token_type = or_else r.token_type (pos 0);
  scope = or_else r.scope [];
  expires = r.expires;
  last_activity = or_else r.last_activity (pos 0);
  cached_at = instant;
}

abbrev pub extract_bearer : Text → Option Text
extract_bearer auth_header = strip_prefix (codes "Bearer ") auth_header

pub record BasicAuthResult : Type 0 where
  pub uid : Text
  pub token_id : Option ℤ
  pub token_type : Option ℤ

-- What a lookup finds: the rows, whether the query succeeds, the clocks.
pub record Lookup : Type 0 where
  pub rows : List TokenRow
  pub query_ok : Bool
  pub now : ℤ
  pub instant : ℕ

-- A row of `oc_users`.
pub record UserRow : Type 0 where
  pub uid : Text
  pub uid_lower : Text
  pub password : Text

unfoldable pub find_user : List UserRow → Text → Option UserRow
find_user [] login_lower = none
find_user (u ∷ users) login_lower =
    let rest = find_user users login_lower in
    if text_eq u.uid_lower login_lower then some u else rest

-- Whether the last use of a token is written back.
unfoldable pub writes_activity : ℤ → ℤ → Bool
writes_activity now last_activity = not (ltb_ℤ (now -ℤ last_activity) (pos 60))

abbrev pub is_hot : Lookup → CachedToken → Bool
is_hot w cached = not (is_cache_stale cached w.instant) && not (is_expired cached w.now)

module _ (sha512 : Text → Text) where
  unfoldable pub token_hash : Text → Text → Text
  token_hash app_secret raw =
      if text_eq app_secret [] then sha512 raw else sha512 (raw ++ app_secret)

  -- From the hot cache on.
  unfoldable pub fetch_token : Lookup → TokenCache → Text → Option CachedToken × TokenCache
  fetch_token w cache hash = elim (find_token w.rows hash) [
    | none ↦ (none, cache)
    | some r ↦
        let cached = cached_from w.instant r in
        if not w.query_ok || is_past r.expires w.now
        then (none, cache)
        else (some cached, λ h. if text_eq hash h then some cached else cache h)
  ]

  unfoldable pub lookup_bearer : Lookup → TokenCache → Text → Text → Option CachedToken × TokenCache
  lookup_bearer w cache app_secret raw_token =
      let hash = token_hash app_secret raw_token in
      elim (cache hash) [
        | some cached ↦ if is_hot w cached then (some cached, cache) else fetch_token w cache hash
        | none ↦ fetch_token w cache hash
      ]

  unfoldable pub evict : Text → Text → TokenCache → TokenCache
  evict raw_token app_secret cache h =
      if text_eq (token_hash app_secret raw_token) h then none else cache h

  module _ (lower : Text → Text) where
    unfoldable pub try_app_token : Lookup → Text → Text → Text → Option BasicAuthResult
    try_app_token w login raw_password app_secret =
        let hash = token_hash app_secret raw_password in
        if not w.query_ok then none else elim (find_token w.rows hash) [
          | none ↦ none
          | some r ↦
              if not (text_eq (lower r.login_name) (lower login)) || is_past r.expires w.now
              then none
              else some (record {
                uid = r.uid;
                token_id = some r.id;
                token_type = some (or_else r.token_type (pos 0));
              })
        ]

    -- `verify` is the check of a password against a hash with the legacy salt; `users_ok` is
    -- whether the second query succeeds.
    unfoldable pub verify_basic :
        (Text → Text → Bool)
        → Lookup
        → List UserRow
        → Bool
        → Text
        → Text
        → Text
        → Option BasicAuthResult
    verify_basic verify w users users_ok login password app_secret =
        elim (try_app_token w login password app_secret) [
          | some result ↦ some result
          | none ↦ if not users_ok then none else elim (find_user users (lower login)) [
            | none ↦ none
            | some u ↦
                if verify password u.password
                then some (record { uid = u.uid; token_id = none; token_type = none })
                else none
          ]
        ]

-- `STANDARD.decode` and `str::from_utf8`.
module _ (base64 : Text → Option Text) (from_utf8 : Text → Option Text) where
  unfoldable pub extract_basic : Text → Option (Text × Text)
  extract_basic auth_header = strip_prefix (codes "Basic ") auth_header >>= λ encoded.
      base64 (trim encoded) >>= λ decoded. from_utf8 decoded >>= λ s. split_once b':' s

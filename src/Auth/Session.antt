-- ===== src/Auth/Session.antt =====
-- core-rs/crates/nc-auth/src/session.rs: the cookies of a session, and the cache of identities that
-- the interpreter of PHP resolved. The cache is a function from the hash of a cookie's value to its
-- entry; instants are in milliseconds, and the age of a later instant is 0.
pub mod Cache
mod Tests
use nc_server_rs.Prelude.{
  ℕ, ◌-◌, ◌*◌, Bool, true, false, ◌&&◌, ◌||◌, not, Option, none, some, List, [], ◌∷◌, ltb,
  if◌then◌else◌, ◌>>=◌,
}
use nc_server_rs.Prelude.Text.{
  Text, codes, text_eq, strip_prefix, split, split_parts, trim, trim_by, trim_start_by, trim_end_by,
}

pub record SessionIdentity : Type 0 where
  pub uid : Text
  pub dav_authenticated_uid : Option Text

pub record SessionResolveResult : Type 0 where
  pub identity : SessionIdentity
  pub set_cookies : List Text

abbrev pub session_cache_ttl : ℕ
session_cache_ttl = 60 * 1_000

abbrev pub session_negative_cache_ttl : ℕ
session_negative_cache_ttl = 5 * 1_000

pub data SessionCacheEntry : Type 0 where
  positive : SessionIdentity → ℕ → SessionCacheEntry
  negative : ℕ → SessionCacheEntry

abbrev pub SessionCache : Type 0
SessionCache = Text → Option SessionCacheEntry

pub data CacheLookup : Type 0 where
  hit : SessionIdentity → CacheLookup
  rejected : CacheLookup
  miss : CacheLookup

abbrev pub new_session_cache : SessionCache
new_session_cache key = none

-- `DashMap::insert`.
unfoldable pub put_entry : SessionCache → Text → SessionCacheEntry → SessionCache
put_entry cache key entry k = if text_eq key k then some entry else cache k

unfoldable pub cache_insert : SessionCache → Text → SessionIdentity → ℕ → SessionCache
unfolding put_entry
cache_insert cache key identity now = put_entry cache key (positive identity now)

unfoldable pub cache_insert_negative : SessionCache → Text → ℕ → SessionCache
unfolding put_entry
cache_insert_negative cache key now = put_entry cache key (negative now)

-- An entry at an instant, under the lifetime of the positive ones.
unfoldable pub entry_lookup : ℕ → ℕ → Option SessionCacheEntry → CacheLookup
entry_lookup positive_ttl now none = miss
entry_lookup positive_ttl now (some (positive identity inserted_at)) =
    if ltb (now - inserted_at) positive_ttl then hit identity else miss
entry_lookup positive_ttl now (some (negative inserted_at)) =
    if ltb (now - inserted_at) session_negative_cache_ttl then rejected else miss

unfoldable pub cache_lookup : SessionCache → Text → ℕ → ℕ → CacheLookup
unfolding entry_lookup
cache_lookup cache key positive_ttl now = entry_lookup positive_ttl now (cache key)

abbrev pub is_retained : ℕ → SessionCacheEntry → Bool
is_retained now (positive _ inserted_at) = ltb (now - inserted_at) session_cache_ttl
is_retained now (negative inserted_at) = ltb (now - inserted_at) session_negative_cache_ttl

-- `DashMap::retain`.
unfoldable pub cache_evict_expired : SessionCache → ℕ → SessionCache
cache_evict_expired cache now key = elim (cache key) [
  | none ↦ none
  | some entry ↦ if is_retained now entry then some entry else none
]

-- One pair of a cookie header.
unfoldable pub pair_value : Text → Text → Option Text
pair_value name pair = strip_prefix name (trim pair) >>= λ rest.
    strip_prefix (codes "=") rest >>= λ value. some (trim value)

unfoldable pub first_value : Text → List Text → Option Text
first_value name [] = none
first_value name (pair ∷ pairs) =
    let later = first_value name pairs in
    elim (pair_value name pair) [ some value ↦ some value | none ↦ later ]

unfoldable pub cookie_value : Text → Text → Option Text
unfolding first_value
cookie_value cookies name = first_value name (split b';' cookies)

pub data CookieCheck : Type 0 where
  no_session_cookies : CookieCheck
  passed : CookieCheck
  strict_check_failed : CookieCheck

abbrev pub is_present : Text → Text → Bool
is_present cookies name = elim (cookie_value cookies name) [ some _ ↦ true | none ↦ false ]

abbrev pub is_guard : Text → Text → Bool
is_guard cookies name = elim (cookie_value cookies name) [
  | some value ↦ text_eq value (codes "true")
  | none ↦ false
]

abbrev pub lax_key : Bool → Text
lax_key is_https =
    if is_https then codes "__Host-nc_sameSiteCookielax" else codes "nc_sameSiteCookielax"

abbrev pub strict_key : Bool → Text
strict_key is_https =
    if is_https then codes "__Host-nc_sameSiteCookiestrict" else codes "nc_sameSiteCookiestrict"

unfoldable pub has_session : Text → Text → Bool
has_session cookies instanceid =
    not (text_eq instanceid []) && is_present cookies instanceid
    || is_present cookies (codes "nc_token")

unfoldable pub check_samesite_cookies : Text → Text → Bool → CookieCheck
check_samesite_cookies cookies instanceid is_https =
    if not (has_session cookies instanceid)
    then no_session_cookies
    else if is_guard cookies (lax_key is_https) && is_guard cookies (strict_key is_https)
    then passed
    else strict_check_failed

unfoldable pub session_cookie_value : Text → Text → Option Text
session_cookie_value instanceid cookies =
    let token = cookie_value cookies (codes "nc_token") in
    if not (text_eq instanceid [])
    then elim (cookie_value cookies instanceid) [ some value ↦ some value | none ↦ token ]
    else token

unfoldable pub has_remember_me_cookies : Text → Bool
has_remember_me_cookies cookies =
    is_present cookies (codes "nc_username")
    && is_present cookies (codes "nc_token")
    && is_present cookies (codes "nc_session_id")

-- ===== src/Auth/Session/Cache.antt =====
-- core-rs/crates/nc-auth/src/session.rs: what the cache of identities promises. A history is the
-- list of what was done to it, the latest first.
use nc_server_rs.Prelude.{
  ℕ, ◌≤◌, ◌≡◌, refl, ◌∙◌, Option, none, some, List, [], ◌∷◌, arith, if◌then◌else◌, Bool-cases, inl,
  inr,
}
use nc_server_rs.Prelude.Text.{Text, text_eq}
use nc_server_rs.Auth.Session.{
  SessionIdentity, SessionCacheEntry, positive, negative, SessionCache, new_session_cache,
  put_entry, cache_insert, cache_insert_negative, entry_lookup, cache_lookup, cache_evict_expired,
  is_retained, session_cache_ttl,
}

pub data Act : Type 0 where
  resolved : Text → SessionIdentity → ℕ → Act
  failed : Text → ℕ → Act
  evicted : ℕ → Act

abbrev pub perform : Act → SessionCache → SessionCache
perform (resolved key identity now) cache = cache_insert cache key identity now
perform (failed key now) cache = cache_insert_negative cache key now
perform (evicted now) cache = cache_evict_expired cache now

unfoldable pub after : List Act → SessionCache
after [] = new_session_cache
after (act ∷ history) = perform act (after history)

-- The abstract view: what the latest resolution of the key gave. Evictions are not seen.
unfoldable pub latest : Text → List Act → Option SessionCacheEntry
latest key [] = none
latest key (resolved k identity now ∷ history) =
    let earlier = latest key history in
    if text_eq k key then some (positive identity now) else earlier
latest key (failed k now ∷ history) =
    let earlier = latest key history in if text_eq k key then some (negative now) else earlier
latest key (evicted now ∷ history) = latest key history

abbrev pub time_of : Act → ℕ
time_of (resolved _ _ now) = now
time_of (failed _ now) = now
time_of (evicted now) = now

-- All that was done was done by then.
abbrev pub IsBy : ℕ → List Act → Type 0
IsBy now [] = Unit
IsBy now (act ∷ history) = (time_of act ≤ now) × IsBy now history

-- An entry that is dropped had no more to say.
entry_retained :
    (entry : Option SessionCacheEntry) (ttl at now : ℕ)
    → at ≤ now
    → ttl ≤ session_cache_ttl
    → entry_lookup ttl now
        (elim entry [ none ↦ none | some e ↦ if is_retained at e then some e else none ])
      ≡ entry_lookup ttl now entry
unfolding entry_lookup
entry_retained none ttl at now past short = refl
entry_retained (some (positive identity inserted_at)) ttl at now past short = ground arith
entry_retained (some (negative inserted_at)) ttl at now past short = ground arith

evicted_lookup :
    (cache : SessionCache) (key : Text) (ttl at now : ℕ)
    → at ≤ now
    → ttl ≤ session_cache_ttl
    → cache_lookup (cache_evict_expired cache at) key ttl now ≡ cache_lookup cache key ttl now
unfolding cache_lookup cache_evict_expired
evicted_lookup cache key ttl at now past short = entry_retained (cache key) ttl at now past short

put_lookup :
    (cache : SessionCache) (k key : Text) (entry : SessionCacheEntry) (ttl now : ℕ)
    → cache_lookup (put_entry cache k entry) key ttl now ≡ (
        if text_eq k key then entry_lookup ttl now (some entry) else cache_lookup cache key ttl now)
unfolding cache_lookup put_entry
put_lookup cache k key entry ttl now = elim (Bool-cases (text_eq k key)) [
  | inl same ↦ rw same refl
  | inr other ↦ rw other refl
]

insert_lookup :
    (cache : SessionCache) (k key : Text) (identity : SessionIdentity) (at ttl now : ℕ)
    → cache_lookup (cache_insert cache k identity at) key ttl now ≡ (
        if text_eq k key
        then entry_lookup ttl now (some (positive identity at))
        else cache_lookup cache key ttl now)
unfolding cache_insert
insert_lookup cache k key identity at ttl now =
    put_lookup cache k key (positive identity at) ttl now

negative_lookup :
    (cache : SessionCache) (k key : Text) (at ttl now : ℕ)
    → cache_lookup (cache_insert_negative cache k at) key ttl now ≡ (
        if text_eq k key
        then entry_lookup ttl now (some (negative at))
        else cache_lookup cache key ttl now)
unfolding cache_insert_negative
negative_lookup cache k key at ttl now = put_lookup cache k key (negative at) ttl now

-- Whatever was done to the cache before, a lookup gives what the latest resolution of its key
-- gave, if that is young enough for its kind, and else a miss: the evictions in between are not
-- seen, as long as the lifetime of the positive entries is at most the default one.
pub cache_lookup-after :
    (history : List Act) (key : Text) (positive_ttl now : ℕ)
    → IsBy now history
    → positive_ttl ≤ session_cache_ttl
    → cache_lookup (after history) key positive_ttl now
      ≡ entry_lookup positive_ttl now (latest key history)
unfolding after latest
cache_lookup-after [] key ttl now by short = unfold cache_lookup in refl
cache_lookup-after (resolved k identity at ∷ history) key ttl now (past, by) short =
    let earlier = cache_lookup-after history key ttl now by short in
    let put = insert_lookup (after history) k key identity at ttl now in
    ground (arith, earlier, put)
cache_lookup-after (failed k at ∷ history) key ttl now (past, by) short =
    let earlier = cache_lookup-after history key ttl now by short in
    let put = negative_lookup (after history) k key at ttl now in ground (arith, earlier, put)
cache_lookup-after (evicted at ∷ history) key ttl now (past, by) short =
    evicted_lookup (after history) key ttl at now past short
    ∙ cache_lookup-after history key ttl now by short

-- ===== src/Auth/Tokens/Cached.antt =====
-- core-rs/crates/nc-auth/src/bearer.rs: the cache of tokens over a run of fetches and revocations,
-- and what a bearer token that a lookup finds rests on.
use nc_server_rs.Prelude.{
  ◌-◌, ◌<◌, ◌≡◌, refl, ◌∙◌, ap, ◌≢◌, ◌⊎◌, inl, inr, true, false, some, List, [], ◌∷◌, arith,
  Bool-cases, Option-cases,
}
use nc_server_rs.Prelude.Text.{Text, text_eq, text_eq_refl, text_eq_sound}
use nc_server_rs.Auth.Tokens.{
  TokenRow, CachedToken, TokenCache, Lookup, new_token_cache, token_ttl, is_past, is_expired,
  is_cache_stale, find_token, cached_from, token_hash, is_hot, fetch_token, lookup_bearer, evict,
}

-- What writes to the cache: the fetch of a lookup, with what its query found, and a revocation.
pub data Event : Type 0 where
  fetched : Lookup → Text → Event
  evicted : Text → Event

-- A row is in the table.
abbrev pub Listed : TokenRow → List TokenRow → Type 0
Listed r [] = ⊥
Listed r (row ∷ rows) = (r ≡ row) ⊎ Listed r rows

find_token-Listed :
    (rows : List TokenRow) (hash : Text) (r : TokenRow)
    → find_token rows hash ≡ some r
    → Listed r rows × (r.token ≡ hash)
unfolding find_token
find_token-Listed [] hash r e = absurd (cc)
find_token-Listed (row ∷ rows) hash r e = elim (Bool-cases (text_eq row.token hash)) [
  | inl own ↦
      let here : r ≡ row = ground arith in
      (inl here, ap (λ (x : TokenRow). x.token) here ∙ text_eq_sound row.token hash own)
  | inr other ↦
      let (listed, owned) = find_token-Listed rows hash r (ground arith) in (inr listed, owned)
]

module _ (sha512 : Text → Text) (app_secret : Text) where
  abbrev hash_of : Text → Text
  hash_of raw_token = token_hash sha512 app_secret raw_token

  -- The cache behind a run, whose last event stands first.
  abbrev pub cache_after : List Event → TokenCache
  cache_after [] = new_token_cache
  cache_after (fetched w raw_token ∷ past) =
      (fetch_token sha512 w (cache_after past) (hash_of raw_token)).1
  cache_after (evicted raw_token ∷ past) = evict sha512 raw_token app_secret (cache_after past)

  abbrev pub Keeps : Text → Event → Type 0
  Keeps hash (fetched w raw_token) = Unit
  Keeps hash (evicted raw_token) = hash_of raw_token ≢ hash

  -- A fetch of the run found a row with the hash, unexpired, and no revocation of it came later.
  pub data Found (hash : Text) (w : Lookup) (r : TokenRow) : List Event → Type 0 where
    now :
        (raw_token : Text) (past : List Event)
        → hash_of raw_token ≡ hash
        → w.query_ok ≡ true
        → Listed r w.rows
        → r.token ≡ hash
        → is_past r.expires w.now ≡ false
        → Found hash w r (fetched w raw_token ∷ past)
    before :
        (event : Event) (past : List Event)
        → Keeps hash event
        → Found hash w r past
        → Found hash w r (event ∷ past)

  -- A token is what a fetch of the run made of its row.
  pub record Backed (events : List Event) (hash : Text) (t : CachedToken) : Type 0 where
    pub w : Lookup
    pub row : TokenRow
    pub found : Found hash w row events
    pub copied : t ≡ cached_from w.instant row

  Backed-later :
      (event : Event) (past : List Event) (hash : Text) (t : CachedToken)
      → Keeps hash event
      → Backed past hash t
      → Backed (event ∷ past) hash t
  Backed-later event past hash t kept b = record {
    w = b.w;
    row = b.row;
    found = before event past kept b.found;
    copied = b.copied;
  }

  -- What a fetch answers is backed by it.
  fetch-Backed :
      (w : Lookup) (cache : TokenCache) (raw_token : Text) (past : List Event) (t : CachedToken)
      → (fetch_token sha512 w cache (hash_of raw_token)).0 ≡ some t
      → Backed (fetched w raw_token ∷ past) (hash_of raw_token) t
        × (is_expired t w.now ≡ false)
        × (t.cached_at ≡ w.instant)
  unfolding fetch_token is_expired
  fetch-Backed w cache raw_token past t e =
      let hash = hash_of raw_token in
      elim (Option-cases (find_token w.rows hash)) [
        | inl missed ↦ absurd (ground arith)
        | inr (r, found) ↦
            let copied : t ≡ cached_from w.instant r = ground arith in
            let live : is_past r.expires w.now ≡ false = ground arith in
            let (listed, owned) = find_token-Listed w.rows hash r found in
            (
              record {
                w = w;
                row = r;
                found = now raw_token past refl (ground arith) listed owned live;
                copied = copied;
              },
              rw copied live,
              ap (λ (c : CachedToken). c.cached_at) copied,
            )
      ]

  -- A fetch stores what it answers under its hash, and nothing else.
  fetch-stored :
      (w : Lookup) (cache : TokenCache) (own hash : Text) (t : CachedToken)
      → (fetch_token sha512 w cache own).1 hash ≡ some t
      → (cache hash ≡ some t) ⊎ ((own ≡ hash) × ((fetch_token sha512 w cache own).0 ≡ some t))
  unfolding fetch_token
  fetch-stored w cache own hash t e = elim (Option-cases (find_token w.rows own)) [
    | inl missed ↦ inl (ground arith)
    | inr (r, found) ↦ elim (Bool-cases (text_eq own hash)) [
      | inl same ↦ let equal = text_eq_sound own hash same in ground (arith, equal)
      | inr other ↦ inl (ground arith)
    ]
  ]

  cache_after-Backed :
      (events : List Event) (hash : Text) (t : CachedToken)
      → cache_after events hash ≡ some t
      → Backed events hash t
  unfolding evict
  cache_after-Backed [] hash t e = absurd (cc)
  cache_after-Backed (fetched w raw_token ∷ past) hash t e =
      elim (fetch-stored w (cache_after past) (hash_of raw_token) hash t e) [
        | inl kept ↦
            Backed-later (fetched w raw_token) past hash t tt (cache_after-Backed past hash t kept)
        | inr (same, answered) ↦
            rw same at (fetch-Backed w (cache_after past) raw_token past t answered).0
      ]
  cache_after-Backed (evicted raw_token ∷ past) hash t e =
      elim (Bool-cases (text_eq (hash_of raw_token) hash)) [
        | inl gone ↦ absurd (ground arith)
        | inr other ↦
            let apart : hash_of raw_token ≢ hash =
              λ same. absurd (ground (arith, text_eq_refl hash)) in
            Backed-later (evicted raw_token) past hash t apart
              (cache_after-Backed past hash t (ground arith))
      ]

  -- What a lookup found: a token that has not expired, of a row that this lookup or a fetch of the
  -- run found less than five minutes before.
  pub record Rests (past : List Event) (w : Lookup) (raw_token : Text) (t : CachedToken)
      : Type 0 where
    pub unexpired : is_expired t w.now ≡ false
    pub backed : Backed (fetched w raw_token ∷ past) (hash_of raw_token) t
    pub young : w.instant - t.cached_at < token_ttl

  -- After a run of fetches and revocations from an empty cache, in the order in which they write
  -- to it, a bearer token that a lookup finds has not expired, and is the copy of a row of the
  -- table with the hash of the value; the row was found, unexpired, by this lookup or by a fetch
  -- of the run less than five minutes ago, with no revocation of that hash since.
  pub lookup_bearer-Backed :
      (past : List Event) (w : Lookup) (raw_token : Text) (t : CachedToken)
      → (lookup_bearer sha512 w (cache_after past) app_secret raw_token).0 ≡ some t
      → Rests past w raw_token t
  unfolding lookup_bearer is_cache_stale
  lookup_bearer-Backed past w raw_token t e =
      let hash = hash_of raw_token in
      let cache = cache_after past in
      let fresh : (fetch_token sha512 w cache hash).0 ≡ some t → Rests past w raw_token t =
        λ answered.
          let (backed, live, at) = fetch-Backed w cache raw_token past t answered in
          record { unexpired = live; backed = backed; young = omega (arith, at) } in
      elim (Option-cases (cache hash)) [
        | inl missed ↦ fresh (ground arith)
        | inr (cached, found) ↦ elim (Bool-cases (is_hot w cached)) [
          | inl hot ↦
              let same : cached ≡ t = ground arith in
              let stored : cache hash ≡ some t = ground arith in
              record {
                unexpired = ground arith;
                backed =
                    Backed-later (fetched w raw_token) past hash t tt
                      (cache_after-Backed past hash t stored);
                young = ground arith;
              }
          | inr old ↦ fresh (ground arith)
        ]
      ]

  -- A lookup writes to the cache as its fetch, or not at all.
  lookup_bearer-writes :
      (past : List Event) (w : Lookup) (raw_token : Text)
      → ((lookup_bearer sha512 w (cache_after past) app_secret raw_token).1 ≡ cache_after past)
        ⊎ ((lookup_bearer sha512 w (cache_after past) app_secret raw_token).1
            ≡ cache_after (fetched w raw_token ∷ past))
  unfolding lookup_bearer
  lookup_bearer-writes past w raw_token =
      elim (Option-cases (cache_after past (hash_of raw_token))) [
        | inl missed ↦ inr (ground arith)
        | inr (cached, found) ↦ elim (Bool-cases (is_hot w cached)) [
          | inl hot ↦ inl (ground arith)
          | inr old ↦ inr (ground arith)
        ]
      ]

-- Behind a revocation only the table counts.
lookup_bearer-evict :
    (sha512 : Text → Text) (w : Lookup) (cache : TokenCache) (app_secret raw_token : Text)
    → lookup_bearer sha512 w (evict sha512 raw_token app_secret cache) app_secret raw_token
      ≡ fetch_token sha512 w
          (evict sha512 raw_token app_secret cache)
          (token_hash sha512 app_secret raw_token)
unfolding lookup_bearer evict
lookup_bearer-evict sha512 w cache app_secret raw_token =
    ground (arith, text_eq_refl (token_hash sha512 app_secret raw_token))

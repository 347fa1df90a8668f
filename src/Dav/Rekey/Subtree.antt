-- ===== src/Dav/Rekey/Subtree.antt =====
-- core-rs/crates/nc-dav/src/row/rekey.rs: which rows a re-keying moves, and where to, on both
-- databases.
use nc_server_rs.Prelude.{
  ℕ, suc, ◌+◌, ◌≡◌, refl, ap, sym, ◌∙◌, ◌==◌, Bool, true, false, ◌&&◌, some, List, [], ◌∷◌, ◌++◌,
  arith, length, drop, drop-append, All, append_assoc, Bool-cases, inl, inr, map, if◌then◌else◌,
}
use nc_server_rs.Prelude.Text.{Text, codes, starts_with, contains, strip_prefix, to_ascii_lower}
use nc_server_rs.Db.Filename.{byte_len}
use nc_server_rs.Dav.Propagator.{Backend, postgres, sqlite}
use nc_server_rs.Dav.Rekey.{
  Entry, RekeyResult, ok, below, slice_from, is_below, fetch_below, rekey_entry,
  rekey_subtree_paths,
}
use nc_server_rs.Dav.Rekey.Loop.{
  HasKeys, IsSliced, slice_from-append, rekey_fetched-applied, of_fetched, moved_entry,
  applied-moved_entry,
}

-- No wildcard and no escape of `LIKE`.
abbrev pub IsPlain : Text → Type 0
IsPlain s = (contains b'%' s ≡ false) × (contains b'_' s ≡ false) × (contains b'\\' s ≡ false)

-- A text begins with a prefix; on SQLite in any case of the ASCII letters.
abbrev pub covers : Backend → Text → Text → Bool
covers postgres prefix s = starts_with prefix s
covers sqlite prefix s = starts_with (map to_ascii_lower prefix) (map to_ascii_lower s)

-- A pattern without wildcards but one `%` at its end matches the texts that begin with the rest.
abbrev pub MatchesPrefixes : (Backend → Text → Text → Bool) → Type 0
MatchesPrefixes like =
    (backend : Backend) (prefix s : Text)
    → IsPlain prefix
    → like backend (below prefix) s ≡ covers backend (prefix ++ codes "/") s

starts_rest : (p s : Text) → starts_with p s ≡ true → s ≡ p ++ drop (length p) s
unfolding starts_with strip_prefix
starts_rest [] s h = refl
starts_rest (c ∷ p) [] h = ground arith
starts_rest (c ∷ p) (d ∷ s) h = ground (arith, starts_rest p s)

starts_lower :
    (p s : Text)
    → starts_with p s ≡ true
    → starts_with (map to_ascii_lower p) (map to_ascii_lower s) ≡ true
unfolding starts_with strip_prefix
starts_lower [] s h = refl
starts_lower (c ∷ p) [] h = ground arith
starts_lower (c ∷ p) (d ∷ s) h = elim (Bool-cases (c == d)) [
  | inl same ↦
      let equal : c ≡ d = ground arith in
      let first : (to_ascii_lower c == to_ascii_lower d) ≡ true = rw equal (ground arith) in
      ground (arith, starts_lower p s, first)
  | inr other ↦ absurd (ground arith)
]

-- Two lists agree place by place.
abbrev pub Each : (Entry → Entry → Type 0) → List Entry → List Entry → Type 0
Each R [] [] = Unit
Each R (row ∷ rows) (row' ∷ rows') = R row row' × Each R rows rows'
Each R rows rows' = ⊥

Each-map :
    (R : Entry → Entry → Type 0) (f : Entry → Entry) (rows : List Entry)
    → All (λ row. R row (f row)) rows
    → Each R rows (map f rows)
Each-map R f [] h = tt
Each-map R f (row ∷ rows) (p, h) = (p, Each-map R f rows h)

module _ (hash : Text → Text) (like : Backend → Text → Text → Bool)
    (documented : MatchesPrefixes like) (storage_id : ℕ) (old new : Text) where
  abbrev inside : Entry → Bool
  inside row = row.storage == storage_id && starts_with (old ++ codes "/") row.path

  -- What the re-keying owes to a row.
  pub data Moves (row row' : Entry) : Type 0 where
    below_old :
        (rest : Text)
        → row.storage ≡ storage_id
        → row.path ≡ old ++ (codes "/" ++ rest)
        → row' ≡ record row {
          path = new ++ (codes "/" ++ rest);
          path_hash = hash (new ++ (codes "/" ++ rest));
        }
        → Moves row row'
    elsewhere :
        (row.storage == storage_id && starts_with (old ++ codes "/") row.path) ≡ false
        → row' ≡ row
        → Moves row row'

  -- A path of the storage that begins with the old one for `LIKE` begins with it.
  abbrev pub IsExact : Backend → Entry → Type 0
  IsExact backend row =
      row.storage ≡ storage_id
      → covers backend (old ++ codes "/") row.path ≡ true
      → starts_with (old ++ codes "/") row.path ≡ true

  abbrev shifted : Entry → Entry
  shifted row =
      let path = new ++ drop (length old) row.path in
      record row { path = path; path_hash = hash path }

  suffix : (rest : Text) → drop (length old) (old ++ (codes "/" ++ rest)) ≡ codes "/" ++ rest
  suffix rest = drop-append old (codes "/" ++ rest)

  -- A row inside has the old path in front.
  inside_path :
      (row : Entry) → inside row ≡ true → (rest : Text) × (row.path ≡ old ++ (codes "/" ++ rest))
  inside_path row h =
      let begins : starts_with (old ++ codes "/") row.path ≡ true = ground arith in
      let rest = drop (length (old ++ codes "/")) row.path in
      (rest, starts_rest (old ++ codes "/") row.path begins ∙ append_assoc old (codes "/") rest)

  shifted-Moves : (row : Entry) → Moves row (if inside row then shifted row else row)
  shifted-Moves row = elim (Bool-cases (inside row)) [
    | inl moves ↦
        let (rest, path) = inside_path row moves in
        let here : row.storage ≡ storage_id = ground arith in
        let behind : drop (length old) row.path ≡ codes "/" ++ rest =
          ap (drop (length old)) path ∙ suffix rest in
        rw moves (
          below_old rest here path
            (ap (λ s. record row { path = new ++ s; path_hash = hash (new ++ s) }) behind))
    | inr stays ↦ rw stays (elsewhere stays refl)
  ]

  -- The re-keying succeeds, and each row is as it owes.
  pub record Rekeyed (rows : List Entry) (result : RekeyResult × List Entry) : Type 0 where
    pub succeeds : result.0 ≡ ok
    pub moved : Each Moves rows result.1

  module _ (plain : IsPlain old) where
    covers-inside :
        (backend : Backend) (row : Entry)
        → IsExact backend row
        → (row.storage == storage_id && covers backend (old ++ codes "/") row.path) ≡ inside row
    covers-inside postgres row exact = refl
    covers-inside sqlite row exact = ground (arith, exact, starts_lower (old ++ codes "/") row.path)

    is_below-inside :
        (backend : Backend) (row : Entry)
        → IsExact backend row
        → is_below hash like backend storage_id old row ≡ inside row
    is_below-inside backend row exact =
        ap (λ (b : Bool). row.storage == storage_id && b) (documented backend old row.path plain)
        ∙ covers-inside backend row exact

    rekey_entry-Moves :
        (row : Entry)
        → IsExact postgres row
        → Moves row (rekey_entry hash like storage_id old new row)
    unfolding rekey_entry
    rekey_entry-Moves row exact =
        let offset : length old + 1 ≡ suc (length old) = omega arith in
        rw (offset, is_below-inside postgres row exact) (shifted-Moves row)

    moved_entry-Moves :
        (row : Entry)
        → IsExact sqlite row
        → Moves row (moved_entry hash like old new storage_id row)
    moved_entry-Moves row exact = rw (is_below-inside sqlite row exact) (shifted-Moves row)

    fetch_below-IsSliced :
        (rows : List Entry)
        → All (IsExact sqlite) rows
        → All (IsSliced hash like old new) (fetch_below hash like storage_id old rows)
    unfolding fetch_below
    fetch_below-IsSliced [] exact = tt
    fetch_below-IsSliced (row ∷ rows) (e, exact) = elim (Bool-cases (inside row)) [
      | inl moves ↦
          let (rest, path) = inside_path row moves in
          let behind = ap (drop (length old)) path ∙ suffix rest in
          let sliced : slice_from (byte_len old) row.path ≡ some (drop (length old) row.path) =
            ap (slice_from (byte_len old)) path
            ∙ slice_from-append old (codes "/" ++ rest)
            ∙ ap (λ s. some s) (sym behind) in
          rw (is_below-inside sqlite row e ∙ moves) (sliced, fetch_below-IsSliced rows exact)
      | inr stays ↦ rw (is_below-inside sqlite row e ∙ stays) (fetch_below-IsSliced rows exact)
    ]

    fetch_below-Moves :
        (whole rows : List Entry)
        → All
            (λ r.
              of_fetched hash like old new storage_id whole r
              ≡ moved_entry hash like old new storage_id r)
            rows
        → All (IsExact sqlite) rows
        → All (λ r. Moves r (of_fetched hash like old new storage_id whole r)) rows
    fetch_below-Moves whole [] same exact = tt
    fetch_below-Moves whole (row ∷ rows) (s, same) (e, exact) =
        (rw s (moved_entry-Moves row e), fetch_below-Moves whole rows same exact)

    entries-Moves :
        (rows : List Entry)
        → All (IsExact postgres) rows
        → All (λ r. Moves r (rekey_entry hash like storage_id old new r)) rows
    entries-Moves [] exact = tt
    entries-Moves (row ∷ rows) (e, exact) = (rekey_entry-Moves row e, entries-Moves rows exact)

    -- If no statement fails, the old path holds no wildcard and no escape of `LIKE`, every row has
    -- a key of its own, and, on SQLite, no path of the storage begins with the old one and a slash
    -- in another case of the letters only, then a re-keying succeeds on either database: each row
    -- of the storage whose path is the old one, a slash and a rest gets the new one, a slash and
    -- the rest for its path, and the hash of that; every other row stays as it is.
    pub rekey_subtree_paths-Rekeyed :
        (backend : Backend) (fails : ℕ → Bool) (rows : List Entry)
        → ((fileid : ℕ) → fails fileid ≡ false)
        → HasKeys rows
        → All (IsExact backend) rows
        → Rekeyed rows (rekey_subtree_paths hash like backend true fails storage_id old new rows)
    unfolding rekey_subtree_paths
    rekey_subtree_paths-Rekeyed postgres fails rows never keys exact = record {
      succeeds = refl;
      moved =
          Each-map Moves (rekey_entry hash like storage_id old new) rows (entries-Moves rows exact);
    }
    rekey_subtree_paths-Rekeyed sqlite fails rows never keys exact =
        let items = fetch_below hash like storage_id old rows in
        let each =
          fetch_below-Moves rows rows (applied-moved_entry hash like old new storage_id rows keys)
            exact in
        let ran =
          rekey_fetched-applied hash like old new fails items rows never
            (fetch_below-IsSliced rows exact) in
        rw ran (record {
          succeeds = refl;
          moved = Each-map Moves (of_fetched hash like old new storage_id rows) rows each;
        })

-- ===== src/Dav/Propagator/Chain.antt =====
-- core-rs/crates/nc-dav/src/propagator.rs: what the recomputation along a path leaves alone.
use nc_server_rs.Prelude.{
  ℕ, ◌≡◌, refl, ap, ◌∙◌, ◌≢◌, Bool, true, false, ◌&&◌, some, List, [], ◌∷◌, ◌==◌, arith, All,
  All-append, Bool-cases, Option-cases, inl, inr, any, ==_iff,
}
use mathlib.Core.List.{reverse, reverse-cons}
use nc_server_rs.Prelude.Int.{eq_ℤ, ℤ}
use nc_server_rs.Prelude.Text.{Text, text_eq, text_eq_sound}
use nc_server_rs.Dav.Paths.{get_parents}
use nc_server_rs.Dav.Propagator.{
  Row, Done, ok, failed, lookup_by_hash, lookup_by_path, set_size, folder_size,
  recompute_folder_size, recompute_all, correct_folder_size_chain,
}
use nc_server_rs.Dav.Propagator.Update.{HasKeys}
use nc_server_rs.Dav.Propagator.Recompute.{set_size-HasKeys}

reversed : (P : Text → Type 0) (l : List Text) → All P l → All P (reverse l)
reversed P [] h = tt
reversed P (p ∷ l) (x, h) =
    rw (reverse-cons p l) (All-append P (reverse l) (p ∷ []) (reversed P l h) (x, tt))

-- The row with a key is the one found.
abbrev OnlyAt : Text → ℕ → Row → Type 0
OnlyAt hash id row = (row.fileid == id) ≡ true → row.path_hash ≡ hash

found_key :
    (storage : ℕ) (hash : Text) (rows : List Row) (folder : Row)
    → lookup_by_hash storage hash rows ≡ some folder
    → any (λ r. r.fileid == folder.fileid) rows ≡ true
unfolding lookup_by_hash
found_key storage hash [] folder e = absurd (cc)
found_key storage hash (row ∷ rows) folder e = ground (arith, found_key storage hash rows folder)

others_at :
    (hash : Text) (id : ℕ) (rows : List Row)
    → any (λ r. r.fileid == id) rows ≡ false
    → All (OnlyAt hash id) rows
others_at hash id [] h = tt
others_at hash id (row ∷ rows) h =
    ((λ same. absurd (ground arith)), others_at hash id rows (ground arith))

found_only :
    (storage : ℕ) (hash : Text) (rows : List Row) (folder : Row)
    → HasKeys rows
    → lookup_by_hash storage hash rows ≡ some folder
    → All (OnlyAt hash folder.fileid) rows
unfolding lookup_by_hash
found_only storage hash [] folder k e = tt
found_only storage hash (row ∷ rows) folder (own, k) e =
    elim (Bool-cases (row.storage == storage && text_eq row.path_hash hash)) [
      | inl here ↦
          let same : row ≡ folder = ground arith in
          let key : row.fileid ≡ folder.fileid = ap (λ (r : Row). r.fileid) same in
          let hashed : row.path_hash ≡ hash = ground (arith, text_eq_sound row.path_hash hash) in
          let apart : any (λ r. r.fileid == folder.fileid) rows ≡ false = rw key at own in
          ((λ _. hashed), others_at hash folder.fileid rows apart)
      | inr other ↦
          let later : lookup_by_hash storage hash rows ≡ some folder = ground arith in
          let key = found_key storage hash rows folder later in
          (
            (λ same.
                let one : row.fileid ≡ folder.fileid = (==_iff row.fileid folder.fileid).0 same in
                let apart : any (λ r. r.fileid == folder.fileid) rows ≡ false = rw one at own in
                absurd (cc)),
            found_only storage hash rows folder k later,
          )
    ]

elsewhere :
    (storage : ℕ) (hash other : Text) (id : ℕ) (size : ℤ) (rows : List Row)
    → hash ≢ other
    → All (OnlyAt hash id) rows
    → lookup_by_hash storage other (set_size id size rows) ≡ lookup_by_hash storage other rows
unfolding lookup_by_hash set_size
elsewhere storage hash other id size [] ne h = refl
elsewhere storage hash other id size (row ∷ rows) ne (p, h) = ground (
  arith,
  elsewhere storage hash other id size rows ne h,
  p,
  text_eq_sound row.path_hash other,
  ne,
)

module _ (hash : Text → Text) (storage : ℕ) (query_ok : Text → Bool) (path : Text) where
  -- The rows keep their keys, and the row of the path.
  abbrev Keeps : List Row → List Row → Type 0
  Keeps before after =
      HasKeys after
      × (lookup_by_path hash storage path after ≡ lookup_by_path hash storage path before)

  unchanged_kept :
      (folder_path : Text) (rows : List Row)
      → HasKeys rows
      → (recompute_folder_size hash storage query_ok folder_path rows).1 ≡ rows
      → Keeps rows (recompute_folder_size hash storage query_ok folder_path rows).1
  unchanged_kept folder_path rows k e = rw e (k, refl)

  one_kept :
      (folder_path : Text) (rows : List Row)
      → hash folder_path ≢ hash path
      → HasKeys rows
      → Keeps rows (recompute_folder_size hash storage query_ok folder_path rows).1
  unfolding recompute_folder_size lookup_by_path
  one_kept folder_path rows ne k =
      elim (Option-cases (lookup_by_hash storage (hash folder_path) rows)) [
        | inl missed ↦ unchanged_kept folder_path rows k (ground arith)
        | inr (folder, found) ↦ elim (Bool-cases (query_ok folder_path)) [
          | inr refused ↦ unchanged_kept folder_path rows k (ground arith)
          | inl queried ↦
              let new_size = folder_size storage folder.fileid rows in
              elim (Bool-cases (eq_ℤ new_size folder.size)) [
                | inl same ↦ unchanged_kept folder_path rows k (ground arith)
                | inr changed ↦
                    let only = found_only storage (hash folder_path) rows folder k found in
                    let moved : (recompute_folder_size hash storage query_ok folder_path rows).1
                        ≡ set_size folder.fileid new_size rows =
                      ground arith in
                    rw moved (
                      set_size-HasKeys folder.fileid new_size rows k,
                      elsewhere storage (hash folder_path) (hash path) folder.fileid new_size rows
                          ne only,
                    )
              ]
        ]
      ]

  after_step :
      (done : Done) (rest : List Row) (more : Done × List Row) (rows : List Row)
      → Keeps rows more.1
      → Keeps rows rest
      → Keeps rows (elim done as (λ _. Done × List Row) [ ok ↦ more | failed ↦ (failed, rest) ]).1
  after_step ok rest more rows h g = h
  after_step failed rest more rows h g = g

  All-kept :
      (folders : List Text) (rows : List Row)
      → All (λ p. hash p ≢ hash path) folders
      → HasKeys rows
      → Keeps rows (recompute_all hash storage query_ok folders rows).1
  unfolding recompute_all
  All-kept [] rows h k = (k, refl)
  All-kept (p ∷ ps) rows (ne, h) k =
      let step = recompute_folder_size hash storage query_ok p rows in
      let (keys, row) = one_kept p rows ne k in
      let (keys', row') = All-kept ps step.1 h keys in
      after_step step.0 step.1 (recompute_all hash storage query_ok ps step.1) rows
        (keys', row' ∙ row) (keys, row)

  -- The recomputation along a path leaves the row of the path itself as it is, size included, where
  -- no ancestor has the hash of the path: it begins at the path's parent. Rows have keys of their
  -- own.
  pub correct_folder_size_chain-itself :
      (rows : List Row)
      → All (λ p. hash p ≢ hash path) (get_parents path)
      → HasKeys rows
      → lookup_by_path hash storage path
          (correct_folder_size_chain hash storage query_ok path rows).1
        ≡ lookup_by_path hash storage path rows
  unfolding correct_folder_size_chain
  correct_folder_size_chain-itself rows h k =
      (All-kept (reverse (get_parents path)) rows (reversed _ (get_parents path) h) k).1

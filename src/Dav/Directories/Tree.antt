-- ===== src/Dav/Directories/Tree.antt =====
-- core-rs/crates/nc-dav/src/mutations.rs, propagator.rs: the tree that the rows of the file cache
-- make, which the stamps of a change leave as it is.
use nc_server_rs.Prelude.{
  ℕ, zero, suc, ◌+◌, ◌==◌, ◌≡◌, refl, ◌∙◌, ap, Bool, true, false, ◌&&◌, Option, none, some, List,
  [], ◌∷◌, leb, if◌then◌else◌, map, any, Bool-cases, inl, inr,
}
use nc_server_rs.Prelude.Int.{ℤ, pos}
use nc_server_rs.Prelude.Text.{Text, text_eq}
use nc_server_rs.Dav.Paths.{parent_fc_path, get_parents}
use nc_server_rs.Dav.Propagator.{
  Done, ok, min_ℤ, selects, locked_ids, Row, Backend, postgres, sqlite, set_ancestor,
  lookup_by_hash, try_propagate, attempts, max_retries, propagate_change,
  correct_parent_storage_mtime,
}
use nc_server_rs.Dav.Directories.{World, propagate, stamp}

-- The key of a row and its parent's.
abbrev pub Node : Type 0
Node = ℕ × ℤ

abbrev pub node : Row → Node
node row = (row.fileid, row.parent)

abbrev pub node_if : Option Row → Option Node
node_if none = none
node_if (some row) = some (node row)

abbrev pub node_by_hash : ℕ → Text → List Row → Option Node
node_by_hash storage hash rows = node_if (lookup_by_hash storage hash rows)

-- What a change of a row leaves.
abbrev pub SameKey : (Row → Row) → Type 0
SameKey f =
    (row : Row)
    → ((f row).storage ≡ row.storage)
      × ((f row).path_hash ≡ row.path_hash)
      × ((f row).fileid ≡ row.fileid)
      × ((f row).parent ≡ row.parent)

node_by_hash-map :
    (f : Row → Row)
    → SameKey f
    → (storage : ℕ) (hash : Text) (rows : List Row)
    → node_by_hash storage hash (map f rows) ≡ node_by_hash storage hash rows
unfolding lookup_by_hash
node_by_hash-map f same storage hash [] = refl
node_by_hash-map f same storage hash (row ∷ rows) =
    let (s, h, k, p) = same row in
    let rest = node_by_hash-map f same storage hash rows in
    elim (Bool-cases (row.storage == storage && text_eq row.path_hash hash)) [
      | inl here ↦
          let here' : ((f row).storage == storage && text_eq (f row).path_hash hash) ≡ true =
            ap (λ (x : ℕ). x == storage && text_eq (f row).path_hash hash) s
            ∙ ap (λ (x : Text). row.storage == storage && text_eq x hash) h
            ∙ here in
          rw (here, here') (λ i. some (k i, p i))
      | inr on ↦
          let on' : ((f row).storage == storage && text_eq (f row).path_hash hash) ≡ false =
            ap (λ (x : ℕ). x == storage && text_eq (f row).path_hash hash) s
            ∙ ap (λ (x : Text). row.storage == storage && text_eq x hash) h
            ∙ on in
          rw (on, on') rest
    ]

attempts-node :
    (change : List Row → List Row) (storage : ℕ) (hash : Text) (rows : List Row)
    → node_by_hash storage hash (change rows) ≡ node_by_hash storage hash rows
    → (fails : ℕ → Bool) (left attempt : ℕ)
    → node_by_hash storage hash (attempts fails change left attempt rows).1
      ≡ node_by_hash storage hash rows
unfolding attempts
attempts-node change storage hash rows changed fails zero attempt = refl
attempts-node change storage hash rows changed fails (suc left) attempt =
    let rest = attempts-node change storage hash rows changed fails left (suc attempt) in
    elim (Bool-cases (fails attempt)) [
      | inr fine ↦ rw fine changed
      | inl bad ↦ rw bad (elim (Bool-cases (leb max_retries (attempt + 1))) [
        | inl over ↦ rw over refl
        | inr on ↦ rw on rest
      ])
    ]

if-SameKey :
    (test : Row → Bool) (f : Row → Row)
    → SameKey f
    → SameKey (λ row. if test row then f row else row)
if-SameKey test f same row = elim (Bool-cases (test row)) [
  | inl hit ↦ rw hit (same row)
  | inr miss ↦ rw miss (refl, refl, refl, refl)
]

set_ancestor-SameKey :
    (time difference : ℤ) (etag : Text) → SameKey (set_ancestor time difference etag)
unfolding set_ancestor
set_ancestor-SameKey time difference etag row = (refl, refl, refl, refl)

try_propagate-node :
    (backend : Backend) (fails : ℕ → Bool) (s : ℕ) (hashes : List Text) (time difference : ℤ)
    (etag : Text) (storage : ℕ) (h : Text) (rows : List Row)
    → node_by_hash storage h
        (attempts fails (try_propagate backend s hashes time difference etag) max_retries 0 rows).1
      ≡ node_by_hash storage h rows
unfolding try_propagate
try_propagate-node postgres fails s hashes time difference etag storage h rows =
    let is_locked : Row → Bool = λ row. any (λ id. id == row.fileid) (locked_ids s hashes rows) in
    attempts-node (try_propagate postgres s hashes time difference etag) storage h rows
      (node_by_hash-map
        (λ row. if is_locked row then set_ancestor time difference etag row else row)
        (if-SameKey is_locked (set_ancestor time difference etag)
          (set_ancestor-SameKey time difference etag))
        storage h rows)
      fails max_retries 0
try_propagate-node sqlite fails s hashes time difference etag storage h rows =
    attempts-node (try_propagate sqlite s hashes time difference etag) storage h rows
      (node_by_hash-map
        (λ row. if selects s hashes row then set_ancestor time difference etag row else row)
        (if-SameKey (selects s hashes) (set_ancestor time difference etag)
          (set_ancestor-SameKey time difference etag))
        storage h rows)
      fails max_retries 0

propagate_change-node :
    (hash : Text → Text) (s : ℕ) (backend : Backend) (fails : ℕ → Bool) (now : ℤ) (etag path : Text)
    (time difference : ℤ) (storage : ℕ) (h : Text) (rows : List Row)
    → node_by_hash storage h
        (propagate_change hash s backend fails now etag path time difference rows).1
      ≡ node_by_hash storage h rows
unfolding propagate_change
propagate_change-node hash s backend fails now etag path time difference storage h rows =
    go (get_parents path)
  where
    go :
        (ps : List Text)
        → node_by_hash storage h
            (elim ps as (λ x. Done × List Row) [
              | [] ↦ (ok, rows)
              | p ∷ ps ↦
                  attempts fails
                    (try_propagate backend s (map hash (p ∷ ps)) (min_ℤ time now) difference etag)
                    max_retries
                    0
                    rows
            ]).1
          ≡ node_by_hash storage h rows
    go [] = refl
    go (p ∷ ps) =
        try_propagate-node backend fails s (map hash (p ∷ ps)) (min_ℤ time now) difference etag
          storage h rows

correct_parent-node :
    (hash : Text → Text) (s : ℕ) (query_ok : Text → Bool) (parent : Text) (disk : Option ℤ)
    (storage : ℕ) (h : Text) (rows : List Row)
    → node_by_hash storage h (correct_parent_storage_mtime hash s query_ok parent disk rows).1
      ≡ node_by_hash storage h rows
unfolding correct_parent_storage_mtime
correct_parent-node hash s query_ok parent none storage h rows = refl
correct_parent-node hash s query_ok parent (some time) storage h rows =
    elim (Bool-cases (query_ok parent)) [
      | inr bad ↦ rw bad refl
      | inl fine ↦ rw fine (
          node_by_hash-map
            (λ row.
              if row.storage == s && text_eq row.path_hash (hash parent)
              then record row { storage_mtime = time; mtime = time }
              else row)
            (if-SameKey (λ row. row.storage == s && text_eq row.path_hash (hash parent))
              (λ row. record row { storage_mtime = time; mtime = time })
              (λ row. (refl, refl, refl, refl)))
            storage h rows)
    ]

module _ (w : World) where
  abbrev pub node_of : Text → List Row → Option Node
  node_of path rows = node_by_hash w.storage (w.hash path) rows

  pub propagate-node :
      (change path : Text) (rows : List Row)
      → node_of path (propagate w change rows) ≡ node_of path rows
  unfolding propagate
  propagate-node change path rows =
      propagate_change-node w.hash w.storage w.backend (w.fails change) (w.clock change)
        (w.chain_etag change) change (w.clock change) (pos 0) w.storage (w.hash path) rows

  pub stamp-node :
      (change path : Text) (rows : List Row)
      → node_of path (stamp w change rows) ≡ node_of path rows
  unfolding stamp
  stamp-node change path rows =
      let parent = parent_fc_path change in
      propagate-node change path
        (correct_parent_storage_mtime w.hash w.storage w.corrects parent (w.disk_mtime parent)
          rows).1
      ∙ correct_parent-node w.hash w.storage w.corrects parent (w.disk_mtime parent) w.storage
          (w.hash path) rows

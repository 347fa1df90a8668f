-- ===== src/Dav/Propagator.antt =====
-- core-rs/crates/nc-dav/src/propagator.rs: what a write does to the rows of its ancestors. The table
-- `filecache` is the list of its rows, the hash of a path a parameter, and each statement of the
-- database either succeeds or fails and leaves the rows. Sizes and times stand far from 64 bits.
pub mod Update
pub mod Retry
pub mod Recompute
pub mod Chain
mod Tests
use nc_server_rs.Prelude.{
  ℕ, zero, suc, ◌+◌, Bool, true, false, not, ◌&&◌, Option, none, some, List, [], ◌∷◌, ◌==◌, leb,
  if◌then◌else◌, map, any, ◌>>=◌,
}
use mathlib.Core.List.{reverse}
use nc_server_rs.Prelude.Int.{eq_ℤ, ℤ, pos, negsuc, ◌+ℤ◌, ltb_ℤ, leb_ℤ, ◌-ℤ◌}
use nc_server_rs.Prelude.Text.{Text, text_eq}
use nc_server_rs.Dav.Paths.{get_parents}

-- The columns of the file cache; `fileid` is the key, and a parent of -1 is none.
pub record Row : Type 0 where
  pub fileid : ℕ
  pub storage : ℕ
  pub path : Option Text
  pub path_hash : Text
  pub parent : ℤ
  pub name : Option Text
  pub mimetype : ℕ
  pub mimepart : ℕ
  pub permissions : ℕ
  pub checksum : Option Text
  pub size : ℤ
  pub mtime : ℤ
  pub storage_mtime : ℤ
  pub etag : Text

pub data Backend : Type 0 where
  postgres : Backend
  sqlite : Backend

pub data Done : Type 0 where
  ok : Done
  failed : Done

abbrev pub is_zero : ℤ → Bool
is_zero (pos n) = leb n 0
is_zero (negsuc n) = false

-- `CASE WHEN mtime < time THEN time ELSE mtime END`.
abbrev pub later : ℤ → ℤ → ℤ
later mtime time = if ltb_ℤ mtime time then time else mtime

abbrev pub unscanned : ℤ
unscanned = negsuc 0

-- The `CASE` on `size`.
unfoldable pub adjusted : ℤ → ℤ → ℤ
adjusted size difference =
    if ltb_ℤ unscanned size
    then if ltb_ℤ (size +ℤ difference) unscanned then unscanned else size +ℤ difference
    else size

-- The `SET` of the two statements.
unfoldable pub set_ancestor : ℤ → ℤ → Text → Row → Row
set_ancestor time difference etag row = record row {
  mtime = later row.mtime time;
  etag = etag;
  size = if is_zero difference then row.size else adjusted row.size difference;
}

abbrev pub is_listed : Text → List Text → Bool
is_listed hash hashes = any (λ h. text_eq h hash) hashes

-- The rows that the `WHERE` finds.
abbrev pub selects : ℕ → List Text → Row → Bool
selects storage hashes row = row.storage == storage && is_listed row.path_hash hashes

unfoldable pub locked_ids : ℕ → List Text → List Row → List ℕ
locked_ids storage hashes [] = []
locked_ids storage hashes (row ∷ rows) =
    let rest = locked_ids storage hashes rows in
    if selects storage hashes row then row.fileid ∷ rest else rest

-- One attempt that succeeds: on Postgres the update joins the rows locked before by their key.
unfoldable pub try_propagate : Backend → ℕ → List Text → ℤ → ℤ → Text → List Row → List Row
try_propagate postgres storage hashes time difference etag rows =
    let locked = locked_ids storage hashes rows in
    map
      (λ row.
        if any (λ id. id == row.fileid) locked then set_ancestor time difference etag row else row)
      rows
try_propagate sqlite storage hashes time difference etag rows =
    map (λ row. if selects storage hashes row then set_ancestor time difference etag row else row)
      rows

abbrev pub max_retries : ℕ
max_retries = 3

abbrev pub min_ℤ : ℤ → ℤ → ℤ
min_ℤ a b = if ltb_ℤ b a then b else a

-- The attempts from a number on, of which `left` are left; `fails` says which attempts fail.
unfoldable pub attempts : (ℕ → Bool) → (List Row → List Row) → ℕ → ℕ → List Row → Done × List Row
attempts fails change zero attempt rows = (failed, rows)
attempts fails change (suc left) attempt rows =
    let retried = attempts fails change left (suc attempt) rows in
    if fails attempt
    then if leb max_retries (attempt + 1) then (failed, rows) else retried
    else (ok, change rows)

-- A row of a path, by its hash.
unfoldable pub lookup_by_hash : ℕ → Text → List Row → Option Row
lookup_by_hash storage hash [] = none
lookup_by_hash storage hash (row ∷ rows) =
    let rest = lookup_by_hash storage hash rows in
    if row.storage == storage && text_eq row.path_hash hash then some row else rest

abbrev pub is_child : ℕ → ℕ → Row → Bool
is_child storage folder row = eq_ℤ row.parent (pos folder) && row.storage == storage

-- `COALESCE(SUM(size), 0)` of the children.
unfoldable pub total_size : ℕ → ℕ → List Row → ℤ
total_size storage folder [] = pos 0
total_size storage folder (row ∷ rows) =
    let rest = total_size storage folder rows in
    if is_child storage folder row then row.size +ℤ rest else rest

-- `MIN(size)` of the children.
unfoldable pub min_size : ℕ → ℕ → List Row → Option ℤ
min_size storage folder [] = none
min_size storage folder (row ∷ rows) =
    let rest = min_size storage folder rows in
    if is_child storage folder row
    then elim rest [ some least ↦ some (min_ℤ least row.size) | none ↦ some row.size ]
    else rest

-- The size of a folder: unscanned if a child is.
unfoldable pub folder_size : ℕ → ℕ → List Row → ℤ
folder_size storage folder rows =
    let least : ℤ = elim (min_size storage folder rows) [ some least ↦ least | none ↦ pos 0 ] in
    if eq_ℤ least unscanned then unscanned else total_size storage folder rows

-- `UPDATE … SET size = $1 WHERE fileid = $2`.
unfoldable pub set_size : ℕ → ℤ → List Row → List Row
set_size fileid size rows =
    map (λ row. if row.fileid == fileid then record row { size = size } else row) rows

-- `SUM(size)` of the children that are scanned.
unfoldable pub scanned_size : ℕ → ℕ → List Row → ℤ
scanned_size storage folder [] = pos 0
scanned_size storage folder (row ∷ rows) =
    let rest = scanned_size storage folder rows in
    if is_child storage folder row && ltb_ℤ unscanned row.size then row.size +ℤ rest else rest

module _ (hash : Text → Text) (storage : ℕ) where
  unfoldable pub propagate_change :
      Backend → (ℕ → Bool) → ℤ → Text → Text → ℤ → ℤ → List Row → Done × List Row
  propagate_change backend fails now etag internal_path time difference rows =
      elim (get_parents internal_path) [
        | [] ↦ (ok, rows)
        | p ∷ ps ↦
            attempts fails
              (try_propagate backend storage (map hash (p ∷ ps)) (min_ℤ time now) difference etag)
              max_retries 0 rows
      ]

  unfoldable pub lookup_by_path : Text → List Row → Option Row
  lookup_by_path path rows = lookup_by_hash storage (hash path) rows

  -- `query_ok` says whether the statements for a folder succeed.
  unfoldable pub recompute_folder_size : (Text → Bool) → Text → List Row → Done × List Row
  recompute_folder_size query_ok folder_path rows = elim (lookup_by_path folder_path rows) [
    | none ↦ (ok, rows)
    | some folder ↦
        if query_ok folder_path
        then (let new_size = folder_size storage folder.fileid rows in
            if eq_ℤ new_size folder.size
            then (ok, rows)
            else (ok, set_size folder.fileid new_size rows))
        else (failed, rows)
  ]

  -- The folders in turn, until one fails.
  unfoldable pub recompute_all : (Text → Bool) → List Text → List Row → Done × List Row
  recompute_all query_ok [] rows = (ok, rows)
  recompute_all query_ok (p ∷ ps) rows =
      let (done, after) = recompute_folder_size query_ok p rows in
      elim done [ ok ↦ recompute_all query_ok ps after | failed ↦ (failed, after) ]

  unfoldable pub correct_folder_size_chain : (Text → Bool) → Text → List Row → Done × List Row
  correct_folder_size_chain query_ok fc_path rows =
      recompute_all query_ok (reverse (get_parents fc_path)) rows

  -- The new size also goes to the propagation as its time.
  unfoldable pub correct_folder_size :
      Backend → (Text → Bool) → (ℕ → Bool) → ℤ → Text → Text → List Row → Done × List Row
  correct_folder_size backend query_ok fails now etag fc_path rows =
      elim (lookup_by_path fc_path rows) [
        | none ↦ (failed, rows)
        | some folder ↦
            if query_ok fc_path
            then (let new_size = scanned_size storage folder.fileid rows in
                if eq_ℤ new_size folder.size
                then (ok, rows)
                else propagate_change backend fails now etag fc_path new_size
                    (new_size -ℤ folder.size) (set_size folder.fileid new_size rows))
            else (failed, rows)
      ]

  unfoldable pub correct_parent_storage_mtime :
      (Text → Bool) → Text → Option ℤ → List Row → Done × List Row
  correct_parent_storage_mtime query_ok parent_fc_path disk_mtime rows = elim disk_mtime [
    | none ↦ (failed, rows)
    | some time ↦
        if query_ok parent_fc_path
        then (
          ok,
          map
              (λ row.
                if row.storage == storage && text_eq row.path_hash (hash parent_fc_path)
                then record row { storage_mtime = time; mtime = time }
                else row)
              rows,
        )
        else (failed, rows)
  ]

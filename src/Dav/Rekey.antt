-- ===== src/Dav/Rekey.antt =====
-- core-rs/crates/nc-dav/src/row/rekey.rs and row/paths.rs: the paths of the rows below a directory
-- that moves, on Postgres and on SQLite. The digest of a path and the `LIKE` of the two databases
-- are parameters, and each statement of the database either succeeds or fails and leaves the rows.
pub mod Subtree
pub mod Loop
mod Tests
use nc_server_rs.Prelude.{
  ℕ, zero, suc, ◌+◌, ◌-◌, ◌==◌, leb, Bool, ◌&&◌, Option, none, some, List, [], ◌∷◌, ◌++◌, drop,
  length, map, if◌then◌else◌,
}
use nc_server_rs.Prelude.Text.{Text, codes}
use nc_server_rs.Db.Filename.{len_utf8, byte_len}
use nc_server_rs.Dav.Propagator.{Backend, postgres, sqlite}

-- What the statements read and write of a row of the file cache; `fileid` is the key.
pub record Entry : Type 0 where
  pub fileid : ℕ
  pub storage : ℕ
  pub path : Text
  pub path_hash : Text

pub data RekeyResult : Type 0 where
  ok : RekeyResult
  failed : RekeyResult
  panics : RekeyResult

-- A count of characters.
abbrev pub subtree_suffix_offset : Text → ℕ
subtree_suffix_offset prefix = length prefix + 1

-- `SUBSTRING(s FROM n)`, which counts characters from 1.
abbrev pub substring_from : ℕ → Text → Text
substring_from zero s = s
substring_from (suc n) s = drop n s

-- `&s[bytes..]`; `none` is the panic of an index inside a character or behind the end.
unfoldable pub slice_from : ℕ → Text → Option Text
slice_from zero s = some s
slice_from (suc bytes) [] = none
slice_from (suc bytes) (c ∷ s) =
    let rest = slice_from (suc bytes - len_utf8 c) s in
    if leb (len_utf8 c) (suc bytes) then rest else none

abbrev pub below : Text → Text
below old_prefix = old_prefix ++ codes "/%"

module _ (hash : Text → Text) (like : Backend → Text → Text → Bool) where
  abbrev pub is_below : Backend → ℕ → Text → Entry → Bool
  is_below backend storage_id old_prefix row =
      row.storage == storage_id && like backend (below old_prefix) row.path

  -- The `UPDATE` for Postgres, at a row.
  unfoldable pub rekey_entry : ℕ → Text → Text → Entry → Entry
  rekey_entry storage_id old_prefix new_prefix row =
      let moved = new_prefix ++ substring_from (subtree_suffix_offset old_prefix) row.path in
      if is_below postgres storage_id old_prefix row
      then record row { path = moved; path_hash = hash moved }
      else row

  -- The `SELECT` for SQLite.
  unfoldable pub fetch_below : ℕ → Text → List Entry → List (ℕ × Text)
  fetch_below storage_id old_prefix [] = []
  fetch_below storage_id old_prefix (row ∷ rows) =
      let rest = fetch_below storage_id old_prefix rows in
      if is_below sqlite storage_id old_prefix row then (row.fileid, row.path) ∷ rest else rest

  -- The `UPDATE` for SQLite, at a row.
  abbrev pub update_entry : ℕ → Text → Entry → Entry
  update_entry fileid new_path row =
      if row.fileid == fileid
      then record row { path = new_path; path_hash = hash new_path }
      else row

  -- The loop for SQLite over what was fetched; `fails` says which rows are not updated.
  unfoldable pub rekey_fetched :
      (ℕ → Bool) → Text → Text → List (ℕ × Text) → List Entry → RekeyResult × List Entry
  rekey_fetched fails old_prefix new_prefix [] rows = (ok, rows)
  rekey_fetched fails old_prefix new_prefix ((fileid, old_path) ∷ items) rows =
      elim (slice_from (byte_len old_prefix) old_path) [
        | none ↦ (panics, rows)
        | some suffix ↦
            let rest =
              rekey_fetched fails old_prefix new_prefix items
                (map (update_entry fileid (new_prefix ++ suffix)) rows) in
            if fails fileid then (failed, rows) else rest
      ]

  -- `query_ok` says whether the first statement succeeds.
  unfoldable pub rekey_subtree_paths :
      Backend → Bool → (ℕ → Bool) → ℕ → Text → Text → List Entry → RekeyResult × List Entry
  rekey_subtree_paths postgres query_ok fails storage_id old_prefix new_prefix rows =
      if query_ok
      then (ok, map (rekey_entry storage_id old_prefix new_prefix) rows)
      else (failed, rows)
  rekey_subtree_paths sqlite query_ok fails storage_id old_prefix new_prefix rows =
      if query_ok
      then rekey_fetched fails old_prefix new_prefix (fetch_below storage_id old_prefix rows) rows
      else (failed, rows)

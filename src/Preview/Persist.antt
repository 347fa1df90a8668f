-- ===== src/Preview/Persist.antt =====
-- core-rs/crates/nc-preview/src/persist.rs: the rows that are written for previews, and what becomes
-- of the previews of a file that is overwritten. The disk is the list of the paths that are there.
pub mod Written
pub mod Cleared
mod Tests
use nc_server_rs.Prelude.{
  ℕ, ◌==◌, Bool, false, not, ◌&&◌, Option, none, some, List, [], ◌∷◌, if◌then◌else◌, any, length,
}
use nc_server_rs.Prelude.Int.{ℤ, pos, eq_ℤ, ltb_ℤ}
use nc_server_rs.Prelude.Text.{Text, text_eq}
use nc_server_rs.Preview.Store.{
  PreviewRow, Stored, Backend, eq_bool, as_i32, low_i32, load_preview_rows, first_row, preview_name,
  preview_byte_path,
}

pub record NewPreview : Type 0 where
  pub file_id : ℤ
  pub storage_id : ℤ
  pub width : ℕ
  pub height : ℕ
  pub mimetype_id : ℤ
  pub source_mimetype_id : ℤ
  pub max : Bool
  pub cropped : Bool
  pub etag : Text
  pub mtime : ℤ
  pub size : ℤ
  pub version_id : ℤ

unfoldable pub to_row : NewPreview → ℤ → PreviewRow
to_row p id = record {
  id = id;
  file_id = p.file_id;
  storage_id = p.storage_id;
  width = p.width;
  height = p.height;
  mimetype_id = p.mimetype_id;
  source_mimetype_id = p.source_mimetype_id;
  mtime = p.mtime;
  size = p.size;
  max = p.max;
  cropped = p.cropped;
  encrypted = false;
  etag = p.etag;
  version_id = p.version_id;
}

unfoldable pub matches_row : NewPreview → PreviewRow → Bool
matches_row p r =
    r.width == p.width
    && r.height == p.height
    && eq_ℤ r.mimetype_id p.mimetype_id
    && eq_bool r.cropped p.cropped
    && eq_ℤ r.version_id p.version_id

pub data PersistError : Type 0 where
  db : PersistError
  io : PersistError
  conflict_lost : PersistError

pub data Persisted : Type 0 where
  ok : PreviewRow → Persisted
  failed : PersistError → Persisted

-- What is bound: sizes and times are cut to `integer`.
abbrev pub bound : NewPreview → ℤ → Stored
bound p id = record {
  row = record (to_row p id) { mtime = low_i32 p.mtime; size = low_i32 p.size };
  column_width = as_i32 p.width;
  column_height = as_i32 p.height;
}

-- The unique index.
unfoldable pub conflicts : Stored → Stored → Bool
conflicts new there =
    eq_ℤ there.row.file_id new.row.file_id
    && eq_ℤ there.column_width new.column_width
    && eq_ℤ there.column_height new.column_height
    && eq_ℤ there.row.mimetype_id new.row.mimetype_id
    && eq_bool there.row.cropped new.row.cropped
    && eq_ℤ there.row.version_id new.row.version_id

unfoldable pub fetch_by_key : Backend → Bool → NewPreview → List Stored → Persisted
fetch_by_key backend query_ok p table =
    elim (first_row (matches_row p) (load_preview_rows backend query_ok p.file_id table)) [
      | some row ↦ ok row
      | none ↦ failed conflict_lost
    ]

-- `runs` and `query_ok` say whether the insertion and the query behind a conflict succeed.
unfoldable pub insert_preview :
    Backend → Bool → Bool → NewPreview → ℤ → List Stored → Persisted × List Stored
insert_preview backend runs query_ok p id table =
    if not runs
    then (failed db, table)
    else if any (conflicts (bound p id)) table
    then (fetch_by_key backend query_ok p table, table)
    else (ok (to_row p id), bound p id ∷ table)

-- The rows of other files.
unfoldable pub delete_rows : ℤ → List Stored → List Stored
delete_rows file_id [] = []
delete_rows file_id (stored ∷ table) =
    let rest = delete_rows file_id table in
    if eq_ℤ stored.row.file_id file_id then rest else stored ∷ rest

unfoldable pub remove_file : Text → List Text → List Text
remove_file path [] = []
remove_file path (p ∷ disk) =
    let rest = remove_file path disk in if text_eq p path then rest else p ∷ rest

-- `unlinks` says whether a file can be removed.
unfoldable pub remove_files : (Text → Bool) → List Text → List Text → List Text
remove_files unlinks [] disk = disk
remove_files unlinks (path ∷ paths) disk =
    remove_files unlinks paths (if unlinks path then remove_file path disk else disk)

module _ (md5_hex : Text → Text) (datadir instanceid : Text) (get_name : ℤ → Option Text) where
  unfoldable pub byte_paths : ℤ → List PreviewRow → List Text
  byte_paths file_id [] = []
  byte_paths file_id (row ∷ rows) =
      let rest = byte_paths file_id rows in
      elim (get_name row.mimetype_id) [
        | none ↦ rest
        | some out_mime ↦
            preview_byte_path md5_hex datadir instanceid file_id
              (preview_name row.version_id row.width row.height row.cropped row.max out_mime)
            ∷ rest
      ]

  abbrev pub invalidated :
      (Text → Bool)
      → Bool
      → ℤ
      → List PreviewRow
      → List Stored
      → List Text
      → ℕ × List Stored × List Text
  invalidated unlinks deletes file_id [] table disk = (0, table, disk)
  invalidated unlinks deletes file_id (row ∷ rows) table disk =
      if deletes
      then (
        length (row ∷ rows),
        delete_rows file_id table,
        remove_files unlinks (byte_paths file_id (row ∷ rows)) disk,
      )
      else (0, table, disk)

  unfoldable pub invalidate_previews :
      Backend
      → Bool
      → Bool
      → (Text → Bool)
      → ℤ
      → List Stored
      → List Text
      → ℕ × List Stored × List Text
  invalidate_previews backend query_ok deletes unlinks file_id table disk =
      if ltb_ℤ (pos 0) file_id
      then invalidated unlinks deletes file_id (load_preview_rows backend query_ok file_id table)
          table disk
      else (0, table, disk)

-- ===== src/Dav/Directories.antt =====
-- core-rs/crates/nc-dav/src/mutations.rs: how directories are made, `ensure_parent_dir` and
-- `create_dir_row`. What the disk, the database and other requests answer is a parameter, by path.
pub mod Tree
pub mod Linked
pub mod Ensures
pub mod Mkcol
pub mod Total
mod Tests
use nc_server_rs.Prelude.{ℕ, Bool, Option, none, some, List, [], ◌∷◌, ◌++◌, if◌then◌else◌}
use nc_server_rs.Prelude.Int.{eq_ℤ, ℤ, pos, negsuc}
use nc_server_rs.Prelude.Text.{Text, codes, split}
use nc_server_rs.Dav.Paths.{parent_fc_path, last_part}
use nc_server_rs.Dav.Propagator.{
  Row, Backend, lookup_by_path, propagate_change, correct_parent_storage_mtime,
}

pub data FsError : Type 0 where
  exists : FsError
  not_found : FsError
  forbidden : FsError
  general_failure : FsError

pub data ErrorKind : Type 0 where
  missing : ErrorKind
  permission_denied : ErrorKind
  already_exists : ErrorKind
  other : ErrorKind

abbrev pub io_to_fs : ErrorKind → FsError
io_to_fs missing = not_found
io_to_fs permission_denied = forbidden
io_to_fs already_exists = exists
io_to_fs other = general_failure

pub record World : Type 0 where
  pub hash : Text → Text
  pub storage : ℕ
  pub backend : Backend
  pub dir_mime_id : ℕ
  pub dir_mimepart_id : ℕ
  pub clock : Text → ℤ
  pub row_etag : Text → Text
  pub chain_etag : Text → Text
  -- The key that the database gives, and whether it refuses a row that is new to it.
  pub new_id : Text → ℕ
  pub is_refused : Text → Bool
  -- How making a directory fails, if it does.
  pub mkdir : Text → Option ErrorKind
  -- What other requests do to the rows before one is inserted.
  pub arrives : Text → List Row → List Row
  pub disk_mtime : Text → Option ℤ
  pub corrects : Text → Bool
  pub fails : Text → ℕ → Bool

-- The rows of the file cache, and the directories that were made, the latest first.
pub record Tables : Type 0 where
  pub rows : List Row
  pub disk : List Text

pub data EnsureError : Type 0 where
  no_root : EnsureError
  mkdir_failed : EnsureError
  insert_failed : EnsureError

pub data Ensured : Type 0 where
  row_of : Row → Ensured
  error : EnsureError → Ensured

abbrev pub files : Text
files = codes "files"

-- The parent of a new directory: the one before it, or that of `files` beside it.
unfoldable pub parent_id : Option ℤ → Option Row → Option ℤ
parent_id (some last) files_row = some last
parent_id none none = none
parent_id none (some row) = some (if eq_ℤ row.parent (pos row.fileid) then negsuc 0 else row.parent)

module _ (w : World) where
  abbrev pub find : Text → List Row → Option Row
  find path rows = lookup_by_path w.hash w.storage path rows

  abbrev pub dir_row : Text → Text → ℤ → Row
  dir_row path name parent = record {
    fileid = w.new_id path;
    storage = w.storage;
    path = some path;
    path_hash = w.hash path;
    parent = parent;
    name = some name;
    mimetype = w.dir_mime_id;
    mimepart = w.dir_mimepart_id;
    permissions = 31;
    checksum = some [];
    size = pos 0;
    mtime = w.clock path;
    storage_mtime = w.clock path;
    etag = w.row_etag path;
  }

  -- A path has one row: the index on storage and hash is unique.
  unfoldable pub insert_dir : Text → Row → List Row → Option (List Row)
  insert_dir path row rows = elim (find path rows) [
    | some there ↦ none
    | none ↦ if w.is_refused path then none else some (row ∷ rows)
  ]

  unfoldable pub propagate : Text → List Row → List Row
  propagate path rows =
      (propagate_change w.hash w.storage w.backend (w.fails path) (w.clock path) (w.chain_etag path)
        path (w.clock path) (pos 0) rows).1

  unfoldable pub stamp : Text → List Row → List Row
  stamp path rows =
      let parent = parent_fc_path path in
      propagate path
        (correct_parent_storage_mtime w.hash w.storage w.corrects parent (w.disk_mtime parent)
          rows).1

  -- Behind the attempt to insert: if it fails, another request may have been first.
  unfoldable pub after_insert :
      Text → Row → Option (List Row) → List Row → List Text → Ensured × Tables
  after_insert path row (some rows) before disk =
      (row_of (record row { checksum = none }), record { rows = stamp path rows; disk = disk })
  after_insert path row none before disk = elim (find path before) [
    | some there ↦ (row_of there, record { rows = before; disk = disk })
    | none ↦ (error insert_failed, record { rows = before; disk = disk })
  ]

  unfoldable pub make_dir : Text → Text → Option ℤ → Tables → Ensured × Tables
  make_dir path name none t = (error no_root, t)
  make_dir path name (some parent) t =
      let rows = w.arrives path t.rows in
      let row = dir_row path name parent in
      elim (w.mkdir path) [
        | some kind ↦ (error mkdir_failed, t)
        | none ↦ after_insert path row (insert_dir path row rows) rows (path ∷ t.disk)
      ]

  unfoldable pub ensure_segment : Text → Text → Option ℤ → Tables → Ensured × Tables
  ensure_segment path name last t = elim (find path t.rows) [
    | some row ↦ (row_of row, t)
    | none ↦ make_dir path name (parent_id last (find files t.rows)) t
  ]

  -- From a path that is there on.
  unfoldable pub ensure_below : Text → List Text → Ensured × Tables → Ensured × Tables
  ensure_below built names (error e, t) = (error e, t)
  ensure_below built [] (row_of row, t) = (row_of row, t)
  ensure_below built (name ∷ names) (row_of row, t) =
      let path = built ++ b'/' ∷ name in
      ensure_below path names (ensure_segment path name (some (pos row.fileid)) t)

  unfoldable pub ensure_segments : List Text → Tables → Ensured × Tables
  ensure_segments [] t = (error no_root, t)
  ensure_segments (name ∷ names) t = ensure_below name names (ensure_segment name name none t)

  unfoldable pub ensure_parent_dir : Text → Tables → Ensured × Tables
  ensure_parent_dir fc_path t = elim (find fc_path t.rows) [
    | some row ↦ (row_of row, t)
    | none ↦ ensure_segments (split b'/' fc_path) t
  ]

  abbrev pub insert_only :
      Text → Row → List Row → Option (List Row) → List Text → Option FsError × Tables
  insert_only path row before none disk =
      (some general_failure, record { rows = before; disk = disk })
  insert_only path row before (some rows) disk =
      (none, record { rows = propagate path rows; disk = disk })

  -- Once the directory's parent is there.
  unfoldable pub create_in : Text → Ensured × Tables → Option FsError × Tables
  create_in fc_path (error e, t) = (some not_found, t)
  create_in fc_path (row_of parent, t) =
      let rows = w.arrives fc_path t.rows in
      let row = dir_row fc_path (last_part b'/' fc_path) (pos parent.fileid) in
      elim (w.mkdir fc_path) [
        | some kind ↦ (some (io_to_fs kind), t)
        | none ↦ insert_only fc_path row rows (insert_dir fc_path row rows) (fc_path ∷ t.disk)
      ]

  unfoldable pub create_dir_row : Text → Tables → Option FsError × Tables
  create_dir_row fc_path t = elim (find fc_path t.rows) [
    | some row ↦ (some exists, t)
    | none ↦ create_in fc_path (ensure_parent_dir (parent_fc_path fc_path) t)
  ]

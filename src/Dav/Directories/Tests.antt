-- ===== src/Dav/Directories/Tests.antt =====
-- Runs of `ensure_parent_dir` and `create_dir_row` of core-rs/crates/nc-dav/src/mutations.rs on a root
-- with the folder `files`, and the laws there. The digest of a path is the path.
use nc_server_rs.Prelude.{ℕ, ◌+◌, ◌≡◌, refl, false, none, some, [], ◌∷◌, length}
use nc_server_rs.Prelude.Int.{ℤ, pos, negsuc, ◌+ℤ◌}
use nc_server_rs.Prelude.Text.{Text, codes, split, split_parts, text_eq, rsplit_once}
use nc_server_rs.Dav.Paths.{parent_fc_path, get_parents}
use nc_server_rs.Dav.Propagator.{
  Row, sqlite, lookup_by_hash, lookup_by_path, propagate_change, try_propagate, attempts,
  set_ancestor, correct_parent_storage_mtime,
}
use nc_server_rs.Dav.Directories.{
  World, Tables, exists, error, no_root, parent_id, insert_dir, propagate, stamp, after_insert,
  make_dir, ensure_segment, ensure_below, ensure_segments, ensure_parent_dir, create_in,
  create_dir_row,
}
use nc_server_rs.Dav.Directories.Tree.{node_of}
use nc_server_rs.Dav.Directories.Total.{GivesRow, ensure_parent_dir-GivesRow}

abbrev world : World
world = record {
  hash = λ path. path;
  storage = 1;
  backend = sqlite;
  dir_mime_id = 2;
  dir_mimepart_id = 1;
  clock = λ path. pos 500;
  row_etag = λ path. codes "row";
  chain_etag = λ path. codes "chain";
  new_id = λ path. 10 + length path;
  is_refused = λ path. false;
  mkdir = λ path. none;
  arrives = λ path rows. rows;
  disk_mtime = λ path. none;
  corrects = λ path. false;
  fails = λ path attempt. false;
}

abbrev row : ℕ → ℤ → Text → Row
row fileid parent path = record {
  fileid = fileid;
  storage = 1;
  path = some path;
  path_hash = path;
  parent = parent;
  name = some path;
  mimetype = 2;
  mimepart = 1;
  permissions = 31;
  checksum = none;
  size = pos 0;
  mtime = pos 100;
  storage_mtime = pos 100;
  etag = codes "old";
}

abbrev root : Row
root = row 1 (negsuc 0) []

abbrev home : Row
home = row 2 (pos 1) (codes "files")

abbrev tables : Tables
tables = record { rows = home ∷ root ∷ []; disk = [] }

home_found : lookup_by_path world.hash world.storage (codes "files") tables.rows ≡ some home
unfolding lookup_by_path lookup_by_hash text_eq
home_found = refl

ensure_parent_dir-GivesRow_example : GivesRow (ensure_parent_dir world (codes "files/a/b") tables)
ensure_parent_dir-GivesRow_example =
    ensure_parent_dir-GivesRow world (λ path. refl) (λ path. refl) (codes "files/a/b") tables home
      home_found

-- MKCOL makes the folder above too.
folders_made :
    let (done, after) = create_dir_row world (codes "files/a/b") tables in
    (done ≡ none)
    × (after.disk ≡ codes "files/a/b" ∷ codes "files/a" ∷ [])
    × (node_of world (codes "files/a/b") after.rows ≡ some (19, pos 17))
    × (node_of world (codes "files/a") after.rows ≡ some (17, pos 2))
unfolding create_dir_row create_in ensure_parent_dir ensure_segments ensure_below ensure_segment
    make_dir after_insert insert_dir parent_id stamp propagate lookup_by_path lookup_by_hash
    propagate_change try_propagate attempts set_ancestor correct_parent_storage_mtime get_parents
    split split_parts text_eq rsplit_once parent_fc_path ◌+ℤ◌
folders_made = (refl, refl, refl, refl)

already_there : create_dir_row world (codes "files") tables ≡ (some exists, tables)
unfolding create_dir_row lookup_by_path lookup_by_hash text_eq
already_there = refl

-- Without `files` a new folder at the top has no parent.
nowhere :
    ensure_parent_dir world (codes "files_trashbin") (record { rows = root ∷ []; disk = [] })
    ≡ (error no_root, record { rows = root ∷ []; disk = [] })
unfolding ensure_parent_dir ensure_segments ensure_below ensure_segment make_dir parent_id
    lookup_by_path lookup_by_hash split split_parts text_eq
nowhere = refl

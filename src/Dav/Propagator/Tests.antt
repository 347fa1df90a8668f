-- ===== src/Dav/Propagator/Tests.antt =====
-- Runs of core-rs/crates/nc-dav/src/propagator.rs on a root, its folder `files` and a folder in it
-- with one file, and the laws there. The hash of a path is the path.
use nc_server_rs.Prelude.{
  ℕ, ◌≡◌, refl, ◌≢◌, true, false, ◌&&◌, none, some, List, [], ◌∷◌, map, All, arith, if◌then◌else◌,
}
use nc_server_rs.Prelude.Int.{ℤ, pos, ◌+ℤ◌, ◌-ℤ◌}
use nc_server_rs.Prelude.Text.{Text, codes, split, text_eq}
use nc_server_rs.Dav.Paths.{get_parents}
use nc_server_rs.Dav.Propagator.{
  Row, postgres, sqlite, ok, failed, adjusted, set_ancestor, selects, locked_ids, try_propagate,
  attempts, propagate_change, min_ℤ, lookup_by_hash, lookup_by_path, total_size, min_size,
  folder_size, set_size, recompute_folder_size, recompute_all, correct_folder_size_chain,
  correct_folder_size, scanned_size,
}
use nc_server_rs.Dav.Propagator.Update.{
  Reaches, set_ancestor-Reaches, HasKeys, try_propagate-backends,
}
use nc_server_rs.Dav.Propagator.Retry.{propagate_change_lem}
use nc_server_rs.Dav.Propagator.Recompute.{Current, recompute_folder_size-Current}
use nc_server_rs.Dav.Propagator.Chain.{correct_folder_size_chain-itself}

abbrev row : ℕ → ℕ → Text → ℤ → Row
row fileid parent path size = record {
  fileid = fileid;
  storage = 1;
  path = some path;
  path_hash = path;
  parent = pos parent;
  name = some [];
  mimetype = 1;
  mimepart = 1;
  permissions = 31;
  checksum = none;
  size = size;
  mtime = pos 100;
  storage_mtime = pos 100;
  etag = codes "old";
}

-- The folder `files/a` still has the size it had before its file came.
abbrev rows : List Row
rows =
    row 1 0 [] (pos 5)
    ∷ row 2 1 (codes "files") (pos 5)
    ∷ row 3 2 (codes "files/a") (pos 5)
    ∷ row 4 3 (codes "files/a/f") (pos 9)
    ∷ []

abbrev hash : Text → Text
hash path = path

abbrev new : Text
new = codes "new"

abbrev touched : ℕ → ℕ → Text → ℤ → Row
touched fileid parent path size = record (row fileid parent path size) {
  mtime = pos 150;
  etag = new;
}

after_write :
    propagate_change hash 1 postgres
      (λ _. false)
      (pos 150)
      new
      (codes "files/a/f")
      (pos 200)
      (pos 4)
      rows
    ≡ (
      ok,
      touched 1 0 [] (pos 9)
          ∷ touched 2 1 (codes "files") (pos 9)
          ∷ touched 3 2 (codes "files/a") (pos 9)
          ∷ row 4 3 (codes "files/a/f") (pos 9)
          ∷ [],
    )
unfolding propagate_change attempts try_propagate locked_ids set_ancestor adjusted get_parents split
    text_eq ◌+ℤ◌
after_write = refl

-- The chain of a path leaves the path's own row: the folder keeps its old size.
chain_of_parent : correct_folder_size_chain hash 1 (λ _. true) (codes "files/a") rows ≡ (ok, rows)
unfolding correct_folder_size_chain recompute_all recompute_folder_size lookup_by_path
    lookup_by_hash folder_size total_size min_size set_size get_parents split text_eq ◌+ℤ◌
chain_of_parent = refl

chain_of_file :
    (correct_folder_size_chain hash 1 (λ _. true) (codes "files/a/f") rows).1
    ≡ row 1 0 [] (pos 9)
      ∷ row 2 1 (codes "files") (pos 9)
      ∷ row 3 2 (codes "files/a") (pos 9)
      ∷ row 4 3 (codes "files/a/f") (pos 9)
      ∷ []
unfolding correct_folder_size_chain recompute_all recompute_folder_size lookup_by_path
    lookup_by_hash folder_size total_size min_size set_size get_parents split text_eq ◌+ℤ◌
chain_of_file = refl

-- The size of a folder goes to its ancestors as a time: here 120 bytes move their times to 120.
size_as_time :
    (correct_folder_size hash 1 sqlite
      (λ _. true)
      (λ _. false)
      (pos 150)
      new
      (codes "files")
      (row 1 0 [] (pos 5)
        ∷ row 2 1 (codes "files") (pos 5)
        ∷ row 3 2 (codes "files/a") (pos 120)
        ∷ [])).1
    ≡ record (row 1 0 [] (pos 120)) { mtime = pos 120; etag = new }
      ∷ row 2 1 (codes "files") (pos 120)
      ∷ row 3 2 (codes "files/a") (pos 120)
      ∷ []
unfolding correct_folder_size propagate_change attempts try_propagate set_ancestor adjusted
    lookup_by_path lookup_by_hash scanned_size set_size get_parents split text_eq ◌+ℤ◌ ◌-ℤ◌
size_as_time = refl

keys : HasKeys rows
keys = (refl, (refl, (refl, (refl, tt))))

set_ancestor-Reaches_example :
    Reaches
      (pos 200)
      (pos 4)
      new
      (row 1 0 [] (pos 5))
      (set_ancestor (pos 200) (pos 4) new (row 1 0 [] (pos 5)))
set_ancestor-Reaches_example = set_ancestor-Reaches (pos 200) (pos 4) new (row 1 0 [] (pos 5))

try_propagate-backends_example :
    try_propagate postgres 1 (codes "files" ∷ []) (pos 200) (pos 4) new rows
    ≡ try_propagate sqlite 1 (codes "files" ∷ []) (pos 200) (pos 4) new rows
try_propagate-backends_example =
    try_propagate-backends 1 (codes "files" ∷ []) (pos 200) (pos 4) new rows keys

propagate_change_lem_example :
    propagate_change hash 1 postgres
      (λ _. false)
      (pos 150)
      new
      (codes "files/a")
      (pos 200)
      (pos 4)
      rows
    ≡ (if false && (false && false) then (failed, rows) else (
      ok,
      map
          (λ row.
            if selects 1 (map hash (get_parents (codes "files/a"))) row
            then set_ancestor (min_ℤ (pos 200) (pos 150)) (pos 4) new row
            else row)
          rows,
    ))
propagate_change_lem_example =
    propagate_change_lem hash 1 postgres (λ _. false) (pos 150) new (codes "files/a") (pos 200)
      (pos 4) rows keys

found : lookup_by_path hash 1 (codes "files/a") rows ≡ some (row 3 2 (codes "files/a") (pos 5))
unfolding lookup_by_path lookup_by_hash text_eq
found = refl

recompute_folder_size-Current_example :
    Current hash 1
      (codes "files/a")
      (recompute_folder_size hash 1 (λ _. true) (codes "files/a") rows).1
recompute_folder_size-Current_example =
    recompute_folder_size-Current hash 1 (λ _. true) (codes "files/a") rows
      (row 3 2 (codes "files/a") (pos 5)) found
      ((λ _. refl), ((λ _. refl), ((λ _. refl), ((λ e. absurd (cc)), tt))))
      (omega arith, (omega arith, (omega arith, (omega arith, tt)))) refl

not_itself : All (λ p. hash p ≢ hash (codes "files/a")) (get_parents (codes "files/a"))
unfolding get_parents split
not_itself = ((λ e. absurd (cc)), ((λ e. absurd (cc)), tt))

correct_folder_size_chain-itself_example :
    lookup_by_path hash 1
      (codes "files/a")
      (correct_folder_size_chain hash 1 (λ _. true) (codes "files/a") rows).1
    ≡ lookup_by_path hash 1 (codes "files/a") rows
correct_folder_size_chain-itself_example =
    correct_folder_size_chain-itself hash 1 (λ _. true) (codes "files/a") rows not_itself keys

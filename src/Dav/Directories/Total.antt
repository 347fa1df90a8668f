-- ===== src/Dav/Directories/Total.antt =====
-- core-rs/crates/nc-dav/src/mutations.rs: when `ensure_parent_dir` gives a row.
use nc_server_rs.Prelude.{
  ◌≡◌, refl, false, Option, none, some, List, [], ◌∷◌, ◌++◌, Option-cases, inl, inr,
}
use nc_server_rs.Prelude.Int.{ℤ, pos}
use nc_server_rs.Prelude.Text.{Text, split, split_parts}
use nc_server_rs.Dav.Propagator.{Row}
use nc_server_rs.Dav.Directories.{
  World, Tables, Ensured, row_of, error, find, dir_row, insert_dir, after_insert, make_dir,
  parent_id, ensure_segment, ensure_below, ensure_segments, ensure_parent_dir, files,
}

abbrev pub GivesRow : Ensured × Tables → Type 0
GivesRow result = (row : Row) × (result.0 ≡ row_of row)

module _ (w : World) (makes : (path : Text) → w.mkdir path ≡ none)
    (accepts : (path : Text) → w.is_refused path ≡ false) where
  after_insert-GivesRow :
      (path : Text) (row : Row) (rows : List Row) (disk : List Text)
      → GivesRow (after_insert w path row (insert_dir w path row rows) rows disk)
  unfolding after_insert insert_dir
  after_insert-GivesRow path row rows disk = elim (Option-cases (find w path rows)) [
    | inr (there, found) ↦ rw (found, after_insert, insert_dir, found) (there, refl)
    | inl gone ↦
        rw (gone, accepts path, after_insert, insert_dir) (record row { checksum = none }, refl)
  ]

  ensure_segment-GivesRow :
      (path name : Text) (last : Option ℤ) (t : Tables) (parent : ℤ)
      → parent_id last (find w files t.rows) ≡ some parent
      → GivesRow (ensure_segment w path name last t)
  unfolding ensure_segment make_dir
  ensure_segment-GivesRow path name last t parent given = elim (Option-cases (find w path t.rows)) [
    | inr (there, found) ↦ rw (found, ensure_segment) (there, refl)
    | inl gone ↦
        let rows = w.arrives path t.rows in
        let after = after_insert-GivesRow path (dir_row w path name parent) rows (path ∷ t.disk) in
        rw (gone, given, ensure_segment) (rw (makes path, make_dir) after)
  ]

  ensure_below-GivesRow :
      (built : Text) (names : List Text) (result : Ensured × Tables)
      → GivesRow result
      → GivesRow (ensure_below w built names result)
  unfolding ensure_below
  ensure_below-GivesRow built names (error e, t) (row, given) = absurd (cc)
  ensure_below-GivesRow built [] (row_of row, t) gives = gives
  ensure_below-GivesRow built (name ∷ names) (row_of row, t) gives =
      let path = built ++ b'/' ∷ name in
      ensure_below-GivesRow path names (ensure_segment w path name (some (pos row.fileid)) t) (
        ensure_segment-GivesRow path name (some (pos row.fileid)) t (pos row.fileid)
          (unfold parent_id in refl))

  files-given : (row : Row) → (parent : ℤ) × (parent_id none (some row) ≡ some parent)
  unfolding parent_id
  files-given row = (_, refl)

  -- If the table has the folder `files`, no directory fails to be made and the database refuses
  -- no new row, the call ends with a row for every path, also where another request comes first
  -- with a row of its own.
  pub ensure_parent_dir-GivesRow :
      (fc_path : Text) (t : Tables) (row : Row)
      → find w files t.rows ≡ some row
      → GivesRow (ensure_parent_dir w fc_path t)
  unfolding ensure_parent_dir ensure_segments split
  ensure_parent_dir-GivesRow fc_path t row root = elim (Option-cases (find w fc_path t.rows)) [
    | inr (there, found) ↦ rw (found, ensure_parent_dir) (there, refl)
    | inl gone ↦
        let first = (split_parts b'/' fc_path).0 in
        let (parent, given) = files-given row in
        let start = ensure_segment-GivesRow first first none t parent (rw root given) in
        rw (gone, ensure_parent_dir)
          (ensure_below-GivesRow first (split_parts b'/' fc_path).1
            (ensure_segment w first first none t) start)
  ]

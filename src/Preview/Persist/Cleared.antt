-- ===== src/Preview/Persist/Cleared.antt =====
-- core-rs/crates/nc-preview/src/persist.rs: what `invalidate_previews` leaves.
use nc_server_rs.Prelude.{
  ℕ, ◌≡◌, refl, sym, ◌∙◌, ap, Bool, true, false, not, ◌&&◌, ◌||◌, Option, none, some, All,
  Option-cases, List, [], ◌∷◌, arith, any, length, Bool-cases, inl, inr,
}
use nc_server_rs.Prelude.Int.{ℤ, pos, eq_ℤ, ltb_ℤ}
use nc_server_rs.Prelude.Text.{Text, text_eq, text_eq_sound}
use nc_server_rs.Preview.Store.{
  name, byte_path, PreviewRow, Stored, Backend, read_row, rows_of, load_preview_rows,
}
use nc_server_rs.Preview.Persist.{
  delete_rows, remove_file, remove_files, byte_paths, invalidated, invalidate_previews,
}

abbrev pub is_there : Text → List Text → Bool
is_there path disk = any (λ p. text_eq p path) disk

deleted-gone :
    (backend : Backend) (file_id : ℤ) (table : List Stored)
    → rows_of backend file_id (delete_rows file_id table) ≡ []
unfolding rows_of delete_rows
deleted-gone backend file_id [] = refl
deleted-gone backend file_id (stored ∷ table) =
    let rest = deleted-gone backend file_id table in
    elim (Bool-cases (eq_ℤ stored.row.file_id file_id)) [
      | inl own ↦ rw own rest
      | inr apart ↦ rw (apart, apart) rest
    ]

deleted-other :
    (backend : Backend) (file_id other : ℤ)
    → eq_ℤ file_id other ≡ false
    → (table : List Stored)
    → rows_of backend other (delete_rows file_id table) ≡ rows_of backend other table
unfolding rows_of delete_rows
deleted-other backend file_id other apart [] = refl
deleted-other backend file_id other apart (stored ∷ table) =
    let rest = deleted-other backend file_id other apart table in
    elim (Bool-cases (eq_ℤ stored.row.file_id file_id)) [
      | inl own ↦
          let not_other : eq_ℤ stored.row.file_id other ≡ false = ground arith in
          rw (own, not_other) rest
      | inr kept ↦ elim (Bool-cases (eq_ℤ stored.row.file_id other)) [
        | inl here ↦
            rw (kept, here) (ap (λ (r : List PreviewRow). read_row backend stored ∷ r) rest)
        | inr elsewhere ↦ rw (kept, elsewhere) rest
      ]
    ]

drop_first : (g d : Bool) → (d && not g) ≡ ((g || d) && not g)
drop_first g d = ground arith

not_both :
    (gone path p : Text)
    → text_eq p gone ≡ false
    → text_eq p path ≡ true
    → text_eq gone path ≡ false
not_both gone path p apart here = elim (Bool-cases (text_eq gone path)) [
  | inr no_match ↦ no_match
  | inl same ↦
      let e : path ≡ gone = sym (text_eq_sound gone path same) in
      let both : text_eq p gone ≡ true = ap (text_eq p) (sym e) ∙ here in absurd (cc)
]

removed-there :
    (gone path : Text) (disk : List Text)
    → is_there path (remove_file gone disk) ≡ (is_there path disk && not (text_eq gone path))
unfolding remove_file
removed-there gone path [] = refl
removed-there gone path (p ∷ disk) =
    let rest = removed-there gone path disk in
    elim (Bool-cases (text_eq p gone)) [
      | inl same ↦
          let e : text_eq p path ≡ text_eq gone path =
            ap (λ (t : Text). text_eq t path) (text_eq_sound p gone same) in
          rw (same, e) (rest ∙ drop_first (text_eq gone path) (is_there path disk))
      | inr apart ↦ elim (Bool-cases (text_eq p path)) [
        | inl here ↦ rw (apart, here) (rw (not_both gone path p apart here) refl)
        | inr elsewhere ↦ rw (apart, elsewhere) rest
      ]
    ]

keep_out :
    (there gone others : Bool)
    → (there && not gone && not others) ≡ (there && not (gone && true || others))
keep_out there gone others = ground arith

keep_in :
    (there gone others : Bool) → (there && not others) ≡ (there && not (gone && false || others))
keep_in there gone others = ground arith

files-there :
    (unlinks : Text → Bool) (path : Text) (paths disk : List Text)
    → is_there path (remove_files unlinks paths disk)
      ≡ (is_there path disk && not (any (λ p. text_eq p path && unlinks p) paths))
unfolding remove_files
files-there unlinks path [] disk = ground arith
files-there unlinks path (q ∷ paths) disk = elim (Bool-cases (unlinks q)) [
  | inl goes ↦ rw goes (
      files-there unlinks path paths (remove_file q disk)
      ∙ (ap (λ (b : Bool). b && not (any (λ p. text_eq p path && unlinks p) paths))
            (removed-there q path disk)
          ∙ keep_out (is_there path disk) (text_eq q path)
              (any (λ p. text_eq p path && unlinks p) paths)))
  | inr stays ↦ rw stays (
      files-there unlinks path paths disk
      ∙ keep_in (is_there path disk) (text_eq q path)
          (any (λ p. text_eq p path && unlinks p) paths))
]

-- What the previews of a file owe when it is overwritten.
pub record IsCleared (backend : Backend) (unlinks : Text → Bool) (file_id : ℤ) (table : List Stored)
    (disk paths : List Text) (result : ℕ × List Stored × List Text) : Type 0 where
  pub counted : result.0 ≡ length (rows_of backend file_id table)
  pub gone : rows_of backend file_id result.1 ≡ []
  pub others :
      (other : ℤ)
      → eq_ℤ file_id other ≡ false
      → rows_of backend other result.1 ≡ rows_of backend other table
  pub files :
      (path : Text)
      → is_there path result.2
        ≡ (is_there path disk && not (any (λ p. text_eq p path && unlinks p) paths))

module _ (md5_hex : Text → Text) (datadir instanceid : Text) (get_name : ℤ → Option Text) where
  -- Where the rows' bytes are served from, for the known formats.
  abbrev pub served_paths : List PreviewRow → List Text
  served_paths [] = []
  served_paths (row ∷ rows) = elim (get_name row.mimetype_id) [
    | none ↦ served_paths rows
    | some out_mime ↦ byte_path md5_hex row datadir instanceid out_mime ∷ served_paths rows
  ]

  OfFile : ℤ → PreviewRow → Type 0
  OfFile file_id row = row.file_id ≡ file_id

  loaded-OfFile :
      (backend : Backend) (file_id : ℤ) (table : List Stored)
      → All (OfFile file_id) (rows_of backend file_id table)
  unfolding rows_of read_row OfFile
  loaded-OfFile backend file_id [] = tt
  loaded-OfFile backend file_id (stored ∷ table) =
      let rest = loaded-OfFile backend file_id table in
      elim (Bool-cases (eq_ℤ stored.row.file_id file_id)) [
        | inl own ↦ rw own (ground arith, rest)
        | inr apart ↦ rw apart rest
      ]

  byte_paths-served :
      (file_id : ℤ) (rows : List PreviewRow)
      → All (OfFile file_id) rows
      → byte_paths md5_hex datadir instanceid get_name file_id rows ≡ served_paths rows
  unfolding byte_paths byte_path name OfFile
  byte_paths-served file_id [] own = refl
  byte_paths-served file_id (row ∷ rows) (o, own) =
      let rest = byte_paths-served file_id rows own in
      elim (Option-cases (get_name row.mimetype_id)) [
        | inl unknown ↦ rw (unknown, byte_paths) (rw (unknown, served_paths) rest)
        | inr (mime, known) ↦ rw (known, byte_paths) (rw (known, served_paths) (rw (o, rest) refl))
      ]

  invalidated-IsCleared :
      (backend : Backend) (unlinks : Text → Bool) (file_id : ℤ) (table : List Stored)
      (disk : List Text) (rows : List PreviewRow)
      → rows_of backend file_id table ≡ rows
      → IsCleared backend unlinks file_id table disk
          (byte_paths md5_hex datadir instanceid get_name file_id rows)
          (invalidated md5_hex datadir instanceid get_name unlinks true file_id rows table disk)
  unfolding byte_paths remove_files
  invalidated-IsCleared backend unlinks file_id table disk [] loaded = record {
    counted = ap length (sym loaded);
    gone = loaded;
    others = λ other apart. refl;
    files = λ path. files-there unlinks path [] disk;
  }
  invalidated-IsCleared backend unlinks file_id table disk (row ∷ rows) loaded = record {
    counted = ap length (sym loaded);
    gone = deleted-gone backend file_id table;
    others = λ other apart. deleted-other backend file_id other apart table;
    files = λ path.
        files-there unlinks path
          (byte_paths md5_hex datadir instanceid get_name file_id (row ∷ rows)) disk;
  }

  -- For a file with a positive key, if the query and the deletion run: no row of the file is left,
  -- the rows of every other file are as they were, the result is the number of rows that were
  -- loaded, and from the disk exactly those files are gone that the rows with a known format are
  -- served from and that can be unlinked.
  pub invalidate_previews-IsCleared :
      (backend : Backend) (unlinks : Text → Bool) (file_id : ℤ) (table : List Stored)
      (disk : List Text)
      → ltb_ℤ (pos 0) file_id ≡ true
      → IsCleared backend unlinks file_id table disk
          (served_paths (load_preview_rows backend true file_id table))
          (invalidate_previews md5_hex datadir instanceid get_name backend true true unlinks file_id
            table disk)
  unfolding invalidate_previews load_preview_rows
  invalidate_previews-IsCleared backend unlinks file_id table disk positive =
      let rows = rows_of backend file_id table in
      let cleared = invalidated-IsCleared backend unlinks file_id table disk rows refl in
      rw positive
        (rw (byte_paths-served file_id rows (loaded-OfFile backend file_id table)) at cleared)

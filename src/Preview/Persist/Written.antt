-- ===== src/Preview/Persist/Written.antt =====
-- core-rs/crates/nc-preview/src/persist.rs, store.rs: a preview that was inserted is the one that is
-- found.
use nc_server_rs.Prelude.{
  ℕ, ◌<◌, ◌^◌, ◌%◌, ◌==◌, ◌≡◌, refl, ◌∙◌, ap, Bool, true, false, ◌&&◌, some, List, [], ◌∷◌, arith,
  any, Bool-cases, inl, inr, ltb,
}
use nc_server_rs.Prelude.Int.{ℤ, eq_ℤ}
use nc_server_rs.Preview.Store.{
  PreviewRow, Stored, Backend, eq_bool, as_i32, as_u32, read_row, rows_of, load_preview_rows,
  first_row, matches, find_match,
}
use nc_server_rs.Preview.Persist.{
  NewPreview, to_row, matches_row, ok, bound, conflicts, fetch_by_key, insert_preview,
}

-- No two rows with one key.
abbrev pub IsUnique : List Stored → Type 0
IsUnique [] = Unit
IsUnique (stored ∷ table) = (any (conflicts stored) table ≡ false) × IsUnique table

u32-i32 : (n : ℕ) → n < 2 ^ 32 → as_u32 (as_i32 n) ≡ n
u32-i32 n h =
    let small : n % 2 ^ 32 ≡ n = omega arith in
    elim (Bool-cases (ltb n (2 ^ 31))) [
      | inl low ↦ rw (small, low) small
      | inr high ↦ rw (small, high) (omega arith)
    ]

swap_middle : (a b c d e : Bool) → (a && b && c && d && e) ≡ (a && b && d && c && e)
swap_middle a b c d e = ground arith

all_six :
    (a b c d e f : Bool)
    → (a && b && c && d && e && f) ≡ true
    → (a ≡ true) × (b ≡ true) × (c ≡ true) × (d ≡ true) × (e ≡ true) × (f ≡ true)
all_six a b c d e f h = ground arith

five_true :
    (a b c d e : Bool)
    → a ≡ true
    → b ≡ true
    → c ≡ true
    → d ≡ true
    → e ≡ true
    → (a && b && c && d && e) ≡ true
five_true a b c d e p q r s t = ground arith

eq_self : {a b : ℕ} → a ≡ b → (a == b) ≡ true
eq_self e = ground arith

eq_ℤ_refl : (z : ℤ) → eq_ℤ z z ≡ true
eq_ℤ_refl z = ground arith

eq_bool_refl : (b : Bool) → eq_bool b b ≡ true
eq_bool_refl true = refl
eq_bool_refl false = refl

eq_ℤ_sound : (a b : ℤ) → eq_ℤ a b ≡ true → a ≡ b
eq_ℤ_sound a b h = ground arith

matches-matches_row :
    (p : NewPreview) (r : PreviewRow)
    → matches r p.width p.height p.cropped p.mimetype_id p.version_id ≡ matches_row p r
unfolding matches matches_row
matches-matches_row p r =
    swap_middle (r.width == p.width) (r.height == p.height) (eq_bool r.cropped p.cropped)
      (eq_ℤ r.mimetype_id p.mimetype_id) (eq_ℤ r.version_id p.version_id)

first_row-ext :
    (f g : PreviewRow → Bool)
    → ((r : PreviewRow) → f r ≡ g r)
    → (rows : List PreviewRow) → first_row f rows ≡ first_row g rows
unfolding first_row
first_row-ext f g same [] = refl
first_row-ext f g same (r ∷ rows) =
    let rest = first_row-ext f g same rows in rw (same r) (rw rest refl)

module _ (backend : Backend) (p : NewPreview) (id : ℤ) (narrow : p.width < 2 ^ 32)
    (low : p.height < 2 ^ 32) where
  conflict-matches :
      (there : Stored)
      → conflicts (bound p id) there ≡ true
      → (eq_ℤ there.row.file_id p.file_id ≡ true) × (matches_row p (read_row backend there) ≡ true)
  unfolding conflicts matches_row read_row to_row
  conflict-matches there h =
      let (file, width, height, mime, crop, version) =
        all_six (eq_ℤ there.row.file_id p.file_id) (eq_ℤ there.column_width (as_i32 p.width))
          (eq_ℤ there.column_height (as_i32 p.height)) (eq_ℤ there.row.mimetype_id p.mimetype_id)
          (eq_bool there.row.cropped p.cropped) (eq_ℤ there.row.version_id p.version_id) h in
      let same_width : as_u32 there.column_width ≡ p.width =
        ap as_u32 (eq_ℤ_sound there.column_width (as_i32 p.width) width) ∙ u32-i32 p.width narrow in
      let same_height : as_u32 there.column_height ≡ p.height =
        ap as_u32 (eq_ℤ_sound there.column_height (as_i32 p.height) height)
        ∙ u32-i32 p.height low in
      (
        file,
        five_true (as_u32 there.column_width == p.width) (as_u32 there.column_height == p.height)
            (eq_ℤ there.row.mimetype_id p.mimetype_id) (eq_bool there.row.cropped p.cropped)
            (eq_ℤ there.row.version_id p.version_id) (eq_self same_width) (eq_self same_height) mime
            crop version,
      )

  read-matches : matches_row p (read_row backend (bound p id)) ≡ true
  unfolding matches_row read_row to_row
  read-matches =
      five_true (as_u32 (as_i32 p.width) == p.width) (as_u32 (as_i32 p.height) == p.height)
        (eq_ℤ p.mimetype_id p.mimetype_id) (eq_bool p.cropped p.cropped)
        (eq_ℤ p.version_id p.version_id) (eq_self (u32-i32 p.width narrow))
        (eq_self (u32-i32 p.height low)) (eq_ℤ_refl p.mimetype_id) (eq_bool_refl p.cropped)
        (eq_ℤ_refl p.version_id)

  conflict-found :
      (table : List Stored)
      → any (conflicts (bound p id)) table ≡ true
      → (row : PreviewRow) × (first_row (matches_row p) (rows_of backend p.file_id table)
          ≡ some row)
        × (matches_row p row ≡ true)
  unfolding rows_of first_row
  conflict-found [] h = absurd (cc)
  conflict-found (there ∷ table) h = elim (Bool-cases (conflicts (bound p id) there)) [
    | inl clash ↦
        let (file, fits) = conflict-matches there clash in
        rw (file, fits) (read_row backend there, refl, fits)
    | inr apart ↦
        let later : any (conflicts (bound p id)) table ≡ true = (rw apart at h) in
        let (row, found, fits) = conflict-found table later in
        elim (Bool-cases (eq_ℤ there.row.file_id p.file_id)) [
          | inr other ↦ rw other (row, found, fits)
          | inl file ↦ elim (Bool-cases (matches_row p (read_row backend there))) [
            | inl match ↦ rw (file, match) (read_row backend there, refl, match)
            | inr no_match ↦ rw (file, no_match) (row, found, fits)
          ]
        ]
  ]

  -- The row that answers for the preview, and the row that a request for the preview finds.
  abbrev pub IsFound : List Stored → PreviewRow → Type 0
  IsFound table row =
      (read : PreviewRow) × (find_match (load_preview_rows backend true p.file_id table) p.width
          p.height p.cropped p.mimetype_id p.version_id
        ≡ some read)
      × (read.id ≡ row.id)
      × (matches_row p row ≡ true)
      × (read.max ≡ row.max)

  find-first :
      (rows : List PreviewRow)
      → find_match rows p.width p.height p.cropped p.mimetype_id p.version_id
        ≡ first_row (matches_row p) rows
  unfolding find_match
  find-first rows =
      first_row-ext (λ r. matches r p.width p.height p.cropped p.mimetype_id p.version_id)
        (matches_row p) (matches-matches_row p) rows

  front-found :
      (table : List Stored)
      → first_row (matches_row p) (rows_of backend p.file_id (bound p id ∷ table))
        ≡ some (read_row backend (bound p id))
  unfolding rows_of first_row to_row
  front-found table = rw (eq_ℤ_refl p.file_id, read-matches) refl

  own-matches : matches_row p (to_row p id) ≡ true
  unfolding matches_row to_row
  own-matches =
      five_true (p.width == p.width) (p.height == p.height) (eq_ℤ p.mimetype_id p.mimetype_id)
        (eq_bool p.cropped p.cropped) (eq_ℤ p.version_id p.version_id) (eq_self refl) (eq_self refl)
        (eq_ℤ_refl p.mimetype_id) (eq_bool_refl p.cropped) (eq_ℤ_refl p.version_id)

  fetched :
      (table : List Stored) (row : PreviewRow)
      → first_row (matches_row p) (rows_of backend p.file_id table) ≡ some row
      → fetch_by_key backend true p table ≡ ok row
  unfolding fetch_by_key load_preview_rows
  fetched table row found = rw (found, fetch_by_key) refl

  -- Of a preview whose sizes fit 32 bits, and statements that run: whether the row goes in or
  -- another writer was first, the call answers with a row for the same size, crop, format and
  -- version, and a request for these finds that row in the table as it is then. No two rows of the
  -- table have one key, if none had.
  pub insert_preview-IsFound :
      (table : List Stored)
      → IsUnique table
      → (row : PreviewRow) × ((insert_preview backend true true p id table).0 ≡ ok row)
        × IsFound (insert_preview backend true true p id table).1 row
        × IsUnique (insert_preview backend true true p id table).1
  unfolding insert_preview load_preview_rows
  insert_preview-IsFound table unique = elim (Bool-cases (any (conflicts (bound p id)) table)) [
    | inl clash ↦
        let (row, found, fits) = conflict-found table clash in
        rw clash (
          row,
          fetched table row found,
          (row, find-first (rows_of backend p.file_id table) ∙ found, refl, fits, refl),
          unique,
        )
    | inr fresh ↦ rw fresh (
      to_row p id,
      refl,
      (
        read_row backend (bound p id),
        find-first (rows_of backend p.file_id (bound p id ∷ table)) ∙ front-found table,
        unfold read_row to_row in refl,
        own-matches,
        unfold read_row to_row in refl,
      ),
      (fresh, unique),
    )
  ]

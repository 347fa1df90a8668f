-- ===== src/Dav/Rekey/Loop.antt =====
-- core-rs/crates/nc-dav/src/row/rekey.rs: what the loop for SQLite does to each row, where it runs
-- to its end.
use nc_server_rs.Prelude.{
  ℕ, zero, suc, ◌+◌, ◌-◌, ◌≡◌, refl, ap, sym, ◌∙◌, ◌==◌, Bool, true, false, some, List, [], ◌∷◌,
  ◌++◌, arith, any, All, map, drop, length, leb, Bool-cases, inl, inr, if◌then◌else◌,
}
use nc_server_rs.Prelude.Text.{Text}
use nc_server_rs.Db.Filename.{len_utf8, byte_len}
use nc_server_rs.Dav.Propagator.{Backend, sqlite}
use nc_server_rs.Dav.Rekey.{
  Entry, ok, slice_from, is_below, fetch_below, update_entry, rekey_fetched,
}

-- Every row has a key of its own.
abbrev pub HasKeys : List Entry → Type 0
HasKeys [] = Unit
HasKeys (row ∷ rows) = (any (λ r. r.fileid == row.fileid) rows ≡ false) × HasKeys rows

slice_step :
    (n bytes c : ℕ) (s : Text) → len_utf8 c + bytes ≡ n → slice_from n (c ∷ s) ≡ slice_from bytes s
unfolding slice_from
slice_step zero bytes c s e = absurd (ground arith)
slice_step (suc n) bytes c s e =
    let fits : leb (len_utf8 c) (suc n) ≡ true = ground arith in
    let left : suc n - len_utf8 c ≡ bytes = ground arith in rw (fits, left) refl

-- A slice behind a prefix is the rest.
pub slice_from-append : (p s : Text) → slice_from (byte_len p) (p ++ s) ≡ some s
unfolding slice_from
slice_from-append [] s = refl
slice_from-append (c ∷ p) s =
    slice_step (byte_len (c ∷ p)) (byte_len p) c (p ++ s) refl ∙ slice_from-append p s

module _ (hash : Text → Text) (like : Backend → Text → Text → Bool) (old new : Text) where
  -- What the loop does to one row.
  abbrev pub applied : List (ℕ × Text) → Entry → Entry
  applied [] row = row
  applied ((fileid, old_path) ∷ items) row =
      applied items (update_entry hash like fileid (new ++ drop (length old) old_path) row)

  update_other :
      (fileid : ℕ) (path : Text) (row : Entry)
      → (row.fileid == fileid) ≡ false
      → update_entry hash like fileid path row ≡ row
  update_other fileid path row apart = rw apart refl

  update_own :
      (path : Text) (row : Entry)
      → update_entry hash like row.fileid path row
        ≡ record row { path = path; path_hash = hash path }
  update_own path row = let own : (row.fileid == row.fileid) ≡ true = ground arith in rw own refl

  -- A path that the loop slices behind the old one.
  abbrev pub IsSliced : ℕ × Text → Type 0
  IsSliced item = slice_from (byte_len old) item.1 ≡ some (drop (length old) item.1)

  map-map : (f g : Entry → Entry) (rows : List Entry) → map f (map g rows) ≡ map (λ r. f (g r)) rows
  map-map f g [] = refl
  map-map f g (row ∷ rows) = ap (λ (rest : List Entry). f (g row) ∷ rest) (map-map f g rows)

  map_id : (rows : List Entry) → map (λ r. r) rows ≡ rows
  map_id [] = refl
  map_id (row ∷ rows) = ap (λ (rest : List Entry). row ∷ rest) (map_id rows)

  pub rekey_fetched-applied :
      (fails : ℕ → Bool) (items : List (ℕ × Text)) (rows : List Entry)
      → ((fileid : ℕ) → fails fileid ≡ false)
      → All IsSliced items
      → rekey_fetched hash like fails old new items rows ≡ (ok, map (applied items) rows)
  unfolding rekey_fetched
  rekey_fetched-applied fails [] rows never sliced =
      ap (λ (r : List Entry). (ok, r)) (sym (map_id rows))
  rekey_fetched-applied fails ((fileid, old_path) ∷ items) rows never (slice, sliced) =
      let moved = update_entry hash like fileid (new ++ drop (length old) old_path) in
      rw (slice, never fileid, rekey_fetched)
        (rekey_fetched-applied fails items (map moved rows) never sliced
          ∙ ap (λ (r : List Entry). (ok, r)) (map-map (applied items) moved rows))

  module _ (storage_id : ℕ) where
    -- What a row becomes.
    abbrev pub moved_entry : Entry → Entry
    moved_entry row =
        let path = new ++ drop (length old) row.path in
        if is_below hash like sqlite storage_id old row
        then record row { path = path; path_hash = hash path }
        else row

    abbrev pub of_fetched : List Entry → Entry → Entry
    of_fetched rows row = applied (fetch_below hash like storage_id old rows) row

    applied_absent :
        (rows : List Entry) (row : Entry)
        → any (λ r. r.fileid == row.fileid) rows ≡ false
        → of_fetched rows row ≡ row
    unfolding fetch_below
    applied_absent [] row absent = refl
    applied_absent (other ∷ rows) row absent =
        let apart : (row.fileid == other.fileid) ≡ false = ground arith in
        let rest = applied_absent rows row (ground arith) in
        elim (Bool-cases (is_below hash like sqlite storage_id old other)) [
          | inl taken ↦ rw taken (
              ap (of_fetched rows)
                (update_other other.fileid (new ++ drop (length old) other.path) row apart)
              ∙ rest)
          | inr left ↦ rw left rest
        ]

    applied_own :
        (row : Entry) (rows : List Entry)
        → any (λ r. r.fileid == row.fileid) rows ≡ false
        → of_fetched (row ∷ rows) row ≡ moved_entry row
    unfolding fetch_below
    applied_own row rows absent =
        let path = new ++ drop (length old) row.path in
        elim (Bool-cases (is_below hash like sqlite storage_id old row)) [
          | inl taken ↦ rw taken (
              ap (of_fetched rows) (update_own path row)
              ∙ applied_absent rows (record row { path = path; path_hash = hash path }) absent)
          | inr left ↦ rw left (applied_absent rows row absent)
        ]

    applied_apart :
        (more : Entry) (whole rows : List Entry)
        → any (λ r. r.fileid == more.fileid) rows ≡ false
        → All (λ r. of_fetched whole r ≡ moved_entry r) rows
        → All (λ r. of_fetched (more ∷ whole) r ≡ moved_entry r) rows
    unfolding fetch_below
    applied_apart more whole [] absent each = tt
    applied_apart more whole (row ∷ rows) absent (p, each) =
        let apart : (row.fileid == more.fileid) ≡ false = ground arith in
        let rest = applied_apart more whole rows (ground arith) each in
        elim (Bool-cases (is_below hash like sqlite storage_id old more)) [
          | inl taken ↦ (
            rw taken (
                ap (of_fetched whole)
                  (update_other more.fileid (new ++ drop (length old) more.path) row apart)
                ∙ p),
            rest,
          )
          | inr left ↦ (rw left p, rest)
        ]

    -- Where every row has a key of its own, the loop moves each row that was selected, and no other.
    pub applied-moved_entry :
        (rows : List Entry) → HasKeys rows → All (λ r. of_fetched rows r ≡ moved_entry r) rows
    applied-moved_entry [] keys = tt
    applied-moved_entry (row ∷ rows) (own, keys) =
        (applied_own row rows own, applied_apart row rows rows own (applied-moved_entry rows keys))

-- ===== src/Dav/Propagator/Update.antt =====
-- core-rs/crates/nc-dav/src/propagator.rs: what the update does to a row, and that the statements for
-- Postgres and SQLite do the same.
use nc_server_rs.Prelude.{
  ℕ, ◌≡◌, refl, sym, Bool, true, false, List, [], ◌∷◌, ◌==◌, arith, All, Bool-cases, inl, inr,
  if◌then◌else◌, map, any,
}
use nc_server_rs.Prelude.Int.{ℤ, ◌≤ℤ◌, ◌+ℤ◌, ltb_ℤ}
use nc_server_rs.Prelude.Text.{Text}
use nc_server_rs.Dav.Propagator.{
  Row, postgres, sqlite, unscanned, adjusted, set_ancestor, is_zero, selects, locked_ids,
  try_propagate,
}

-- What an update owes to the ancestor it reaches.
pub record Reaches (time difference : ℤ) (etag : Text) (before after : Row) : Type 0 where
  pub same_key : after.fileid ≡ before.fileid
  pub renewed : after.etag ≡ etag
  pub not_older : before.mtime ≤ℤ after.mtime
  pub not_before : time ≤ℤ after.mtime
  pub valid : unscanned ≤ℤ before.size → unscanned ≤ℤ after.size
  pub still_unscanned : before.size ≡ unscanned → after.size ≡ unscanned
  pub exact :
      unscanned ≤ℤ (before.size +ℤ difference)
      → ltb_ℤ unscanned before.size ≡ true
      → after.size ≡ before.size +ℤ difference
  pub floored :
      ltb_ℤ (before.size +ℤ difference) unscanned ≡ true
      → ltb_ℤ unscanned before.size ≡ true
      → after.size ≡ unscanned

adjusted-valid : (size d : ℤ) → unscanned ≤ℤ size → unscanned ≤ℤ adjusted size d
unfolding adjusted
adjusted-valid size d h = ground arith

adjusted-unscanned : (size d : ℤ) → size ≡ unscanned → adjusted size d ≡ unscanned
unfolding adjusted
adjusted-unscanned size d h = ground arith

adjusted-exact :
    (size d : ℤ)
    → unscanned ≤ℤ (size +ℤ d)
    → ltb_ℤ unscanned size ≡ true
    → adjusted size d ≡ size +ℤ d
unfolding adjusted
adjusted-exact size d h k = ground arith

adjusted-floored :
    (size d : ℤ)
    → ltb_ℤ (size +ℤ d) unscanned ≡ true
    → ltb_ℤ unscanned size ≡ true
    → adjusted size d ≡ unscanned
unfolding adjusted
adjusted-floored size d h k = ground arith

lt_unscanned : (size : ℤ) → ltb_ℤ size unscanned ≡ true → ltb_ℤ unscanned size ≡ true → ⊥
lt_unscanned size h k = ground arith

zero_difference : (size d : ℤ) → is_zero d ≡ true → size ≡ size +ℤ d
unfolding ◌+ℤ◌
zero_difference size d h = ground arith

not_floored :
    (size d : ℤ)
    → is_zero d ≡ true
    → ltb_ℤ (size +ℤ d) unscanned ≡ true
    → ltb_ℤ unscanned size ≡ true
    → ⊥
not_floored size d zero h k = lt_unscanned size (rw (sym (zero_difference size d zero)) at h) k

-- An ancestor that a change reaches gets the change's etag and a time that is neither before its own
-- nor before the change's. An unscanned size stays -1; a scanned one becomes its sum with the
-- difference where that is at least -1, and -1 where the sum would fall below.
pub set_ancestor-Reaches :
    (time difference : ℤ) (etag : Text) (row : Row)
    → Reaches time difference etag row (set_ancestor time difference etag row)
unfolding set_ancestor
set_ancestor-Reaches time difference etag row = record {
  same_key = refl;
  renewed = refl;
  not_older = ground arith;
  not_before = ground arith;
  valid = λ h. elim (Bool-cases (is_zero difference)) [
    | inl none ↦ rw none h
    | inr some ↦ rw some (adjusted-valid row.size difference h)
  ];
  still_unscanned = λ h. elim (Bool-cases (is_zero difference)) [
    | inl none ↦ rw none h
    | inr some ↦ rw some (adjusted-unscanned row.size difference h)
  ];
  exact = λ h k. elim (Bool-cases (is_zero difference)) [
    | inl none ↦ rw none (zero_difference row.size difference none)
    | inr some ↦ rw some (adjusted-exact row.size difference h k)
  ];
  floored = λ h k. elim (Bool-cases (is_zero difference)) [
    | inl none ↦ absurd (not_floored row.size difference none h k)
    | inr some ↦ rw some (adjusted-floored row.size difference h k)
  ];
}

-- Every row has a key of its own.
abbrev pub HasKeys : List Row → Type 0
HasKeys [] = Unit
HasKeys (row ∷ rows) = (any (λ r. r.fileid == row.fileid) rows ≡ false) × HasKeys rows

module _ (storage : ℕ) (hashes : List Text) where
  not_locked :
      (id : ℕ) (rows : List Row)
      → any (λ r. r.fileid == id) rows ≡ false
      → any (λ i. i == id) (locked_ids storage hashes rows) ≡ false
  unfolding locked_ids
  not_locked id [] h = refl
  not_locked id (row ∷ rows) h = ground (arith, not_locked id rows)

  -- A row with a key apart from one more row is locked with it as without.
  locked_apart :
      (row : Row) (more : Row) (rows : List Row)
      → (more.fileid == row.fileid) ≡ false
      → any (λ i. i == row.fileid) (locked_ids storage hashes (more ∷ rows))
        ≡ any (λ i. i == row.fileid) (locked_ids storage hashes rows)
  unfolding locked_ids
  locked_apart row more rows h = ground arith

  abbrev IsLocked : List Row → Row → Type 0
  IsLocked rows row =
      any (λ i. i == row.fileid) (locked_ids storage hashes rows) ≡ selects storage hashes row

  All-apart :
      (more : Row) (whole rows : List Row)
      → any (λ r. r.fileid == more.fileid) rows ≡ false
      → All (IsLocked whole) rows
      → All (IsLocked (more ∷ whole)) rows
  All-apart more whole [] h a = tt
  All-apart more whole (row ∷ rows) h (p, a) =
      let apart : (more.fileid == row.fileid) ≡ false = ground arith in
      (rw (locked_apart row more whole apart) p, All-apart more whole rows (ground arith) a)

  head-IsLocked :
      (row : Row) (rows : List Row)
      → any (λ r. r.fileid == row.fileid) rows ≡ false
      → IsLocked (row ∷ rows) row
  unfolding locked_ids
  head-IsLocked row rows h = ground (arith, not_locked row.fileid rows h)

  All-IsLocked : (rows : List Row) → HasKeys rows → All (IsLocked rows) rows
  All-IsLocked [] k = tt
  All-IsLocked (row ∷ rows) (own, k) =
      (head-IsLocked row rows own, All-apart row rows rows own (All-IsLocked rows k))

map_agree :
    (f g : Row → Row) (rows : List Row) → All (λ r. f r ≡ g r) rows → map f rows ≡ map g rows
map_agree f g [] h = refl
map_agree f g (row ∷ rows) (p, h) = ground (arith, p, map_agree f g rows h)

same_choice :
    (locked selected : Bool) (a b : Row)
    → locked ≡ selected
    → (if locked then a else b) ≡ (if selected then a else b)
same_choice locked selected a b e = rw e refl

same_updates :
    (storage : ℕ) (hashes : List Text) (change : Row → Row) (whole rows : List Row)
    → All (IsLocked storage hashes whole) rows
    → All
        (λ row.
          (if any (λ i. i == row.fileid) (locked_ids storage hashes whole) then change row else row)
          ≡ (if selects storage hashes row then change row else row))
        rows
same_updates storage hashes change whole [] h = tt
same_updates storage hashes change whole (row ∷ rows) (p, h) =
    (same_choice _ _ (change row) row p, same_updates storage hashes change whole rows h)

-- Where every row has a key of its own, the statement for Postgres, which joins the rows that it
-- has locked, and the one for SQLite update the same rows to the same values.
pub try_propagate-backends :
    (storage : ℕ) (hashes : List Text) (time difference : ℤ) (etag : Text) (rows : List Row)
    → HasKeys rows
    → try_propagate postgres storage hashes time difference etag rows
      ≡ try_propagate sqlite storage hashes time difference etag rows
unfolding try_propagate
try_propagate-backends storage hashes time difference etag rows k = map_agree _ _ rows (
    same_updates storage hashes (set_ancestor time difference etag) rows rows
      (All-IsLocked storage hashes rows k))

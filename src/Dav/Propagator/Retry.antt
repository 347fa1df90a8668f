-- ===== src/Dav/Propagator/Retry.antt =====
-- core-rs/crates/nc-dav/src/propagator.rs: the outcome of a propagation with its retries.
use nc_server_rs.Prelude.{ℕ, ◌≡◌, refl, ◌∙◌, Bool, ◌&&◌, List, arith, if◌then◌else◌, map}
use nc_server_rs.Prelude.Int.{ℤ}
use nc_server_rs.Prelude.Text.{Text, split}
use nc_server_rs.Dav.Paths.{get_parents}
use nc_server_rs.Dav.Propagator.{
  Row, Backend, postgres, sqlite, ok, failed, set_ancestor, selects, try_propagate, attempts,
  propagate_change, min_ℤ, max_retries,
}
use nc_server_rs.Dav.Propagator.Update.{HasKeys, try_propagate-backends}

three_attempts :
    (fails : ℕ → Bool) (change : List Row → List Row) (rows : List Row)
    → attempts fails change max_retries 0 rows
      ≡ (if fails 0 && (fails 1 && fails 2) then (failed, rows) else (ok, change rows))
unfolding attempts
three_attempts fails change rows = ground arith

either_backend :
    (backend : Backend) (storage : ℕ) (hashes : List Text) (time difference : ℤ) (etag : Text)
    (rows : List Row)
    → HasKeys rows
    → try_propagate backend storage hashes time difference etag rows
      ≡ map
          (λ row. if selects storage hashes row then set_ancestor time difference etag row else row)
          rows
unfolding try_propagate
either_backend postgres storage hashes time difference etag rows k =
    try_propagate-backends storage hashes time difference etag rows k
either_backend sqlite storage hashes time difference etag rows k = refl

-- A propagation succeeds exactly if one of its three attempts does. Then every row of the storage
-- with the hash of an ancestor of the path is updated, once, with the time cut to now, and no other
-- row changes; otherwise it fails, and no row changes. Rows have keys of their own.
pub propagate_change_lem :
    (hash : Text → Text) (storage : ℕ) (backend : Backend) (fails : ℕ → Bool) (now : ℤ)
    (etag path : Text) (time difference : ℤ) (rows : List Row)
    → HasKeys rows
    → propagate_change hash storage backend fails now etag path time difference rows ≡ (
        if fails 0 && (fails 1 && fails 2) then (failed, rows) else (
          ok,
          map
              (λ row.
                if selects storage (map hash (get_parents path)) row
                then set_ancestor (min_ℤ time now) difference etag row
                else row)
              rows,
        ))
unfolding propagate_change get_parents attempts split
propagate_change_lem hash storage backend fails now etag path time difference rows k =
    let hashes = map hash (get_parents path) in
    let change = try_propagate backend storage hashes (min_ℤ time now) difference etag in
    three_attempts fails change rows
    ∙ (rw (either_backend backend storage hashes (min_ℤ time now) difference etag rows k) refl)

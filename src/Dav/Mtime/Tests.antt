-- ===== src/Dav/Mtime/Tests.antt =====
-- Runs of core-rs/crates/nc-dav/src/mtime.rs at the inputs of its own tests. The floats of these
-- runs are whole numbers.
use nc_server_rs.Prelude.{ℕ, ◌*◌, ◌-◌, ◌^◌, ◌≡◌, refl, none, some, ltb, leb, if◌then◌else◌, arith}
use nc_server_rs.Prelude.Int.{ℤ, pos, pos_part}
use nc_server_rs.Prelude.Parse.{Floats, FitsI64, parse_digits}
use nc_server_rs.Prelude.Text.{codes, trim, starts_with}
use nc_server_rs.Dav.Mtime.{ok, err, not_integer, not_later, sanitize_mtime, sanitize_raw}

cast : ℕ → ℤ
cast n = if ltb n (2 ^ 63) then pos n else pos (2 ^ 63 - 1)

cast-FitsI64 : (n : ℕ) → FitsI64 (cast n)
unfolding cast
cast-FitsI64 n = ground arith

abbrev whole : Floats
whole = record {
  F64 = ℕ;
  parse_f64 = parse_digits;
  of_ℤ = pos_part;
  mul = ◌*◌;
  le = leb;
  to_i64 = cast;
  to_i64_fits = cast-FitsI64;
}

headers :
    (sanitize_mtime whole (some (codes " 1700000000 ")) ≡ ok (some (pos 1_700_000_000)))
    × (sanitize_mtime whole (some (codes "  ")) ≡ ok none)
    × (sanitize_mtime whole (some (codes "0x1F")) ≡ err (not_integer (codes "0x1F")))
    × (sanitize_mtime whole (some (codes "86400")) ≡ err (not_later (codes "86400")))
unfolding sanitize_mtime sanitize_raw trim starts_with parse_digits cast
headers = (refl, refl, refl, refl)

late_time : sanitize_mtime whole (some (codes " 86401")) ≡ ok (some (pos 86_401))
unfolding sanitize_mtime sanitize_raw trim starts_with parse_digits cast
late_time = refl

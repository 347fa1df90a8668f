-- ===== src/Dav/Quota/Tests.antt =====
-- Runs of core-rs/crates/nc-dav/src/quota.rs at the inputs of its own tests, and the law at a home
-- with a quota of 100 bytes. The floats of these runs are whole numbers.
use nc_server_rs.Prelude.{
  ℕ, ◌*◌, ◌-◌, ◌^◌, ◌≡◌, refl, ◌↔◌, true, false, none, some, ltb, leb, if◌then◌else◌, arith,
}
use nc_server_rs.Prelude.Int.{ℤ, pos, pos_part, ◌-ℤ◌}
use nc_server_rs.Prelude.Parse.{Floats, FitsI64, parse_digits, parse_i64}
use nc_server_rs.Prelude.Text.{Text, codes, trim, text_eq}
use nc_server_rs.Dav.Quota.{
  Answers, parse_quota_string, parse_human, split_after_digit, multiplier, check_quota,
  compute_free_space, resolve_effective_quota, lookup_used_bytes,
}
use nc_server_rs.Dav.Quota.Check.{SizesFit, Exceeds, check_quota_refuses_iff}

cast : ℕ → ℤ
cast n = if ltb n (2 ^ 63) then pos n else pos (2 ^ 63 - 1)

cast-FitsI64 : (n : ℕ) → FitsI64 (cast n)
unfolding cast
cast-FitsI64 n = ground arith

abbrev whole : Floats
whole = record {
  F64 = ℕ;
  parse_f64 = parse_digits;
  of_ℤ = pos_part;
  mul = ◌*◌;
  le = leb;
  to_i64 = cast;
  to_i64_fits = cast-FitsI64;
}

units :
    (parse_quota_string whole (codes "  2 GB  ") ≡ some (pos (2 * 2 ^ 30)))
    × (parse_quota_string whole (codes "512 mb") ≡ some (pos (2 ^ 29)))
    × (parse_quota_string whole (codes "1 XB") ≡ none)
    × (parse_quota_string whole (codes "-3") ≡ none)
    × (parse_quota_string whole (codes "NONE") ≡ none)
    × (parse_quota_string whole (codes "1073741824") ≡ some (pos (2 ^ 30)))
unfolding parse_quota_string parse_human split_after_digit multiplier trim text_eq parse_i64
    parse_digits cast
units = (refl, refl, refl, refl, refl, refl)

abbrev home : ℤ → Answers
home used = record {
  preference = λ _. some (codes "100 B");
  default_quota = none;
  files_size = λ _. some used;
}

abbrev uid : Text
uid = codes "alice"

checks :
    (check_quota whole (home (pos 60)) uid 1 (pos 40) ≡ true)
    × (check_quota whole (home (pos 60)) uid 1 (pos 41) ≡ false)
    × (check_quota whole (home (pos 101)) uid 1 (pos 1_000_000) ≡ true)
unfolding check_quota compute_free_space resolve_effective_quota lookup_used_bytes
    parse_quota_string parse_human split_after_digit multiplier trim text_eq parse_i64 parse_digits
    cast ◌-ℤ◌
checks = (refl, refl, refl)

home_fits : SizesFit (home (pos 60))
home_fits storage_id z e = ground arith

check_quota_refuses_iff_example :
    (check_quota whole (home (pos 60)) uid 1 (pos 41) ≡ false)
    ↔ Exceeds whole (home (pos 60)) uid 1 (pos 41)
check_quota_refuses_iff_example =
    check_quota_refuses_iff whole (home (pos 60)) uid 1 (pos 41) home_fits

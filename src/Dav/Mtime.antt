-- ===== src/Dav/Mtime.antt =====
-- core-rs/crates/nc-dav/src/mtime.rs: the time headers of uploads.
pub mod Laws
mod Tests
use nc_server_rs.Prelude.{
  ℕ, Bool, true, false, ◌||◌, not, Option, none, some, List, [], ◌∷◌, ◌++◌, if◌then◌else◌,
}
use nc_server_rs.Prelude.Int.{ℤ, pos, negsuc}
use nc_server_rs.Prelude.Parse.{Floats}
use nc_server_rs.Prelude.Text.{Text, codes, starts_with, trim}

pub data Sanitized : Type 0 where
  ok : Option ℤ → Sanitized
  err : Text → Sanitized

abbrev pub not_integer : Text → Text
not_integer raw =
    codes "X-OC-MTime header must be a valid integer (unix timestamp), got \""
    ++ (raw ++ codes "\".")

abbrev pub not_later : Text → Text
not_later raw =
    codes "X-OC-MTime header must be a valid positive unix timestamp greater than one day, got \""
    ++ (raw ++ codes "\".")

module _ (fl : Floats) where
  open fl use {parse_f64, of_ℤ, le, to_i64}

  -- What follows once the header's value is trimmed and not empty.
  unfoldable pub sanitize_raw : Text → Sanitized
  sanitize_raw raw =
      if starts_with (codes "0x") raw || starts_with (codes "0X") raw
      then err (not_integer raw)
      else elim (parse_f64 raw) [
        | none ↦ err (not_integer raw)
        | some parsed ↦
            if le parsed (of_ℤ (pos 86_400)) then err (not_later raw) else ok (some (to_i64 parsed))
      ]

  unfoldable pub sanitize_mtime : Option Text → Sanitized
  sanitize_mtime none = ok none
  sanitize_mtime (some []) = ok none
  sanitize_mtime (some (c ∷ v)) = elim (trim (c ∷ v)) [
    | [] ↦ ok none
    | d ∷ raw ↦ sanitize_raw (d ∷ raw)
  ]

unfoldable pub media_mtime_ctime_override : ℤ → Option ℤ → Bool → Bool → ℤ
media_mtime_ctime_override mtime ctime_header is_media enabled =
    if not enabled || not is_media
    then mtime
    else elim ctime_header [ some ctime ↦ ctime | none ↦ mtime ]

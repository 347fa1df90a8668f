-- ===== src/Dav/Mtime/Laws.antt =====
-- core-rs/crates/nc-dav/src/mtime.rs: which times are accepted.
use nc_server_rs.Prelude.{◌≡◌, false, none, some, [], ◌∷◌, arith, Option-cases, inl, inr}
use nc_server_rs.Prelude.Int.{ℤ, pos}
use nc_server_rs.Prelude.Parse.{Floats}
use nc_server_rs.Prelude.Text.{Text, codes, starts_with, trim}
use nc_server_rs.Dav.Mtime.{ok, sanitize_raw, sanitize_mtime}

module _ (fl : Floats) where
  open fl use {F64, parse_f64, of_ℤ, le, to_i64}

  -- Why a time is accepted.
  pub record Accepted (v : Text) (time : ℤ) : Type 0 where
    pub parsed : F64
    pub is_number : parse_f64 (trim v) ≡ some parsed
    pub truncated : time ≡ to_i64 parsed
    pub late : le parsed (of_ℤ (pos 86_400)) ≡ false
    pub no_hex :
        (starts_with (codes "0x") (trim v) ≡ false) × (starts_with (codes "0X") (trim v) ≡ false)

  raw_accepted :
      (raw : Text) (time : ℤ)
      → sanitize_raw fl raw ≡ ok (some time)
      → (x : F64) × (parse_f64 raw ≡ some x)
        × (time ≡ to_i64 x)
        × (le x (of_ℤ (pos 86_400)) ≡ false)
        × (starts_with (codes "0x") raw ≡ false)
        × (starts_with (codes "0X") raw ≡ false)
  unfolding sanitize_raw
  raw_accepted raw time e = elim (Option-cases (parse_f64 raw)) [
    | inl bad ↦ absurd (ground arith)
    | inr (x, good) ↦ (x, good, ground arith, ground arith, ground arith, ground arith)
  ]

  trimmed :
      (raw : Text) (time : ℤ)
      → elim raw [ [] ↦ ok none | d ∷ rest ↦ sanitize_raw fl (d ∷ rest) ] ≡ ok (some time)
      → sanitize_raw fl raw ≡ ok (some time)
  trimmed [] time e = absurd (cc)
  trimmed (d ∷ raw) time e = e

  -- A time comes only from a header that reads as a number beyond one day and is not hexadecimal:
  -- it is that number, cut to an integer.
  sanitize_mtime-Accepted :
      (v : Text) (time : ℤ) → sanitize_mtime fl (some v) ≡ ok (some time) → Accepted v time
  unfolding sanitize_mtime
  sanitize_mtime-Accepted [] time e = absurd (cc)
  sanitize_mtime-Accepted (c ∷ v) time e =
      let (x, is_number, truncated, late, hex, hex_upper) =
        raw_accepted (trim (c ∷ v)) time (trimmed (trim (c ∷ v)) time e) in
      record {
        parsed = x;
        is_number = is_number;
        truncated = truncated;
        late = late;
        no_hex = (hex, hex_upper);
      }

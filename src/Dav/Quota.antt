-- ===== src/Dav/Quota.antt =====
-- core-rs/crates/nc-dav/src/quota.rs: quota strings, free space and the check before a write.
-- The database and the configuration cache are what their queries answer.
pub mod Check
mod Tests
use nc_server_rs.Prelude.{
  ℕ, suc, zero, ◌+◌, ◌-◌, ◌^◌, Bool, true, false, ◌||◌, not, ◌&&◌, Option, none, some, List, [],
  ◌∷◌, ◌==◌, leb, ltb, if◌then◌else◌, map, ◌>>=◌,
}
use nc_server_rs.Prelude.Int.{ℤ, pos, negsuc, ◌-ℤ◌, leb_ℤ, ltb_ℤ, pos_part, neg_part}
use nc_server_rs.Prelude.Parse.{parse_i64, Floats}
use nc_server_rs.Prelude.Text.{Text, codes, text_eq, trim, is_digit, to_ascii_lower}

abbrev pub space_unlimited : ℤ
space_unlimited = negsuc 2

abbrev pub eq_ignore_ascii_case : Text → Text → Bool
eq_ignore_ascii_case s t = text_eq (map to_ascii_lower s) (map to_ascii_lower t)

-- The text up to and with its last digit, and what follows.
unfoldable pub split_after_digit : Text → Option (Text × Text)
split_after_digit [] = none
split_after_digit (c ∷ s) = elim (split_after_digit s) [
  | some (num, unit) ↦ some (c ∷ num, unit)
  | none ↦ if is_digit c then some (c ∷ [], s) else none
]

-- The multiplier of a unit in upper case; no other character has the upper case of a unit's letter.
unfoldable pub multiplier : Text → Option ℕ
multiplier unit =
    let upper = map (λ c. if leb b'a' c && leb c b'z' then c - 32 else c) unit in
    if text_eq upper (codes "B")
    then some 1
    else if text_eq upper (codes "KB")
    then some (2 ^ 10)
    else if text_eq upper (codes "MB")
    then some (2 ^ 20)
    else if text_eq upper (codes "GB")
    then some (2 ^ 30)
    else if text_eq upper (codes "TB")
    then some (2 ^ 40)
    else if text_eq upper (codes "PB")
    then some (2 ^ 50)
    else none

abbrev pub non_negative : ℤ → Option ℤ
non_negative (pos n) = some (pos n)
non_negative (negsuc n) = none

-- `saturating_sub` on `i64`.
abbrev pub saturating_sub : ℤ → ℤ → ℤ
saturating_sub a b =
    let d = a -ℤ b in
    if ltb (pos_part d) (2 ^ 63)
    then if leb (neg_part d) (2 ^ 63) then d else negsuc (2 ^ 63 - 1)
    else pos (2 ^ 63 - 1)

-- What the queries of one request answer: the user's preference, the server's default, and the
-- `size` column of the row of "files" in a storage.
pub record Answers : Type 0 where
  pub preference : Text → Option Text
  pub default_quota : Option Text
  pub files_size : ℕ → Option ℤ

unfoldable pub resolve_effective_quota : Answers → Text → Text
resolve_effective_quota db uid =
    let fallback : Text = elim db.default_quota [ some q ↦ q | none ↦ codes "none" ] in
    elim (db.preference uid) [
      | none ↦ fallback
      | some v ↦
          if not (text_eq v []) && not (eq_ignore_ascii_case v (codes "default"))
          then v
          else fallback
    ]

unfoldable pub lookup_used_bytes : Answers → ℕ → ℤ
lookup_used_bytes db storage_id = elim (db.files_size storage_id >>= non_negative) [
  | some used ↦ used
  | none ↦ pos 0
]

module _ (fl : Floats) where
  open fl use {parse_f64, of_ℤ, mul, to_i64}

  -- A number with a unit, behind a text that is no plain integer.
  unfoldable pub parse_human : Text → Option ℤ
  parse_human s = split_after_digit s >>= λ parts. parse_f64 (trim parts.0) >>= λ num.
      multiplier (trim parts.1) >>= λ m. non_negative (to_i64 (mul num (of_ℤ (pos m))))

  unfoldable pub parse_quota_string : Text → Option ℤ
  parse_quota_string text =
      let s = trim text in
      if text_eq s [] || eq_ignore_ascii_case s (codes "none")
      then none
      else elim (parse_i64 s) [ some n ↦ non_negative n | none ↦ parse_human s ]

  unfoldable pub compute_free_space : Answers → Text → ℕ → ℤ
  compute_free_space db uid storage_id =
      elim (parse_quota_string (resolve_effective_quota db uid)) [
        | some quota_bytes ↦ saturating_sub quota_bytes (lookup_used_bytes db storage_id)
        | none ↦ space_unlimited
      ]

  -- `true` is `Ok(())`.
  unfoldable pub check_quota : Answers → Text → ℕ → ℤ → Bool
  check_quota db uid storage_id upload_bytes =
      if leb_ℤ upload_bytes (pos 0)
      then true
      else (let free = compute_free_space db uid storage_id in
          if ltb_ℤ free (pos 0) then true else not (ltb_ℤ free upload_bytes))

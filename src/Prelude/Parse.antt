-- ===== src/Prelude/Parse.antt =====
-- `str::parse` for the machine's integers, and what the source asks of `f64`.
use Prim.Native.Nat.{ℕ, zero, suc, ◌+◌, ◌-◌, ◌*◌, ◌≤◌, ◌<◌, ◌^◌}
use mathlib.Core.Path.{◌≡◌}
use mathlib.Core.Bool.{Bool}
use mathlib.Core.Option.{Option, none, some}
use mathlib.Core.List.{[], ◌∷◌}
use native.Mathlib.Omega.{arith}
use nc_server_rs.Prelude.Tests.{ltb, leb, ◌==◌, if◌then◌else◌, ◌>>=◌}
use nc_server_rs.Prelude.Text.{Text, is_digit}
use nc_server_rs.Prelude.Int.{ℤ, pos, negsuc, pos_part, neg_part}

digits_from : ℕ → Text → Option ℕ
digits_from n [] = some n
digits_from n (c ∷ s) =
    let rest = digits_from (n * 10 + (c - b'0')) s in if is_digit c then rest else none

-- One or more digits and nothing else.
unfoldable pub parse_digits : Text → Option ℕ
unfolding digits_from
parse_digits [] = none
parse_digits (c ∷ s) = digits_from 0 (c ∷ s)

abbrev pub at_most : ℕ → ℕ → Option ℕ
at_most most n = if leb n most then some n else none

-- An unsigned integer up to `most`, with an optional plus sign.
unfoldable pub parse_unsigned : ℕ → Text → Option ℕ
unfolding parse_digits
parse_unsigned most [] = none
parse_unsigned most (c ∷ s) =
    (if c == b'+' then parse_digits s else parse_digits (c ∷ s)) >>= at_most most

abbrev negated : ℕ → ℤ
negated zero = pos 0
negated (suc n) = negsuc n

abbrev signed : Text → Option ℤ
signed [] = none
signed (c ∷ s) =
    if c == b'-'
    then (parse_digits s >>= λ n. if leb n (2 ^ 63) then some (negated n) else none)
    else ((if c == b'+' then parse_digits s else parse_digits (c ∷ s)) >>= λ n.
        if ltb n (2 ^ 63) then some (pos n) else none)

-- An `i64`: an optional sign, digits, and a value that fits.
unfoldable pub parse_i64 : Text → Option ℤ
parse_i64 s = signed s

abbrev pub FitsI64 : ℤ → Type 0
FitsI64 z = (pos_part z < 2 ^ 63) × (neg_part z ≤ 2 ^ 63)

checked-FitsI64 :
    (o : Option ℕ) (z : ℤ)
    → (o >>= λ n. if ltb n (2 ^ 63) then some (pos n) else none) ≡ some z
    → FitsI64 z
checked-FitsI64 none z e = ground arith
checked-FitsI64 (some n) z e = ground arith

negative-FitsI64 :
    (o : Option ℕ) (z : ℤ)
    → (o >>= λ n. if leb n (2 ^ 63) then some (negated n) else none) ≡ some z
    → FitsI64 z
negative-FitsI64 none z e = ground arith
negative-FitsI64 (some zero) z e = ground arith
negative-FitsI64 (some (suc n)) z e = ground arith

-- What is read as an `i64` fits one.
pub parse_i64-FitsI64 : (s : Text) {z : ℤ} → parse_i64 s ≡ some z → FitsI64 z
unfolding parse_i64
parse_i64-FitsI64 [] e = ground arith
parse_i64-FitsI64 (c ∷ s) {z} e = ground (
  arith,
  negative-FitsI64 (parse_digits s) z,
  checked-FitsI64 (parse_digits s) z,
  checked-FitsI64 (parse_digits (c ∷ s)) z,
)

-- `f64` as far as the source uses it. `to_i64` is the cast `as i64`, which saturates.
pub record Floats : Type 1 where
  pub F64 : Type 0
  pub parse_f64 : Text → Option F64
  pub of_ℤ : ℤ → F64
  pub mul : F64 → F64 → F64
  pub le : F64 → F64 → Bool
  pub to_i64 : F64 → ℤ
  pub to_i64_fits : (x : F64) → FitsI64 (to_i64 x)

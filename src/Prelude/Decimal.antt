-- ===== src/Prelude/Decimal.antt =====
-- Numbers printed in decimal, as `format!("{}")` and its zero padding print them.
use nc_server_rs.Prelude.Tests.{ltb, if◌then◌else◌}
use nc_server_rs.Prelude.Lists.{All}
use nc_server_rs.Prelude.Text.{Text, is_digit, contains}
use nc_server_rs.Prelude.Int.{ℤ, pos, negsuc}
use Prim.Native.Nat.{ℕ, zero, suc, ◌+◌, ◌-◌, ◌*◌, ◌/◌, ◌%◌, ◌<◌}
use mathlib.Core.Path.{◌≡◌, refl}
use mathlib.Core.Logic.{◌≢◌}
use mathlib.Core.Bool.{true, false}
use mathlib.Core.List.{[], ◌∷◌}
use native.Mathlib.Omega.{arith}

-- `n` has at most as many digits as the fuel says rounds.
digits_onto : ℕ → ℕ → Text → Text
digits_onto zero n out = out
digits_onto (suc fuel) n out =
    let more = digits_onto fuel (n / 10) ((b'0' + n % 10) ∷ out) in
    if ltb n 10 then (b'0' + n) ∷ out else more

unfoldable pub decimal : ℕ → Text
unfolding digits_onto
decimal n = digits_onto (suc n) n []

unfoldable pub signed_decimal : ℤ → Text
unfolding decimal
signed_decimal (pos n) = decimal n
signed_decimal (negsuc n) = b'-' ∷ decimal (suc n)

-- What a text of digits is worth, read on from `acc`.
abbrev pub value_from : ℕ → Text → ℕ
value_from acc [] = acc
value_from acc (c ∷ s) = value_from (acc * 10 + (c - b'0')) s

abbrev pub IsDigits : Text → Type 0
IsDigits = All (λ c. is_digit c ≡ true)

digits_onto-IsDigits :
    (fuel n : ℕ) (out : Text) → n < fuel → IsDigits out → IsDigits (digits_onto fuel n out)
unfolding digits_onto
digits_onto-IsDigits zero n out h d = d
digits_onto-IsDigits (suc fuel) n out h d =
    ground (arith, digits_onto-IsDigits fuel (n / 10) ((b'0' + n % 10) ∷ out))

digits_onto-value :
    (fuel n : ℕ) (out : Text) → n < fuel → value_from 0 (digits_onto fuel n out) ≡ value_from n out
unfolding digits_onto
digits_onto-value zero n out h = absurd (omega arith)
digits_onto-value (suc fuel) n out h =
    ground (arith, digits_onto-value fuel (n / 10) ((b'0' + n % 10) ∷ out))

digits_onto-ne-nil : (fuel n : ℕ) (out : Text) → n < fuel → digits_onto fuel n out ≢ []
unfolding digits_onto
digits_onto-ne-nil zero n out h = absurd (omega arith)
digits_onto-ne-nil (suc fuel) n out h =
    ground (arith, digits_onto-ne-nil fuel (n / 10) ((b'0' + n % 10) ∷ out))

pub decimal-IsDigits : (n : ℕ) → IsDigits (decimal n)
unfolding decimal
decimal-IsDigits n = digits_onto-IsDigits (suc n) n [] (omega arith) tt

-- Reading the print of a number gives the number.
pub value_from-decimal : (n : ℕ) → value_from 0 (decimal n) ≡ n
unfolding decimal
value_from-decimal n = digits_onto-value (suc n) n [] (omega arith)

pub decimal-ne-nil : (n : ℕ) → decimal n ≢ []
unfolding decimal
decimal-ne-nil n = digits_onto-ne-nil (suc n) n [] (omega arith)

-- Digits hold no character that is not a digit.
pub digits-lack : (d : ℕ) (s : Text) → is_digit d ≡ false → IsDigits s → contains d s ≡ false
unfolding contains
digits-lack d [] h a = refl
digits-lack d (c ∷ s) h (p, a) = ground (arith, digits-lack d s h a)

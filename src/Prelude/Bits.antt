-- ===== src/Prelude/Bits.antt =====
-- The bitwise or of fields that do not overlap is their sum.
use Prim.Native.Nat.{ℕ, zero, suc, ◌+◌, ◌*◌, ◌/◌, ◌%◌, ◌^◌, ◌≤◌, ◌<◌, max, bit_or, bit_or-bitwise}
use mathlib.Core.Path.{◌≡◌, sym, ap, ◌∙◌}
use native.Mathlib.Nat.{pow-suc}
use native.Mathlib.Omega.{arith}
use nc_server_rs.Prelude.Digits.{lowest_digit}

or_of_nothing : (b : ℕ) → bit_or 0 b ≡ b
or_of_nothing b = bit_or-bitwise 0 b

or_low : (a b : ℕ) → bit_or a b ≡ bit_or (a / 2) (b / 2) * 2 + max (a % 2) (b % 2)
or_low zero b = omega (arith, or_of_nothing b, or_of_nothing (b / 2))
or_low (suc a) b =
    let halves = bit_or-bitwise (suc a / 2) (b / 2) in
    bit_or-bitwise (suc a) b
    ∙ lowest_digit (λ b. b) max a b
    ∙ ap (λ (t : ℕ). t * 2 + max (suc a % 2) (b % 2)) (sym halves)

-- With nothing the bitwise or changes nothing; the bound is for the induction.
or_with_nothing : (most a : ℕ) → a ≤ most → bit_or a 0 ≡ a
or_with_nothing (suc most) (suc a) h =
    omega (arith, or_with_nothing most (suc a / 2) (omega arith), or_low (suc a) 0)
or_with_nothing most zero h = or_of_nothing 0
or_with_nothing zero (suc a) h = absurd (omega arith)

double_shift : (q k : ℕ) → q * 2 ^ suc k ≡ 2 * (q * 2 ^ k)
double_shift q k = omega (arith, ap (λ (t : ℕ). q * t) (pow-suc 2 k))

-- The low k bits of the first operand are clear, and the second fits in them.
pub bit_or-eq-add : (k q r : ℕ) → r < 2 ^ k → bit_or (q * 2 ^ k) r ≡ q * 2 ^ k + r
bit_or-eq-add zero q r h = ground (arith, or_with_nothing q q)
bit_or-eq-add (suc k) q r h = ground (
  arith,
  or_low (q * 2 ^ suc k) r,
  double_shift q k,
  pow-suc 2 k,
  bit_or-eq-add k q (r / 2) (omega (arith, pow-suc 2 k)),
)

-- The same, for a first operand that is known to be a multiple of 2 ^ k.
pub bit_or-add_at : (k q x r : ℕ) → x ≡ q * 2 ^ k → r < 2 ^ k → bit_or x r ≡ x + r
bit_or-add_at k q x r e h = rw e (bit_or-eq-add k q r h)

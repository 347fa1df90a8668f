-- ===== src/Prelude/Digits.antt =====
-- The recursion over binary digits that the native bit operations stand for, for any operation `f`
-- on two digits and any remainder `z` once the first number has run out.
use Prim.Native.Nat.{ℕ, zero, suc, ◌+◌, ◌*◌, ◌/◌, ◌%◌, ◌≤◌, digits, bitwise}
use mathlib.Core.Path.{◌≡◌, refl, sym, ap, ◌∙◌}
use native.Mathlib.Omega.{arith}

module _ (z : ℕ → ℕ) (f : ℕ → ℕ → ℕ) where
  spent : (rounds b : ℕ) → digits z f rounds 0 b ≡ z b
  spent (suc rounds) b = refl
  spent zero b = refl

  -- Rounds beyond the first number do not count.
  settled :
      (a b rounds others : ℕ)
      → a ≤ rounds
      → a ≤ others
      → digits z f rounds a b ≡ digits z f others a b
  settled zero b rounds others h k = spent rounds b ∙ sym (spent others b)
  settled (suc a) b (suc rounds) (suc others) h k =
      let halves = settled (suc a / 2) (b / 2) rounds others (omega arith) (omega arith) in
      ap (λ (t : ℕ). t * 2 + f (suc a % 2) (b % 2)) halves
  settled (suc a) b zero others h k = absurd (omega arith)
  settled (suc a) b rounds zero h k = absurd (omega arith)

  pub lowest_digit :
      (a b : ℕ)
      → bitwise z f (suc a) b ≡ bitwise z f (suc a / 2) (b / 2) * 2 + f (suc a % 2) (b % 2)
  lowest_digit a b =
      ap (λ (t : ℕ). t * 2 + f (suc a % 2) (b % 2))
        (settled (suc a / 2) (b / 2) a (suc a / 2) (omega arith) (omega arith))

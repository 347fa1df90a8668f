-- ===== src/Prelude/Masks.antt =====
-- The bitwise and with a mask whose low bits are clear, as `n & (MAX << k)` on w bits.
use Prim.Native.Nat.{
  ℕ, zero, suc, ◌+◌, ◌-◌, ◌*◌, ◌/◌, ◌%◌, ◌^◌, ◌≤◌, ◌<◌, min, bit_and, bit_and-bitwise,
}
use mathlib.Core.Path.{◌≡◌, refl, sym, ap, ◌∙◌}
use native.Mathlib.Nat.{pow-suc, div-div-eq-div-mul, add-mul-mod_self_right, mod-eq_of_lt}
use native.Mathlib.Omega.{arith}
use nc_server_rs.Prelude.Digits.{lowest_digit}

and_of_nothing : (b : ℕ) → bit_and 0 b ≡ 0
and_of_nothing b = bit_and-bitwise 0 b

and_low : (a b : ℕ) → bit_and a b ≡ bit_and (a / 2) (b / 2) * 2 + min (a % 2) (b % 2)
and_low zero b = omega (arith, and_of_nothing b, and_of_nothing (b / 2))
and_low (suc a) b =
    let halves = bit_and-bitwise (suc a / 2) (b / 2) in
    bit_and-bitwise (suc a) b
    ∙ lowest_digit (λ b. zero) min a b
    ∙ ap (λ (t : ℕ). t * 2 + min (suc a % 2) (b % 2)) (sym halves)

pub pow_positive : (n : ℕ) → 1 ≤ 2 ^ n
pow_positive zero = omega arith
pow_positive (suc n) = omega (arith, pow-suc 2 n, pow_positive n)

pub pow_add : (n k : ℕ) → 2 ^ (n + k) ≡ 2 ^ n * 2 ^ k
pow_add n zero = let same : n + 0 ≡ n = omega arith in omega (arith, ap (λ (t : ℕ). 2 ^ t) same)
pow_add n (suc k) =
    let same : n + suc k ≡ suc (n + k) = omega arith in
    omega (
      arith,
      ap (λ (t : ℕ). 2 ^ t) same,
      pow-suc 2 (n + k),
      pow_add n k,
      ap (λ (t : ℕ). 2 ^ n * t) (pow-suc 2 k),
    )

-- One round, when the halves and the last digits are known.
bit_and_at :
    (a b c d : ℕ) → b / 2 ≡ c → bit_and (a / 2) c ≡ d → bit_and a b ≡ d * 2 + min (a % 2) (b % 2)
bit_and_at a b c d e f = omega (arith, and_low a b, ap (λ (t : ℕ). bit_and (a / 2) t) e, f)

bit_and-ones : (n a : ℕ) → a < 2 ^ n → bit_and a (2 ^ n - 1) ≡ a
bit_and-ones zero zero h = refl
bit_and-ones zero (suc a) h = absurd (omega arith)
bit_and-ones (suc n) a h =
    let grown = pow-suc 2 n in
    let positive = pow_positive n in
    let ih = bit_and-ones n (a / 2) (omega arith) in
    omega (arith, bit_and_at a (2 ^ suc n - 1) (2 ^ n - 1) (a / 2) (omega arith) ih)

-- The mask of n ones above k zeros keeps the multiple of 2 ^ k.
pub bit_and-high :
    (k n a : ℕ) → a < 2 ^ n * 2 ^ k → bit_and a ((2 ^ n - 1) * 2 ^ k) ≡ a / 2 ^ k * 2 ^ k
bit_and-high zero n a h =
    let ones : (2 ^ n - 1) * 1 ≡ 2 ^ n - 1 = omega arith in
    let all : a / 1 * 1 ≡ a = omega arith in rw (ones, all) (bit_and-ones n a (omega arith))
bit_and-high (suc k) n a h =
    let grown = pow-suc 2 k in
    let wide = ap (λ (t : ℕ). 2 ^ n * t) grown in
    let mask = ap (λ (t : ℕ). (2 ^ n - 1) * t) grown in
    let ih = bit_and-high k n (a / 2) (omega arith) in
    let positive = pow_positive n in
    let halves : (2 ^ n - 1) * 2 ^ suc k / 2 ≡ (2 ^ n - 1) * 2 ^ k = omega (arith, mask) in
    let step =
      bit_and_at a ((2 ^ n - 1) * 2 ^ suc k) ((2 ^ n - 1) * 2 ^ k) (a / 2 / 2 ^ k * 2 ^ k) halves
        ih in
    let halved = div-div-eq-div-mul a 2 (2 ^ k) in
    let twice : 2 ^ suc k ≡ 2 * 2 ^ k = omega (arith, grown) in
    let same : a / 2 ^ suc k ≡ a / 2 / 2 ^ k = rw twice (sym halved) in
    let result = ap (λ (t : ℕ). t * 2 ^ suc k) same in
    let wider = ap (λ (t : ℕ). a / 2 / 2 ^ k * t) grown in omega (arith, step, mask, result, wider)

-- `MAX << k` on w bits, and what it keeps of a number of w bits.
abbrev pub mask : ℕ → ℕ → ℕ
mask w k = (2 ^ w - 1) * 2 ^ k % 2 ^ w

split_product : (w x y : ℕ) → w ≡ y * x → 1 ≤ x → 1 ≤ y → (w - 1) * x ≡ (y - 1) * x + (x - 1) * w
split_product zero (suc x) (suc y) e p q = absurd (grind arith)
split_product (suc w) (suc x) (suc y) e p q = grind arith
split_product w zero y e p q = absurd (omega arith)
split_product w (suc x) zero e p q = absurd (omega arith)

mask-eq : (n k : ℕ) → mask (n + k) k ≡ (2 ^ n - 1) * 2 ^ k
mask-eq n k =
    let whole = pow_add n k in
    let low = pow_positive k in
    let high = pow_positive n in
    let parts = split_product (2 ^ (n + k)) (2 ^ k) (2 ^ n) whole low high in
    let small : (2 ^ n - 1) * 2 ^ k < 2 ^ (n + k) = grind arith in
    rw (parts, add-mul-mod_self_right ((2 ^ n - 1) * 2 ^ k) (2 ^ k - 1) (2 ^ (n + k)))
      (mod-eq_of_lt small)

pub bit_and-mask : (n k a : ℕ) → a < 2 ^ (n + k) → bit_and a (mask (n + k) k) ≡ a / 2 ^ k * 2 ^ k
bit_and-mask n k a h = rw (mask-eq n k) (bit_and-high k n a (omega (arith, pow_add n k)))

-- ===== src/Prelude/Masks.antt =====
-- One digit of a word set or cleared, and the digits of its bytes.
use Prim.Native.Nat.{ℕ, zero, suc, ◌+◌, ◌-◌, ◌*◌, ◌/◌, ◌%◌, ◌^◌, ◌<◌, bit_and, bit_or}
use mathlib.Core.Path.{◌≡◌, ap, ◌∙◌}
use mathlib.Core.Bool.{not}
use native.Mathlib.Omega.{arith}
use native.Mathlib.Nat.{
  mul_comm, mod-lt, mod-add-div, mod-eq_of_lt, add-mul-mod_self_right, pow-suc, pow-le-pow_right,
  one-le-pow,
}
use native.Mathlib.Decide.{ℕ_discrete}
use formal_verification_of_x.Prelude.Tests.{◌==◌, if◌then◌else◌}
use formal_verification_of_x.Prelude.Bits.{
  bit_and_halves, bit_and_zero_fuel, digit, bit_and-pow, digit-bit_and, digit-bit_or, digit-lt,
  digit-pow_self, digit-pow_ne, digit-complement,
}

pub pow-lt : (i n : ℕ) → i < n → 2 ^ i < 2 ^ n
pow-lt i n lt = omega (
  arith,
  pow-suc 2 i,
  pow-le-pow_right {n = 2} (omega arith) {i = suc i} {j = n} lt,
  pow-le-pow_right {n = 2} (omega arith) {i = 0} {j = i} (omega arith),
)

-- `x |= 1 << i`.
pub digit-set : (k i x : ℕ) → digit k (bit_or x (2 ^ i)) ≡ (if k == i then 1 else digit k x)
digit-set k i x = elim (ℕ_discrete k i) [
  | yes e ↦ rw e (ground (arith, digit-bit_or i x (2 ^ i), digit-pow_self i, digit-lt i x))
  | no ne ↦ ground (arith, digit-bit_or k x (2 ^ i), digit-pow_ne k i ne)
]

-- `x &= ~(1 << i)`, in words of `n` bits.
pub digit-clear :
    (n k i x : ℕ)
    → k < n
    → i < n
    → digit k (bit_and x (2 ^ n - 1 - 2 ^ i)) ≡ (if k == i then 0 else digit k x)
digit-clear n k i x k_lt i_lt = elim (ℕ_discrete k i) [
  | yes e ↦ rw e (
      ground (
        arith,
        digit-bit_and i x (2 ^ n - 1 - 2 ^ i),
        digit-complement n i (2 ^ i) i_lt (pow-lt i n i_lt),
        digit-pow_self i,
      ))
  | no ne ↦ ground (
    arith,
    digit-bit_and k x (2 ^ n - 1 - 2 ^ i),
    digit-complement n k (2 ^ i) k_lt (pow-lt i n i_lt),
    digit-pow_ne k i ne,
    digit-lt k x,
  )
]

low_by_half : (n x : ℕ) → x % 2 ^ suc n ≡ 2 * (x / 2 % 2 ^ n) + x % 2
low_by_half n x =
    let p : 0 < 2 ^ n = one-le-pow n 2 (omega arith) in
    let small : x / 2 % 2 ^ n < 2 ^ n = mod-lt (x / 2) p in
    let whole : x ≡ (2 * (x / 2 % 2 ^ n) + x % 2) + x / 2 / 2 ^ n * 2 ^ suc n = omega (
      arith,
      mod-add-div (x / 2) (2 ^ n),
      ap (λ (t : ℕ). x / 2 / 2 ^ n * t) (pow-suc 2 n),
      mul_comm (x / 2 / 2 ^ n) (2 ^ n),
    ) in
    ap (λ y. y % 2 ^ suc n) whole
    ∙ add-mul-mod_self_right (2 * (x / 2 % 2 ^ n) + x % 2) (x / 2 / 2 ^ n) (2 ^ suc n)
    ∙ mod-eq_of_lt (omega (arith, pow-suc 2 n))

-- `x & (2^n - 1)`.
pub bit_and-low : (n x : ℕ) → bit_and x (2 ^ n - 1) ≡ x % 2 ^ n
bit_and-low zero x = omega (arith, bit_and_zero_fuel x x (omega arith))
bit_and-low (suc n) x =
    let half : (2 ^ suc n - 1) / 2 ≡ 2 ^ n - 1 = omega (arith, pow-suc 2 n) in
    omega (
      arith,
      pow-suc 2 n,
      one-le-pow n 2 (omega arith),
      rw half at (bit_and_halves x (2 ^ suc n - 1)),
      bit_and-low n (x / 2),
      low_by_half n x,
    )

-- The low digits of a word are those of its remainder.
pub digit-low : (k n x : ℕ) → k < n → digit k (x % 2 ^ n) ≡ digit k x
digit-low k zero x lt = absurd (omega arith)
digit-low zero (suc n) x lt = omega (arith, low_by_half n x)
digit-low (suc k) (suc n) x lt =
    let half : x % 2 ^ suc n / 2 ≡ x / 2 % 2 ^ n = omega (arith, low_by_half n x) in
    rw half (digit-low k n (x / 2) (omega arith))

-- The digits of the low byte are those of the word.
pub digit-low_byte : (k x : ℕ) → k < 8 → digit k (x % 2 ^ 8) ≡ digit k x
digit-low_byte k x lt = digit-low k 8 x lt

-- Those of the next byte are those of the word from digit 8 on.
pub digit-high_byte : (k x : ℕ) → k < 8 → digit k (x / 2 ^ 8 % 2 ^ 8) ≡ digit (8 + k) x
digit-high_byte k x lt =
    digit-low_byte k (x / 2 ^ 8) lt ∙ ap (digit k) (shift x) ∙ ap (λ (j : ℕ). digit j x) (next k)
  where
    shift : (y : ℕ) → y / 2 ^ 8 ≡ y / 2 / 2 / 2 / 2 / 2 / 2 / 2 / 2
    shift y = omega arith

    next : (j : ℕ) → suc (suc (suc (suc (suc (suc (suc (suc j))))))) ≡ 8 + j
    next j = omega arith

-- `x & (1 << i)` as a condition.
pub test_digit : (i x : ℕ) → (bit_and x (2 ^ i) == 0) ≡ (digit i x == 0)
test_digit i x = elim (ℕ_discrete (digit i x) 0) [
  | yes e ↦ rw (bit_and-pow i x, e) (ground arith)
  | no ne ↦
      let one : digit i x ≡ 1 = omega (arith, digit-lt i x) in
      let p : 0 < 2 ^ i = one-le-pow i 2 (omega arith) in rw (bit_and-pow i x, one) (ground arith)
]

pub digit_tests : (i x : ℕ) → (digit i x == 0) ≡ not (digit i x == 1)
digit_tests i x = ground (arith, digit-lt i x)

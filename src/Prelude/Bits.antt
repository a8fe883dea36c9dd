-- ===== src/Prelude/Bits.antt =====
-- The binary digits of a number, and what `&`, `|` and `^` do to each of them.
use Prim.Native.Nat.{
  ℕ, zero, suc, ◌+◌, ◌-◌, ◌*◌, ◌/◌, ◌%◌, ◌^◌, ◌≤◌, ◌<◌, min, max, digits, bit_and, bit_or, bit_xor,
  differ, bit_and-bitwise, bit_or-bitwise, bit_xor-bitwise,
}
use mathlib.Core.Path.{◌≡◌, refl, ap}
use mathlib.Core.Logic.{◌≢◌}
use native.Mathlib.Omega.{arith}
use native.Mathlib.Nat.{pow-suc}

-- Digit `k` of a number.
abbrev pub digit : ℕ → ℕ → ℕ
digit zero w = w % 2
digit (suc k) w = digit k (w / 2)

module _ (z : ℕ → ℕ) (f : ℕ → ℕ → ℕ) where
  -- Once the fuel is no less than the number, it does not matter.
  enough_fuel : (n k a b : ℕ) → a ≤ n → a ≤ k → digits z f n a b ≡ digits z f k a b
  enough_fuel zero zero a b p q = refl
  enough_fuel zero (suc k) zero b p q = refl
  enough_fuel (suc n) zero zero b p q = refl
  enough_fuel (suc n) (suc k) zero b p q = refl
  enough_fuel zero k (suc a) b p q = absurd (omega arith)
  enough_fuel (suc n) zero (suc a) b p q = absurd (omega arith)
  enough_fuel (suc n) (suc k) (suc a) b p q =
      omega (arith, enough_fuel n k (suc a / 2) (b / 2) (omega arith) (omega arith))

pub bit_and_halves : (a b : ℕ) → bit_and a b ≡ bit_and (a / 2) (b / 2) * 2 + min (a % 2) (b % 2)
bit_and_halves zero b = omega (arith, bit_and-bitwise 0 b, bit_and-bitwise 0 (b / 2))
bit_and_halves (suc a) b = omega (
  arith,
  bit_and-bitwise (suc a) b,
  bit_and-bitwise (suc a / 2) (b / 2),
  enough_fuel (λ y. 0) min a (suc a / 2) (suc a / 2) (b / 2) (omega arith) (omega arith),
)

bit_or_halves : (a b : ℕ) → bit_or a b ≡ bit_or (a / 2) (b / 2) * 2 + max (a % 2) (b % 2)
bit_or_halves zero b = omega (arith, bit_or-bitwise 0 b, bit_or-bitwise 0 (b / 2))
bit_or_halves (suc a) b = omega (
  arith,
  bit_or-bitwise (suc a) b,
  bit_or-bitwise (suc a / 2) (b / 2),
  enough_fuel (λ y. y) max a (suc a / 2) (suc a / 2) (b / 2) (omega arith) (omega arith),
)

pub digit-bit_and : (k a b : ℕ) → digit k (bit_and a b) ≡ min (digit k a) (digit k b)
digit-bit_and zero a b = omega (arith, bit_and_halves a b)
digit-bit_and (suc k) a b =
    let half : bit_and a b / 2 ≡ bit_and (a / 2) (b / 2) = omega (arith, bit_and_halves a b) in
    rw half (digit-bit_and k (a / 2) (b / 2))

pub digit-bit_or : (k a b : ℕ) → digit k (bit_or a b) ≡ max (digit k a) (digit k b)
digit-bit_or zero a b = omega (arith, bit_or_halves a b)
digit-bit_or (suc k) a b =
    let half : bit_or a b / 2 ≡ bit_or (a / 2) (b / 2) = omega (arith, bit_or_halves a b) in
    rw half (digit-bit_or k (a / 2) (b / 2))

pub digit-lt : (k a : ℕ) → digit k a < 2
digit-lt zero a = omega arith
digit-lt (suc k) a = digit-lt k (a / 2)

bit_xor_halves : (a b : ℕ) → bit_xor a b ≡ bit_xor (a / 2) (b / 2) * 2 + differ (a % 2) (b % 2)
bit_xor_halves zero b = ground (arith, bit_xor-bitwise 0 b, bit_xor-bitwise 0 (b / 2))
bit_xor_halves (suc a) b = ground (
  arith,
  bit_xor-bitwise (suc a) b,
  bit_xor-bitwise (suc a / 2) (b / 2),
  enough_fuel (λ y. y) differ a (suc a / 2) (suc a / 2) (b / 2) (omega arith) (omega arith),
)

differ_self : (a : ℕ) → differ a a ≡ 0
differ_self zero = refl
differ_self (suc a) = differ_self a

bit_xor_self_fuel : (n a : ℕ) → a ≤ n → bit_xor a a ≡ 0
bit_xor_self_fuel n zero le = refl
bit_xor_self_fuel zero (suc a) le = absurd (omega arith)
bit_xor_self_fuel (suc n) (suc a) le = ground (
  arith,
  bit_xor_halves (suc a) (suc a),
  differ_self (suc a % 2),
  bit_xor_self_fuel n (suc a / 2) (omega arith),
)

-- `^` with the digits from `k` on clears them and leaves those below `k`.
pub bit_xor_high : (k h l : ℕ) → l < 2 ^ k → bit_xor (h * 2 ^ k) (h * 2 ^ k + l) ≡ l
bit_xor_high zero h l lt =
    let e : l ≡ 0 = omega arith in
    let e' : h * 2 ^ 0 + l ≡ h * 2 ^ 0 = omega arith in
    rw (e', e) (bit_xor_self_fuel (h * 2 ^ 0) (h * 2 ^ 0) (omega arith))
bit_xor_high (suc k) h l lt =
    let double : h * 2 ^ suc k ≡ 2 * (h * 2 ^ k) =
      omega (arith, ap (λ (t : ℕ). h * t) (pow-suc 2 k)) in
    ground (
      arith,
      double,
      pow-suc 2 k,
      bit_xor_halves (h * 2 ^ suc k) (h * 2 ^ suc k + l),
      bit_xor_high k h (l / 2) (omega (arith, pow-suc 2 k)),
    )

-- A power of two has one digit.
pub digit-pow_self : (k : ℕ) → digit k (2 ^ k) ≡ 1
digit-pow_self zero = refl
digit-pow_self (suc k) =
    let half : 2 ^ suc k / 2 ≡ 2 ^ k = omega (arith, pow-suc 2 k) in rw half (digit-pow_self k)

pub digit-zero : (k : ℕ) → digit k 0 ≡ 0
digit-zero zero = refl
digit-zero (suc k) = digit-zero k

pub digit-pow_ne : (k i : ℕ) → k ≢ i → digit k (2 ^ i) ≡ 0
digit-pow_ne zero zero d = absurd (d refl)
digit-pow_ne zero (suc i) d = omega (arith, pow-suc 2 i)
digit-pow_ne (suc k) zero d = digit-zero k
digit-pow_ne (suc k) (suc i) d =
    let half : 2 ^ suc i / 2 ≡ 2 ^ i = omega (arith, pow-suc 2 i) in
    rw half (digit-pow_ne k i (omega arith))

-- `~x` in `n` bits turns each of the `n` digits round.
pub digit-complement : (n k x : ℕ) → k < n → x < 2 ^ n → digit k (2 ^ n - 1 - x) + digit k x ≡ 1
digit-complement zero k x lt small = absurd (omega arith)
digit-complement (suc n) zero x lt small = omega (arith, pow-suc 2 n)
digit-complement (suc n) (suc k) x lt small =
    let half : (2 ^ suc n - 1 - x) / 2 ≡ 2 ^ n - 1 - x / 2 = omega (arith, pow-suc 2 n) in
    rw half (digit-complement n k (x / 2) (omega arith) (omega (arith, pow-suc 2 n)))

pub bit_and_zero_fuel : (n x : ℕ) → x ≤ n → bit_and x 0 ≡ 0
bit_and_zero_fuel n zero le = refl
bit_and_zero_fuel zero (suc x) le = absurd (omega arith)
bit_and_zero_fuel (suc n) (suc x) le =
    omega (arith, bit_and_halves (suc x) 0, bit_and_zero_fuel n (suc x / 2) (omega arith))

-- The test of one digit.
pub bit_and-pow : (i x : ℕ) → bit_and x (2 ^ i) ≡ digit i x * 2 ^ i
bit_and-pow zero x =
    omega (arith, bit_and_halves x 1, bit_and_zero_fuel (x / 2) (x / 2) (omega arith))
bit_and-pow (suc i) x =
    let half : 2 ^ suc i / 2 ≡ 2 ^ i = omega (arith, pow-suc 2 i) in
    let halves = rw half at (bit_and_halves x (2 ^ suc i)) in
    omega (
      arith,
      halves,
      pow-suc 2 i,
      ap (λ (t : ℕ). digit i (x / 2) * t) (pow-suc 2 i),
      bit_and-pow i (x / 2),
    )

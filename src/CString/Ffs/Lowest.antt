-- ===== src/CString/Ffs/Lowest.antt =====
-- ffs and __ffsti2 answer one more than the place of the lowest digit set.
use formal_verification_of_x.Prelude.{
  ℕ, zero, suc, ◌+◌, ◌-◌, ◌*◌, ◌/◌, ◌%◌, ◌^◌, ◌<◌, ◌≤◌, ◌≡◌, ltb, some, arith, refl, ap, subst, ◌∙◌,
  Bool-cases, inl, inr,
}
use formal_verification_of_x.Prelude.Bits.{bit_xor_high}
use formal_verification_of_x.CString.Ffs.{
  shift_int, ffs_loop, ffs, shift_word, low_word, ffs_answer, ffsti2_loop, ffsti2,
}
use Prim.Native.Nat.{bit_xor}
use native.Mathlib.Decide.{dec_lt}
use native.Mathlib.Nat.{pow-suc}

-- Digit `k` is set and no digit below it is.
abbrev pub IsLowestSet : ℕ → ℕ → Type 0
IsLowestSet zero w = w % 2 ≡ 1
IsLowestSet (suc k) w = (w % 2 ≡ 0) × IsLowestSet k (w / 2)

IsLowestSet-pos : (k w : ℕ) → IsLowestSet k w → 0 < w
IsLowestSet-pos zero w h = omega arith
IsLowestSet-pos (suc k) w h = omega (arith, IsLowestSet-pos k (w / 2) h.1)

IsLowestSet-le : (k w : ℕ) → IsLowestSet k w → 2 ^ k ≤ w
IsLowestSet-le zero w h = omega arith
IsLowestSet-le (suc k) w h = omega (arith, pow-suc 2 k, IsLowestSet-le k (w / 2) h.1)

-- A digit above the lowest one set does not matter.
IsLowestSet-add : (k j w : ℕ) → k < j → IsLowestSet k w → IsLowestSet k (w + 2 ^ j)
IsLowestSet-add k zero w lt h = absurd (omega arith)
IsLowestSet-add zero (suc j) w lt h = omega (arith, pow-suc 2 j)
IsLowestSet-add (suc k) (suc j) w lt h =
    let half : (w + 2 ^ suc j) / 2 ≡ w / 2 + 2 ^ j = omega (arith, pow-suc 2 j) in
    (omega (arith, pow-suc 2 j), rw half (IsLowestSet-add k j (w / 2) (omega arith) h.1))

shift_int-IsLowestSet : (k i : ℕ) → k < 31 → IsLowestSet k (i / 2) → IsLowestSet k (shift_int i)
unfolding shift_int
shift_int-IsLowestSet k i lt h = ground (arith, IsLowestSet-add k 31 (i / 2) lt h)

ffs_loop-IsLowestSet :
    (fuel k i c : ℕ) → k < fuel → k < 32 → IsLowestSet k i → ffs_loop fuel i c ≡ some (c + k)
unfolding ffs_loop
ffs_loop-IsLowestSet zero k i c lt small h = absurd (omega arith)
ffs_loop-IsLowestSet (suc fuel) zero i c lt small h = ground arith
ffs_loop-IsLowestSet (suc fuel) (suc k) i c lt small h =
    let next : IsLowestSet k (shift_int i) = shift_int-IsLowestSet k i (omega arith) h.1 in
    ground (
      arith,
      h.0,
      IsLowestSet-pos k (shift_int i) next,
      ffs_loop-IsLowestSet fuel k (shift_int i) (c + 1) (omega arith) (omega arith) next,
    )

-- ffs answers one more than the place of the lowest digit set, for every int but zero.
pub ffs-IsLowestSet : (k i : ℕ) → k < 32 → IsLowestSet k i → ffs i ≡ some (suc k)
unfolding ffs
ffs-IsLowestSet k i small h =
    let e : 1 + k ≡ suc k = omega arith in rw (ffs_loop-IsLowestSet 32 k i 1 small small h, e)

double : (q n : ℕ) → q * 2 ^ suc n ≡ 2 * (q * 2 ^ n)
double q n = omega (arith, ap (λ (t : ℕ). q * t) (pow-suc 2 n))

IsLowestSet-low : (n k q r : ℕ) → k < n → IsLowestSet k (q * 2 ^ n + r) → IsLowestSet k r
IsLowestSet-low zero k q r lt h = absurd (omega arith)
IsLowestSet-low (suc n) zero q r lt h = omega (arith, double q n)
IsLowestSet-low (suc n) (suc k) q r lt h =
    let half : (q * 2 ^ suc n + r) / 2 ≡ q * 2 ^ n + r / 2 = omega (arith, double q n) in
    (omega (arith, double q n), IsLowestSet-low n k q (r / 2) (omega arith) (rw half at (h.1)))

IsLowestSet-high :
    (n k q r : ℕ) → r < 2 ^ n → IsLowestSet (n + k) (q * 2 ^ n + r) → (r ≡ 0) × IsLowestSet k q
IsLowestSet-high zero k q r small h =
    let e : q * 2 ^ 0 + r ≡ q = omega arith in
    let e' : 0 + k ≡ k = omega arith in (omega arith, rw (e, e') at h)
IsLowestSet-high (suc n) k q r small h =
    let e : suc n + k ≡ suc (n + k) = omega arith in
    let h' : IsLowestSet (suc (n + k)) (q * 2 ^ suc n + r) = rw e at h in
    let half : (q * 2 ^ suc n + r) / 2 ≡ q * 2 ^ n + r / 2 = omega (arith, double q n) in
    let (zero_half, low) =
      IsLowestSet-high n k q (r / 2) (omega (arith, pow-suc 2 n)) (rw half at (h'.1)) in
    (omega (arith, double q n, h'.0), low)

low_word-mod : (w : ℕ) → w < 2 ^ 64 → low_word w ≡ w % 2 ^ 32
unfolding low_word shift_word
low_word-mod w small =
    let clear : shift_word w * 2 ^ 32 % 2 ^ 64 ≡ w / 2 ^ 32 * 2 ^ 32 = ground arith in
    let split : w ≡ w / 2 ^ 32 * 2 ^ 32 + w % 2 ^ 32 = omega arith in
    let xor : bit_xor (w / 2 ^ 32 * 2 ^ 32) w ≡ w % 2 ^ 32 =
      ap (bit_xor (w / 2 ^ 32 * 2 ^ 32)) split
      ∙ bit_xor_high 32 (w / 2 ^ 32) (w % 2 ^ 32) (omega arith) in
    rw (clear, xor) (omega arith)

shift_word-lt : (w : ℕ) → w < 2 ^ 64 → shift_word w < 2 ^ 64
unfolding shift_word
shift_word-lt w small = ground arith

ffs-zero : ffs 0 ≡ some 0
unfolding ffs ffs_loop shift_int
ffs-zero = refl

ffsti2-zero : ffsti2 0 ≡ some 0
unfolding ffsti2 ffsti2_loop ffs_answer low_word shift_word ffs ffs_loop shift_int
ffsti2-zero = refl

ffsti2_loop-low :
    (rounds i k w : ℕ)
    → w < 2 ^ 64
    → k < 32
    → IsLowestSet k w
    → ffsti2_loop (suc rounds) i w ≡ some (suc k + i * 32)
unfolding ffsti2_loop ffs_answer
ffsti2_loop-low rounds i k w small lt h =
    let split : w ≡ w / 2 ^ 32 * 2 ^ 32 + w % 2 ^ 32 = omega arith in
    let low : IsLowestSet k (w % 2 ^ 32) =
      IsLowestSet-low 32 k (w / 2 ^ 32) (w % 2 ^ 32) lt (subst (IsLowestSet k) split h) in
    ground (arith, low_word-mod w small, ffs-IsLowestSet k (w % 2 ^ 32) lt low)

IsLowestSet-raise : (n k q r : ℕ) → k < n → IsLowestSet k r → IsLowestSet k (q * 2 ^ n + r)
IsLowestSet-raise zero k q r lt h = absurd (omega arith)
IsLowestSet-raise (suc n) zero q r lt h = omega (arith, double q n)
IsLowestSet-raise (suc n) (suc k) q r lt h =
    let half : (q * 2 ^ suc n + r) / 2 ≡ q * 2 ^ n + r / 2 = omega (arith, double q n) in
    (omega (arith, double q n, h.0), rw half (IsLowestSet-raise n k q (r / 2) (omega arith) h.1))

shift_word-IsLowestSet :
    (k w : ℕ) → k < 32 → IsLowestSet k (w / 2 ^ 32) → IsLowestSet k (shift_word w)
unfolding shift_word
shift_word-IsLowestSet k w lt h = elim (Bool-cases (ltb w (2 ^ 63))) [
  | inl plus ↦ rw plus h
  | inr minus ↦
      let e : w / 2 ^ 32 + (2 ^ 64 - 2 ^ 32) ≡ (2 ^ 32 - 1) * 2 ^ 32 + w / 2 ^ 32 = omega arith in
      rw (minus, e) (IsLowestSet-raise 32 k (2 ^ 32 - 1) (w / 2 ^ 32) lt h)
]

ffsti2_loop-high :
    (rounds i k w : ℕ)
    → w < 2 ^ 64
    → k < 32
    → IsLowestSet (32 + k) w
    → ffsti2_loop (suc (suc rounds)) i w ≡ some (suc k + (i + 1) * 32)
unfolding ffsti2_loop ffs_answer
ffsti2_loop-high rounds i k w small lt h =
    let split : w ≡ w / 2 ^ 32 * 2 ^ 32 + w % 2 ^ 32 = omega arith in
    let (gone, high) =
      IsLowestSet-high 32 k (w / 2 ^ 32) (w % 2 ^ 32) (omega arith)
        (subst (IsLowestSet (32 + k)) split h) in
    rw (low_word-mod w small, gone, ffs-zero)
      (ffsti2_loop-low rounds (i + 1) k (shift_word w) (shift_word-lt w small) lt
        (shift_word-IsLowestSet k w lt high))

-- __ffsti2 answers one more than the place of the lowest digit set, for every long long but zero: 64 where only
-- the highest digit is set, though its contract has an answer below 64.
pub ffsti2-IsLowestSet : (k w : ℕ) → w < 2 ^ 64 → k < 64 → IsLowestSet k w → ffsti2 w ≡ some (suc k)
unfolding ffsti2
ffsti2-IsLowestSet k w small lt h = elim (dec_lt k 32) [
  | yes low ↦
      let e : suc k + 0 * 32 ≡ suc k = omega arith in rw (ffsti2_loop-low 1 0 k w small low h, e)
  | no high ↦
      let e : 32 + (k - 32) ≡ k = omega arith in
      let e' : suc (k - 32) + (0 + 1) * 32 ≡ suc k = omega arith in
      rw (ffsti2_loop-high 0 0 (k - 32) w small (omega arith) (rw (← e) at h), e')
]

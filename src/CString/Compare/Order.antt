-- ===== src/CString/Compare/Order.antt =====
-- What the comparisons answer: zero exactly at equal bytes, and the difference of the first two
-- bytes that differ, cut to a `signed char`.
use formal_verification_of_x.Prelude.{
  ℕ, zero, suc, ◌+◌, ◌<◌, ◌≤◌, ◌≡◌, ◌≢◌, ◌↔◌, refl, ap, arith, some, true, ltb, if◌then◌else◌,
}
use native.Mathlib.Decide.{dec_lt}
use formal_verification_of_x.Prelude.Int.{ℤ, pos, sub_ℕ, ltb_ℤ, signed8}
use formal_verification_of_x.CString.Memory.{Memory, IsString, IsString-tail, IsBytes, IsSame}
use formal_verification_of_x.CString.Compare.{
  char_diff, memcmp_loop, memcmp, strncmp_loop, strncmp, strcmp_loop, strcmp,
}

char_diff-zero : (a b : ℕ) → a < 256 → b < 256 → char_diff a b ≡ 0 → a ≡ b
unfolding char_diff
char_diff-zero a b ha hb h = omega arith

char_diff_self : (a : ℕ) → char_diff a a ≡ 0
unfolding char_diff
char_diff_self a = omega arith

char_diff-lt : (a b : ℕ) → char_diff a b < 256
unfolding char_diff
char_diff-lt a b = omega arith

memcmp_loop-same : (n : ℕ) (m : Memory) (p q : ℕ) → IsSame m p q n → memcmp_loop m p q n ≡ 0
unfolding memcmp_loop
memcmp_loop-same zero m p q h = refl
memcmp_loop-same (suc n) m p q h = ground (
  arith,
  h 0 (omega arith),
  char_diff_self (m p),
  memcmp_loop-same n m (p + 1) (q + 1) (λ i lt. ground (arith, h (suc i) (omega arith))),
)

IsSame-memcmp_loop :
    (n : ℕ) (m : Memory) (p q : ℕ) → IsBytes m → memcmp_loop m p q n ≡ 0 → IsSame m p q n
unfolding memcmp_loop
IsSame-memcmp_loop zero m p q b h i lt = absurd (omega arith)
IsSame-memcmp_loop (suc n) m p q b h zero lt = ground (arith, b p, b q, char_diff-zero (m p) (m q))
IsSame-memcmp_loop (suc n) m p q b h (suc i) lt =
    ground (arith, IsSame-memcmp_loop n m (p + 1) (q + 1) b (ground arith) i (omega arith))

memcmp_loop-lt : (n : ℕ) (m : Memory) (p q : ℕ) → memcmp_loop m p q n < 256
unfolding memcmp_loop
memcmp_loop-lt zero m p q = omega arith
memcmp_loop-lt (suc n) m p q =
    ground (arith, char_diff-lt (m p) (m q), memcmp_loop-lt n m (p + 1) (q + 1))

signed8-zero : (w : ℕ) → signed8 w ≡ pos 0 → w < 256 → w ≡ 0
signed8-zero w h lt = ground arith

-- memcmp answers zero exactly when the two blocks hold the same count bytes.
pub memcmp-eq-zero :
    (m : Memory) (cs ct count : ℕ)
    → IsBytes m
    → (memcmp m cs ct count ≡ pos 0) ↔ IsSame m cs ct count
unfolding memcmp
memcmp-eq-zero m cs ct count b = (
  λ h. IsSame-memcmp_loop count m cs ct b (signed8-zero _ h (memcmp_loop-lt count m cs ct)),
  λ h. ap signed8 (memcmp_loop-same count m cs ct h),
)

memcmp_loop-first :
    (k n : ℕ) (m : Memory) (p q : ℕ)
    → IsBytes m
    → k < n
    → IsSame m p q k
    → m (p + k) ≢ m (q + k)
    → memcmp_loop m p q n ≡ char_diff (m (p + k)) (m (q + k))
unfolding memcmp_loop
memcmp_loop-first k zero m p q b lt h d = absurd (omega arith)
memcmp_loop-first zero (suc n) m p q b lt h d = ground (arith, b p, b q, char_diff-zero (m p) (m q))
memcmp_loop-first (suc k) (suc n) m p q b lt h d = ground (
  arith,
  h 0 (omega arith),
  char_diff_self (m p),
  memcmp_loop-first k n m (p + 1) (q + 1) b (omega arith)
      (λ i l. ground (arith, h (suc i) (omega arith))) (ground arith),
)

-- Where the first two bytes that differ are at most 127 apart, memcmp answers their difference, so
-- its sign tells the order of the blocks.
pub memcmp-first_difference :
    (m : Memory) (cs ct count k : ℕ)
    → IsBytes m
    → k < count
    → IsSame m cs ct k
    → m (cs + k) ≢ m (ct + k)
    → m (cs + k) ≤ m (ct + k) + 127
    → m (ct + k) ≤ m (cs + k) + 127
    → memcmp m cs ct count ≡ sub_ℕ (m (cs + k)) (m (ct + k))
unfolding memcmp char_diff
memcmp-first_difference m cs ct count k b lt h d near near' =
    rw (memcmp_loop-first k count m cs ct b lt h d) (ground (arith, b (cs + k), b (ct + k)))

-- Where the first byte that differs is larger by 129 or more in cs, memcmp answers a negative
-- number, though cs is the larger block.
pub memcmp_sign_flips :
    (m : Memory) (cs ct count k : ℕ)
    → IsBytes m
    → k < count
    → IsSame m cs ct k
    → m (ct + k) + 129 ≤ m (cs + k)
    → ltb_ℤ (memcmp m cs ct count) (pos 0) ≡ true
unfolding memcmp char_diff
memcmp_sign_flips m cs ct count k b lt h far =
    rw (memcmp_loop-first k count m cs ct b lt h (omega arith))
      (ground (arith, b (cs + k), b (ct + k)))

strncmp_loop-memcmp_loop :
    (count n : ℕ) (m : Memory) (p q : ℕ)
    → IsString m p n
    → strncmp_loop m p q count ≡ memcmp_loop m p q (if ltb n count then suc n else count)
unfolding strncmp_loop memcmp_loop
strncmp_loop-memcmp_loop zero n m p q h = ground arith
strncmp_loop-memcmp_loop (suc count) zero m p q h = ground (arith, h.terminator)
strncmp_loop-memcmp_loop (suc count) (suc n) m p q h = ground (
  arith,
  h.chars 0 (omega arith),
  strncmp_loop-memcmp_loop count n m (p + 1) (q + 1) (IsString-tail n m p h),
)

-- strncmp of a string of length n with any block does what memcmp of n + 1 bytes does when n is
-- below count, and what memcmp of count bytes does when it is not.
pub strncmp-memcmp :
    (m : Memory) (cs ct n count : ℕ)
    → IsString m cs n
    → strncmp m cs ct count ≡ memcmp m cs ct (if ltb n count then suc n else count)
unfolding strncmp memcmp
strncmp-memcmp m cs ct n count h = ap signed8 (strncmp_loop-memcmp_loop count n m cs ct h)

strcmp_loop-memcmp_loop :
    (fuel n : ℕ) (m : Memory) (p q : ℕ)
    → n < fuel
    → IsString m p n
    → strcmp_loop fuel m p q ≡ some (memcmp_loop m p q (suc n))
unfolding strcmp_loop memcmp_loop
strcmp_loop-memcmp_loop zero n m p q lt h = absurd (omega arith)
strcmp_loop-memcmp_loop (suc fuel) zero m p q lt h = ground (arith, h.terminator)
strcmp_loop-memcmp_loop (suc fuel) (suc n) m p q lt h = ground (
  arith,
  h.chars 0 (omega arith),
  strcmp_loop-memcmp_loop fuel n m (p + 1) (q + 1) (omega arith) (IsString-tail n m p h),
)

-- With fuel above the length of cs, strcmp returns, and answers zero exactly when ct holds the same
-- string as cs.
pub strcmp-eq-zero :
    (fuel : ℕ) (m : Memory) (cs ct n : ℕ)
    → n < fuel
    → IsBytes m
    → IsString m cs n
    → (r : ℤ) × (strcmp fuel m cs ct ≡ some r)
      × ((r ≡ pos 0) ↔ (IsSame m cs ct n × IsString m ct n))
unfolding strcmp memcmp
strcmp-eq-zero fuel m cs ct n lt b h = (
  memcmp m cs ct (suc n),
  rw (strcmp_loop-memcmp_loop fuel n m cs ct lt h),
  (
    λ e.
        let same = (memcmp-eq-zero m cs ct (suc n) b).0 e in
        (
          λ i l. same i (omega arith),
          record {
            chars = λ i l. ground (arith, same i (omega arith), h.chars i l);
            terminator = ground (arith, same n (omega arith), h.terminator);
          },
        ),
    λ s. (memcmp-eq-zero m cs ct (suc n) b).1 (λ i l. elim (dec_lt i n) [
      | yes below ↦ s.0 i below
      | no last ↦ ground (arith, s.1.terminator, h.terminator)
    ]),
  ),
)

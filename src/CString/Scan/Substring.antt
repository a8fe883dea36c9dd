-- ===== src/CString/Scan/Substring.antt =====
-- strstr finds the first place of a string in another; strdup makes a copy of a string.
use formal_verification_of_x.Prelude.{
  ℕ, zero, suc, ◌+◌, ◌-◌, ◌%◌, ◌^◌, ◌<◌, ◌≤◌, ◌≡◌, ◌⊎◌, arith, Option, none, some, Bool-cases, inl,
  inr, leb, true, false,
}
use formal_verification_of_x.Prelude.Int.{ℤ, pos, negsuc}
use formal_verification_of_x.CString.Memory.{Memory, IsString, IsBytes, IsSame, IsCopy}
use formal_verification_of_x.CString.Copy.{memcpy}
use formal_verification_of_x.CString.Copy.Block.{memcpy-IsCopy}
use formal_verification_of_x.CString.Compare.{memcmp_is_zero, is_zero}
use formal_verification_of_x.CString.Compare.Order.{memcmp-eq-zero}
use formal_verification_of_x.CString.Scan.{Pointer, strlen, strstr_loop, strstr, strdup}
use formal_verification_of_x.CString.Scan.Lengths.{strlen-IsString}

is_zero_iff : (z : ℤ) → is_zero z ≡ true → z ≡ pos 0
is_zero_iff (pos n) h = ground arith
is_zero_iff (negsuc n) h = cc

memcmp_is_zero-IsSame :
    (m : Memory) (p q n : ℕ) → IsBytes m → memcmp_is_zero m p q n ≡ true → IsSame m p q n
unfolding memcmp_is_zero
memcmp_is_zero-IsSame m p q n b h = (memcmp-eq-zero m p q n b).0 (is_zero_iff _ h)

IsSame-memcmp_is_zero :
    (m : Memory) (p q n : ℕ) → IsBytes m → memcmp_is_zero m p q n ≡ false → IsSame m p q n → ⊥
unfolding memcmp_is_zero
IsSame-memcmp_is_zero m p q n b h s = cc (h, (memcmp-eq-zero m p q n b).1 s)

-- The result is the first place in the `n1` bytes at `s1` where the `n2` bytes at `s2` stand, or
-- NULL where they stand nowhere.
abbrev pub IsFirstMatch : Memory → ℕ → ℕ → ℕ → ℕ → Pointer → Type 0
IsFirstMatch m s1 s2 n1 n2 none = ⊥
IsFirstMatch m s1 s2 n1 n2 (some none) = (i : ℕ) → i + n2 ≤ n1 → ¬ IsSame m (s1 + i) s2 n2
IsFirstMatch m s1 s2 n1 n2 (some (some p)) =
    (i : ℕ) × (i + n2 ≤ n1)
    × (p ≡ s1 + i)
    × IsSame m p s2 n2
    × ((j : ℕ) → j < i → ¬ IsSame m (s1 + j) s2 n2)

not-IsSame-cons :
    (m : Memory) (s1 s2 n2 k : ℕ)
    → ((j : ℕ) → j < k → ¬ IsSame m (s1 + 1 + j) s2 n2)
    → ¬ IsSame m s1 s2 n2
    → (j : ℕ) → j < suc k
    → ¬ IsSame m (s1 + j) s2 n2
not-IsSame-cons m s1 s2 n2 k later here zero lt s =
    here (λ i l. let e : s1 + 0 + i ≡ s1 + i = omega arith in rw e at (s i l))
not-IsSame-cons m s1 s2 n2 k later here (suc j) lt s =
    later j (omega arith)
      (λ i l. let e : s1 + suc j + i ≡ s1 + 1 + j + i = omega arith in rw e at (s i l))

IsFirstMatch-cons :
    (m : Memory) (s1 s2 n1 n2 : ℕ) (r : Pointer)
    → 0 < n1
    → ¬ IsSame m s1 s2 n2
    → IsFirstMatch m (s1 + 1) s2 (n1 - 1) n2 r
    → IsFirstMatch m s1 s2 n1 n2 r
IsFirstMatch-cons m s1 s2 n1 n2 none some_left here h = h
IsFirstMatch-cons m s1 s2 n1 n2 (some none) some_left here h =
    λ i le. not-IsSame-cons m s1 s2 n2 (n1 - n2) (λ j lt. h j (omega arith)) here i (omega arith)
IsFirstMatch-cons m s1 s2 n1 n2 (some (some p)) some_left here (i, le, e, hit, before) =
    (suc i, omega arith, omega arith, hit, not-IsSame-cons m s1 s2 n2 i before here)

strstr_loop-IsFirstMatch :
    (fuel : ℕ) (m : Memory) (s1 s2 n1 n2 : ℕ)
    → IsBytes m
    → 0 < n2
    → n1 < fuel
    → IsFirstMatch m s1 s2 n1 n2 (strstr_loop fuel m s1 s2 n1 n2)
unfolding strstr_loop
strstr_loop-IsFirstMatch zero m s1 s2 n1 n2 b h lt = absurd (omega arith)
strstr_loop-IsFirstMatch (suc fuel) m s1 s2 n1 n2 b h lt = elim (Bool-cases (leb n2 n1)) [
  | inr short ↦ rw short (λ i le. absurd (ground arith))
  | inl long ↦ elim (Bool-cases (memcmp_is_zero m s1 s2 n2)) [
    | inl hit ↦
        rw (long, hit)
          (
            0,
            ground arith,
            omega arith,
            memcmp_is_zero-IsSame m s1 s2 n2 b hit,
            λ j l. absurd (omega arith),
          )
    | inr miss ↦
        rw (long, miss)
          (IsFirstMatch-cons m s1 s2 n1 n2 _ (ground arith)
            (IsSame-memcmp_is_zero m s1 s2 n2 b miss)
            (strstr_loop-IsFirstMatch fuel m (s1 + 1) s2 (n1 - 1) n2 b h (ground arith)))
  ]
]

strstr-strstr_loop :
    (fuel : ℕ) (m : Memory) (s1 s2 n1 n2 : ℕ)
    → strlen fuel m s1 ≡ some n1
    → strlen fuel m s2 ≡ some (suc n2)
    → strstr fuel m s1 s2 ≡ strstr_loop fuel m s1 s2 n1 (suc n2)
unfolding strstr
strstr-strstr_loop fuel m s1 s2 n1 n2 h1 h2 = ground arith

-- Over memory that holds bytes, with fuel above both lengths, strstr returns the first place of the
-- string s2 in the string s1, which is s1 itself for an empty s2, or NULL when s2 stands nowhere.
pub strstr-IsFirstMatch :
    (fuel : ℕ) (m : Memory) (s1 s2 n1 n2 : ℕ)
    → IsBytes m
    → n1 < fuel
    → n2 < fuel
    → IsString m s1 n1
    → IsString m s2 n2
    → IsFirstMatch m s1 s2 n1 n2 (strstr fuel m s1 s2)
unfolding strstr
strstr-IsFirstMatch fuel m s1 s2 n1 zero b l1 l2 h1 h2 =
    rw (strlen-IsString fuel n1 m s1 l1 h1, strlen-IsString fuel 0 m s2 l2 h2)
      (0, omega arith, omega arith, λ i l. absurd (omega arith), λ j l. absurd (omega arith))
strstr-IsFirstMatch fuel m s1 s2 n1 (suc n2) b l1 l2 h1 h2 =
    rw
      (strstr-strstr_loop fuel m s1 s2 n1 n2 (strlen-IsString fuel n1 m s1 l1 h1)
        (strlen-IsString fuel (suc n2) m s2 l2 h2))
      (strstr_loop-IsFirstMatch fuel m s1 s2 n1 (suc n2) b (omega arith) l1)

-- A string of length n, n + 1 below 2^64 and below the fuel: where malloc answers NULL for n + 1,
-- strdup leaves the memory alone and returns NULL; where it answers a block that does not overlap
-- the string, strdup returns that block, with the string copied there and nothing else changed.
pub strdup_lem :
    (fuel : ℕ) (malloc : ℕ → Option ℕ) (m : Memory) (x n : ℕ)
    → n < fuel
    → suc n < 2 ^ 64
    → IsString m x n
    → ((malloc (suc n) ≡ none) → strdup fuel malloc m x ≡ some (m, none))
      × ((res : ℕ)
          → malloc (suc n) ≡ some res
          → (res + suc n ≤ x) ⊎ (x + suc n ≤ res)
          → (m' : Memory) × (strdup fuel malloc m x ≡ some (m', some res))
            × IsString m' res n
            × IsString m' x n
            × IsCopy m m' res x (suc n))
unfolding strdup
strdup_lem fuel malloc m x n lt small h =
    rw (strlen-IsString fuel n m x lt h, size)
      (
        λ e. rw e,
        λ res e apart.
            let c : IsCopy m (memcpy m res x (suc n)).0 res x (suc n) =
              (memcpy-IsCopy m res x (suc n) (blocks res apart)).0 in
            (
              (memcpy m res x (suc n)).0,
              rw e,
              record {
                chars = λ i l. ground (arith, c.copied i (omega arith), h.chars i l);
                terminator = ground (arith, c.copied n (omega arith), h.terminator);
              },
              record {
                chars = λ i l. ground (arith, kept res c apart i (omega arith), h.chars i l);
                terminator = ground (arith, kept res c apart n (omega arith), h.terminator);
              },
              c,
            ),
      )
  where
    size : (n + 1) % 2 ^ 64 ≡ suc n
    size = omega arith

    blocks : (res : ℕ) → (res + suc n ≤ x) ⊎ (x + suc n ≤ res) → (res ≤ x) ⊎ (x + suc n ≤ res)
    blocks res apart = omega arith

    kept :
        (res : ℕ)
        → IsCopy m (memcpy m res x (suc n)).0 res x (suc n)
        → (res + suc n ≤ x) ⊎ (x + suc n ≤ res)
        → (i : ℕ) → i ≤ n
        → (memcpy m res x (suc n)).0 (x + i) ≡ m (x + i)
    kept res c (inl above) i le = c.kept_above (x + i) (omega arith)
    kept res c (inr below) i le = c.kept_below (x + i) (omega arith)

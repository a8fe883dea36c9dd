-- ===== src/CString/Scan/Characters.antt =====
-- strchr finds the first and strrchr the last place of a character, the terminator included.
use formal_verification_of_x.Prelude.{
  ℕ, zero, suc, ◌+◌, ◌%◌, ◌<◌, ◌≤◌, ◌≡◌, ◌≢◌, ◌⊎◌, refl, arith, Option, none, some, Bool-cases, inl,
  inr, ◌==◌, true, false,
}
use formal_verification_of_x.CString.Memory.{Memory, IsString, IsString-tail}
use formal_verification_of_x.CString.Scan.{Pointer, strchr, strrchr_loop, strrchr}

-- No byte of the string of length `n` at `s`, its terminator included, is `v`.
abbrev pub IsAbsent : Memory → ℕ → ℕ → ℕ → Type 0
IsAbsent m s n v = (i : ℕ) → i ≤ n → m (s + i) ≢ v

-- The result is the first place of `v` in the string, or NULL where there is none.
abbrev pub IsFirst : Memory → ℕ → ℕ → ℕ → Pointer → Type 0
IsFirst m s n v none = ⊥
IsFirst m s n v (some none) = IsAbsent m s n v
IsFirst m s n v (some (some p)) =
    (i : ℕ) × (i ≤ n) × (p ≡ s + i) × (m p ≡ v) × ((j : ℕ) → j < i → m (s + j) ≢ v)

-- The result is the last place of `v` in the string, or `res` where there is none.
abbrev pub IsLast : Memory → ℕ → ℕ → ℕ → Option ℕ → Pointer → Type 0
IsLast m s n v res none = ⊥
IsLast m s n v res (some r) =
    ((r ≡ res) × IsAbsent m s n v)
    ⊎ ((i : ℕ) × (i ≤ n)
        × (r ≡ some (s + i))
        × (m (s + i) ≡ v)
        × ((j : ℕ) → i < j → j ≤ n → m (s + j) ≢ v))

IsAbsent-cons : (m : Memory) (s n v : ℕ) → m s ≢ v → IsAbsent m (s + 1) n v → IsAbsent m s (suc n) v
IsAbsent-cons m s n v d h zero le = ground arith
IsAbsent-cons m s n v d h (suc i) le = ground (arith, h i (omega arith))

IsFirst-cons :
    (m : Memory) (s n v : ℕ) (r : Pointer)
    → m s ≢ v
    → IsFirst m (s + 1) n v r
    → IsFirst m s (suc n) v r
IsFirst-cons m s n v none d h = h
IsFirst-cons m s n v (some none) d h = IsAbsent-cons m s n v d h
IsFirst-cons m s n v (some (some p)) d (i, le, e, hit, before) =
    (suc i, omega arith, omega arith, hit, earlier)
  where
    earlier : (j : ℕ) → j < suc i → m (s + j) ≡ v → ⊥
    earlier zero lt = ground arith
    earlier (suc j) lt = ground (arith, before j (omega arith))

-- With fuel above the length of the string, strchr returns the first place of the low byte of c in
-- the string, its terminator included, or NULL when no byte of it is that one.
pub strchr-IsFirst :
    (fuel n : ℕ) (m : Memory) (s c : ℕ)
    → n < fuel
    → IsString m s n
    → IsFirst m s n (c % 256) (strchr fuel m s c)
unfolding strchr
strchr-IsFirst zero n m s c lt h = absurd (omega arith)
strchr-IsFirst (suc fuel) zero m s c lt h = elim (Bool-cases (m s == c % 256)) [
  | inl hit ↦ rw hit (0, omega arith, omega arith, ground arith, λ j l. absurd (omega arith))
  | inr miss ↦
      let stop : (m s == 0) ≡ true = ground (arith, h.terminator) in
      rw (miss, stop) (λ i le. ground arith)
]
strchr-IsFirst (suc fuel) (suc n) m s c lt h = elim (Bool-cases (m s == c % 256)) [
  | inl hit ↦ rw hit (0, omega arith, omega arith, ground arith, λ j l. absurd (omega arith))
  | inr miss ↦
      let on : (m s == 0) ≡ false = ground (arith, h.chars 0 (omega arith)) in
      rw (miss, on)
        (IsFirst-cons m s n (c % 256) _ (ground arith)
          (strchr-IsFirst fuel n m (s + 1) c (omega arith) (IsString-tail n m s h)))
]

IsLast-hit :
    (m : Memory) (s n v : ℕ) (res : Option ℕ) (r : Pointer)
    → m s ≡ v
    → IsLast m (s + 1) n v (some s) r
    → IsLast m s (suc n) v res r
IsLast-hit m s n v res none d h = h
IsLast-hit m s n v res (some r) d (inl (e, absent)) =
    inr (0, omega arith, ground arith, ground arith, later)
  where
    later : (j : ℕ) → 0 < j → j ≤ suc n → m (s + j) ≡ v → ⊥
    later zero lt le = absurd (omega arith)
    later (suc j) lt le = ground (arith, absent j (omega arith))
IsLast-hit m s n v res (some r) d (inr (i, le, e, hit, after)) =
    inr (suc i, omega arith, ground arith, ground arith, later)
  where
    later : (j : ℕ) → suc i < j → j ≤ suc n → m (s + j) ≡ v → ⊥
    later zero lt le = absurd (omega arith)
    later (suc j) lt le = ground (arith, after j (omega arith) (omega arith))

IsLast-miss :
    (m : Memory) (s n v : ℕ) (res : Option ℕ) (r : Pointer)
    → m s ≢ v
    → IsLast m (s + 1) n v res r
    → IsLast m s (suc n) v res r
IsLast-miss m s n v res none d h = h
IsLast-miss m s n v res (some r) d (inl (e, absent)) = inl (e, IsAbsent-cons m s n v d absent)
IsLast-miss m s n v res (some r) d (inr (i, le, e, hit, after)) =
    inr (suc i, omega arith, ground arith, ground arith, later)
  where
    later : (j : ℕ) → suc i < j → j ≤ suc n → m (s + j) ≡ v → ⊥
    later zero lt le = absurd (omega arith)
    later (suc j) lt le = ground (arith, after j (omega arith) (omega arith))

strrchr_loop-IsLast :
    (fuel n : ℕ) (m : Memory) (s c : ℕ) (res : Option ℕ)
    → n < fuel
    → IsString m s n
    → IsLast m s n (c % 256) res (strrchr_loop fuel m s c res)
unfolding strrchr_loop
strrchr_loop-IsLast zero n m s c res lt h = absurd (omega arith)
strrchr_loop-IsLast (suc fuel) zero m s c res lt h =
    let stop : (m s == 0) ≡ true = ground (arith, h.terminator) in
    elim (Bool-cases (m s == c % 256)) [
      | inl hit ↦
          rw (stop, hit)
            (inr (0, omega arith, ground arith, ground arith, λ j l k. absurd (omega arith)))
      | inr miss ↦ rw (stop, miss) (inl (refl, λ i le. ground arith))
    ]
strrchr_loop-IsLast (suc fuel) (suc n) m s c res lt h =
    let on : (m s == 0) ≡ false = ground (arith, h.chars 0 (omega arith)) in
    elim (Bool-cases (m s == c % 256)) [
      | inl hit ↦
          rw (on, hit)
            (IsLast-hit m s n (c % 256) res _ (ground arith) (
              strrchr_loop-IsLast fuel n m (s + 1) c (some s) (omega arith)
                (IsString-tail n m s h)))
      | inr miss ↦
          rw (on, miss)
            (IsLast-miss m s n (c % 256) res _ (ground arith)
              (strrchr_loop-IsLast fuel n m (s + 1) c res (omega arith) (IsString-tail n m s h)))
    ]

-- With fuel above the length of the string, strrchr returns the last place of the low byte of c in
-- the string, its terminator included, or NULL when no byte of it is that one.
pub strrchr-IsLast :
    (fuel n : ℕ) (m : Memory) (s c : ℕ)
    → n < fuel
    → IsString m s n
    → IsLast m s n (c % 256) none (strrchr fuel m s c)
unfolding strrchr
strrchr-IsLast fuel n m s c lt h = strrchr_loop-IsLast fuel n m s c none lt h

-- ===== src/CString/Scan/Lengths.antt =====
-- strlen finds the terminator, strnlen the terminator or the bound.
use formal_verification_of_x.Prelude.{
  ℕ, zero, suc, ◌+◌, ◌-◌, ◌<◌, ◌≤◌, ◌≡◌, ◌↔◌, refl, arith, Option, none, some, false, Bool-cases,
  inl, inr, ◌==◌, ltb, if◌then◌else◌,
}
use formal_verification_of_x.CString.Memory.{Memory, IsString, IsString-tail}
use formal_verification_of_x.CString.Scan.{strnlen_loop, strnlen, strlen_loop, distance, strlen}

strlen_loop-IsString :
    (fuel n : ℕ) (m : Memory) (s : ℕ)
    → n < fuel
    → IsString m s n
    → strlen_loop fuel m s ≡ some (s + n)
unfolding strlen_loop
strlen_loop-IsString zero n m s lt h = absurd (omega arith)
strlen_loop-IsString (suc fuel) zero m s lt h = ground (arith, h.terminator)
strlen_loop-IsString (suc fuel) (suc n) m s lt h = ground (
  arith,
  h.chars 0 (omega arith),
  strlen_loop-IsString fuel n m (s + 1) (omega arith) (IsString-tail n m s h),
)

IsString-cons :
    (n : ℕ) (m : Memory) (s : ℕ) → (m s == 0) ≡ false → IsString m (s + 1) n → IsString m s (suc n)
IsString-cons n m s d h = record { chars = chars; terminator = ground (arith, h.terminator) }
  where
    chars : (i : ℕ) → i < suc n → m (s + i) ≡ 0 → ⊥
    chars zero lt = ground arith
    chars (suc i) lt = ground (arith, h.chars i (omega arith))

strlen_loop_sound :
    (fuel : ℕ) (m : Memory) (s e : ℕ)
    → strlen_loop fuel m s ≡ some e
    → (s ≤ e) × IsString m s (e - s) × (e - s < fuel)
unfolding strlen_loop
strlen_loop_sound zero m s e h = absurd (cc)
strlen_loop_sound (suc fuel) m s e h = elim (Bool-cases (m s == 0)) [
  | inl done ↦
      let here : s ≡ e = ground arith in
      let none_left : e - s ≡ 0 = omega arith in
      (
        omega arith,
        rw none_left (record { chars = λ i lt. absurd (omega arith); terminator = ground arith }),
        omega arith,
      )
  | inr more ↦
      let (le, str, lt) = strlen_loop_sound fuel m (s + 1) e (ground arith) in
      let e' : e - s ≡ suc (e - (s + 1)) = omega arith in
      (omega arith, rw e' (IsString-cons (e - (s + 1)) m s more str), omega arith)
]

-- strlen answers n exactly when a string of length n stands at s and the fuel is above n.
pub strlen_iff :
    (fuel : ℕ) (m : Memory) (s n : ℕ) → (strlen fuel m s ≡ some n) ↔ (IsString m s n × (n < fuel))
unfolding strlen
strlen_iff fuel m s n = (
  λ h. sound (strlen_loop fuel m s) refl h,
  λ h. rw (strlen_loop-IsString fuel n m s h.1 h.0) (ground arith),
)
  where
    sound :
        (o : Option ℕ)
        → strlen_loop fuel m s ≡ o
        → distance o s ≡ some n
        → IsString m s n × (n < fuel)
    sound none e h = absurd (cc)
    sound (some p) e h =
        let (le, str, lt) = strlen_loop_sound fuel m s p e in
        let d : p - s ≡ n = ground arith in (rw d at str, omega arith)

pub strlen-IsString :
    (fuel n : ℕ) (m : Memory) (s : ℕ) → n < fuel → IsString m s n → strlen fuel m s ≡ some n
strlen-IsString fuel n m s lt h = (strlen_iff fuel m s n).1 (h, lt)

-- strnlen of a string of length n is the smaller of n and count.
pub strnlen-IsString :
    (m : Memory) (s n count : ℕ)
    → IsString m s n
    → strnlen m s count ≡ (if ltb n count then n else count)
unfolding strnlen strnlen_loop
strnlen-IsString m s n count h = loop count n s h
  where
    loop :
        (count n s : ℕ)
        → IsString m s n
        → strnlen_loop m s count ≡ (if ltb n count then n else count)
    loop zero n s h = ground arith
    loop (suc count) zero s h = ground (arith, h.terminator)
    loop (suc count) (suc n) s h =
        ground (arith, h.chars 0 (omega arith), loop count n (s + 1) (IsString-tail n m s h))

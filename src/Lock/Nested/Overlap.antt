-- ===== src/Lock/Nested/Overlap.antt =====
-- Who may be inside the recursive lock, and a run after which two threads are.
use formal_verification_of_x.Prelude.{ℕ, suc, ◌≡◌, refl, arith, true, false, ◌==◌, if◌then◌else◌}
use native.Mathlib.Decide
use formal_verification_of_x.Lock.Nested.{
  NestedSystem, NestedReach, start, later, switch, move, call_try, try_free, try_take,
}
use formal_verification_of_x.Lock.Nested.Places.{owns, depth}

-- Nobody is inside, or thread `i` alone is, with `n` acquires.
pub data IsOccupied (s : NestedSystem) : Type 0 where
  free :
      s.owner ≡ 0
      → s.count ≡ 0
      → ((j : ℕ) → (owns (s.place j) ≡ false) × (depth (s.place j) ≡ 0))
      → IsOccupied s
  taken :
      (i : ℕ)
      → s.owner ≡ suc i
      → ((j : ℕ)
          → (owns (s.place j) ≡ (i == j)) × (depth (s.place j) ≡ (if i == j then s.count else 0)))
      → IsOccupied s

two_inside :
    (s : NestedSystem) → owns (s.place 0) ≡ true → owns (s.place 1) ≡ true → IsOccupied s → ⊥
two_inside s first second (free owner count inside) = cc (inside 0).0
two_inside s first second (taken i owner inside) = ground (arith, (inside 0).0, (inside 1).0)

-- With interrupts on throughout, thread 1 becomes the owner between the test of thread 0 and its write.
pub unmasked_overlap :
    (left : ℕ) → (s : NestedSystem) × NestedReach false left s × (IsOccupied s → ⊥)
unfolding native.Mathlib.Decide.ℕ_discrete
unmasked_overlap left =
    let tested = later (later start (move call_try)) (move (try_free refl)) in
    let other =
      later (later (later tested (switch 1 refl)) (move call_try)) (move (try_free refl)) in
    let owned = later other (move try_take) in
    (_, later (later owned (switch 0 refl)) (move try_take), two_inside _ refl refl)

-- ===== src/Lock/Nested/Safety.antt =====
-- Who is inside the recursive lock, and how deep.
use formal_verification_of_x.Prelude.{
  ℕ, zero, suc, ◌≡◌, refl, arith, false, true, Bool, ◌↔◌, subst, ◌==◌, if◌then◌else◌,
}
use formal_verification_of_x.Lock.Nested.{NestedSystem, NestedReach, start, start_nested}
use formal_verification_of_x.Lock.Nested.Places.{owns, depth}
use formal_verification_of_x.Lock.Nested.Overlap.{IsOccupied, free, taken, unmasked_overlap}
use formal_verification_of_x.Lock.Nested.Invariant.{NestedReach-NestedInv}

occupied : {s : NestedSystem} → NestedReach true 0 s → IsOccupied s
occupied {s} r = cases s.owner refl
  where
    open (NestedReach-NestedInv r) use {named, held, counted, uncounted, shallow}

    nobody : s.owner ≡ 0 → (j : ℕ) → owns (s.place j) ≡ false
    nobody e j = ground (arith, named j)

    inside : (i : ℕ) → s.owner ≡ suc i → (j : ℕ) → owns (s.place j) ≡ (i == j)
    inside i e j = ground (arith, named j, held j)

    deep : (i : ℕ) → s.owner ≡ suc i → (j : ℕ) → depth (s.place j) ≡ (if i == j then s.count else 0)
    deep i e j = ground (arith, held i, counted i, counted j, shallow j, named j)

    cases : (o : ℕ) → s.owner ≡ o → IsOccupied s
    cases zero e = free e (uncounted e) (λ j. (nobody e j, shallow j (nobody e j)))
    cases (suc i) e = taken i e (λ j. (inside i e j, deep i e j))

left_behind : (masks : Bool) (left : ℕ) → IsOccupied (start_nested left) → left ≡ 0
left_behind masks left (free owner count inside) = count
left_behind masks left (taken i owner inside) = absurd (omega arith)

-- Exactly where local_irq_save and local_irq_restore do turn interrupts off and back and the count is 0 before
-- ___lock_init_recursive, this holds of every state that threads on one processor reach, with any switches
-- while interrupts are on and each thread releasing only what it has acquired: no thread is inside the
-- recursive lock, its owner is NULL and its count 0; or its owner is the one thread inside, and its count
-- is the number of acquires that this thread has not released.
pub nested_exclusion :
    (masks : Bool) (left : ℕ)
    → ((s : NestedSystem) → NestedReach masks left s → IsOccupied s) ↔ ((masks ≡ true) × (left ≡ 0))
nested_exclusion false left =
    ((λ h. let (s, r, two) = unmasked_overlap left in absurd (two (h s r))), λ e. absurd (cc e.0))
nested_exclusion true left = (
  (λ h. (refl, left_behind true left (h (start_nested left) start))),
  λ e s r. occupied (subst (λ (n : ℕ). NestedReach true n s) e.1 r),
)

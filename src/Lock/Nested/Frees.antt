-- ===== src/Lock/Nested/Frees.antt =====
-- How the recursive lock comes free, and is taken then.
use formal_verification_of_x.Prelude.{
  ℕ, zero, suc, ◌≡◌, refl, sym, ap, ◌∙◌, arith, Bool, true, subst,
}
use formal_verification_of_x.Lock.Nested.{
  Place, outside, spinning, NestedSystem, NestedReach, call_acquire, save, see_free, own, restore,
}
use formal_verification_of_x.Lock.Nested.Places.{owns, depth}
use formal_verification_of_x.Lock.Nested.Invariant.{NestedReach-NestedInv}
use formal_verification_of_x.Lock.Nested.Alone.{
  Moves, done, next, count_next, release_last, release_inner,
}

append :
    {me o c o' c' o'' c'' : ℕ} {f f' f'' : Bool} {p p' p'' : Place}
    → Moves me o c f p o' c' f' p'
    → Moves me o' c' f' p' o'' c'' f'' p''
    → Moves me o c f p o'' c'' f'' p''
append done ms = ms
append (next m ms) ms' = next m (append ms ms')

releases : (me o d : ℕ) (f : Bool) → Moves me o (suc d) f (outside (suc d)) 0 0 f (outside 0)
releases me o zero f = release_last me 0 o f
releases me o (suc d) f =
    append (release_inner me (suc d) (suc d) o f (omega arith)) (releases me o d f)

kept_by_left :
    (j left : ℕ) (f : Bool) → Moves j 0 (suc left) f (outside 0) (suc j) (suc left) f (outside 0)
kept_by_left j left f =
    append
      (next (call_acquire (omega arith)) (
        next save
          (next (see_free refl) (next own (next restore (count_next j (suc j) (suc left) 0 f))))))
      (release_inner j (suc left) 0 (suc j) f (omega arith))

-- With local_irq_save and local_irq_restore doing what their names say, and with a count of 0 before
-- ___lock_init_recursive: in every reachable state whose running thread stands outside of the functions
-- with acquires left, that thread has as many of them as the count says, and by releasing them makes the
-- lock free, with interrupts as they were. From a free lock any thread at the head of the loop of
-- ___lock_acquire_recursive, when it runs, gets in with a count of 1. But where a positive count was
-- left before ___lock_init_recursive, an acquire and its release leave the thread the owner.
pub nested_frees :
    {s : NestedSystem} (d j left : ℕ)
    → NestedReach true 0 s
    → s.place s.running ≡ outside (suc d)
    → (s.count ≡ suc d)
      × Moves s.running s.owner s.count s.irqs_on (outside (suc d)) 0 0 s.irqs_on (outside 0)
      × Moves j 0 0 s.irqs_on (spinning 0) (suc j) 1 s.irqs_on (outside 1)
      × Moves j 0 (suc left) s.irqs_on (outside 0) (suc j) (suc left) s.irqs_on (outside 0)
nested_frees {s} d j left r e =
    let inside : owns (s.place s.running) ≡ true = ap owns e ∙ ground arith in
    let count : s.count ≡ suc d = counted s.running inside ∙ ap depth e in
    (
      count,
      subst
          (λ (c : ℕ).
            Moves s.running s.owner c s.irqs_on (outside (suc d)) 0 0 s.irqs_on (outside 0))
          (sym count) (releases s.running s.owner d s.irqs_on),
      next save
          (next (see_free refl) (next own (next restore (count_next j (suc j) 0 0 s.irqs_on)))),
      kept_by_left j left s.irqs_on,
    )
  where
    open (NestedReach-NestedInv r) use {counted}

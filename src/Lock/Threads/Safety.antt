-- ===== src/Lock/Threads/Safety.antt =====
-- Mutual exclusion, and a lock word that tells the truth about it.
use formal_verification_of_x.Prelude.{
  ℕ, ◌≡◌, ◌↔◌, refl, arith, true, false, ◌⊎◌, inl, inr, zero, suc, Bool,
}
use formal_verification_of_x.Lock.Threads.{System, Reach}
use formal_verification_of_x.Lock.Threads.Overlap.{unmasked_overlap, stray_release}
use formal_verification_of_x.Lock.Threads.Invariant.{holds, masked, Reach-Inv}

-- Exactly where local_irq_save and local_irq_restore do turn interrupts off and back, and no thread releases a
-- lock that it does not have, there is mutual exclusion: in no state that threads on one processor
-- reach, with any switches while interrupts are on, are two threads between their write of `busy = 1` and
-- their write of `busy = 0`.
pub mutual_exclusion :
    (masks orderly : Bool)
    → ((s : System)
        → Reach masks orderly s
        → (i j : ℕ) → holds (s.pc i) ≡ true
        → holds (s.pc j) ≡ true
        → i ≡ j)
      ↔ ((masks ≡ true) × (orderly ≡ true))
mutual_exclusion false orderly = (
  (λ h.
      let (s, r, first, second) = unmasked_overlap orderly in
      absurd (omega (arith, h s r 0 1 first second))),
  λ e. absurd (cc e.0),
)
mutual_exclusion true false = (
  (λ h.
      let (s, r, first, second) = stray_release in absurd (omega (arith, h s r 0 1 first second))),
  λ e. absurd (cc e.1),
)
mutual_exclusion true true = ((λ h. (refl, refl)), λ e s r. (Reach-Inv r).exclusive)

-- With both, in every reachable state the lock word is 0, and then no thread holds the lock, or it is 1, and
-- then some thread does: a busy lock always has an owner who can release it.
pub busy_iff_held :
    {s : System}
    → Reach true true s
    → ((s.busy ≡ 0) × ((i : ℕ) → holds (s.pc i) ≡ false))
      ⊎ ((s.busy ≡ 1) × ((i : ℕ) × (holds (s.pc i) ≡ true)))
busy_iff_held {s} r = cases (s.busy) refl
  where
    open (Reach-Inv r) use {flagged, owned}

    cases :
        (b : ℕ)
        → s.busy ≡ b
        → ((s.busy ≡ 0) × ((i : ℕ) → holds (s.pc i) ≡ false))
          ⊎ ((s.busy ≡ 1) × ((i : ℕ) × (holds (s.pc i) ≡ true)))
    cases zero e = inl (e, λ i. ground (arith, flagged i))
    cases (suc b) e = let (i, h) = owned (omega arith) in inr (flagged i h, (i, h))

-- With both, in every reachable state interrupts are off exactly while the running thread is between a
-- local_irq_save and the local_irq_restore after it, and no other thread ever is: each function
-- gives the interrupts back.
pub irqs_off_iff_masked :
    {s : System}
    → Reach true true s
    → ((s.irqs_on ≡ false) ↔ (masked (s.pc s.running) ≡ true))
      × ((i : ℕ) → masked (s.pc i) ≡ true → i ≡ s.running)
irqs_off_iff_masked {s} r = ((λ h. ground (arith, on), λ h. off s.running h), alone)
  where
    open (Reach-Inv r) use {on, off, alone}

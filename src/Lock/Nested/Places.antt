-- ===== src/Lock/Nested/Places.antt =====
-- What the place of a thread in the recursive lock's code tells, and the invariant of the system.
use formal_verification_of_x.Prelude.{ℕ, suc, ◌≡◌, Bool, true, false, not, ◌==◌}
use formal_verification_of_x.Lock.Nested.{
  Place, outside, spinning, spin_test, spin_own, spin_leave, counting, try_test, try_own, try_count,
  try_leave, releasing, release_clear, release_leave, NestedSystem,
}

-- The acquires of the thread that are not released.
abbrev pub depth : Place → ℕ
depth (outside d) = d
depth (spinning d) = d
depth (spin_test d s) = d
depth (spin_own d s) = d
depth (spin_leave d s) = d
depth (counting d) = d
depth (try_test d s) = d
depth (try_own d s) = d
depth (try_count d s) = d
depth (try_leave d s) = d
depth (releasing d) = d
depth (release_clear d s) = d
depth (release_leave d s) = d

-- From the write of the owner to that of NULL.
abbrev pub owns : Place → Bool
owns (outside d) = not (d == 0)
owns (spin_leave d s) = true
owns (counting d) = true
owns (try_test d s) = not (d == 0)
owns (try_count d s) = true
owns (try_leave d s) = not (d == 0)
owns (releasing d) = true
owns (release_clear d s) = true
owns _ = false

-- Between local_irq_save and local_irq_restore.
abbrev pub masked : Place → Bool
masked (outside d) = false
masked (spinning d) = false
masked (counting d) = false
masked (releasing d) = false
masked _ = true

-- Behind a test that found no owner.
abbrev pub found_free : Place → Bool
found_free (spin_own d s) = true
found_free (try_own d s) = true
found_free _ = false

-- Behind the release of the last acquire.
abbrev pub leaving : Place → Bool
leaving (releasing d) = true
leaving (release_clear d s) = true
leaving _ = false

-- What local_irq_save saw: interrupts were on.
abbrev pub saved_on : Place → Bool
saved_on (outside d) = true
saved_on (spinning d) = true
saved_on (counting d) = true
saved_on (releasing d) = true
saved_on (spin_test d s) = s
saved_on (spin_own d s) = s
saved_on (spin_leave d s) = s
saved_on (try_test d s) = s
saved_on (try_own d s) = s
saved_on (try_count d s) = s
saved_on (try_leave d s) = s
saved_on (release_clear d s) = s
saved_on (release_leave d s) = s

pub record NestedInv (s : NestedSystem) : Type 0 where
  pub named : (i : ℕ) → owns (s.place i) ≡ true → s.owner ≡ suc i
  pub held : (i : ℕ) → s.owner ≡ suc i → owns (s.place i) ≡ true
  pub counted : (i : ℕ) → owns (s.place i) ≡ true → s.count ≡ depth (s.place i)
  pub uncounted : s.owner ≡ 0 → s.count ≡ 0
  pub shallow : (i : ℕ) → owns (s.place i) ≡ false → depth (s.place i) ≡ 0
  pub emptied : (i : ℕ) → leaving (s.place i) ≡ true → depth (s.place i) ≡ 0
  pub seen_free : (i : ℕ) → found_free (s.place i) ≡ true → s.owner ≡ 0
  pub alone : (i : ℕ) → masked (s.place i) ≡ true → i ≡ s.running
  pub off : (i : ℕ) → masked (s.place i) ≡ true → s.irqs_on ≡ false
  pub on : masked (s.place s.running) ≡ false → s.irqs_on ≡ true
  pub saved : (i : ℕ) → saved_on (s.place i) ≡ true

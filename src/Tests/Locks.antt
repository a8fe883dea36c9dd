-- ===== src/Tests/Locks.antt =====
-- lock_verified.c: one thread that has taken the plain lock.
use formal_verification_of_x.Prelude.{ℕ, ◌≡◌, refl, true, false}
use native.Mathlib.Decide
use formal_verification_of_x.Lock.Threads.{
  System, Reach, start, later, start_system, move, call_acquire, save, see_free, take, spinning,
  spin_test, spin_set, leave_with, update,
}
use formal_verification_of_x.Lock.Threads.Safety.{mutual_exclusion}

-- Thread 0 walks through ___lock_acquire up to its write of the lock word.
abbrev calling : System
calling = record start_system { pc = update start_system.pc 0 spinning }

abbrev testing : System
testing = record calling { irqs_on = false; pc = update calling.pc 0 (spin_test true) }

abbrev setting : System
setting = record testing { pc = update testing.pc 0 (spin_set true) }

abbrev taken : System
taken = record setting { busy = 1; pc = update setting.pc 0 (leave_with true) }

taken-Reach : Reach true true taken
unfolding native.Mathlib.Decide.ℕ_discrete
taken-Reach =
    later (later (later (later start (move call_acquire)) (move save)) (move (see_free refl)))
      (move take)

mutual_exclusion_example : ◌≡◌ {A = ℕ} 0 0
unfolding native.Mathlib.Decide.ℕ_discrete
mutual_exclusion_example =
    (mutual_exclusion true true).1 (refl, refl) taken taken-Reach 0 0 refl refl

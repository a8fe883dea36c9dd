-- ===== src/Lock/Threads.antt =====
-- The plain lock under threads that share one processor. A thread is between two statements of
-- ___lock_acquire, ___lock_try_acquire or ___lock_release; while interrupts are off no other
-- thread runs. That file has empty bodies in place of local_irq_save and local_irq_restore: `masks` says
-- whether they do what they do in Mini-OS, namely note in `flags` whether interrupts were on and turn them
-- off, and put back what is noted. `orderly` says that a thread releases the lock only while it
-- has it; ___lock_release itself does not look.
use formal_verification_of_x.Prelude.{ℕ, ◌≡◌, ◌≢◌, refl, arith, Bool, true, false, if◌then◌else◌}
pub mod Invariant
pub mod Overlap
pub mod Safety
use mathlib.Core.Logic.{ite}
use native.Mathlib.Decide.{ℕ_discrete}

-- Whether interrupts are on behind local_irq_save, and behind local_irq_restore.
abbrev pub after_save : Bool → Bool → Bool
after_save masks f = if masks then false else f

abbrev pub after_restore : Bool → Bool → Bool → Bool
after_restore masks f saved = if masks then saved else f

-- Where a thread stands. `saved` is what local_irq_save has put in `flags`: whether interrupts
-- were on.
pub data Pc : Type 0 where
  -- outside the three functions, without and with the lock
  outside owning : Pc
  -- at the head of the loop of ___lock_acquire; behind local_irq_save; behind the break
  spinning : Pc
  spin_test spin_set : (saved : Bool) → Pc
  -- ___lock_try_acquire behind local_irq_save; behind the test
  try_test try_set : (saved : Bool) → Pc
  -- before the last local_irq_restore, with the lock (`ret` is 0) and without it
  leave_with leave_without : (saved : Bool) → Pc
  -- ___lock_release behind local_irq_save; behind `lock->busy = 0`
  release_clear release_leave : (saved : Bool) → Pc

pub record System : Type 0 where
  pub busy : ℕ
  pub running : ℕ
  pub irqs_on : Bool
  pub pc : ℕ → Pc

abbrev pub update : (ℕ → Pc) → ℕ → Pc → ℕ → Pc
update f i p j = ite (ℕ_discrete i j) p (f j)

-- One statement of the running thread: the lock word, the interrupt flag and the place.
pub data Move (masks orderly : Bool) : ℕ → Bool → Pc → ℕ → Bool → Pc → Type 0 where
  call_acquire : {b : ℕ} {f : Bool} → Move masks orderly b f outside b f spinning
  save : {b : ℕ} {f : Bool} → Move masks orderly b f spinning b (after_save masks f) (spin_test f)
  see_busy :
      {b : ℕ} {f s : Bool}
      → b ≢ 0
      → Move masks orderly b f (spin_test s) b (after_restore masks f s) spinning
  see_free : {b : ℕ} {f s : Bool} → b ≡ 0 → Move masks orderly b f (spin_test s) b f (spin_set s)
  take : {b : ℕ} {f s : Bool} → Move masks orderly b f (spin_set s) 1 f (leave_with s)
  call_try : {b : ℕ} {f : Bool} → Move masks orderly b f outside b (after_save masks f) (try_test f)
  try_busy :
      {b : ℕ} {f s : Bool} → b ≢ 0 → Move masks orderly b f (try_test s) b f (leave_without s)
  try_free : {b : ℕ} {f s : Bool} → b ≡ 0 → Move masks orderly b f (try_test s) b f (try_set s)
  try_take : {b : ℕ} {f s : Bool} → Move masks orderly b f (try_set s) 1 f (leave_with s)
  return_with :
      {b : ℕ} {f s : Bool}
      → Move masks orderly b f (leave_with s) b (after_restore masks f s) owning
  return_without :
      {b : ℕ} {f s : Bool}
      → Move masks orderly b f (leave_without s) b (after_restore masks f s) outside
  call_release :
      {b : ℕ} {f : Bool} → Move masks orderly b f owning b (after_save masks f) (release_clear f)
  call_release_any :
      {b : ℕ} {f : Bool}
      → orderly ≡ false
      → Move masks orderly b f outside b (after_save masks f) (release_clear f)
  clear : {b : ℕ} {f s : Bool} → Move masks orderly b f (release_clear s) 0 f (release_leave s)
  return_released :
      {b : ℕ} {f s : Bool}
      → Move masks orderly b f (release_leave s) b (after_restore masks f s) outside

pub data Step (masks orderly : Bool) (s : System) : System → Type 0 where
  -- the scheduler picks another thread, only while interrupts are on
  switch : (j : ℕ) → s.irqs_on ≡ true → Step masks orderly s (record s { running = j })
  move :
      {b : ℕ} {f : Bool} {p : Pc}
      → Move masks orderly s.busy s.irqs_on (s.pc s.running) b f p
      → Step masks orderly s
          (record { busy = b; running = s.running; irqs_on = f; pc = update s.pc s.running p })

-- ___lock_init has run and no thread is in the lock's code.
abbrev pub start_system : System
start_system = record { busy = 0; running = 0; irqs_on = true; pc = λ _. outside }

pub data Reach (masks orderly : Bool) : System → Type 0 where
  start : Reach masks orderly start_system
  later : {s t : System} → Reach masks orderly s → Step masks orderly s t → Reach masks orderly t

-- ===== src/Lock/Nested.antt =====
-- The recursive lock under threads that share one processor. A thread is between two statements of
-- ___lock_acquire_recursive, ___lock_try_acquire_recursive or ___lock_release_recursive, and knows how
-- many of its acquires it has not released yet; it calls the last one only with such an acquire.
-- While interrupts are off no other thread runs; `masks` says, as for the plain lock, whether local_irq_save
-- and local_irq_restore, which are empty in that file, turn them off and back. `count` does not overflow, as that file assumes.
use formal_verification_of_x.Prelude.{ℕ, suc, ◌+◌, ◌-◌, ◌≡◌, ◌≢◌, refl, arith, Bool, true, false}
pub mod Places
pub mod Invariant
pub mod Safety
pub mod Overlap
pub mod Alone
pub mod Frees
use formal_verification_of_x.Lock.Threads.{after_save, after_restore}
use mathlib.Core.Logic.{ite}
use native.Mathlib.Decide.{ℕ_discrete}

-- Where a thread stands, with the number `d` of its acquires. `saved` is what local_irq_save has put in
-- `flags`.
pub data Place : Type 0 where
  outside : (d : ℕ) → Place
  -- at the head of the loop of ___lock_acquire_recursive; behind local_irq_save; behind the break;
  -- behind `lock->owner = get_current()`; before `lock->count++`
  spinning : (d : ℕ) → Place
  spin_test spin_own spin_leave : (d : ℕ) (saved : Bool) → Place
  counting : (d : ℕ) → Place
  -- ___lock_try_acquire_recursive behind local_irq_save; behind the test; before `lock->count++`;
  -- before local_irq_restore
  try_test try_own try_count try_leave : (d : ℕ) (saved : Bool) → Place
  -- ___lock_release_recursive behind a `--lock->count` that is 0; behind local_irq_save; behind
  -- `lock->owner = NULL`
  releasing : (d : ℕ) → Place
  release_clear release_leave : (d : ℕ) (saved : Bool) → Place

-- `owner` is 0 for NULL, and `suc i` for thread `i`.
pub record NestedSystem : Type 0 where
  pub owner : ℕ
  pub count : ℕ
  pub running : ℕ
  pub irqs_on : Bool
  pub place : ℕ → Place

abbrev pub put_place : (ℕ → Place) → ℕ → Place → ℕ → Place
put_place f i p j = ite (ℕ_discrete i j) p (f j)

-- One statement of thread `me`: the owner, the count, the interrupt flag and the place.
pub data NestedMove (masks : Bool) (me : ℕ)
    : ℕ → ℕ → Bool → Place → ℕ → ℕ → Bool → Place → Type 0 where
  call_again :
      {o c : ℕ} {f : Bool} {d : ℕ}
      → o ≡ suc me
      → NestedMove masks me o c f (outside d) o c f (counting d)
  call_acquire :
      {o c : ℕ} {f : Bool} {d : ℕ}
      → o ≢ suc me
      → NestedMove masks me o c f (outside d) o c f (spinning d)
  save :
      {o c : ℕ} {f : Bool} {d : ℕ}
      → NestedMove masks me o c f (spinning d) o c (after_save masks f) (spin_test d f)
  see_owned :
      {o c : ℕ} {f s : Bool} {d : ℕ}
      → o ≢ 0
      → NestedMove masks me o c f (spin_test d s) o c (after_restore masks f s) (spinning d)
  see_free :
      {o c : ℕ} {f s : Bool} {d : ℕ}
      → o ≡ 0
      → NestedMove masks me o c f (spin_test d s) o c f (spin_own d s)
  own :
      {o c : ℕ} {f s : Bool} {d : ℕ}
      → NestedMove masks me o c f (spin_own d s) (suc me) c f (spin_leave d s)
  restore :
      {o c : ℕ} {f s : Bool} {d : ℕ}
      → NestedMove masks me o c f (spin_leave d s) o c (after_restore masks f s) (counting d)
  add_one :
      {o c : ℕ} {f : Bool} {d : ℕ}
      → NestedMove masks me o c f (counting d) o (c + 1) f (outside (d + 1))
  call_try :
      {o c : ℕ} {f : Bool} {d : ℕ}
      → NestedMove masks me o c f (outside d) o c (after_save masks f) (try_test d f)
  try_owned :
      {o c : ℕ} {f s : Bool} {d : ℕ}
      → o ≢ 0
      → NestedMove masks me o c f (try_test d s) o c f (try_leave d s)
  try_free :
      {o c : ℕ} {f s : Bool} {d : ℕ}
      → o ≡ 0
      → NestedMove masks me o c f (try_test d s) o c f (try_own d s)
  try_take :
      {o c : ℕ} {f s : Bool} {d : ℕ}
      → NestedMove masks me o c f (try_own d s) (suc me) c f (try_count d s)
  try_add :
      {o c : ℕ} {f s : Bool} {d : ℕ}
      → NestedMove masks me o c f (try_count d s) o (c + 1) f (try_leave (d + 1) s)
  return_try :
      {o c : ℕ} {f s : Bool} {d : ℕ}
      → NestedMove masks me o c f (try_leave d s) o c (after_restore masks f s) (outside d)
  call_release :
      {o c : ℕ} {f : Bool} {d : ℕ}
      → d ≢ 0
      → c - 1 ≢ 0
      → NestedMove masks me o c f (outside d) o (c - 1) f (outside (d - 1))
  call_release_last :
      {o c : ℕ} {f : Bool} {d : ℕ}
      → d ≢ 0
      → c - 1 ≡ 0
      → NestedMove masks me o c f (outside d) o (c - 1) f (releasing (d - 1))
  save_release :
      {o c : ℕ} {f : Bool} {d : ℕ}
      → NestedMove masks me o c f (releasing d) o c (after_save masks f) (release_clear d f)
  clear :
      {o c : ℕ} {f s : Bool} {d : ℕ}
      → NestedMove masks me o c f (release_clear d s) 0 c f (release_leave d s)
  return_released :
      {o c : ℕ} {f s : Bool} {d : ℕ}
      → NestedMove masks me o c f (release_leave d s) o c (after_restore masks f s) (outside d)

pub data NestedStep (masks : Bool) (s : NestedSystem) : NestedSystem → Type 0 where
  -- the scheduler picks another thread, only while interrupts are on
  switch : (j : ℕ) → s.irqs_on ≡ true → NestedStep masks s (record s { running = j })
  move :
      {o c : ℕ} {f : Bool} {p : Place}
      → NestedMove masks s.running s.owner s.count s.irqs_on (s.place s.running) o c f p
      → NestedStep masks s (record {
        owner = o;
        count = c;
        running = s.running;
        irqs_on = f;
        place = put_place s.place s.running p;
      })

-- A lock behind ___lock_init_recursive, which does not write the count: it is what was `left` there. No thread is
-- in its code.
abbrev pub start_nested : ℕ → NestedSystem
start_nested left = record {
  owner = 0;
  count = left;
  running = 0;
  irqs_on = true;
  place = λ _. outside 0;
}

pub data NestedReach (masks : Bool) (left : ℕ) : NestedSystem → Type 0 where
  start : NestedReach masks left (start_nested left)
  later :
      {s t : NestedSystem}
      → NestedReach masks left s
      → NestedStep masks s t
      → NestedReach masks left t

-- ===== src/Lock/Threads/Overlap.antt =====
-- Two runs after which two threads have the plain lock at once.
use formal_verification_of_x.Prelude.{◌≡◌, refl, Bool, true, false}
use native.Mathlib.Decide
use formal_verification_of_x.Lock.Threads.{
  System, Reach, start, later, switch, move, call_acquire, save, see_free, take, call_try, try_free,
  try_take, return_with, call_release_any, clear, return_released,
}
use formal_verification_of_x.Lock.Threads.Invariant.{holds}

abbrev pub TwoHolders : Bool → Bool → Type 0
TwoHolders masks orderly =
    (s : System) × Reach masks orderly s × (holds (s.pc 0) ≡ true) × (holds (s.pc 1) ≡ true)

-- With interrupts on throughout, thread 1 takes the lock between the test of thread 0 and its write.
pub unmasked_overlap : (orderly : Bool) → TwoHolders false orderly
unfolding native.Mathlib.Decide.ℕ_discrete
unmasked_overlap orderly =
    let tested =
      later (later (later start (move call_acquire)) (move save)) (move (see_free refl)) in
    let other = later (later (later tested (switch 1 refl)) (move call_acquire)) (move save) in
    let taken = later (later other (move (see_free refl))) (move take) in
    (_, later (later taken (switch 0 refl)) (move take), refl, refl)

-- Thread 1 releases the lock that thread 0 has, and takes it.
pub stray_release : TwoHolders true false
unfolding native.Mathlib.Decide.ℕ_discrete
stray_release =
    let tried =
      later (later (later start (move call_try)) (move (try_free refl))) (move try_take) in
    let other = later (later tried (move return_with)) (switch 1 refl) in
    let released =
      later (later (later other (move (call_release_any refl))) (move clear))
        (move return_released) in
    (
      _,
      later (later (later released (move call_try)) (move (try_free refl))) (move try_take),
      refl,
      refl,
    )

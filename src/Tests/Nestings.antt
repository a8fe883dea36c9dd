-- ===== src/Tests/Nestings.antt =====
-- lock_verified.c: a thread that has taken the recursive lock twice.
use formal_verification_of_x.Prelude.{◌≡◌, refl, true, false, arith}
use native.Mathlib.Decide
use formal_verification_of_x.Lock.Nested.{
  NestedSystem, NestedReach, start, later, start_nested, move, switch, put_place, call_acquire,
  save, see_free, own, restore, add_one, call_again, outside, spinning, spin_test, spin_own,
  spin_leave, counting,
}
use formal_verification_of_x.Lock.Nested.Overlap.{IsOccupied}
use formal_verification_of_x.Lock.Nested.Safety.{nested_exclusion}
use formal_verification_of_x.Lock.Nested.Frees.{nested_frees}
use formal_verification_of_x.Lock.Nested.Alone.{Moves}

-- Thread 0 takes the recursive lock twice, and thread 1 runs behind that.
abbrev spun : NestedSystem
spun = record (start_nested 0) { place = put_place (start_nested 0).place 0 (spinning 0) }

abbrev tested : NestedSystem
tested = record spun { irqs_on = false; place = put_place spun.place 0 (spin_test 0 true) }

abbrev free_seen : NestedSystem
free_seen = record tested { place = put_place tested.place 0 (spin_own 0 true) }

abbrev owned : NestedSystem
owned = record free_seen { owner = 1; place = put_place free_seen.place 0 (spin_leave 0 true) }

abbrev restored : NestedSystem
restored = record owned { irqs_on = true; place = put_place owned.place 0 (counting 0) }

abbrev once : NestedSystem
once = record restored { count = 1; place = put_place restored.place 0 (outside 1) }

abbrev again : NestedSystem
again = record once { place = put_place once.place 0 (counting 1) }

abbrev twice : NestedSystem
twice = record again { count = 2; place = put_place again.place 0 (outside 2) }

abbrev switched : NestedSystem
switched = record twice { running = 1 }

twice-Reach : NestedReach true 0 twice
unfolding native.Mathlib.Decide.ℕ_discrete
twice-Reach =
    later
      (later
        (later
          (later
            (later
              (later (later (later start (move (call_acquire (omega arith)))) (move save))
                (move (see_free refl)))
              (move own))
            (move restore))
          (move add_one))
        (move (call_again refl)))
      (move add_one)

nested_frees_example :
    (twice.count ≡ 2)
    × Moves 0 1 2 true (outside 2) 0 0 true (outside 0)
    × Moves 1 0 0 true (spinning 0) 2 1 true (outside 1)
    × Moves 1 0 4 true (outside 0) 2 4 true (outside 0)
unfolding native.Mathlib.Decide.ℕ_discrete
nested_frees_example = nested_frees 1 1 3 twice-Reach refl

nested_exclusion_example : IsOccupied switched
nested_exclusion_example =
    (nested_exclusion true 0).1 (refl, refl) switched (later twice-Reach (switch 1 refl))

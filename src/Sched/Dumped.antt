-- ===== src/Sched/Dumped.antt =====
-- dump_stack on a stack of a thread.
use formal_verification_of_x.Prelude.{
  ℕ, zero, suc, ◌+◌, ◌-◌, ◌*◌, ◌/◌, ◌%◌, ◌^◌, ◌<◌, ◌≤◌, ◌≡◌, arith, ltb, Bool-cases, inl, inr,
}
use Prim.Native.Nat.{min}
use native.Mathlib.Nat.{mod-eq_of_lt}
use formal_verification_of_x.Sched.{Thread, stack_size, dump_loop, dump_stack}

-- The words from one address up to another, the last one perhaps cut.
abbrev pub words_between : ℕ → ℕ → ℕ
words_between low high = (high - low + 7) / 8

dump_loop-words :
    (rounds p bottom : ℕ)
    → bottom + 8 ≤ 2 ^ 64
    → ((dump_loop rounds p bottom).0 ≡ min rounds (words_between p bottom))
      × ((dump_loop rounds p bottom).1 ≡ p + 8 * min rounds (words_between p bottom))
unfolding dump_loop
dump_loop-words zero p bottom room = (omega arith, omega arith)
dump_loop-words (suc n) p bottom room = elim (Bool-cases (ltb p bottom)) [
  | inl below ↦
      let lt : p < bottom = ground arith in
      let next : (p + 8) % 2 ^ 64 ≡ p + 8 = mod-eq_of_lt (omega arith) in
      let (count, stop) = dump_loop-words n (p + 8) bottom room in
      let fewer : words_between p bottom ≡ suc (words_between (p + 8) bottom) = omega arith in
      (rw (next, below) (omega arith), rw (next, below) (omega arith))
  | inr behind ↦
      let none_left : words_between p bottom ≡ 0 = ground arith in
      (rw behind (omega arith), rw behind (omega arith))
]

-- On a stack that ends at least eight bytes below 2^64, dump_stack passes the words from the stack
-- pointer to the end of the stack, 25 at most, and prints "continues" exactly when bytes are left
-- behind 25 words.
pub dump_stack-shown :
    (thread : Thread)
    → thread.stack + stack_size + 8 ≤ 2 ^ 64
    → ((dump_stack thread).0 ≡ min 25 (words_between thread.sp (thread.stack + stack_size)))
      × ((dump_stack thread).1 ≡ ltb (thread.sp + 200) (thread.stack + stack_size))
unfolding dump_stack
dump_stack-shown thread room =
    let end : (thread.stack + stack_size) % 2 ^ 64 ≡ thread.stack + stack_size =
      mod-eq_of_lt (omega arith) in
    let (count, stop) = dump_loop-words 25 thread.sp (thread.stack + stack_size) room in
    rw end (count, rw stop (ground arith))

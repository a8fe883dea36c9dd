-- ===== src/Sched/Prepared.antt =====
-- The stack that a new thread starts on.
use formal_verification_of_x.Prelude.{
  ℕ, ◌+◌, ◌-◌, ◌%◌, ◌^◌, ◌<◌, ◌≤◌, ◌≡◌, ◌≢◌, refl, ap, ◌∙◌, arith, Bool, true, false, ◌==◌, ◌⊎◌,
  inl, inr, none, some, ◌||◌,
}
use native.Mathlib.Nat.{mod-eq_of_lt, add-mod_right}
use formal_verification_of_x.Sched.{
  Thread, Bytes, stack_size, store_long, stack_push, thread_on_stack, arch_create_thread,
  alloc_pages, dump_stack,
}
use formal_verification_of_x.Sched.Words.{
  load, load-store_long, load-store_apart, store_long_outside,
}
use formal_verification_of_x.Sched.Dumped.{dump_stack-shown}

-- A step down by eight bytes.
down_eight : (sp : ℕ) → 8 ≤ sp → sp < 2 ^ 64 → (sp + 2 ^ 64 - 8) % 2 ^ 64 ≡ sp - 8
down_eight sp room lt =
    ap (λ s. s % 2 ^ 64) (omega arith)
    ∙ add-mod_right (sp - 8) (2 ^ 64)
    ∙ mod-eq_of_lt (omega arith)

-- The bytes behind the three stores.
abbrev pub stacked : ℕ → ℕ → ℕ → ℕ → Bytes → Bytes
stacked stack function argument address m =
    store_long (stack + stack_size - 24) argument
      (store_long (stack + stack_size - 16) function (store_long stack address m))

-- A thread that runs from `entry` on `stack` and finds its function and argument there.
pub record IsPrepared (stack entry function argument address : ℕ) (thread : Thread) (m m' : Bytes)
    : Type 0 where
  pub base : thread.stack ≡ stack
  pub entered : thread.ip ≡ entry
  pub top : thread.sp + 24 ≡ stack + stack_size
  pub argument_on_top : load 8 m' thread.sp ≡ argument
  pub function_below : load 8 m' (thread.sp + 8) ≡ function
  pub thread_at_base : load 8 m' thread.stack ≡ address
  pub outside : (a : ℕ) → a < stack ⊎ stack + stack_size ≤ a → m' a ≡ m a
  pub aligned : (thread.sp + 8) % 16 ≡ stack % 16
  pub words : (dump_stack thread).0 ≡ 3
  pub ended : (dump_stack thread).1 ≡ false

or_true : (b : Bool) → (b || true) ≡ true
or_true true = refl
or_true false = refl

-- `alloc_pages` answers NULL.
arch_create_thread_faults :
    (entry name function argument address : ℕ) (thread : Thread) (m : Bytes)
    → arch_create_thread entry name function argument address thread m ≡ none
unfolding arch_create_thread thread_on_stack alloc_pages stack_push
arch_create_thread_faults entry name function argument address thread m =
    rw (or_true (address == 0)) refl

module _ (stack entry name function argument address : ℕ) (thread : Thread) (m : Bytes) where
  abbrev pub prepared : Thread
  prepared = record thread { stack = stack; name = name; sp = stack + stack_size - 24; ip = entry }

  thread_on_stack_lem :
      address ≢ 0
      → stack ≢ 0
      → stack + stack_size + 8 ≤ 2 ^ 64
      → thread_on_stack stack entry name function argument address thread m
        ≡ some (prepared, stacked stack function argument address m)
  unfolding thread_on_stack stack_push
  thread_on_stack_lem ne ne' room =
      let top : (stack + stack_size) % 2 ^ 64 ≡ stack + stack_size = mod-eq_of_lt (omega arith) in
      let one = down_eight (stack + stack_size) (omega arith) (omega arith) in
      let two = down_eight (stack + stack_size - 8) (omega arith) (omega arith) ∙ at_two in
      let three = down_eight (stack + stack_size - 16) (omega arith) (omega arith) ∙ at_three in
      let starts : (address == 0 || stack == 0) ≡ false = ground arith in
      rw (starts, top, one, two, three) refl
    where
      at_two : stack + stack_size - 8 - 8 ≡ stack + stack_size - 16
      at_two = omega arith

      at_three : stack + stack_size - 16 - 8 ≡ stack + stack_size - 24
      at_three = omega arith

-- For an address and a stack that are not NULL, on a stack that ends eight bytes below 2^64 or lower,
-- and values of 64 bits, arch_create_thread goes on from the stack that it is given without a fault.
-- The thread enters at its starter, with the argument on top of its stack, the function below that,
-- and the pointer to the thread at the base; nothing outside of the stack changes; eight
-- bytes above the stack pointer it is as aligned to 16 as the stack; and dump_stack passes just three words.
-- With the stack that alloc_pages of the file answers it faults.
pub arch_create_thread-IsPrepared :
    (stack entry name function argument address : ℕ) (thread : Thread) (m : Bytes)
    → address ≢ 0
    → stack ≢ 0
    → stack + stack_size + 8 ≤ 2 ^ 64
    → function < 2 ^ 64
    → argument < 2 ^ 64
    → address < 2 ^ 64
    → ((t : Thread) × (m' : Bytes) × (thread_on_stack stack entry name function argument address
            thread m
          ≡ some (t, m'))
        × IsPrepared stack entry function argument address t m m')
      × (arch_create_thread entry name function argument address thread m ≡ none)
arch_create_thread-IsPrepared stack entry name function argument address thread m ne ne' room f_lt
      a_lt t_lt =
    (
      (
        prepared stack entry name function argument address thread m,
        stacked stack function argument address m,
        thread_on_stack_lem stack entry name function argument address thread m ne ne' room,
        record {
          base = refl;
          entered = refl;
          top = omega arith;
          argument_on_top = load-store_long with_function (stack + stack_size - 24) argument a_lt;
          function_below =
              ap (load 8 final) (omega arith)
              ∙ load-store_apart with_function 8 (stack + stack_size - 16) (stack + stack_size - 24)
                  argument (inr (omega arith))
              ∙ load-store_long with_thread (stack + stack_size - 16) function f_lt;
          thread_at_base =
              load-store_apart with_function 8 stack (stack + stack_size - 24) argument
                (inl (omega arith))
              ∙ load-store_apart with_thread 8 stack (stack + stack_size - 16) function
                  (inl (omega arith))
              ∙ load-store_long m stack address t_lt;
          outside = λ a out.
              store_long_outside with_function (stack + stack_size - 24) argument a (ground arith)
              ∙ store_long_outside with_thread (stack + stack_size - 16) function a (ground arith)
              ∙ store_long_outside m stack address a (ground arith);
          aligned = omega arith;
          words = (dump_stack-shown new room).0 ∙ omega arith;
          ended = (dump_stack-shown new room).1 ∙ ground arith;
        },
      ),
      arch_create_thread_faults entry name function argument address thread m,
    )
  where
    with_thread : Bytes
    with_thread = store_long stack address m

    with_function : Bytes
    with_function = store_long (stack + stack_size - 16) function with_thread

    final : Bytes
    final = stacked stack function argument address m

    new : Thread
    new = prepared stack entry name function argument address thread m

-- ===== src/Tests/Stacks.antt =====
-- sched_verified.c on a stack at 1 MiB.
use formal_verification_of_x.Prelude.{◌≡◌, arith, some, none}
use formal_verification_of_x.Sched.{Thread, Bytes, thread_on_stack, arch_create_thread}
use formal_verification_of_x.Sched.Prepared.{IsPrepared, arch_create_thread-IsPrepared}

abbrev thread : Thread
thread = record { name = 0; stack = 0x100000; sp = 0x10fe00; ip = 0; flags = 0; wakeup_time = 0 }

abbrev empty : Bytes
empty = λ a. 0

arch_create_thread-IsPrepared_example :
    ((t : Thread) × (m' : Bytes) × (thread_on_stack 0x100000 0x400 0x2000 0x500000 0x77 0x3000
          thread empty
        ≡ some (t, m'))
      × IsPrepared 0x100000 0x400 0x500000 0x77 0x3000 t empty m')
    × (arch_create_thread 0x400 0x2000 0x500000 0x77 0x3000 thread empty ≡ none)
arch_create_thread-IsPrepared_example =
    arch_create_thread-IsPrepared 0x100000 0x400 0x2000 0x500000 0x77 0x3000 thread empty
      (omega arith) (omega arith) (omega arith) (omega arith) (omega arith) (omega arith)

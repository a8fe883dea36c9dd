-- ===== src/Sched.antt =====
-- sched_verified.c: the stacks of Mini-OS threads.
use formal_verification_of_x.Prelude.{
  ℕ, zero, suc, ◌+◌, ◌-◌, ◌*◌, ◌/◌, ◌%◌, ◌^◌, ltb, leb, ◌==◌, if◌then◌else◌, Bool, ◌&&◌, ◌||◌,
  Option, none, some,
}
pub mod Words
pub mod Prepared
pub mod Dumped

-- `struct thread`.
pub record Thread : Type 0 where
  pub name : ℕ
  pub stack : ℕ
  pub sp : ℕ
  pub ip : ℕ
  pub flags : ℕ
  pub wakeup_time : ℕ

-- The bytes of the memory by their addresses; `struct thread` itself is kept apart from them.
abbrev pub Bytes : Type 0
Bytes = ℕ → ℕ

abbrev pub stack_size_page_order : ℕ
stack_size_page_order = 4

abbrev pub stack_size : ℕ
stack_size = 2 ^ 12 * 2 ^ 4

pub alloc_pages : ℕ → ℕ
alloc_pages order = 0

-- Byte `i` of a value, the lowest first.
abbrev pub long_byte : ℕ → ℕ → ℕ
long_byte zero v = v % 256
long_byte (suc i) v = long_byte i (v / 256)

-- `*(unsigned long *)p = v`: the eight bytes from `p` on.
pub store_long : ℕ → ℕ → Bytes → Bytes
store_long p v m a = if leb p a && ltb a (p + 8) then long_byte (a - p) v else m a

pub stack_push : ℕ → Thread × Bytes → Thread × Bytes
stack_push value (thread, m) =
    let sp = (thread.sp + 2 ^ 64 - 8) % 2 ^ 64 in (record thread { sp = sp }, store_long sp value m)

-- From the value of `alloc_pages` on. `argument` is `data`, and `address` is `thread` as a pointer, NULL by default; NULL faults,
-- also as a stack. The entry point thread_starter stands for its address.
pub thread_on_stack :
    (stack thread_starter name function argument address : ℕ)
    → Thread
    → Bytes
    → Option (Thread × Bytes)
thread_on_stack stack thread_starter name function argument address thread m =
    let named = record thread { stack = stack; name = name } in
    let top = record named { sp = (stack + stack_size) % 2 ^ 64 } in
    let owned = store_long stack address m in
    let aligned = record top { sp = (top.sp + 2 ^ 64 - 8) % 2 ^ 64 } in
    let (pushed, m') = stack_push argument (stack_push function (aligned, owned)) in
    if address == 0 || stack == 0 then none else some (record pushed { ip = thread_starter }, m')

pub arch_create_thread :
    (thread_starter name function argument address : ℕ) → Thread → Bytes → Option (Thread × Bytes)
arch_create_thread = thread_on_stack (alloc_pages stack_size_page_order)

-- The loop, by the rounds that are left: how many words it passes, and where it stops.
pub dump_loop : ℕ → ℕ → ℕ → ℕ × ℕ
dump_loop zero pointer bottom = (0, pointer)
dump_loop (suc rounds) pointer bottom =
    let rest = dump_loop rounds ((pointer + 8) % 2 ^ 64) bottom in
    if ltb pointer bottom then (suc rest.0, rest.1) else (0, pointer)

-- The words that are passed, and whether "continues" is printed. The local `current` is NULL, and the
-- branch on it is empty.
pub dump_stack : Thread → ℕ × Bool
dump_stack thread =
    let bottom = (thread.stack + stack_size) % 2 ^ 64 in
    let (count, pointer) = dump_loop 25 thread.sp bottom in (count, ltb pointer bottom)

-- `flags` is a local that is passed by value and not written: its value is an argument.
pub local_irq_save_flags : ℕ → ℕ
local_irq_save_flags flags = flags

pub local_save_flags_value : ℕ → ℕ
local_save_flags_value flags = flags

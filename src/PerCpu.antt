-- ===== src/PerCpu.antt =====
-- percpu_verified.c: the areas of the processors, which are allocated when one comes up and freed, by way
-- of RCU, when one has gone down.
use formal_verification_of_x.Prelude.{
  ℕ, zero, suc, ◌+◌, ◌-◌, ◌/◌, ◌%◌, ◌^◌, ◌==◌, ◌!=◌, if◌then◌else◌, Bool, true, false, List, [],
  ◌∷◌, Option, none, some, bit_or,
}
use formal_verification_of_x.Prelude.Int.{ℤ, pos, negsuc}
pub mod Order
pub mod Callback

-- Calls of the allocator and of memset.
pub data Call : Type 0 where
  alloc_xenheap_pages free_xenheap_pages memset : ℕ → ℕ → Call

-- `offsets` is __per_cpu_offset, `info_cpu` the member of `f`, which is the only `struct free_info`, and
-- `pending` the number of calls of _free_percpu_area that call_rcu has queued.
pub record Areas : Type 0 where
  pub offsets : ℕ → ℕ
  pub info_cpu : ℕ
  pub pending : ℕ
  pub calls : List Call

-- The addresses of __per_cpu_start and __per_cpu_data_end, and park_offline_cpus.
pub record Layout : Type 0 where
  pub start : ℕ
  pub data_end : ℕ
  pub park_offline_cpus : ℕ

-- INVALID_PERCPU_AREA, as the code casts it to 32 bits.
abbrev pub invalid_percpu_area : Layout → ℕ
invalid_percpu_area l = (2 ^ 63 + 2 ^ 64 - l.start) % 2 ^ 64 % 2 ^ 32

-- `for (order = 0; size; order = order + 1) size >>= 1;`, with the rounds that are left.
pub order_loop : ℕ → ℕ → ℕ → Option ℕ
order_loop zero size order = none
order_loop (suc fuel) size order =
    let rest = order_loop fuel (size / 2) ((order + 1) % 2 ^ 32) in
    if size == 0 then some order else rest

pub get_order_from_bytes : ℕ → Option ℕ
get_order_from_bytes size = order_loop 53 ((size + 2 ^ 64 - 1) % 2 ^ 64 / 2 ^ 12) 0

abbrev pub order_of : Option ℕ → ℕ
order_of none = 0
order_of (some order) = order

-- PERCPU_ORDER. get_order_from_bytes always answers.
abbrev pub percpu_order : Layout → ℕ
percpu_order l =
    order_of (get_order_from_bytes ((l.data_end % 2 ^ 32 + 2 ^ 32 - l.start % 2 ^ 32) % 2 ^ 32))

abbrev pub set_offset : ℕ → ℕ → Areas → Areas
set_offset cpu offset s = record s { offsets = λ c. if c == cpu then offset else s.offsets c }

abbrev pub note : Call → Areas → Areas
note call s = record s { calls = call ∷ s.calls }

-- From the call of alloc_xenheap_pages on, whose answer is the argument.
abbrev pub take_area : Layout → ℕ → Option ℕ → Areas → Areas × ℤ
take_area l cpu none s = (note (alloc_xenheap_pages (percpu_order l) 0) s, negsuc 0)
take_area l cpu (some p) s = (
  set_offset cpu ((p + 2 ^ 64 - l.start) % 2 ^ 64 % 2 ^ 32)
      (note (memset p (percpu_order l)) (note (alloc_xenheap_pages (percpu_order l) 0) s)),
  pos 0,
)

pub init_percpu_area : Layout → ℕ → Option ℕ → Areas → Areas × ℤ
init_percpu_area l cpu p s =
    if s.offsets cpu != invalid_percpu_area l then (s, pos 0) else take_area l cpu p s

pub free_percpu_area_now : Layout → Areas → Areas
free_percpu_area_now l s =
    let cpu = s.info_cpu in
    let p = (l.start + s.offsets cpu) % 2 ^ 64 in
    set_offset cpu (invalid_percpu_area l) (note (free_xenheap_pages p (percpu_order l)) s)

-- The queue of call_rcu runs one of its functions.
abbrev pub run_rcu : Layout → Areas → Areas
run_rcu l s = free_percpu_area_now l (record s { pending = s.pending - 1 })

pub free_percpu_area : ℕ → Areas → Areas
free_percpu_area cpu s = record s { info_cpu = cpu; pending = s.pending + 1 }

-- `0x8000 | -err` on the error numbers of this file.
pub notifier_from_errno : ℤ → ℕ
notifier_from_errno (pos e) = bit_or 0x8000 ((2 ^ 32 - e) % 2 ^ 32)
notifier_from_errno (negsuc e) = bit_or 0x8000 (e + 1)

abbrev pub cpu_up_prepare : ℕ
cpu_up_prepare = 0x0001

abbrev pub cpu_up_canceled : ℕ
cpu_up_canceled = 0x8002

abbrev pub cpu_dead : ℕ
cpu_dead = 0x8008

abbrev pub cpu_remove : ℕ
cpu_remove = 0x8009

abbrev pub answer : ℤ → ℕ
answer (pos e) = if e == 0 then 0 else notifier_from_errno (pos e)
answer (negsuc e) = notifier_from_errno (negsuc e)

pub cpu_percpu_callback : Layout → ℕ → ℕ → Option ℕ → Areas → Areas × ℕ
cpu_percpu_callback l action cpu p s =
    let (taken, rc) = init_percpu_area l cpu p s in
    if action == cpu_up_prepare
    then (taken, answer rc)
    else if action == cpu_up_canceled
    then (if l.park_offline_cpus == 0 then free_percpu_area cpu s else s, 0)
    else if action == cpu_dead
    then (if l.park_offline_cpus == 0 then free_percpu_area cpu s else s, 0)
    else if action == cpu_remove
    then (if l.park_offline_cpus != 0 then free_percpu_area cpu s else s, 0)
    else (s, 0)

-- The loop over the processors from 1 on below NR_CPUS.
pub init_areas : ℕ → Layout → ℕ → Areas → Areas
init_areas zero l cpu s = s
init_areas (suc rounds) l cpu s =
    init_areas rounds l (cpu + 1) (set_offset cpu (invalid_percpu_area l) s)

abbrev pub nr_cpus : ℕ
nr_cpus = 1

pub percpu_init_areas : Layout → Areas → Areas
percpu_init_areas l s = init_areas (nr_cpus - 1) l 1 s

-- `register` is register_cpu_notifier, on the state of the notifiers.
pub percpu_presmp_init : {S : Type 0} → (S → S) → S → S × ℕ
percpu_presmp_init register s = (register s, 0)

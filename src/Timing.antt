-- ===== src/Timing.antt =====
-- time_verified.c: the timers and the check of the time-stamp counters.
use formal_verification_of_x.Prelude.{
  ℕ, zero, suc, ◌+◌, ◌-◌, ◌%◌, ◌^◌, ◌==◌, if◌then◌else◌, Bool, not, List, [], ◌∷◌, Option, none,
  some, bit_and,
}
use mathlib.Core.Option.{map}
pub mod Guarded
pub mod Released
pub mod Masked

-- Calls of the functions that the file declares without a body. smp_processor_id, cpumask_of and
-- DEFINE_SPINLOCK only name a processor and a lock, and are left out.
pub data TimeCall : Type 0 where
  cpumask_and cpumask_clear_cpu cpumask_andnot : TimeCall
  raise_softirq cpumask_raise_softirq : TimeCall
  outb : ℕ → ℕ → TimeCall
  spin_lock spin_unlock spin_lock_irqsave spin_unlock_irqrestore : TimeCall
  rcu_read_lock rcu_read_unlock : TimeCall
  for_each_domain rtc_update_clock : TimeCall
  local_irq_disable local_irq_enable cpu_relax check_tsc_warp : TimeCall

-- What these functions answer behind the calls so far, the last one first. An int and an unsigned int
-- are numbers of 32 bits.
pub record TimePlatform : Type 0 where
  pub inb : List TimeCall → ℕ → ℕ
  pub cpumask_test_cpu : List TimeCall → ℕ
  pub cpumask_empty : List TimeCall → ℕ
  pub is_hvm_domain : List TimeCall → Bool
  pub platform_stime : List TimeCall → ℕ → ℕ
  pub rdtsc_ordered : List TimeCall → ℕ
  pub get_s_time_fixed : List TimeCall → ℕ → ℕ

abbrev pub is_set : ℕ → Bool
is_set x = not (x == 0)

-- a - b in 32 bits.
abbrev pub sub_32 : ℕ → ℕ → ℕ
sub_32 a b = (a + 2 ^ 32 - b) % 2 ^ 32

abbrev pub pit_mode : ℕ
pit_mode = 0x43

abbrev pub pit_ch2 : ℕ
pit_ch2 = 0x42

-- `while ( c ) cpu_relax();` on fuel; `c` may change with the calls.
pub relax_while : (List TimeCall → Bool) → ℕ → List TimeCall → Option (List TimeCall)
relax_while c zero s = none
relax_while c (suc fuel) s =
    let rest = relax_while c fuel (cpu_relax ∷ s) in if c s then rest else some s

-- The end of tsc_check_slave.
abbrev pub slave_end : List TimeCall → List TimeCall
slave_end s = local_irq_enable ∷ cpumask_clear_cpu ∷ check_tsc_warp ∷ s

-- tsc_check_reliability up to its loop.
abbrev pub reliability_start : List TimeCall → List TimeCall
reliability_start s =
    local_irq_enable ∷ check_tsc_warp ∷ local_irq_disable ∷ cpumask_andnot ∷ spin_lock ∷ s

-- `plt_stamp64 + (plt_counter - plt_stamp) & plt_mask`, in which + binds more than &.
abbrev pub platform_count : ℕ → ℕ → ℕ → ℕ → ℕ
platform_count plt_counter plt_stamp64 plt_stamp plt_mask =
    bit_and ((plt_stamp64 + sub_32 plt_counter plt_stamp) % 2 ^ 32) plt_mask

module _ (platform : TimePlatform) where
  pub smp_send_timer_broadcast_ipi : List TimeCall → List TimeCall
  smp_send_timer_broadcast_ipi s =
      let masked = cpumask_and ∷ s in
      let raised =
        if is_set (platform.cpumask_test_cpu masked)
        then raise_softirq ∷ cpumask_clear_cpu ∷ masked
        else masked in
      if not (is_set (platform.cpumask_empty raised))
      then cpumask_raise_softirq ∷ raised
      else raised

  -- The stamps are locals that nothing writes, here and below.
  pub read_pit_count : ℕ → ℕ → List TimeCall → List TimeCall × ℕ
  read_pit_count pit_stamp32 pit_stamp16 s =
      let locked = spin_lock_irqsave ∷ s in
      let count16 = platform.inb locked pit_ch2 in
      let count32 = (pit_stamp32 + sub_32 pit_stamp16 count16) % 2 ^ 32 in
      (spin_unlock_irqrestore ∷ locked, count32)

  pub resume_pit : List TimeCall → List TimeCall
  resume_pit s = outb 0 pit_ch2 ∷ outb 0 pit_ch2 ∷ outb 0xb0 pit_mode ∷ s

  pub read_platform_stime : ℕ → ℕ → ℕ → ℕ → List TimeCall → List TimeCall × ℕ
  read_platform_stime plt_counter plt_stamp64 plt_stamp plt_mask s =
      let locked = spin_lock ∷ s in
      let count = platform_count plt_counter plt_stamp64 plt_stamp plt_mask in
      (spin_unlock ∷ locked, platform.platform_stime locked count)

  -- The call of for_each_domain is a statement of its own.
  pub update_domain_rtc : List TimeCall → List TimeCall
  update_domain_rtc s =
      let asked = for_each_domain ∷ rcu_read_lock ∷ s in
      rcu_read_unlock ∷ (if platform.is_hvm_domain asked then rtc_update_clock ∷ asked else asked)

  pub update_domain_rtc2 : List TimeCall → List TimeCall
  update_domain_rtc2 = update_domain_rtc

  pub read_tsc : List TimeCall → ℕ
  read_tsc s = platform.rdtsc_ordered s

  pub get_s_time : List TimeCall → ℕ
  get_s_time s = platform.get_s_time_fixed s 0

  pub tsc_check_slave : ℕ → List TimeCall → Option (List TimeCall)
  tsc_check_slave fuel s =
      map slave_end
        (relax_while (λ t. not (is_set (platform.cpumask_test_cpu t))) fuel (local_irq_disable ∷ s))

  pub tsc_check_reliability : ℕ → List TimeCall → Option (List TimeCall)
  tsc_check_reliability fuel s =
      map (λ t. spin_unlock ∷ t)
        (relax_while (λ t. not (is_set (platform.cpumask_empty t))) fuel (reliability_start s))

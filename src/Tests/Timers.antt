-- ===== src/Tests/Timers.antt =====
-- time_verified.c on a platform that ends a wait at once.
use formal_verification_of_x.Prelude.{
  ◌%◌, ◌^◌, ◌-◌, ◌<◌, ◌≡◌, ◌↔◌, arith, List, [], ◌∷◌, some, false, not,
}
use formal_verification_of_x.Timing.{
  TimeCall, local_irq_enable, cpumask_clear_cpu, check_tsc_warp, cpumask_andnot, spin_lock,
  spin_unlock, local_irq_disable, TimePlatform, is_set, tsc_check_slave, tsc_check_reliability,
  read_platform_stime,
}
use formal_verification_of_x.Timing.Guarded.{count}
use formal_verification_of_x.Timing.Released.{HasWaited, tsc_check_iff}
use formal_verification_of_x.Timing.Masked.{count_since, read_platform_stime-low}

abbrev platform : TimePlatform
platform = record {
  inb = λ s port. 0;
  cpumask_test_cpu = λ s. 1;
  cpumask_empty = λ s. 1;
  is_hvm_domain = λ s. false;
  platform_stime = λ s count. count;
  rdtsc_ordered = λ s. 0;
  get_s_time_fixed = λ s at. 0;
}

-- The calls of the slave and of the other processor on a platform whose masks say the wait is over.
abbrev slave_calls : List TimeCall
slave_calls = local_irq_enable ∷ cpumask_clear_cpu ∷ check_tsc_warp ∷ local_irq_disable ∷ []

abbrev before_wait : List TimeCall
before_wait =
    local_irq_enable ∷ check_tsc_warp ∷ local_irq_disable ∷ cpumask_andnot ∷ spin_lock ∷ []

tsc_check_iff_example :
    ((tsc_check_slave platform 2 [] ≡ some slave_calls)
      ↔ HasWaited
          (λ u. not (is_set (platform.cpumask_test_cpu u)))
          2
          (local_irq_disable ∷ [])
          (λ u. local_irq_enable ∷ cpumask_clear_cpu ∷ check_tsc_warp ∷ u)
          slave_calls)
    × ((tsc_check_reliability platform 2 [] ≡ some (spin_unlock ∷ before_wait))
        ↔ HasWaited
            (λ u. not (is_set (platform.cpumask_empty u)))
            2
            before_wait
            (λ u. spin_unlock ∷ u)
            (spin_unlock ∷ before_wait))
tsc_check_iff_example = tsc_check_iff platform 2 [] slave_calls (spin_unlock ∷ before_wait)

read_platform_stime-low_example :
    let since = count_since 100 0xfff0 50 (2 ^ 16 - 1) in
    (read_platform_stime platform 100 0xfff0 50 (2 ^ 16 - 1) []
      ≡ (spin_unlock ∷ spin_lock ∷ [], platform.platform_stime (spin_lock ∷ []) (since % 2 ^ 16)))
    × ((since % 2 ^ 16 ≡ since) ↔ (since < 2 ^ 16))
read_platform_stime-low_example = read_platform_stime-low platform 100 0xfff0 50 16 [] (omega arith)

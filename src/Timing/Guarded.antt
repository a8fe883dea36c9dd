-- ===== src/Timing/Guarded.antt =====
-- What holds of the calls through every run of the functions.
use formal_verification_of_x.Prelude.{
  ℕ, ◌+◌, ◌-◌, ◌≡◌, Bool, true, false, List, [], ◌∷◌, Option, none, some,
}
use formal_verification_of_x.Timing.{
  TimeCall, local_irq_disable, local_irq_enable, check_tsc_warp, spin_lock, spin_unlock,
  spin_lock_irqsave, spin_unlock_irqrestore, rcu_read_lock, rcu_read_unlock, TimePlatform,
  smp_send_timer_broadcast_ipi, read_pit_count, resume_pit, read_platform_stime, update_domain_rtc,
  tsc_check_slave, tsc_check_reliability,
}

-- The functions that make calls, with the values of their locals.
pub data Operation : Type 0 where
  broadcast resume rtc slave reliability : Operation
  count : ℕ → ℕ → Operation
  stime : ℕ → ℕ → ℕ → ℕ → Operation

abbrev pub then_run :
    (List TimeCall → Option (List TimeCall)) → Option (List TimeCall) → Option (List TimeCall)
then_run next none = none
then_run next (some s) = next s

module _ (platform : TimePlatform) (fuel : ℕ) where
  abbrev pub step : Operation → List TimeCall → Option (List TimeCall)
  step broadcast s = some (smp_send_timer_broadcast_ipi platform s)
  step resume s = some (resume_pit platform s)
  step rtc s = some (update_domain_rtc platform s)
  step slave s = tsc_check_slave platform fuel s
  step reliability s = tsc_check_reliability platform fuel s
  step (count stamp32 stamp16) s = some (read_pit_count platform stamp32 stamp16 s).0
  step (stime counter stamp64 stamp mask) s =
      some (read_platform_stime platform counter stamp64 stamp mask s).0

  abbrev pub run : List Operation → List TimeCall → Option (List TimeCall)
  run [] s = some s
  run (o ∷ os) s = then_run (run os) (step o s)

-- Whether the interrupts are off behind the calls, and what the last spin_lock_irqsave has saved.
abbrev pub irq_state : List TimeCall → Bool × Bool
irq_state [] = (false, false)
irq_state (local_irq_disable ∷ s) = (true, (irq_state s).1)
irq_state (local_irq_enable ∷ s) = (false, (irq_state s).1)
irq_state (spin_lock_irqsave ∷ s) = (true, (irq_state s).0)
irq_state (spin_unlock_irqrestore ∷ s) = ((irq_state s).1, (irq_state s).1)
irq_state (c ∷ s) = irq_state s

abbrev pub irqs_off : List TimeCall → Bool
irqs_off s = (irq_state s).0

-- The locks that are held, of both kinds.
abbrev pub held : List TimeCall → ℕ
held [] = 0
held (spin_lock ∷ s) = held s + 1
held (spin_lock_irqsave ∷ s) = held s + 1
held (rcu_read_lock ∷ s) = held s + 1
held (spin_unlock ∷ s) = held s - 1
held (spin_unlock_irqrestore ∷ s) = held s - 1
held (rcu_read_unlock ∷ s) = held s - 1
held (c ∷ s) = held s

-- Every check of the counters ran with the interrupts off.
abbrev pub IsGuarded : List TimeCall → Type 0
IsGuarded [] = Unit
IsGuarded (check_tsc_warp ∷ s) = (irqs_off s ≡ true) × IsGuarded s
IsGuarded (c ∷ s) = IsGuarded s

pub record IsQuiet (s : List TimeCall) : Type 0 where
  pub guarded : IsGuarded s
  pub irqs_on : irqs_off s ≡ false
  pub unlocked : held s ≡ 0

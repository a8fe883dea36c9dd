-- ===== src/Timing/Released.antt =====
-- The two loops that wait for another processor.
use formal_verification_of_x.Prelude.{
  ℕ, zero, suc, ◌<◌, ◌≡◌, ◌↔◌, refl, sym, ap, ◌∙◌, arith, Bool, true, false, Bool-cases,
  Option-cases, inl, inr, not, List, ◌∷◌, some,
}
use mathlib.Core.Option.{map, some-injective, none-ne-some}
use formal_verification_of_x.Timing.{
  TimeCall, cpu_relax, local_irq_disable, local_irq_enable, cpumask_clear_cpu, cpumask_andnot,
  check_tsc_warp, spin_lock, spin_unlock, TimePlatform, is_set, relax_while, tsc_check_slave,
  tsc_check_reliability,
}

-- `n` calls of cpu_relax.
abbrev pub relaxed : ℕ → List TimeCall → List TimeCall
relaxed zero s = s
relaxed (suc n) s = relaxed n (cpu_relax ∷ s)

-- The polls behind fewer than `n` calls of cpu_relax answer true, the next one false.
pub record IsWait (c : List TimeCall → Bool) (n : ℕ) (s : List TimeCall) : Type 0 where
  pub waits : (i : ℕ) → i < n → c (relaxed i s) ≡ true
  pub ends : c (relaxed n s) ≡ false

IsWait-suc :
    (c : List TimeCall → Bool) (n : ℕ) (s : List TimeCall)
    → c s ≡ true
    → IsWait c n (cpu_relax ∷ s)
    → IsWait c (suc n) s
IsWait-suc c n s e h = record { waits = waits_of; ends = h.ends }
  where
    waits_of : (i : ℕ) → i < suc n → c (relaxed i s) ≡ true
    waits_of zero lt = e
    waits_of (suc i) lt = h.waits i (omega arith)

IsWait-pred :
    (c : List TimeCall → Bool) (n : ℕ) (s : List TimeCall)
    → IsWait c (suc n) s
    → IsWait c n (cpu_relax ∷ s)
IsWait-pred c n s h = record { waits = λ i lt. h.waits (suc i) (omega arith); ends = h.ends }

-- With fuel above the calls that the loop needs it returns.
pub relax_while-waited :
    (c : List TimeCall → Bool) (n fuel : ℕ) (s : List TimeCall)
    → n < fuel
    → IsWait c n s
    → relax_while c fuel s ≡ some (relaxed n s)
unfolding relax_while
relax_while-waited c n zero s lt h = absurd (omega arith)
relax_while-waited c zero (suc fuel) s lt h = rw h.ends refl
relax_while-waited c (suc n) (suc fuel) s lt h =
    rw (h.waits 0 (omega arith))
      (relax_while-waited c n fuel (cpu_relax ∷ s) (omega arith) (IsWait-pred c n s h))

-- What it returns with, is such a wait.
waited-relax_while :
    (c : List TimeCall → Bool) (fuel : ℕ) (s t : List TimeCall)
    → relax_while c fuel s ≡ some t
    → (n : ℕ) × (n < fuel) × IsWait c n s × (t ≡ relaxed n s)
unfolding relax_while
waited-relax_while c zero s t e = absurd (none-ne-some t e)
waited-relax_while c (suc fuel) s t e = elim (Bool-cases (c s)) [
  | inl again ↦
      let (n, lt, h, found) = waited-relax_while c fuel (cpu_relax ∷ s) t (rw again at e) in
      (suc n, omega arith, IsWait-suc c n s again h, found)
  | inr over ↦ (
    0,
    omega arith,
    record { waits = λ i lt. absurd (omega arith); ends = over },
    sym (some-injective s t (rw over at e)),
  )
]

abbrev pub HasWaited :
    (List TimeCall → Bool)
    → ℕ
    → List TimeCall
    → (List TimeCall → List TimeCall)
    → List TimeCall
    → Type 0
HasWaited c fuel s finish t = (n : ℕ) × (n < fuel) × IsWait c n s × (t ≡ finish (relaxed n s))

map-relax_while_iff :
    (c : List TimeCall → Bool) (fuel : ℕ) (s t : List TimeCall)
    → (finish : List TimeCall → List TimeCall)
    → (map finish (relax_while c fuel s) ≡ some t) ↔ HasWaited c fuel s finish t
map-relax_while_iff c fuel s t finish = (
  (λ e. elim (Option-cases (relax_while c fuel s)) [
    | inl stuck ↦ absurd (none-ne-some t (sym (ap (map finish) stuck) ∙ e))
    | inr (w, found) ↦
        let (n, lt, h, waited) = waited-relax_while c fuel s w found in
        let ends : finish w ≡ t = some-injective (finish w) t (sym (ap (map finish) found) ∙ e) in
        (n, lt, h, sym ends ∙ ap finish waited)
  ]),
  (λ h.
      let (n, lt, w, found) = h in
      ap (map finish) (relax_while-waited c n fuel s lt w) ∙ ap some (sym found)),
)

-- tsc_check_slave and tsc_check_reliability return, with fuel above the calls of cpu_relax, exactly when
-- a poll of the mask ends the wait, and with these calls, the last one first: tsc_check_slave waits behind
-- local_irq_disable, one cpu_relax for each poll before the last, and then calls check_tsc_warp,
-- cpumask_clear_cpu and local_irq_enable; tsc_check_reliability calls spin_lock, cpumask_andnot,
-- local_irq_disable, check_tsc_warp and local_irq_enable, waits, and then calls spin_unlock.
pub tsc_check_iff :
    (platform : TimePlatform) (fuel : ℕ) (s slave reliability : List TimeCall)
    → ((tsc_check_slave platform fuel s ≡ some slave)
        ↔ HasWaited
            (λ u. not (is_set (platform.cpumask_test_cpu u)))
            fuel
            (local_irq_disable ∷ s)
            (λ u. local_irq_enable ∷ cpumask_clear_cpu ∷ check_tsc_warp ∷ u)
            slave)
      × ((tsc_check_reliability platform fuel s ≡ some reliability)
          ↔ HasWaited
              (λ u. not (is_set (platform.cpumask_empty u)))
              fuel
              (local_irq_enable ∷ check_tsc_warp ∷ local_irq_disable ∷ cpumask_andnot ∷ spin_lock
                ∷ s)
              (λ u. spin_unlock ∷ u)
              reliability)
unfolding tsc_check_slave tsc_check_reliability
tsc_check_iff platform fuel s slave reliability =
    (map-relax_while_iff _ _ _ _ _, map-relax_while_iff _ _ _ _ _)

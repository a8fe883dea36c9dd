-- ===== src/Monitor/Domctl/Frozen.antt =====
-- arch_monitor_domctl_event never turns the monitoring of an event on or off.
use formal_verification_of_x.Prelude.{
  ℕ, ◌≡◌, refl, sym, ap, ◌∙◌, ◌==◌, if◌then◌else◌, inl, inr, Bool, true, false, not, Option, none,
  some, Bool-cases, bit_and, ◌||◌,
}
use formal_verification_of_x.Prelude.Int.{ℤ, pos, negsuc, ltb_ℤ}
use formal_verification_of_x.Monitor.{MonitorState, MonitoredDomain, MonitorPlatform, truth, as_int}
use formal_verification_of_x.Monitor.Msr.{enable_msr-arch, disable_msr-arch}
use formal_verification_of_x.Monitor.Domctl.{
  MonitorOp, array_size, is_number, same, requested_status, with_mask, put_mask,
  write_ctrlreg_event, mov_to_msr_event, when_same, arch_monitor_domctl_event,
}

-- Which events are monitored, or for page faults are not: the flags of the domain, as conditions.
pub record Status : Type 0 where
  pub singlestep : Bool
  pub inguest_pagefault : Bool
  pub software_breakpoint : Bool
  pub debug_exception : Bool
  pub cpuid : Bool
  pub emul_unimplemented : Bool
  pub descriptor_access : Bool

abbrev pub status : MonitorState → Status
status m = record {
  singlestep = truth m.singlestep_enabled;
  inguest_pagefault = truth m.inguest_pagefault_disabled;
  software_breakpoint = truth m.software_breakpoint_enabled;
  debug_exception = truth m.debug_exception_enabled;
  cpuid = truth m.cpuid_enabled;
  emul_unimplemented = truth m.emul_unimplemented_enabled;
  descriptor_access = truth m.descriptor_access_enabled;
}

-- A result, if there is one, leaves the status as it was.
abbrev pub IsKept : MonitoredDomain → Option (MonitoredDomain × ℤ) → Type 0
IsKept d none = Unit
IsKept d (some r) = status r.0.arch ≡ status d.arch

pub record IsFrozen (d : MonitoredDomain) (r : Option (MonitoredDomain × ℤ)) : Type 0 where
  pub kept : IsKept d r

unchanged : (d : MonitoredDomain) (result : ℤ) → IsFrozen d (some (d, result))
unchanged d result = record { kept = refl }

same-eq : (a b : Bool) → same a b ≡ true → a ≡ b
same-eq true true h = refl
same-eq true false h = absurd (cc h)
same-eq false true h = absurd (cc h)
same-eq false false h = refl

truth-as_int : (b : Bool) → truth (as_int b) ≡ b
truth-as_int true = refl
truth-as_int false = refl

-- When the write of a flag that has the requested value already leaves the status, so does its case.
when_same-IsFrozen :
    (old requested : Bool) (d : MonitoredDomain) (arch : MonitorState)
    → (truth (as_int requested) ≡ old → status arch ≡ status d.arch)
    → IsFrozen d (some (when_same old requested d arch))
when_same-IsFrozen old requested d arch h = elim (Bool-cases (same old requested)) [
  | inr differs ↦ rw differs (unchanged d _)
  | inl agrees ↦
      rw agrees (record { kept = h (truth-as_int requested ∙ sym (same-eq old requested agrees)) })
]

-- Both branches of a conditional.
if-IsFrozen :
    (d : MonitoredDomain) (b : Bool) {x y : Option (MonitoredDomain × ℤ)}
    → IsFrozen d x
    → IsFrozen d y
    → IsFrozen d (if b then x else y)
if-IsFrozen d true h k = h
if-IsFrozen d false h k = k

with_mask-IsFrozen :
    (mop : MonitorOp) (mask : ℕ) (requested : Bool) (d : MonitoredDomain) (array : Option (ℕ → ℤ))
    → IsFrozen d (with_mask mop mask requested d array)
with_mask-IsFrozen mop mask requested d none = record { kept = tt }
with_mask-IsFrozen mop mask requested d (some array) = record { kept = refl }

write_ctrlreg-IsFrozen :
    (p : MonitorPlatform) (mop : MonitorOp) (requested : Bool) (d : MonitoredDomain)
    → IsFrozen d (write_ctrlreg_event p mop requested d)
unfolding write_ctrlreg_event
write_ctrlreg-IsFrozen p mop requested d =
    let cr = mop.mov_to_cr in
    let mask = p.monitor_ctrlreg_bitmask (truth cr.index) in
    let old_status = not (bit_and d.arch.write_ctrlreg_enabled mask == 0) in
    if-IsFrozen d (p.unlikely (not (ltb_ℤ cr.index (array_size d.arch.write_ctrlreg_mask))))
      (unchanged d (negsuc 21))
      (if-IsFrozen d (p.unlikely (truth cr.pad1 || truth cr.pad2)) (unchanged d (negsuc 21)) (
        if-IsFrozen d (not (same old_status requested)) (unchanged d (negsuc 16)) (
          with_mask-IsFrozen mop mask requested d (
            put_mask cr.index (if requested then cr.bitmask else pos 0)
              d.arch.write_ctrlreg_mask))))

mov_to_msr-IsFrozen :
    (p : MonitorPlatform) (mop : MonitorOp) (requested : Bool) (d : MonitoredDomain)
    → IsFrozen d (some (mov_to_msr_event p mop requested d))
unfolding mov_to_msr_event
mov_to_msr-IsFrozen p mop requested d =
    elim (Bool-cases (same (p.monitored_msr d mop.mov_to_msr.msr) requested)) [
      | inr differs ↦ rw differs (unchanged d _)
      | inl agrees ↦ elim (Bool-cases requested) [
        | inl on ↦
            rw (agrees, on)
              (record {
                kept =
                    ap status
                      (enable_msr-arch p d mop.mov_to_msr.msr (truth mop.mov_to_msr.onchangeonly));
              })
        | inr off ↦
            rw (agrees, off) (record { kept = ap status (disable_msr-arch p d mop.mov_to_msr.msr) })
      ]
    ]

descriptor_access-IsFrozen :
    (supported requested : Bool) (d : MonitoredDomain)
    → IsFrozen d (
        if not (same (truth d.arch.descriptor_access_enabled) requested)
        then some (d, negsuc 16)
        else if not supported
        then some (d, negsuc 94)
        else some (
          record d { arch = record d.arch { descriptor_access_enabled = as_int requested } },
          pos 0,
        ))
descriptor_access-IsFrozen supported requested d =
    elim (Bool-cases (same (truth d.arch.descriptor_access_enabled) requested)) [
      | inr differs ↦ rw differs (unchanged d _)
      | inl agrees ↦ rw agrees (
          if-IsFrozen d (not supported) (unchanged d (negsuc 94)) (
            let kept = truth-as_int requested ∙ sym (same-eq _ requested agrees) in
            record {
              kept = ap (λ (b : Bool). record (status d.arch) { descriptor_access = b }) kept;
            }))
    ]

-- Whatever the operation asks for: when arch_monitor_domctl_event returns, each of the flags that tell
-- whether an event is monitored is, as a condition, what it was. A request that would change one
-- is the one that is refused.
pub domctl_event-IsFrozen :
    (p : MonitorPlatform) (mop : MonitorOp) (d : MonitoredDomain)
    → IsFrozen d (arch_monitor_domctl_event p mop d)
unfolding arch_monitor_domctl_event
domctl_event-IsFrozen p mop d =
    let requested = requested_status mop in
    let flag = λ (old : Bool) (arch : MonitorState). when_same-IsFrozen old requested d arch in
    if-IsFrozen d (is_number mop.event 0) (write_ctrlreg-IsFrozen p mop requested d) (
      if-IsFrozen d (is_number mop.event 1) (mov_to_msr-IsFrozen p mop requested d) (
        if-IsFrozen d (is_number mop.event 2)
          (flag _ _ (ap (λ (b : Bool). record (status d.arch) { singlestep = b })))
          (if-IsFrozen d (is_number mop.event 11)
            (flag _ _ (ap (λ (b : Bool). record (status d.arch) { inguest_pagefault = b })))
            (if-IsFrozen d (is_number mop.event 9)
              (descriptor_access-IsFrozen p.set_descriptor_access_exiting requested d)
              (if-IsFrozen d (is_number mop.event 3)
                (flag _ _ (ap (λ (b : Bool). record (status d.arch) { software_breakpoint = b })))
                (if-IsFrozen d (is_number mop.event 5)
                  (flag _ _ (ap (λ (b : Bool). record (status d.arch) { debug_exception = b })))
                  (if-IsFrozen d (is_number mop.event 6)
                    (flag _ _ (ap (λ (b : Bool). record (status d.arch) { cpuid = b })))
                    (if-IsFrozen d (is_number mop.event 12)
                      (flag _ _
                        (ap (λ (b : Bool). record (status d.arch) { emul_unimplemented = b })))
                      (unchanged d (negsuc 94))))))))))

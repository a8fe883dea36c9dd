-- ===== src/Monitor/Domctl/Refused.antt =====
-- What arch_monitor_domctl_event answers to a request that would change something.
use formal_verification_of_x.Prelude.{
  ℕ, ◌≡◌, ◌≢◌, refl, sym, subst, arith, if◌then◌else◌, ◌⊎◌, inl, inr, Bool, true, false, not,
  Option, none, some, Bool-cases, ◌||◌,
}
use mathlib.Core.Option.{some-injective}
use formal_verification_of_x.Prelude.Int.{ℤ, pos, negsuc, ltb_ℤ}
use formal_verification_of_x.Monitor.{MonitorState, MonitoredDomain, MonitorPlatform, truth, as_int}
use formal_verification_of_x.Monitor.Domctl.{
  MonitorOp, is_number, same, requested_status, write_ctrlreg_event, when_same,
  arch_monitor_domctl_event,
}

-- The flag that an event turns, by the event's number.
abbrev pub flag_of : ℤ → MonitorState → Option ℤ
flag_of event m =
    if is_number event 0
    then none
    else if is_number event 1
    then none
    else if is_number event 2
    then some m.singlestep_enabled
    else if is_number event 11
    then some m.inguest_pagefault_disabled
    else if is_number event 9
    then some m.descriptor_access_enabled
    else if is_number event 3
    then some m.software_breakpoint_enabled
    else if is_number event 5
    then some m.debug_exception_enabled
    else if is_number event 6
    then some m.cpuid_enabled
    else if is_number event 12
    then some m.emul_unimplemented_enabled
    else none

-- The answer to an operation on a flag, if it is one.
abbrev pub IsAnswer : MonitoredDomain → Bool → ℤ → Option (MonitoredDomain × ℤ) → Type 0
IsAnswer d requested flag r =
    (truth flag ≢ requested → r ≡ some (d, negsuc 16))
    × (truth flag ≡ requested
        → (d' : MonitoredDomain) × ((r ≡ some (d', pos 0)) ⊎ (r ≡ some (d', negsuc 94))))

record Answered (d : MonitoredDomain) (requested : Bool) (o : Option ℤ)
    (r : Option (MonitoredDomain × ℤ)) : Type 0 where
  told : (flag : ℤ) → o ≡ some flag → IsAnswer d requested flag r

same-ne : (a b : Bool) → a ≢ b → same a b ≡ false
same-ne true true h = absurd (h refl)
same-ne true false h = refl
same-ne false true h = refl
same-ne false false h = absurd (h refl)

same_refl : (a : Bool) → same a a ≡ true
same_refl true = refl
same_refl false = refl

if-Answered :
    (d : MonitoredDomain) (requested b : Bool) {o o' : Option ℤ}
    {r r' : Option (MonitoredDomain × ℤ)}
    → Answered d requested o r
    → Answered d requested o' r'
    → Answered d requested (if b then o else o') (if b then r else r')
if-Answered d requested true h k = h
if-Answered d requested false h k = k

none-Answered :
    (d : MonitoredDomain) (requested : Bool) (r : Option (MonitoredDomain × ℤ))
    → Answered d requested none r
none-Answered d requested r = record { told = λ flag e. absurd (cc e) }

when_same-IsAnswer :
    (d : MonitoredDomain) (requested : Bool) (flag : ℤ) (arch : MonitorState)
    → IsAnswer d requested flag (some (when_same (truth flag) requested d arch))
when_same-IsAnswer d requested flag arch = (
  (λ ne. rw (same-ne (truth flag) requested ne) refl),
  λ e. (record d { arch = arch }, inl (rw (e, same_refl requested) refl)),
)

when_same-Answered :
    (d : MonitoredDomain) (requested : Bool) (flag : ℤ) (arch : MonitorState)
    → Answered d requested (some flag) (some (when_same (truth flag) requested d arch))
when_same-Answered d requested flag arch = record {
  told = λ flag' e.
      subst (λ (g : ℤ). IsAnswer d requested g (some (when_same (truth flag) requested d arch)))
        (some-injective _ _ e) (when_same-IsAnswer d requested flag arch);
}

descriptor_access-Answered :
    (d : MonitoredDomain) (supported requested : Bool)
    → Answered d requested (some d.arch.descriptor_access_enabled) (
        if not (same (truth d.arch.descriptor_access_enabled) requested)
        then some (d, negsuc 16)
        else if not supported
        then some (d, negsuc 94)
        else some (
          record d { arch = record d.arch { descriptor_access_enabled = as_int requested } },
          pos 0,
        ))
descriptor_access-Answered d supported requested = record {
  told = λ flag e.
      let same_flag : flag ≡ d.arch.descriptor_access_enabled = sym (some-injective _ _ e) in
      (
        (λ ne. rw (same-ne _ requested (λ q. ne (rw same_flag q))) refl),
        λ q. elim (Bool-cases supported) [
          | inl can ↦ (
            record d { arch = record d.arch { descriptor_access_enabled = as_int requested } },
            inl (rw (sym same_flag, q, same_refl requested, can) refl),
          )
          | inr cannot ↦ (d, inr (rw (sym same_flag, q, same_refl requested, cannot) refl))
        ],
      );
}

-- An operation on a flag always gets an answer: -EEXIST with nothing changed when the flag is not as
-- requested, so no request for a change is followed; and 0 when it already is as requested, or
-- -EOPNOTSUPP.
pub domctl_event-IsAnswer :
    (p : MonitorPlatform) (mop : MonitorOp) (d : MonitoredDomain) (flag : ℤ)
    → flag_of mop.event d.arch ≡ some flag
    → IsAnswer d (requested_status mop) flag (arch_monitor_domctl_event p mop d)
unfolding arch_monitor_domctl_event
domctl_event-IsAnswer p mop d = answered.told
  where
    requested : Bool
    requested = requested_status mop

    flag_case :
        (flag : ℤ) (arch : MonitorState)
        → Answered d requested (some flag) (some (when_same (truth flag) requested d arch))
    flag_case flag arch = when_same-Answered d requested flag arch

    answered : Answered d requested (flag_of mop.event d.arch) (arch_monitor_domctl_event p mop d)
    answered = if-Answered d requested (is_number mop.event 0) (none-Answered d requested _) (
        if-Answered d requested (is_number mop.event 1) (none-Answered d requested _) (
          if-Answered d requested (is_number mop.event 2) (flag_case _ _) (
            if-Answered d requested (is_number mop.event 11) (flag_case _ _) (
              if-Answered d requested (is_number mop.event 9)
                (descriptor_access-Answered d p.set_descriptor_access_exiting requested)
                (if-Answered d requested (is_number mop.event 3) (flag_case _ _) (
                  if-Answered d requested (is_number mop.event 5) (flag_case _ _) (
                    if-Answered d requested (is_number mop.event 6) (flag_case _ _) (
                      if-Answered d requested (is_number mop.event 12) (flag_case _ _)
                        (none-Answered d requested _)))))))))

no_room : (i : ℕ) → ltb_ℤ (pos i) (pos 0) ≡ false
no_room i = ground arith

below : (i : ℕ) → ltb_ℤ (negsuc i) (pos 0) ≡ true
below i = ground arith

ℤ-cases : (z : ℤ) → ((i : ℕ) × (z ≡ pos i)) ⊎ ((i : ℕ) × (z ≡ negsuc i))
ℤ-cases (pos i) = inl (i, refl)
ℤ-cases (negsuc i) = inr (i, refl)

not_done :
    (d d' : MonitoredDomain) (n : ℕ)
    → ◌≢◌ {A = Option (MonitoredDomain × ℤ)} (some (d, negsuc n)) (some (d', pos 0))
not_done d d' n e = cc e

refused_or_fault :
    (d d' : MonitoredDomain) (padded agrees : Bool)
    → ◌≢◌ {A = Option (MonitoredDomain × ℤ)}
        (if padded then some (d, negsuc 21) else if agrees then some (d, negsuc 16) else none)
        (some (d', pos 0))
refused_or_fault d d' true agrees e = not_done d d' 21 e
refused_or_fault d d' false true e = not_done d d' 16 e
refused_or_fault d d' false false e = cc e

-- Where `unlikely` gives back its argument: an operation on the control register of any index that is
-- not negative is refused with -EINVAL and changes nothing, since ARRAY_SIZE is 0; and none ever
-- ends with 0.
pub write_ctrlreg_refused :
    (p : MonitorPlatform) (mop : MonitorOp) (d : MonitoredDomain)
    → ((x : Bool) → p.unlikely x ≡ x)
    → mop.event ≡ pos 0
    → ((i : ℕ)
        → mop.mov_to_cr.index ≡ pos i
        → arch_monitor_domctl_event p mop d ≡ some (d, negsuc 21))
      × ((d' : MonitoredDomain) → arch_monitor_domctl_event p mop d ≢ some (d', pos 0))
unfolding arch_monitor_domctl_event write_ctrlreg_event
write_ctrlreg_refused p mop d honest zeroth = (
  (λ i h. rw (zeroth, h, honest (not (ltb_ℤ (pos i) (pos 0))), no_room i) refl),
  λ d'. elim (ℤ-cases mop.mov_to_cr.index) [
    | inl (i, h) ↦
        rw (zeroth, h, honest (not (ltb_ℤ (pos i) (pos 0))), no_room i) (not_done d d' 21)
    | inr (i, h) ↦
        rw (zeroth, h, honest (not (ltb_ℤ (negsuc i) (pos 0))), below i)
          (rw (honest (truth mop.mov_to_cr.pad1 || truth mop.mov_to_cr.pad2))
            (refused_or_fault d d' (truth mop.mov_to_cr.pad1 || truth mop.mov_to_cr.pad2) _))
  ],
)

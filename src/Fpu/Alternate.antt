-- ===== src/Fpu/Alternate.antt =====
-- Runs of lazy restores and saves of one vcpu.
use formal_verification_of_x.Prelude.{
  ℕ, suc, ◌+◌, ◌≡◌, refl, ap, arith, if◌then◌else◌, Bool, true, false, List, [], ◌∷◌, inl, inr,
  Bool-cases,
}
use formal_verification_of_x.Fpu.{
  FpuCall, xsave, xrstor, Fpu, is_set, fpu_xrstor, fpu_xsave, vcpu_restore_fpu_lazy,
  vcpu_save_fpu_if_used, vcpu_save_fpu, save_fpu_enable,
}

-- What is done for a vcpu.
pub data Switch : Type 0 where
  restore_lazy save save_and_enable : Switch

abbrev pub perform : Switch → Fpu → Fpu
perform restore_lazy s = vcpu_restore_fpu_lazy s
perform save s = vcpu_save_fpu true s
perform save_and_enable s = save_fpu_enable true s

pub run : List Switch → Fpu → Fpu
run [] s = s
run (op ∷ ops) s = run ops (perform op s)

-- The specification: whether the unit has the vcpu's state.
abbrev pub loaded_after : List Switch → Bool → Bool
loaded_after [] loaded = loaded
loaded_after (restore_lazy ∷ ops) loaded = loaded_after ops true
loaded_after (save ∷ ops) loaded = loaded_after ops false
loaded_after (save_and_enable ∷ ops) loaded = loaded_after ops false

-- The numbers of restores and of saves among the calls.
unfoldable pub restores : List FpuCall → ℕ
restores [] = 0
restores (xrstor mask ∷ calls) = suc (restores calls)
restores (_ ∷ calls) = restores calls

unfoldable pub saves : List FpuCall → ℕ
saves [] = 0
saves (xsave mask ∷ calls) = suc (saves calls)
saves (_ ∷ calls) = saves calls

-- One restore more than saves while the unit has the state, and else as many.
abbrev pub IsBalanced : Bool → Fpu → Type 0
IsBalanced loaded s = restores s.calls ≡ saves s.calls + (if loaded then 1 else 0)

record IsSwitched (loaded : Bool) (s : Fpu) : Type 0 where
  flag : is_set s.vcpu.fpu_dirtied ≡ loaded
  lazy_only : s.vcpu.nonlazy_xstate_used ≡ 0
  balanced : IsBalanced loaded s

IsSwitched-restore :
    (loaded : Bool) (s : Fpu) → IsSwitched loaded s → IsSwitched true (vcpu_restore_fpu_lazy s)
unfolding vcpu_restore_fpu_lazy fpu_xrstor restores saves
IsSwitched-restore true s h =
    rw h.flag (record { flag = h.flag; lazy_only = h.lazy_only; balanced = h.balanced })
IsSwitched-restore false s h =
    rw h.flag (record {
      flag = refl;
      lazy_only = h.lazy_only;
      balanced = let b = h.balanced in omega arith;
    })

IsSwitched-save_if_used :
    (loaded : Bool) (s : Fpu)
    → IsSwitched loaded s
    → IsSwitched false (vcpu_save_fpu_if_used true s).0
unfolding vcpu_save_fpu_if_used fpu_xsave restores saves
IsSwitched-save_if_used true s h =
    rw h.flag (record {
      flag = refl;
      lazy_only = h.lazy_only;
      balanced = let b = h.balanced in omega arith;
    })
IsSwitched-save_if_used false s h =
    let none_used : is_set s.vcpu.nonlazy_xstate_used ≡ false = ap is_set h.lazy_only in
    rw (h.flag, none_used) h

IsSwitched-save :
    (loaded : Bool) (s : Fpu) → IsSwitched loaded s → IsSwitched false (vcpu_save_fpu true s)
unfolding vcpu_save_fpu restores saves
IsSwitched-save loaded s h =
    let k = IsSwitched-save_if_used loaded s h in
    record { flag = k.flag; lazy_only = k.lazy_only; balanced = k.balanced }

IsSwitched-enable :
    (loaded : Bool) (s : Fpu) → IsSwitched loaded s → IsSwitched false (save_fpu_enable true s)
unfolding save_fpu_enable restores saves
IsSwitched-enable loaded s h =
    let k = IsSwitched-save_if_used loaded s h in
    elim (Bool-cases (vcpu_save_fpu_if_used true s).1) [
      | inl e ↦ rw e k
      | inr e ↦ rw e (record { flag = k.flag; lazy_only = k.lazy_only; balanced = k.balanced })
    ]

run-IsSwitched :
    (ops : List Switch) (loaded : Bool) (s : Fpu)
    → IsSwitched loaded s
    → IsSwitched (loaded_after ops loaded) (run ops s)
unfolding run
run-IsSwitched [] loaded s h = h
run-IsSwitched (restore_lazy ∷ ops) loaded s h =
    run-IsSwitched ops true _ (IsSwitched-restore loaded s h)
run-IsSwitched (save ∷ ops) loaded s h = run-IsSwitched ops false _ (IsSwitched-save loaded s h)
run-IsSwitched (save_and_enable ∷ ops) loaded s h =
    run-IsSwitched ops false _ (IsSwitched-enable loaded s h)

-- For a vcpu that uses no non-lazy state, on a processor with xsave: behind any run of
-- vcpu_restore_fpu_lazy, vcpu_save_fpu and save_fpu_enable, fpu_dirtied is set exactly where the
-- last of them was a restore, or as before without any; and there was one restore more than saves
-- where it is set and as many where it is not, if there were before.
pub run-IsBalanced :
    (ops : List Switch) (s : Fpu)
    → s.vcpu.nonlazy_xstate_used ≡ 0
    → IsBalanced (is_set s.vcpu.fpu_dirtied) s
    → (is_set (run ops s).vcpu.fpu_dirtied ≡ loaded_after ops (is_set s.vcpu.fpu_dirtied))
      × IsBalanced (is_set (run ops s).vcpu.fpu_dirtied) (run ops s)
run-IsBalanced ops s lazy_only balanced =
    let h =
      run-IsSwitched ops (is_set s.vcpu.fpu_dirtied) s
        (record { flag = refl; lazy_only = lazy_only; balanced = balanced }) in
    (h.flag, rw h.flag h.balanced)

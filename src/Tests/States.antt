-- ===== src/Tests/States.antt =====
-- i387_verified.c on a vcpu that has not used the floating-point unit.
use formal_verification_of_x.Prelude.{◌+◌, ◌≡◌, refl, false, List, [], ◌∷◌}
use formal_verification_of_x.Fpu.{FpuVcpu, Fpu, is_set}
use formal_verification_of_x.Fpu.Alternate.{
  Switch, restore_lazy, save, save_and_enable, run, loaded_after, restores, saves, IsBalanced,
  run-IsBalanced,
}

abbrev unused : FpuVcpu
unused = record {
  xsave_area = 1;
  xcr0_accum = 6;
  xcr0 = 0;
  nonlazy_xstate_used = 0;
  fully_eager_fpu = 0;
  fpu_initialised = 0;
  fpu_dirtied = 0;
  fpu_ctxt = 0;
}

abbrev idle : Fpu
idle = record { vcpu = unused; calls = [] }

abbrev switches : List Switch
switches = restore_lazy ∷ restore_lazy ∷ save ∷ save_and_enable ∷ restore_lazy ∷ []

none_counted : restores [] ≡ saves [] + 0
unfolding restores saves
none_counted = refl

run-IsBalanced_example :
    (is_set (run switches idle).vcpu.fpu_dirtied ≡ loaded_after switches false)
    × IsBalanced (is_set (run switches idle).vcpu.fpu_dirtied) (run switches idle)
run-IsBalanced_example = run-IsBalanced switches idle refl none_counted

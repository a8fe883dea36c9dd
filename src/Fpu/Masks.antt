-- ===== src/Fpu/Masks.antt =====
-- The components of the state that a save and a restore are about.
use formal_verification_of_x.Prelude.{
  ◌≡◌, ◌≢◌, ◌↔◌, arith, ◌==◌, true, false, ◌∷◌, bit_or, ap, inl, inr, Bool-cases,
}
use formal_verification_of_x.Fpu.{
  FpuVcpu, clts, stts, set_xcr0, xsave, xrstor, Fpu, is_set, fpu_xrstor, vcpu_xsave_mask, fpu_xsave,
  vcpu_restore_fpu_lazy, vcpu_save_fpu_if_used, vcpu_save_fpu,
}

-- For every vcpu, the mask of a save is 0, no component, exactly where the vcpu has dirtied the unit and
-- uses no non-lazy state. There, and only there, ASSERT(mask) of fpu_xsave does not hold.
pub vcpu_xsave_mask-zero_iff :
    (v : FpuVcpu) → (vcpu_xsave_mask v ≡ 0) ↔ ((v.fpu_dirtied ≢ 0) × (v.nonlazy_xstate_used ≡ 0))
unfolding vcpu_xsave_mask
vcpu_xsave_mask-zero_iff v = (
  λ e. (ground arith, ground arith),
  λ h. let dirtied = h.0 in let lazy_only = h.1 in ground arith,
)

-- A lazy restore and then a save of a vcpu that had not dirtied the unit and uses no non-lazy state: the
-- one calls xrstor and the other xsave, both with the mask 0, so that neither touches any component.
pub save-restore_of_nothing :
    (s : Fpu)
    → s.vcpu.fpu_dirtied ≡ 0
    → s.vcpu.nonlazy_xstate_used ≡ 0
    → (vcpu_save_fpu true (vcpu_restore_fpu_lazy s)).calls
      ≡ stts
        ∷ set_xcr0 1
        ∷ xsave 0
        ∷ set_xcr0 (bit_or s.vcpu.xcr0_accum 1)
        ∷ clts
        ∷ set_xcr0 1
        ∷ xrstor 0
        ∷ set_xcr0 1
        ∷ clts
        ∷ s.calls
unfolding vcpu_xsave_mask vcpu_restore_fpu_lazy vcpu_save_fpu vcpu_save_fpu_if_used fpu_xsave
    fpu_xrstor
save-restore_of_nothing s clean lazy_only =
    let c : is_set s.vcpu.fpu_dirtied ≡ false = ap is_set clean in
    let l : is_set s.vcpu.nonlazy_xstate_used ≡ false = ap is_set lazy_only in
    rw (c, l) (elim (Bool-cases (s.vcpu.xcr0 == 0)) [ inl e ↦ rw e | inr e ↦ rw e ])

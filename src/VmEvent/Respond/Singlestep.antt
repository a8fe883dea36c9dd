-- ===== src/VmEvent/Respond/Singlestep.antt =====
-- When a response turns single-stepping round.
use formal_verification_of_x.Prelude.{
  ◌≡◌, refl, if◌then◌else◌, inl, inr, Bool, true, false, not, ◌&&◌, none, some, Bool-cases,
}
use formal_verification_of_x.VmEvent.{Vcpu, Domain, Response}
use formal_verification_of_x.VmEvent.Respond.{
  has_flag, is_hvm_domain, IsSinglestepSupported, hvm_is_singlestep_supported,
  hvm_toggle_singlestep, vm_event_toggle_singlestep,
}

not-not : (b : Bool) → not (not b) ≡ b
not-not true = refl
not-not false = refl

-- vm_event_toggle_singlestep turns single_step round, and nothing else, exactly when the response has
-- the flag, the domain is an HVM one and hvm_funcs has the function. What that function would
-- answer does not matter: an answer of false lets the toggle through as well.
pub toggle_singlestep_ignores_answer :
    (answer : Bool) (d : Domain) (v : Vcpu) (rsp : Response)
    → (vm_event_toggle_singlestep (some answer) d v rsp ≡ (
        if has_flag rsp 4 && is_hvm_domain d
        then record v { single_step = not v.single_step }
        else v))
      × (vm_event_toggle_singlestep none d v rsp ≡ v)
unfolding vm_event_toggle_singlestep hvm_toggle_singlestep
toggle_singlestep_ignores_answer answer d v rsp = elim (Bool-cases (has_flag rsp 4)) [
  | inr off ↦ rw off (refl, refl)
  | inl on ↦ elim (Bool-cases (is_hvm_domain d)) [
    | inr pv ↦ rw (on, pv) (refl, refl)
    | inl hvm ↦ rw (on, hvm) (refl, refl)
  ]
]

-- The same response handled twice leaves the virtual CPU as it was.
pub toggle_singlestep_twice :
    (funcs : IsSinglestepSupported) (d : Domain) (v : Vcpu) (rsp : Response)
    → vm_event_toggle_singlestep funcs d (vm_event_toggle_singlestep funcs d v rsp) rsp ≡ v
unfolding vm_event_toggle_singlestep hvm_toggle_singlestep
toggle_singlestep_twice funcs d v rsp = elim (Bool-cases (has_flag rsp 4)) [
  | inr off ↦ rw off refl
  | inl on ↦ elim (Bool-cases (is_hvm_domain d)) [
    | inr pv ↦ rw (on, pv) refl
    | inl hvm ↦ elim (Bool-cases (hvm_is_singlestep_supported funcs)) [
      | inr unset ↦ rw (on, hvm, unset) refl
      | inl is_set ↦ rw (on, hvm, is_set, not-not v.single_step) refl
    ]
  ]
]

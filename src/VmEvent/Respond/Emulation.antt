-- ===== src/VmEvent/Respond/Emulation.antt =====
-- Which responses arm the emulation of an instruction.
use formal_verification_of_x.Prelude.{
  ℕ, ◌≡◌, refl, ◌==◌, if◌then◌else◌, inl, inr, Bool, ◌&&◌, ◌||◌, Option, none, some, Bool-cases,
  ==_iff,
}
use formal_verification_of_x.VmEvent.{ArchVmEvent, Vcpu, Response}
use formal_verification_of_x.VmEvent.Respond.{has_flag, vm_event_emulate_check}

-- The responses whose flags are taken over: an answer to a software breakpoint with instruction data,
-- and any answer to a descriptor access.
abbrev pub is_armed : Response → Bool
is_armed rsp = has_flag rsp 2 && ((rsp.reason == 6 && has_flag rsp 9) || rsp.reason == 13)

-- The emulate flags that a response leaves where there were `before`.
abbrev pub flags_left : Response → ℕ → ℕ
flags_left rsp before = if is_armed rsp then rsp.flags else if has_flag rsp 2 then before else 0

-- The emulate flags of a virtual CPU with a block.
abbrev pub emulate_flags_of : Option Vcpu → Option ℕ
emulate_flags_of none = none
emulate_flags_of (some v) = elim v.vm_event [ none ↦ none | some e ↦ some e.emulate_flags ]

-- On a virtual CPU with a block, vm_event_emulate_check always returns. Afterwards the emulate flags
-- are the response's, if it answers a software breakpoint with instruction data or a descriptor
-- access; else 0, if it does not ask for emulation; else what they were, as for every answer to a
-- memory access.
pub emulate_check-flags_left :
    (v : Vcpu) (rsp : Response) (e : ArchVmEvent)
    → v.vm_event ≡ some e
    → emulate_flags_of (vm_event_emulate_check v rsp) ≡ some (flags_left rsp e.emulate_flags)
unfolding vm_event_emulate_check
emulate_check-flags_left v rsp e has = elim (Bool-cases (has_flag rsp 2)) [
  | inr off ↦ rw (has, off) refl
  | inl on ↦ elim (Bool-cases (rsp.reason == 1)) [
    | inl access ↦
        let one : rsp.reason ≡ 1 = (==_iff rsp.reason 1).0 access in rw (on, one, has) refl
    | inr other ↦ elim (Bool-cases (rsp.reason == 6)) [
      | inl breakpoint ↦
          let six : rsp.reason ≡ 6 = (==_iff rsp.reason 6).0 breakpoint in
          elim (Bool-cases (has_flag rsp 9)) [
            | inl given ↦ rw (on, six, given, has) refl
            | inr no_data ↦ rw (on, six, no_data, has) refl
          ]
      | inr no_breakpoint ↦ elim (Bool-cases (rsp.reason == 13)) [
        | inl descriptor ↦ elim (Bool-cases (has_flag rsp 5)) [
          | inl with_data ↦ rw (on, other, no_breakpoint, descriptor, with_data, has) refl
          | inr without ↦ rw (on, other, no_breakpoint, descriptor, without, has) refl
        ]
        | inr rest ↦ rw (on, other, no_breakpoint, rest, has) refl
      ]
    ]
  ]
]

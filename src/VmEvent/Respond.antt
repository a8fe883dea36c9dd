-- ===== src/VmEvent/Respond.antt =====
-- What the handling of a response to a VM event does to the virtual CPU that waits for it.
use formal_verification_of_x.Prelude.{
  ℕ, zero, suc, ◌^◌, ◌≡◌, ◌≢◌, refl, sym, arith, ◌==◌, if◌then◌else◌, ◌⊎◌, inl, inr, Bool, true,
  false, not, Option, none, some, bit_and,
}
use formal_verification_of_x.Prelude.Int.{ℤ, pos, negsuc}
use formal_verification_of_x.VmEvent.{
  Registers, DoWrite, Emul, read, insn, ArchVmEvent, Vcpu, GuestType, guest_type_pv, guest_type_hvm,
  Domain, Response, with_vm_event,
}
pub mod Denial
pub mod Emulation
pub mod Singlestep

-- `rsp->flags & (1 << k)`, as a condition.
abbrev pub has_flag : Response → ℕ → Bool
has_flag rsp k = not (bit_and rsp.flags (2 ^ k) == 0)

abbrev pub is_hvm_domain : Domain → Bool
is_hvm_domain d = elim d.guest_type [ guest_type_pv ↦ false | guest_type_hvm ↦ true ]

-- The member `is_singlestep_supported` of hvm_funcs: NULL, or a function, given by what it answers.
abbrev pub IsSinglestepSupported : Type 0
IsSinglestepSupported = Option Bool

-- hvm_is_singlestep_supported returns the pointer itself as its Boolean, and calls nothing.
abbrev pub hvm_is_singlestep_supported : IsSinglestepSupported → Bool
hvm_is_singlestep_supported none = false
hvm_is_singlestep_supported (some answer) = true

pub hvm_toggle_singlestep : IsSinglestepSupported → Vcpu → Vcpu
hvm_toggle_singlestep funcs v =
    if not (hvm_is_singlestep_supported funcs)
    then v
    else record v { single_step = not v.single_step }

pub vm_event_toggle_singlestep : IsSinglestepSupported → Domain → Vcpu → Response → Vcpu
vm_event_toggle_singlestep funcs d v rsp =
    if not (has_flag rsp 4)
    then v
    else if not (is_hvm_domain d)
    then v
    else hvm_toggle_singlestep funcs v

abbrev pub is_unpaused : ℤ → Bool
is_unpaused (pos n) = n == 0
is_unpaused (negsuc n) = false

-- The two switches of vm_event_register_write_resume.
pub drop_write : ℕ → ℕ → DoWrite → DoWrite
drop_write reason index w =
    if reason == 5
    then record w { msr = 0 }
    else if reason == 4
    then if index == 0
      then record w { cr0 = 0 }
      else if index == 1
      then record w { cr3 = 0 }
      else if index == 2
      then record w { cr4 = 0 }
      else w
    else w

-- A NULL `vm_event` faults as soon as `w` is taken from it.
pub vm_event_register_write_resume : Vcpu → Response → Option Vcpu
vm_event_register_write_resume v rsp =
    if not (has_flag rsp 6)
    then some v
    else if is_unpaused v.vm_event_pause_count
    then some v
    else with_vm_event v
        (λ e. record e { do_write = drop_write rsp.reason rsp.write_ctrlreg_index e.do_write })
        v.vm_event

pub vm_event_set_registers : Vcpu → Response → Option Vcpu
vm_event_set_registers v rsp =
    with_vm_event v (λ e. record e { gprs = rsp.regs; set_gprs = true }) v.vm_event

pub vm_event_monitor_next_interrupt : Vcpu → Vcpu
vm_event_monitor_next_interrupt v = record v { next_interrupt_enabled = true }

pub vm_event_sync_event : Vcpu → Bool → Option Vcpu
vm_event_sync_event v value = with_vm_event v (λ e. record e { sync_event = value }) v.vm_event

-- "Not supported on ARM", in a file for x86.
abbrev pub p2m_mem_access_emulate_check : Vcpu → Response → Bool
p2m_mem_access_emulate_check v rsp = false

-- `v->arch.vm_event->emul.read = rsp->data.emul.read` under its flag.
abbrev pub read_data : Response → ArchVmEvent → ArchVmEvent
read_data rsp e = if has_flag rsp 5 then record e { emul = read } else e

abbrev pub take_flags : Response → ArchVmEvent → ArchVmEvent
take_flags rsp e = record e { emulate_flags = rsp.flags }

pub vm_event_emulate_check : Vcpu → Response → Option Vcpu
vm_event_emulate_check v rsp =
    if not (has_flag rsp 2)
    then with_vm_event v (λ e. record e { emulate_flags = 0 }) v.vm_event
    else if rsp.reason == 1
    then if p2m_mem_access_emulate_check v rsp
      then with_vm_event v (λ e. take_flags rsp (read_data rsp e)) v.vm_event
      else some v
    else if rsp.reason == 6
    then if has_flag rsp 9
      then with_vm_event v (λ e. take_flags rsp (record e { emul = insn })) v.vm_event
      else some v
    else if rsp.reason == 13
    then with_vm_event v (λ e. take_flags rsp (read_data rsp e)) v.vm_event
    else some v

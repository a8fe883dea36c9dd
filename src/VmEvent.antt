-- ===== src/VmEvent.antt =====
-- vm_event_verified.c: the state of a virtual CPU that the handling of VM events keeps, the events'
-- responses, and the parts of the domain they are about.
use formal_verification_of_x.Prelude.{ℕ, Bool, List, Option, none, some}
use formal_verification_of_x.Prelude.Int.{ℤ}
pub mod Lifetime
pub mod Respond
pub mod Segment

-- `struct vm_event_x86_selector_reg`: 20 bits of limit and 12 of access rights.
pub record Selector : Type 0 where
  pub limit : ℕ
  pub ar : ℕ

-- `struct vm_event_regs_x86`.
pub record Registers : Type 0 where
  pub rax : ℕ
  pub rcx : ℕ
  pub rdx : ℕ
  pub rbx : ℕ
  pub rsp : ℕ
  pub rbp : ℕ
  pub rsi : ℕ
  pub rdi : ℕ
  pub r8 : ℕ
  pub r9 : ℕ
  pub r10 : ℕ
  pub r11 : ℕ
  pub r12 : ℕ
  pub r13 : ℕ
  pub r14 : ℕ
  pub r15 : ℕ
  pub rflags : ℕ
  pub dr6 : ℕ
  pub dr7 : ℕ
  pub rip : ℕ
  pub cr0 : ℕ
  pub cr2 : ℕ
  pub cr3 : ℕ
  pub cr4 : ℕ
  pub sysenter_cs : ℕ
  pub sysenter_esp : ℕ
  pub sysenter_eip : ℕ
  pub msr_efer : ℕ
  pub msr_star : ℕ
  pub msr_lstar : ℕ
  pub cs_base : ℕ
  pub ss_base : ℕ
  pub ds_base : ℕ
  pub es_base : ℕ
  pub fs_base : ℕ
  pub gs_base : ℕ
  pub cs : Selector
  pub ss : Selector
  pub ds : Selector
  pub es : Selector
  pub fs : Selector
  pub gs : Selector
  pub shadow_gs : ℕ
  pub cs_sel : ℕ
  pub ss_sel : ℕ
  pub ds_sel : ℕ
  pub es_sel : ℕ
  pub fs_sel : ℕ
  pub gs_sel : ℕ

-- `do_write` of `struct monitor_write_data`.
pub record DoWrite : Type 0 where
  pub msr : ℕ
  pub cr0 : ℕ
  pub cr3 : ℕ
  pub cr4 : ℕ

-- The union `emul`. Both of its members are empty structures in that file: all there is to an
-- assignment is which member it is to.
pub data Emul : Type 0 where
  untouched read insn : Emul

-- `struct arch_vm_event`.
pub record ArchVmEvent : Type 0 where
  pub emulate_flags : ℕ
  pub emul : Emul
  pub gprs : Registers
  pub set_gprs : Bool
  pub sync_event : Bool
  pub do_write : DoWrite

-- `struct vcpu`: the fields of it that are used. `vm_event` is NULL or points to a block that no other
-- virtual CPU has.
pub record Vcpu : Type 0 where
  pub vm_event : Option ArchVmEvent
  pub next_interrupt_enabled : Bool
  pub single_step : Bool
  pub vm_event_pause_count : ℤ

pub data GuestType : Type 0 where
  guest_type_pv guest_type_hvm : GuestType

-- `struct domain`, with the list that starts at `vcpu[0]`; it is empty where that or `vcpu` is NULL.
pub record Domain : Type 0 where
  pub vcpus : List Vcpu
  pub guest_type : GuestType
  pub mem_access_emulate_each_rep : Bool

-- `vm_event_response_t`.
pub record Response : Type 0 where
  pub flags : ℕ
  pub reason : ℕ
  pub write_ctrlreg_index : ℕ
  pub regs : Registers

-- A write through `v->arch.vm_event`, which faults where that is NULL.
abbrev pub with_vm_event : Vcpu → (ArchVmEvent → ArchVmEvent) → Option ArchVmEvent → Option Vcpu
with_vm_event v change none = none
with_vm_event v change (some e) = some (record v { vm_event = some (change e) })

-- ===== src/Tests/Events.antt =====
-- vm_event_verified.c on a domain of two virtual CPUs, one of which has its block.
use formal_verification_of_x.Prelude.{
  ℕ, ◌≡◌, ◌≢◌, refl, ◌==◌, if◌then◌else◌, true, false, Option, none, some, [], ◌∷◌,
}
use formal_verification_of_x.Prelude.Int.{pos}
use formal_verification_of_x.VmEvent.{
  Registers, DoWrite, untouched, ArchVmEvent, Vcpu, guest_type_hvm, Domain, Response,
}
use formal_verification_of_x.VmEvent.Lifetime.{
  vm_event_init_domain, lacking, IsInit, IsGrown, vm_event_init_domain-IsInit,
}
use formal_verification_of_x.VmEvent.Respond.{
  has_flag, vm_event_register_write_resume, vm_event_emulate_check,
}
use formal_verification_of_x.VmEvent.Respond.Denial.{
  Register, pending, is_about, write_resume_drops,
}
use formal_verification_of_x.VmEvent.Respond.Emulation.{
  flags_left, emulate_flags_of, emulate_check-flags_left,
}
use formal_verification_of_x.VmEvent.Segment.{
  X86Segment, cs, SegmentRegister, hvm_get_segment_register,
}
use formal_verification_of_x.VmEvent.Segment.Cooked.{
  IsSameSegment, IsCooked, IsFields, is_system_present, hvm_get_segment_register-IsCooked,
}

abbrev no_registers : Registers
no_registers = record {
  rax = 0;
  rcx = 0;
  rdx = 0;
  rbx = 0;
  rsp = 0;
  rbp = 0;
  rsi = 0;
  rdi = 0;
  r8 = 0;
  r9 = 0;
  r10 = 0;
  r11 = 0;
  r12 = 0;
  r13 = 0;
  r14 = 0;
  r15 = 0;
  rflags = 0;
  dr6 = 0;
  dr7 = 0;
  rip = 0;
  cr0 = 0;
  cr2 = 0;
  cr3 = 0;
  cr4 = 0;
  sysenter_cs = 0;
  sysenter_esp = 0;
  sysenter_eip = 0;
  msr_efer = 0;
  msr_star = 0;
  msr_lstar = 0;
  cs_base = 0;
  ss_base = 0;
  ds_base = 0;
  es_base = 0;
  fs_base = 0;
  gs_base = 0;
  cs = record { limit = 0; ar = 0 };
  ss = record { limit = 0; ar = 0 };
  ds = record { limit = 0; ar = 0 };
  es = record { limit = 0; ar = 0 };
  fs = record { limit = 0; ar = 0 };
  gs = record { limit = 0; ar = 0 };
  shadow_gs = 0;
  cs_sel = 0;
  ss_sel = 0;
  ds_sel = 0;
  es_sel = 0;
  fs_sel = 0;
  gs_sel = 0;
}

abbrev writes : DoWrite
writes = record { msr = 1; cr0 = 2; cr3 = 3; cr4 = 4 }

abbrev block : ArchVmEvent
block = record {
  emulate_flags = 9;
  emul = untouched;
  gprs = no_registers;
  set_gprs = false;
  sync_event = true;
  do_write = writes;
}

abbrev waiting : Vcpu
waiting = record {
  vm_event = some block;
  next_interrupt_enabled = false;
  single_step = false;
  vm_event_pause_count = pos 1;
}

abbrev guest : Domain
guest = record {
  vcpus = waiting ∷ record waiting { vm_event = none } ∷ [];
  guest_type = guest_type_hvm;
  mem_access_emulate_each_rep = true;
}

-- A malloc that answers at its first call only.
abbrev malloc_once : ℕ → Option ArchVmEvent
malloc_once k = if k == 0 then some block else none

-- A denial of a write to %cr3, and answers with the flags of the other handlers.
abbrev denial : Response
denial = record { flags = 64; reason = 4; write_ctrlreg_index = 1; regs = no_registers }

abbrev emulating : Response
emulating = record { flags = 516; reason = 6; write_ctrlreg_index = 0; regs = no_registers }

vm_event_init_domain-IsInit_example :
    IsInit malloc_once 0
      (lacking guest.vcpus)
      ((vm_event_init_domain malloc_once guest).0.vcpus, (vm_event_init_domain malloc_once guest).1)
    × IsGrown guest.vcpus (vm_event_init_domain malloc_once guest).0.vcpus
vm_event_init_domain-IsInit_example = vm_event_init_domain-IsInit malloc_once guest

write_resume_drops_example :
    (has_flag denial 6 ≡ false → vm_event_register_write_resume waiting denial ≡ some waiting)
    × (waiting.vm_event_pause_count ≡ pos 0
        → vm_event_register_write_resume waiting denial ≡ some waiting)
    × ((e : ArchVmEvent)
        → has_flag denial 6 ≡ true
        → waiting.vm_event_pause_count ≢ pos 0
        → waiting.vm_event ≡ some e
        → (w : DoWrite) × (vm_event_register_write_resume waiting denial
            ≡ some (record waiting { vm_event = some (record e { do_write = w }) }))
          × ((r : Register)
              → pending r w ≡ (if is_about r denial then 0 else pending r e.do_write)))
write_resume_drops_example = write_resume_drops waiting denial

emulate_check-flags_left_example :
    emulate_flags_of (vm_event_emulate_check waiting emulating) ≡ some (flags_left emulating 9)
emulate_check-flags_left_example = emulate_check-flags_left waiting emulating block refl

-- A flat code segment of 4 GB.
abbrev flat : SegmentRegister
flat = record {
  sel = 8;
  type = 10;
  s = 0;
  dpl = 0;
  p = 1;
  avl = 0;
  l = 0;
  db = 1;
  g = 0;
  pad = 0;
  limit = 0xffffffff;
  base = 0;
}

abbrev hardware : X86Segment → SegmentRegister → SegmentRegister
hardware seg reg = flat

hvm_get_segment_register-IsCooked_example :
    IsSameSegment flat (hvm_get_segment_register hardware cs flat)
    × (is_system_present cs ≡ true → (hvm_get_segment_register hardware cs flat).p ≡ 1)
    × ((hvm_get_segment_register hardware cs flat).p ≢ 0
        → IsCooked cs (hvm_get_segment_register hardware cs flat))
    × IsFields cs flat (hvm_get_segment_register hardware cs flat)
hvm_get_segment_register-IsCooked_example = hvm_get_segment_register-IsCooked hardware cs flat

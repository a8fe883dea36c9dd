-- ===== src/Monitor/Domctl.antt =====
-- arch_monitor_domctl_event, which turns the monitoring of one kind of event on or off.
use formal_verification_of_x.Prelude.{
  ℕ, ◌-◌, ◌^◌, ◌==◌, ltb, if◌then◌else◌, Bool, true, false, not, ◌||◌, Option, none, some, bit_and,
  bit_or,
}
use formal_verification_of_x.Prelude.Int.{ℤ, pos, negsuc, pos_part, ltb_ℤ}
use formal_verification_of_x.Monitor.{MonitorState, MonitoredDomain, MonitorPlatform, truth, as_int}
use formal_verification_of_x.Monitor.Msr.{monitor_enable_msr, monitor_disable_msr}
pub mod Frozen
pub mod Refused

-- `struct mov_to_cr_`.
pub record MovToCr : Type 0 where
  pub pad1 : ℤ
  pub pad2 : ℤ
  pub index : ℤ
  pub sync : ℕ
  pub onchangeonly : ℕ
  pub bitmask : ℤ

-- `struct mov_to_msr_`.
pub record MovToMsr : Type 0 where
  pub msr : ℕ
  pub onchangeonly : ℤ

-- `struct xen_domctl_monitor_op`: the fields of both of its declarations, `debug_exception_sync` being
-- `u.debug_exception.sync`.
pub record MonitorOp : Type 0 where
  pub op : ℤ
  pub event : ℤ
  pub mov_to_cr : MovToCr
  pub mov_to_msr : MovToMsr
  pub debug_exception_sync : ℤ

-- ARRAY_SIZE returns 0 for every array.
abbrev pub array_size : (ℕ → ℤ) → ℤ
array_size array = pos 0

abbrev pub is_number : ℤ → ℕ → Bool
is_number (pos n) m = n == m
is_number (negsuc n) m = false

abbrev pub same : Bool → Bool → Bool
same true b = b
same false b = not b

-- `XEN_DOMCTL_MONITOR_OP_ENABLE == mop->op`.
abbrev pub requested_status : MonitorOp → Bool
requested_status mop = is_number mop.op 13

-- `x |= mask` or `x &= ~mask`.
abbrev pub put_bits : Bool → ℕ → ℕ → ℕ
put_bits true mask x = bit_or x mask
put_bits false mask x = bit_and x (2 ^ 32 - 1 - mask)

-- `write_ctrlreg_mask[index] = value`; there are 25 entries.
abbrev pub put_mask : ℤ → ℤ → (ℕ → ℤ) → Option (ℕ → ℤ)
put_mask (pos i) value array =
    if ltb i 25 then some (λ j. if i == j then value else array j) else none
put_mask (negsuc i) value array = none

-- The monitor's state behind the writes of the case WRITE_CTRLREG.
abbrev pub with_mask :
    MonitorOp → ℕ → Bool → MonitoredDomain → Option (ℕ → ℤ) → Option (MonitoredDomain × ℤ)
with_mask mop mask requested d none = none
with_mask mop mask requested d (some array) = some (
  record d {
    arch = record d.arch {
      write_ctrlreg_mask = array;
      write_ctrlreg_sync = put_bits (not (mop.mov_to_cr.sync == 0)) mask d.arch.write_ctrlreg_sync;
      write_ctrlreg_onchangeonly =
          put_bits (not (mop.mov_to_cr.onchangeonly == 0)) mask d.arch.write_ctrlreg_onchangeonly;
      write_ctrlreg_enabled = put_bits requested mask d.arch.write_ctrlreg_enabled;
    };
  },
  pos 0,
)

-- The case WRITE_CTRLREG; the update of the guest's registers does not change what is kept here.
pub write_ctrlreg_event :
    MonitorPlatform → MonitorOp → Bool → MonitoredDomain → Option (MonitoredDomain × ℤ)
write_ctrlreg_event p mop requested d =
    let cr = mop.mov_to_cr in
    let mask = p.monitor_ctrlreg_bitmask (truth cr.index) in
    let old_status = not (bit_and d.arch.write_ctrlreg_enabled mask == 0) in
    if p.unlikely (not (ltb_ℤ cr.index (array_size d.arch.write_ctrlreg_mask)))
    then some (d, negsuc 21)
    else if p.unlikely (truth cr.pad1 || truth cr.pad2)
    then some (d, negsuc 21)
    else if not (same old_status requested)
    then some (d, negsuc 16)
    else with_mask mop mask requested d
        (put_mask cr.index (if requested then cr.bitmask else pos 0) d.arch.write_ctrlreg_mask)

-- The case MOV_TO_MSR; domain_pause and domain_unpause have empty bodies.
pub mov_to_msr_event : MonitorPlatform → MonitorOp → Bool → MonitoredDomain → MonitoredDomain × ℤ
mov_to_msr_event p mop requested d =
    let msr = mop.mov_to_msr.msr in
    if not (same (p.monitored_msr d msr) requested)
    then (d, negsuc 16)
    else if requested
    then monitor_enable_msr p d msr (truth mop.mov_to_msr.onchangeonly)
    else monitor_disable_msr p d msr

-- The frame of the other cases: the test against the old status, then the write.
abbrev pub when_same : Bool → Bool → MonitoredDomain → MonitorState → MonitoredDomain × ℤ
when_same old_status requested d arch =
    if not (same old_status requested) then (d, negsuc 16) else (record d { arch = arch }, pos 0)

-- The cases from SOFTWARE_BREAKPOINT on.
abbrev pub late_events : Bool → MonitorOp → MonitoredDomain → Option (MonitoredDomain × ℤ)
late_events requested mop d =
    let value = as_int requested in
    let ad = d.arch in
    if is_number mop.event 3
    then some (
        when_same (truth ad.software_breakpoint_enabled) requested d
          (record ad { software_breakpoint_enabled = value }))
    else if is_number mop.event 5
    then some (
        when_same (truth ad.debug_exception_enabled) requested d (record ad {
          debug_exception_enabled = value;
          debug_exception_sync = if requested then mop.debug_exception_sync else pos 0;
        }))
    else if is_number mop.event 6
    then some (when_same (truth ad.cpuid_enabled) requested d (record ad { cpuid_enabled = value }))
    else if is_number mop.event 12
    then some (
        when_same (truth ad.emul_unimplemented_enabled) requested d
          (record ad { emul_unimplemented_enabled = value }))
    else some (d, negsuc 94)

pub arch_monitor_domctl_event :
    MonitorPlatform → MonitorOp → MonitoredDomain → Option (MonitoredDomain × ℤ)
arch_monitor_domctl_event p mop d =
    let requested = requested_status mop in
    let value = as_int requested in
    let ad = d.arch in
    if is_number mop.event 0
    then write_ctrlreg_event p mop requested d
    else if is_number mop.event 1
    then some (mov_to_msr_event p mop requested d)
    else if is_number mop.event 2
    then some (
        when_same (truth ad.singlestep_enabled) requested d
          (record ad { singlestep_enabled = value }))
    else if is_number mop.event 11
    then some (
        when_same (truth ad.inguest_pagefault_disabled) requested d
          (record ad { inguest_pagefault_disabled = value }))
    else if is_number mop.event 9
    then if not (same (truth ad.descriptor_access_enabled) requested)
      then some (d, negsuc 16)
      else if not p.set_descriptor_access_exiting
      then some (d, negsuc 94)
      else some (record d { arch = record ad { descriptor_access_enabled = value } }, pos 0)
    else late_events requested mop d

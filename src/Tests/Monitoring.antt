-- ===== src/Tests/Monitoring.antt =====
-- monitor_verified.c on a domain that is monitored for single steps only, and on one with a bitmap.
use formal_verification_of_x.Prelude.{◌≡◌, ◌≢◌, arith, refl, ◌==◌, if◌then◌else◌, true, false}
use formal_verification_of_x.Prelude.Int.{ℤ, pos}
use formal_verification_of_x.Monitor.{MonitoredDomain, MonitorPlatform}
use formal_verification_of_x.Monitor.Msr.{
  zero_state, monitor_bitmap_for_msr, monitor_enable_msr, monitor_disable_msr,
}
use formal_verification_of_x.Monitor.Msr.Marked.{
  IsBitwise, second_bit, hypervisor_bitmap, disable_msr-enable_msr,
}
use formal_verification_of_x.Monitor.Domctl.{MonitorOp, arch_monitor_domctl_event}
use formal_verification_of_x.Monitor.Domctl.Refused.{IsAnswer, domctl_event-IsAnswer}

abbrev plain_platform : MonitorPlatform
plain_platform = record {
  unlikely = λ x. x;
  monitor_ctrlreg_bitmask = λ x. if x then 2 else 1;
  monitored_msr = λ d msr. false;
  set_bit = λ nr bitmap i. if nr == i then true else bitmap i;
  clear_bit = λ nr bitmap i. if nr == i then false else bitmap i;
  sizeof_msr_bitmap = 3072;
  behind_msr = 0;
  set_descriptor_access_exiting = true;
}

abbrev stepped : MonitoredDomain
stepped = record {
  arch = record zero_state { singlestep_enabled = pos 1 };
  monitor = λ i. pos 0;
  low = 0x1000;
  hypervisor = 0x2000;
  high = 0x3000;
  bitmaps = λ a i. false;
}

-- A request to monitor the events of this number.
abbrev enabling : ℤ → MonitorOp
enabling event = record {
  op = pos 13;
  event = event;
  mov_to_cr = record {
    pad1 = pos 0;
    pad2 = pos 0;
    index = pos 3;
    sync = 1;
    onchangeonly = 0;
    bitmask = pos 0;
  };
  mov_to_msr = record { msr = 0x1fff; onchangeonly = pos 0 };
  debug_exception_sync = pos 0;
}

domctl_event-IsAnswer_example :
    IsAnswer stepped true
      (pos 0)
      (arch_monitor_domctl_event plain_platform (enabling (pos 6)) stepped)
domctl_event-IsAnswer_example =
    domctl_event-IsAnswer plain_platform (enabling (pos 6)) stepped (pos 0) refl

abbrev mapped : MonitoredDomain
mapped = record stepped { arch = record zero_state { msr_bitmap = pos 1 } }

plain_platform-IsBitwise : IsBitwise plain_platform
plain_platform-IsBitwise = record { sets = λ i b k. refl; clears = λ i b k. refl }

hypervisor_found : (monitor_bitmap_for_msr mapped 0x40000000).0 ≢ 0
hypervisor_found = rw (hypervisor_bitmap mapped) (omega arith)

disable_msr-enable_msr_example :
    let (a, i) = monitor_bitmap_for_msr mapped 0x40000000 in
    let enabled = (monitor_enable_msr plain_platform mapped 0x40000000 true).0 in
    (enabled.bitmaps 0x2000 0 ≡ (
      if a == 0x2000
      then (if second_bit plain_platform i == 0
          then true
          else if i == 0
          then true
          else mapped.bitmaps 0x2000 0)
      else mapped.bitmaps 0x2000 0))
    × ((monitor_disable_msr plain_platform enabled 0x40000000).0.bitmaps 0x2000 0 ≡ (
        if a == 0x2000
        then if i == 0 then false else enabled.bitmaps 0x2000 0
        else enabled.bitmaps 0x2000 0))
disable_msr-enable_msr_example =
    disable_msr-enable_msr plain_platform mapped 0x40000000 true 0x2000 0 plain_platform-IsBitwise
      refl hypervisor_found refl (omega arith)

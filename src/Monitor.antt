-- ===== src/Monitor.antt =====
-- monitor_verified.c: what of a domain is monitored, as its structures keep it.
use formal_verification_of_x.Prelude.{ℕ, ◌==◌, Bool, true, false, not}
use formal_verification_of_x.Prelude.Int.{ℤ, pos, negsuc}
pub mod Msr
pub mod Domctl

-- `struct monitor_`; a flag is an int.
pub record MonitorState : Type 0 where
  pub msr_bitmap : ℤ
  pub write_ctrlreg_mask : ℕ → ℤ
  pub write_ctrlreg_sync : ℕ
  pub write_ctrlreg_onchangeonly : ℕ
  pub write_ctrlreg_enabled : ℕ
  pub singlestep_enabled : ℤ
  pub inguest_pagefault_disabled : ℤ
  pub software_breakpoint_enabled : ℤ
  pub debug_exception_enabled : ℤ
  pub debug_exception_sync : ℤ
  pub cpuid_enabled : ℤ
  pub emul_unimplemented_enabled : ℤ
  pub descriptor_access_enabled : ℤ

abbrev pub Bitmap : Type 0
Bitmap = ℕ → Bool

-- `struct domain`. `low`, `hypervisor` and `high` are addresses, 0 for NULL, and `bitmaps` is what stands
-- at each address.
pub record MonitoredDomain : Type 0 where
  pub arch : MonitorState
  pub monitor : ℕ → ℤ
  pub low : ℕ
  pub hypervisor : ℕ
  pub high : ℕ
  pub bitmaps : ℕ → Bitmap

-- What the file declares without a body, and `unlikely`, whose body returns nothing; the size of
-- `struct monitor_msr_bitmap`, which is defined elsewhere; and the member of hvm_funcs.
pub record MonitorPlatform : Type 0 where
  pub unlikely : Bool → Bool
  pub monitor_ctrlreg_bitmask : Bool → ℕ
  pub monitored_msr : MonitoredDomain → ℕ → Bool
  pub set_bit : ℕ → Bitmap → Bitmap
  pub clear_bit : ℕ → Bitmap → Bitmap
  pub sizeof_msr_bitmap : ℕ
  -- the four bytes behind the parameter `msr` of monitor_disable_msr
  pub behind_msr : ℕ
  pub set_descriptor_access_exiting : Bool

-- An int as a condition, and a condition as an int.
abbrev pub truth : ℤ → Bool
truth (pos n) = not (n == 0)
truth (negsuc n) = true

abbrev pub as_int : Bool → ℤ
as_int true = pos 1
as_int false = pos 0

-- ===== src/Apic.antt =====
-- apic_verified.c: the local interrupt controller.
use formal_verification_of_x.Prelude.{
  ℕ, ◌+◌, ◌*◌, ◌%◌, ◌^◌, ◌==◌, ltb, leb, if◌then◌else◌, Bool, true, false, not, ◌&&◌, bit_and,
  bit_or,
}
use formal_verification_of_x.Prelude.Int.{ℤ, pos, ltb_ℤ}
pub mod Cleared

-- What the file only declares, on the state `S` of the machine.
pub record ApicOps (S : Type 0) : Type 0 where
  pub apic_read : S → ℕ → ℕ
  pub apic_write : ℕ → ℕ → S → S
  pub apic_wait_icr_idle : S → S
  pub ack_apic_irq : S → S
  pub wrmsrl : ℕ → ℕ → S → S
  pub outb_p : ℕ → ℕ → S → S
  pub inb_p : ℕ → S → S × ℕ
  pub get_apic_maxlvt : ℕ → ℤ
  pub get_apic_version : ℕ → ℕ

-- The ghost variables that stand for the registers and their bits.
pub record ApicNames : Type 0 where
  pub apic_lvr : ℕ
  pub apic_tmict : ℕ
  pub apic_lvterr : ℕ
  pub apic_lvtt : ℕ
  pub apic_lvt0 : ℕ
  pub apic_lvt1 : ℕ
  pub apic_lvtpc : ℕ
  pub apic_icr : ℕ
  pub error_apic_vector : ℕ
  pub apic_lvt_masked : ℕ
  pub icr_sync : ℕ
  pub msr_apic_base : ℕ
  pub apic_base_extd : ℕ
  pub apic_base_enable : ℕ
  pub pit_mode : ℕ
  pub pit_ch0 : ℕ

module _ {S : Type 0} (ops : ApicOps S) (names : ApicNames) where
  -- `x86_vendor_amd` is a local that nothing writes.
  pub modern_apic : ℕ → ℕ → ℕ → S → Bool
  modern_apic x86_vendor_amd x86_vendor x86 s =
      if x86_vendor == x86_vendor_amd && leb 0xf x86
      then true
      else leb 0x14 (ops.get_apic_version (ops.apic_read s names.apic_lvr))

  pub ack_bad_irq : Bool → S → S
  ack_bad_irq cpu_has_apic s = if cpu_has_apic then ops.ack_apic_irq s else s

  pub get_maxlvt : S → ℤ
  get_maxlvt s = ops.get_apic_maxlvt (ops.apic_read s names.apic_lvr)

  -- `v = apic_read(r); apic_write(r, v | APIC_LVT_MASKED);`
  abbrev pub mask_entry : ℕ → S → S
  mask_entry r s = ops.apic_write r (bit_or (ops.apic_read s r) names.apic_lvt_masked % 2 ^ 32) s

  pub clear_local_apic : S → S
  clear_local_apic s =
      let maxlvt = get_maxlvt s in
      let stopped = ops.apic_write names.apic_tmict 0 s in
      let error =
        if not (ltb_ℤ maxlvt (pos 3))
        then ops.apic_write names.apic_lvterr
            (bit_or names.error_apic_vector names.apic_lvt_masked % 2 ^ 32) stopped
        else stopped in
      let timer = mask_entry names.apic_lvtt error in
      let lint0 = mask_entry names.apic_lvt0 timer in
      let lint1 = mask_entry names.apic_lvt1 lint0 in
      if not (ltb_ℤ maxlvt (pos 4)) then mask_entry names.apic_lvtpc lint1 else lint1

  -- It is a function of this file that returns 1.
  abbrev pub modern_apicc : Bool
  modern_apicc = true

  pub sync_arb_ids : S → S
  sync_arb_ids s =
      if modern_apicc
      then s
      else ops.apic_write names.apic_icr names.icr_sync (ops.apic_wait_icr_idle s)

  -- rdmsrl is given the local `msr_content` by value: nothing writes it.
  pub enable_x2apic : ℕ → S → S
  enable_x2apic msr_content s =
      if bit_and msr_content names.apic_base_extd == 0
      then ops.wrmsrl names.msr_apic_base
          (bit_or msr_content (bit_or names.apic_base_enable names.apic_base_extd)) s
      else s

  pub x2apic_ap_setup : Bool → ℕ → S → S
  x2apic_ap_setup x2apic_enabled msr_content s =
      if x2apic_enabled then enable_x2apic msr_content s else s

  -- `count = inb_p(PIT_CH0); count |= inb_p(PIT_CH0) << 8;`
  pub get_8254_timer_count : S → S × ℕ
  get_8254_timer_count s =
      let (s', low) = ops.inb_p names.pit_ch0 (ops.outb_p 0 names.pit_mode s) in
      let (s'', high) = ops.inb_p names.pit_ch0 s' in (s'', bit_or low (high * 2 ^ 8 % 2 ^ 32))

-- `is_debug` and `is_verbose` tell whether strcmp answers 0, and the result is the new verbosity, for
-- the ghost variable apic_verbosity, with the error.
pub apic_set_verbosity : Bool → Bool → ℕ → ℕ → ℤ → ℕ → ℕ × ℤ
apic_set_verbosity is_debug is_verbose apic_debug apic_verbose einval apic_verbosity =
    if is_debug
    then (apic_debug, pos 0)
    else if is_verbose
    then (apic_verbose, pos 0)
    else if ltb_ℤ einval (pos 100000)
    then (apic_verbosity, einval)
    else (apic_verbosity, pos 0)

-- `enable_local_apic` is a ghost variable of the function.
pub lapic_disable : {S : Type 0} → (ℕ → S → S) → ℕ → S → S × ℕ
lapic_disable setup_clear_cpu_cap x86_feature_apic s = (setup_clear_cpu_cap x86_feature_apic s, 0)

-- `active` of the local apic_pm_state.
pub apic_pm_activate : ℕ
apic_pm_activate = 1

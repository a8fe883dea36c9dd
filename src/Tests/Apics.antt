-- ===== src/Tests/Apics.antt =====
-- apic_verified.c on a log of the writes, with the numbers of the memory-mapped registers.
use formal_verification_of_x.Prelude.{ℕ, List, ◌∷◌}
use formal_verification_of_x.Prelude.Int.{pos}
use formal_verification_of_x.Apic.{ApicOps, ApicNames}

abbrev log_ops : ApicOps (List (ℕ × ℕ))
log_ops = record {
  apic_read = λ s r. 0x31;
  apic_write = λ r v s. (r, v) ∷ s;
  apic_wait_icr_idle = λ s. s;
  ack_apic_irq = λ s. s;
  wrmsrl = λ r v s. s;
  outb_p = λ v port s. s;
  inb_p = λ port s. (s, 0);
  get_apic_maxlvt = λ v. pos 5;
  get_apic_version = λ v. 0x14;
}

abbrev register_numbers : ApicNames
register_numbers = record {
  apic_lvr = 0x30;
  apic_tmict = 0x380;
  apic_lvterr = 0x370;
  apic_lvtt = 0x320;
  apic_lvt0 = 0x350;
  apic_lvt1 = 0x360;
  apic_lvtpc = 0x340;
  apic_icr = 0x300;
  error_apic_vector = 0xfe;
  apic_lvt_masked = 0x10000;
  icr_sync = 0x88500;
  msr_apic_base = 0x1b;
  apic_base_extd = 0x400;
  apic_base_enable = 0x800;
  pit_mode = 0x43;
  pit_ch0 = 0x40;
}

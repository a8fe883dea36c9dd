-- ===== src/Tests/Interrupts.antt =====
-- irq_verified.c on a machine of sixteen legacy lines.
use formal_verification_of_x.Prelude.{
  ℕ, ◌≡◌, arith, ◌==◌, ltb, if◌then◌else◌, true, false, List, [], ◌∷◌,
}
use formal_verification_of_x.Prelude.Int.{pos}
use formal_verification_of_x.Prelude.Bits.{digit}
use formal_verification_of_x.Irq.{IrqDesc, Pic, Machine, mask_and_ack_irq}
use formal_verification_of_x.Irq.Refines.{
  Op, disable, enable, replay, run, masked_lines, run_refines,
}
use formal_verification_of_x.Irq.Acknowledge.{in_service, IsAcked, mask_and_ack-IsAcked}
use formal_verification_of_x.Irq.Setup.{init_8259a, init_8259a-IsInSync}

abbrev pc : Machine
pc = record {
  inb = λ writes port. 0xc0;
  irq_to_desc = λ irq. irq;
  platform_legacy_irq = λ irq. ltb irq 16;
  irq_disabled = 1;
  irq_inprogress = 1;
  first_legacy_vector = pos 0xe0;
}

abbrev desc_of : ℕ → IrqDesc
desc_of irq = record { irq = irq; status = 0; handled = false; vector = pos 0 }

abbrev booted : Pic
booted = record {
  cached_irq_mask = 0xffff;
  spurious_irq_mask = 0;
  io_apic_irqs = 0;
  trigger0 = pos 0;
  trigger1 = pos 0;
  descs = desc_of;
  writes = [];
}

abbrev ops : List Op
ops = enable (desc_of 3) ∷ disable (desc_of 12) ∷ enable (desc_of 12) ∷ []

run_refines_example :
    masked_lines (run ops (init_8259a pc false booted)) 12
    ≡ replay ops (masked_lines (init_8259a pc false booted)) 12
run_refines_example =
    run_refines ops (init_8259a pc false booted) (omega arith, (omega arith, (omega arith, tt)))
      (init_8259a-IsInSync pc false booted).0 12 (omega arith)

mask_and_ack-IsAcked_example :
    let (s', real) = mask_and_ack_irq pc 7 booted in
    (real ≡ (if digit 7 0xffff == 0 then true else in_service pc 7 booted))
    × IsAcked booted 7 real s'
mask_and_ack-IsAcked_example = mask_and_ack-IsAcked pc 7 booted (omega arith)

-- ===== src/Irq/Setup.antt =====
-- init_8259A, make_8259A_irq and init_IRQ.
use formal_verification_of_x.Prelude.{
  ℕ, zero, suc, ◌+◌, ◌-◌, ◌^◌, ◌<◌, ◌≤◌, ◌≡◌, ◌≢◌, refl, sym, ap, ◌∙◌, arith, ◌==◌, ltb,
  if◌then◌else◌, ◌/◌, ◌%◌, Bool, true, false, List, [], ◌∷◌, Option, none, some, inl, inr,
  Bool-cases, bit_and, ==_iff,
}
use formal_verification_of_x.Prelude.Int.{ℤ, pos, negsuc, sub_ℕ, pos_part, neg_part}
use formal_verification_of_x.Prelude.Bits.{digit}
use formal_verification_of_x.Prelude.Masks.{digit-low_byte, digit-high_byte}
use native.Mathlib.Decide.{ℕ_discrete}
use formal_verification_of_x.Irq.{
  Write, Pic, IrqDesc, Machine, outb, outb_p, cached_21, cached_a1, unmask_8259a,
}
use formal_verification_of_x.Irq.Masks.{last_out, IsInSync}
pub mod Prepared

-- FIRST_LEGACY_VECTOR + n.
abbrev pub plus : ℤ → ℕ → ℤ
plus z n = sub_ℕ (pos_part z + n) (neg_part z)

-- The words in the order they are sent; the second outb behind udelay is the last.
pub init_8259a : Machine → Bool → Pic → Pic
init_8259a machine auto_eoi s =
    let masked = outb 0xff 0xa1 (outb 0xff 0x21 s) in
    let icw1 = outb_p (pos 0x11) 0x20 masked in
    let icw2 = outb_p (plus machine.first_legacy_vector 0) 0x21 icw1 in
    let icw3 = outb_p (pos 0x04) 0x21 icw2 in
    let icw4 = outb_p (pos (if auto_eoi then 0x03 else 0x01)) 0x21 icw3 in
    let slave1 = outb_p (pos 0x11) 0xa0 icw4 in
    let slave2 = outb_p (plus machine.first_legacy_vector 8) 0xa1 slave1 in
    let slave3 = outb_p (pos 0x02) 0xa1 slave2 in
    let slave4 = outb_p (pos 0x01) 0xa1 slave3 in
    let master_mask = outb (cached_21 slave4) 0x21 slave4 in
    outb (cached_a1 master_mask) 0xa1 master_mask

abbrev pub put_desc : ℕ → IrqDesc → Pic → Pic
put_desc a desc s = record s { descs = λ b. if a == b then desc else s.descs b }

-- `irq` is below 32.
pub make_8259a_irq : Machine → ℕ → Pic → Pic
make_8259a_irq machine irq s =
    let a = machine.irq_to_desc irq in
    put_desc a (record (s.descs a) { handled = true })
      (record s { io_apic_irqs = bit_and s.io_apic_irqs (2 ^ 32 - 1 - 2 ^ irq) })

-- The body of the loop of init_IRQ; cpumask_copy is only declared.
pub init_desc : Machine → ℕ → Pic → Pic
init_desc machine irq s =
    let a = machine.irq_to_desc irq in
    if irq == 2
    then s
    else put_desc a
        (record (s.descs a) { handled = true; vector = plus machine.first_legacy_vector irq }) s

-- `for (irq = 0; platform_legacy_irq(irq); irq++)`.
pub init_descs : ℕ → Machine → ℕ → Pic → Option Pic
init_descs zero machine irq s = none
init_descs (suc fuel) machine irq s =
    let rest = init_descs fuel machine (irq + 1) (init_desc machine irq s) in
    if machine.platform_legacy_irq irq then rest else some s

-- init_bsp_APIC, apic_intr_init and setup_irq are only declared.
pub init_irq : ℕ → Machine → Pic → Option Pic
init_irq fuel machine s = init_descs fuel machine 0 (init_8259a machine false s)

synced :
    (s : Pic)
    → last_out 0x21 s.writes ≡ some (pos (cached_21 s))
    → last_out 0xa1 s.writes ≡ some (pos (cached_a1 s))
    → IsInSync s
synced s master slave = record {
  master = cached_21 s;
  slave = cached_a1 s;
  master_written = master;
  slave_written = slave;
  master_digits = λ k lt. digit-low_byte k s.cached_irq_mask lt;
  slave_digits = λ k lt. digit-high_byte k s.cached_irq_mask lt;
}

-- Each controller has the cached mask behind init_8259A, whatever was written to it before, and behind
-- unmask_8259A too.
pub init_8259a-IsInSync :
    (machine : Machine) (auto_eoi : Bool) (s : Pic)
    → IsInSync (init_8259a machine auto_eoi s) × IsInSync (unmask_8259a s)
unfolding init_8259a unmask_8259a
init_8259a-IsInSync machine auto_eoi s = (synced _ refl refl, synced _ refl refl)

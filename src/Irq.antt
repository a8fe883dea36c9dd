-- ===== src/Irq.antt =====
-- irq_verified.c: the masks of the two 8259A controllers and the functions that change them.
use formal_verification_of_x.Prelude.{
  ℕ, zero, suc, ◌+◌, ◌-◌, ◌/◌, ◌%◌, ◌^◌, ◌==◌, ltb, if◌then◌else◌, Bool, true, false, not, ◌&&◌,
  List, ◌∷◌, Option, none, some, bit_and, bit_or,
}
use formal_verification_of_x.Prelude.Int.{ℤ, pos, signed8}
pub mod Masks
pub mod Refines
pub mod Acknowledge
pub mod Elcr
pub mod Setup

-- A call of outb, or of outb_p, which waits behind the write.
pub record Write : Type 0 where
  pub value : ℤ
  pub port : ℕ
  pub waits : Bool

-- `struct irq_desc`: `handled` tells that its handler is i8259A_irq_type.
pub record IrqDesc : Type 0 where
  pub irq : ℕ
  pub status : ℕ
  pub handled : Bool
  pub vector : ℤ

-- The static state of that file, the descriptors, and the writes to ports, the last one first.
pub record Pic : Type 0 where
  pub cached_irq_mask : ℕ
  pub spurious_irq_mask : ℕ
  pub io_apic_irqs : ℕ
  pub trigger0 : ℤ
  pub trigger1 : ℤ
  pub descs : ℕ → IrqDesc
  pub writes : List Write

-- What the file only declares: what inb answers behind the writes so far, where a line's descriptor is,
-- and which lines are legacy ones; and the ghost variables that it reads.
pub record Machine : Type 0 where
  pub inb : List Write → ℕ → ℕ
  pub irq_to_desc : ℕ → ℕ
  pub platform_legacy_irq : ℕ → Bool
  pub irq_disabled : ℕ
  pub irq_inprogress : ℕ
  pub first_legacy_vector : ℤ

abbrev pub outb : ℕ → ℕ → Pic → Pic
outb value port s = record s {
  writes = record { value = pos value; port = port; waits = false } ∷ s.writes;
}

abbrev pub outb_p : ℤ → ℕ → Pic → Pic
outb_p value port s = record s {
  writes = record { value = value; port = port; waits = true } ∷ s.writes;
}

-- The two bytes of the mask.
abbrev pub cached_21 : Pic → ℕ
cached_21 s = s.cached_irq_mask % 2 ^ 8

abbrev pub cached_a1 : Pic → ℕ
cached_a1 s = s.cached_irq_mask / 2 ^ 8 % 2 ^ 8

-- `if (irq & 8) outb(cached_A1, 0xA1); else outb(cached_21, 0x21);`
pub write_mask : ℕ → Pic → Pic
write_mask irq s =
    if bit_and irq 8 == 0 then outb (cached_21 s) 0x21 s else outb (cached_a1 s) 0xa1 s

-- `irq` is below 32, so that `1 << irq` is a power of two below 2^32.
pub disable_irq : ℕ → Pic → Pic
disable_irq irq s =
    write_mask irq (record s { cached_irq_mask = bit_or s.cached_irq_mask (2 ^ irq) })

pub disable_8259a_irq : IrqDesc → Pic → Pic
unfolding disable_irq
disable_8259a_irq desc s = disable_irq desc.irq s

pub enable_8259a_irq : IrqDesc → Pic → Pic
enable_8259a_irq desc s =
    write_mask desc.irq
      (record s { cached_irq_mask = bit_and s.cached_irq_mask (2 ^ 32 - 1 - 2 ^ desc.irq) })

-- The line's desc is not looked at again; the result is 0, nothing pending.
pub startup_8259a_irq : IrqDesc → Pic → Pic × ℕ
startup_8259a_irq desc s = (enable_8259a_irq desc s, 0)

pub end_8259a_irq : Machine → IrqDesc → Pic → Pic
end_8259a_irq machine desc s =
    if bit_and desc.status (bit_or machine.irq_disabled machine.irq_inprogress) == 0
    then enable_8259a_irq desc s
    else s

pub i8259a_irq_pending : Machine → ℕ → Pic → ℕ
i8259a_irq_pending machine irq s =
    if ltb irq 8
    then bit_and (machine.inb s.writes 0x20) (2 ^ irq)
    else bit_and (machine.inb s.writes 0xa0) (2 ^ irq / 2 ^ 8)

pub mask_8259a : Pic → Pic
mask_8259a s = outb 0xff 0x21 (outb 0xff 0xa1 s)

pub unmask_8259a : Pic → Pic
unmask_8259a s = outb (cached_21 s) 0x21 (outb (cached_a1 s) 0xa1 s)

-- Reads the in-service register and goes back to the request register. For line 31, where the shift of
-- a negative int differs, the bits of a byte are the same.
pub i8259a_irq_real : Machine → ℕ → Pic → Pic × ℕ
i8259a_irq_real machine irq s =
    let master = outb 0x0b 0x20 s in
    let slave = outb 0x0b 0xa0 s in
    if ltb irq 8
    then (outb 0x0a 0x20 master, bit_and (machine.inb master.writes 0x20) (2 ^ irq))
    else (outb 0x0a 0xa0 slave, bit_and (machine.inb slave.writes 0xa0) (2 ^ irq / 2 ^ 8))

-- `spurious_irq_mask |= irqmask` unless it is there.
abbrev pub note_spurious : ℕ → Pic → Pic
note_spurious irqmask s =
    if bit_and s.spurious_irq_mask irqmask == 0
    then record s { spurious_irq_mask = bit_or s.spurious_irq_mask irqmask }
    else s

-- The mask is set in the cache; the writes to the controllers behind that are commented out.
abbrev pub acked : ℕ → Pic → Pic
acked irqmask s = record s { cached_irq_mask = bit_or s.cached_irq_mask irqmask }

abbrev pub ack_unreal : ℕ → Pic × ℕ → Pic × Bool
ack_unreal irqmask (s, value) =
    if value == 0 then (acked irqmask (note_spurious irqmask s), false) else (acked irqmask s, true)

-- The answer tells whether the interrupt is real. The controller is asked only for a masked line.
pub mask_and_ack_irq : Machine → ℕ → Pic → Pic × Bool
mask_and_ack_irq machine irq s =
    if bit_and s.cached_irq_mask (2 ^ irq) == 0
    then (acked (2 ^ irq) s, true)
    else ack_unreal (2 ^ irq) (i8259a_irq_real machine irq s)

pub bogus_8259a_irq : Machine → ℕ → Pic → Pic × Bool
bogus_8259a_irq machine irq s = mask_and_ack_irq machine irq s

pub mask_and_ack_8259a_irq : Machine → IrqDesc → Pic → Pic
mask_and_ack_8259a_irq machine desc s = (mask_and_ack_irq machine desc.irq s).0

-- A trigger is a char, and outb is given it as an int.
pub save_elcr : Machine → Pic → Pic
save_elcr machine s = record s {
  trigger0 = signed8 (bit_and (machine.inb s.writes 0x4d0) 0xf8 % 2 ^ 8);
  trigger1 = signed8 (bit_and (machine.inb s.writes 0x4d1) 0xde % 2 ^ 8);
}

pub restore_elcr : Pic → Pic
restore_elcr s = record s {
  writes =
      record { value = s.trigger1; port = 0x4d1; waits = false }
      ∷ record { value = s.trigger0; port = 0x4d0; waits = false }
      ∷ s.writes;
}

pub i8259a_suspend : Machine → Pic → Pic × ℕ
i8259a_suspend machine s = (save_elcr machine s, 0)

pub i8259a_resume : Pic → Pic × ℕ
i8259a_resume s = (restore_elcr s, 0)

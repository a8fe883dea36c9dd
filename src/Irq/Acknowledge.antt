-- ===== src/Irq/Acknowledge.antt =====
-- What _mask_and_ack_8259A_irq answers, and what it does not write.
use formal_verification_of_x.Prelude.{
  ℕ, ◌-◌, ◌/◌, ◌^◌, ◌<◌, ◌≡◌, refl, ap, ◌∙◌, arith, ◌==◌, ltb, if◌then◌else◌, Bool, true, false,
  not, ◌&&◌, inl, inr, Bool-cases, bit_and, ==_iff, all_below_sound,
}
use formal_verification_of_x.Prelude.Bits.{digit, digit-lt}
use formal_verification_of_x.Prelude.Masks.{digit-set, test_digit, digit_tests}
use formal_verification_of_x.Irq.{
  Pic, Machine, outb, i8259a_irq_real, note_spurious, acked, mask_and_ack_irq,
}
use formal_verification_of_x.Irq.Masks.{last_out}
use formal_verification_of_x.Irq.Refines.{masked_lines}

-- Whether the controller of a line, told to show its in-service register, has the line there.
abbrev pub in_service : Machine → ℕ → Pic → Bool
in_service machine irq s =
    if ltb irq 8
    then digit irq (machine.inb (outb 0x0b 0x20 s).writes 0x20) == 1
    else digit (irq - 8) (machine.inb (outb 0x0b 0xa0 s).writes 0xa0) == 1

abbrev shifts : ℕ → Bool
shifts irq = if ltb irq 8 then true else 2 ^ irq / 2 ^ 8 == 2 ^ (irq - 8)

shift_irq : (irq : ℕ) → irq < 16 → ltb irq 8 ≡ false → 2 ^ irq / 2 ^ 8 ≡ 2 ^ (irq - 8)
shift_irq irq lt high = (==_iff _ _).0 (rw high at (all_below_sound 16 shifts irq refl lt))

-- The test of the answer.
real-in_service :
    (machine : Machine) (irq : ℕ) (s : Pic)
    → irq < 16
    → ((i8259a_irq_real machine irq s).1 == 0) ≡ not (in_service machine irq s)
unfolding i8259a_irq_real
real-in_service machine irq s lt = elim (Bool-cases (ltb irq 8)) [
  | inl low ↦ rw low (test_digit irq _ ∙ digit_tests irq _)
  | inr high ↦ rw (high, shift_irq irq lt high) (test_digit (irq - 8) _ ∙ digit_tests (irq - 8) _)
]

-- The variables that neither the question nor the answer touches.
pub record IsSameSetup (s s' : Pic) : Type 0 where
  pub apic : s'.io_apic_irqs ≡ s.io_apic_irqs
  pub master_trigger : s'.trigger0 ≡ s.trigger0
  pub slave_trigger : s'.trigger1 ≡ s.trigger1
  pub descriptors : s'.descs ≡ s.descs

IsSameSetup-refl : (s : Pic) → IsSameSetup s s
IsSameSetup-refl s = record {
  apic = refl;
  master_trigger = refl;
  slave_trigger = refl;
  descriptors = refl;
}

-- Asking changes nothing but the ports of the command registers.
real-keeps :
    (machine : Machine) (irq : ℕ) (s : Pic)
    → let s' = (i8259a_irq_real machine irq s).0 in
      (s'.cached_irq_mask ≡ s.cached_irq_mask)
      × (last_out 0x21 s'.writes ≡ last_out 0x21 s.writes)
      × (last_out 0xa1 s'.writes ≡ last_out 0xa1 s.writes)
      × (s'.spurious_irq_mask ≡ s.spurious_irq_mask)
      × IsSameSetup s s'
unfolding i8259a_irq_real
real-keeps machine irq s = elim (Bool-cases (ltb irq 8)) [
  | inl low ↦ rw low (
    refl,
    refl,
    refl,
    refl,
    record { apic = refl; master_trigger = refl; slave_trigger = refl; descriptors = refl },
  )
  | inr high ↦ rw high (
    refl,
    refl,
    refl,
    refl,
    record { apic = refl; master_trigger = refl; slave_trigger = refl; descriptors = refl },
  )
]

-- A spurious interrupt is noted, and nothing else changes.
note_spurious_lem :
    (irq : ℕ) (s : Pic)
    → let s' = note_spurious (2 ^ irq) s in
      (s'.cached_irq_mask ≡ s.cached_irq_mask)
      × (s'.writes ≡ s.writes)
      × ((k : ℕ)
          → digit k s'.spurious_irq_mask ≡ (if k == irq then 1 else digit k s.spurious_irq_mask))
      × IsSameSetup s s'
note_spurious_lem irq s = elim (Bool-cases (bit_and s.spurious_irq_mask (2 ^ irq) == 0)) [
  | inl new ↦ rw new (
    refl,
    refl,
    (λ k. digit-set k irq s.spurious_irq_mask),
    record { apic = refl; master_trigger = refl; slave_trigger = refl; descriptors = refl },
  )
  | inr old ↦ rw old (
    refl,
    refl,
    (λ k. ground (arith, test_digit irq s.spurious_irq_mask, digit-lt irq s.spurious_irq_mask)),
    IsSameSetup-refl s,
  )
]

-- What there is behind an acknowledgement with an answer.
pub record IsAcked (s : Pic) (irq : ℕ) (real : Bool) (s' : Pic) : Type 0 where
  pub cached :
      (k : ℕ) → digit k s'.cached_irq_mask ≡ (if k == irq then 1 else digit k s.cached_irq_mask)
  pub unwritten : (k : ℕ) → masked_lines s' k ≡ masked_lines s k
  pub noted :
      (k : ℕ)
      → digit k s'.spurious_irq_mask
        ≡ (if k == irq && not real then 1 else digit k s.spurious_irq_mask)
  pub setup : IsSameSetup s s'

acked-IsAcked :
    (irq : ℕ) (real : Bool) (s s' : Pic)
    → s'.cached_irq_mask ≡ s.cached_irq_mask
    → last_out 0x21 s'.writes ≡ last_out 0x21 s.writes
    → last_out 0xa1 s'.writes ≡ last_out 0xa1 s.writes
    → ((k : ℕ)
        → digit k s'.spurious_irq_mask
          ≡ (if k == irq && not real then 1 else digit k s.spurious_irq_mask))
    → IsSameSetup s s'
    → IsAcked s irq real (acked (2 ^ irq) s')
acked-IsAcked irq real s s' same master slave noted setup = record {
  cached = λ k. rw same (digit-set k irq s.cached_irq_mask);
  unwritten = λ k. rw (master, slave) refl;
  noted = noted;
  setup = record {
    apic = setup.apic;
    master_trigger = setup.master_trigger;
    slave_trigger = setup.slave_trigger;
    descriptors = setup.descriptors;
  };
}

real_noted :
    (irq : ℕ) (s s' : Pic)
    → s'.spurious_irq_mask ≡ s.spurious_irq_mask
    → (k : ℕ)
    → digit k s'.spurious_irq_mask
      ≡ (if k == irq && not true then 1 else digit k s.spurious_irq_mask)
real_noted irq s s' same k = elim (Bool-cases (k == irq)) [
  | inl e ↦ rw (e, same) refl
  | inr e ↦ rw (e, same) refl
]

unreal_noted :
    (irq : ℕ) (s asked s' : Pic)
    → asked.spurious_irq_mask ≡ s.spurious_irq_mask
    → ((k : ℕ)
        → digit k s'.spurious_irq_mask ≡ (if k == irq then 1 else digit k asked.spurious_irq_mask))
    → (k : ℕ)
    → digit k s'.spurious_irq_mask
      ≡ (if k == irq && not false then 1 else digit k s.spurious_irq_mask)
unreal_noted irq s asked s' same set k = elim (Bool-cases (k == irq)) [
  | inl e ↦ set k ∙ rw e refl
  | inr e ↦ set k ∙ rw (e, same) refl
]

IsSameSetup-trans : {a b c : Pic} → IsSameSetup a b → IsSameSetup b c → IsSameSetup a c
IsSameSetup-trans h h' = record {
  apic = h'.apic ∙ h.apic;
  master_trigger = h'.master_trigger ∙ h.master_trigger;
  slave_trigger = h'.slave_trigger ∙ h.slave_trigger;
  descriptors = h'.descriptors ∙ h.descriptors;
}

-- An unmasked line is answered as real without asking; for a masked one the answer is whether its
-- controller has it in service. Either way the line's digit is set in the cached mask and no other of its
-- digits changes; the line's digit is set in the mask of spurious interrupts exactly where the answer is
-- that it is one, and no other of its digits changes; the controllers' masks are not written: what they
-- mask is as before; and io_apic_irqs, the triggers and the descriptors stay.
pub mask_and_ack-IsAcked :
    (machine : Machine) (irq : ℕ) (s : Pic)
    → irq < 16
    → let (s', real) = mask_and_ack_irq machine irq s in
      (real ≡ (if digit irq s.cached_irq_mask == 0 then true else in_service machine irq s))
      × IsAcked s irq real s'
unfolding mask_and_ack_irq
mask_and_ack-IsAcked machine irq s lt = elim (Bool-cases (digit irq s.cached_irq_mask == 0)) [
  | inl clear ↦
      rw (test_digit irq s.cached_irq_mask, clear)
        (
          refl,
          acked-IsAcked irq true s s refl refl refl (real_noted irq s s refl) (IsSameSetup-refl s),
        )
  | inr masked ↦
      rw (test_digit irq s.cached_irq_mask, masked)
        (let keeps = real-keeps machine irq s in
          elim (Bool-cases (in_service machine irq s)) [
            | inl there ↦
                rw (rw there at (real-in_service machine irq s lt), there)
                  (
                    refl,
                    acked-IsAcked irq true s (i8259a_irq_real machine irq s).0 keeps.0 keeps.1
                        keeps.2 (real_noted irq s (i8259a_irq_real machine irq s).0 keeps.3)
                        keeps.4,
                  )
            | inr gone ↦
                let noted = note_spurious_lem irq (i8259a_irq_real machine irq s).0 in
                rw (rw gone at (real-in_service machine irq s lt), gone)
                  (
                    refl,
                    acked-IsAcked irq false s
                        (note_spurious (2 ^ irq) (i8259a_irq_real machine irq s).0)
                        (noted.0 ∙ keeps.0) (ap (last_out 0x21) noted.1 ∙ keeps.1)
                        (ap (last_out 0xa1) noted.1 ∙ keeps.2)
                        (unreal_noted irq s (i8259a_irq_real machine irq s).0
                          (note_spurious (2 ^ irq) (i8259a_irq_real machine irq s).0) keeps.3
                          noted.2)
                        (IsSameSetup-trans keeps.4 noted.3),
                  )
          ])
]

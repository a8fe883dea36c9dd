-- ===== src/Irq/Elcr.antt =====
-- The trigger registers across suspend and resume.
use formal_verification_of_x.Prelude.{
  ℕ, ◌+◌, ◌-◌, ◌%◌, ◌^◌, ◌<◌, ◌≡◌, refl, ap, ◌∙◌, arith, ◌==◌, ltb, if◌then◌else◌, Bool, some,
  bit_and, ==_iff, all_below_sound, ◌||◌,
}
use formal_verification_of_x.Prelude.Int.{ℤ, pos, negsuc, signed8}
use formal_verification_of_x.Prelude.Bits.{digit, digit-lt, digit-bit_and}
use formal_verification_of_x.Prelude.Masks.{digit-low_byte}
use formal_verification_of_x.Irq.{
  Pic, Machine, save_elcr, restore_elcr, i8259a_suspend, i8259a_resume,
}
use formal_verification_of_x.Irq.Masks.{last_out}

-- The byte that an int puts on a port.
abbrev pub byte_of : ℤ → ℕ
byte_of (pos n) = n % 2 ^ 8
byte_of (negsuc n) = 2 ^ 8 - 1 - n % 2 ^ 8

byte_of-signed8 : (w : ℕ) → byte_of (signed8 (w % 2 ^ 8)) ≡ w % 2 ^ 8
byte_of-signed8 w = ground arith

-- The lines whose trigger is not the system's to set: 0, 1, 2, 8 and 13.
abbrev pub is_reserved : ℕ → Bool
is_reserved irq = ltb irq 3 || (irq == 8 || irq == 13)

abbrev low_masks : ℕ → Bool
low_masks k = digit k 0xf8 == (if is_reserved k then 0 else 1)

abbrev high_masks : ℕ → Bool
high_masks k = digit k 0xde == (if is_reserved (8 + k) then 0 else 1)

-- The digits of a byte saved under a mask, as the port gets them back.
saved_digit :
    (k x mask : ℕ) (reserved : Bool)
    → k < 8
    → digit k mask ≡ (if reserved then 0 else 1)
    → digit k (byte_of (signed8 (bit_and x mask % 2 ^ 8))) ≡ (if reserved then 0 else digit k x)
saved_digit k x mask reserved lt e =
    ap (digit k) (byte_of-signed8 (bit_and x mask))
    ∙ digit-low_byte k (bit_and x mask) lt
    ∙ ground (arith, digit-bit_and k x mask, digit-lt k x)

-- A resume behind a suspend puts back, on both trigger registers, the trigger of each of the sixteen
-- lines as the suspend found it, and 0 for the reserved lines 0, 1, 2, 8 and 13.
pub resume-suspend :
    (machine : Machine) (s : Pic)
    → let s' = (i8259a_resume (i8259a_suspend machine s).0).0 in
      (v w : ℤ) × (last_out 0x4d0 s'.writes ≡ some v)
      × (last_out 0x4d1 s'.writes ≡ some w)
      × ((k : ℕ)
          → k < 8
          → digit k (byte_of v)
            ≡ (if is_reserved k then 0 else digit k (machine.inb s.writes 0x4d0)))
      × ((k : ℕ)
          → k < 8
          → digit k (byte_of w)
            ≡ (if is_reserved (8 + k) then 0 else digit k (machine.inb s.writes 0x4d1)))
unfolding i8259a_resume i8259a_suspend save_elcr restore_elcr
resume-suspend machine s = (
  signed8 (bit_and (machine.inb s.writes 0x4d0) 0xf8 % 2 ^ 8),
  signed8 (bit_and (machine.inb s.writes 0x4d1) 0xde % 2 ^ 8),
  refl,
  refl,
  (λ k lt.
      saved_digit k (machine.inb s.writes 0x4d0) 0xf8 (is_reserved k) lt
        ((==_iff _ _).0 (all_below_sound 8 low_masks k refl lt))),
  λ k lt.
      saved_digit k (machine.inb s.writes 0x4d1) 0xde (is_reserved (8 + k)) lt
        ((==_iff _ _).0 (all_below_sound 8 high_masks k refl lt)),
)

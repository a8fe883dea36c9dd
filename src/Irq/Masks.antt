-- ===== src/Irq/Masks.antt =====
-- The controllers' mask registers and the cached mask, digit by digit.
use formal_verification_of_x.Prelude.{
  ℕ, ◌+◌, ◌-◌, ◌/◌, ◌%◌, ◌^◌, ◌<◌, ◌≡◌, ◌≢◌, refl, sym, ◌∙◌, arith, ◌==◌, ltb, if◌then◌else◌, Bool,
  true, not, all_below, all_below_sound, List, [], ◌∷◌, Option, none, some, inl, inr, Bool-cases,
  bit_and, bit_or,
}
use formal_verification_of_x.Prelude.Int.{ℤ, pos}
use formal_verification_of_x.Prelude.Bits.{digit}
use formal_verification_of_x.Prelude.Masks.{digit-set, digit-clear, digit-low_byte, digit-high_byte}
use formal_verification_of_x.Irq.{
  Write, Pic, IrqDesc, write_mask, disable_8259a_irq, enable_8259a_irq,
}

-- The value that was written to a port last.
abbrev pub last_out : ℕ → List Write → Option ℤ
last_out port [] = none
last_out port (w ∷ ws) = if w.port == port then some w.value else last_out port ws

-- Both controllers have the mask that is cached: a byte each.
pub record IsInSync (s : Pic) : Type 0 where
  pub master : ℕ
  pub slave : ℕ
  pub master_written : last_out 0x21 s.writes ≡ some (pos master)
  pub slave_written : last_out 0xa1 s.writes ≡ some (pos slave)
  pub master_digits : (k : ℕ) → k < 8 → digit k master ≡ digit k s.cached_irq_mask
  pub slave_digits : (k : ℕ) → k < 8 → digit k slave ≡ digit (8 + k) s.cached_irq_mask

-- Which controller has a line.
abbrev by_bit_3 : ℕ → Bool
by_bit_3 irq = if ltb irq 8 then bit_and irq 8 == 0 else not (bit_and irq 8 == 0)

by_bit_3_table : all_below 16 by_bit_3 ≡ true
by_bit_3_table = refl

pub irq_and_8 : (irq : ℕ) → irq < 16 → (bit_and irq 8 == 0) ≡ ltb irq 8
irq_and_8 irq lt = ground (arith, all_below_sound 16 by_bit_3 irq by_bit_3_table lt)

-- A new mask that differs from the one before at most in the half that is written.
write_mask-IsInSync :
    (irq mask : ℕ) (s : Pic)
    → irq < 16
    → ((k : ℕ) → k < 16 → k ≢ irq → digit k mask ≡ digit k s.cached_irq_mask)
    → IsInSync s
    → IsInSync (write_mask irq (record s { cached_irq_mask = mask }))
unfolding write_mask
write_mask-IsInSync irq mask s lt others h = elim (Bool-cases (ltb irq 8)) [
  | inl low ↦
      rw (irq_and_8 irq lt, low)
        (record {
          master = mask % 2 ^ 8;
          slave = h.slave;
          master_written = refl;
          slave_written = h.slave_written;
          master_digits = λ k small. digit-low_byte k mask small;
          slave_digits =
              λ k small. h.slave_digits k small ∙ sym (others (8 + k) (omega arith) (ground arith));
        })
  | inr high ↦
      rw (irq_and_8 irq lt, high)
        (record {
          master = h.master;
          slave = mask / 2 ^ 8 % 2 ^ 8;
          master_written = h.master_written;
          slave_written = refl;
          master_digits =
              λ k small. h.master_digits k small ∙ sym (others k (omega arith) (ground arith));
          slave_digits = λ k small. digit-high_byte k mask small;
        })
]

pub disable-IsInSync :
    (desc : IrqDesc) (s : Pic) → desc.irq < 16 → IsInSync s → IsInSync (disable_8259a_irq desc s)
unfolding disable_8259a_irq
disable-IsInSync desc s lt h =
    write_mask-IsInSync desc.irq (bit_or s.cached_irq_mask (2 ^ desc.irq)) s lt
      (λ k small ne. ground (arith, digit-set k desc.irq s.cached_irq_mask)) h

pub enable-IsInSync :
    (desc : IrqDesc) (s : Pic) → desc.irq < 16 → IsInSync s → IsInSync (enable_8259a_irq desc s)
unfolding enable_8259a_irq
enable-IsInSync desc s lt h =
    write_mask-IsInSync desc.irq (bit_and s.cached_irq_mask (2 ^ 32 - 1 - 2 ^ desc.irq)) s lt
      (λ k small ne.
        ground (arith, digit-clear 32 k desc.irq s.cached_irq_mask (omega arith) (omega arith)))
      h

-- ===== src/Irq/Setup/Prepared.antt =====
-- What init_IRQ makes of the descriptors.
use formal_verification_of_x.Prelude.{ℕ, ◌<◌, ◌≤◌, ◌≡◌, ◌≢◌, ltb, true}
use formal_verification_of_x.Irq.{Pic, IrqDesc, Machine}
use formal_verification_of_x.Irq.Setup.{plus}

-- The descriptor that init_IRQ makes of one.
abbrev pub prepared : Machine → ℕ → IrqDesc → IrqDesc
prepared machine irq desc = record desc {
  handled = true;
  vector = plus machine.first_legacy_vector irq;
}

-- The descriptors behind the loop from line `irq` on, where `n` lines are legacy ones.
pub record IsPrepared (machine : Machine) (irq n : ℕ) (s s' : Pic) : Type 0 where
  pub same_writes : s'.writes ≡ s.writes
  pub same_mask : s'.cached_irq_mask ≡ s.cached_irq_mask
  pub done :
      (k : ℕ)
      → irq ≤ k
      → k < n
      → k ≢ 2
      → s'.descs (machine.irq_to_desc k) ≡ prepared machine k (s.descs (machine.irq_to_desc k))
  pub kept :
      (a : ℕ)
      → ((k : ℕ) → irq ≤ k → k < n → k ≢ 2 → machine.irq_to_desc k ≢ a)
      → s'.descs a ≡ s.descs a

-- The descriptors of different lines are different, and `n` lines are legacy ones.
pub record IsLegacy (machine : Machine) (n : ℕ) : Type 0 where
  pub legacy : (irq : ℕ) → machine.platform_legacy_irq irq ≡ ltb irq n
  pub apart : (j k : ℕ) → machine.irq_to_desc j ≡ machine.irq_to_desc k → j ≡ k

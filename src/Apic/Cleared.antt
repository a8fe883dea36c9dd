-- ===== src/Apic/Cleared.antt =====
-- The writes of clear_local_APIC, in their order.
use formal_verification_of_x.Prelude.{ℕ, ◌≡◌, ◌⊎◌, if◌then◌else◌, List, [], ◌∷◌}
use formal_verification_of_x.Prelude.Int.{ℤ, pos, ltb_ℤ}
use formal_verification_of_x.Prelude.Bits.{digit}
use formal_verification_of_x.Apic.{ApicOps, ApicNames}

-- `writes` tells the writes to the registers so far, the last one first. What a register reads as is left open.
pub record IsLogged {S : Type 0} (ops : ApicOps S) (writes : S → List (ℕ × ℕ)) : Type 0 where
  pub logs : (r v : ℕ) (s : S) → writes (ops.apic_write r v s) ≡ (r, v) ∷ writes s

-- The registers for so many entries, the last one first.
abbrev pub written : ApicNames → ℤ → List ℕ
written names maxlvt =
    let first =
      if ltb_ℤ maxlvt (pos 3)
      then names.apic_tmict ∷ []
      else names.apic_lvterr ∷ names.apic_tmict ∷ [] in
    let three = names.apic_lvt1 ∷ names.apic_lvt0 ∷ names.apic_lvtt ∷ first in
    if ltb_ℤ maxlvt (pos 4) then three else names.apic_lvtpc ∷ three

module _ (names : ApicNames) (m : ℕ) where
  -- A write that lets no interrupt through: it stops the timer, or has the mask bit, digit `m`.
  abbrev pub IsSilent : ℕ → ℕ → Type 0
  IsSilent r v = (r ≡ names.apic_tmict) × (v ≡ 0) ⊎ (digit m v ≡ 1)

  -- The writes `new` are silent ones to these registers, the last one first, behind the writes `old`.
  abbrev pub IsWritten : List ℕ → List (ℕ × ℕ) → List (ℕ × ℕ) → Type 0
  IsWritten [] old new = new ≡ old
  IsWritten (r ∷ rs) old new =
      (v : ℕ) × (before : List (ℕ × ℕ)) × (new ≡ (r, v) ∷ before)
      × IsSilent r v
      × IsWritten rs old before

-- ===== src/Irq/Refines.antt =====
-- Runs of disable_8259A_irq and enable_8259A_irq, and a set of masked lines.
use formal_verification_of_x.Prelude.{
  ℕ, ◌+◌, ◌-◌, ◌^◌, ◌<◌, ◌≡◌, refl, sym, ap, ◌∙◌, arith, ◌==◌, ltb, if◌then◌else◌, Bool, true,
  false, List, [], ◌∷◌, Option, none, some, inl, inr, Bool-cases, bit_and, bit_or,
}
use formal_verification_of_x.Prelude.Int.{ℤ, pos_part}
use formal_verification_of_x.Prelude.Bits.{digit}
use formal_verification_of_x.Prelude.Masks.{digit-set, digit-clear}
use formal_verification_of_x.Irq.{Pic, IrqDesc, write_mask, disable_8259a_irq, enable_8259a_irq}
use formal_verification_of_x.Irq.Masks.{last_out, IsInSync, disable-IsInSync, enable-IsInSync}

-- The specification: the lines that are masked. An operation is on a line.
pub data Op : Type 0 where
  disable enable : IrqDesc → Op

abbrev pub line : Op → ℕ
line (disable desc) = desc.irq
line (enable desc) = desc.irq

abbrev pub apply : Op → (ℕ → Bool) → ℕ → Bool
apply (disable desc) masked k = if k == desc.irq then true else masked k
apply (enable desc) masked k = if k == desc.irq then false else masked k

pub replay : List Op → (ℕ → Bool) → ℕ → Bool
replay [] masked = masked
replay (op ∷ ops) masked = replay ops (apply op masked)

-- The same operations by the code.
abbrev pub perform : Op → Pic → Pic
perform (disable desc) s = disable_8259a_irq desc s
perform (enable desc) s = enable_8259a_irq desc s

pub run : List Op → Pic → Pic
run [] s = s
run (op ∷ ops) s = run ops (perform op s)

-- The lines that the controllers mask: digit by digit what was last written to their mask registers.
abbrev pub value_of : Option ℤ → ℕ
value_of none = 0
value_of (some v) = pos_part v

abbrev pub value_out : ℕ → Pic → ℕ
value_out port s = value_of (last_out port s.writes)

abbrev pub masked_lines : Pic → ℕ → Bool
masked_lines s k =
    if ltb k 8 then digit k (value_out 0x21 s) == 1 else digit (k - 8) (value_out 0xa1 s) == 1

abbrev pub AllLegacy : List Op → Type 0
AllLegacy [] = Unit
AllLegacy (op ∷ ops) = (line op < 16) × AllLegacy ops

-- In sync, the controllers mask what the cache says.
masked_lines-IsInSync :
    (s : Pic) (k : ℕ) → IsInSync s → k < 16 → masked_lines s k ≡ (digit k s.cached_irq_mask == 1)
masked_lines-IsInSync s k h lt = elim (Bool-cases (ltb k 8)) [
  | inl low ↦ rw low (
      ap (λ (v : Option ℤ). digit k (value_of v) == 1) h.master_written
      ∙ ap (λ (b : ℕ). b == 1) (h.master_digits k (ground arith)))
  | inr high ↦
      let e : 8 + (k - 8) ≡ k = ground arith in
      rw high (
        ap (λ (v : Option ℤ). digit (k - 8) (value_of v) == 1) h.slave_written
        ∙ ap (λ (b : ℕ). b == 1) (h.slave_digits (k - 8) (ground arith))
        ∙ ap (λ (j : ℕ). digit j s.cached_irq_mask == 1) e)
]

perform-IsInSync : (op : Op) (s : Pic) → line op < 16 → IsInSync s → IsInSync (perform op s)
perform-IsInSync (disable desc) s lt h = disable-IsInSync desc s lt h
perform-IsInSync (enable desc) s lt h = enable-IsInSync desc s lt h

-- The cached mask behind a write of the mask.
cached-write_mask : (irq : ℕ) (s : Pic) → (write_mask irq s).cached_irq_mask ≡ s.cached_irq_mask
unfolding write_mask
cached-write_mask irq s = elim (Bool-cases (bit_and irq 8 == 0)) [
  | inl low ↦ rw low refl
  | inr high ↦ rw high refl
]

perform-digit :
    (op : Op) (s : Pic) (k : ℕ)
    → line op < 16
    → k < 16
    → (digit k (perform op s).cached_irq_mask == 1)
      ≡ apply op (λ (j : ℕ). digit j s.cached_irq_mask == 1) k
unfolding disable_8259a_irq enable_8259a_irq
perform-digit (disable desc) s k lt k_lt = ground (
  arith,
  cached-write_mask desc.irq
      (record s { cached_irq_mask = bit_or s.cached_irq_mask (2 ^ desc.irq) }),
  digit-set k desc.irq s.cached_irq_mask,
)
perform-digit (enable desc) s k lt k_lt = ground (
  arith,
  cached-write_mask desc.irq
      (record s { cached_irq_mask = bit_and s.cached_irq_mask (2 ^ 32 - 1 - 2 ^ desc.irq) }),
  digit-clear 32 k desc.irq s.cached_irq_mask (omega arith) (omega arith),
)

replay_digits :
    (ops : List Op) (s : Pic) (masked : ℕ → Bool)
    → AllLegacy ops
    → ((k : ℕ) → k < 16 → (digit k s.cached_irq_mask == 1) ≡ masked k)
    → (k : ℕ) → k < 16
    → (digit k (run ops s).cached_irq_mask == 1) ≡ replay ops masked k
unfolding run replay
replay_digits [] s masked legacy h k lt = h k lt
replay_digits (op ∷ ops) s masked legacy h k lt =
    replay_digits ops (perform op s) (apply op masked) legacy.1
      (λ j small. perform-digit op s j legacy.0 small ∙ apply_congr op _ masked j (h j small)) k lt
  where
    apply_congr : (op : Op) (a b : ℕ → Bool) (j : ℕ) → a j ≡ b j → apply op a j ≡ apply op b j
    apply_congr (disable desc) a b j e = ap (λ (x : Bool). if j == desc.irq then true else x) e
    apply_congr (enable desc) a b j e = ap (λ (x : Bool). if j == desc.irq then false else x) e

run-IsInSync : (ops : List Op) (s : Pic) → AllLegacy ops → IsInSync s → IsInSync (run ops s)
unfolding run
run-IsInSync [] s legacy h = h
run-IsInSync (op ∷ ops) s legacy h =
    run-IsInSync ops (perform op s) legacy.1 (perform-IsInSync op s legacy.0 h)

-- From controllers that have the cached mask, any run of disable_8259A_irq and enable_8259A_irq on the
-- sixteen lines leaves the controllers masking exactly the lines that the same operations on a set
-- of lines leave in it.
pub run_refines :
    (ops : List Op) (s : Pic)
    → AllLegacy ops
    → IsInSync s
    → (k : ℕ) → k < 16
    → masked_lines (run ops s) k ≡ replay ops (masked_lines s) k
run_refines ops s legacy h k lt =
    masked_lines-IsInSync (run ops s) k (run-IsInSync ops s legacy h) lt
    ∙ replay_digits ops s (masked_lines s) legacy
        (λ j small. sym (masked_lines-IsInSync s j h small)) k lt

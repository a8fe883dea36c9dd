-- ===== src/Monitor/Msr/Marked.antt =====
-- The bits that monitor_enable_msr and monitor_disable_msr change.
use formal_verification_of_x.Prelude.{
  ℕ, ◌+◌, ◌*◌, ◌%◌, ◌^◌, ◌≡◌, ◌≢◌, refl, ap, ◌∙◌, arith, ◌==◌, if◌then◌else◌, inl, inr, Bool, true,
  false, Bool-cases, ==_iff, ◌<◌,
}
use formal_verification_of_x.Monitor.{MonitoredDomain, MonitorPlatform, truth}
use formal_verification_of_x.Monitor.Msr.{
  monitor_bitmap_for_msr, enable_in, disable_in, monitor_enable_msr, monitor_disable_msr,
}

-- __set_bit and __clear_bit change just the bit of their number.
pub record IsBitwise (p : MonitorPlatform) : Type 0 where
  pub sets : (i : ℕ) (b : ℕ → Bool) (k : ℕ) → p.set_bit i b k ≡ (if i == k then true else b k)
  pub clears : (i : ℕ) (b : ℕ → Bool) (k : ℕ) → p.clear_bit i b k ≡ (if i == k then false else b k)

-- The bit that tells whether only a change of the register is of interest.
abbrev pub second_bit : MonitorPlatform → ℕ → ℕ
second_bit p i = (i + p.sizeof_msr_bitmap * 8) % 2 ^ 64

module _ (p : MonitorPlatform) (bitwise : IsBitwise p) (d : MonitoredDomain) (a i : ℕ) where
  enable_in-bit :
      (onchangeonly : Bool) (b k : ℕ)
      → a ≢ 0
      → (enable_in p d onchangeonly (a, i)).0.bitmaps b k ≡ (
          if a == b
          then (if second_bit p i == k
              then onchangeonly
              else if i == k
              then true
              else d.bitmaps b k)
          else d.bitmaps b k)
  enable_in-bit true b k ne =
      let there : (a == 0) ≡ false = ground arith in
      elim (Bool-cases (a == b)) [
        | inl here ↦
            rw (there, here)
              (bitwise.sets (second_bit p i) (p.set_bit i (d.bitmaps b)) k
                ∙ ap (λ x. if second_bit p i == k then true else x)
                    (bitwise.sets i (d.bitmaps b) k))
        | inr elsewhere ↦ rw (there, elsewhere) refl
      ]
  enable_in-bit false b k ne =
      let there : (a == 0) ≡ false = ground arith in
      elim (Bool-cases (a == b)) [
        | inl here ↦
            rw (there, here)
              (bitwise.clears (second_bit p i) (p.set_bit i (d.bitmaps b)) k
                ∙ ap (λ x. if second_bit p i == k then false else x)
                    (bitwise.sets i (d.bitmaps b) k))
        | inr elsewhere ↦ rw (there, elsewhere) refl
      ]

  disable_in-bit :
      (b k : ℕ)
      → a ≢ 0
      → i < 2 ^ 32
      → (disable_in p d (a, i)).0.bitmaps b k
        ≡ (if a == b then if i == k then false else d.bitmaps b k else d.bitmaps b k)
  disable_in-bit b k ne lt =
      let low : i % 2 ^ 32 ≡ i = omega arith in
      let there : (a == 0) ≡ false = ground arith in
      elim (Bool-cases (a == b)) [
        | inl here ↦ rw (there, here, low) (bitwise.clears i (d.bitmaps b) k)
        | inr elsewhere ↦ rw (there, elsewhere) refl
      ]

-- Only the bitmaps change.
enable_in-frame :
    (p : MonitorPlatform) (d : MonitoredDomain) (onchangeonly : Bool) (a i : ℕ)
    → (enable_in p d onchangeonly (a, i)).0
      ≡ record d { bitmaps = (enable_in p d onchangeonly (a, i)).0.bitmaps }
enable_in-frame p d onchangeonly a i = elim (Bool-cases (a == 0)) [
  | inl e ↦ rw e refl
  | inr e ↦ elim (Bool-cases onchangeonly) [ inl o ↦ rw (e, o) refl | inr o ↦ rw (e, o) refl ]
]

enable_msr-there :
    (p : MonitorPlatform) (d : MonitoredDomain) (msr : ℕ) (onchangeonly : Bool)
    → truth d.arch.msr_bitmap ≡ true
    → monitor_enable_msr p d msr onchangeonly
      ≡ enable_in p d onchangeonly (monitor_bitmap_for_msr d msr)
unfolding monitor_enable_msr
enable_msr-there p d msr onchangeonly has = rw has refl

disable_msr-there :
    (p : MonitorPlatform) (d : MonitoredDomain) (f : ℕ → ℕ → Bool) (msr : ℕ)
    → truth d.arch.msr_bitmap ≡ true
    → p.behind_msr ≡ 0
    → msr < 2 ^ 32
    → monitor_disable_msr p (record d { bitmaps = f }) msr
      ≡ disable_in p (record d { bitmaps = f }) (monitor_bitmap_for_msr d msr)
unfolding monitor_disable_msr monitor_bitmap_for_msr
disable_msr-there p d f msr has nothing lt =
    let same : msr % 2 ^ 32 + 2 ^ 32 * p.behind_msr ≡ msr = omega arith in rw (has, same) refl

-- The number of a register's bit is as small as that of the register.
place-lt :
    (d : MonitoredDomain) (msr : ℕ) → msr < 2 ^ 32 → (monitor_bitmap_for_msr d msr).1 < 2 ^ 32
unfolding monitor_bitmap_for_msr
place-lt d msr lt = elim (Bool-cases (msr == 0x1fff)) [
  | inl low ↦ rw low lt
  | inr _ ↦ elim (Bool-cases (msr == 0x40000000)) [
    | inl e ↦ let here : msr ≡ 0x40000000 = (==_iff msr 0x40000000).0 e in rw here (omega arith)
    | inr _ ↦ elim (Bool-cases (msr == 0xc0001fff)) [
      | inl e ↦ let here : msr ≡ 0xc0001fff = (==_iff msr 0xc0001fff).0 e in rw here (omega arith)
      | inr _ ↦ ground arith
    ]
  ]
]

-- The registers that the hypervisor adds: the first of them has the first bit.
pub hypervisor_bitmap :
    (d : MonitoredDomain) → monitor_bitmap_for_msr d 0x40000000 ≡ (d.hypervisor, 0)
unfolding monitor_bitmap_for_msr
hypervisor_bitmap d = refl

-- On a domain with a bitmap, for a register's number of 32 bits with zeros behind the parameter of
-- monitor_disable_msr, and with bit operations that change one bit, for a register that has a place
-- in its bitmaps: monitor_enable_msr sets the bit of the register and makes the second bit say whether only
-- changes are of interest; monitor_disable_msr behind it clears the first of these bits. No other bit of
-- any bitmap changes.
pub disable_msr-enable_msr :
    (p : MonitorPlatform) (d : MonitoredDomain) (msr : ℕ) (onchangeonly : Bool) (b k : ℕ)
    → IsBitwise p
    → truth d.arch.msr_bitmap ≡ true
    → (monitor_bitmap_for_msr d msr).0 ≢ 0
    → p.behind_msr ≡ 0
    → msr < 2 ^ 32
    → let (a, i) = monitor_bitmap_for_msr d msr in
      let enabled = (monitor_enable_msr p d msr onchangeonly).0 in
      (enabled.bitmaps b k ≡ (
        if a == b
        then (if second_bit p i == k then onchangeonly else if i == k then true else d.bitmaps b k)
        else d.bitmaps b k))
      × ((monitor_disable_msr p enabled msr).0.bitmaps b k
          ≡ (if a == b then if i == k then false else enabled.bitmaps b k else enabled.bitmaps b k))
disable_msr-enable_msr p d msr onchangeonly b k bitwise has found nothing lt =
    rw (enable_msr-there p d msr onchangeonly has) (
      enable_in-bit p bitwise d a i onchangeonly b k found,
      ap (λ s. (monitor_disable_msr p s msr).0.bitmaps b k) (enable_in-frame p d onchangeonly a i)
          ∙ ap (λ r. r.0.bitmaps b k) (disable_msr-there p d enabled msr has nothing lt)
          ∙ disable_in-bit p bitwise (record d { bitmaps = enabled }) a i b k found
              (place-lt d msr lt),
    )
  where
    a : ℕ
    a = (monitor_bitmap_for_msr d msr).0

    i : ℕ
    i = (monitor_bitmap_for_msr d msr).1

    enabled : ℕ → ℕ → Bool
    enabled = (enable_in p d onchangeonly (a, i)).0.bitmaps

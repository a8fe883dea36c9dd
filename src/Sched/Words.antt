-- ===== src/Sched/Words.antt =====
-- Longs in the bytes of a memory.
use formal_verification_of_x.Prelude.{
  ℕ, zero, suc, ◌+◌, ◌-◌, ◌*◌, ◌/◌, ◌%◌, ◌^◌, ◌<◌, ◌≤◌, ◌≡◌, refl, ap, ◌∙◌, arith, ◌⊎◌,
}
use native.Mathlib.Nat.{pow-suc}
use formal_verification_of_x.Sched.{Bytes, long_byte, store_long}

-- The value of the `n` bytes from `p` on, the lowest first.
abbrev pub load : ℕ → Bytes → ℕ → ℕ
load zero m p = 0
load (suc n) m p = m p + 256 * load n m (p + 1)

pub load_same :
    (n : ℕ) (m m' : Bytes) (p : ℕ)
    → ((a : ℕ) → p ≤ a → a < p + n → m a ≡ m' a)
    → load n m p ≡ load n m' p
load_same zero m m' p h = refl
load_same (suc n) m m' p h =
    let here : m p ≡ m' p = h p (omega arith) (omega arith) in
    let there = load_same n m m' (p + 1) (λ a le lt. h a (omega arith) (omega arith)) in
    rw (here, there) refl

-- The bytes of `v`, put together again.
load_bytes :
    (n : ℕ) (m : Bytes) (p v : ℕ)
    → v < 256 ^ n
    → ((i : ℕ) → i < n → m (p + i) ≡ long_byte i v)
    → load n m p ≡ v
load_bytes zero m p v lt h = omega arith
load_bytes (suc n) m p v lt h =
    let here : m p ≡ v % 256 = ap m (omega arith) ∙ h 0 (omega arith) in
    let there : load n m (p + 1) ≡ v / 256 =
      load_bytes n m (p + 1) (v / 256) (omega (arith, pow-suc 256 n))
        (λ i l. ap m (omega arith) ∙ h (suc i) (omega arith)) in
    rw (here, there) (omega arith)

pub load-store_long : (m : Bytes) (p v : ℕ) → v < 2 ^ 64 → load 8 (store_long p v m) p ≡ v
unfolding store_long
load-store_long m p v lt =
    load_bytes 8 (store_long p v m) p v (omega arith)
      (λ i l. let e : p + i - p ≡ i = omega arith in rw e (ground arith))

-- A long that is stored apart from these bytes leaves them.
pub load-store_apart :
    (m : Bytes) (n p q v : ℕ) → p + n ≤ q ⊎ q + 8 ≤ p → load n (store_long q v m) p ≡ load n m p
unfolding store_long
load-store_apart m n p q v apart = load_same n (store_long q v m) m p (λ a le lt. ground arith)

pub store_long_outside : (m : Bytes) (p v a : ℕ) → a < p ⊎ p + 8 ≤ a → store_long p v m a ≡ m a
unfolding store_long
store_long_outside m p v a apart = ground arith

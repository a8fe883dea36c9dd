-- ===== src/PerCpu/Order.antt =====
-- get_order_from_bytes against the sizes of blocks.
use formal_verification_of_x.Prelude.{
  ℕ, zero, suc, ◌+◌, ◌-◌, ◌*◌, ◌/◌, ◌%◌, ◌^◌, ◌<◌, ◌≤◌, ◌≡◌, ◌≢◌, ap, ◌∙◌, arith, ◌==◌, false, some,
  inl, inr, Bool-cases,
}
use native.Mathlib.Nat.{mod-eq_of_lt, add-mod_right, pow-suc}
use formal_verification_of_x.PerCpu.{order_loop, get_order_from_bytes}

-- The smallest order of a number of pages, less one.
record IsOrder (size k : ℕ) : Type 0 where
  below : size < 2 ^ k
  least : (j : ℕ) → j < k → 2 ^ j ≤ size

IsOrder-suc : (size k : ℕ) → size ≢ 0 → IsOrder (size / 2) k → IsOrder size (suc k)
IsOrder-suc size k ne h = record {
  below = let b = h.below in omega (arith, pow-suc 2 k);
  least = least_of;
}
  where
    least_of : (j : ℕ) → j < suc k → 2 ^ j ≤ size
    least_of zero lt = omega arith
    least_of (suc i) lt = let b = h.least i (omega arith) in omega (arith, pow-suc 2 i)

order_loop-halves :
    (fuel size order : ℕ)
    → (size == 0) ≡ false
    → order + 1 < 2 ^ 32
    → order_loop (suc fuel) size order ≡ order_loop fuel (size / 2) (order + 1)
unfolding order_loop
order_loop-halves fuel size order ne small =
    let e : (order + 1) % 2 ^ 32 ≡ order + 1 = mod-eq_of_lt small in rw (ne, e)

order_loop-IsOrder :
    (fuel size order : ℕ)
    → size < 2 ^ fuel
    → order + fuel < 2 ^ 32
    → (k : ℕ) × (order_loop (suc fuel) size order ≡ some (k + order)) × IsOrder size k
unfolding order_loop
order_loop-IsOrder zero size order lt small =
    (0, ground arith, record { below = lt; least = λ j l. absurd (omega arith) })
order_loop-IsOrder (suc fuel) size order lt small = elim (Bool-cases (size == 0)) [
  | inl e ↦ (
    0,
    rw e (ap some (omega arith)),
    record { below = ground arith; least = λ j l. absurd (omega arith) },
  )
  | inr ne ↦
      let double = pow-suc 2 fuel in
      let (k, found, least) =
        order_loop-IsOrder fuel (size / 2) (order + 1) (omega arith) (omega arith) in
      (
        suc k,
        order_loop-halves (suc fuel) size order ne (omega arith) ∙ found ∙ ap some (shift k order),
        IsOrder-suc size k (ground arith) least,
      )
]
  where
    shift : (a b : ℕ) → a + (b + 1) ≡ suc a + b
    shift a b = omega arith

-- For every size from 1 to 2^64 - 1, get_order_from_bytes ends, and its answer is the smallest order
-- whose block of 4096 * 2^order bytes has room for that many.
pub get_order_from_bytes-IsLeast :
    (size : ℕ)
    → 0 < size
    → size < 2 ^ 64
    → (k : ℕ) × (get_order_from_bytes size ≡ some k)
      × (size ≤ 2 ^ 12 * 2 ^ k)
      × ((j : ℕ) → j < k → 2 ^ 12 * 2 ^ j < size)
unfolding get_order_from_bytes
get_order_from_bytes-IsLeast size some_ lt =
    let e : (size + 2 ^ 64 - 1) % 2 ^ 64 ≡ size - 1 =
      ap (λ s. s % 2 ^ 64) (omega arith)
      ∙ add-mod_right (size - 1) (2 ^ 64)
      ∙ mod-eq_of_lt (omega arith) in
    let (k, found, h) = order_loop-IsOrder 52 ((size - 1) / 2 ^ 12) 0 (omega arith) (omega arith) in
    let b = h.below in
    (
      k,
      ap (λ s. order_loop 53 (s / 2 ^ 12) 0) e ∙ found ∙ ap some (omega arith),
      fits k b,
      λ j l. short j (h.least j l),
    )
  where
    fits : (k : ℕ) → (size - 1) / 2 ^ 12 < 2 ^ k → size ≤ 2 ^ 12 * 2 ^ k
    fits k b = omega arith

    short : (j : ℕ) → 2 ^ j ≤ (size - 1) / 2 ^ 12 → 2 ^ 12 * 2 ^ j < size
    short j b = omega arith

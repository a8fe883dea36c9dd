-- ===== src/Srat/Slit/Valid.antt =====
-- slit_valid accepts exactly the tables with 10 on the diagonal and more elsewhere.
use formal_verification_of_x.Prelude.{
  ℕ, zero, suc, ◌+◌, ◌*◌, ◌%◌, ◌^◌, ◌<◌, ◌≤◌, ◌≡◌, ◌≢◌, ◌↔◌, refl, arith, true, false, Bool-cases,
  inl, inr,
}
use native.Mathlib.Decide.{dec_lt}
use native.Mathlib.Nat.{mod-eq_of_lt}
use formal_verification_of_x.Srat.Slit.{Slit, wrong, row_valid, rows_valid, slit_valid}

row_valid_sound :
    (rounds : ℕ) (slit : Slit) (i j k : ℕ)
    → row_valid rounds slit i j ≡ true
    → j ≤ k
    → k < j + rounds
    → wrong slit i k ≡ false
unfolding row_valid
row_valid_sound zero slit i j k h le lt = absurd (omega arith)
row_valid_sound (suc rounds) slit i j k h le lt = elim (Bool-cases (wrong slit i j)) [
  | inl bad ↦ absurd (cc (rw bad at h))
  | inr good ↦ elim (dec_lt j k) [
    | yes more ↦ row_valid_sound rounds slit i (j + 1) k (rw good at h) (omega arith) (omega arith)
    | no same ↦ let e : k ≡ j = omega arith in rw e good
  ]
]

row_valid_complete :
    (rounds : ℕ) (slit : Slit) (i j : ℕ)
    → ((k : ℕ) → j ≤ k → k < j + rounds → wrong slit i k ≡ false)
    → row_valid rounds slit i j ≡ true
unfolding row_valid
row_valid_complete zero slit i j h = refl
row_valid_complete (suc rounds) slit i j h =
    rw (h j (omega arith) (omega arith))
      (row_valid_complete rounds slit i (j + 1) (λ k le lt. h k (omega arith) (omega arith)))

rows_valid_sound :
    (rounds : ℕ) (slit : Slit) (i k : ℕ)
    → rows_valid rounds slit i ≡ 1
    → i ≤ k
    → k < i + rounds
    → row_valid slit.locality_count slit k 0 ≡ true
unfolding rows_valid
rows_valid_sound zero slit i k h le lt = absurd (omega arith)
rows_valid_sound (suc rounds) slit i k h le lt =
    elim (Bool-cases (row_valid slit.locality_count slit i 0)) [
      | inr bad ↦ absurd (ground arith)
      | inl good ↦ elim (dec_lt i k) [
        | yes more ↦
            rows_valid_sound rounds slit (i + 1) k (rw good at h) (omega arith) (omega arith)
        | no same ↦ let e : k ≡ i = omega arith in rw e good
      ]
    ]

rows_valid_complete :
    (rounds : ℕ) (slit : Slit) (i : ℕ)
    → ((k : ℕ) → i ≤ k → k < i + rounds → row_valid slit.locality_count slit k 0 ≡ true)
    → rows_valid rounds slit i ≡ 1
unfolding rows_valid
rows_valid_complete zero slit i h = refl
rows_valid_complete (suc rounds) slit i h =
    rw (h i (omega arith) (omega arith))
      (rows_valid_complete rounds slit (i + 1) (λ k le lt. h k (omega arith) (omega arith)))

-- The distance from locality `i` to locality `j`.
abbrev pub entry_of : Slit → ℕ → ℕ → ℕ
entry_of slit i j = slit.entry (slit.locality_count * i + j)

index_fits : (d i j : ℕ) → d * d < 2 ^ 32 → i < d → j < d → (d * i + j) % 2 ^ 32 ≡ d * i + j
index_fits d i j small li lj = mod-eq_of_lt (bound d i j small li lj)
  where
    bound : (d i j : ℕ) → d * d < 2 ^ 32 → i < d → j < d → d * i + j < 2 ^ 32
    bound d i j small li lj = grind arith

-- For a table whose entries can be numbered by an unsigned, slit_valid answers 1 exactly when every
-- locality is at distance 10 from itself and at a larger distance from every other.
pub slit_valid_iff :
    (slit : Slit)
    → slit.locality_count * slit.locality_count < 2 ^ 32
    → (slit_valid slit ≡ 1) ↔ (
        (i j : ℕ)
        → i < slit.locality_count
        → j < slit.locality_count
        → (i ≡ j → entry_of slit i j ≡ 10) × (i ≢ j → 10 < entry_of slit i j))
unfolding slit_valid
slit_valid_iff slit small = (
  λ h i j li lj.
      let w : wrong slit i j ≡ false =
        row_valid_sound slit.locality_count slit i 0 j
          (rows_valid_sound slit.locality_count slit 0 i h (omega arith) (omega arith))
          (omega arith) (omega arith) in
      let e = index_fits slit.locality_count i j small li lj in
      (λ same. ground arith, λ differ. ground arith),
  λ h. rows_valid_complete slit.locality_count slit 0 (λ i le li.
      row_valid_complete slit.locality_count slit i 0 (λ j le lj. ground (
        arith,
        index_fits slit.locality_count i j small (omega arith) (omega arith),
        (h i j (omega arith) (omega arith)).0,
        (h i j (omega arith) (omega arith)).1,
      ))),
)

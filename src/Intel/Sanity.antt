-- ===== src/Intel/Sanity.antt =====
-- microcode_sanity_check against a description of the updates that a loader takes.
use formal_verification_of_x.Prelude.{
  ℕ, zero, suc, ◌+◌, ◌-◌, ◌*◌, ◌/◌, ◌%◌, ◌^◌, ◌≡◌, ◌≤◌, ◌<◌, ◌↔◌, sym, ap, ◌∙◌, arith,
}
use formal_verification_of_x.Prelude.Int.{pos}
use native.Mathlib.Nat.{
  pow-le-pow_right, mod-eq_of_lt, mod-lt, lt_of_le_of_lt, div-le_self, add-mod-mod, add-mod_right,
}
use formal_verification_of_x.Intel.{
  Update, returned, total_size_of, data_size_of, sum_words, orig_sum, microcode_sanity_check,
}

-- The sum of the first `n` words, without wrap-around.
abbrev pub whole_sum : (ℕ → ℕ) → ℕ → ℕ
whole_sum words zero = 0
whole_sum words (suc n) = words n + whole_sum words n

-- An update that the loader takes: no extended signatures behind the data, versions 1, checksum 0.
pub record IsSane (w : ℕ) (mc : Update) : Type 0 where
  pub versions : (mc.hdr.ldrver ≡ 1) × (mc.hdr.hdrver ≡ 1)
  pub no_table : total_size_of mc.hdr ≡ data_size_of mc.hdr + 52
  pub checksum : whole_sum mc.words (total_size_of mc.hdr / w) % 2 ^ (8 * w) ≡ 0

big_word : (w : ℕ) → 4 ≤ w → 2 ^ 32 ≤ 2 ^ (8 * w)
big_word w four = pow-le-pow_right {n = 2} (omega arith) {i = 32} {j = 8 * w} (omega arith)

sum_words_sound :
    (w : ℕ) (words : ℕ → ℕ) (n sum : ℕ)
    → 0 < 2 ^ (8 * w)
    → sum < 2 ^ (8 * w)
    → sum_words w words n sum ≡ (whole_sum words n + sum) % 2 ^ (8 * w)
unfolding sum_words
sum_words_sound w words zero sum some_word lt =
    sym (ap (λ s. s % 2 ^ (8 * w)) (omega arith) ∙ mod-eq_of_lt lt)
sum_words_sound w words (suc n) sum some_word lt =
    sum_words_sound w words n ((sum + words n) % 2 ^ (8 * w)) some_word (mod-lt _ some_word)
    ∙ add-mod-mod (whole_sum words n) (sum + words n) (2 ^ (8 * w))
    ∙ ap (λ s. s % 2 ^ (8 * w)) (omega arith)

orig_sum_sound :
    (w : ℕ) (mc : Update)
    → 4 ≤ w
    → data_size_of mc.hdr + 52 < 2 ^ 32
    → orig_sum w mc ≡ whole_sum mc.words ((data_size_of mc.hdr + 52) / w) % 2 ^ (8 * w)
orig_sum_sound w mc four small =
    let big = big_word w four in
    let n = (data_size_of mc.hdr + 52) / w in
    let e : (52 + data_size_of mc.hdr) % 2 ^ (8 * w) ≡ data_size_of mc.hdr + 52 =
      ap (λ s. s % 2 ^ (8 * w)) (omega arith) ∙ mod-eq_of_lt (omega arith) in
    let few : n % 2 ^ 32 ≡ n =
      mod-eq_of_lt (lt_of_le_of_lt (div-le_self (data_size_of mc.hdr + 52) w) small) in
    ap (λ s. sum_words w mc.words (s / w % 2 ^ 32) 0) e
    ∙ ap (λ s. sum_words w mc.words s 0) few
    ∙ sum_words_sound w mc.words n 0 (omega arith) (omega arith)
    ∙ ap (λ s. s % 2 ^ (8 * w)) (omega arith)

wrapped_difference : (t n m : ℕ) → n ≤ t → t < m → (t + m - n) % m ≡ t - n
wrapped_difference t n m le lt =
    ap (λ s. s % m) (omega arith) ∙ add-mod_right (t - n) m ∙ mod-eq_of_lt (omega arith)

-- On an unsigned long of `w` bytes, at least four, and sizes below 2^32: microcode_sanity_check answers 0
-- exactly for the updates of loader and header version 1 that have no table of extended signatures and
-- whose words sum to 0 modulo 2^(8w). One with a table is never accepted.
pub microcode_sanity_check-IsSane :
    (w : ℕ) (mc : Update)
    → 4 ≤ w
    → data_size_of mc.hdr + 52 < 2 ^ 32
    → total_size_of mc.hdr < 2 ^ 32
    → (microcode_sanity_check w mc ≡ returned (pos 0)) ↔ IsSane w mc
unfolding microcode_sanity_check
microcode_sanity_check-IsSane w mc four small small' =
    let big = big_word w four in
    let e : (data_size_of mc.hdr + 52) % 2 ^ (8 * w) ≡ data_size_of mc.hdr + 52 =
      mod-eq_of_lt (omega arith) in
    let e' : (52 + data_size_of mc.hdr) % 2 ^ (8 * w) ≡ data_size_of mc.hdr + 52 =
      ap (λ s. s % 2 ^ (8 * w)) (omega arith) ∙ e in
    let o = orig_sum_sound w mc four small in
    let left : data_size_of mc.hdr + 52 ≤ total_size_of mc.hdr
        → (total_size_of mc.hdr + 2 ^ (8 * w) - (52 + data_size_of mc.hdr) % 2 ^ (8 * w))
            % 2 ^ (8 * w)
          ≡ total_size_of mc.hdr - (data_size_of mc.hdr + 52) =
      λ le.
        ap (λ s. (total_size_of mc.hdr + 2 ^ (8 * w) - s) % 2 ^ (8 * w)) e'
        ∙ wrapped_difference _ _ _ le (omega arith) in
    (
      λ h.
          let le : data_size_of mc.hdr + 52 ≤ total_size_of mc.hdr = ground arith in
          let none_left : (total_size_of mc.hdr
                  + 2 ^ (8 * w)
                  - (52 + data_size_of mc.hdr) % 2 ^ (8 * w))
                % 2 ^ (8 * w)
              ≡ 0 =
            ground arith in
          let e'' = left le in
          let zero_sum : orig_sum w mc ≡ 0 = ground arith in
          let same : total_size_of mc.hdr ≡ data_size_of mc.hdr + 52 = omega arith in
          record {
            versions = (ground arith, ground arith);
            no_table = same;
            checksum = rw same (sym o ∙ zero_sum);
          },
      λ s.
          let e'' = left (omega arith) in
          let zero_sum : orig_sum w mc ≡ 0 = o ∙ rw (← s.no_table) s.checksum in
          let fst = s.versions.0 in let snd = s.versions.1 in ground arith,
    )

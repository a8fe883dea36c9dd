-- ===== src/Timing/Masked.antt =====
-- read_platform_stime against the count with the mask on the difference alone.
use formal_verification_of_x.Prelude.{
  ℕ, ◌+◌, ◌-◌, ◌%◌, ◌^◌, ◌<◌, ◌≤◌, ◌≡◌, ◌↔◌, sym, ap, ◌∙◌, zero, suc, subst, arith, List, ◌∷◌,
  bit_and,
}
use native.Mathlib.Nat.{
  mod-eq_of_lt, mod-lt, add-mod-mod, mod-mod_of_dvd, one-le-pow, pow-suc, dvd_refl,
  dvd-mul_right_of_dvd,
}
use Prim.Native.Nat.{◌∣◌}
use native.Mathlib.Decide.{ℕ_discrete}
use formal_verification_of_x.Prelude.Masks.{bit_and-low}
use formal_verification_of_x.Timing.{
  TimeCall, spin_lock, spin_unlock, TimePlatform, sub_32, platform_count, read_platform_stime,
}

-- `plt_stamp64 + ((plt_counter - plt_stamp) & plt_mask)`: the stamp and the time since then.
abbrev pub count_since : ℕ → ℕ → ℕ → ℕ → ℕ
count_since plt_counter plt_stamp64 plt_stamp plt_mask =
    (plt_stamp64 + bit_and (sub_32 plt_counter plt_stamp) plt_mask) % 2 ^ 32

pow_dvd : (k n : ℕ) → k ≤ n → 2 ^ k ∣ 2 ^ n
pow_dvd k zero le = let e : k ≡ 0 = omega arith in rw e (dvd_refl (2 ^ 0))
pow_dvd k (suc n) le = elim (ℕ_discrete k (suc n)) [
  | yes e ↦ rw e (dvd_refl (2 ^ suc n))
  | no ne ↦ rw (pow-suc 2 n) (dvd-mul_right_of_dvd (2 ^ k) (pow_dvd k n (omega arith)) 2)
]

low_of_word : (k x : ℕ) → k ≤ 32 → x % 2 ^ 32 % 2 ^ k ≡ x % 2 ^ k
low_of_word k x le = mod-mod_of_dvd (2 ^ k) x (pow_dvd k 32 le)

-- For a mask of the low `k` bits, read_platform_stime asks for the time at the low `k` bits of the stamp and
-- the time since then; that is the time at the whole sum exactly when the sum is below 2^k.
pub read_platform_stime-low :
    (platform : TimePlatform) (plt_counter plt_stamp64 plt_stamp k : ℕ) (s : List TimeCall)
    → k ≤ 32
    → let since = count_since plt_counter plt_stamp64 plt_stamp (2 ^ k - 1) in
      (read_platform_stime platform plt_counter plt_stamp64 plt_stamp (2 ^ k - 1) s
        ≡ (spin_unlock ∷ spin_lock ∷ s, platform.platform_stime (spin_lock ∷ s) (since % 2 ^ k)))
      × ((since % 2 ^ k ≡ since) ↔ (since < 2 ^ k))
unfolding read_platform_stime
read_platform_stime-low platform plt_counter plt_stamp64 plt_stamp k s le = (
  ap (λ count. (spin_unlock ∷ spin_lock ∷ s, platform.platform_stime (spin_lock ∷ s) count)) same,
  ((λ e. subst (λ (x : ℕ). x < 2 ^ k) e (mod-lt _ positive)), (λ lt. mod-eq_of_lt lt)),
)
  where
    passed : ℕ
    passed = sub_32 plt_counter plt_stamp

    positive : 0 < 2 ^ k
    positive = one-le-pow k 2 (omega arith)

    same :
        platform_count plt_counter plt_stamp64 plt_stamp (2 ^ k - 1)
        ≡ count_since plt_counter plt_stamp64 plt_stamp (2 ^ k - 1) % 2 ^ k
    same =
        bit_and-low k ((plt_stamp64 + passed) % 2 ^ 32)
        ∙ low_of_word k (plt_stamp64 + passed) le
        ∙ sym (add-mod-mod plt_stamp64 passed (2 ^ k))
        ∙ sym (low_of_word k (plt_stamp64 + passed % 2 ^ k) le)
        ∙ ap (λ x. (plt_stamp64 + x) % 2 ^ 32 % 2 ^ k) (sym (bit_and-low k passed))

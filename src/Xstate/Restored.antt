-- ===== src/Xstate/Restored.antt =====
-- The features that xrstor runs under, and those behind it.
use formal_verification_of_x.Prelude.{
  ℕ, ◌-◌, ◌%◌, ◌^◌, ◌<◌, ◌≡◌, ◌≢◌, refl, ap, ◌∙◌, arith, ◌==◌, ◌!=◌, if◌then◌else◌, true, false,
  Bool-cases, ◌||◌, List, ◌∷◌, ◌⊎◌, inl, inr, bit_and, bit_or,
}
use Prim.Native.Nat.{max}
use native.Mathlib.Decide.{ℕ_discrete}
use formal_verification_of_x.Prelude.Bits.{
  digit, digit-bit_and, digit-bit_or, digit-lt, digit-complement, digit-zero,
}
use formal_verification_of_x.Prelude.Masks.{digit-low}
use formal_verification_of_x.Xstate.{
  XstateCall, memset_header, xrstor, write_cr0, Features, sign_extend, missing, xsetbv, set_xcr0,
  xstate_set_init, restore_features, restore_calls,
}

-- The features of a mask that the processor does not have.
abbrev pub unsupported : ℕ → Features → ℕ
unsupported mask s = bit_and (sign_extend (2 ^ 32 - 1 - s.xfeature_mask)) mask

-- The low 32 features of `x` are those of both words.
abbrev pub IsBoth : ℕ → ℕ → ℕ → Type 0
IsBoth x a b = (k : ℕ) → k < 32 → digit k x ≡ max (digit k a) (digit k b)

-- The calls of a run: under `x`, with the write of `cr0` where its task-switched bit is set.
abbrev pub calls_under : ℕ → ℕ → ℕ → Features → List XstateCall
calls_under x cr0 mask s =
    let restored = xrstor mask x ∷ memset_header ∷ s.calls in
    if bit_and cr0 s.x86_cr0_ts == 0 then restored else write_cr0 cr0 ∷ restored

-- How xstate_set_init leaves the variables.
pub data IsRestored (cr0 xcr0 mask : ℕ) (s s' : Features) : Type 0 where
  refused :
      (unsupported mask s ≢ 0 ⊎ (missing xcr0 mask ≢ 0) × (bit_or xcr0 mask % 2 ^ 32 ≡ 0))
      → s' ≡ s
      → IsRestored cr0 xcr0 mask s s'
  restored :
      unsupported mask s ≡ 0
      → missing xcr0 mask ≡ 0
      → IsBoth (xcr0 % 2 ^ 32) (xcr0 % 2 ^ 32) mask
      → s'.calls ≡ calls_under s.xcr0 cr0 mask s
      → s'.xcr0 ≡ s.xcr0
      → IsRestored cr0 xcr0 mask s s'
  switched :
      (x : ℕ)
      → unsupported mask s ≡ 0
      → missing xcr0 mask ≢ 0
      → IsBoth x (xcr0 % 2 ^ 32) mask
      → s'.calls ≡ calls_under x cr0 mask s
      → s'.xcr0 ≡ (if xcr0 % 2 ^ 32 == 0 then x else xcr0 % 2 ^ 32)
      → IsRestored cr0 xcr0 mask s s'

missing-IsBoth :
    (xcr0 mask : ℕ)
    → xcr0 < 2 ^ 64
    → missing xcr0 mask ≡ 0
    → IsBoth (xcr0 % 2 ^ 32) (xcr0 % 2 ^ 32) mask
missing-IsBoth xcr0 mask lt e k k_lt = ground (
  arith,
  ap (digit k) e,
  digit-zero k,
  digit-bit_and k (2 ^ 64 - 1 - xcr0) mask,
  digit-complement 64 k xcr0 (omega arith) lt,
  digit-low k 32 xcr0 k_lt,
  digit-lt k xcr0,
  digit-lt k mask,
)

bit_or-IsBoth : (xcr0 mask : ℕ) → IsBoth (bit_or xcr0 mask % 2 ^ 32) (xcr0 % 2 ^ 32) mask
bit_or-IsBoth xcr0 mask k k_lt = omega (
  arith,
  digit-low k 32 (bit_or xcr0 mask) k_lt,
  digit-low k 32 xcr0 k_lt,
  digit-bit_or k xcr0 mask,
)

set_xcr0_calls : (x : ℕ) (s : Features) → (set_xcr0 x s).0.calls ≡ s.calls
unfolding set_xcr0
set_xcr0_calls x s = elim (Bool-cases (xsetbv x)) [ inl e ↦ rw e refl | inr e ↦ rw e refl ]

set_xcr0_xcr0 :
    (x : ℕ) (s : Features)
    → (set_xcr0 x s).0.xcr0 ≡ (if x % 2 ^ 32 == 0 then s.xcr0 else x % 2 ^ 32)
unfolding set_xcr0 xsetbv
set_xcr0_xcr0 x s = elim (Bool-cases (x % 2 ^ 32 == 0)) [
  | inl e ↦ let e' : (x % 2 ^ 32 != 0) ≡ false = ground arith in rw (e, e') refl
  | inr e ↦ let e' : (x % 2 ^ 32 != 0) ≡ true = ground arith in rw (e, e') refl
]

restore_calls_lem :
    (cr0 mask : ℕ) (s : Features)
    → ((restore_calls cr0 mask s).calls ≡ calls_under s.xcr0 cr0 mask s)
      × ((restore_calls cr0 mask s).xcr0 ≡ s.xcr0)
unfolding restore_calls
restore_calls_lem cr0 mask s = elim (Bool-cases (bit_and cr0 s.x86_cr0_ts == 0)) [
  | inl e ↦ (rw e refl, rw e refl)
  | inr e ↦ (rw e refl, rw e refl)
]

restore_features_calls :
    (cr0 xcr0 mask : ℕ) (s : Features)
    → (restore_features cr0 xcr0 mask s).calls ≡ calls_under s.xcr0 cr0 mask s
restore_features_calls cr0 xcr0 mask s = elim (Bool-cases (missing xcr0 mask == 0)) [
  | inl e ↦ rw e ((restore_calls_lem cr0 mask s).0)
  | inr e ↦ rw e (set_xcr0_calls xcr0 (restore_calls cr0 mask s) ∙ (restore_calls_lem cr0 mask s).0)
]

restore_features_xcr0 :
    (cr0 xcr0 mask : ℕ) (s : Features)
    → (restore_features cr0 xcr0 mask s).xcr0
      ≡ (if missing xcr0 mask == 0 || xcr0 % 2 ^ 32 == 0 then s.xcr0 else xcr0 % 2 ^ 32)
restore_features_xcr0 cr0 xcr0 mask s = elim (Bool-cases (missing xcr0 mask == 0)) [
  | inl e ↦ rw e ((restore_calls_lem cr0 mask s).1)
  | inr e ↦ rw e (
      set_xcr0_xcr0 xcr0 (restore_calls cr0 mask s)
      ∙ ap (λ y. if xcr0 % 2 ^ 32 == 0 then y else xcr0 % 2 ^ 32)
          ((restore_calls_lem cr0 mask s).1))
]

set_xcr0_on :
    (x : ℕ) (s : Features) → x % 2 ^ 32 ≢ 0 → set_xcr0 x s ≡ (record s { xcr0 = x % 2 ^ 32 }, true)
unfolding set_xcr0 xsetbv
set_xcr0_on x s on = let e : (x % 2 ^ 32 != 0) ≡ true = ground arith in rw e refl

set_xcr0_off : (x : ℕ) (s : Features) → x % 2 ^ 32 ≡ 0 → set_xcr0 x s ≡ (s, false)
unfolding set_xcr0 xsetbv
set_xcr0_off x s off = let e : (x % 2 ^ 32 != 0) ≡ false = ground arith in rw e refl

set_init_without :
    (cr0 xcr0 mask : ℕ) (s : Features)
    → unsupported mask s ≡ 0
    → missing xcr0 mask ≡ 0
    → xstate_set_init cr0 xcr0 mask s ≡ restore_features cr0 xcr0 mask s
unfolding xstate_set_init
set_init_without cr0 xcr0 mask s supported none_missing =
    let e : (unsupported mask s != 0) ≡ false = ground arith in
    let e' : (missing xcr0 mask == 0) ≡ true = ground arith in rw (e, e') refl

set_init_with :
    (cr0 xcr0 mask : ℕ) (s : Features)
    → unsupported mask s ≡ 0
    → missing xcr0 mask ≢ 0
    → bit_or xcr0 mask % 2 ^ 32 ≢ 0
    → xstate_set_init cr0 xcr0 mask s
      ≡ restore_features cr0 xcr0 mask (record s { xcr0 = bit_or xcr0 mask % 2 ^ 32 })
unfolding xstate_set_init
set_init_with cr0 xcr0 mask s supported some_missing on =
    let e : (unsupported mask s != 0) ≡ false = ground arith in
    let e' : (missing xcr0 mask == 0) ≡ false = ground arith in
    rw (e, e', set_xcr0_on (bit_or xcr0 mask) s on) refl

-- xstate_set_init changes nothing, namely for a feature that the processor does not have and where the local
-- xcr0 lacks a feature of the mask but no low bit of either is set; or it runs xrstor once. Where the local
-- has all features of the mask, xrstor runs under the global xcr0 as it is, which stays. Else it runs with
-- all low features of both the local and the mask on, and the global is left with the low word of the
-- local, unless that is 0: then the features of the mask stay on.
pub xstate_set_init-IsRestored :
    (cr0 xcr0 mask : ℕ) (s : Features)
    → xcr0 < 2 ^ 64
    → IsRestored cr0 xcr0 mask s (xstate_set_init cr0 xcr0 mask s)
unfolding xstate_set_init
xstate_set_init-IsRestored cr0 xcr0 mask s lt = elim (ℕ_discrete (unsupported mask s) 0) [
  | no ne ↦ let e : (unsupported mask s != 0) ≡ true = ground arith in refused (inl ne) (rw e refl)
  | yes supported ↦ elim (ℕ_discrete (missing xcr0 mask) 0) [
    | yes none_missing ↦
        let e : (missing xcr0 mask == 0) ≡ true = ground arith in
        rw (set_init_without cr0 xcr0 mask s supported none_missing) (
          restored supported none_missing (missing-IsBoth xcr0 mask lt none_missing)
            (restore_features_calls cr0 xcr0 mask s)
            (restore_features_xcr0 cr0 xcr0 mask s ∙ rw e refl))
    | no some_missing ↦ elim (ℕ_discrete (bit_or xcr0 mask % 2 ^ 32) 0) [
      | yes off ↦
          let e' : (missing xcr0 mask == 0) ≡ false = ground arith in
          let e : (unsupported mask s != 0) ≡ false = ground arith in
          refused (inr (some_missing, off)) (rw (e, e', set_xcr0_off (bit_or xcr0 mask) s off) refl)
      | no on ↦
          let e' : (missing xcr0 mask == 0) ≡ false = ground arith in
          let both = bit_or xcr0 mask % 2 ^ 32 in
          rw (set_init_with cr0 xcr0 mask s supported some_missing on) (
            switched both supported some_missing (bit_or-IsBoth xcr0 mask)
              (restore_features_calls cr0 xcr0 mask (record s { xcr0 = both }))
              (restore_features_xcr0 cr0 xcr0 mask (record s { xcr0 = both }) ∙ rw e' refl))
    ]
  ]
]

-- ===== src/Xstate.antt =====
-- xstate_verified.c: the features of the extended state that are switched on. An annotation stands for
-- no statement, so that the first test of xstate_set_init governs the block behind it.
use formal_verification_of_x.Prelude.{
  ℕ, ◌+◌, ◌-◌, ◌%◌, ◌^◌, ltb, ◌==◌, ◌!=◌, if◌then◌else◌, Bool, true, false, not, ◌&&◌, List, [],
  ◌∷◌, bit_and, bit_or,
}
pub mod Restored

-- Calls in place of instructions, and of memset. `xrstor` is noted with the xcr0 that it runs under.
pub data XstateCall : Type 0 where
  memset_header : XstateCall
  xrstor : ℕ → ℕ → XstateCall
  write_cr0 : ℕ → XstateCall

-- The global variables: an int as a number of 32 bits, a long as one of 64; the calls, the last one first.
pub record Features : Type 0 where
  pub xfeature_mask : ℕ
  pub xcr0 : ℕ
  pub x86_cr0_ts : ℕ
  pub calls : List XstateCall

-- An int as a long.
abbrev pub sign_extend : ℕ → ℕ
sign_extend x = if ltb x (2 ^ 31) then x else x + (2 ^ 64 - 2 ^ 32)

-- `lo != 0`; the index and `hi` are not used.
pub xsetbv : ℕ → Bool
xsetbv xfeatures = let lo = xfeatures % 2 ^ 32 in lo != 0

pub set_xcr0 : ℕ → Features → Features × Bool
set_xcr0 xfeatures s =
    if not (xsetbv xfeatures) then (s, false) else (record s { xcr0 = xfeatures % 2 ^ 32 }, true)

abbrev pub call : XstateCall → Features → Features
call c s = record s { calls = c ∷ s.calls }

-- `~xcr0 & mask` of a long xcr0.
abbrev pub missing : ℕ → ℕ → ℕ
missing xcr0 mask = bit_and (2 ^ 64 - 1 - xcr0) mask

-- The call of memset, that of xrstor and that of write_cr0.
pub restore_calls : ℕ → ℕ → Features → Features
restore_calls cr0 mask s =
    let restored = call (xrstor mask s.xcr0) (call memset_header s) in
    if bit_and cr0 s.x86_cr0_ts == 0 then restored else call (write_cr0 cr0) restored

-- From the call of memset on.
abbrev pub restore_features : ℕ → ℕ → ℕ → Features → Features
restore_features cr0 xcr0 mask s =
    let s' = restore_calls cr0 mask s in if missing xcr0 mask == 0 then s' else (set_xcr0 xcr0 s').0

-- `cr0` is what read_cr0 returns, whose return has no value; `xcr0` is the local that hides the global
-- variable, and that nothing writes.
pub xstate_set_init : ℕ → ℕ → ℕ → Features → Features
xstate_set_init cr0 xcr0 mask s =
    let (s', is_on) = if missing xcr0 mask == 0 then (s, true) else set_xcr0 (bit_or xcr0 mask) s in
    if bit_and (sign_extend (2 ^ 32 - 1 - s.xfeature_mask)) mask != 0
    then s
    else if is_on
    then restore_features cr0 xcr0 mask s'
    else s

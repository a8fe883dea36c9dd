-- ===== src/CString/Ffs.antt =====
-- ffs and __ffsti2 of string_verified.c. An `int` is its pattern below 2^32, a `long long` its
-- pattern below 2^64; `>>` of a signed value copies the sign.
use formal_verification_of_x.Prelude.{
  ℕ, zero, suc, ◌+◌, ◌-◌, ◌*◌, ◌/◌, ◌%◌, ◌^◌, ◌<◌, ◌≤◌, ◌≡◌, ◌==◌, ltb, if◌then◌else◌, Option, none,
  some, arith, refl, ap, subst, ◌∙◌, Bool-cases, inl, inr,
}
use Prim.Native.Nat.{bit_xor}
pub mod Lowest

-- `i >> 1` of an int.
pub shift_int : ℕ → ℕ
shift_int i = if ltb i (2 ^ 31) then i / 2 else i / 2 + 2 ^ 31

-- `do { if (i & 1) return c; i = i >> 1; c++; } while (i); return 0;`
pub ffs_loop : ℕ → ℕ → ℕ → Option ℕ
ffs_loop zero i c = none
ffs_loop (suc fuel) i c =
    let rest = ffs_loop fuel (shift_int i) (c + 1) in
    if i % 2 == 1 then some c else if shift_int i == 0 then some 0 else rest

pub ffs : ℕ → Option ℕ
ffs i = ffs_loop 32 i 1

-- `lli >> 32` of a long long.
pub shift_word : ℕ → ℕ
shift_word lli = if ltb lli (2 ^ 63) then lli / 2 ^ 32 else lli / 2 ^ 32 + (2 ^ 64 - 2 ^ 32)

-- `(int) (((lli >> len) << len) ^ lli)`.
pub low_word : ℕ → ℕ
low_word lli = bit_xor (shift_word lli * 2 ^ 32 % 2 ^ 64) lli % 2 ^ 32

pub ffs_answer : Option ℕ → ℕ → Option ℕ → Option ℕ
ffs_answer none i rest = none
ffs_answer (some t) i rest = if t == 0 then rest else some (t + i * 32)

-- `for (i = 0; i < num; i++) { ...; t = ffs(tmpint); if (t) return (t + (i * len)); ... }`.
pub ffsti2_loop : ℕ → ℕ → ℕ → Option ℕ
ffsti2_loop zero i lli = some 0
ffsti2_loop (suc rounds) i lli =
    let rest = ffsti2_loop rounds (i + 1) (shift_word lli) in ffs_answer (ffs (low_word lli)) i rest

-- `num` is `sizeof(long long int) / sizeof(int)`, 2.
pub ffsti2 : ℕ → Option ℕ
ffsti2 lli = ffsti2_loop 2 0 lli

-- A long has 64 bits: the casts of the next three change nothing.
pub ffsdi2 : ℕ → Option ℕ
ffsdi2 li = ffsti2 li

pub ffsl : ℕ → Option ℕ
ffsl li = ffsti2 li

pub ffsll : ℕ → Option ℕ
ffsll lli = ffsti2 lli

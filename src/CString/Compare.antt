-- ===== src/CString/Compare.antt =====
-- memcmp, strncmp and strcmp. The result is a `signed char`: the difference of two bytes cut to
-- eight bits, read with a sign.
use formal_verification_of_x.Prelude.{
  ℕ, zero, suc, ◌+◌, ◌-◌, ◌%◌, ◌==◌, if◌then◌else◌, Option, none, some, Bool, false,
}
use formal_verification_of_x.Prelude.Int.{ℤ, pos, negsuc, signed8}
use formal_verification_of_x.CString.Memory.{Memory}
pub mod Order

-- `(char)(*su1 - *su2)`, as a bit pattern.
pub char_diff : ℕ → ℕ → ℕ
char_diff a b = (a + 256 - b) % 256

-- `for (...; 0 < count; ++su1, ++su2, count--) if ((res = ...) != 0) break;`: the pattern of `res`.
pub memcmp_loop : Memory → ℕ → ℕ → ℕ → ℕ
memcmp_loop m su1 su2 zero = 0
memcmp_loop m su1 su2 (suc count) =
    let rest = memcmp_loop m (su1 + 1) (su2 + 1) count in
    let res = char_diff (m su1) (m su2) in if res == 0 then rest else res

pub memcmp : Memory → ℕ → ℕ → ℕ → ℤ
memcmp m cs ct count = signed8 (memcmp_loop m cs ct count)

abbrev pub is_zero : ℤ → Bool
is_zero (pos n) = n == 0
is_zero (negsuc n) = false

-- `!memcmp(...)`.
unfoldable pub memcmp_is_zero : Memory → ℕ → ℕ → ℕ → Bool
memcmp_is_zero m cs ct count = is_zero (memcmp m cs ct count)

-- `while (count) { if ((__res = *cs - *ct++) != 0 || !*cs++) break; count--; }`
pub strncmp_loop : Memory → ℕ → ℕ → ℕ → ℕ
strncmp_loop m cs ct zero = 0
strncmp_loop m cs ct (suc count) =
    let rest = strncmp_loop m (cs + 1) (ct + 1) count in
    let res = char_diff (m cs) (m ct) in if res == 0 then if m cs == 0 then res else rest else res

pub strncmp : Memory → ℕ → ℕ → ℕ → ℤ
strncmp m cs ct count = signed8 (strncmp_loop m cs ct count)

-- `while (1) if ((__res = *cs - *ct++) != 0 || !*cs++) break;`
pub strcmp_loop : ℕ → Memory → ℕ → ℕ → Option ℕ
strcmp_loop zero m cs ct = none
strcmp_loop (suc fuel) m cs ct =
    let rest = strcmp_loop fuel m (cs + 1) (ct + 1) in
    let res = char_diff (m cs) (m ct) in
    if res == 0 then if m cs == 0 then some res else rest else some res

abbrev pub as_signed : Option ℕ → Option ℤ
as_signed none = none
as_signed (some w) = some (signed8 w)

pub strcmp : ℕ → Memory → ℕ → ℕ → Option ℤ
strcmp fuel m cs ct = as_signed (strcmp_loop fuel m cs ct)

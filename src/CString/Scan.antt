-- ===== src/CString/Scan.antt =====
-- The reading loops of string_verified.c: strnlen, strlen, strchr, strrchr, strstr and strdup.
use formal_verification_of_x.Prelude.{
  ℕ, zero, suc, ◌+◌, ◌-◌, ◌%◌, ◌^◌, ◌==◌, leb, if◌then◌else◌, Option, none, some, Bool,
}
use formal_verification_of_x.CString.Memory.{Memory}
use formal_verification_of_x.CString.Copy.{memcpy}
use formal_verification_of_x.CString.Compare.{memcmp_is_zero}
pub mod Lengths
pub mod Characters
pub mod Substring

-- `for (sc = s; count--; ++sc) if (*sc == '\0') break;`, and the distance `sc - s`.
pub strnlen_loop : Memory → ℕ → ℕ → ℕ
strnlen_loop m sc zero = 0
strnlen_loop m sc (suc count) =
    let rest = strnlen_loop m (sc + 1) count in if m sc == 0 then 0 else 1 + rest

pub strnlen : Memory → ℕ → ℕ → ℕ
strnlen m s count = strnlen_loop m s count

-- `for (sc = s; ; ++sc) if (*sc == '\0') break;`: the address where it stops.
pub strlen_loop : ℕ → Memory → ℕ → Option ℕ
strlen_loop zero m sc = none
strlen_loop (suc fuel) m sc =
    let rest = strlen_loop fuel m (sc + 1) in if m sc == 0 then some sc else rest

abbrev pub distance : Option ℕ → ℕ → Option ℕ
distance none s = none
distance (some sc) s = some (sc - s)

pub strlen : ℕ → Memory → ℕ → Option ℕ
strlen fuel m s = distance (strlen_loop fuel m s) s

-- A `char *` result: `none` is out of fuel, `some none` is NULL.
abbrev pub Pointer : Type 0
Pointer = Option (Option ℕ)

pub strchr : ℕ → Memory → ℕ → ℕ → Pointer
strchr zero m s c = none
strchr (suc fuel) m s c =
    let rest = strchr fuel m (s + 1) c in
    if m s == c % 256 then some (some s) else if m s == 0 then some none else rest

pub strrchr_loop : ℕ → Memory → ℕ → ℕ → Option ℕ → Pointer
strrchr_loop zero m s c res = none
strrchr_loop (suc fuel) m s c res =
    let res' = (if m s == c % 256 then some s else res) in
    let rest = strrchr_loop fuel m (s + 1) c res' in if m s == 0 then some res' else rest

pub strrchr : ℕ → Memory → ℕ → ℕ → Pointer
strrchr fuel m s c = strrchr_loop fuel m s c none

-- `while (l1 >= l2) { l1--; if (!memcmp(s1, s2, l2)) return s1; s1++; }`
pub strstr_loop : ℕ → Memory → ℕ → ℕ → ℕ → ℕ → Pointer
strstr_loop zero m s1 s2 l1 l2 = none
strstr_loop (suc fuel) m s1 s2 l1 l2 =
    let rest = strstr_loop fuel m (s1 + 1) s2 (l1 - 1) l2 in
    if leb l2 l1 then if memcmp_is_zero m s1 s2 l2 then some (some s1) else rest else some none

pub strstr_with : ℕ → Memory → ℕ → ℕ → Option ℕ → Option ℕ → Pointer
strstr_with fuel m s1 s2 none l1 = none
strstr_with fuel m s1 s2 (some l2) none = if l2 == 0 then some (some s1) else none
strstr_with fuel m s1 s2 (some l2) (some l1) =
    if l2 == 0 then some (some s1) else strstr_loop fuel m s1 s2 l1 l2

pub strstr : ℕ → Memory → ℕ → ℕ → Pointer
unfolding strstr_with
strstr fuel m s1 s2 = strstr_with fuel m s1 s2 (strlen fuel m s2) (strlen fuel m s1)

-- `malloc` is a parameter: what it answers for a size, `none` for NULL. `l + 1` wraps at 2 ^ 64.
pub strdup_alloc : Memory → ℕ → ℕ → Option ℕ → Memory × Option ℕ
strdup_alloc m x size none = (m, none)
strdup_alloc m x size (some res) = ((memcpy m res x size).0, some res)

pub strdup_with : (ℕ → Option ℕ) → Memory → ℕ → Option ℕ → Option (Memory × Option ℕ)
strdup_with malloc m x none = none
strdup_with malloc m x (some l) =
    let size = (l + 1) % 2 ^ 64 in some (strdup_alloc m x size (malloc size))

pub strdup : ℕ → (ℕ → Option ℕ) → Memory → ℕ → Option (Memory × Option ℕ)
unfolding strdup_with strdup_alloc
strdup fuel malloc m x = strdup_with malloc m x (strlen fuel m x)

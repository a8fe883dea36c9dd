-- ===== src/CString/Copy.antt =====
-- The writing loops of string_verified.c: memcpy, memset, strcpy, strncpy and strcat.
pub mod Block
pub mod Strings
use formal_verification_of_x.Prelude.{
  ℕ, zero, suc, ◌+◌, ◌%◌, ◌==◌, if◌then◌else◌, Option, none, some,
}
use formal_verification_of_x.CString.Memory.{Memory, store}

-- `while (count--) *tmp++ = *s++;`
pub memcpy_loop : Memory → ℕ → ℕ → ℕ → Memory
memcpy_loop m tmp s zero = m
memcpy_loop m tmp s (suc count) = memcpy_loop (store m tmp (m s)) (tmp + 1) (s + 1) count

-- The memory after the call and the pointer returned.
pub memcpy : Memory → ℕ → ℕ → ℕ → Memory × ℕ
memcpy m dest src count = (memcpy_loop m dest src count, dest)

-- `while (count--) *xs++ = (char)c;`
pub memset_loop : Memory → ℕ → ℕ → ℕ → Memory
memset_loop m xs c zero = m
memset_loop m xs c (suc count) = memset_loop (store m xs (c % 256)) (xs + 1) c count

pub memset : Memory → ℕ → ℕ → ℕ → Memory × ℕ
memset m s c count = (memset_loop m s c count, s)

-- `while (1) if ((*dest++ = *src++) == '\0') break;`
pub strcpy_loop : ℕ → Memory → ℕ → ℕ → Option Memory
strcpy_loop zero m dest src = none
strcpy_loop (suc fuel) m dest src =
    let rest = strcpy_loop fuel (store m dest (m src)) (dest + 1) (src + 1) in
    if m src == 0 then some (store m dest (m src)) else rest

pub returning : Option Memory → ℕ → Option (Memory × ℕ)
returning none p = none
returning (some m) p = some (m, p)

pub strcpy : ℕ → Memory → ℕ → ℕ → Option (Memory × ℕ)
unfolding returning
strcpy fuel m dest src = returning (strcpy_loop fuel m dest src) dest

-- `while (count--) if ((*dest++ = *src++) == '\0') break;`
pub strncpy_loop : Memory → ℕ → ℕ → ℕ → Memory
strncpy_loop m dest src zero = m
strncpy_loop m dest src (suc count) =
    let rest = strncpy_loop (store m dest (m src)) (dest + 1) (src + 1) count in
    if m src == 0 then store m dest (m src) else rest

pub strncpy : Memory → ℕ → ℕ → ℕ → Memory × ℕ
strncpy m dest src count = (strncpy_loop m dest src count, dest)

-- `while (1) { if (*dest == '\0') break; dest++; }`
pub strcat_end : ℕ → Memory → ℕ → Option ℕ
strcat_end zero m dest = none
strcat_end (suc fuel) m dest =
    let rest = strcat_end fuel m (dest + 1) in if m dest == 0 then some dest else rest

pub strcat_from : ℕ → Memory → Option ℕ → ℕ → Option Memory
strcat_from fuel m none src = none
strcat_from fuel m (some dest) src = strcpy_loop fuel m dest src

pub strcat : ℕ → Memory → ℕ → ℕ → Option (Memory × ℕ)
unfolding returning strcat_from
strcat fuel m dest src = returning (strcat_from fuel m (strcat_end fuel m dest) src) dest

-- ===== src/MapCache.antt =====
-- mapcache_verified.c: the sizes and places of a mapping. Its functions work on locals; what a function
-- that returns nothing computes is the value of its definition here.
use formal_verification_of_x.Prelude.{
  ℕ, zero, suc, ◌+◌, ◌-◌, ◌/◌, ◌%◌, ◌^◌, leb, ◌==◌, ◌!=◌, if◌then◌else◌, Bool, ◌&&◌, bit_and,
}
pub mod Sizes
pub mod Places

-- The later of the two definitions.
abbrev pub mcache_bucket_shift : ℕ
mcache_bucket_shift = 20

abbrev pub mcache_bucket_size : ℕ
mcache_bucket_size = 2 ^ 20

abbrev pub xc_page_size : ℕ
xc_page_size = 2 ^ 16

-- The local `lck`, which hides the global variable.
pub mapcache_lock : ℕ → ℕ
mapcache_lock lck = (lck + 1) % 2 ^ 32

pub mapcache_unlock : ℕ → ℕ
mapcache_unlock lck = (lck + 2 ^ 32 - 1) % 2 ^ 32

-- The loop of find_next_zero_bit, by its rounds: the local `cnt`.
pub count_rounds : ℕ → ℕ → ℕ
count_rounds zero cnt = cnt
count_rounds (suc rounds) cnt = count_rounds rounds ((cnt + 1) % 2 ^ 32)

-- The count and the result. The size is not used.
pub find_next_zero_bit : ℕ → ℕ × ℕ
find_next_zero_bit end = (count_rounds end 0, 2 ^ mcache_bucket_shift)

-- The first argument of find_next_zero_bit is an unsigned int.
pub test_bits : ℕ → ℕ → ℕ
test_bits nr size =
    let res = (find_next_zero_bit ((size + nr) % 2 ^ 32)).1 in
    if leb ((nr + size) % 2 ^ 64) res then 1 else 0

-- The locals of xen_map_cache_unlocked.
pub record Mapping : Type 0 where
  pub address_index : ℕ
  pub address_offset : ℕ
  pub test_bit_size : ℕ

abbrev pub round_up : ℕ → ℕ
round_up size =
    if size % xc_page_size != 0
    then (size + xc_page_size + 2 ^ 64 - size % xc_page_size) % 2 ^ 64
    else size

pub xen_map_cache_unlocked : ℕ → ℕ → Mapping
xen_map_cache_unlocked phys_addr size = record {
  address_index = phys_addr / 2 ^ mcache_bucket_shift;
  address_offset = bit_and phys_addr mcache_bucket_size;
  test_bit_size =
      if size != 0
      then round_up ((size + bit_and phys_addr (xc_page_size - 1)) % 2 ^ 64)
      else xc_page_size;
}

-- `vendor`, `family` and `amd` are locals that nothing writes; `version` is what GET_APIC_VERSION
-- answers to the value that apic_read answers.
pub xen_invalidate_map_cache_entry_unlocked : ℕ → ℕ → ℕ → ℕ → ℕ → ℕ
xen_invalidate_map_cache_entry_unlocked vendor family amd version res =
    if vendor == amd && leb 0xf family then 1 else if leb 0x14 version then 0 else res

-- `active` of the local apic_pm_state.
pub xen_ram_addr_from_mapcache : ℕ
xen_ram_addr_from_mapcache = 1

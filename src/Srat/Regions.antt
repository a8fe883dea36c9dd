-- ===== src/Srat/Regions.antt =====
-- srat_parse_region, srat_parse_regions and acpi_numa_slit_init.
use formal_verification_of_x.Prelude.{
  ℕ, zero, suc, ◌+◌, ◌-◌, ◌*◌, ◌/◌, ◌%◌, ◌^◌, Bool, true, false, not, ◌&&◌, ◌||◌, ◌==◌, ◌!=◌, ltb,
  if◌then◌else◌, Option, none, some, bit_and,
}
use formal_verification_of_x.Prelude.Int.{ℤ, pos, negsuc}
use formal_verification_of_x.Srat.Cover.{Region}
use formal_verification_of_x.Srat.Slit.{Slit}
pub mod Holes

-- Both flags are defined as 1.
abbrev pub acpi_srat_mem_enabled : ℕ
acpi_srat_mem_enabled = 1

abbrev pub acpi_srat_mem_non_volatile : ℕ
acpi_srat_mem_non_volatile = 1

abbrev pub page_shift : ℕ
page_shift = 13

-- `is_null` is whether the header is NULL; `length` and `flags` are those of the local `ma`, which
-- nothing sets; `numa_off` is what numa_off answers. A run that ends without a value is `none`.
pub srat_parse_region : Bool → ℕ → ℕ → Bool → Option ℤ
srat_parse_region is_null length flags numa_off =
    if is_null
    then some (negsuc 21)
    else if length == 0
        || bit_and flags acpi_srat_mem_enabled == 0
        || bit_and flags acpi_srat_mem_non_volatile != 0
    then some (pos 0)
    else if numa_off
    then some (pos 0)
    else none

-- `~mask & pdx_region_mask(addr, size)`, where pdx_region_mask returns a bool, as a condition.
abbrev pub leaves_mask : (ℕ → ℕ → Bool) → ℕ → Region → Bool
leaves_mask pdx_region_mask mask m =
    bit_and (2 ^ 32 - 1 - mask)
      (if pdx_region_mask (m.addr % 2 ^ 32) (m.size % 2 ^ 32) then 1 else 0)
    != 0

-- The loop over the map, with `rounds` left; it ends at once on a mask that is 0.
pub mask_loop : (ℕ → ℕ → Bool) → ℕ → (ℕ → Region) → ℕ → ℕ → ℕ
mask_loop pdx_region_mask zero map i mask = mask
mask_loop pdx_region_mask (suc rounds) map i mask =
    let next = if (map i).is_ram && leaves_mask pdx_region_mask mask (map i) then 0 else mask in
    let rest = mask_loop pdx_region_mask rounds map (i + 1) next in if mask == 0 then mask else rest

-- What pfn_pdx_hole_setup is called with, if it is: `disabled` is what acpi_disabled answers, `failed`
-- what acpi_table_parse answers, `region_mask` what pdx_init_mask answers to the address. The local
-- pointer acpi_numa is never below 0.
pub srat_parse_regions : Bool → Bool → (ℕ → ℕ → Bool) → ℕ → ℕ → (ℕ → Region) → Option ℕ
srat_parse_regions disabled failed pdx_region_mask region_mask nr_map map =
    if disabled || failed
    then none
    else some (mask_loop pdx_region_mask nr_map map 0 region_mask / 2 ^ page_shift)

-- The new acpi_slit: what mfn_to_virt answers for the page. memcpy is given the structure by value,
-- and the table that is read is not looked at.
pub acpi_numa_slit_init : (ℕ → Slit) → (ℕ → ℕ) → (ℕ → ℕ → ℕ) → (ℕ → ℕ) → Slit
acpi_numa_slit_init mfn_to_virt mfn_x alloc_boot_pages pfn_up =
    let mfn = alloc_boot_pages (pfn_up 4) 1 in mfn_to_virt (mfn_x mfn)

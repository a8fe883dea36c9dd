-- ===== src/Microcode.antt =====
-- microcode_amd_verified.c: whether a microcode patch is meant for a processor.
use formal_verification_of_x.Prelude.{
  ℕ, zero, suc, ◌*◌, ◌+◌, ◌-◌, ◌%◌, ◌^◌, ◌==◌, ◌!=◌, ltb, leb, if◌then◌else◌, Bool, true, false,
  not, ◌&&◌, ◌||◌, Option, none, some,
}
use formal_verification_of_x.Prelude.Int.{ℤ, pos, negsuc}
pub mod Fits
pub mod Container
pub mod Load

-- `struct equiv_cpu_entry`: the fields that are used.
pub record EquivCpuEntry : Type 0 where
  pub installed_cpu : ℕ
  pub equiv_cpu : ℕ

-- `struct microcode_header_amd`: the fields that are used.
pub record MicrocodeHeader : Type 0 where
  pub patch_id : ℕ
  pub processor_rev_id : ℕ

-- `struct microcode_amd`: `mpb` is NULL or the header there, and `equiv_cpu_table` NULL or a table.
pub record MicrocodeAmd : Type 0 where
  pub mpb : Option MicrocodeHeader
  pub mpb_size : ℕ
  pub equiv_cpu_table : Option (ℕ → EquivCpuEntry)
  pub equiv_cpu_table_size : ℕ

-- `struct cpuinfo_x86`: the fields that are used.
pub record CpuInfo : Type 0 where
  pub x86 : ℕ
  pub x86_vendor : ℕ

pub collect_cpu_info : CpuInfo → ℤ
collect_cpu_info c = if c.x86_vendor != 2 || ltb c.x86 0x10 then negsuc 100 else pos 0

pub max_size : ℕ → ℕ
max_size x86 =
    if x86 == 0x14
    then 1824
    else if x86 == 0x15
    then 4096
    else if x86 == 0x16
    then 3458
    else if x86 == 0x17
    then 3200
    else 2048

-- The family is that of boot_cpu_data.
pub verify_patch_size : CpuInfo → ℕ → Bool
unfolding max_size
verify_patch_size boot_cpu_data patch_size = leb patch_size (max_size boot_cpu_data.x86)

-- The loop. A result is what is returned, with what goes to `*equiv_cpu_id` where that is 1.
pub find_loop : ℕ → (ℕ → EquivCpuEntry) → ℕ → ℕ → Option (Option ℕ)
find_loop zero table current_cpu_id i = none
find_loop (suc fuel) table current_cpu_id i =
    let rest = find_loop fuel table current_cpu_id ((i + 1) % 2 ^ 32) in
    if (table i).installed_cpu == 0
    then some none
    else if current_cpu_id == (table i).installed_cpu
    then some (some ((table i).equiv_cpu % 2 ^ 16))
    else rest

pub find_equiv_cpu_id : ℕ → Option (ℕ → EquivCpuEntry) → ℕ → Option (Option ℕ)
find_equiv_cpu_id fuel none current_cpu_id = some none
find_equiv_cpu_id fuel (some table) current_cpu_id = find_loop fuel table current_cpu_id 0

-- The tests of the header; that of a NULL `mpb` is a fault.
abbrev pub fits_header : CpuInfo → Option MicrocodeHeader → ℕ → ℕ → ℕ → Option Bool
fits_header boot_cpu_data none mpb_size rev equiv_cpu_id = none
fits_header boot_cpu_data (some mc_header) mpb_size rev equiv_cpu_id =
    if mc_header.processor_rev_id != equiv_cpu_id
    then some false
    else if not (verify_patch_size boot_cpu_data mpb_size)
    then some false
    else if leb mc_header.patch_id rev
    then some false
    else some true

-- The tests of microcode_fits behind find_equiv_cpu_id.
abbrev pub fits_id : CpuInfo → MicrocodeAmd → ℕ → Option (Option ℕ) → Option Bool
fits_id boot_cpu_data mc_amd rev none = none
fits_id boot_cpu_data mc_amd rev (some none) = some false
fits_id boot_cpu_data mc_amd rev (some (some equiv_cpu_id)) =
    fits_header boot_cpu_data mc_amd.mpb mc_amd.mpb_size rev equiv_cpu_id

-- `current_cpu_id` is what cpuid_eax answers, whose result is a local that nothing writes; `rev` is
-- `cpu_sig.rev` behind the pointer of per_cpu, which is such a local too. The number of the processor
-- only decides on a call of __bug, whose body is empty.
pub microcode_fits : ℕ → CpuInfo → MicrocodeAmd → ℕ → ℕ → Option Bool
microcode_fits fuel boot_cpu_data mc_amd current_cpu_id rev =
    fits_id boot_cpu_data mc_amd rev (find_equiv_cpu_id fuel mc_amd.equiv_cpu_table current_cpu_id)

-- container_fast_forward: the result and `*offset`. `words k` is `data[k]`: the offset
-- grows by sizes in bytes, but `data + *offset` counts words of four bytes. `extent` is the number of bytes
-- that can be read from `data` on: a read behind them is a fault. `header[1]` is read only behind a
-- `header[0]` that one of the tests finds.
pub container_fast_forward : ℕ → (ℕ → ℕ) → ℕ → ℕ → ℕ → Option (ℤ × ℕ)
container_fast_forward zero words extent size_left offset = none
container_fast_forward (suc fuel) words extent size_left offset =
    let size = (words (offset + 1) + 8) % 2 ^ 32 in
    let offset' = (offset + size) % 2 ^ 32 in
    let found = words offset == 0x00414d44 || words offset == 1 in
    let rest = container_fast_forward fuel words extent (size_left - size) offset' in
    if ltb size_left 8
    then some (negsuc 100, offset)
    else if ltb extent (4 * offset + (if found then 8 else 4))
    then none
    else if words offset == 0x00414d44 && words (offset + 1) == 0
    then some (pos 0, offset)
    else if words offset != 1
    then some (negsuc 100, offset)
    else if ltb size 32 || ltb size_left size
    then some (negsuc 100, offset)
    else if size_left - size == 0
    then some (negsuc 3, offset')
    else rest

-- ===== src/Tests/Patches.antt =====
-- microcode_amd_verified.c on a table of two entries and a buffer with one patch before the container.
use formal_verification_of_x.Prelude.{
  ℕ, ◌≡◌, ◌↔◌, refl, arith, ◌==◌, ltb, if◌then◌else◌, Bool, true, some,
}
use formal_verification_of_x.Prelude.Int.{ℤ}
use formal_verification_of_x.Microcode.{
  EquivCpuEntry, MicrocodeHeader, MicrocodeAmd, CpuInfo, microcode_fits, container_fast_forward,
}
use formal_verification_of_x.Microcode.Load.{Mpbhdr, get_ucode_from_buffer_amd}
use formal_verification_of_x.Microcode.Load.Buffer.{IsAnswer, get_ucode-IsLoaded}
use formal_verification_of_x.Microcode.Fits.{IsTable, IsFit, microcode_fits-IsFit}
use formal_verification_of_x.Microcode.Container.{IsForward, container_fast_forward-IsForward}

abbrev two_entries : ℕ → EquivCpuEntry
two_entries i = record { installed_cpu = if ltb i 2 then 0x600f12 else 0; equiv_cpu = 0x6012 }

two_entries-IsTable : IsTable two_entries 2
two_entries-IsTable = record { entries = λ i lt. ground arith; terminator = refl }

abbrev patch_header : MicrocodeHeader
patch_header = record { patch_id = 0x6000626; processor_rev_id = 0x6012 }

abbrev patch : MicrocodeAmd
patch = record {
  mpb = some patch_header;
  mpb_size = 2592;
  equiv_cpu_table = some two_entries;
  equiv_cpu_table_size = 48;
}

abbrev family_15h : CpuInfo
family_15h = record { x86 = 0x15; x86_vendor = 2 }

microcode_fits-IsFit_example :
    (b : Bool) × (microcode_fits 9 family_15h patch 0x600f12 0x6000613 ≡ some b)
    × ((b ≡ true) ↔ IsFit family_15h patch_header 2592 two_entries 2 0x600f12 0x6000613)
microcode_fits-IsFit_example =
    microcode_fits-IsFit 9 family_15h patch patch_header two_entries 2 0x600f12 0x6000613 refl refl
      two_entries-IsTable (omega arith) (omega arith)

-- A patch of 32 bytes, then a header.
abbrev buffer : ℕ → ℕ
buffer k = if k == 0 then 1 else if k == 1 then 24 else if k == 32 then 0x00414d44 else 0

container_fast_forward-IsForward_example :
    (r : ℤ × ℕ) × (container_fast_forward 100 buffer 256 64 0 ≡ some r) × IsForward buffer 64 0 r
container_fast_forward-IsForward_example =
    container_fast_forward-IsForward 100 buffer 256 64 0 (omega arith) (omega arith) (omega arith)

abbrev one_patch : ℕ → Mpbhdr
one_patch k = record { kind = 1; len = 0x40 }

get_ucode-IsLoaded_example :
    IsAnswer one_patch 8 0x100 0
      (get_ucode_from_buffer_amd (some patch_header) patch 8 one_patch 0x100 0)
get_ucode-IsLoaded_example =
    get_ucode-IsLoaded (some patch_header) patch 8 one_patch 0x100 0 (λ e. absurd (cc e))

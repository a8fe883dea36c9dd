-- ===== src/Microcode/Load.antt =====
-- The functions of microcode_amd_verified.c that read a patch from a buffer and load it.
use formal_verification_of_x.Prelude.{
  ℕ, zero, suc, ◌+◌, ◌-◌, ◌*◌, ◌%◌, ◌^◌, ◌==◌, ◌!=◌, ltb, leb, if◌then◌else◌, Bool, true, false,
  not, ◌&&◌, ◌||◌, Option, none, some, List, [], ◌∷◌,
}
use mathlib.Core.Option.{map}
use formal_verification_of_x.Prelude.Int.{ℤ, pos, negsuc}
use formal_verification_of_x.Microcode.{MicrocodeHeader, MicrocodeAmd, CpuInfo, microcode_fits}
pub mod Buffer
pub mod Request

-- `struct mpbhdr`.
pub record Mpbhdr : Type 0 where
  pub kind : ℕ
  pub len : ℕ

-- The result, the patch and the offset behind a call.
pub record Loaded : Type 0 where
  pub result : ℤ
  pub mc_amd : MicrocodeAmd
  pub offset : ℕ

-- `mc_amd->mpb = _xmalloc(len)` when the old block is too small; `block` is what _xmalloc answers, which
-- returns no value in that file. A block that is freed leaves a size of 0.
abbrev pub make_room : Option MicrocodeHeader → ℕ → MicrocodeAmd → MicrocodeAmd
make_room none len mc_amd = record mc_amd {
  mpb = none;
  mpb_size = elim mc_amd.mpb [ none ↦ mc_amd.mpb_size | some old ↦ 0 ];
}
make_room (some block) len mc_amd = record mc_amd { mpb = some block; mpb_size = len }

abbrev pub is_missing {ℓ} : {A : Type ℓ} → Option A → Bool
is_missing none = true
is_missing (some x) = false

-- `buf k` is the header at `buf + k`, eight times `k` bytes further, and `extent` the number of bytes that can be
-- read from `buf` on: a read behind them is a fault. The copy of the patch itself is commented out.
pub get_ucode_from_buffer_amd :
    Option MicrocodeHeader → MicrocodeAmd → ℕ → (ℕ → Mpbhdr) → ℕ → ℕ → Option Loaded
get_ucode_from_buffer_amd block mc_amd extent buf bufsize offset =
    let mpbuf = buf offset in
    let offset' = (offset + mpbuf.len + 8) % 2 ^ 32 in
    let grown = make_room block mpbuf.len mc_amd in
    if leb bufsize offset
    then some (record { result = negsuc 100; mc_amd = mc_amd; offset = offset })
    else if ltb extent (8 * offset + 4)
    then none
    else if mpbuf.kind != 1
    then some (record { result = negsuc 100; mc_amd = mc_amd; offset = offset })
    else if ltb extent (8 * offset + 8)
    then none
    else if ltb bufsize ((offset + mpbuf.len) % 2 ^ 32)
    then some (record { result = negsuc 100; mc_amd = mc_amd; offset = offset })
    else if not (ltb mc_amd.mpb_size mpbuf.len)
    then some (record { result = pos 0; mc_amd = mc_amd; offset = offset' })
    else if is_missing block
    then some (record { result = negsuc 0; mc_amd = grown; offset = offset })
    else some (record { result = pos 0; mc_amd = grown; offset = offset' })

-- The header read is four further than the offset, and a fault behind `extent`; the table is not allocated here.
pub install_equiv_cpu_table : MicrocodeAmd → ℕ → (ℕ → Mpbhdr) → ℕ → Option Loaded
install_equiv_cpu_table mc_amd extent buf offset =
    let mpbuf = buf (offset + 4) in
    let offset' = (offset + mpbuf.len + 12) % 2 ^ 32 in
    if ltb extent (8 * (offset + 4) + 8)
    then none
    else if mpbuf.kind != 0
    then some (record { result = negsuc 100; mc_amd = mc_amd; offset = offset' })
    else if mpbuf.len == 0
    then some (record { result = negsuc 100; mc_amd = mc_amd; offset = offset' })
    else if is_missing mc_amd.equiv_cpu_table
    then some (record { result = negsuc 0; mc_amd = mc_amd; offset = offset' })
    else some (record {
      result = pos 0;
      mc_amd = record mc_amd { equiv_cpu_table_size = mpbuf.len };
      offset = offset';
    })

abbrev pub final_levels : List ℕ
final_levels = 0x01000098 ∷ 0x0100009f ∷ 0x010000af ∷ []

pub is_level : ℕ → List ℕ → Bool
is_level rev [] = false
is_level rev (level ∷ levels) = if rev == level then true else is_level rev levels

-- `rev` is `cpu_sig.rev`, as for microcode_fits.
pub check_final_patch_levels : CpuInfo → ℕ → Bool
check_final_patch_levels boot_cpu_data rev =
    if boot_cpu_data.x86 != 0x10 then false else is_level rev final_levels

-- `hw_err` is what wrmsr_safe answers and `rev` a local: nothing writes either of them.
pub apply_microcode : Bool → ℕ → Option MicrocodeAmd → ℤ
apply_microcode hw_err rev none = negsuc 100
apply_microcode hw_err rev (some mc_amd) = elim mc_amd.mpb [
  | none ↦ negsuc 100
  | some hdr ↦ if hw_err || rev != hdr.patch_id then negsuc 1 else pos 0
]

-- The new structure behind its three assignments; what malloc leaves in the table's fields is `fresh`.
abbrev pub emptied : MicrocodeAmd → MicrocodeAmd
emptied fresh = record fresh { mpb = none; mpb_size = 0 }

-- `applied_offset` is 0, and nothing writes it before its test. `fresh` is what malloc answers. The
-- results of the frees are not looked at: xfree is empty.
pub cpu_request_microcode :
    CpuInfo → ℕ → Option MicrocodeAmd → Option MicrocodeHeader → ℕ → ℕ → (ℕ → Mpbhdr) → ℕ → Option ℤ
cpu_request_microcode boot_cpu_data rev fresh block magic extent buf bufsize =
    let applied_offset : ℕ = 0 in
    if magic != 0x00414d44
    then some (negsuc 100)
    else if check_final_patch_levels boot_cpu_data rev
    then some (negsuc 7)
    else elim fresh [
      | none ↦ some (negsuc 0)
      | some mc_amd ↦
          if applied_offset != 0
          then map (λ l. l.result)
              (get_ucode_from_buffer_amd block (emptied mc_amd) extent buf bufsize applied_offset)
          else some (pos 0)
    ]

-- From `if (src != mc_amd)` on: `same` is whether the pointers are equal, and the others are whether
-- malloc and _xmalloc answer, in the order of the calls. The new structure is stored nowhere.
abbrev pub resume_copy : Bool → Bool → Bool → Bool → ℤ
resume_copy same structure table mpb =
    if same
    then pos 1
    else if not structure
    then negsuc 0
    else if not table
    then negsuc 0
    else if not mpb
    then negsuc 0
    else pos 1

abbrev pub resume_if : Option Bool → ℤ → Option ℤ
resume_if none copied = none
resume_if (some fits) copied = some (if not fits then pos 0 else copied)

pub microcode_resume_match :
    ℕ → CpuInfo → MicrocodeAmd → ℕ → ℕ → Bool → Bool → Bool → Bool → Option ℤ
microcode_resume_match fuel boot_cpu_data src current_cpu_id rev same structure table mpb =
    resume_if (microcode_fits fuel boot_cpu_data src current_cpu_id rev)
      (resume_copy same structure table mpb)

pub start_update : ℤ
start_update = pos 0

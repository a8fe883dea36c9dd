-- ===== src/Microcode/Load/Request.antt =====
-- What cpu_request_microcode looks at.
use formal_verification_of_x.Prelude.{ℕ, some, ◌≡◌, ◌≢◌, refl, arith, Option}
use formal_verification_of_x.Prelude.Int.{pos}
use formal_verification_of_x.Microcode.{MicrocodeHeader, MicrocodeAmd, CpuInfo}
use formal_verification_of_x.Microcode.Load.{
  Mpbhdr, is_level, check_final_patch_levels, cpu_request_microcode,
}

-- cpu_request_microcode never loads a patch: its answer is the same for every buffer that starts with
-- the same word, whatever size and patches it has and whatever _xmalloc answers. It is 0 only for
-- a container, on a processor that is not at one of family 10h's final levels.
pub cpu_request_microcode_ignores_buffer :
    (boot : CpuInfo) (rev : ℕ) (fresh : Option MicrocodeAmd) (block block' : Option MicrocodeHeader)
    (magic : ℕ) (extent extent' : ℕ) (buf buf' : ℕ → Mpbhdr) (bufsize bufsize' : ℕ)
    → (cpu_request_microcode boot rev fresh block magic extent buf bufsize
        ≡ cpu_request_microcode boot rev fresh block' magic extent' buf' bufsize')
      × (cpu_request_microcode boot rev fresh block magic extent buf bufsize ≡ some (pos 0)
          → (magic ≡ 0x00414d44)
            × (boot.x86 ≡ 0x10 → (rev ≢ 0x01000098) × (rev ≢ 0x0100009f) × (rev ≢ 0x010000af)))
unfolding cpu_request_microcode check_final_patch_levels is_level
cpu_request_microcode_ignores_buffer boot rev fresh block block' magic extent extent' buf buf'
      bufsize bufsize' =
    (refl, λ e. (ground arith, λ fam. (ground arith, ground arith, ground arith)))

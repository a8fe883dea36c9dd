-- ===== src/Fpu.antt =====
-- i387_verified.c: which state of the floating-point unit is saved and restored, and when.
use formal_verification_of_x.Prelude.{
  ℕ, zero, suc, ◌+◌, ◌==◌, ◌!=◌, if◌then◌else◌, Bool, true, false, not, ◌&&◌, ◌||◌, List, [], ◌∷◌,
  bit_or,
}
pub mod Alternate
pub mod Masks

-- `struct vcpu`, with its int fields as the numbers that they hold.
pub record FpuVcpu : Type 0 where
  pub xsave_area : ℕ
  pub xcr0_accum : ℕ
  pub xcr0 : ℕ
  pub nonlazy_xstate_used : ℕ
  pub fully_eager_fpu : ℕ
  pub fpu_initialised : ℕ
  pub fpu_dirtied : ℕ
  pub fpu_ctxt : ℕ

-- Calls of the functions whose bodies are empty or return a constant, in place of instructions.
pub data FpuCall : Type 0 where
  clts stts fpu_fxsave fpu_fxrstor xstate_free_save_area : FpuCall
  set_xcr0 xsave xrstor xfree : ℕ → FpuCall

-- A processor: the vcpu, and the calls, the last one first.
pub record Fpu : Type 0 where
  pub vcpu : FpuVcpu
  pub calls : List FpuCall

abbrev pub xstate_fp_sse : ℕ
xstate_fp_sse = 1

abbrev pub xstate_all_mask : ℕ
xstate_all_mask = 1

abbrev pub xstate_lazy : ℕ
xstate_lazy = 0

abbrev pub xstate_nonlazy : ℕ
xstate_nonlazy = 1

abbrev pub call : FpuCall → Fpu → Fpu
call c s = record s { calls = c ∷ s.calls }

-- `if (c) ... else ...`: an int is true when it is not 0.
abbrev pub is_set : ℕ → Bool
is_set x = not (x == 0)

pub vcpu_destroy_fpu : Fpu → Fpu
vcpu_destroy_fpu s =
    if is_set s.vcpu.xsave_area
    then call xstate_free_save_area s
    else call (xfree s.vcpu.fpu_ctxt) s

-- Its result, and that of ASSERT, are not looked at.
pub fpu_xrstor : ℕ → Fpu → Fpu
fpu_xrstor mask s =
    call (set_xcr0 xstate_fp_sse) (call (xrstor mask) (call (set_xcr0 xstate_fp_sse) s))

abbrev pub xstate_all : FpuVcpu → ℕ
xstate_all v = 1

pub vcpu_xsave_mask : FpuVcpu → ℕ
vcpu_xsave_mask v =
    if is_set v.fpu_dirtied
    then (if is_set v.nonlazy_xstate_used then xstate_all_mask else xstate_lazy)
    else (if is_set (xstate_all v) then xstate_all_mask else xstate_nonlazy)

abbrev pub mark_dirtied : Fpu → Fpu
mark_dirtied s = record s { vcpu = record s.vcpu { fpu_initialised = 1; fpu_dirtied = 1 } }

-- The local cpu_has_xsave is 1.
pub vcpu_restore_fpu_lazy : Fpu → Fpu
vcpu_restore_fpu_lazy s =
    let cpu_has_xsave : ℕ = 1 in
    let cleared = call clts s in
    let restored =
      if is_set cpu_has_xsave then fpu_xrstor xstate_lazy cleared else call fpu_fxrstor cleared in
    if is_set s.vcpu.fpu_dirtied then cleared else mark_dirtied restored

pub fpu_xsave : Fpu → Fpu
fpu_xsave s =
    let mask = vcpu_xsave_mask s.vcpu in
    let entered = call (set_xcr0 (bit_or s.vcpu.xcr0_accum xstate_fp_sse)) s in
    let saved = call (xsave mask) entered in
    call (set_xcr0 (if is_set s.vcpu.xcr0 then xstate_fp_sse else xstate_fp_sse)) saved

abbrev pub mark_clean : Fpu → Fpu
mark_clean s = record s { vcpu = record s.vcpu { fpu_dirtied = 0 } }

-- `cpu_has_xsave` is a ghost variable. The result tells whether the state was saved.
pub vcpu_save_fpu_if_used : Bool → Fpu → Fpu × Bool
vcpu_save_fpu_if_used cpu_has_xsave s =
    let cleared = call clts s in
    let saved = if cpu_has_xsave then fpu_xsave cleared else call fpu_fxsave cleared in
    if not (is_set s.vcpu.fpu_dirtied) && not (is_set s.vcpu.nonlazy_xstate_used)
    then (s, false)
    else (mark_clean saved, true)

pub vcpu_save_fpu : Bool → Fpu → Fpu
vcpu_save_fpu cpu_has_xsave s = call stts (vcpu_save_fpu_if_used cpu_has_xsave s).0

pub save_fpu_enable : Bool → Fpu → Fpu
save_fpu_enable cpu_has_xsave s =
    let (saved, done) = vcpu_save_fpu_if_used cpu_has_xsave s in
    if not done then call clts saved else saved

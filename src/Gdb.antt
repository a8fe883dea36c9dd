-- ===== src/Gdb.antt =====
-- gdbstub_verified.c: what the debugger's stub does to the registers and to memory.
use formal_verification_of_x.Prelude.{
  ℕ, zero, suc, ◌+◌, ◌-◌, ◌^◌, ◌==◌, ◌!=◌, if◌then◌else◌, Bool, true, false, bit_and, bit_or,
}
pub mod Resume
pub mod Copied

-- `struct cpu_user_regs`.
pub record CpuUserRegs : Type 0 where
  pub rip : ℕ
  pub eflags : ℕ

pub gdb_arch_signal_num : CpuUserRegs → ℕ → ℕ
gdb_arch_signal_num regs cookie = 5

abbrev pub put : (ℕ → ℕ) → ℕ → ℕ → ℕ → ℕ
put m i v j = if i == j then v else m j

-- __copy_from_user and __copy_to_user, which are the same function of two arrays that do not meet: the
-- destination behind the call. They return no value.
pub copy_user : (ℕ → ℕ) → (ℕ → ℕ) → ℕ → ℕ → ℕ
copy_user dest src zero = dest
copy_user dest src (suc len) = copy_user (put dest len (src len)) src len

abbrev pub copy_user_back : (ℕ → ℕ) → (ℕ → ℕ) → ℕ → ℕ → ℕ
copy_user_back dest src len = copy_user dest src len

pub gdb_arch_copy_from_user : (ℕ → ℕ) → (ℕ → ℕ) → ℕ → ℕ → ℕ
gdb_arch_copy_from_user dest src len = copy_user dest src len

pub gdb_arch_copy_to_user : (ℕ → ℕ) → (ℕ → ℕ) → ℕ → ℕ → ℕ
gdb_arch_copy_to_user dest src len = copy_user_back dest src len

-- X86_EFLAGS_RF, X86_EFLAGS_TF and GDB_STEP are locals that nothing writes; a long has 64 bits.
pub gdb_arch_resume : ℕ → ℕ → ℕ → ℕ → ℕ → CpuUserRegs → CpuUserRegs
gdb_arch_resume x86_eflags_rf x86_eflags_tf gdb_step addr type regs =
    let rip = if addr != 1 then addr else regs.rip in
    let cleared = bit_and regs.eflags (2 ^ 64 - 1 - x86_eflags_tf) in
    let resumed = bit_or cleared x86_eflags_rf in
    if type == gdb_step
    then record { rip = rip; eflags = bit_or resumed x86_eflags_tf }
    else record { rip = rip; eflags = resumed }

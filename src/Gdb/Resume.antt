-- ===== src/Gdb/Resume.antt =====
-- gdb_arch_resume, bit by bit.
use formal_verification_of_x.Prelude.{
  ℕ, ◌-◌, ◌^◌, ◌<◌, ◌≡◌, ◌≢◌, arith, ◌==◌, if◌then◌else◌, inl, inr, Bool-cases, bit_and, bit_or,
}
use formal_verification_of_x.Prelude.Bits.{digit}
use formal_verification_of_x.Prelude.Masks.{digit-set, digit-clear}
use formal_verification_of_x.Gdb.{CpuUserRegs, gdb_arch_resume}

-- With two different bits for the flags, digit `rf` and digit `tf`: behind gdb_arch_resume the resume flag
-- is set, the trap flag is set exactly for a single step, every other digit of eflags is as it was, and
-- rip is the address that was asked for, or as it was for the address 1.
pub gdb_arch_resume-eflags :
    (rf tf gdb_step addr type : ℕ) (regs : CpuUserRegs) (k : ℕ)
    → rf ≢ tf
    → tf < 64
    → k < 64
    → let regs' = gdb_arch_resume (2 ^ rf) (2 ^ tf) gdb_step addr type regs in
      (digit k regs'.eflags ≡ (
        if k == rf
        then 1
        else if k == tf
        then (if type == gdb_step then 1 else 0)
        else digit k regs.eflags))
      × (regs'.rip ≡ (if addr == 1 then regs.rip else addr))
unfolding gdb_arch_resume
gdb_arch_resume-eflags rf tf gdb_step addr type regs k apart lt k_lt =
    let cleared = bit_and regs.eflags (2 ^ 64 - 1 - 2 ^ tf) in
    let e1 = digit-clear 64 k tf regs.eflags k_lt lt in
    let e2 = digit-set k rf cleared in
    let e3 = digit-set k tf (bit_or cleared (2 ^ rf)) in
    elim (Bool-cases (type == gdb_step)) [
      | inl e ↦ rw e (rw (e3, e2, e1) (ground arith), ground arith)
      | inr e ↦ rw e (rw (e2, e1) (ground arith), ground arith)
    ]

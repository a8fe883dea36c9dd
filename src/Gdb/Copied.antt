-- ===== src/Gdb/Copied.antt =====
-- The copies of the stub, member by member.
use formal_verification_of_x.Prelude.{
  ℕ, zero, suc, ◌≡◌, ◌∙◌, arith, ◌==◌, ltb, if◌then◌else◌, inl, inr, Bool-cases,
}
use formal_verification_of_x.Gdb.{put, copy_user, gdb_arch_copy_from_user, gdb_arch_copy_to_user}

copied :
    (dest src : ℕ → ℕ) (len i : ℕ)
    → copy_user dest src len i ≡ (if ltb i len then src i else dest i)
unfolding copy_user
copied dest src zero i = ground arith
copied dest src (suc len) i =
    copied (put dest len (src len)) src len i ∙ elim (Bool-cases (len == i)) [
      | inl e ↦ let q : len ≡ i = ground arith in rw q (ground arith)
      | inr ne ↦ ground arith
    ]

-- For arrays that do not meet, of any length: a copy to the user and back leaves the first `len` members
-- as they were sent, and every member behind them as it was in the array that was last written.
pub copy_from_user-copy_to_user :
    (dest user src : ℕ → ℕ) (len i : ℕ)
    → gdb_arch_copy_from_user dest (gdb_arch_copy_to_user user src len) len i
      ≡ (if ltb i len then src i else dest i)
unfolding gdb_arch_copy_from_user gdb_arch_copy_to_user
copy_from_user-copy_to_user dest user src len i =
    copied dest (copy_user user src len) len i ∙ rw (copied user src len i) (ground arith)

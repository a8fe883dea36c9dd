-- ===== src/Intel/Loop/Request.antt =====
-- cpu_request_microcode of intel_verified.c on whole buffers.
use formal_verification_of_x.Prelude.{
  ℕ, suc, ◌+◌, ◌≡◌, ◌<◌, ◌≤◌, refl, ap, arith, ◌==◌, ◌!=◌, if◌then◌else◌, Bool, true, some,
}
use formal_verification_of_x.Prelude.Int.{ℤ, pos, negsuc}
use formal_verification_of_x.Intel.{
  ExtendedSigtable, Update, UcodeCpuInfo, unfinished, returned, total_size_of,
  microcode_sanity_check, apply_microcode_intel,
}
use formal_verification_of_x.Intel.Loop.{
  totalsize_end, get_next_ucode_from_buffer, Requested, iterate, request_loop, apply_matched,
  cpu_request_microcode_intel,
}
use formal_verification_of_x.Intel.Matching.{Matches, get_matching-IsMatched}
use formal_verification_of_x.Intel.Loop.Iterations.{
  get_next_fails, iterate-matches, iterate-at_end, from_start,
}

if-not_equal :
    (a b : ℕ) (x y : UcodeCpuInfo × ℤ) → (if a != b then x else y) ≡ (if a == b then y else x)
if-not_equal a b x y = ground arith

-- With a buffer `*mc` and room for the copies, whatever the fuel: the loop of cpu_request_microcode does
-- not end on a buffer whose first update has `t` bytes and that has an update of `t` bytes at `t`, both
-- sane and inside of what can be read. The offset is set to an update's size instead of advanced by it.
pub cpu_request_microcode_never_ends :
    (w : ℕ) (ext_header : ExtendedSigtable) (extent : ℕ) (buf : ℕ → Update) (size t fuel val : ℕ)
    (uci : UcodeCpuInfo)
    → 0 < t
    → t < size
    → (total_size_of (buf 0).hdr ≡ t) × (total_size_of (buf t).hdr ≡ t)
    → (microcode_sanity_check w (buf 0) ≡ returned (pos 0))
      × (microcode_sanity_check w (buf t) ≡ returned (pos 0))
    → t + totalsize_end ≤ extent
    → t + t ≤ extent
    → cpu_request_microcode_intel w true true ext_header val extent buf size fuel uci ≡ unfinished
unfolding cpu_request_microcode_intel
cpu_request_microcode_never_ends w ext_header extent buf size t fuel val uci some_ lt (s0, st)
      (c0, ct) header copy =
    ap (apply_matched val)
      (from_start w ext_header extent buf size fuel t _ some_ lt s0 st c0 ct header copy)

-- A buffer of one sane update, inside of what can be read and with the room for its copies: where it matches
-- the processor it is stored as the processor's update, and the answer is 0 with its revision noted where
-- the local `val`, which nothing writes, is that revision, and -5 where it is not; where it does not match the
-- processor's state stays as it was, with 0. Two iterations are enough. The instruction that would load
-- the update is commented out.
pub cpu_request_microcode-Single :
    (w : ℕ) (ext_header : ExtendedSigtable) (val extent : ℕ) (buf : ℕ → Update) (size fuel : ℕ)
    (uci : UcodeCpuInfo)
    → 0 < size
    → total_size_of (buf 0).hdr ≡ size
    → microcode_sanity_check w (buf 0) ≡ returned (pos 0)
    → totalsize_end ≤ extent
    → size ≤ extent
    → (Matches uci ext_header (buf 0).hdr
        → cpu_request_microcode_intel w true true ext_header val extent buf size
            (suc (suc fuel))
            uci
          ≡ returned (
              if val == (buf 0).hdr.rev
              then (record uci { mc_intel = some (buf 0); rev = val }, pos 0)
              else (record uci { mc_intel = some (buf 0) }, negsuc 4)))
      × (¬ (Matches uci ext_header (buf 0).hdr)
          → cpu_request_microcode_intel w true true ext_header val extent buf size
              (suc (suc fuel))
              uci
            ≡ returned (uci, pos 0))
unfolding cpu_request_microcode_intel request_loop apply_microcode_intel
cpu_request_microcode-Single w ext_header val extent buf size fuel uci some_ same sane header copy =
    let start : Requested = record { uci = uci; error = pos 0; matching_count = 0 } in
    let matched = get_matching-IsMatched true ext_header (buf 0) uci in
    let first =
      iterate-matches w ext_header extent buf size 0 size start some_ some_ (omega arith) same sane
        (omega arith) (omega arith) in
    let last =
      λ (r : Requested). iterate-at_end w ext_header extent buf size size r (omega arith) in
    (
      λ m.
          rw (first, matched.stored m refl, last)
            (ap returned (if-not_equal val (buf 0).hdr.rev _ _)),
      λ m. rw (first, matched.no_match m, last),
    )

-- An update that is longer than the buffer: get_next_ucode_from_buffer answers -101, and
-- cpu_request_microcode answers 0 with the processor's state as it was, because the test of a negative
-- offset stands under the test of a positive one.
pub cpu_request_microcode_hides_error :
    (w : ℕ) (room room' : Bool) (ext_header : ExtendedSigtable) (val extent : ℕ) (buf : ℕ → Update)
    (size fuel : ℕ) (uci : UcodeCpuInfo)
    → 0 < size
    → totalsize_end ≤ extent
    → size < total_size_of (buf 0).hdr
    → (get_next_ucode_from_buffer room extent buf size 0 ≡ returned (negsuc 100))
      × (cpu_request_microcode_intel w room room' ext_header val extent buf size (suc fuel) uci
          ≡ returned (uci, pos 0))
unfolding cpu_request_microcode_intel request_loop iterate
cpu_request_microcode_hides_error w room room' ext_header val extent buf size fuel uci some_ header
      lt =
    let result = get_next_fails room extent buf size 0 some_ (omega arith) lt in (result, rw result)

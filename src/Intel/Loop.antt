-- ===== src/Intel/Loop.antt =====
-- The functions of intel_verified.c that walk over a buffer of updates, with the request that loads one.
use formal_verification_of_x.Prelude.{
  ℕ, zero, suc, ◌+◌, ◌%◌, ◌^◌, ◌==◌, ◌!=◌, ltb, leb, if◌then◌else◌, Bool, true, false, not, ◌&&◌,
  Option, none, some,
}
use formal_verification_of_x.Prelude.Int.{ℤ, pos, negsuc}
use formal_verification_of_x.Intel.{
  ExtendedSigtable, Update, UcodeCpuInfo, Outcome, fault, unfinished, returned, total_size_of,
  microcode_sanity_check, get_matching_microcode, apply_microcode_intel,
}
pub mod Iterations
pub mod Request

-- The bytes of an update's header up to the end of `totalsize`.
abbrev pub totalsize_end : ℕ
totalsize_end = 40

-- `buf k` is the update at the byte `k` of the buffer, and `extent` the number of bytes that can be read from
-- `buf` on: to read the header or to copy the update behind them is a fault. Sizes are assumed to fit an int.
-- `room` is whether `*mc`, which the caller does not write, is not NULL. A positive result is the total size.
pub get_next_ucode_from_buffer : Bool → ℕ → (ℕ → Update) → ℕ → ℕ → Outcome ℤ
get_next_ucode_from_buffer room extent buf size offset =
    let total_size = total_size_of (buf offset).hdr in
    if leb size offset
    then returned (pos 0)
    else if ltb extent (offset + totalsize_end)
    then fault
    else if ltb size total_size
    then returned (negsuc 100)
    else if not room
    then returned (negsuc 11)
    else if ltb extent (offset + total_size)
    then fault
    else returned (pos total_size)

-- What the loop of cpu_request_microcode leaves: the state, `error` and `matching_count`.
pub record Requested : Type 0 where
  pub uci : UcodeCpuInfo
  pub error : ℤ
  pub matching_count : ℕ

-- What an iteration of the loop leads to: the next call of get_next_ucode_from_buffer, or the end.
pub data Iteration : Type 0 where
  next : ℕ → Requested → Iteration
  ended : Outcome Requested → Iteration

-- `if (error < 0) break; if (error == 1) { matching_count++; error = 0; }`.
abbrev pub count_match : ℕ → ℕ → UcodeCpuInfo × ℤ → Iteration
count_match offset matching_count (uci, pos error) =
    if error == 1
    then next offset
        (record { uci = uci; error = pos 0; matching_count = (matching_count + 1) % 2 ^ 32 })
    else next offset (record { uci = uci; error = pos error; matching_count = matching_count })
count_match offset matching_count (uci, negsuc e) =
    ended (returned (record { uci = uci; error = negsuc e; matching_count = matching_count }))

-- `if (error) break;` behind the sanity check; the update is the one that `*mc` has.
abbrev pub match_checked : Bool → ExtendedSigtable → Update → ℕ → Requested → Outcome ℤ → Iteration
match_checked room ext_header mc offset r fault = ended fault
match_checked room ext_header mc offset r unfinished = ended unfinished
match_checked room ext_header mc offset r (returned (negsuc e)) =
    ended (returned (record r { error = negsuc e }))
match_checked room ext_header mc offset r (returned (pos zero)) =
    count_match offset r.matching_count (get_matching_microcode room ext_header mc r.uci)
match_checked room ext_header mc offset r (returned (pos (suc e))) =
    ended (returned (record r { error = pos (suc e) }))

-- The loop's test: its call's result is the next offset. A negative one ends the loop and is not read
-- again, because `if (offset < 0)` stands under `if (offset > 0)`.
abbrev pub iterate_from :
    ℕ → Bool → Bool → ExtendedSigtable → Update → Requested → Outcome ℤ → Iteration
iterate_from w room room' ext_header mc r fault = ended fault
iterate_from w room room' ext_header mc r unfinished = ended unfinished
iterate_from w room room' ext_header mc r (returned (negsuc e)) = ended (returned r)
iterate_from w room room' ext_header mc r (returned (pos zero)) = ended (returned r)
iterate_from w room room' ext_header mc r (returned (pos (suc offset))) =
    match_checked room' ext_header mc (suc offset) r (microcode_sanity_check w mc)

-- `room` is whether the buffer `*mc` of the loop is not NULL, `room'` whether `new_mc` is not.
pub iterate : ℕ → Bool → Bool → ExtendedSigtable → ℕ → (ℕ → Update) → ℕ → ℕ → Requested → Iteration
iterate w room room' ext_header extent buf size offset r =
    iterate_from w room room' ext_header (buf offset) r
      (get_next_ucode_from_buffer room extent buf size offset)

abbrev pub go_on : (ℕ → Requested → Outcome Requested) → Iteration → Outcome Requested
go_on rest (next offset r) = rest offset r
go_on rest (ended o) = o

pub request_loop :
    ℕ
    → Bool
    → Bool
    → ExtendedSigtable
    → ℕ
    → (ℕ → Update)
    → ℕ
    → ℕ
    → ℕ
    → Requested
    → Outcome Requested
request_loop w room room' ext_header extent buf size zero offset r = unfinished
request_loop w room room' ext_header extent buf size (suc fuel) offset r =
    go_on (λ o r'. request_loop w room room' ext_header extent buf size fuel o r')
      (iterate w room room' ext_header extent buf size offset r)

-- `if (!error && matching_count) error = apply_microcode(cpu);`.
abbrev pub apply_matched : ℕ → Outcome Requested → Outcome (UcodeCpuInfo × ℤ)
apply_matched val fault = fault
apply_matched val unfinished = unfinished
apply_matched val (returned r) = returned (elim r.error [
  | pos e ↦
      if e == 0 && r.matching_count != 0 then apply_microcode_intel val r.uci else (r.uci, pos e)
  | negsuc e ↦ (r.uci, negsuc e)
])

pub cpu_request_microcode_intel :
    ℕ
    → Bool
    → Bool
    → ExtendedSigtable
    → ℕ
    → ℕ
    → (ℕ → Update)
    → ℕ
    → ℕ
    → UcodeCpuInfo
    → Outcome (UcodeCpuInfo × ℤ)
cpu_request_microcode_intel w room room' ext_header val extent buf size fuel uci =
    apply_matched val (
      request_loop w room room' ext_header extent buf size fuel 0
        (record { uci = uci; error = pos 0; matching_count = 0 }))

-- `none` where the function ends without a value: the assignment under its `if` is commented out, which
-- leaves `return 0` there.
pub microcode_init_intel : ℕ → Option ℤ
microcode_init_intel x86_vendor = if x86_vendor == 1 then some (pos 0) else none

pub start_update_intel : ℤ
start_update_intel = pos 0

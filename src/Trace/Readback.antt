-- ===== src/Trace/Readback.antt =====
-- A reader of the records of the trace.
use formal_verification_of_x.Prelude.{
  ℕ, ◌+◌, ◌*◌, ◌/◌, ◌%◌, ◌^◌, ◌<◌, ◌≡◌, ap, ◌∙◌, arith, ◌==◌, if◌then◌else◌, true, List, [], ◌∷◌,
  bit_and,
}
use formal_verification_of_x.Prelude.Bits.{digit}
use formal_verification_of_x.Prelude.Masks.{test_digit}
use formal_verification_of_x.Trace.{Field, Traced, TraceNames, trace_pv_trap}

-- The bytes of a packed structure as one number, the first member lowest.
abbrev pub pack : List Field → ℕ
pack [] = 0
pack (f ∷ fs) = f.value + pack fs * 2 ^ f.bits

-- Members of the given widths, read from such a number.
abbrev pub unpack : List ℕ → ℕ → List ℕ
unpack [] n = []
unpack (w ∷ ws) n = n % 2 ^ w ∷ unpack ws (n / 2 ^ w)

abbrev pub widths : List Field → List ℕ
widths [] = []
widths (f ∷ fs) = f.bits ∷ widths fs

abbrev pub values : List Field → List ℕ
values [] = []
values (f ∷ fs) = f.value ∷ values fs

-- Every value fits its member.
abbrev pub AllFit : List Field → Type 0
AllFit [] = Unit
AllFit (f ∷ fs) = (f.value < 2 ^ f.bits) × AllFit fs

-- The width of an address in a record: by the flag of its event.
abbrev pub address_bits : TraceNames → Traced → ℕ
address_bits names r = if bit_and r.event names.trc_64_flag == 0 then 32 else 64

-- The flag is one bit, which none of the events has.
pub record IsFlagged (names : TraceNames) (i : ℕ) : Type 0 where
  pub one_bit : names.trc_64_flag ≡ 2 ^ i
  pub page_fault : digit i names.trc_pv_page_fault ≡ 0
  pub ptwr_emulation_pae : digit i names.trc_pv_ptwr_emulation_pae ≡ 0

flag_off :
    (names : TraceNames) (i event : ℕ)
    → names.trc_64_flag ≡ 2 ^ i
    → digit i event ≡ 0
    → (bit_and event names.trc_64_flag == 0) ≡ true
flag_off names i event e off = rw e (test_digit i event ∙ ap (λ d. d == 0) off)

-- What is read from a record, with members of the width of an address and of other widths.
abbrev pub read : TraceNames → (ℕ → List ℕ) → Traced → List ℕ
read names layout r = unpack (layout (address_bits names r)) (pack r.extra)

three_members :
    (eip x : ℕ)
    → eip < 2 ^ 32
    → unpack (32 ∷ 16 ∷ 1 ∷ []) (eip % 2 ^ 64 + x * 2 ^ 64) ≡ eip ∷ 0 ∷ 0 ∷ []
three_members eip x small =
    let a : (eip % 2 ^ 64 + x * 2 ^ 64) % 2 ^ 32 ≡ eip = omega arith in
    let b : (eip % 2 ^ 64 + x * 2 ^ 64) / 2 ^ 32 % 2 ^ 16 ≡ 0 = omega arith in
    let c : (eip % 2 ^ 64 + x * 2 ^ 64) / 2 ^ 32 / 2 ^ 16 % 2 ^ 1 ≡ 0 = omega arith in cc

-- The same reader on the trap of a 32-bit guest, whose event has no flag, and whose instruction pointer is
-- below 2^32: it gets the pointer, but 0 for the trap's number and for the presence of an error
-- code, whatever they were, because the record has 64 bits for the pointer.
pub trap_of_32bit_guest_misread :
    (names : TraceNames) (i trapnr eip use_error_code error_code : ℕ)
    → names.trc_64_flag ≡ 2 ^ i
    → digit i names.trc_pv_trap ≡ 0
    → eip < 2 ^ 32
    → read names
        (λ b. b ∷ 16 ∷ 1 ∷ [])
        (trace_pv_trap names true trapnr eip use_error_code error_code)
      ≡ eip ∷ 0 ∷ 0 ∷ []
unfolding trace_pv_trap
trap_of_32bit_guest_misread names i trapnr eip use_error_code error_code e off small =
    rw (flag_off names i names.trc_pv_trap e off) (three_members eip _ small)

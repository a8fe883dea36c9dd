-- ===== src/Trace.antt =====
-- trace_verified.c: the records that the traps and faults of a paravirtualised guest leave in the trace.
use formal_verification_of_x.Prelude.{
  ℕ, zero, suc, ◌+◌, ◌-◌, ◌*◌, ◌/◌, ◌%◌, ◌^◌, ◌==◌, ◌!=◌, if◌then◌else◌, Bool, true, false, List,
  [], ◌∷◌, bit_or,
}
pub mod Readback

-- A member of one of the local structures: its width in bits, and its value.
pub record Field : Type 0 where
  pub bits : ℕ
  pub value : ℕ

-- A call of __trace_var: the event, whether it has a time stamp, and the structure.
pub record Traced : Type 0 where
  pub event : ℕ
  pub cycles : Bool
  pub extra : List Field

-- The ghost variables that stand for the events and for the flag of the records of 64 bits.
pub record TraceNames : Type 0 where
  pub trc_pv_trap : ℕ
  pub trc_pv_page_fault : ℕ
  pub trc_pv_ptwr_emulation : ℕ
  pub trc_pv_ptwr_emulation_pae : ℕ
  pub trc_64_flag : ℕ

-- An assignment to a member of `bits` bits.
abbrev pub member : ℕ → ℕ → Field
member bits value = record { bits = bits; value = value % 2 ^ bits }

-- `event |= TRC_64_FLAG;`, for an event and a flag that fit an unsigned int.
abbrev pub with_64_flag : TraceNames → ℕ → ℕ
with_64_flag names event = bit_or event names.trc_64_flag

-- `is_32bit` is what is_pv_32bit_vcpu answers, here and below. Both structures have a whole long for eip.
pub trace_pv_trap : TraceNames → Bool → ℕ → ℕ → ℕ → ℕ → Traced
trace_pv_trap names is_32bit trapnr eip use_error_code error_code =
    let flag = if use_error_code == 0 then 0 else 1 in
    if is_32bit
    then record {
      event = names.trc_pv_trap;
      cycles = true;
      extra = member 64 eip ∷ member 16 trapnr ∷ member 1 flag ∷ member 16 error_code ∷ [];
    }
    else record {
      event = with_64_flag names names.trc_pv_trap;
      cycles = true;
      extra = member 64 eip ∷ member 16 trapnr ∷ member 1 flag ∷ member 16 error_code ∷ [];
    }

-- `eip` is a ghost variable.
pub trace_pv_page_fault : TraceNames → Bool → ℕ → ℕ → ℕ → Traced
trace_pv_page_fault names is_32bit eip addr error_code =
    if is_32bit
    then record {
      event = names.trc_pv_page_fault;
      cycles = true;
      extra = member 32 eip ∷ member 32 addr ∷ member 32 error_code ∷ [];
    }
    else record {
      event = with_64_flag names names.trc_pv_page_fault;
      cycles = true;
      extra = member 64 eip ∷ member 64 addr ∷ member 32 error_code ∷ [];
    }

pub trace_trap_one_addr : TraceNames → Bool → ℕ → ℕ → Traced
trace_trap_one_addr names is_32bit event va =
    if is_32bit
    then record { event = event; cycles = true; extra = member 32 va ∷ [] }
    else record { event = with_64_flag names event; cycles = true; extra = member 64 va ∷ [] }

pub trace_trap_two_addr : TraceNames → Bool → ℕ → ℕ → ℕ → Traced
trace_trap_two_addr names is_32bit event va1 va2 =
    if is_32bit
    then record { event = event; cycles = true; extra = member 32 va1 ∷ member 32 va2 ∷ [] }
    else record {
      event = with_64_flag names event;
      cycles = true;
      extra = member 64 va1 ∷ member 64 va2 ∷ [];
    }

-- An entry of a page table is an unsigned long.
pub trace_ptwr_emulation : TraceNames → Bool → ℕ → ℕ → ℕ → Traced
trace_ptwr_emulation names is_32bit eip addr npte =
    if is_32bit
    then record {
      event = names.trc_pv_ptwr_emulation_pae;
      cycles = true;
      extra = member 64 npte ∷ member 32 addr ∷ member 32 eip ∷ [];
    }
    else record {
      event = with_64_flag names names.trc_pv_ptwr_emulation;
      cycles = true;
      extra = member 64 npte ∷ member 64 addr ∷ member 64 eip ∷ [];
    }

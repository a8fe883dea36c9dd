-- ===== src/Tests/Records.antt =====
-- trace_verified.c with events and the flag as bits of a word.
use formal_verification_of_x.Trace.{TraceNames}

abbrev event_numbers : TraceNames
event_numbers = record {
  trc_pv_trap = 0x20f003;
  trc_pv_page_fault = 0x20f004;
  trc_pv_ptwr_emulation = 0x20f009;
  trc_pv_ptwr_emulation_pae = 0x20f00a;
  trc_64_flag = 0x100;
}

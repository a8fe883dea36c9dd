-- ===== src/Tests/Updates.antt =====
-- intel_verified.c on updates of 104 bytes, 52 of them data.
use formal_verification_of_x.Prelude.{
  ℕ, ◌+◌, ◌-◌, ◌*◌, ◌^◌, ◌≡◌, ◌↔◌, refl, arith, ◌==◌, if◌then◌else◌, true, none, some,
}
use formal_verification_of_x.Prelude.Int.{pos}
use formal_verification_of_x.Intel.{
  IntelHeader, ExtendedSigtable, Update, UcodeCpuInfo, unfinished, returned, microcode_sanity_check,
  total_size_of, data_size_of, sum_words,
}
use formal_verification_of_x.Intel.Loop.{cpu_request_microcode_intel}
use formal_verification_of_x.Intel.Sanity.{IsSane, microcode_sanity_check-IsSane}
use formal_verification_of_x.Intel.Matching.{Matches}
use formal_verification_of_x.Intel.Loop.Request.{
  cpu_request_microcode_never_ends, cpu_request_microcode-Single,
}

abbrev header : IntelHeader
header = record {
  hdrver = 1;
  rev = 7;
  sig = 0x6f2;
  cksum = 0;
  ldrver = 1;
  pf = 1;
  datasize = 52;
  totalsize = 104;
}

-- The thirteen words of the update: the header's fields, and a last word that makes their sum 0.
abbrev update_words : ℕ → ℕ
update_words i =
    if i == 0
    then 1 + 7 * 2 ^ 32
    else if i == 2
    then 0x6f2
    else if i == 3
    then 1 + 2 ^ 32
    else if i == 4
    then 52 + 104 * 2 ^ 32
    else if i == 12
    then 2 ^ 64 - (0x6f2 + 54 + 112 * 2 ^ 32)
    else 0

abbrev update : Update
update = record { hdr = header; words = update_words }

update_size : total_size_of header ≡ 104
unfolding total_size_of
update_size = refl

update_data : data_size_of header ≡ 52
unfolding data_size_of
update_data = refl

abbrev table : ExtendedSigtable
table = record {
  count = 0;
  words = λ i. 0;
  entries = λ i. record { sig = 0; pf = 0; cksum = 0 };
  sig_at = λ i. record { sig = 0; pf = 0; cksum = 0 };
}

abbrev processor : UcodeCpuInfo
processor = record { sig = 0x6f2; pf = 1; rev = 3; mc_intel = none }

update_sane : microcode_sanity_check 8 update ≡ returned (pos 0)
unfolding microcode_sanity_check total_size_of data_size_of sum_words
update_sane = refl

microcode_sanity_check-IsSane_example :
    (microcode_sanity_check 8 update ≡ returned (pos 0)) ↔ IsSane 8 update
microcode_sanity_check-IsSane_example =
    microcode_sanity_check-IsSane 8 update (omega arith) (rw update_data (omega arith))
      (rw update_size (omega arith))

-- A buffer of two such updates.
cpu_request_microcode_never_ends_example :
    cpu_request_microcode_intel 8 true true table 7 208 (λ k. update) 208 1000 processor
    ≡ unfinished
cpu_request_microcode_never_ends_example =
    cpu_request_microcode_never_ends 8 table 208 (λ k. update) 208 104 1000 7 processor
      (omega arith) (omega arith) (update_size, update_size) (update_sane, update_sane)
      (omega arith) (omega arith)

-- A buffer of one.
cpu_request_microcode-Single_example :
    (Matches processor table header
      → cpu_request_microcode_intel 8 true true table 7 104 (λ k. update) 104 2 processor
        ≡ returned (record processor { mc_intel = some update; rev = 7 }, pos 0))
    × (¬ (Matches processor table header)
        → cpu_request_microcode_intel 8 true true table 7 104 (λ k. update) 104 2 processor
          ≡ returned (processor, pos 0))
cpu_request_microcode-Single_example =
    cpu_request_microcode-Single 8 table 7 104 (λ k. update) 104 0 processor (omega arith)
      update_size update_sane (omega arith) (omega arith)

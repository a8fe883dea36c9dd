-- ===== src/Intel/Loop/Iterations.antt =====
-- The iterations of cpu_request_microcode's loop: where one goes on, where it ends, and what it leaves.
use formal_verification_of_x.Prelude.{
  ℕ, zero, suc, ◌+◌, ◌^◌, ◌%◌, ◌≡◌, ◌<◌, ◌≤◌, refl, ap, ◌∙◌, arith, ◌==◌, leb, Bool, true, some,
  inl, inr, Bool-cases,
}
use formal_verification_of_x.Prelude.Int.{pos, negsuc}
use formal_verification_of_x.Intel.{
  ExtendedSigtable, Update, UcodeCpuInfo, unfinished, returned, total_size_of, data_size_of,
  microcode_update_match, matches_entry, microcode_sanity_check, get_matching_microcode,
}
use formal_verification_of_x.Intel.Loop.{
  totalsize_end, get_next_ucode_from_buffer, Requested, next, ended, count_match, iterate,
  request_loop,
}

get_next_stops :
    (room : Bool) (extent : ℕ) (buf : ℕ → Update) (size offset : ℕ)
    → size ≤ offset
    → get_next_ucode_from_buffer room extent buf size offset ≡ returned (pos 0)
unfolding get_next_ucode_from_buffer
get_next_stops room extent buf size offset le = ground arith

get_next_gives :
    (extent : ℕ) (buf : ℕ → Update) (size offset t : ℕ)
    → offset < size
    → t ≤ size
    → total_size_of (buf offset).hdr ≡ t
    → offset + totalsize_end ≤ extent
    → offset + t ≤ extent
    → get_next_ucode_from_buffer true extent buf size offset ≡ returned (pos t)
unfolding get_next_ucode_from_buffer
get_next_gives extent buf size offset t before le same header copy = rw same (ground arith)

-- With room for the copy, what get_matching_microcode answers lets the loop go on.
get_matching-going_on :
    (ext_header : ExtendedSigtable) (mc : Update) (uci : UcodeCpuInfo)
    → (uci' : UcodeCpuInfo) × (e : ℕ) × (get_matching_microcode true ext_header mc uci
        ≡ (uci', pos e))
unfolding get_matching_microcode
get_matching-going_on ext_header mc uci =
    elim (Bool-cases (microcode_update_match uci mc.hdr mc.hdr.sig mc.hdr.pf)) [
      | inl q ↦ (record uci { mc_intel = some mc }, 1, rw q)
      | inr q ↦ elim (Bool-cases (leb (total_size_of mc.hdr) (data_size_of mc.hdr + 52))) [
        | inl short ↦ (uci, 0, rw (q, short))
        | inr long ↦
            elim (Bool-cases (matches_entry uci mc.hdr ext_header.entries ext_header.count 0)) [
              | inl f ↦ (record uci { mc_intel = some mc }, 1, rw (q, long, f))
              | inr f ↦ (uci, 0, rw (q, long, f))
            ]
      ]
    ]

count_match-going_on :
    (offset count : ℕ) (uci : UcodeCpuInfo) (e : ℕ)
    → (r' : Requested) × (count_match offset count (uci, pos e) ≡ next offset r')
count_match-going_on offset count uci e = elim (Bool-cases (e == 1)) [
  | inl q ↦ (record { uci = uci; error = pos 0; matching_count = (count + 1) % 2 ^ 32 }, rw q)
  | inr q ↦ (record { uci = uci; error = pos e; matching_count = count }, rw q)
]

module _ (w : ℕ) (ext_header : ExtendedSigtable) (extent : ℕ) (buf : ℕ → Update) (size : ℕ) where
  -- A sane update is matched, with its size as the next offset.
  pub iterate-matches :
      (offset t : ℕ) (r : Requested)
      → offset < size
      → 0 < t
      → t ≤ size
      → total_size_of (buf offset).hdr ≡ t
      → microcode_sanity_check w (buf offset) ≡ returned (pos 0)
      → offset + totalsize_end ≤ extent
      → offset + t ≤ extent
      → iterate w true true ext_header extent buf size offset r
        ≡ count_match t r.matching_count (get_matching_microcode true ext_header (buf offset) r.uci)
  unfolding iterate
  iterate-matches offset zero r before some_ le same sane header copy = absurd (omega arith)
  iterate-matches offset (suc t) r before some_ le same sane header copy =
      let result : get_next_ucode_from_buffer true extent buf size offset ≡ returned (pos (suc t)) =
        get_next_gives extent buf size offset (suc t) before le same header copy in
      rw (result, sane)

  iterate-passes :
      (offset t : ℕ) (r : Requested)
      → offset < size
      → 0 < t
      → t ≤ size
      → total_size_of (buf offset).hdr ≡ t
      → microcode_sanity_check w (buf offset) ≡ returned (pos 0)
      → offset + totalsize_end ≤ extent
      → offset + t ≤ extent
      → (r' : Requested) × (iterate w true true ext_header extent buf size offset r ≡ next t r')
  iterate-passes offset t r before some_ le same sane header copy =
      let (uci', e, matched) = get_matching-going_on ext_header (buf offset) r.uci in
      let (r', counted) = count_match-going_on t r.matching_count uci' e in
      (
        r',
        iterate-matches offset t r before some_ le same sane header copy
            ∙ ap (count_match t r.matching_count) matched
            ∙ counted,
      )

  -- At the end of the buffer.
  pub iterate-at_end :
      (offset : ℕ) (r : Requested)
      → size ≤ offset
      → iterate w true true ext_header extent buf size offset r ≡ ended (returned r)
  unfolding iterate
  iterate-at_end offset r le = rw (get_next_stops true extent buf size offset le)

  request_loop_stays :
      (fuel t : ℕ) (r : Requested)
      → 0 < t
      → t < size
      → total_size_of (buf t).hdr ≡ t
      → microcode_sanity_check w (buf t) ≡ returned (pos 0)
      → t + totalsize_end ≤ extent
      → t + t ≤ extent
      → request_loop w true true ext_header extent buf size fuel t r ≡ unfinished
  unfolding request_loop
  request_loop_stays zero t r some_ lt same sane header copy = refl
  request_loop_stays (suc fuel) t r some_ lt same sane header copy =
      let (r', e) = iterate-passes t t r lt some_ (omega arith) same sane header copy in
      rw e (request_loop_stays fuel t r' some_ lt same sane header copy)

  pub from_start :
      (fuel t : ℕ) (r : Requested)
      → 0 < t
      → t < size
      → total_size_of (buf 0).hdr ≡ t
      → total_size_of (buf t).hdr ≡ t
      → microcode_sanity_check w (buf 0) ≡ returned (pos 0)
      → microcode_sanity_check w (buf t) ≡ returned (pos 0)
      → t + totalsize_end ≤ extent
      → t + t ≤ extent
      → request_loop w true true ext_header extent buf size fuel 0 r ≡ unfinished
  unfolding request_loop
  from_start zero t r some_ lt s0 st c0 ct header copy = refl
  from_start (suc fuel) t r some_ lt s0 st c0 ct header copy =
      let (r', e) =
        iterate-passes 0 t r (omega arith) some_ (omega arith) s0 c0 (omega arith) (omega arith) in
      rw e (request_loop_stays fuel t r' some_ lt st ct header copy)

pub get_next_fails :
    (room : Bool) (extent : ℕ) (buf : ℕ → Update) (size offset : ℕ)
    → offset < size
    → offset + totalsize_end ≤ extent
    → size < total_size_of (buf offset).hdr
    → get_next_ucode_from_buffer room extent buf size offset ≡ returned (negsuc 100)
unfolding get_next_ucode_from_buffer
get_next_fails room extent buf size offset before header lt = ground arith

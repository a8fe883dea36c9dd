-- ===== src/Intel/Matching.antt =====
-- get_matching_microcode: the match of an update with the processor.
use formal_verification_of_x.Prelude.{
  ℕ, zero, suc, ◌+◌, ◌≡◌, ◌≢◌, ◌⊎◌, ◌<◌, ◌≤◌, ◌↔◌, refl, arith, leb, Bool, true, false, some, inl,
  inr, bit_and, Bool-cases,
}
use formal_verification_of_x.Prelude.Int.{ℤ, pos, negsuc}
use native.Mathlib.Decide.{dec_lt, ℕ_discrete}
use formal_verification_of_x.Intel.{
  IntelHeader, ExtendedSignature, ExtendedSigtable, Update, UcodeCpuInfo, total_size_of,
  data_size_of, microcode_update_match, matches_entry, store_match, get_matching_microcode,
}

-- A signature and flags that fit the processor, of an update that is newer than what it runs.
pub record IsMatch (uci : UcodeCpuInfo) (rev sig pf : ℕ) : Type 0 where
  pub processor : sig ≡ uci.sig
  pub platform : (bit_and pf uci.pf ≢ 0) ⊎ ((pf ≡ 0) × (uci.pf ≡ 0))
  pub newer : uci.rev < rev

-- Where an update matches: by its header, or by one of the signatures of the table behind its data.
pub data Matches (uci : UcodeCpuInfo) (ext_header : ExtendedSigtable) (hdr : IntelHeader)
    : Type 0 where
  by_header : IsMatch uci hdr.rev hdr.sig hdr.pf → Matches uci ext_header hdr
  by_entry :
      (i : ℕ)
      → data_size_of hdr + 52 < total_size_of hdr
      → i < ext_header.count
      → IsMatch uci hdr.rev (ext_header.entries i).sig (ext_header.entries i).pf
      → Matches uci ext_header hdr

update-IsMatch_iff :
    (uci : UcodeCpuInfo) (hdr : IntelHeader) (sig pf : ℕ)
    → (microcode_update_match uci hdr sig pf ≡ true) ↔ IsMatch uci hdr.rev sig pf
unfolding microcode_update_match
update-IsMatch_iff uci hdr sig pf = (
  λ h. record {
    processor = ground arith;
    platform = elim (ℕ_discrete (bit_and pf uci.pf) 0) [
      | yes e ↦ inr (ground arith, ground arith)
      | no ne ↦ inl ne
    ];
    newer = ground arith;
  },
  λ m.
      let e = m.processor in
      let n = m.newer in elim m.platform [ inl p ↦ ground arith | inr (p, q) ↦ ground arith ],
)

matches_entry_sound :
    (uci : UcodeCpuInfo) (hdr : IntelHeader) (entries : ℕ → ExtendedSignature) (rounds i : ℕ)
    → matches_entry uci hdr entries rounds i ≡ true
    → (k : ℕ) × (k < i + rounds) × IsMatch uci hdr.rev (entries k).sig (entries k).pf
unfolding matches_entry
matches_entry_sound uci hdr entries zero i h = absurd (cc h)
matches_entry_sound uci hdr entries (suc rounds) i h =
    elim (Bool-cases (microcode_update_match uci hdr (entries i).sig (entries i).pf)) [
      | inl e ↦ (i, omega arith, (update-IsMatch_iff _ _ _ _).0 e)
      | inr e ↦
          let rest = matches_entry_sound uci hdr entries rounds (i + 1) (ground arith) in
          (rest.0, omega arith, rest.2)
    ]

matches_entry_complete :
    (uci : UcodeCpuInfo) (hdr : IntelHeader) (entries : ℕ → ExtendedSignature) (rounds i k : ℕ)
    → i ≤ k
    → k < i + rounds
    → IsMatch uci hdr.rev (entries k).sig (entries k).pf
    → matches_entry uci hdr entries rounds i ≡ true
unfolding matches_entry
matches_entry_complete uci hdr entries zero i k le lt m = absurd (omega arith)
matches_entry_complete uci hdr entries (suc rounds) i k le lt m =
    elim (Bool-cases (microcode_update_match uci hdr (entries i).sig (entries i).pf)) [
      | inl e ↦ rw e
      | inr e ↦ rw e (elim (dec_lt i k) [
        | yes later ↦
            matches_entry_complete uci hdr entries rounds (i + 1) k (omega arith) (omega arith) m
        | no here ↦
            let same : k ≡ i = omega arith in
            let yes' = (update-IsMatch_iff uci hdr (entries k).sig (entries k).pf).1 m in
            absurd (cc (rw same at yes'))
      ])
    ]

-- What get_matching_microcode leaves and answers: the update, stored, and 1 where it matches; -12 where it
-- does but there is no room for its copy; nothing stored and 0 where it does not.
pub record IsMatched (room : Bool) (ext_header : ExtendedSigtable) (mc : Update)
    (uci : UcodeCpuInfo) (r : UcodeCpuInfo × ℤ) : Type 0 where
  pub stored :
      Matches uci ext_header mc.hdr → room ≡ true → r ≡ (record uci { mc_intel = some mc }, pos 1)
  pub no_room : Matches uci ext_header mc.hdr → room ≡ false → r ≡ (uci, negsuc 11)
  pub no_match : ¬ (Matches uci ext_header mc.hdr) → r ≡ (uci, pos 0)

-- From the label `find` on.
found_IsMatched :
    (room : Bool) (ext_header : ExtendedSigtable) (mc : Update) (uci : UcodeCpuInfo)
    → Matches uci ext_header mc.hdr
    → IsMatched room ext_header mc uci (store_match room mc uci)
found_IsMatched room ext_header mc uci m = record {
  stored = λ h e. rw e;
  no_room = λ h e. rw e;
  no_match = λ none_. absurd (none_ m);
}

none_IsMatched :
    (room : Bool) (ext_header : ExtendedSigtable) (mc : Update) (uci : UcodeCpuInfo)
    → ¬ (Matches uci ext_header mc.hdr)
    → IsMatched room ext_header mc uci (uci, pos 0)
none_IsMatched room ext_header mc uci n = record {
  stored = λ h e. absurd (n h);
  no_room = λ h e. absurd (n h);
  no_match = λ h. refl;
}

header_missed :
    (uci : UcodeCpuInfo) (ext_header : ExtendedSigtable) (hdr : IntelHeader)
    → microcode_update_match uci hdr hdr.sig hdr.pf ≡ false
    → (data_size_of hdr + 52 < total_size_of hdr
        → matches_entry uci hdr ext_header.entries ext_header.count 0 ≡ false)
    → ¬ (Matches uci ext_header hdr)
header_missed uci ext_header hdr e f (by_header m) =
    let yes' = (update-IsMatch_iff uci hdr hdr.sig hdr.pf).1 m in absurd (cc yes')
header_missed uci ext_header hdr e f (by_entry i lt below m) =
    let no' = f lt in
    let yes' =
      matches_entry_complete uci hdr ext_header.entries ext_header.count 0 i (omega arith)
        (omega arith) m in
    absurd (cc yes')

-- For every update, processor state and table that the uninitialised `ext_header` leads to: the update is
-- stored and the answer is 1 exactly where its header or, if there are bytes behind its data, one of the
-- table's signatures names the processor and the update is newer; a match without room for its copy is
-- -12 and stores nothing; no match is 0 and stores nothing.
pub get_matching-IsMatched :
    (room : Bool) (ext_header : ExtendedSigtable) (mc : Update) (uci : UcodeCpuInfo)
    → IsMatched room ext_header mc uci (get_matching_microcode room ext_header mc uci)
unfolding get_matching_microcode
get_matching-IsMatched room ext_header mc uci =
    let needed = data_size_of mc.hdr + 52 in
    elim (Bool-cases (microcode_update_match uci mc.hdr mc.hdr.sig mc.hdr.pf)) [
      | inl e ↦
          rw e
            (found_IsMatched room ext_header mc uci (by_header ((update-IsMatch_iff _ _ _ _).0 e)))
      | inr e ↦ rw e (elim (Bool-cases (leb (total_size_of mc.hdr) needed)) [
        | inl short ↦ rw short (
            none_IsMatched room ext_header mc uci
              (header_missed uci ext_header mc.hdr e (λ lt. absurd (ground arith))))
        | inr long ↦
            rw long
              (elim (Bool-cases (matches_entry uci mc.hdr ext_header.entries ext_header.count 0)) [
                | inl f ↦
                    let found =
                      matches_entry_sound uci mc.hdr ext_header.entries ext_header.count 0 f in
                    rw f (
                      found_IsMatched room ext_header mc uci
                        (by_entry found.0 (ground arith) (omega arith) found.2))
                | inr f ↦ rw f (
                    none_IsMatched room ext_header mc uci
                      (header_missed uci ext_header mc.hdr e (λ lt. f)))
              ])
      ])
    ]

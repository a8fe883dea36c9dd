-- ===== src/Microcode/Fits.antt =====
-- microcode_fits accepts exactly the newer patches of fitting size for the processor's equivalent id.
use formal_verification_of_x.Prelude.{
  ℕ, zero, suc, ◌+◌, ◌%◌, ◌^◌, ◌≡◌, ◌≢◌, ◌≤◌, ◌<◌, ◌↔◌, refl, sym, subst, ap, ◌∙◌, arith, ◌==◌,
  ◌!=◌, leb, inl, inr, Bool, true, false, Option, none, some, Bool-cases, ==_iff,
}
use mathlib.Core.Option.{some-injective}
use native.Mathlib.Decide.{dec_lt}
use formal_verification_of_x.Microcode.{
  EquivCpuEntry, MicrocodeHeader, MicrocodeAmd, CpuInfo, max_size, verify_patch_size, find_loop,
  find_equiv_cpu_id, fits_header, fits_id, microcode_fits,
}

not_equal : (a b : ℕ) → (a == b) ≡ false → a ≢ b
not_equal a b h e = ground arith

-- The table has `n` entries and then the one that ends it.
pub record IsTable (table : ℕ → EquivCpuEntry) (n : ℕ) : Type 0 where
  pub entries : (i : ℕ) → i < n → (table i).installed_cpu ≢ 0
  pub terminator : (table n).installed_cpu ≡ 0

-- What the search of the entries from `i` on finds: the first one for the processor, or none.
abbrev pub IsFound : (ℕ → EquivCpuEntry) → ℕ → ℕ → ℕ → Option ℕ → Type 0
IsFound table n current i none = (j : ℕ) → i ≤ j → j < n → (table j).installed_cpu ≢ current
IsFound table n current i (some id) =
    (k : ℕ) × (i ≤ k)
    × (k < n)
    × ((table k).installed_cpu ≡ current)
    × (id ≡ (table k).equiv_cpu % 2 ^ 16)
    × ((j : ℕ) → i ≤ j → j < k → (table j).installed_cpu ≢ current)

IsFound-next :
    (table : ℕ → EquivCpuEntry) (n current i : ℕ) (r : Option ℕ)
    → (table i).installed_cpu ≢ current
    → IsFound table n current (i + 1) r
    → IsFound table n current i r
IsFound-next table n current i none ne h = λ j le lt. elim (dec_lt i j) [
  | yes later ↦ h j (omega arith) lt
  | no here ↦ let e : j ≡ i = omega arith in rw e ne
]
IsFound-next table n current i (some id) ne (k, le, lt, e, same, first) = (
  k,
  omega arith,
  lt,
  e,
  same,
  λ j from to. elim (dec_lt i j) [
    | yes later ↦ first j (omega arith) to
    | no here ↦ let q : j ≡ i = omega arith in rw q ne
  ],
)

at_end :
    (table : ℕ → EquivCpuEntry) (n i : ℕ)
    → IsTable table n
    → i ≤ n
    → ((table i).installed_cpu == 0) ≡ true
    → i ≡ n
at_end table n i h le end = elim (dec_lt i n) [
  | yes lt ↦ absurd (h.entries i lt ((==_iff _ _).0 end))
  | no past ↦ omega arith
]

before_end :
    (table : ℕ → EquivCpuEntry) (n i : ℕ)
    → IsTable table n
    → i ≤ n
    → ((table i).installed_cpu == 0) ≡ false
    → i < n
before_end table n i h le entry = elim (dec_lt i n) [
  | yes lt ↦ lt
  | no past ↦
      let e : i ≡ n = omega arith in
      absurd (not_equal _ 0 entry (subst (λ k. (table k).installed_cpu ≡ 0) (sym e) h.terminator))
]

find_loop-IsFound :
    (fuel : ℕ) (table : ℕ → EquivCpuEntry) (n current i : ℕ)
    → IsTable table n
    → n < 2 ^ 32
    → i ≤ n
    → n < i + fuel
    → (r : Option ℕ) × (find_loop fuel table current i ≡ some r) × IsFound table n current i r
unfolding find_loop
find_loop-IsFound zero table n current i h small le enough = absurd (omega arith)
find_loop-IsFound (suc fuel) table n current i h small le enough =
    elim (Bool-cases ((table i).installed_cpu == 0)) [
      | inl end ↦
          let over : i ≡ n = at_end table n i h le end in
          rw end (none, refl, λ j from to. absurd (omega arith))
      | inr entry ↦ elim (Bool-cases (current == (table i).installed_cpu)) [
        | inl hit ↦
            let same : current ≡ (table i).installed_cpu = (==_iff _ _).0 hit in
            rw (entry, hit)
              (
                some ((table i).equiv_cpu % 2 ^ 16),
                refl,
                (
                  i,
                  omega arith,
                  before_end table n i h le entry,
                  sym same,
                  refl,
                  λ j from to. absurd (omega arith),
                ),
              )
        | inr miss ↦
            let lt : i < n = before_end table n i h le entry in
            let whole : (i + 1) % 2 ^ 32 ≡ i + 1 = omega arith in
            let ne : (table i).installed_cpu ≢ current = λ q. not_equal current _ miss (sym q) in
            let (r, e, found) =
              find_loop-IsFound fuel table n current (i + 1) h small (omega arith) (omega arith) in
            rw (entry, miss, whole) (r, e, IsFound-next table n current i r ne found)
      ]
    ]

-- What a patch that fits is: the first entry for the processor has the patch's id, the patch is no larger
-- than the family allows, and it is newer than what runs.
abbrev pub IsFit : CpuInfo → MicrocodeHeader → ℕ → (ℕ → EquivCpuEntry) → ℕ → ℕ → ℕ → Type 0
IsFit boot mpb mpb_size table n current rev =
    IsFound table n current 0 (some mpb.processor_rev_id)
    × (mpb_size ≤ max_size boot.x86)
    × (rev < mpb.patch_id)

IsFound-unique :
    (table : ℕ → EquivCpuEntry) (n current i id : ℕ) (r : Option ℕ)
    → IsFound table n current i (some id)
    → IsFound table n current i r
    → r ≡ some id
IsFound-unique table n current i id none (k, le, lt, e, same, first) none_there =
    absurd (none_there k le lt e)
IsFound-unique table n current i id (some id') (k, le, lt, e, same, first)
      (k', le', lt', e', same', first') =
    elim (dec_lt k k') [
      | yes below ↦ absurd (first' k le below e)
      | no not_below ↦ elim (dec_lt k' k) [
        | yes above ↦ absurd (first k' le' above e')
        | no not_above ↦
            let q : k' ≡ k = omega arith in
            ap some (same' ∙ ap (λ (j : ℕ). (table j).equiv_cpu % 2 ^ 16) q ∙ sym same)
      ]
    ]

fits_header-IsFit :
    (boot : CpuInfo) (mpb : MicrocodeHeader) (mpb_size : ℕ) (table : ℕ → EquivCpuEntry)
    (n current rev id : ℕ)
    → IsFound table n current 0 (some id)
    → (b : Bool) × (fits_header boot (some mpb) mpb_size rev id ≡ some b)
      × ((b ≡ true) ↔ IsFit boot mpb mpb_size table n current rev)
unfolding verify_patch_size
fits_header-IsFit boot mpb mpb_size table n current rev id found =
    elim (Bool-cases (mpb.processor_rev_id != id)) [
      | inl other ↦ rw other (
        false,
        refl,
        (
          (λ h. absurd (cc h)),
          λ fit.
              let q : id ≡ mpb.processor_rev_id =
                some-injective _ _ (IsFound-unique table n current 0 _ (some id) fit.0 found) in
              absurd (ground arith),
        ),
      )
      | inr agrees ↦
          let q : mpb.processor_rev_id ≡ id = ground arith in
          elim (Bool-cases (leb mpb_size (max_size boot.x86))) [
            | inr large ↦
                rw (agrees, large)
                  (false, refl, ((λ h. absurd (cc h)), λ fit. absurd (ground (arith, fit.1))))
            | inl fitting ↦ elim (Bool-cases (leb mpb.patch_id rev)) [
              | inl old ↦
                  rw (agrees, fitting, old)
                    (false, refl, ((λ h. absurd (cc h)), λ fit. absurd (ground (arith, fit.2))))
              | inr newer ↦
                  rw (agrees, fitting, newer)
                    (
                      true,
                      refl,
                      (
                        (λ h. (
                          subst (λ (x : ℕ). IsFound table n current 0 (some x)) (sym q) found,
                          ground arith,
                          ground arith,
                        )),
                        λ fit. refl,
                      ),
                    )
            ]
          ]
    ]

fits_id-IsFit :
    (boot : CpuInfo) (mc : MicrocodeAmd) (mpb : MicrocodeHeader) (table : ℕ → EquivCpuEntry)
    (n current rev : ℕ) (r : Option ℕ)
    → mc.mpb ≡ some mpb
    → IsFound table n current 0 r
    → (b : Bool) × (fits_id boot mc rev (some r) ≡ some b)
      × ((b ≡ true) ↔ IsFit boot mpb mc.mpb_size table n current rev)
fits_id-IsFit boot mc mpb table n current rev none has found = (
  false,
  refl,
  ((λ h. absurd (cc h)), λ fit. absurd (cc (IsFound-unique table n current 0 _ none fit.0 found))),
)
fits_id-IsFit boot mc mpb table n current rev (some id) has found =
    let (b, e, iff) = fits_header-IsFit boot mpb mc.mpb_size table n current rev id found in
    (b, ap (λ o. fits_header boot o mc.mpb_size rev id) has ∙ e, iff)

-- For a patch in place, a table with `n` entries, and fuel above that, microcode_fits returns, and it
-- returns 1 exactly when the first entry for the processor has the patch's id in its low 16 bits,
-- the patch is no larger than its family allows, and its number is above the revision that runs.
pub microcode_fits-IsFit :
    (fuel : ℕ) (boot : CpuInfo) (mc : MicrocodeAmd) (mpb : MicrocodeHeader)
    (table : ℕ → EquivCpuEntry) (n current rev : ℕ)
    → mc.equiv_cpu_table ≡ some table
    → mc.mpb ≡ some mpb
    → IsTable table n
    → n < 2 ^ 32
    → n < fuel
    → (b : Bool) × (microcode_fits fuel boot mc current rev ≡ some b)
      × ((b ≡ true) ↔ IsFit boot mpb mc.mpb_size table n current rev)
unfolding microcode_fits find_equiv_cpu_id
microcode_fits-IsFit fuel boot mc mpb table n current rev there has h small enough =
    let (r, e, found) =
      find_loop-IsFound fuel table n current 0 h small (omega arith) (omega arith) in
    let (b, returned, iff) = fits_id-IsFit boot mc mpb table n current rev r has found in
    let search = ap (λ o. find_equiv_cpu_id fuel o current) there ∙ e in
    (b, ap (fits_id boot mc rev) search ∙ returned, iff)

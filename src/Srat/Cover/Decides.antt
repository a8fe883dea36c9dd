-- ===== src/Srat/Cover/Decides.antt =====
-- nodes_cover_memory ends, and decides whether the nodes have every RAM address.
use formal_verification_of_x.Prelude.{
  ℕ, zero, suc, ◌+◌, ◌-◌, ◌<◌, ◌≤◌, ◌≡◌, ◌⊎◌, inl, inr, refl, subst, arith, true, false, Option,
  some, Bool-cases, ◌&&◌, ltb,
}
use native.Mathlib.Decide.{dec_lt}
use formal_verification_of_x.Srat.Tables.{max_numnodes, Node}
use formal_verification_of_x.Srat.Memblks.Cutoff.{IsIn}
use formal_verification_of_x.Srat.Cover.{
  Gap, shrink, map_size, Region, whole, gap_fuel, regions_covered, nodes_cover_memory,
}
use formal_verification_of_x.Srat.Cover.Shrink.{
  InGap, IsCovered, Shrunk, cuts, cut_all-cuts, cuts_shrinks, cuts_lost, cuts-found, cuts-not_found,
}

abbrev fresh : Gap → Gap
fresh g = record g { found = false }

-- One pass over the nodes.
abbrev pass : (ℕ → Node) → ℕ → Gap → Gap
pass nodes parsed g = cuts parsed nodes 0 (fresh g)

pass-Shrunk_end :
    (nodes : ℕ → Node) (parsed : ℕ) (g : Gap)
    → ((pass nodes parsed g).found && ltb (pass nodes parsed g).start (pass nodes parsed g).end)
      ≡ false
    → Shrunk nodes parsed g (pass nodes parsed g)
pass-Shrunk_end nodes parsed g stop = record {
  within = cuts_shrinks parsed nodes 0 (fresh g);
  lost = λ x h. cuts_lost parsed nodes 0 parsed (fresh g) x (omega arith) h;
  open_start = λ lt c. closed lt c;
}
  where
    closed :
        (pass nodes parsed g).start < (pass nodes parsed g).end
        → IsCovered nodes parsed (pass nodes parsed g).start
        → ⊥
    closed lt (j, lj, i) =
        let none_found : (pass nodes parsed g).found ≡ false = ground arith in
        let (same, missed) = cuts-not_found parsed nodes 0 (fresh g) none_found in
        missed (ground arith) j (omega arith) (omega arith)
          (subst (λ (h : Gap). IsIn h.start (nodes j)) same i)

Shrunk-pass :
    (nodes : ℕ → Node) (parsed : ℕ) (g g' : Gap)
    → Shrunk nodes parsed (pass nodes parsed g) g'
    → Shrunk nodes parsed g g'
Shrunk-pass nodes parsed g g' s =
    let (lower, upper) = cuts_shrinks parsed nodes 0 (fresh g) in
    record {
      within = (omega (arith, s.within), omega (arith, s.within));
      lost = λ x h. both x (cuts_lost parsed nodes 0 parsed (fresh g) x (omega arith) h);
      open_start = s.open_start;
    }
  where
    both :
        (x : ℕ)
        → InGap x (pass nodes parsed g) ⊎ IsCovered nodes parsed x
        → InGap x g' ⊎ IsCovered nodes parsed x
    both x (inl left) = s.lost x left
    both x (inr c) = inr c

shrink-Shrunk :
    (fuel : ℕ) (nodes : ℕ → Node) (parsed : ℕ) (g : Gap)
    → g.end - g.start < fuel
    → parsed ≤ max_numnodes
    → (g' : Gap) × (shrink fuel nodes parsed g ≡ some g') × Shrunk nodes parsed g g'
unfolding shrink
shrink-Shrunk zero nodes parsed g lt le = absurd (omega arith)
shrink-Shrunk (suc fuel) nodes parsed g lt le =
    let one = cut_all-cuts parsed nodes 0 (fresh g) (omega arith) in
    elim (Bool-cases
      ((pass nodes parsed g).found && ltb (pass nodes parsed g).start (pass nodes parsed g).end)) [
        | inr stop ↦ (pass nodes parsed g, rw (one, stop) refl, pass-Shrunk_end nodes parsed g stop)
        | inl go ↦
            let (g', e, s) =
              shrink-Shrunk fuel nodes parsed (pass nodes parsed g)
                (ground (
                  arith,
                  cuts-found parsed nodes 0 (fresh g),
                  cuts_shrinks parsed nodes 0 (fresh g),
                ))
                le in
            (g', rw (one, go) e, Shrunk-pass nodes parsed g g' s)
      ]

-- Every RAM address of the entries from `i` on, `rounds` of them, is in a node.
abbrev pub AllCovered : ℕ → (ℕ → Region) → (ℕ → Node) → ℕ → ℕ → Type 0
AllCovered rounds map nodes parsed i =
    (k : ℕ)
    → i ≤ k
    → k < i + rounds
    → (map k).is_ram ≡ true
    → (x : ℕ) → InGap x (whole (map k))
    → IsCovered nodes parsed x

-- Some RAM address of one of those entries is in no node.
abbrev pub SomeOpen : ℕ → (ℕ → Region) → (ℕ → Node) → ℕ → ℕ → Type 0
SomeOpen rounds map nodes parsed i =
    (k : ℕ) × (i ≤ k)
    × (k < i + rounds)
    × ((map k).is_ram ≡ true)
    × ((x : ℕ) × InGap x (whole (map k)) × ¬ IsCovered nodes parsed x)

abbrev pub Decided : ℕ → (ℕ → Region) → (ℕ → Node) → ℕ → ℕ → Option ℕ → Type 0
Decided rounds map nodes parsed i r =
    ((r ≡ some 1) × AllCovered rounds map nodes parsed i)
    ⊎ ((r ≡ some 0) × SomeOpen rounds map nodes parsed i)

Decided-next :
    (rounds : ℕ) (map : ℕ → Region) (nodes : ℕ → Node) (parsed i : ℕ) (r : Option ℕ)
    → ((map i).is_ram ≡ true → (x : ℕ) → InGap x (whole (map i)) → IsCovered nodes parsed x)
    → Decided rounds map nodes parsed (i + 1) r
    → Decided (suc rounds) map nodes parsed i r
Decided-next rounds map nodes parsed i r here (inl (e, all)) = inl (
  e,
  λ k le lt ram. elim (dec_lt i k) [
    | yes more ↦ all k (omega arith) (omega arith) ram
    | no same ↦
        let s : i ≡ k = omega arith in
        subst
          (λ (k : ℕ).
            (map k).is_ram ≡ true → (x : ℕ) → InGap x (whole (map k)) → IsCovered nodes parsed x)
          s here ram
  ],
)
Decided-next rounds map nodes parsed i r here (inr (e, (k, le, lt, ram, x))) =
    inr (e, (k, omega arith, omega arith, ram, x))

regions_covered-Decided :
    (rounds : ℕ) (map : ℕ → Region) (nodes : ℕ → Node) (parsed i : ℕ)
    → i + rounds ≤ map_size
    → parsed ≤ max_numnodes
    → Decided rounds map nodes parsed i (regions_covered rounds map nodes parsed i)
unfolding regions_covered
regions_covered-Decided zero map nodes parsed i fits le =
    inl (refl, λ k le lt. absurd (omega arith))
regions_covered-Decided (suc rounds) map nodes parsed i fits le =
    let inside : ltb i map_size ≡ true = ground arith in
    elim (Bool-cases (map i).is_ram) [
      | inr other ↦
          rw (inside, other)
            (Decided-next rounds map nodes parsed i _ (λ ram. absurd (cc))
              (regions_covered-Decided rounds map nodes parsed (i + 1) (omega arith) le))
      | inl ram ↦
          let (g', e, s) =
            shrink-Shrunk (gap_fuel (whole (map i))) nodes parsed (whole (map i)) (omega arith)
              le in
          elim (Bool-cases (ltb g'.start g'.end)) [
            | inl left ↦
                rw (inside, ram, e, left)
                  (inr (
                    refl,
                    (
                      i,
                      omega arith,
                      omega arith,
                      ram,
                      (
                        g'.start,
                        (s.within.0, ground (arith, s.within)),
                        s.open_start (ground arith),
                      ),
                    ),
                  ))
            | inr closed ↦
                rw (inside, ram, e, closed)
                  (Decided-next rounds map nodes parsed i _ (λ r x h. gone g' closed x (s.lost x h))
                    (regions_covered-Decided rounds map nodes parsed (i + 1) (omega arith) le))
          ]
    ]
  where
    gone :
        (g' : Gap)
        → ltb g'.start g'.end ≡ false
        → (x : ℕ) → InGap x g' ⊎ IsCovered nodes parsed x
        → IsCovered nodes parsed x
    gone g' closed x (inl left) = absurd (ground arith)
    gone g' closed x (inr c) = c

-- With no more entries than the map has room for and no more nodes parsed than the table has, nodes_cover_memory
-- returns: 1 when every RAM address of the map is in one of the first parsed nodes, and 0 when some RAM
-- address is in none of them.
pub nodes_cover_memory-Decided :
    (nr_map : ℕ) (map : ℕ → Region) (nodes : ℕ → Node) (parsed : ℕ)
    → nr_map ≤ map_size
    → parsed ≤ max_numnodes
    → Decided nr_map map nodes parsed 0 (nodes_cover_memory nr_map map nodes parsed)
unfolding nodes_cover_memory
nodes_cover_memory-Decided nr_map map nodes parsed fits le =
    regions_covered-Decided nr_map map nodes parsed 0 (omega arith) le

-- ===== src/Srat/Cover/Shrink.antt =====
-- What the do-while loop of nodes_cover_memory does to the gap that it looks at.
use formal_verification_of_x.Prelude.{
  ℕ, zero, suc, ◌+◌, ◌<◌, ◌≤◌, ◌≡◌, ◌⊎◌, inl, inr, refl, ◌∙◌, arith, true, false, ltb, some,
}
use native.Mathlib.Decide.{dec_lt}
use formal_verification_of_x.Srat.Tables.{max_numnodes, Node}
use formal_verification_of_x.Srat.Memblks.Cutoff.{IsIn}
use formal_verification_of_x.Srat.Cover.{Gap, cut, cut_all}

abbrev pub InGap : ℕ → Gap → Type 0
InGap x g = (g.start ≤ x) × (x < g.end)

-- One of the first `parsed` nodes has the address.
abbrev pub IsCovered : (ℕ → Node) → ℕ → ℕ → Type 0
IsCovered nodes parsed x = (j : ℕ) × (j < parsed) × IsIn x (nodes j)

cut_shrinks : (g : Gap) (nd : Node) → (g.start ≤ (cut g nd).start) × ((cut g nd).end ≤ g.end)
unfolding cut
cut_shrinks g nd = (ground arith, ground arith)

cut_lost : (g : Gap) (nd : Node) (x : ℕ) → InGap x g → InGap x (cut g nd) ⊎ IsIn x nd
unfolding cut
cut_lost g nd x h = ground arith

cut-found :
    (g : Gap) (nd : Node)
    → (cut g nd).found ≡ true
    → (g.found ≡ true) ⊎ ((g.start < (cut g nd).start) ⊎ ((cut g nd).end < g.end))
unfolding cut
cut-found g nd h = ground arith

cut-not_found :
    (g : Gap) (nd : Node)
    → (cut g nd).found ≡ false
    → (cut g nd ≡ g) × (g.start < g.end → IsIn g.start nd → ⊥)
unfolding cut
cut-not_found g nd h = (ground arith, λ lt i. ground arith)

-- The loop over the nodes, away from the end of the table.
abbrev pub cuts : ℕ → (ℕ → Node) → ℕ → Gap → Gap
cuts zero nodes j g = g
cuts (suc rounds) nodes j g = cuts rounds nodes (j + 1) (cut g (nodes j))

pub cut_all-cuts :
    (rounds : ℕ) (nodes : ℕ → Node) (j : ℕ) (g : Gap)
    → j + rounds ≤ max_numnodes
    → cut_all rounds nodes j g ≡ some (cuts rounds nodes j g)
unfolding cut_all
cut_all-cuts zero nodes j g le = refl
cut_all-cuts (suc rounds) nodes j g le =
    let inside : ltb j max_numnodes ≡ true = ground arith in
    rw inside (cut_all-cuts rounds nodes (j + 1) (cut g (nodes j)) (omega arith))

pub cuts_shrinks :
    (rounds : ℕ) (nodes : ℕ → Node) (j : ℕ) (g : Gap)
    → (g.start ≤ (cuts rounds nodes j g).start) × ((cuts rounds nodes j g).end ≤ g.end)
cuts_shrinks zero nodes j g = (omega arith, omega arith)
cuts_shrinks (suc rounds) nodes j g =
    let one = cut_shrinks g (nodes j) in
    let rest = cuts_shrinks rounds nodes (j + 1) (cut g (nodes j)) in (omega arith, omega arith)

pub cuts_lost :
    (rounds : ℕ) (nodes : ℕ → Node) (j parsed : ℕ) (g : Gap) (x : ℕ)
    → j + rounds ≤ parsed
    → InGap x g
    → InGap x (cuts rounds nodes j g) ⊎ IsCovered nodes parsed x
cuts_lost zero nodes j parsed g x le h = inl h
cuts_lost (suc rounds) nodes j parsed g x le h =
    step (cut_lost g (nodes j) x h)
      (cuts_lost rounds nodes (j + 1) parsed (cut g (nodes j)) x (omega arith))
  where
    step :
        InGap x (cut g (nodes j)) ⊎ IsIn x (nodes j)
        → (InGap x (cut g (nodes j))
            → InGap x (cuts rounds nodes (j + 1) (cut g (nodes j))) ⊎ IsCovered nodes parsed x)
        → InGap x (cuts rounds nodes (j + 1) (cut g (nodes j))) ⊎ IsCovered nodes parsed x
    step (inl left) ih = ih left
    step (inr hit) ih = inr (j, omega arith, hit)

pub cuts-found :
    (rounds : ℕ) (nodes : ℕ → Node) (j : ℕ) (g : Gap)
    → (cuts rounds nodes j g).found ≡ true
    → (g.found ≡ true)
      ⊎ ((g.start < (cuts rounds nodes j g).start) ⊎ ((cuts rounds nodes j g).end < g.end))
cuts-found zero nodes j g h = inl h
cuts-found (suc rounds) nodes j g h = ground (
  arith,
  cut-found g (nodes j),
  cut_shrinks g (nodes j),
  cuts_shrinks rounds nodes (j + 1) (cut g (nodes j)),
  cuts-found rounds nodes (j + 1) (cut g (nodes j)) h,
)

pub cuts-not_found :
    (rounds : ℕ) (nodes : ℕ → Node) (j : ℕ) (g : Gap)
    → (cuts rounds nodes j g).found ≡ false
    → (cuts rounds nodes j g ≡ g)
      × (g.start < g.end → (k : ℕ) → j ≤ k → k < j + rounds → IsIn g.start (nodes k) → ⊥)
cuts-not_found zero nodes j g h = (refl, λ lt k le off. absurd (omega arith))
cuts-not_found (suc rounds) nodes j g h =
    let (rest, missed) = cuts-not_found rounds nodes (j + 1) (cut g (nodes j)) h in
    let (same, miss) = cut-not_found g (nodes j) (ground arith) in
    (
      rest ∙ same,
      λ lt k le off. elim (dec_lt j k) [
        | yes more ↦ λ i. missed (ground arith) k (omega arith) (omega arith) (rw same i)
        | no here ↦ let e : k ≡ j = omega arith in rw e (miss lt)
      ],
    )

-- What the gap behind the loop tells of the gap `g` before it.
pub record Shrunk (nodes : ℕ → Node) (parsed : ℕ) (g g' : Gap) : Type 0 where
  pub within : (g.start ≤ g'.start) × (g'.end ≤ g.end)
  pub lost : (x : ℕ) → InGap x g → InGap x g' ⊎ IsCovered nodes parsed x
  pub open_start : g'.start < g'.end → IsCovered nodes parsed g'.start → ⊥

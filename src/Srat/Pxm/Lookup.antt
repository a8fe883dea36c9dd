-- ===== src/Srat/Pxm/Lookup.antt =====
-- pxm_to_node finds an entry of the domain if there is one, and runs off the table if there is none.
use formal_verification_of_x.Prelude.{
  ℕ, zero, suc, ◌+◌, ◌<◌, ◌≤◌, ◌≡◌, ◌⊎◌, inl, inr, refl, arith, true, false, Option, none, some,
  Bool-cases, ltb,
}
use native.Mathlib.Decide.{dec_lt}
use formal_verification_of_x.Srat.Tables.{max_numnodes, sizeof_pxm2node, PxmTable}
use formal_verification_of_x.Srat.Pxm.{node_found, pxm_to_node_loop, pxm_to_node}

-- Entry `j` of the table is the answer `n`.
abbrev pub IsNodeAt : PxmTable → ℕ → ℕ → ℕ → Type 0
IsNodeAt t pxm n j =
    (j < max_numnodes) × (node_found (t.entry j) pxm ≡ true) × (n ≡ (t.entry j).node)

-- What an answer of the loop from index `i` on tells.
abbrev FoundFrom : PxmTable → ℕ → ℕ → Option ℕ → Type 0
FoundFrom t pxm i (some n) = (j : ℕ) × IsNodeAt t pxm n j
FoundFrom t pxm i none = (j : ℕ) → i ≤ j → j < max_numnodes → node_found (t.entry j) pxm ≡ false

FoundFrom-next :
    (t : PxmTable) (pxm i : ℕ) (r : Option ℕ)
    → node_found (t.entry i) pxm ≡ false
    → FoundFrom t pxm (i + 1) r
    → FoundFrom t pxm i r
FoundFrom-next t pxm i (some n) miss h = h
FoundFrom-next t pxm i none miss h =
    λ j le lt. elim (dec_lt i j) [ yes more ↦ h j (omega arith) lt | no same ↦ ground arith ]

pxm_to_node_loop-FoundFrom :
    (rounds : ℕ) (t : PxmTable) (i pxm : ℕ)
    → i ≤ max_numnodes
    → max_numnodes < i + rounds
    → FoundFrom t pxm i (pxm_to_node_loop rounds t i pxm)
unfolding pxm_to_node_loop
pxm_to_node_loop-FoundFrom zero t i pxm le off = absurd (omega arith)
pxm_to_node_loop-FoundFrom (suc rounds) t i pxm le off = elim (Bool-cases (ltb i max_numnodes)) [
  | inr past ↦ rw past (λ j ge lt. absurd (ground arith))
  | inl inside ↦ elim (Bool-cases (node_found (t.entry i) pxm)) [
    | inl hit ↦ rw (inside, hit) (i, (ground arith, hit, refl))
    | inr miss ↦
        rw (inside, miss)
          (FoundFrom-next t pxm i _ miss
            (pxm_to_node_loop-FoundFrom rounds t (i + 1) pxm (ground arith) (omega arith)))
  ]
]

-- What an answer of pxm_to_node tells: a node comes from an entry of the domain; a fault from a
-- domain that indexes past the table, or from a table with no entry of the domain.
abbrev pub IsLookup : PxmTable → ℕ → Option ℕ → Type 0
IsLookup t pxm (some n) = (j : ℕ) × IsNodeAt t pxm n j
IsLookup t pxm none =
    ((max_numnodes ≤ pxm) × (pxm < sizeof_pxm2node))
    ⊎ ((j : ℕ) → j < max_numnodes → node_found (t.entry j) pxm ≡ false)

FoundFrom-IsLookup :
    (t : PxmTable) (pxm : ℕ) (r : Option ℕ) → FoundFrom t pxm 0 r → IsLookup t pxm r
FoundFrom-IsLookup t pxm (some n) h = h
FoundFrom-IsLookup t pxm none h = inr (λ j lt. h j (omega arith) lt)

-- pxm_to_node answers with the node of an entry for the domain, or it reads past the table: that is
-- so for a domain from 1000 to 7999, and for a domain that no entry of the table is for. It never
-- answers 0 for an unknown domain.
pub pxm_to_node-IsLookup : (t : PxmTable) (pxm : ℕ) → IsLookup t pxm (pxm_to_node t pxm)
unfolding pxm_to_node
pxm_to_node-IsLookup t pxm = elim (Bool-cases (ltb pxm sizeof_pxm2node)) [
  | inr large ↦ rw large searched
  | inl small ↦ elim (Bool-cases (ltb pxm max_numnodes)) [
    | inr past ↦ rw (small, past) (inl (ground arith, ground arith))
    | inl inside ↦ elim (Bool-cases (node_found (t.entry pxm) pxm)) [
      | inl hit ↦ rw (small, inside, hit) (pxm, (ground arith, hit, refl))
      | inr miss ↦ rw (small, inside, miss) searched
    ]
  ]
]
  where
    searched : IsLookup t pxm (pxm_to_node_loop sizeof_pxm2node t 0 pxm)
    searched =
        FoundFrom-IsLookup t pxm _
          (pxm_to_node_loop-FoundFrom sizeof_pxm2node t 0 pxm (omega arith) (omega arith))

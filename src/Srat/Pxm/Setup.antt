-- ===== src/Srat/Pxm/Setup.antt =====
-- Every way setup_node can end, and what pxm_to_node answers behind it.
use formal_verification_of_x.Prelude.{
  ℕ, zero, suc, ◌+◌, ◌%◌, ◌^◌, ◌<◌, ◌≤◌, ◌≡◌, ◌≢◌, inl, inr, refl, arith, some, Bool-cases, ltb,
  leb, ◌==◌,
}
use formal_verification_of_x.Srat.Tables.{
  max_numnodes, numa_no_node, sizeof_pxm2node, PxmTable, update, entry_at,
}
use formal_verification_of_x.Srat.Pxm.{
  node_found, Slot, fault, full, finish, free_slot, setup_finish, setup_at, setup_node,
}

-- The ways setup_node ends with a result.
pub data Setup (t : PxmTable) (pxm : ℕ) (node : ℕ) (t' : PxmTable) : Type 0 where
  -- the entry at the domain's own index is for the domain: nothing changes
  own :
      pxm < max_numnodes
      → (t.entry pxm).pxm ≡ pxm
      → (t.entry pxm).node ≢ 0
      → node ≡ (t.entry pxm).node
      → t' ≡ t
      → Setup t pxm node t'
  -- a thousand nodes are given out: only the counter moves
  exhausted :
      max_numnodes ≤ t.nodes_found
      → node ≡ numa_no_node
      → t' ≡ record t { nodes_found = (t.nodes_found + 1) % 2 ^ 32 }
      → Setup t pxm node t'
  -- the next node goes to a slot with no node, the own one if that is free
  placed :
      (idx : ℕ)
      → idx < max_numnodes
      → (t.entry idx).node ≡ 0
      → t.nodes_found < max_numnodes
      → (pxm < max_numnodes → (t.entry pxm).node ≡ 0 → idx ≡ pxm)
      → node ≡ t.nodes_found
      → t' ≡ record t {
        nodes_found = (t.nodes_found + 1) % 2 ^ 32;
        entry = update t.entry idx (record { pxm = pxm; node = t.nodes_found });
      }
      → Setup t pxm node t'

-- The search for a free slot ends at one, or runs off the table.
abbrev IsSlot : PxmTable → Slot → Type 0
IsSlot t fault = Unit
IsSlot t full = ⊥
IsSlot t (finish idx) = (idx < max_numnodes) × ((t.entry idx).node ≡ 0)

free_slot-IsSlot :
    (rounds : ℕ) (t : PxmTable) (idx : ℕ)
    → idx ≤ max_numnodes
    → max_numnodes < idx + rounds
    → IsSlot t (free_slot rounds t idx)
unfolding free_slot
free_slot-IsSlot zero t idx le off = absurd (omega arith)
free_slot-IsSlot (suc rounds) t idx le off = elim (Bool-cases (ltb idx max_numnodes)) [
  | inr past ↦ rw past tt
  | inl inside ↦ elim (Bool-cases ((t.entry idx).node == 0)) [
    | inl hit ↦ rw (inside, hit) (ground arith, ground arith)
    | inr miss ↦
        rw (inside, miss) (free_slot-IsSlot rounds t (idx + 1) (ground arith) (omega arith))
  ]
]

setup_finish-Setup :
    (t t' : PxmTable) (pxm node : ℕ) (slot : Slot)
    → IsSlot t slot
    → ((idx : ℕ) → slot ≡ finish idx → pxm < max_numnodes → (t.entry pxm).node ≡ 0 → idx ≡ pxm)
    → setup_finish t pxm slot ≡ some (node, t')
    → Setup t pxm node t'
unfolding setup_finish
setup_finish-Setup t t' pxm node fault s own_first h = absurd (cc)
setup_finish-Setup t t' pxm node full s own_first h = absurd s
setup_finish-Setup t t' pxm node (finish idx) (lt, free) own_first h =
    elim (Bool-cases (leb max_numnodes t.nodes_found)) [
      | inl none_left ↦ exhausted (ground arith) (ground arith) (ground arith)
      | inr some_left ↦
          placed idx lt free (ground arith) (own_first idx refl) (ground arith) (ground arith)
    ]

whole_search : (t : PxmTable) → IsSlot t (free_slot sizeof_pxm2node t 0)
whole_search t = free_slot-IsSlot sizeof_pxm2node t 0 (omega arith) (omega arith)

setup_at-Setup :
    (t t' : PxmTable) (pxm node : ℕ)
    → setup_at t pxm (entry_at t pxm) ≡ some (node, t')
    → Setup t pxm node t'
unfolding setup_at
setup_at-Setup t t' pxm node h = elim (Bool-cases (ltb pxm max_numnodes)) [
  | inr past ↦ absurd (ground arith)
  | inl inside ↦ elim (Bool-cases (node_found (t.entry pxm) pxm)) [
    | inl hit ↦ own (ground arith) (ground arith) (ground arith) (ground arith) (ground arith)
    | inr miss ↦ elim (Bool-cases ((t.entry pxm).node == numa_no_node)) [
      | inl free ↦
          setup_finish-Setup t t' pxm node (finish pxm) (ground arith, ground arith)
            (λ idx e lt z. cc) (rw (inside, miss, free) at h)
      | inr taken ↦
          setup_finish-Setup t t' pxm node _ (whole_search t) (λ idx e lt z. absurd (ground arith))
            (rw (inside, miss, taken) at h)
    ]
  ]
]

-- Whenever setup_node returns, it is in one of three ways: the domain's own entry answers and nothing
-- changes; a thousand nodes are out, the answer is NUMA_NO_NODE and only the counter moves; or the
-- next node goes to one slot without a node, the domain's own one if that is free. It never warns.
pub setup_node-Setup :
    (t t' : PxmTable) (pxm node : ℕ) → setup_node t pxm ≡ some (node, t') → Setup t pxm node t'
unfolding setup_node
setup_node-Setup t t' pxm node h = elim (Bool-cases (ltb pxm sizeof_pxm2node)) [
  | inl small ↦ setup_at-Setup t t' pxm node (rw small at h)
  | inr large ↦
      setup_finish-Setup t t' pxm node _ (whole_search t) (λ idx e lt z. absurd (ground arith))
        (rw large at h)
]

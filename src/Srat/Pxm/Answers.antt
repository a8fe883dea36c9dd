-- ===== src/Srat/Pxm/Answers.antt =====
-- What setup_node gives a domain is what pxm_to_node and setup_node answer from then on.
use formal_verification_of_x.Prelude.{ℕ, ◌+◌, ◌%◌, ◌^◌, ◌<◌, ◌≡◌, ◌≢◌, ◌⊎◌, ap, ◌∙◌, arith, some}
use native.Mathlib.Decide.{ℕ_discrete}
use formal_verification_of_x.Srat.Tables.{max_numnodes, numa_no_node, PxmTable, update}
use formal_verification_of_x.Srat.Pxm.{pxm_to_node, setup_finish, setup_at, setup_node}

-- The table with the next node at `pxm`.
abbrev pub place : PxmTable → ℕ → PxmTable
place t pxm = record t {
  nodes_found = (t.nodes_found + 1) % 2 ^ 32;
  entry = update t.entry pxm (record { pxm = pxm; node = t.nodes_found });
}

pub setup_node-place :
    (t : PxmTable) (pxm : ℕ)
    → pxm < max_numnodes
    → t.nodes_found < max_numnodes
    → (t.entry pxm).node ≡ 0
    → setup_node t pxm ≡ some (t.nodes_found, place t pxm)
unfolding setup_node setup_at setup_finish
setup_node-place t pxm lt left free = ground arith

pub setup_node-own :
    (t : PxmTable) (pxm node : ℕ)
    → pxm < max_numnodes
    → t.entry pxm ≡ record { pxm = pxm; node = node }
    → node ≢ 0
    → setup_node t pxm ≡ some (node, t)
unfolding setup_node setup_at
setup_node-own t pxm node lt e used = ground arith

pub pxm_to_node-own :
    (t : PxmTable) (pxm node : ℕ)
    → pxm < max_numnodes
    → t.entry pxm ≡ record { pxm = pxm; node = node }
    → node ≢ 0
    → pxm_to_node t pxm ≡ some node
unfolding pxm_to_node
pxm_to_node-own t pxm node lt e used = ground arith

entry-place :
    (t : PxmTable) (pxm : ℕ) → (place t pxm).entry pxm ≡ record { pxm = pxm; node = t.nodes_found }
entry-place t pxm = ground arith

-- Where a domain's own entry is free or its own, and at least one node but not all are given out,
-- setup_node answers with a node other than NUMA_NO_NODE; pxm_to_node then answers with that node,
-- and a second setup_node too, without a change.
pub pxm_to_node-setup_node :
    (t : PxmTable) (pxm : ℕ)
    → pxm < max_numnodes
    → 0 < t.nodes_found
    → t.nodes_found < max_numnodes
    → ((t.entry pxm).node ≡ 0) ⊎ ((t.entry pxm).pxm ≡ pxm)
    → (node : ℕ) × ((t' : PxmTable) × (setup_node t pxm ≡ some (node, t'))
        × (node ≢ numa_no_node)
        × (pxm_to_node t' pxm ≡ some node)
        × (setup_node t' pxm ≡ some (node, t')))
pxm_to_node-setup_node t pxm lt some_out left h = elim (ℕ_discrete (t.entry pxm).node 0) [
  | yes free ↦ (
    t.nodes_found,
    (
      place t pxm,
      setup_node-place t pxm lt left free,
      omega arith,
      pxm_to_node-own (place t pxm) pxm t.nodes_found lt (entry-place t pxm) (omega arith),
      setup_node-own (place t pxm) pxm t.nodes_found lt (entry-place t pxm) (omega arith),
    ),
  )
  | no used ↦
      let e : t.entry pxm ≡ record { pxm = pxm; node = (t.entry pxm).node } = ground arith in
      (
        (t.entry pxm).node,
        (
          t,
          setup_node-own t pxm _ lt e used,
          used,
          pxm_to_node-own t pxm _ lt e used,
          setup_node-own t pxm _ lt e used,
        ),
      )
]

-- The first node given out is number 0, which is NUMA_NO_NODE: setup_node on a table with no node
-- given out answers NUMA_NO_NODE and leaves the domain's entry free; only a second call for the
-- domain gives it a node, number 1.
pub setup_node_first :
    (t : PxmTable) (pxm : ℕ)
    → pxm < max_numnodes
    → t.nodes_found ≡ 0
    → (t.entry pxm).node ≡ 0
    → (t' : PxmTable) × (setup_node t pxm ≡ some (numa_no_node, t'))
      × ((t'.entry pxm).node ≡ 0)
      × ((t'' : PxmTable) × (setup_node t' pxm ≡ some (1, t'')) × (pxm_to_node t'' pxm ≡ some 1))
setup_node_first t pxm lt none_out free =
    let t' : PxmTable = place t pxm in
    let one : t'.nodes_found ≡ 1 = omega arith in
    let still : (t'.entry pxm).node ≡ 0 = ground (arith, entry-place t pxm) in
    (
      t',
      setup_node-place t pxm lt (omega arith) free ∙ ap (λ (k : ℕ). some (k, t')) none_out,
      still,
      (
        place t' pxm,
        setup_node-place t' pxm lt (omega arith) still ∙ ap (λ (k : ℕ). some (k, place t' pxm)) one,
        pxm_to_node-own (place t' pxm) pxm 1 lt (placed one) (omega arith),
      ),
    )
  where
    placed :
        (place t pxm).nodes_found ≡ 1
        → (place (place t pxm) pxm).entry pxm ≡ record { pxm = pxm; node = 1 }
    placed one = ground (arith, entry-place (place t pxm) pxm)

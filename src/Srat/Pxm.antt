-- ===== src/Srat/Pxm.antt =====
-- The table of proximity domains: node_found, pxm_to_node, setup_node and node_to_pxm.
use formal_verification_of_x.Prelude.{
  ℕ, zero, suc, ◌+◌, ◌%◌, ◌^◌, Bool, true, ◌&&◌, ◌==◌, ◌!=◌, ltb, leb, if◌then◌else◌, Option, none,
  some,
}
use formal_verification_of_x.Srat.Tables.{
  max_numnodes, numa_no_node, sizeof_pxm2node, Entry, PxmTable, update, entry_at,
}
pub mod Lookup
pub mod Setup
pub mod Answers
pub mod Invariant
pub mod Distinct

-- `pxm2node[idx].pxm == pxm && pxm2node[idx].node != 0`, of the entry at `idx`.
abbrev pub node_found : Entry → ℕ → Bool
node_found e pxm = e.pxm == pxm && e.node != 0

abbrev pub node_if : Option Entry → ℕ → Option ℕ → Option ℕ
node_if none pxm rest = none
node_if (some e) pxm rest = if node_found e pxm then some e.node else rest

-- `for (i = 0; i < sizeof(pxm2node); i++) if (node_found(i, pxm)) return pxm2node[i].node;`
pub pxm_to_node_loop : ℕ → PxmTable → ℕ → ℕ → Option ℕ
pxm_to_node_loop zero t i pxm = some 0
pxm_to_node_loop (suc rounds) t i pxm =
    let rest = pxm_to_node_loop rounds t (i + 1) pxm in node_if (entry_at t i) pxm rest

pub pxm_to_node : PxmTable → ℕ → Option ℕ
pxm_to_node t pxm =
    let search = pxm_to_node_loop sizeof_pxm2node t 0 pxm in
    if ltb pxm sizeof_pxm2node then node_if (entry_at t pxm) pxm search else search

-- What the search for a slot of setup_node ends with: the label `finish`, or no slot.
pub data Slot : Type 0 where
  fault full : Slot
  finish : ℕ → Slot

abbrev pub slot_if : Option Entry → ℕ → Slot → Slot
slot_if none idx rest = fault
slot_if (some e) idx rest = if e.node == numa_no_node then finish idx else rest

-- `for (idx = 0; idx < sizeof(pxm2node); idx++) if (pxm2node[idx].node == NUMA_NO_NODE) goto finish;`
pub free_slot : ℕ → PxmTable → ℕ → Slot
free_slot zero t idx = full
free_slot (suc rounds) t idx =
    let rest = free_slot rounds t (idx + 1) in slot_if (entry_at t idx) idx rest

-- From `finish:` on; without a slot, the warning. The result is the node and the table.
unfoldable pub setup_finish : PxmTable → ℕ → Slot → Option (ℕ × PxmTable)
setup_finish t pxm fault = none
setup_finish t pxm full = some (numa_no_node, record t { warned = true })
setup_finish t pxm (finish idx) =
    let node = t.nodes_found in
    let t' = record t { nodes_found = (t.nodes_found + 1) % 2 ^ 32 } in
    if leb max_numnodes node
    then some (numa_no_node, t')
    else if ltb idx max_numnodes
    then some (node, record t' { entry = update t.entry idx (record { pxm = pxm; node = node }) })
    else none

-- The part of setup_node under `if (pxm < sizeof(pxm2node))`.
unfoldable pub setup_at : PxmTable → ℕ → Option Entry → Option (ℕ × PxmTable)
setup_at t pxm none = none
setup_at t pxm (some e) =
    if node_found e pxm
    then some (e.node, t)
    else if e.node == numa_no_node
    then setup_finish t pxm (finish pxm)
    else setup_finish t pxm (free_slot sizeof_pxm2node t 0)

unfoldable pub setup_node : PxmTable → ℕ → Option (ℕ × PxmTable)
setup_node t pxm =
    if ltb pxm sizeof_pxm2node
    then setup_at t pxm (entry_at t pxm)
    else setup_finish t pxm (free_slot sizeof_pxm2node t 0)

abbrev pub pxm_if : Option Entry → ℕ → Option ℕ → Option ℕ
pxm_if none n rest = none
pxm_if (some e) n rest = if e.node == n then some e.pxm else rest

-- `for (i = 0; i < sizeof(pxm2node); i++) if (pxm2node[i].node == n) return pxm2node[i].pxm;`
pub node_to_pxm_loop : ℕ → PxmTable → ℕ → ℕ → Option ℕ
node_to_pxm_loop zero t i n = some 0
node_to_pxm_loop (suc rounds) t i n =
    let rest = node_to_pxm_loop rounds t (i + 1) n in pxm_if (entry_at t i) n rest

-- `n` is an int that is not negative: a negative one is converted to an index past the table.
pub node_to_pxm : PxmTable → ℕ → Option ℕ
node_to_pxm t n =
    let search = node_to_pxm_loop sizeof_pxm2node t 0 n in
    if ltb n sizeof_pxm2node then pxm_if (entry_at t n) n search else search

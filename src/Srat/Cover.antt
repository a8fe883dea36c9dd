-- ===== src/Srat/Cover.antt =====
-- nodes_cover_memory: whether the nodes have every RAM address of the e820 map.
use formal_verification_of_x.Prelude.{
  ℕ, zero, suc, ◌+◌, ◌-◌, ◌%◌, ◌^◌, Bool, true, false, not, ◌&&◌, ltb, leb, if◌then◌else◌, Option,
  none, some,
}
use formal_verification_of_x.Srat.Tables.{max_numnodes, Node}
pub mod Shrink
pub mod Decides

-- `start`, `end` and `found` of the loop.
pub record Gap : Type 0 where
  pub start : ℕ
  pub end : ℕ
  pub found : Bool

-- `if (start >= nodes[j].start) { start = nodes[j].end; found = 1; }`
pub raise_start : Gap → Node → Gap
raise_start g nd = if leb nd.start g.start then record g { start = nd.end; found = true } else g

-- `if (end <= nodes[j].end) { end = nodes[j].start; found = 1; }`
pub lower_end : Gap → Node → Gap
lower_end g nd = if leb g.end nd.end then record g { end = nd.start; found = true } else g

-- One round of the loop over `j`.
pub cut : Gap → Node → Gap
unfolding raise_start lower_end
cut g nd = if ltb g.start nd.end && ltb nd.start g.end then lower_end (raise_start g nd) nd else g

-- `for (j = 0; j < memory_nodes_parsed; j++)`, with `rounds` left; a node behind the table is a fault.
pub cut_all : ℕ → (ℕ → Node) → ℕ → Gap → Option Gap
cut_all zero nodes j g = some g
cut_all (suc rounds) nodes j g =
    let rest = cut_all rounds nodes (j + 1) (cut g (nodes j)) in
    if ltb j max_numnodes then rest else none

abbrev pub again_while : (Gap → Option Gap) → Option Gap → Option Gap
again_while again none = none
again_while again (some g) =
    let rest = again g in if g.found && ltb g.start g.end then rest else some g

-- `do { found = 0; ... } while (found && start < end);`
pub shrink : ℕ → (ℕ → Node) → ℕ → Gap → Option Gap
shrink zero nodes parsed g = none
shrink (suc fuel) nodes parsed g =
    again_while (shrink fuel nodes parsed) (cut_all parsed nodes 0 (record g { found = false }))

-- The entries that the e820 map has room for.
abbrev pub map_size : ℕ
map_size = 10

-- An entry of the e820 map; `is_ram` is what its comparison with "E820_RAM" answers.
pub record Region : Type 0 where
  pub addr : ℕ
  pub size : ℕ
  pub is_ram : Bool

abbrev pub whole : Region → Gap
whole m = record { start = m.addr; end = (m.addr + m.size) % 2 ^ 64; found = false }

-- Rounds that are enough: each round but the last makes the gap smaller.
abbrev pub gap_fuel : Gap → ℕ
gap_fuel g = suc (g.end - g.start)

abbrev pub covered_if : Option Gap → Option ℕ → Option ℕ
covered_if none rest = none
covered_if (some g) rest = if ltb g.start g.end then some 0 else rest

-- `for (i = 0; i < e820.nr_map; i++)`, with `rounds` left. `parsed` is memory_nodes_parsed, a local
-- that nothing writes. An entry behind the map is a fault.
pub regions_covered : ℕ → (ℕ → Region) → (ℕ → Node) → ℕ → ℕ → Option ℕ
regions_covered zero map nodes parsed i = some 1
regions_covered (suc rounds) map nodes parsed i =
    let rest = regions_covered rounds map nodes parsed (i + 1) in
    let gap = shrink (gap_fuel (whole (map i))) nodes parsed (whole (map i)) in
    if not (ltb i map_size) then none else if (map i).is_ram then covered_if gap rest else rest

pub nodes_cover_memory : ℕ → (ℕ → Region) → (ℕ → Node) → ℕ → Option ℕ
nodes_cover_memory nr_map map nodes parsed = regions_covered nr_map map nodes parsed 0

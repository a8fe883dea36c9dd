-- ===== src/Srat/Scan.antt =====
-- acpi_scan_nodes: the nodes are cut to the range of the memory, checked against it, and registered.
use formal_verification_of_x.Prelude.{
  ℕ, zero, suc, ◌+◌, ◌-◌, ◌%◌, ◌^◌, Bool, true, false, not, ◌==◌, ltb, if◌then◌else◌, Option, none,
  some, List, [], ◌∷◌,
}
use mathlib.Core.Option.{map}
use formal_verification_of_x.Prelude.Int.{ℤ, pos, negsuc, ltb_ℤ}
use formal_verification_of_x.Srat.Tables.{max_numnodes, numa_no_node, Node}
use formal_verification_of_x.Srat.Memblks.{cutoff_node}
use formal_verification_of_x.Srat.Cover.{Region, nodes_cover_memory}
use formal_verification_of_x.Srat.Affinity.{Srat, bad_srat}
pub mod Registered

-- The locals that nothing writes, the e820 map, and what node_isset answers.
pub record ScanInput : Type 0 where
  pub nr_map : ℕ
  pub map : ℕ → Region
  pub memory_nodes_parsed : ℕ
  pub all_nodes_parsed : ℕ
  pub nr_cpu_ids : ℕ
  pub cpu_to_node : ℕ → ℕ
  pub node_isset : ℕ → Bool

-- The result, the static state, and the calls of setup_node_bootmem and numa_set_node by their first
-- arguments.
pub record Scanned : Type 0 where
  pub result : ℤ
  pub srat : Srat
  pub bootmem : List ℕ
  pub unset : List ℕ

-- `for (i = 0; i < MAX_NUMNODES; i++) cutoff_node(i, start, end);`
abbrev pub cut_nodes : Srat → ℕ → ℕ → Srat
cut_nodes s start end = record s {
  nodes = λ i. if ltb i max_numnodes then cutoff_node (s.nodes i) start end else s.nodes i;
}

-- `size`, an unsigned int.
abbrev pub size_of : Node → ℕ
size_of nd = (nd.end + 2 ^ 64 - nd.start) % 2 ^ 32

-- The loop over the nodes: with the call of printk commented out, the call of setup_node_bootmem stands
-- under `if (size == 0)`. A node behind the table is a fault.
pub register_nodes : ℕ → (ℕ → Node) → ℕ → Option (List ℕ)
register_nodes zero nodes i = some []
register_nodes (suc rounds) nodes i =
    let rest = register_nodes rounds nodes (i + 1) in
    if not (ltb i max_numnodes)
    then none
    else if size_of (nodes i) == 0
    then map (λ l. i ∷ l) rest
    else rest

-- The processors that cpu_to_node has room for.
abbrev pub cpu_to_node_size : ℕ
cpu_to_node_size = 10

-- The loop over the processors; one behind cpu_to_node is a fault.
pub unset_cpus : ℕ → ScanInput → ℕ → Option (List ℕ)
unset_cpus zero p i = some []
unset_cpus (suc rounds) p i =
    let rest = unset_cpus rounds p (i + 1) in
    if not (ltb i cpu_to_node_size)
    then none
    else if p.cpu_to_node i == numa_no_node
    then rest
    else if not (p.node_isset (p.cpu_to_node i))
    then map (λ l. i ∷ l) rest
    else rest

abbrev pub after_bad : Option Srat → Option Scanned
after_bad none = none
after_bad (some s) = some (record { result = negsuc 0; srat = s; bootmem = []; unset = [] })

abbrev pub scan_done : Srat → Option (List ℕ) → Option (List ℕ) → Option Scanned
scan_done s none unset = none
scan_done s (some bootmem) none = none
scan_done s (some bootmem) (some unset) =
    some (record { result = pos 0; srat = s; bootmem = bootmem; unset = unset })

-- `memnode_shift` is unsigned: it is never below 0.
abbrev pub scan_covered : ScanInput → Srat → Option ℕ → Option Scanned
scan_covered p s none = none
scan_covered p s (some zero) = after_bad (bad_srat s)
scan_covered p s (some (suc c)) =
    scan_done s (register_nodes p.all_nodes_parsed s.nodes 0) (unset_cpus p.nr_cpu_ids p 0)

pub acpi_scan_nodes : ScanInput → Srat → ℕ → ℕ → Option Scanned
acpi_scan_nodes p s start end =
    let s' = cut_nodes s start end in
    if ltb_ℤ (pos 0) s.acpi_numa
    then scan_covered p s' (nodes_cover_memory p.nr_map p.map s'.nodes p.memory_nodes_parsed)
    else some (record { result = negsuc 0; srat = s'; bootmem = []; unset = [] })

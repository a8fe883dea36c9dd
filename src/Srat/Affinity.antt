-- ===== src/Srat/Affinity.antt =====
-- bad_srat and the three callbacks for the entries of the SRAT.
use formal_verification_of_x.Prelude.{
  ℕ, zero, suc, ◌+◌, ◌*◌, ◌%◌, ◌^◌, Bool, true, false, not, ◌||◌, ◌==◌, ◌!=◌, ltb, leb,
  if◌then◌else◌, Option, none, some, bit_and, bit_or,
}
use formal_verification_of_x.Prelude.Int.{ℤ, pos, negsuc}
use formal_verification_of_x.Srat.Tables.{
  max_numnodes, nr_node_memblks, numa_no_node, sizeof_pxm2node, Entry, Node, PxmTable, update,
  Memblks,
}
use formal_verification_of_x.Srat.Pxm.{setup_node}
use formal_verification_of_x.Srat.Memblks.{conflicting_memblks}
use mathlib.Core.Bool.{xor}
pub mod Faults
pub mod Bodies

-- The static state that the callbacks share.
pub record Srat : Type 0 where
  pub table : PxmTable
  pub apicid_to_node : ℕ → ℕ
  pub acpi_numa : ℤ
  pub srat_rev : ℕ
  pub memblks : Memblks
  pub nodes : ℕ → Node
  pub mem_hotplug : ℕ

-- What that file only declares: srat_disabled, node_test_and_set and test_bit.
pub record Platform : Type 0 where
  pub srat_disabled : Srat → Bool
  pub node_test_and_set : ℕ → Bool
  pub test_bit : ℕ → Bool

-- The sizes in bytes of a header field and of the three kinds of entries, an int having four bytes.
abbrev pub sizeof_header : ℕ
sizeof_header = 4

abbrev pub sizeof_x2apic_cpu_affinity : ℕ
sizeof_x2apic_cpu_affinity = 16

abbrev pub sizeof_cpu_affinity : ℕ
sizeof_cpu_affinity = 28

abbrev pub sizeof_mem_affinity : ℕ
sizeof_mem_affinity = 20

-- `for (i = 0; i < sizeof(pxm2node); i++) pxm2node[i].node = NUMA_NO_NODE;`
pub clear_nodes : ℕ → (ℕ → Entry) → ℕ → Option (ℕ → Entry)
clear_nodes zero entry i = some entry
clear_nodes (suc rounds) entry i =
    let cleared = update entry i (record { pxm = (entry i).pxm; node = numa_no_node }) in
    let rest = clear_nodes rounds cleared (i + 1) in if ltb i max_numnodes then rest else none

abbrev pub with_entries : Srat → Option (ℕ → Entry) → Option Srat
with_entries s none = none
with_entries s (some entry) = some (record s { table = record s.table { entry = entry } })

pub bad_srat : Srat → Option Srat
bad_srat s =
    with_entries
      (record s {
        acpi_numa = negsuc 0;
        apicid_to_node = λ i. if ltb i 256 then numa_no_node else s.apicid_to_node i;
      })
      (clear_nodes sizeof_pxm2node s.table.entry 0)

pub record X2apicCpuAffinity : Type 0 where
  pub flags : ℕ
  pub apic_id : ℕ
  pub proximity_domain : ℕ

pub record CpuAffinity : Type 0 where
  pub flags : ℕ
  pub apic_id : ℕ
  pub proximity_domain_lo : ℕ
  pub proximity_domain_hi : ℕ → ℕ

pub record MemAffinity : Type 0 where
  pub flags : ℕ
  pub base_address : ℕ
  pub length : ℕ
  pub proximity_domain : ℕ

-- `apicid_to_node[apic_id] = node; acpi_numa = 1;` behind a setup_node that gave a node.
pub assign : Srat → ℕ → Option (ℕ × PxmTable) → Option Srat
assign s apic_id none = none
assign s apic_id (some (node, table)) =
    let s' = record s { table = table } in
    if node == numa_no_node
    then bad_srat s'
    else if ltb apic_id 256
    then some
        (record s' { apicid_to_node = update s.apicid_to_node apic_id node; acpi_numa = pos 1 })
    else none

-- acpi_numa_x2apic_affinity_init behind its test of the size.
pub x2apic_body : X2apicCpuAffinity → Srat → Option Srat
x2apic_body pa s =
    if bit_and pa.flags 1 == 0
    then some s
    else if leb 256 pa.apic_id
    then some s
    else assign s pa.apic_id (setup_node s.table pa.proximity_domain)

pub acpi_numa_x2apic_affinity_init : Platform → X2apicCpuAffinity → Srat → Option Srat
acpi_numa_x2apic_affinity_init p pa s =
    if p.srat_disabled s
    then some s
    else if ltb sizeof_header sizeof_x2apic_cpu_affinity
    then bad_srat s
    else x2apic_body pa s

-- `pxm` with the upper bytes of revision 2.
pub cpu_pxm : Srat → CpuAffinity → ℕ
cpu_pxm s pa =
    if leb 2 s.srat_rev
    then bit_or
        (bit_or (bit_or pa.proximity_domain_lo (pa.proximity_domain_hi 0 * 2 ^ 8 % 2 ^ 32))
          (pa.proximity_domain_hi 1 * 2 ^ 16 % 2 ^ 32))
        (pa.proximity_domain_hi 2 * 2 ^ 24 % 2 ^ 32)
    else pa.proximity_domain_lo

-- acpi_numa_processor_affinity_init behind its test of the size; `pa->flags && ...` is a logical and.
pub processor_body : CpuAffinity → Srat → Option Srat
processor_body pa s =
    if pa.flags == 0 then some s else assign s pa.apic_id (setup_node s.table (cpu_pxm s pa))

pub acpi_numa_processor_affinity_init : Platform → CpuAffinity → Srat → Option Srat
acpi_numa_processor_affinity_init p pa s =
    if p.srat_disabled s
    then some s
    else if sizeof_header != sizeof_cpu_affinity
    then bad_srat s
    else processor_body pa s

-- `nodes[node]` under `if (!(ma->flags & ACPI_SRAT_MEM_HOT_PLUGGABLE))`.
pub extend_node : Platform → Node → ℕ → ℕ → ℕ → Node
extend_node p nd node start end =
    if p.node_test_and_set node
    then record {
      start = if ltb start nd.start then start else nd.start;
      end = if ltb nd.end end then end else nd.end;
    }
    else record { start = start; end = end }

-- From the extension of the node to `num_node_memblks++`.
pub add_memblk : Platform → MemAffinity → Srat → ℕ → ℕ → ℕ → Option Srat
add_memblk p ma s node start end =
    let hot = not (bit_and ma.flags 1 == 0) in
    let n = s.memblks.num in
    let nodes =
      (if hot
        then s.nodes
        else update s.nodes node (extend_node p (s.nodes node) node start end)) in
    some (record s {
      nodes = nodes;
      memblks = record {
        range = update s.memblks.range n (record { start = start; end = end });
        nodeid = update s.memblks.nodeid n node;
        num = n + 1;
      };
      mem_hotplug =
          if hot then if ltb s.mem_hotplug end then end else s.mem_hotplug else s.mem_hotplug;
    })

-- The tests of `memblk_nodeid[i]`; a result of -1 of conflicting_memblks is an index outside the array.
pub check_conflict : Platform → MemAffinity → Srat → ℕ → ℕ → ℕ → Option ℕ → Option Srat
check_conflict p ma s node start end none = none
check_conflict p ma s node start end (some i) =
    if s.memblks.nodeid i == node
    then if xor (bit_and ma.flags 1 == 0) (not (p.test_bit i))
      then bad_srat s
      else add_memblk p ma s node start end
    else bad_srat s

pub after_setup : Platform → MemAffinity → Srat → ℕ → ℕ → Option (ℕ × PxmTable) → Option Srat
after_setup p ma s start end none = none
after_setup p ma s start end (some (node, table)) =
    let s' = record s { table = table } in
    if node == numa_no_node
    then bad_srat s'
    else check_conflict p ma s' node start end (conflicting_memblks s.memblks start end)

-- acpi_numa_memory_affinity_init behind its test of the size.
pub memory_body : Platform → MemAffinity → Srat → Option Srat
memory_body p ma s =
    let start = ma.base_address in
    let end = (start + ma.length) % 2 ^ 32 in
    let pxm =
      (if ltb s.srat_rev 2 then bit_and ma.proximity_domain 0xff else ma.proximity_domain) in
    if bit_and ma.flags 1 == 0
    then some s
    else if leb nr_node_memblks s.memblks.num
    then bad_srat s
    else after_setup p ma s start end (setup_node s.table pxm)

pub acpi_numa_memory_affinity_init : Platform → MemAffinity → Srat → Option Srat
acpi_numa_memory_affinity_init p ma s =
    if p.srat_disabled s
    then some s
    else if sizeof_header != sizeof_mem_affinity
    then bad_srat s
    else memory_body p ma s

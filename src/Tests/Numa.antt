-- ===== src/Tests/Numa.antt =====
-- srat_verified.c on small tables.
use formal_verification_of_x.Prelude.{[], ◌∷◌, false, true, ◌≡◌, some, arith, ℕ, ◌+◌, ◌*◌, refl}
use formal_verification_of_x.Prelude.Int.{pos}
use formal_verification_of_x.Srat.Tables.{PxmTable, Memblks}
use formal_verification_of_x.Srat.Pxm.Distinct.{
  IsTable, setup_all, IsDistinct, setup_all-IsDistinct,
}
use formal_verification_of_x.Srat.Cover.{Region, nodes_cover_memory}
use formal_verification_of_x.Srat.Cover.Decides.{Decided, nodes_cover_memory-Decided}
use formal_verification_of_x.Srat.Scan.{ScanInput, cut_nodes, acpi_scan_nodes}
use formal_verification_of_x.Srat.Scan.Registered.{Scan, acpi_scan_nodes-Scan}
use formal_verification_of_x.Srat.Affinity.{Srat}

-- A table with no entry taken, no node and one node given out.
abbrev fresh : PxmTable
fresh = record { entry = λ i. record { pxm = 0; node = 0 }; nodes_found = 0; warned = false }

abbrev begun : PxmTable
begun = record fresh { nodes_found = 1 }

begun-IsTable : IsTable begun
begun-IsTable = record {
  own = λ i given. absurd (given refl);
  below = λ i given. absurd (given refl);
  apart = λ i j given. absurd (given refl);
}

setup_all-IsDistinct_example :
    (t' : PxmTable) × (setup_all (5 ∷ 7 ∷ 5 ∷ []) begun ≡ some t') × IsDistinct t' (5 ∷ 7 ∷ 5 ∷ [])
setup_all-IsDistinct_example =
    setup_all-IsDistinct (5 ∷ 7 ∷ 5 ∷ []) begun begun-IsTable
      (omega arith, (omega arith, (omega arith, tt))) (omega arith) (omega arith)

-- The block `i` goes from `0x1000 * i` to `0x1000 * i + 0x800`.
abbrev blocks : Memblks
blocks = record {
  range = λ i. record { start = 0x1000 * i; end = 0x1000 * i + 0x800 };
  nodeid = λ i. i;
  num = 2;
}

-- RAM from 0x800 to 0x1800.
abbrev ram : ℕ → Region
ram i = record { addr = 0x800; size = 0x1000; is_ram = true }

nodes_cover_memory-Decided_example :
    Decided 1 ram blocks.range 2 0 (nodes_cover_memory 1 ram blocks.range 2)
nodes_cover_memory-Decided_example =
    nodes_cover_memory-Decided 1 ram blocks.range 2 (omega arith) (omega arith)

abbrev srat : Srat
srat = record {
  table = begun;
  apicid_to_node = λ i. 0;
  acpi_numa = pos 0;
  srat_rev = 2;
  memblks = blocks;
  nodes = λ i. record { start = 0; end = 0 };
  mem_hotplug = 0;
}

abbrev scan_input : ScanInput
scan_input = record {
  nr_map = 1;
  map = ram;
  memory_nodes_parsed = 2;
  all_nodes_parsed = 3;
  nr_cpu_ids = 2;
  cpu_to_node = λ i. i;
  node_isset = λ node. true;
}

abbrev srat_in_use : Srat
srat_in_use = record srat { acpi_numa = pos 1; nodes = blocks.range }

acpi_scan_nodes-Scan_example :
    Scan scan_input
      (cut_nodes srat_in_use 0 0x4000)
      (acpi_scan_nodes scan_input srat_in_use 0 0x4000)
acpi_scan_nodes-Scan_example = acpi_scan_nodes-Scan scan_input srat_in_use 0 0x4000 refl (record {
  map_fits = omega arith;
  parsed_fit = omega arith;
  nodes_fit = omega arith;
  cpus_fit = omega arith;
})

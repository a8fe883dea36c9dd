-- ===== src/Srat/Tables.antt =====
-- The types and the static state of srat_verified.c.
use formal_verification_of_x.Prelude.{ℕ, ◌*◌, Bool, ◌==◌, ltb, if◌then◌else◌, Option, none, some}

abbrev pub max_numnodes : ℕ
max_numnodes = 1000

abbrev pub nr_node_memblks : ℕ
nr_node_memblks = 2000

-- NUMA_NO_NODE and NUMA_NO_DISTANCE are defined as 0 in that file.
abbrev pub numa_no_node : ℕ
numa_no_node = 0

abbrev pub numa_no_distance : ℕ
numa_no_distance = 0

-- `struct pxm2node`, of eight bytes.
pub record Entry : Type 0 where
  pub pxm : ℕ
  pub node : ℕ

-- `sizeof(pxm2node)`, the bound of the loops: the bytes of the table, not its entries.
abbrev pub sizeof_pxm2node : ℕ
sizeof_pxm2node = max_numnodes * 8

-- `struct node`: the addresses from `start` up to `end`.
pub record Node : Type 0 where
  pub start : ℕ
  pub end : ℕ

-- The table pxm2node with the two statics of setup_node.
pub record PxmTable : Type 0 where
  pub entry : ℕ → Entry
  pub nodes_found : ℕ
  pub warned : Bool

abbrev pub update {ℓ} : {A : Type ℓ} → (ℕ → A) → ℕ → A → ℕ → A
update f i v j = if i == j then v else f j

-- `pxm2node[i]`.
abbrev pub entry_at : PxmTable → ℕ → Option Entry
entry_at t i = if ltb i max_numnodes then some (t.entry i) else none

-- The memory blocks: node_memblk_range, memblk_nodeid and num_node_memblks.
pub record Memblks : Type 0 where
  pub range : ℕ → Node
  pub nodeid : ℕ → ℕ
  pub num : ℕ

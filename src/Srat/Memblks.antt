-- ===== src/Srat/Memblks.antt =====
-- valid_numa_range, conflicting_memblks and cutoff_node.
use formal_verification_of_x.Prelude.{
  ℕ, zero, suc, ◌+◌, Bool, false, ◌&&◌, ◌||◌, ◌==◌, ltb, leb, if◌then◌else◌, Option, none, some,
}
use formal_verification_of_x.Srat.Tables.{Node, Memblks}
pub mod Overlap
pub mod Cutoff

-- `nd->start <= start && nd->end >= end && memblk_nodeid[i] == node`.
abbrev pub covers : Memblks → ℕ → ℕ → ℕ → ℕ → Bool
covers m i start end node =
    leb (m.range i).start start && (leb end (m.range i).end && m.nodeid i == node)

pub valid_numa_range_loop : ℕ → Memblks → ℕ → ℕ → ℕ → ℕ → ℕ
valid_numa_range_loop zero m i start end node = 0
valid_numa_range_loop (suc rounds) m i start end node =
    let rest = valid_numa_range_loop rounds m (i + 1) start end node in
    if covers m i start end node then 1 else rest

pub valid_numa_range : Memblks → ℕ → ℕ → ℕ → ℕ
valid_numa_range m start end node = valid_numa_range_loop m.num m 0 start end node

-- `nd->end > start && nd->start < end`, or the same range.
abbrev pub conflicts : Node → ℕ → ℕ → Bool
conflicts nd start end =
    if nd.start == nd.end
    then false
    else ltb start nd.end && ltb nd.start end || (nd.end == end && nd.start == start)

-- `none` is the result -1.
unfoldable pub conflicting_memblks_loop : ℕ → Memblks → ℕ → ℕ → ℕ → Option ℕ
conflicting_memblks_loop zero m i start end = none
conflicting_memblks_loop (suc rounds) m i start end =
    let rest = conflicting_memblks_loop rounds m (i + 1) start end in
    if conflicts (m.range i) start end then some i else rest

unfoldable pub conflicting_memblks : Memblks → ℕ → ℕ → Option ℕ
conflicting_memblks m start end = conflicting_memblks_loop m.num m 0 start end

-- The first `if` of cutoff_node.
pub cut_below : Node → ℕ → Node
cut_below nd start =
    if ltb nd.start start
    then if ltb nd.end start then record nd { start = nd.end } else record nd { start = start }
    else nd

-- The second `if` of cutoff_node.
pub cut_above : Node → ℕ → Node
cut_above nd end =
    if ltb end nd.end
    then if ltb end nd.start then record { start = end; end = end } else record nd { end = end }
    else nd

-- `nodes[i]` after the call.
pub cutoff_node : Node → ℕ → ℕ → Node
unfolding cut_below cut_above
cutoff_node nd start end = cut_above (cut_below nd start) end

-- ===== src/Srat/Memblks/Cutoff.antt =====
-- cutoff_node cuts a node's range to the range given.
use formal_verification_of_x.Prelude.{ℕ, ◌≤◌, ◌<◌, ◌↔◌, arith}
use formal_verification_of_x.Srat.Tables.{Node}
use formal_verification_of_x.Srat.Memblks.{cutoff_node}

-- The address lies in the node.
abbrev pub IsIn : ℕ → Node → Type 0
IsIn x nd = (nd.start ≤ x) × (x < nd.end)

-- cutoff_node leaves a node well formed, start not above end, and exactly those of its addresses
-- that lie from start up to end.
pub cutoff_node-IsIn :
    (nd : Node) (start end : ℕ)
    → nd.start ≤ nd.end
    → ((cutoff_node nd start end).start ≤ (cutoff_node nd start end).end)
      × ((x : ℕ) → IsIn x (cutoff_node nd start end) ↔ (IsIn x nd × (start ≤ x) × (x < end)))
unfolding cutoff_node
cutoff_node-IsIn nd start end h = (ground arith, λ x. (λ i. ground arith, λ i. ground arith))

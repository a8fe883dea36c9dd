-- ===== src/Srat/Pxm/Invariant.antt =====
-- The node numbers in the table stay below the counter and apart from one another.
use formal_verification_of_x.Prelude.{ℕ, ◌+◌, ◌^◌, ◌<◌, ◌≡◌, ◌≢◌, arith, some}
use formal_verification_of_x.Srat.Tables.{PxmTable}
use formal_verification_of_x.Srat.Pxm.{setup_node}
use formal_verification_of_x.Srat.Pxm.Setup.{Setup, own, exhausted, placed, setup_node-Setup}

-- Every node in the table is below the counter, and no two entries have the same one.
pub record IsNumbered (t : PxmTable) : Type 0 where
  pub below : (i : ℕ) → (t.entry i).node ≢ 0 → (t.entry i).node < t.nodes_found
  pub apart : (i j : ℕ) → (t.entry i).node ≢ 0 → (t.entry i).node ≡ (t.entry j).node → i ≡ j

Setup-IsNumbered :
    {t t' : PxmTable} {pxm node : ℕ}
    → Setup t pxm node t'
    → t.nodes_found + 1 < 2 ^ 32
    → IsNumbered t
    → IsNumbered t'
Setup-IsNumbered (own lt e used n same) small h = record {
  below = λ i. ground (arith, h.below i);
  apart = λ i j. ground (arith, h.apart i j);
}
Setup-IsNumbered (exhausted all_out n same) small h = record {
  below = λ i. ground (arith, h.below i);
  apart = λ i j. ground (arith, h.apart i j);
}
Setup-IsNumbered (placed idx lt free left own_first n same) small h = record {
  below = λ i. ground (arith, h.below i);
  apart = λ i j. ground (arith, h.apart i j, h.below i, h.below j);
}

-- setup_node keeps the nodes of the table below the counter and apart, as long as the counter does
-- not wrap.
pub setup_node-IsNumbered :
    (t t' : PxmTable) (pxm node : ℕ)
    → IsNumbered t
    → t.nodes_found + 1 < 2 ^ 32
    → setup_node t pxm ≡ some (node, t')
    → IsNumbered t'
setup_node-IsNumbered t t' pxm node h small e =
    Setup-IsNumbered (setup_node-Setup t t' pxm node e) small h

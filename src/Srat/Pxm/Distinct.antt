-- ===== src/Srat/Pxm/Distinct.antt =====
-- A run of setup_node over a list of domains.
use formal_verification_of_x.Prelude.{
  ℕ, ◌+◌, ◌%◌, ◌^◌, ◌<◌, ◌≤◌, ◌≡◌, ◌≢◌, refl, ap, ◌∙◌, arith, List, [], ◌∷◌, length, Option, none,
  some,
}
use native.Mathlib.Decide.{ℕ_discrete}
use native.Mathlib.Nat.{mod-eq_of_lt}
use formal_verification_of_x.Srat.Tables.{max_numnodes, PxmTable}
use formal_verification_of_x.Srat.Pxm.{pxm_to_node, setup_node}
use formal_verification_of_x.Srat.Pxm.Answers.{
  place, setup_node-place, setup_node-own, pxm_to_node-own,
}
use formal_verification_of_x.Srat.Pxm.Lookup.{pxm_to_node-IsLookup}

-- Every entry with a node is at its domain's own index; the nodes are below the counter and apart.
pub record IsTable (t : PxmTable) : Type 0 where
  pub own : (i : ℕ) → (t.entry i).node ≢ 0 → (t.entry i).pxm ≡ i
  pub below : (i : ℕ) → (t.entry i).node ≢ 0 → (t.entry i).node < t.nodes_found
  pub apart : (i j : ℕ) → (t.entry i).node ≢ 0 → (t.entry i).node ≡ (t.entry j).node → i ≡ j

-- One call of setup_node.
record IsServing (t : PxmTable) (pxm : ℕ) (t' : PxmTable) : Type 0 where
  table : IsTable t'
  some_out : 0 < t'.nodes_found
  counted : t'.nodes_found ≤ t.nodes_found + 1
  served : (t'.entry pxm).node ≢ 0
  kept : (i : ℕ) → (t.entry i).node ≢ 0 → (t'.entry i).node ≢ 0

place-IsServing :
    (t : PxmTable) (pxm : ℕ)
    → IsTable t
    → 0 < t.nodes_found
    → t.nodes_found < max_numnodes
    → (t.entry pxm).node ≡ 0
    → IsServing t pxm (place t pxm)
place-IsServing t pxm h some_out left free =
    let next : (t.nodes_found + 1) % 2 ^ 32 ≡ t.nodes_found + 1 = mod-eq_of_lt (omega arith) in
    record {
      table = record {
        own = λ i. ground (arith, h.own i);
        below = λ i. ground (arith, next, h.below i);
        apart = λ i j. ground (arith, h.apart i j, h.below i, h.below j);
      };
      some_out = omega arith;
      counted = omega arith;
      served = ground arith;
      kept = λ i. ground arith;
    }

setup_node-IsServing :
    (t : PxmTable) (pxm : ℕ)
    → IsTable t
    → pxm < max_numnodes
    → 0 < t.nodes_found
    → t.nodes_found < max_numnodes
    → (node : ℕ) × (t' : PxmTable) × (setup_node t pxm ≡ some (node, t')) × IsServing t pxm t'
setup_node-IsServing t pxm h lt some_out left = elim (ℕ_discrete (t.entry pxm).node 0) [
  | yes free ↦ (
    t.nodes_found,
    place t pxm,
    setup_node-place t pxm lt left free,
    place-IsServing t pxm h some_out left free,
  )
  | no used ↦
      let domain : (t.entry pxm).pxm ≡ pxm = h.own pxm used in
      (
        (t.entry pxm).node,
        t,
        setup_node-own t pxm _ lt (ground arith) used,
        record {
          table = h;
          some_out = some_out;
          counted = omega arith;
          served = used;
          kept = λ i n. n;
        },
      )
]

abbrev pub then_setup : (PxmTable → Option PxmTable) → Option (ℕ × PxmTable) → Option PxmTable
then_setup rest none = none
then_setup rest (some (node, t)) = rest t

-- setup_node for each domain of a list.
abbrev pub setup_all : List ℕ → PxmTable → Option PxmTable
setup_all [] t = some t
setup_all (pxm ∷ pxms) t = then_setup (setup_all pxms) (setup_node t pxm)

-- Every domain of the list is below the number of entries.
abbrev pub AllInside : List ℕ → Type 0
AllInside [] = Unit
AllInside (pxm ∷ pxms) = (pxm < max_numnodes) × AllInside pxms

-- pxm_to_node answers with a node for every domain of the list.
abbrev pub AllAnswered : PxmTable → List ℕ → Type 0
AllAnswered t [] = Unit
AllAnswered t (pxm ∷ pxms) =
    ((node : ℕ) × (pxm_to_node t pxm ≡ some node) × (node ≢ 0)) × AllAnswered t pxms

pub record IsDistinct (t : PxmTable) (pxms : List ℕ) : Type 0 where
  pub table : IsTable t
  pub answered : AllAnswered t pxms
  pub injective : (i j node : ℕ) → pxm_to_node t i ≡ some node → pxm_to_node t j ≡ some node → i ≡ j

answer_of_entry :
    (t : PxmTable) (pxm : ℕ)
    → IsTable t
    → pxm < max_numnodes
    → (t.entry pxm).node ≢ 0
    → (node : ℕ) × (pxm_to_node t pxm ≡ some node) × (node ≢ 0)
answer_of_entry t pxm h lt used =
    let domain : (t.entry pxm).pxm ≡ pxm = h.own pxm used in
    ((t.entry pxm).node, pxm_to_node-own t pxm _ lt (ground arith) used, used)

IsTable-injective :
    (t : PxmTable) (i j node : ℕ)
    → IsTable t
    → pxm_to_node t i ≡ some node
    → pxm_to_node t j ≡ some node
    → i ≡ j
IsTable-injective t i j node h e e' =
    let (a, (inside, hit, from)) = rw e at (pxm_to_node-IsLookup t i) in
    let (b, (inside', hit', from')) = rw e' at (pxm_to_node-IsLookup t j) in
    ground (arith, h.own a, h.own b, h.apart a b)

-- The table behind a run over `pxms` from `t`.
record IsRun (t : PxmTable) (pxms : List ℕ) (t' : PxmTable) : Type 0 where
  table : IsTable t'
  answered : AllAnswered t' pxms
  kept : (i : ℕ) → (t.entry i).node ≢ 0 → (t'.entry i).node ≢ 0

setup_all-IsRun :
    (pxms : List ℕ) (t : PxmTable)
    → IsTable t
    → AllInside pxms
    → 0 < t.nodes_found
    → t.nodes_found + length pxms ≤ max_numnodes
    → (t' : PxmTable) × (setup_all pxms t ≡ some t') × IsRun t pxms t'
setup_all-IsRun [] t h inside some_out left =
    (t, refl, record { table = h; answered = tt; kept = λ i used. used })
setup_all-IsRun (pxm ∷ pxms) t h (lt, inside) some_out left =
    let (node, t', set, one) = setup_node-IsServing t pxm h lt some_out (omega arith) in
    let more = one.counted in
    let (t'', ran, run) = setup_all-IsRun pxms t' one.table inside one.some_out (omega arith) in
    (
      t'',
      ap (then_setup (setup_all pxms)) set ∙ ran,
      record {
        table = run.table;
        answered = (answer_of_entry t'' pxm run.table lt (run.kept pxm one.served), run.answered);
        kept = λ i used. run.kept i (one.kept i used);
      },
    )

-- From a table whose nodes are at their domains' own indices, below the counter and apart, with at least
-- one node out and enough of them left: setup_node, called for each of any list of domains below 1000,
-- always returns. Behind the run pxm_to_node answers with a node other than NUMA_NO_NODE for every domain
-- of the list, and with one node for at most one domain.
pub setup_all-IsDistinct :
    (pxms : List ℕ) (t : PxmTable)
    → IsTable t
    → AllInside pxms
    → 0 < t.nodes_found
    → t.nodes_found + length pxms ≤ max_numnodes
    → (t' : PxmTable) × (setup_all pxms t ≡ some t') × IsDistinct t' pxms
setup_all-IsDistinct pxms t h inside some_out left =
    let (t', ran, run) = setup_all-IsRun pxms t h inside some_out left in
    (
      t',
      ran,
      record {
        table = run.table;
        answered = run.answered;
        injective = λ i j node. IsTable-injective t' i j node run.table;
      },
    )

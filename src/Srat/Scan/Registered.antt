-- ===== src/Srat/Scan/Registered.antt =====
-- What acpi_scan_nodes registers, and when it returns.
use formal_verification_of_x.Prelude.{
  ℕ, zero, suc, ◌+◌, ◌≤◌, ◌≡◌, refl, ap, ◌∙◌, arith, Bool, true, false, ◌==◌, ◌&&◌, ltb, leb,
  if◌then◌else◌, Option, none, some, List, [], ◌∷◌, inl, inr, Bool-cases,
}
use formal_verification_of_x.Prelude.Int.{pos, ltb_ℤ}
use formal_verification_of_x.Srat.Tables.{max_numnodes, numa_no_node, Node}
use formal_verification_of_x.Srat.Cover.{map_size}
use formal_verification_of_x.Srat.Cover.Decides.{AllCovered, SomeOpen, nodes_cover_memory-Decided}
use formal_verification_of_x.Srat.Affinity.{Srat}
use formal_verification_of_x.Srat.Affinity.Faults.{bad_srat-none}
use formal_verification_of_x.Srat.Scan.{
  ScanInput, Scanned, cut_nodes, size_of, cpu_to_node_size, register_nodes, unset_cpus,
  acpi_scan_nodes,
}

abbrev pub is_among : ℕ → List ℕ → Bool
is_among k [] = false
is_among k (x ∷ xs) = if k == x then true else is_among k xs

-- The nodes without memory, and the processors whose node is not parsed.
abbrev pub registered_of : ℕ → (ℕ → Node) → ℕ → List ℕ
registered_of zero nodes i = []
registered_of (suc rounds) nodes i =
    let rest = registered_of rounds nodes (i + 1) in
    if size_of (nodes i) == 0 then i ∷ rest else rest

register_nodes-within :
    (rounds : ℕ) (nodes : ℕ → Node) (i : ℕ)
    → i + rounds ≤ max_numnodes
    → register_nodes rounds nodes i ≡ some (registered_of rounds nodes i)
unfolding register_nodes
register_nodes-within zero nodes i le = refl
register_nodes-within (suc rounds) nodes i le =
    let inside : ltb i max_numnodes ≡ true = ground arith in
    let rest = register_nodes-within rounds nodes (i + 1) (omega arith) in
    elim (Bool-cases (size_of (nodes i) == 0)) [
      | inl z ↦ rw (inside, z, rest) refl
      | inr z ↦ rw (inside, z) rest
    ]

unset_cpus-within :
    (rounds : ℕ) (p : ScanInput) (i : ℕ)
    → i + rounds ≤ cpu_to_node_size
    → (l : List ℕ) × (unset_cpus rounds p i ≡ some l)
unfolding unset_cpus
unset_cpus-within zero p i le = ([], refl)
unset_cpus-within (suc rounds) p i le =
    let inside : ltb i cpu_to_node_size ≡ true = ground arith in
    let (l, rest) = unset_cpus-within rounds p (i + 1) (omega arith) in
    elim (Bool-cases (p.cpu_to_node i == numa_no_node)) [
      | inl none_ ↦ (l, rw (inside, none_) rest)
      | inr node ↦ elim (Bool-cases (p.node_isset (p.cpu_to_node i))) [
        | inl set ↦ (l, rw (inside, node, set) rest)
        | inr clear ↦ (i ∷ l, rw (inside, node, clear, rest) refl)
      ]
    ]

registered_of-is_among :
    (rounds : ℕ) (nodes : ℕ → Node) (i k : ℕ)
    → is_among k (registered_of rounds nodes i)
      ≡ (leb i k && (ltb k (i + rounds) && size_of (nodes k) == 0))
registered_of-is_among zero nodes i k = ground arith
registered_of-is_among (suc rounds) nodes i k =
    let rest = registered_of-is_among rounds nodes (i + 1) k in
    elim (Bool-cases (k == i)) [
      | inl e ↦
          let q : k ≡ i = ground arith in
          let same : (size_of (nodes k) == 0) ≡ (size_of (nodes i) == 0) =
            ap (λ (j : ℕ). size_of (nodes j) == 0) q in
          elim (Bool-cases (size_of (nodes i) == 0)) [
            | inl z ↦ rw (same, z, e) (ground arith)
            | inr z ↦ rw (same, z) (rest ∙ rw (same, z) (ground arith))
          ]
      | inr ne ↦ elim (Bool-cases (size_of (nodes i) == 0)) [
        | inl z ↦ rw (z, ne) (rest ∙ ground arith)
        | inr z ↦ rw z (rest ∙ ground arith)
      ]
    ]

from_start : (k n : ℕ) (b : Bool) → (leb 0 k && (ltb k (0 + n) && b)) ≡ (ltb k n && b)
from_start k n b = ground arith

-- How acpi_scan_nodes ends for an SRAT in use.
pub data Scan (p : ScanInput) (s : Srat) (r : Option Scanned) : Type 0 where
  registered :
      (t : Scanned)
      → r ≡ some t
      → t.result ≡ pos 0
      → t.srat ≡ s
      → AllCovered p.nr_map p.map s.nodes p.memory_nodes_parsed 0
      → ((k : ℕ) → is_among k t.bootmem ≡ (ltb k p.all_nodes_parsed && size_of (s.nodes k) == 0))
      → Scan p s r
  faulted : r ≡ none → SomeOpen p.nr_map p.map s.nodes p.memory_nodes_parsed 0 → Scan p s r

-- The loops stay in their tables.
pub record IsWithin (p : ScanInput) : Type 0 where
  pub map_fits : p.nr_map ≤ map_size
  pub parsed_fit : p.memory_nodes_parsed ≤ max_numnodes
  pub nodes_fit : p.all_nodes_parsed ≤ max_numnodes
  pub cpus_fit : p.nr_cpu_ids ≤ cpu_to_node_size

-- For an SRAT in use, and with counts that stay in their tables: with the nodes cut to the range, acpi_scan_nodes returns 0 where they cover all
-- RAM, and has then registered, of the nodes that it goes over, exactly those without memory; where
-- they do not it ends in the fault of bad_srat.
pub acpi_scan_nodes-Scan :
    (p : ScanInput) (s : Srat) (start end : ℕ)
    → ltb_ℤ (pos 0) s.acpi_numa ≡ true
    → IsWithin p
    → Scan p (cut_nodes s start end) (acpi_scan_nodes p s start end)
unfolding acpi_scan_nodes
acpi_scan_nodes-Scan p s start end in_use fits =
    let s' = cut_nodes s start end in
    let decided =
      nodes_cover_memory-Decided p.nr_map p.map s'.nodes p.memory_nodes_parsed fits.map_fits
        fits.parsed_fit in
    let nodes =
      register_nodes-within p.all_nodes_parsed s'.nodes 0
        (let le = fits.nodes_fit in omega arith) in
    let (l, unset) = unset_cpus-within p.nr_cpu_ids p 0 (let le = fits.cpus_fit in omega arith) in
    rw in_use (elim decided [
      | inl (e, all) ↦
          rw (e, nodes, unset)
            (registered
              (record {
                result = pos 0;
                srat = s';
                bootmem = registered_of p.all_nodes_parsed s'.nodes 0;
                unset = l;
              })
              refl refl refl all
              (λ k.
                registered_of-is_among p.all_nodes_parsed s'.nodes 0 k
                ∙ from_start k p.all_nodes_parsed (size_of (s'.nodes k) == 0)))
      | inr (e, open_) ↦ rw (e, bad_srat-none s') (faulted refl open_)
    ])

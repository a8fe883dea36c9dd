-- ===== src/Srat/Affinity/Bodies.antt =====
-- What the callbacks do behind their test of the size.
use formal_verification_of_x.Prelude.{
  ℕ, ◌+◌, ◌%◌, ◌^◌, ◌<◌, ◌≡◌, ◌≢◌, inl, inr, refl, arith, Option, none, some, bit_and, Bool-cases,
  ltb, ◌==◌, if◌then◌else◌,
}
use formal_verification_of_x.Prelude.Int.{pos}
use formal_verification_of_x.Srat.Tables.{numa_no_node, PxmTable}
use formal_verification_of_x.Srat.Pxm.{setup_node}
use formal_verification_of_x.Srat.Memblks.{conflicting_memblks}
use formal_verification_of_x.Srat.Affinity.{
  Srat, Platform, X2apicCpuAffinity, MemAffinity, assign, x2apic_body, check_conflict, after_setup,
  memory_body,
}
use formal_verification_of_x.Srat.Affinity.Faults.{bad_srat-none}

-- The processor of the entry got the node of its domain.
pub record IsAssigned (s t : Srat) (pxm apic_id : ℕ) : Type 0 where
  pub set_up : setup_node s.table pxm ≡ some (t.apicid_to_node apic_id, t.table)
  pub has_node : t.apicid_to_node apic_id ≢ numa_no_node
  pub in_use : t.acpi_numa ≡ pos 1
  pub others : (i : ℕ) → i ≢ apic_id → t.apicid_to_node i ≡ s.apicid_to_node i
  pub same_memory : t.memblks ≡ s.memblks

assign-IsAssigned :
    (s t : Srat) (pxm apic_id : ℕ) (r : Option (ℕ × PxmTable))
    → setup_node s.table pxm ≡ r
    → assign s apic_id r ≡ some t
    → IsAssigned s t pxm apic_id
unfolding assign
assign-IsAssigned s t pxm apic_id none e h = absurd (cc)
assign-IsAssigned s t pxm apic_id (some (node, table)) e h =
    elim (Bool-cases (node == numa_no_node)) [
      | inl no_node ↦ absurd (ground (arith, bad_srat-none (record s { table = table })))
      | inr node_given ↦ elim (Bool-cases (ltb apic_id 256)) [
        | inr past ↦ absurd (ground arith)
        | inl inside ↦ record {
          set_up = ground arith;
          has_node = ground arith;
          in_use = ground arith;
          others = λ i d. ground arith;
          same_memory = ground arith;
        }
      ]
    ]

-- Whenever the x2APIC callback, behind its test of the size, returns for an enabled entry with an
-- APIC id below 256, setup_node gave the entry's domain a node other than NUMA_NO_NODE, that node
-- stands at the APIC id and nowhere else is a change, and acpi_numa is 1.
pub x2apic_body-IsAssigned :
    (pa : X2apicCpuAffinity) (s t : Srat)
    → bit_and pa.flags 1 ≢ 0
    → pa.apic_id < 256
    → x2apic_body pa s ≡ some t
    → IsAssigned s t pa.proximity_domain pa.apic_id
unfolding x2apic_body
x2apic_body-IsAssigned pa s t enabled small h =
    assign-IsAssigned s t pa.proximity_domain pa.apic_id _ refl (ground arith)

after_setup-none :
    (p : Platform) (ma : MemAffinity) (s : Srat) (start end : ℕ) (r : Option (ℕ × PxmTable))
    → conflicting_memblks s.memblks start end ≡ none
    → after_setup p ma s start end r ≡ none
unfolding after_setup check_conflict
after_setup-none p ma s start end none e = refl
after_setup-none p ma s start end (some (node, table)) e =
    ground (arith, bad_srat-none (record s { table = table }))

-- The memory callback, behind its test of the size, never returns for an enabled entry whose range
-- meets no earlier memory block: conflicting_memblks answers -1, and that is used as an index.
pub memory_body_needs_conflict :
    (p : Platform) (ma : MemAffinity) (s : Srat)
    → bit_and ma.flags 1 ≢ 0
    → conflicting_memblks s.memblks ma.base_address ((ma.base_address + ma.length) % 2 ^ 32) ≡ none
    → memory_body p ma s ≡ none
unfolding memory_body
memory_body_needs_conflict p ma s enabled e = ground (
  arith,
  bad_srat-none s,
  after_setup-none p ma s ma.base_address ((ma.base_address + ma.length) % 2 ^ 32)
      (setup_node s.table
        (if ltb s.srat_rev 2 then bit_and ma.proximity_domain 0xff else ma.proximity_domain))
      e,
)

-- ===== src/Srat/Affinity/Faults.antt =====
-- bad_srat runs off its table, and every callback of an SRAT in use ends in it.
use formal_verification_of_x.Prelude.{
  ℕ, zero, suc, ◌+◌, ◌<◌, ◌≤◌, ◌≡◌, arith, true, false, none, some, Bool-cases, ltb, inl, inr,
}
use formal_verification_of_x.Srat.Tables.{max_numnodes, sizeof_pxm2node, Entry}
use formal_verification_of_x.Srat.Affinity.{
  Srat, Platform, X2apicCpuAffinity, CpuAffinity, MemAffinity, clear_nodes, bad_srat,
  acpi_numa_x2apic_affinity_init, acpi_numa_processor_affinity_init, acpi_numa_memory_affinity_init,
}

clear_nodes-none :
    (rounds : ℕ) (entry : ℕ → Entry) (i : ℕ)
    → i ≤ max_numnodes
    → max_numnodes < i + rounds
    → clear_nodes rounds entry i ≡ none
unfolding clear_nodes
clear_nodes-none zero entry i le off = absurd (omega arith)
clear_nodes-none (suc rounds) entry i le off = elim (Bool-cases (ltb i max_numnodes)) [
  | inr past ↦ rw past
  | inl inside ↦ rw inside (clear_nodes-none rounds _ (i + 1) (ground arith) (omega arith))
]

-- bad_srat always writes past pxm2node: its loop runs to the size of the table in bytes.
pub bad_srat-none : (s : Srat) → bad_srat s ≡ none
unfolding bad_srat
bad_srat-none s = rw (clear_nodes-none sizeof_pxm2node s.table.entry 0 (omega arith) (omega arith))

-- Each callback leaves everything alone when the SRAT is disabled; when it is not, its test of the
-- entry's size fails whatever the entry holds, and it ends in the fault of bad_srat.
pub affinity_init_faults :
    (p : Platform) (x : X2apicCpuAffinity) (c : CpuAffinity) (m : MemAffinity) (s : Srat)
    → (p.srat_disabled s ≡ true
        → (acpi_numa_x2apic_affinity_init p x s ≡ some s)
          × (acpi_numa_processor_affinity_init p c s ≡ some s)
          × (acpi_numa_memory_affinity_init p m s ≡ some s))
      × (p.srat_disabled s ≡ false
          → (acpi_numa_x2apic_affinity_init p x s ≡ none)
            × (acpi_numa_processor_affinity_init p c s ≡ none)
            × (acpi_numa_memory_affinity_init p m s ≡ none))
unfolding acpi_numa_x2apic_affinity_init acpi_numa_processor_affinity_init
    acpi_numa_memory_affinity_init
affinity_init_faults p x c m s = (
  λ h. (ground arith, ground arith, ground arith),
  λ h. rw h (bad_srat-none s, bad_srat-none s, bad_srat-none s),
)

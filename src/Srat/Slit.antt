-- ===== src/Srat/Slit.antt =====
-- slit_valid and __node_distance, over the distances that stand behind the header of the SLIT.
use formal_verification_of_x.Prelude.{
  ℕ, zero, suc, ◌+◌, ◌*◌, ◌%◌, ◌^◌, Bool, true, false, ◌==◌, ◌!=◌, ◌||◌, leb, if◌then◌else◌, Option,
  none, some,
}
use formal_verification_of_x.Srat.Tables.{numa_no_distance, PxmTable}
use formal_verification_of_x.Srat.Pxm.{node_to_pxm}
pub mod Valid

-- `struct acpi_table_slit`; `entry` is declared with one element and read as long as the table is.
pub record Slit : Type 0 where
  pub entry : ℕ → ℕ
  pub valid : Bool
  pub locality_count : ℕ

-- The test of one entry: `if (i == j) val != 10 else val <= 10`.
abbrev pub wrong : Slit → ℕ → ℕ → Bool
wrong slit i j =
    let val = slit.entry ((slit.locality_count * i + j) % 2 ^ 32) in
    if i == j then val != 10 else leb val 10

-- The loop over `j`, with `rounds` left: whether it runs to its end.
pub row_valid : ℕ → Slit → ℕ → ℕ → Bool
row_valid zero slit i j = true
row_valid (suc rounds) slit i j =
    let rest = row_valid rounds slit i (j + 1) in if wrong slit i j then false else rest

-- The loop over `i`.
pub rows_valid : ℕ → Slit → ℕ → ℕ
rows_valid zero slit i = 1
rows_valid (suc rounds) slit i =
    let rest = rows_valid rounds slit (i + 1) in
    if row_valid slit.locality_count slit i 0 then rest else 0

pub slit_valid : Slit → ℕ
slit_valid slit = rows_valid slit.locality_count slit 0

-- `index` is a local that nothing writes: its value is a parameter. A fault of node_to_pxm is one
-- here.
abbrev pub distance_at : Slit → ℕ → Option ℕ → Option ℕ
distance_at slit index none = none
distance_at slit index (some pxm) =
    let slit_val = slit.entry ((index + pxm) % 2 ^ 32) in
    some (if slit_val == 0xff || leb slit_val 9 then numa_no_distance else slit_val)

pub node_distance : Slit → PxmTable → ℕ → ℕ → ℕ → Option ℕ
node_distance slit t index a b =
    if slit.valid
    then distance_at slit index (node_to_pxm t b)
    else some (if a == b then 10 else 20)

-- ===== src/Srat/Regions/Holes.antt =====
-- The mask that the holes are set up with.
use formal_verification_of_x.Prelude.{
  ℕ, zero, suc, ◌+◌, ◌-◌, ◌/◌, ◌%◌, ◌^◌, ◌<◌, ◌≡◌, refl, sym, ap, ◌∙◌, arith, Bool, true, false,
  Bool-cases, ◌&&◌, ◌||◌, ◌==◌, ◌!=◌, inl, inr, if◌then◌else◌, some, bit_and,
}
use formal_verification_of_x.Prelude.Masks.{bit_and-low}
use formal_verification_of_x.Prelude.Bits.{bit_and_zero_fuel}
use formal_verification_of_x.Srat.Cover.{Region}
use formal_verification_of_x.Srat.Regions.{page_shift, leaves_mask, mask_loop, srat_parse_regions}

-- A region of RAM for which pdx_region_mask answers true.
abbrev pub is_masked : (ℕ → ℕ → Bool) → Region → Bool
is_masked pdx_region_mask m = m.is_ram && pdx_region_mask (m.addr % 2 ^ 32) (m.size % 2 ^ 32)

leaves_mask_lem :
    (pdx_region_mask : ℕ → ℕ → Bool) (mask : ℕ) (m : Region)
    → mask < 2 ^ 32
    → (m.is_ram && leaves_mask pdx_region_mask mask m)
      ≡ (is_masked pdx_region_mask m && (mask % 2 == 0))
leaves_mask_lem pdx_region_mask mask m lt =
    by_answer m.is_ram (pdx_region_mask (m.addr % 2 ^ 32) (m.size % 2 ^ 32))
  where
    by_answer :
        (is_ram answer : Bool)
        → (is_ram && (bit_and (2 ^ 32 - 1 - mask) (if answer then 1 else 0) != 0))
          ≡ ((is_ram && answer) && (mask % 2 == 0))
    by_answer false answer = refl
    by_answer true false =
        ground (arith, bit_and_zero_fuel (2 ^ 32 - 1 - mask) (2 ^ 32 - 1 - mask) (omega arith))
    by_answer true true =
        let low : bit_and (2 ^ 32 - 1 - mask) 1 ≡ (2 ^ 32 - 1 - mask) % 2 =
          bit_and-low 1 (2 ^ 32 - 1 - mask) in
        rw low (ground arith)

mask_loop_zero :
    (pdx_region_mask : ℕ → ℕ → Bool) (rounds : ℕ) (map : ℕ → Region) (i : ℕ)
    → mask_loop pdx_region_mask rounds map i 0 ≡ 0
unfolding mask_loop
mask_loop_zero pdx_region_mask zero map i = refl
mask_loop_zero pdx_region_mask (suc rounds) map i = refl

-- Whether one of the regions from `i` on is such a region.
abbrev pub some_masked : (ℕ → ℕ → Bool) → ℕ → (ℕ → Region) → ℕ → Bool
some_masked pdx_region_mask zero map i = false
some_masked pdx_region_mask (suc rounds) map i =
    is_masked pdx_region_mask (map i) || some_masked pdx_region_mask rounds map (i + 1)

if_same : (b : Bool) (x : ℕ) → x ≡ 0 → (if b then 0 else x) ≡ x
if_same true x e = sym e
if_same false x e = refl

if_never : (mask : ℕ) (b : Bool) → (if b && false then 0 else mask) ≡ mask
if_never mask true = refl
if_never mask false = refl

mask_loop_lem :
    (pdx_region_mask : ℕ → ℕ → Bool) (rounds : ℕ) (map : ℕ → Region) (i mask : ℕ)
    → mask < 2 ^ 32
    → mask_loop pdx_region_mask rounds map i mask
      ≡ (if some_masked pdx_region_mask rounds map i && (mask % 2 == 0) then 0 else mask)
unfolding mask_loop
mask_loop_lem pdx_region_mask zero map i mask small = refl
mask_loop_lem pdx_region_mask (suc rounds) map i mask small = elim (Bool-cases (mask == 0)) [
  | inl e ↦ rw e (sym (if_same _ mask (ground arith)))
  | inr e ↦
      rw (e, leaves_mask_lem pdx_region_mask mask (map i) small)
        (behind (is_masked pdx_region_mask (map i)) (mask % 2 == 0) refl
          (mask_loop_lem pdx_region_mask rounds map (i + 1) mask small))
]
  where
    behind :
        (masked even : Bool)
        → (mask % 2 == 0) ≡ even
        → mask_loop pdx_region_mask rounds map (i + 1) mask
          ≡ (if some_masked pdx_region_mask rounds map (i + 1) && (mask % 2 == 0) then 0 else mask)
        → mask_loop pdx_region_mask rounds map (i + 1) (if masked && even then 0 else mask)
          ≡ (if (masked || some_masked pdx_region_mask rounds map (i + 1)) && even then 0 else mask)
    behind true true parity rest = mask_loop_zero pdx_region_mask rounds map (i + 1)
    behind true false parity rest =
        rest
        ∙ ap (λ b. if some_masked pdx_region_mask rounds map (i + 1) && b then 0 else mask) parity
        ∙ if_never mask (some_masked pdx_region_mask rounds map (i + 1))
    behind false even parity rest =
        rest
        ∙ ap (λ b. if some_masked pdx_region_mask rounds map (i + 1) && b then 0 else mask) parity

-- With ACPI on and the SRAT parsed, srat_parse_regions hands a mask of 32 bits to pfn_pdx_hole_setup, less
-- thirteen bits; but 0 where the mask is even and pdx_region_mask answers true for some region of RAM.
pub srat_parse_regions-cleared :
    (pdx_region_mask : ℕ → ℕ → Bool) (region_mask nr_map : ℕ) (map : ℕ → Region)
    → region_mask < 2 ^ 32
    → srat_parse_regions false false pdx_region_mask region_mask nr_map map
      ≡ some (
          (if some_masked pdx_region_mask nr_map map 0 && (region_mask % 2 == 0)
            then 0
            else region_mask)
          / 2 ^ page_shift)
unfolding srat_parse_regions
srat_parse_regions-cleared pdx_region_mask region_mask nr_map map small =
    ap (λ m. some (m / 2 ^ page_shift))
      (mask_loop_lem pdx_region_mask nr_map map 0 region_mask small)

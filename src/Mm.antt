-- ===== src/Mm.antt =====
-- mm_verified.c: the references and types of pages.
use formal_verification_of_x.Prelude.{
  ℕ, ◌+◌, ◌-◌, ◌==◌, ◌!=◌, if◌then◌else◌, Bool, true, false, not, ◌&&◌, ◌||◌, bit_and, Option, none,
  some,
}
use formal_verification_of_x.Prelude.Int.{ℤ, pos, negsuc, ltb_ℤ}
pub mod References

-- What the file declares as ghost functions, and the functions of it whose bodies are empty, on the
-- state `S` of the pages. The likely and unlikely of that file are taken as the identity.
pub record PageOps (S : Type 0) : Type 0 where
  pub get_page_from_mfn : S → S × Bool
  pub get_page_type : S → S × ℤ
  pub put_page : S → S
  pub put_page_and_type : S → S
  pub page_set_owner : S → S
  pub free_domheap_page : S → S
  pub page_set_tlbflush_timestamp : S → S

abbrev pub is_zero : ℤ → Bool
is_zero (pos n) = n == 0
is_zero (negsuc n) = false

-- `opt_mmio_relax` is a local. `parsed` is what parse_bool answers, `is_all` whether strcmp answers 0.
pub parse_mmio_relax : Bool → ℤ → Bool → ℤ
parse_mmio_relax is_empty parsed is_all =
    let opt_mmio_relax : ℤ = if is_empty then pos 1 else parsed in
    if ltb_ℤ opt_mmio_relax (pos 0) && not is_all then negsuc 21 else pos 0

-- The return stands under the test: for a domain that is not an HVM one there is no value.
-- `max_pfn` is what arch_get_max_pfn answers.
pub domain_get_maximum_gpfn : Bool → ℕ → Option ℕ
domain_get_maximum_gpfn is_hvm_domain max_pfn = if is_hvm_domain then some max_pfn else none

module _ {S : Type 0} (ops : PageOps S) where
  -- From the call of _get_page_type on: `is_current` is whether the page is the local `current`.
  abbrev pub type_or_put : ℤ → Bool → Bool → S × ℤ → S × ℤ
  type_or_put partial preemptible is_current (s, rc) =
      if not (is_zero rc) && (not (ltb_ℤ partial (pos 0)) && (not preemptible || not is_current))
      then (ops.put_page s, rc)
      else (s, rc)

  abbrev pub type_if_got : ℤ → Bool → Bool → S × Bool → S × ℤ
  type_if_got partial preemptible is_current (s, got) =
      if not got
      then (s, negsuc 21)
      else type_or_put partial preemptible is_current (ops.get_page_type s)

  -- get_page_from_mfn is called only for a `partial` that is not negative.
  pub get_page_and_type_from_mfn : ℤ → Bool → Bool → S → S × ℤ
  get_page_and_type_from_mfn partial preemptible is_current s =
      if ltb_ℤ partial (pos 0)
      then type_or_put partial preemptible is_current (ops.get_page_type s)
      else type_if_got partial preemptible is_current (ops.get_page_from_mfn s)

  -- The two bits are those of the local `count_info`, which nothing writes. ASSERT_UNREACHABLE is empty.
  pub free_shared_domheap_page : Bool → S → S
  free_shared_domheap_page allocated s =
      let dropped = if allocated then ops.put_page s else s in
      ops.free_domheap_page (ops.page_set_owner dropped)

  -- shadow_mode_enabled returns 1.
  pub set_tlbflush_timestamp : ℕ → ℕ → S → S
  set_tlbflush_timestamp count_info pgc_page_table s =
      let shadow_mode_enabled : ℕ = 1 in
      if bit_and count_info pgc_page_table == 0 || shadow_mode_enabled == 0
      then ops.page_set_tlbflush_timestamp s
      else s

  pub put_data_page : Bool → S → S
  put_data_page writeable s = if writeable then ops.put_page_and_type s else ops.put_page s

  pub get_page_type_once : S → S × ℕ
  get_page_type_once s = let (s', rc) = ops.get_page_type s in (s', if is_zero rc then 1 else 0)

  pub get_page_type_preemptible : S → S × ℤ
  get_page_type_preemptible s = ops.get_page_type s

-- _put_page_type of that file returns 0.
pub put_page_type_preemptible : ℤ
put_page_type_preemptible = pos 0

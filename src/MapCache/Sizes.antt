-- ===== src/MapCache/Sizes.antt =====
-- The sizes that are tested, in pages.
use formal_verification_of_x.Prelude.{
  ℕ, ◌+◌, ◌-◌, ◌*◌, ◌/◌, ◌%◌, ◌^◌, ◌<◌, ◌≤◌, ◌≡◌, arith, ◌==◌, ◌!=◌, if◌then◌else◌, Bool-cases,
  true, false, inl, inr, bit_and,
}
use native.Mathlib.Nat.{mod-eq_of_lt, add-mod_right}
use formal_verification_of_x.Prelude.Masks.{bit_and-low}
use formal_verification_of_x.MapCache.{xc_page_size, round_up, xen_map_cache_unlocked}

-- The pages that the bytes from `address` on lie in; without bytes still one.
abbrev pub pages_touched : ℕ → ℕ → ℕ
pages_touched address size =
    if size == 0 then 1 else (address + size - 1) / xc_page_size - address / xc_page_size + 1

round_up_lem :
    (size : ℕ)
    → size + xc_page_size ≤ 2 ^ 64
    → round_up size ≡ xc_page_size * ((size + xc_page_size - 1) / xc_page_size)
round_up_lem size room = elim (Bool-cases (size % xc_page_size != 0)) [
  | inl e ↦
      let whole : size + xc_page_size + 2 ^ 64 - size % xc_page_size
          ≡ (size + xc_page_size - size % xc_page_size) + 2 ^ 64 =
        omega arith in
      let lt : size + xc_page_size - size % xc_page_size < 2 ^ 64 = ground arith in
      rw
        (
          e,
          whole,
          add-mod_right (size + xc_page_size - size % xc_page_size) (2 ^ 64),
          mod-eq_of_lt lt,
        )
        (ground arith)
  | inr e ↦ rw e (ground arith)
]

-- Where the size and the offset in a page come to no more than 2^64 less a page, test_bit_size is the
-- size of just the pages that the bytes lie in, and that of one page where there are no bytes.
pub test_bit_size-pages :
    (phys_addr size : ℕ)
    → size + phys_addr % xc_page_size + xc_page_size ≤ 2 ^ 64
    → (xen_map_cache_unlocked phys_addr size).test_bit_size
      ≡ xc_page_size * pages_touched phys_addr size
unfolding xen_map_cache_unlocked
test_bit_size-pages phys_addr size room = elim (Bool-cases (size == 0)) [
  | inl e ↦ let e' : (size != 0) ≡ false = ground arith in rw (e, e') (omega arith)
  | inr e ↦
      let e' : (size != 0) ≡ true = ground arith in
      let offset : bit_and phys_addr (xc_page_size - 1) ≡ phys_addr % xc_page_size =
        bit_and-low 16 phys_addr in
      let small : (size + phys_addr % xc_page_size) % 2 ^ 64 ≡ size + phys_addr % xc_page_size =
        mod-eq_of_lt (omega arith) in
      rw (e, e', offset, small, round_up_lem (size + phys_addr % xc_page_size) room) (ground arith)
]

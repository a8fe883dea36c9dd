-- ===== src/MapCache/Places.antt =====
-- The place of an address in the cache.
use formal_verification_of_x.Prelude.{
  ℕ, zero, suc, ◌+◌, ◌*◌, ◌/◌, ◌%◌, ◌^◌, ◌<◌, ◌≡◌, ◌↔◌, refl, ap, ◌∙◌, arith, leb, if◌then◌else◌,
  bit_and,
}
use native.Mathlib.Nat.{mod-eq_of_lt}
use formal_verification_of_x.Prelude.Bits.{digit, bit_and-pow}
use formal_verification_of_x.MapCache.{
  mcache_bucket_size, xen_map_cache_unlocked, test_bits, find_next_zero_bit, count_rounds,
}

-- The address that an index and an offset stand for.
abbrev pub place : ℕ → ℕ → ℕ
place index offset = index * mcache_bucket_size + offset

digit_20 : (x : ℕ) → digit 20 x ≡ x / 2 ^ 20 % 2
digit_20 x = omega arith

-- The index and the offset that are computed for an address stand for it exactly when it is a multiple
-- of twice the size of a bucket: the mask is the size, not the size less one.
pub place_iff :
    (phys_addr size : ℕ)
    → (place
          (xen_map_cache_unlocked phys_addr size).address_index
          ((xen_map_cache_unlocked phys_addr size).address_offset)
        ≡ phys_addr)
      ↔ (phys_addr % (2 * mcache_bucket_size) ≡ 0)
unfolding xen_map_cache_unlocked
place_iff phys_addr size =
    let offset : bit_and phys_addr mcache_bucket_size ≡ phys_addr / 2 ^ 20 % 2 * 2 ^ 20 =
      bit_and-pow 20 phys_addr ∙ ap (λ d. d * 2 ^ 20) (digit_20 phys_addr) in
    ((λ e. omega arith), (λ e. omega arith))

count_up_lem : (rounds cnt : ℕ) → cnt + rounds < 2 ^ 32 → count_rounds rounds cnt ≡ cnt + rounds
unfolding count_rounds
count_up_lem zero cnt lt = omega arith
count_up_lem (suc n) cnt lt =
    rw (mod-eq_of_lt {n = cnt + 1} {m = 2 ^ 32} (omega arith))
      (count_up_lem n (cnt + 1) (omega arith) ∙ omega arith)

-- The loop of find_next_zero_bit counts its rounds, and test_bits answers 1 exactly where the
-- sum of its numbers, cut to 64 bits, is no more than the 2^20 that find_next_zero_bit always returns.
pub test_bits_lem :
    (nr size end : ℕ)
    → end < 2 ^ 32
    → ((find_next_zero_bit end).0 ≡ end)
      × (test_bits nr size ≡ (if leb ((nr + size) % 2 ^ 64) mcache_bucket_size then 1 else 0))
unfolding find_next_zero_bit test_bits
test_bits_lem nr size end lt = (count_up_lem end 0 (omega arith) ∙ omega arith, refl)

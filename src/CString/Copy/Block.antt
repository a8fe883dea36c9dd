-- ===== src/CString/Copy/Block.antt =====
-- What the counted loops of memcpy and memset leave in memory.
use formal_verification_of_x.Prelude.{ℕ, zero, suc, ◌+◌, ◌%◌, ◌<◌, ◌≤◌, ◌≡◌, refl, ◌⊎◌, arith}
use formal_verification_of_x.CString.Memory.{Memory, store, IsCopy, IsFill}
use formal_verification_of_x.CString.Copy.{memcpy_loop, memcpy, memset_loop, memset}

memcpy_loop-kept :
    (n : ℕ) (m : Memory) (dest src a : ℕ)
    → (a < dest) ⊎ (dest + n ≤ a)
    → memcpy_loop m dest src n a ≡ m a
unfolding memcpy_loop
memcpy_loop-kept zero m dest src a h = refl
memcpy_loop-kept (suc n) m dest src a h =
    ground (arith, memcpy_loop-kept n (store m dest (m src)) (dest + 1) (src + 1) a)

memcpy_loop-copied :
    (n : ℕ) (m : Memory) (dest src : ℕ)
    → (dest ≤ src) ⊎ (src + n ≤ dest)
    → (i : ℕ) → i < n
    → memcpy_loop m dest src n (dest + i) ≡ m (src + i)
unfolding memcpy_loop
memcpy_loop-copied zero m dest src h i lt = absurd (omega arith)
memcpy_loop-copied (suc n) m dest src h zero lt =
    ground (arith, memcpy_loop-kept n (store m dest (m src)) (dest + 1) (src + 1) dest)
memcpy_loop-copied (suc n) m dest src h (suc i) lt = ground (
  arith,
  memcpy_loop-copied n (store m dest (m src)) (dest + 1) (src + 1) (omega arith) i (omega arith),
)

-- memcpy returns dest and copies exactly count bytes, all else untouched, when the blocks are
-- disjoint, and also when they overlap with dest not above src.
pub memcpy-IsCopy :
    (m : Memory) (dest src count : ℕ)
    → (dest ≤ src) ⊎ (src + count ≤ dest)
    → IsCopy m (memcpy m dest src count).0 dest src count × ((memcpy m dest src count).1 ≡ dest)
unfolding memcpy
memcpy-IsCopy m dest src count h = (
  record {
    copied = memcpy_loop-copied count m dest src h;
    kept_below = λ a lt. memcpy_loop-kept count m dest src a (omega arith);
    kept_above = λ a le. memcpy_loop-kept count m dest src a (omega arith);
  },
  refl,
)

memset_loop-kept :
    (n : ℕ) (m : Memory) (s c a : ℕ) → (a < s) ⊎ (s + n ≤ a) → memset_loop m s c n a ≡ m a
unfolding memset_loop
memset_loop-kept zero m s c a h = refl
memset_loop-kept (suc n) m s c a h =
    ground (arith, memset_loop-kept n (store m s (c % 256)) (s + 1) c a)

memset_loop-filled :
    (n : ℕ) (m : Memory) (s c i : ℕ) → i < n → memset_loop m s c n (s + i) ≡ c % 256
unfolding memset_loop
memset_loop-filled zero m s c i lt = absurd (omega arith)
memset_loop-filled (suc n) m s c zero lt =
    ground (arith, memset_loop-kept n (store m s (c % 256)) (s + 1) c s)
memset_loop-filled (suc n) m s c (suc i) lt =
    ground (arith, memset_loop-filled n (store m s (c % 256)) (s + 1) c i)

-- memset returns s and leaves the low byte of c in exactly the count bytes at s.
pub memset-IsFill :
    (m : Memory) (s c count : ℕ)
    → IsFill m (memset m s c count).0 s count (c % 256) × ((memset m s c count).1 ≡ s)
unfolding memset
memset-IsFill m s c count = (
  record {
    filled = λ i lt. memset_loop-filled count m s c i lt;
    kept_below = λ a lt. memset_loop-kept count m s c a (omega arith);
    kept_above = λ a le. memset_loop-kept count m s c a (omega arith);
  },
  refl,
)

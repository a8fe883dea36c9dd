-- ===== src/CString/Copy/Strings.antt =====
-- strcpy, strncpy and strcat copy as memcpy does, up to the terminator of the source.
use formal_verification_of_x.Prelude.{
  ℕ, zero, suc, ◌+◌, ◌-◌, ◌<◌, ◌≤◌, ◌≡◌, ◌⊎◌, arith, some, if◌then◌else◌, Bool-cases, inl, inr, ltb,
}
use formal_verification_of_x.CString.Memory.{Memory, store, IsString, IsString-tail, IsCopy}
use formal_verification_of_x.CString.Copy.{
  memcpy_loop, memcpy, strcpy_loop, strcpy, strncpy_loop, strncpy, strcat_end, strcat,
}
use formal_verification_of_x.CString.Copy.Block.{memcpy-IsCopy}

-- The rest of a string, behind a write that does not touch it.
IsString-store :
    (n : ℕ) (m : Memory) (src dest v : ℕ)
    → (dest ≤ src) ⊎ (src + suc (suc n) ≤ dest)
    → IsString m src (suc n)
    → IsString (store m dest v) (src + 1) n
IsString-store n m src dest v h s = record {
  chars = λ i lt. ground (arith, s.chars (suc i) (omega arith));
  terminator = ground (arith, s.terminator);
}

strcpy_loop-memcpy_loop :
    (fuel n : ℕ) (m : Memory) (dest src : ℕ)
    → n < fuel
    → (dest ≤ src) ⊎ (src + suc n ≤ dest)
    → IsString m src n
    → strcpy_loop fuel m dest src ≡ some (memcpy_loop m dest src (suc n))
unfolding strcpy_loop memcpy_loop
strcpy_loop-memcpy_loop zero n m dest src lt h s = absurd (omega arith)
strcpy_loop-memcpy_loop (suc fuel) zero m dest src lt h s = ground (arith, s.terminator)
strcpy_loop-memcpy_loop (suc fuel) (suc n) m dest src lt h s = ground (
  arith,
  s.chars 0 (omega arith),
  strcpy_loop-memcpy_loop fuel n (store m dest (m src)) (dest + 1) (src + 1) (omega arith)
      (omega arith) (IsString-store n m src dest (m src) h s),
)

-- With fuel above its length, strcpy of a string does what memcpy of its bytes and its terminator
-- does, when the blocks are disjoint or dest is not above src.
pub strcpy-memcpy :
    (fuel : ℕ) (m : Memory) (dest src n : ℕ)
    → n < fuel
    → (dest ≤ src) ⊎ (src + suc n ≤ dest)
    → IsString m src n
    → strcpy fuel m dest src ≡ some (memcpy m dest src (suc n))
unfolding strcpy memcpy
strcpy-memcpy fuel m dest src n lt h s = rw (strcpy_loop-memcpy_loop fuel n m dest src lt h s)

abbrev pub copied_by_strncpy : ℕ → ℕ → ℕ
copied_by_strncpy n count = if ltb n count then suc n else count

strncpy_loop-memcpy_loop :
    (count n : ℕ) (m : Memory) (dest src : ℕ)
    → (dest ≤ src) ⊎ (src + suc n ≤ dest)
    → IsString m src n
    → strncpy_loop m dest src count ≡ memcpy_loop m dest src (copied_by_strncpy n count)
unfolding strncpy_loop memcpy_loop
strncpy_loop-memcpy_loop zero n m dest src h s = ground arith
strncpy_loop-memcpy_loop (suc count) zero m dest src h s = ground (arith, s.terminator)
strncpy_loop-memcpy_loop (suc count) (suc n) m dest src h s = ground (
  arith,
  s.chars 0 (omega arith),
  strncpy_loop-memcpy_loop count n (store m dest (m src)) (dest + 1) (src + 1) (omega arith)
      (IsString-store n m src dest (m src) h s),
)

-- strncpy of a string of length n does what memcpy of n + 1 bytes does when n is below count, and
-- what memcpy of count bytes does when it is not: it stops behind the terminator, and pads nothing.
pub strncpy-memcpy :
    (m : Memory) (dest src n count : ℕ)
    → (dest ≤ src) ⊎ (src + suc n ≤ dest)
    → IsString m src n
    → strncpy m dest src count ≡ memcpy m dest src (if ltb n count then suc n else count)
unfolding strncpy memcpy
strncpy-memcpy m dest src n count h s = rw (strncpy_loop-memcpy_loop count n m dest src h s)

strcat_end-IsString :
    (fuel k : ℕ) (m : Memory) (dest : ℕ)
    → k < fuel
    → IsString m dest k
    → strcat_end fuel m dest ≡ some (dest + k)
unfolding strcat_end
strcat_end-IsString zero k m dest lt h = absurd (omega arith)
strcat_end-IsString (suc fuel) zero m dest lt h = ground (arith, h.terminator)
strcat_end-IsString (suc fuel) (suc k) m dest lt h = ground (
  arith,
  h.chars 0 (omega arith),
  strcat_end-IsString fuel k m (dest + 1) (omega arith) (IsString-tail k m dest h),
)

strcat-memcpy_loop :
    (fuel : ℕ) (m : Memory) (dest src k n : ℕ)
    → k < fuel
    → n < fuel
    → IsString m dest k
    → IsString m src n
    → (dest + k ≤ src) ⊎ (src + suc n ≤ dest + k)
    → strcat fuel m dest src ≡ some (memcpy_loop m (dest + k) src (suc n), dest)
unfolding strcat
strcat-memcpy_loop fuel m dest src k n lk ln d s h =
    rw (
      strcat_end-IsString fuel k m dest lk d,
      strcpy_loop-memcpy_loop fuel n m (dest + k) src ln h s,
    )

-- Memory after strcat: the string at dest has both parts, one behind the other.
pub record IsConcat (m m' : Memory) (dest src k n : ℕ) : Type 0 where
  pub joined : IsString m' dest (k + n)
  pub kept_prefix : (i : ℕ) → i < k → m' (dest + i) ≡ m (dest + i)
  pub appended : (i : ℕ) → i < n → m' (dest + k + i) ≡ m (src + i)
  pub kept_below : (a : ℕ) → a < dest → m' a ≡ m a
  pub kept_above : (a : ℕ) → dest + k + suc n ≤ a → m' a ≡ m a

IsCopy-IsConcat :
    (m m' : Memory) (dest src k n : ℕ)
    → IsString m dest k
    → IsString m src n
    → IsCopy m m' (dest + k) src (suc n)
    → IsConcat m m' dest src k n
IsCopy-IsConcat m m' dest src k n d s c = record {
  joined = record {
    chars = λ i lt. elim (Bool-cases (ltb i k)) [
      | inl old ↦ ground (arith, c.kept_below (dest + i) (ground arith), d.chars i (ground arith))
      | inr new ↦ split i (ground arith) lt
    ];
    terminator = ground (arith, c.copied n (omega arith), s.terminator);
  };
  kept_prefix = λ i lt. c.kept_below (dest + i) (omega arith);
  appended = λ i lt. c.copied i (omega arith);
  kept_below = λ a lt. c.kept_below a (omega arith);
  kept_above = λ a le. c.kept_above a le;
}
  where
    split : (i : ℕ) → k ≤ i → i < k + n → m' (dest + i) ≡ 0 → ⊥
    split i le lt =
        let e : dest + i ≡ dest + k + (i - k) = omega arith in
        rw (e, c.copied (i - k) (omega arith)) (s.chars (i - k) (omega arith))

-- With fuel above both lengths, strcat returns dest, leaves there the string of both texts, and
-- changes nothing outside it, when the source is disjoint from the part that is written or starts
-- no lower than it.
pub strcat-IsConcat :
    (fuel : ℕ) (m : Memory) (dest src k n : ℕ)
    → k < fuel
    → n < fuel
    → IsString m dest k
    → IsString m src n
    → (dest + k ≤ src) ⊎ (src + suc n ≤ dest + k)
    → (m' : Memory) × (strcat fuel m dest src ≡ some (m', dest)) × IsConcat m m' dest src k n
unfolding memcpy
strcat-IsConcat fuel m dest src k n lk ln d s h = (
  memcpy_loop m (dest + k) src (suc n),
  strcat-memcpy_loop fuel m dest src k n lk ln d s h,
  IsCopy-IsConcat m _ dest src k n d s (memcpy-IsCopy m (dest + k) src (suc n) h).0,
)

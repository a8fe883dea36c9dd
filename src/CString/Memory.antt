-- ===== src/CString/Memory.antt =====
-- The memory that the functions of string_verified.c read and write.
use formal_verification_of_x.Prelude.{ℕ, suc, arith, ◌+◌, ◌<◌, ◌≤◌, ◌≡◌, ◌≢◌, ◌==◌, if◌then◌else◌}

abbrev pub Memory : Type 0
Memory = ℕ → ℕ

-- `*p = v`.
abbrev pub store : Memory → ℕ → ℕ → Memory
store m p v a = if p == a then v else m a

-- The bytes at `s` are a string of length `n`: `n` bytes that are not zero, then a zero.
pub record IsString (m : Memory) (s n : ℕ) : Type 0 where
  pub chars : (i : ℕ) → i < n → m (s + i) ≢ 0
  pub terminator : m (s + n) ≡ 0

pub IsString-tail : (n : ℕ) (m : Memory) (s : ℕ) → IsString m s (suc n) → IsString m (s + 1) n
IsString-tail n m s h = record {
  chars = λ i lt. ground (arith, h.chars (suc i) (omega arith));
  terminator = ground (arith, h.terminator);
}

-- Memory `m'` has `n` bytes of `m` at `src` copied to `dest`, and is `m` everywhere else.
pub record IsCopy (m m' : Memory) (dest src n : ℕ) : Type 0 where
  pub copied : (i : ℕ) → i < n → m' (dest + i) ≡ m (src + i)
  pub kept_below : (a : ℕ) → a < dest → m' a ≡ m a
  pub kept_above : (a : ℕ) → dest + n ≤ a → m' a ≡ m a

-- Memory `m'` has the byte `v` in the `n` bytes at `s`, and is `m` everywhere else.
pub record IsFill (m m' : Memory) (s n v : ℕ) : Type 0 where
  pub filled : (i : ℕ) → i < n → m' (s + i) ≡ v
  pub kept_below : (a : ℕ) → a < s → m' a ≡ m a
  pub kept_above : (a : ℕ) → s + n ≤ a → m' a ≡ m a

-- Every cell holds a byte.
abbrev pub IsBytes : Memory → Type 0
IsBytes m = (a : ℕ) → m a < 256

-- The `n` bytes at `p` and at `q` agree.
abbrev pub IsSame : Memory → ℕ → ℕ → ℕ → Type 0
IsSame m p q n = (i : ℕ) → i < n → m (p + i) ≡ m (q + i)

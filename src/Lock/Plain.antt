-- ===== src/Lock/Plain.antt =====
-- The plain lock used by one thread at a time.
use formal_verification_of_x.Prelude.{ℕ, zero, suc, ◌+◌, ◌<◌, ◌≡◌, ◌≢◌, refl, arith, none, some}
use formal_verification_of_x.Prelude.Int.{pos, negsuc}
use formal_verification_of_x.Lock.{Lock, lock_init, lock_acquire, lock_try_acquire, lock_release}

lock_acquire-free :
    (fuel : ℕ) (seen : ℕ → Lock) (k j : ℕ)
    → j < fuel
    → (seen (k + j)).busy ≡ 0
    → lock_acquire fuel seen k ≡ some (record { busy = 1 }, pos 0)
unfolding lock_acquire
lock_acquire-free zero seen k j lt free = absurd (omega arith)
lock_acquire-free (suc fuel) seen k zero lt free = ground arith
lock_acquire-free (suc fuel) seen k (suc j) lt free =
    ground (arith, lock_acquire-free fuel seen (k + 1) j (omega arith) (ground arith))

lock_acquire-busy :
    (fuel : ℕ) (seen : ℕ → Lock) (k : ℕ)
    → ((j : ℕ) → j < fuel → (seen (k + j)).busy ≢ 0)
    → lock_acquire fuel seen k ≡ none
unfolding lock_acquire
lock_acquire-busy zero seen k held = refl
lock_acquire-busy (suc fuel) seen k held = ground (
  arith,
  held 0 (omega arith),
  lock_acquire-busy fuel seen (k + 1) (λ j lt. ground (arith, held (suc j) (omega arith))),
)

-- ___lock_acquire returns 0 with the lock busy as soon as one of its rounds finds the lock free,
-- and does not return while every round finds it busy.
pub lock_acquire_lem :
    (fuel : ℕ) (seen : ℕ → Lock)
    → ((j : ℕ)
        → j < fuel
        → (seen j).busy ≡ 0
        → lock_acquire fuel seen 0 ≡ some (record { busy = 1 }, pos 0))
      × (((j : ℕ) → j < fuel → (seen j).busy ≢ 0) → lock_acquire fuel seen 0 ≡ none)
lock_acquire_lem fuel seen = (
  λ j lt free. lock_acquire-free fuel seen 0 j lt (ground arith),
  λ held. lock_acquire-busy fuel seen 0 (λ j lt. ground (arith, held j lt)),
)

-- Whatever the lock was: after ___lock_try_acquire a second try returns -1 and changes nothing, and
-- after ___lock_release a try returns 0 and leaves the lock busy.
pub lock_try_acquire-exclusive :
    (lock : Lock)
    → let held = (lock_try_acquire lock).0 in
      (lock_try_acquire held ≡ (held, negsuc 0))
      × ((lock_try_acquire (lock_release held).0).1 ≡ pos 0)
      × ((lock_try_acquire (lock_release held).0).0.busy ≡ 1)
      × (lock_try_acquire (lock_init lock).0 ≡ lock_try_acquire (lock_release lock).0)
unfolding lock_try_acquire lock_release lock_init
lock_try_acquire-exclusive lock = (ground arith, ground arith, ground arith, ground arith)

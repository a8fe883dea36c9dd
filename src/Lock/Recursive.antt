-- ===== src/Lock/Recursive.antt =====
-- The recursive lock: nesting by its owner, and everybody else kept out.
use formal_verification_of_x.Prelude.{
  ℕ, zero, suc, ◌+◌, ◌≡◌, ◌≢◌, ◌⊎◌, inl, inr, refl, arith, none, some, Option, false,
}
use formal_verification_of_x.Prelude.Int.{pos, negsuc}
use mathlib.Core.Option
use formal_verification_of_x.Lock.{
  RecursiveLock, take_when_free, lock_acquire_recursive, lock_try_acquire_recursive,
  lock_release_recursive, increment,
}

-- Nobody owns the lock and its count is 0, or thread `t` owns it with a positive count.
abbrev pub IsFreeOrOwned : ℕ → RecursiveLock → Type 0
IsFreeOrOwned t lock =
    ((lock.owner ≡ none) × (lock.count ≡ pos 0))
    ⊎ ((lock.owner ≡ some t) × ((n : ℕ) × (lock.count ≡ pos (suc n))))

-- The lock after an acquire by `t` that finds the lock as it is now.
abbrev pub entered : ℕ → RecursiveLock → RecursiveLock
entered t lock = record { owner = some t; count = increment lock.count }

lock_acquire_recursive-entered :
    (t : ℕ) (lock : RecursiveLock)
    → IsFreeOrOwned t lock
    → lock_acquire_recursive t 1 lock (λ _. lock) ≡ some (entered t lock, pos 0)
unfolding lock_acquire_recursive take_when_free
lock_acquire_recursive-entered t lock (inl (o, c)) = ground arith
lock_acquire_recursive-entered t lock (inr (o, (n, c))) = ground arith

release-entered :
    (t : ℕ) (lock : RecursiveLock)
    → IsFreeOrOwned t lock
    → lock_release_recursive t (entered t lock)
      ≡ record { lock = lock; result = pos 0; bug = false }
unfolding lock_release_recursive
release-entered t lock (inl (o, c)) = ground arith
release-entered t lock (inr (o, (n, c))) = ground arith

-- From a lock that is free or the thread's own, ___lock_acquire_recursive returns 0 in its first
-- round, and ___lock_release_recursive then gives back the very lock there was, with no bug told.
pub lock_release_recursive-acquire :
    (t : ℕ) (lock : RecursiveLock)
    → IsFreeOrOwned t lock
    → (held : RecursiveLock) × (lock_acquire_recursive t 1 lock (λ _. lock) ≡ some (held, pos 0))
      × (held.owner ≡ some t)
      × (lock_release_recursive t held ≡ record { lock = lock; result = pos 0; bug = false })
lock_release_recursive-acquire t lock h =
    (entered t lock, lock_acquire_recursive-entered t lock h, refl, release-entered t lock h)

-- While a thread owns the lock, ___lock_try_acquire_recursive returns -1 and changes nothing,
-- whoever calls it, its owner included, and another thread's ___lock_acquire_recursive stays in
-- its loop.
pub lock_try_acquire_recursive_owned :
    (t u fuel : ℕ) (lock : RecursiveLock)
    → lock.owner ≡ some t
    → (lock_try_acquire_recursive u lock ≡ (lock, negsuc 0))
      × (u ≢ t → lock_acquire_recursive u fuel lock (λ _. lock) ≡ none)
unfolding lock_try_acquire_recursive lock_acquire_recursive take_when_free
lock_try_acquire_recursive_owned t u fuel lock o = (ground arith, λ d. ground (arith, spins fuel 0))
  where
    spins : (fuel k : ℕ) → take_when_free u fuel (λ _. lock) k ≡ none
    spins zero k = refl
    spins (suc fuel) k = ground (arith, spins fuel (k + 1))

-- `n` acquires by `t`, one inside the other, and `n` releases.
abbrev pub acquire_next : ℕ → Option RecursiveLock → Option RecursiveLock
acquire_next t none = none
acquire_next t (some lock) = Option.map (λ r. r.0) (lock_acquire_recursive t 1 lock (λ _. lock))

abbrev pub acquire_times : ℕ → ℕ → RecursiveLock → Option RecursiveLock
acquire_times zero t lock = some lock
acquire_times (suc n) t lock = acquire_next t (acquire_times n t lock)

abbrev pub release_times : ℕ → ℕ → RecursiveLock → RecursiveLock
release_times zero t lock = lock
release_times (suc n) t lock = release_times n t (lock_release_recursive t lock).lock

enter_times : ℕ → ℕ → RecursiveLock → RecursiveLock
enter_times zero t lock = lock
enter_times (suc n) t lock = entered t (enter_times n t lock)

enter_times-IsFreeOrOwned :
    (n t : ℕ) (lock : RecursiveLock) → IsFreeOrOwned t lock → IsFreeOrOwned t (enter_times n t lock)
unfolding enter_times
enter_times-IsFreeOrOwned zero t lock h = h
enter_times-IsFreeOrOwned (suc n) t lock h = again (enter_times-IsFreeOrOwned n t lock h)
  where
    again : {inner : RecursiveLock} → IsFreeOrOwned t inner → IsFreeOrOwned t (entered t inner)
    again (inl (o, c)) = inr (refl, (0, ground arith))
    again (inr (o, (k, c))) = inr (refl, (suc k, ground arith))

acquire_times-enter_times :
    (n t : ℕ) (lock : RecursiveLock)
    → IsFreeOrOwned t lock
    → acquire_times n t lock ≡ some (enter_times n t lock)
unfolding enter_times
acquire_times-enter_times zero t lock h = refl
acquire_times-enter_times (suc n) t lock h = rw (
  acquire_times-enter_times n t lock h,
  lock_acquire_recursive-entered t (enter_times n t lock) (enter_times-IsFreeOrOwned n t lock h),
)

release_times-enter_times :
    (n t : ℕ) (lock : RecursiveLock)
    → IsFreeOrOwned t lock
    → release_times n t (enter_times n t lock) ≡ lock
unfolding enter_times
release_times-enter_times zero t lock h = refl
release_times-enter_times (suc n) t lock h =
    rw (release-entered t (enter_times n t lock) (enter_times-IsFreeOrOwned n t lock h))
      (release_times-enter_times n t lock h)

-- From a lock that is free or the thread's own, any number of nested acquires succeeds, and as many
-- releases give back the very lock there was.
pub release_times-acquire_times :
    (n t : ℕ) (lock : RecursiveLock)
    → IsFreeOrOwned t lock
    → (held : RecursiveLock) × (acquire_times n t lock ≡ some held)
      × (release_times n t held ≡ lock)
release_times-acquire_times n t lock h = (
  enter_times n t lock,
  acquire_times-enter_times n t lock h,
  release_times-enter_times n t lock h,
)

-- ===== src/Lock.antt =====
-- lock_verified.c: the plain lock and the recursive lock of Mini-OS. The wait queue has no state
-- here: init_waitqueue_head and wake_up have empty bodies in that file.
use formal_verification_of_x.Prelude.{
  ℕ, zero, suc, ◌+◌, ◌==◌, if◌then◌else◌, Bool, true, false, not, Option, none, some,
}
use formal_verification_of_x.Prelude.Int.{ℤ, pos, negsuc}
pub mod Plain
pub mod Recursive
pub mod Threads
pub mod Nested

-- `struct _lock_t`.
pub record Lock : Type 0 where
  pub busy : ℕ

pub lock_init : Lock → Lock × ℤ
lock_init lock = (record lock { busy = 0 }, pos 0)

-- `while (1) { ...; if (!lock->busy) break; ... } lock->busy = 1;`: `seen k` is the lock as the
-- test of round `k` finds it, since other threads run between the rounds.
pub lock_acquire : ℕ → (ℕ → Lock) → ℕ → Option (Lock × ℤ)
lock_acquire zero seen k = none
lock_acquire (suc fuel) seen k =
    let rest = lock_acquire fuel seen (k + 1) in
    if (seen k).busy == 0 then some (record { busy = 1 }, pos 0) else rest

pub lock_try_acquire : Lock → Lock × ℤ
lock_try_acquire lock =
    if lock.busy == 0 then (record lock { busy = 1 }, pos 0) else (lock, negsuc 0)

pub lock_release : Lock → Lock × ℤ
lock_release lock = (record lock { busy = 0 }, pos 0)

-- `struct _lock_recursive_t`: `owner` is a thread or NULL, `count` an int.
pub record RecursiveLock : Type 0 where
  pub owner : Option ℕ
  pub count : ℤ

-- `owner == t`.
abbrev pub is_owner : Option ℕ → ℕ → Bool
is_owner none t = false
is_owner (some o) t = o == t

-- `!owner`.
abbrev pub is_null : Option ℕ → Bool
is_null none = true
is_null (some o) = false

abbrev pub increment : ℤ → ℤ
increment (pos n) = pos (suc n)
increment (negsuc zero) = pos 0
increment (negsuc (suc n)) = negsuc n

abbrev pub decrement : ℤ → ℤ
decrement (pos zero) = negsuc 0
decrement (pos (suc n)) = pos n
decrement (negsuc n) = negsuc (suc n)

abbrev pub is_nonzero : ℤ → Bool
is_nonzero (pos n) = not (n == 0)
is_nonzero (negsuc n) = true

pub lock_init_recursive : RecursiveLock → RecursiveLock × ℤ
lock_init_recursive lock = (record lock { owner = none }, pos 0)

-- `current` is what get_current() answers; `seen k` is the lock as round `k` of the loop finds it.
pub take_when_free : ℕ → ℕ → (ℕ → RecursiveLock) → ℕ → Option RecursiveLock
take_when_free current zero seen k = none
take_when_free current (suc fuel) seen k =
    let rest = take_when_free current fuel seen (k + 1) in
    if is_null (seen k).owner
    then some (record { owner = some current; count = (seen k).count })
    else rest

abbrev pub count_up : Option RecursiveLock → Option (RecursiveLock × ℤ)
count_up none = none
count_up (some lock) = some (record lock { count = increment lock.count }, pos 0)

pub lock_acquire_recursive :
    ℕ → ℕ → RecursiveLock → (ℕ → RecursiveLock) → Option (RecursiveLock × ℤ)
lock_acquire_recursive current fuel lock seen =
    if is_owner lock.owner current
    then count_up (some lock)
    else count_up (take_when_free current fuel seen 0)

pub lock_try_acquire_recursive : ℕ → RecursiveLock → RecursiveLock × ℤ
lock_try_acquire_recursive current lock =
    if is_null lock.owner
    then (record { owner = some current; count = increment lock.count }, pos 0)
    else (lock, negsuc 0)

-- The lock, the result and what BUG_ON is told; BUG_ON itself has an empty body.
pub lock_release_recursive :
    ℕ → RecursiveLock → record { lock : RecursiveLock; result : ℤ; bug : Bool }
lock_release_recursive current lock =
    let count = decrement lock.count in
    let bug = not (is_owner lock.owner current) in
    if is_nonzero count
    then record { lock = record lock { count = count }; result = pos 0; bug = bug }
    else record { lock = record { owner = none; count = count }; result = pos 0; bug = bug }

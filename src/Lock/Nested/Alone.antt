-- ===== src/Lock/Nested/Alone.antt =====
-- A thread that runs through one of the functions without a switch, against the function itself.
use formal_verification_of_x.Prelude.{
  ℕ, zero, suc, ◌+◌, ◌-◌, ◌≡◌, ◌≢◌, refl, sym, ap, arith, Bool, true, false, ◌==◌, if◌then◌else◌,
  inl, inr, Option, none, some, ◌⊎◌, subst,
}
use mathlib.Core.Option.{some-injective, none-ne-some}
use formal_verification_of_x.Prelude.Int.{pos, pos_part}
use formal_verification_of_x.Lock.{
  RecursiveLock, is_null, take_when_free, lock_acquire_recursive, lock_try_acquire_recursive,
  lock_release_recursive,
}
use formal_verification_of_x.Lock.Nested.{
  Place, outside, counting, NestedMove, call_again, call_acquire, save, see_free, own, restore,
  add_one, call_try, try_owned, try_free, try_take, try_add, return_try, call_release,
  call_release_last, save_release, clear, return_released,
}

-- Moves of one thread, one behind the other, with interrupts turned off and back.
pub data Moves (me : ℕ) : ℕ → ℕ → Bool → Place → ℕ → ℕ → Bool → Place → Type 0 where
  done : {o c : ℕ} {f : Bool} {p : Place} → Moves me o c f p o c f p
  next :
      {o c o' c' o'' c'' : ℕ} {f f' f'' : Bool} {p p' p'' : Place}
      → NestedMove true me o c f p o' c' f' p'
      → Moves me o' c' f' p' o'' c'' f'' p''
      → Moves me o c f p o'' c'' f'' p''

-- The pointer of an owner.
abbrev pub pointer : Option ℕ → ℕ
pointer none = 0
pointer (some i) = suc i

-- From the lock `lock` to the lock `lock'`, and from `d` acquires to `d'`.
abbrev pub Runs : ℕ → Bool → RecursiveLock → ℕ → RecursiveLock → ℕ → Type 0
Runs me f lock d lock' d' =
    Moves me (pointer lock.owner) (pos_part lock.count) f (outside d) (pointer lock'.owner)
      (pos_part lock'.count) f (outside d')

abbrev pub lock_of : Option ℕ → ℕ → RecursiveLock
lock_of owner c = record { owner = owner; count = pos c }

pub count_next :
    (me o c d : ℕ) (f : Bool) → Moves me o c f (counting d) o (suc c) f (outside (d + 1))
count_next me o c d f =
    let e : c + 1 ≡ suc c = omega arith in
    subst (λ (n : ℕ). Moves me o c f (counting d) o n f (outside (d + 1))) e (next add_one done)

try_alone :
    (me c d : ℕ) (f : Bool) (owner : Option ℕ)
    → Runs me f
        (lock_of owner c)
        d
        (lock_try_acquire_recursive me (lock_of owner c)).0
        (if is_null owner then d + 1 else d)
unfolding lock_try_acquire_recursive
try_alone me c d f none =
    let e : c + 1 ≡ suc c = omega arith in
    subst (λ (n : ℕ). Moves me 0 c f (outside d) (suc me) n f (outside (d + 1))) e
      (next call_try (next (try_free refl) (next try_take (next try_add (next return_try done)))))
try_alone me c d f (some o) = next call_try (next (try_owned (omega arith)) (next return_try done))

acquire_alone :
    (me c d : ℕ) (f : Bool) (owner : Option ℕ)
    → (owner ≡ none) ⊎ (owner ≡ some me)
    → (lock' : RecursiveLock) × (lock_acquire_recursive me 1
          (lock_of owner c)
          (λ _. lock_of owner c)
        ≡ some (lock', pos 0))
      × Runs me f (lock_of owner c) d lock' (d + 1)
unfolding lock_acquire_recursive take_when_free
acquire_alone me c d f none h = (
  record { owner = some me; count = pos (suc c) },
  refl,
  next (call_acquire (omega arith))
      (next save (next (see_free refl) (next own (next restore (count_next me (suc me) c d f))))),
)
acquire_alone me c d f (some o) (inl e) = absurd (none-ne-some o (sym e))
acquire_alone me c d f (some o) (inr e) =
    let same : o ≡ me = some-injective o me e in
    let test : (o == me) ≡ true = ground arith in
    (
      record { owner = some o; count = pos (suc c) },
      rw test refl,
      next (call_again (ap suc same)) (count_next me (suc o) c d f),
    )

pub release_last : (me d o : ℕ) (f : Bool) → Moves me o 1 f (outside (suc d)) 0 0 f (outside d)
release_last me d o f =
    let e : suc d - 1 ≡ d = omega arith in
    subst (λ (n : ℕ). Moves me o 1 f (outside (suc d)) 0 0 f (outside n)) e
      (next (call_release_last (omega arith) refl)
        (next save_release (next clear (next return_released done))))

pub release_inner :
    (me c d o : ℕ) (f : Bool) → c ≢ 0 → Moves me o (suc c) f (outside (suc d)) o c f (outside d)
release_inner me c d o f ne =
    let e : suc c - 1 ≡ c = omega arith in
    let e' : suc d - 1 ≡ d = omega arith in
    subst (λ (n : ℕ). Moves me o (suc c) f (outside (suc d)) o n f (outside d)) e
      (subst (λ (n : ℕ). Moves me o (suc c) f (outside (suc d)) o (suc c - 1) f (outside n)) e'
        (next (call_release (omega arith) (omega arith)) done))

release_alone :
    (me c d : ℕ) (f : Bool) (owner : Option ℕ)
    → Runs me f
        (lock_of owner (suc c))
        (suc d)
        (lock_release_recursive me (lock_of owner (suc c))).lock
        d
unfolding lock_release_recursive
release_alone me zero d f owner = release_last me d (pointer owner) f
release_alone me (suc c) d f owner =
    let test : (suc c == 0) ≡ false = ground arith in
    rw test (release_inner me (suc c) d (pointer owner) f (omega arith))

-- A thread that runs without a switch: ___lock_try_acquire_recursive on any lock,
-- ___lock_acquire_recursive on one that is free or its own, and ___lock_release_recursive, with an acquire
-- left and a positive count, are moves from the lock before the function to the one behind it. They end
-- with interrupts as they were, and with one acquire more where the lock was taken and one less
-- where it was released.
pub run_alone :
    (me c d : ℕ) (f : Bool) (any owner : Option ℕ)
    → (owner ≡ none) ⊎ (owner ≡ some me)
    → Runs me f
        (lock_of any c)
        d
        (lock_try_acquire_recursive me (lock_of any c)).0
        (if is_null any then d + 1 else d)
      × ((lock' : RecursiveLock) × (lock_acquire_recursive me 1
              (lock_of owner c)
              (λ _. lock_of owner c)
            ≡ some (lock', pos 0))
          × Runs me f (lock_of owner c) d lock' (d + 1))
      × Runs me f
          (lock_of owner (suc c))
          (suc d)
          (lock_release_recursive me (lock_of owner (suc c))).lock
          d
run_alone me c d f any owner h =
    (try_alone me c d f any, acquire_alone me c d f owner h, release_alone me c d f owner)

-- ===== src/Lock/Threads/Invariant.antt =====
-- What holds between any two statements of the lock's code, whichever threads have run.
use formal_verification_of_x.Prelude.{ℕ, ◌≡◌, ◌≢◌, refl, arith, Bool, true, false}
use formal_verification_of_x.Lock.Threads.{
  Pc, outside, owning, spinning, spin_test, spin_set, try_test, try_set, leave_with, leave_without,
  release_clear, release_leave, System, update, Move, call_acquire, see_busy, see_free, take,
  try_busy, try_free, try_take, call_release_any, clear, return_released, Step, switch, move,
  start_system, Reach, start, later,
}

-- From the write of `busy = 1` to that of `busy = 0`.
abbrev pub holds : Pc → Bool
holds owning = true
holds (leave_with s) = true
holds (release_clear s) = true
holds _ = false

-- Between local_irq_save and local_irq_restore.
abbrev pub masked : Pc → Bool
masked outside = false
masked owning = false
masked spinning = false
masked _ = true

-- Behind a test that found the lock free.
abbrev pub found_free : Pc → Bool
found_free (spin_set s) = true
found_free (try_set s) = true
found_free _ = false

-- What local_irq_save saw: interrupts were on.
abbrev pub saved_on : Pc → Bool
saved_on (spin_test s) = s
saved_on (spin_set s) = s
saved_on (try_test s) = s
saved_on (try_set s) = s
saved_on (leave_with s) = s
saved_on (leave_without s) = s
saved_on (release_clear s) = s
saved_on (release_leave s) = s
saved_on _ = true

pub record Inv (s : System) : Type 0 where
  pub exclusive : (i j : ℕ) → holds (s.pc i) ≡ true → holds (s.pc j) ≡ true → i ≡ j
  pub flagged : (i : ℕ) → holds (s.pc i) ≡ true → s.busy ≡ 1
  pub seen_free : (i : ℕ) → found_free (s.pc i) ≡ true → s.busy ≡ 0
  pub alone : (i : ℕ) → masked (s.pc i) ≡ true → i ≡ s.running
  pub off : (i : ℕ) → masked (s.pc i) ≡ true → s.irqs_on ≡ false
  pub on : masked (s.pc s.running) ≡ false → s.irqs_on ≡ true
  pub saved : (i : ℕ) → saved_on (s.pc i) ≡ true
  pub owned : s.busy ≢ 0 → (i : ℕ) × (holds (s.pc i) ≡ true)

-- The field that a split on the mover's move needs.
abbrev Found : {b b' : ℕ} {f f' : Bool} {p p' : Pc} → Move true true b f p b' f' p' → Type 0
Found {b} (see_busy _) = b ≢ 0
Found {b} (see_free _) = b ≡ 0
Found {b} (try_busy _) = b ≢ 0
Found {b} (try_free _) = b ≡ 0
Found (call_release_any _) = ◌≡◌ {A = Bool} true false
Found _ = Unit

found : {b b' : ℕ} {f f' : Bool} {p p' : Pc} (mv : Move true true b f p b' f' p') → Found mv
found (see_busy h) = h
found (see_free h) = h
found (try_busy h) = h
found (try_free h) = h
found (call_release_any h) = h
found _ = tt

module _ {s : System} (inv : Inv s) where
  open inv use {exclusive, flagged, seen_free, alone, off, on, saved, owned}

  abbrev r : ℕ
  r = s.running

  Move-exclusive :
      {b' : ℕ} {f' : Bool} {p p' : Pc}
      → Move true true s.busy s.irqs_on p b' f' p'
      → s.pc r ≡ p
      → (i j : ℕ) → holds (update s.pc r p' i) ≡ true
      → holds (update s.pc r p' j) ≡ true
      → i ≡ j
  Move-exclusive call_acquire e i j hi hj = ground (arith, exclusive i j)
  Move-exclusive mv e i j hi hj = ground (
    arith,
    found mv,
    exclusive i j,
    exclusive i r,
    exclusive j r,
    flagged i,
    flagged j,
    seen_free r,
  )

  Move-flagged :
      {b' : ℕ} {f' : Bool} {p p' : Pc}
      → Move true true s.busy s.irqs_on p b' f' p'
      → s.pc r ≡ p
      → (i : ℕ) → holds (update s.pc r p' i) ≡ true
      → b' ≡ 1
  Move-flagged call_acquire e i hi = ground (arith, flagged i)
  Move-flagged mv e i hi = ground (arith, found mv, flagged i, flagged r, exclusive i r)

  Move-seen_free :
      {b' : ℕ} {f' : Bool} {p p' : Pc}
      → Move true true s.busy s.irqs_on p b' f' p'
      → s.pc r ≡ p
      → (i : ℕ) → found_free (update s.pc r p' i) ≡ true
      → b' ≡ 0
  Move-seen_free call_acquire e i hi = ground (arith, seen_free i)
  Move-seen_free mv e i hi = ground (arith, found mv, seen_free i, alone i)

  Move-alone :
      {b' : ℕ} {f' : Bool} {p p' : Pc}
      → Move true true s.busy s.irqs_on p b' f' p'
      → s.pc r ≡ p
      → (i : ℕ) → masked (update s.pc r p' i) ≡ true
      → i ≡ r
  Move-alone call_acquire e i hi = ground (arith, alone i)
  Move-alone mv e i hi = ground (arith, alone i)

  Move-off :
      {b' : ℕ} {f' : Bool} {p p' : Pc}
      → Move true true s.busy s.irqs_on p b' f' p'
      → s.pc r ≡ p
      → (i : ℕ) → masked (update s.pc r p' i) ≡ true
      → f' ≡ false
  Move-off call_acquire e i hi = ground (arith, off i, alone i)
  Move-off mv e i hi = ground (arith, off r, alone i)

  Move-on :
      {b' : ℕ} {f' : Bool} {p p' : Pc}
      → Move true true s.busy s.irqs_on p b' f' p'
      → s.pc r ≡ p
      → masked (update s.pc r p' r) ≡ false
      → f' ≡ true
  Move-on call_acquire e h = ground (arith, on)
  Move-on mv e h = ground (arith, on, saved r)

  Move-saved :
      {b' : ℕ} {f' : Bool} {p p' : Pc}
      → Move true true s.busy s.irqs_on p b' f' p'
      → s.pc r ≡ p
      → (i : ℕ) → saved_on (update s.pc r p' i) ≡ true
  Move-saved call_acquire e i = ground (arith, saved i)
  Move-saved mv e i = ground (arith, saved i, saved r, on)

  Move-owned :
      {b' : ℕ} {f' : Bool} {p p' : Pc}
      → Move true true s.busy s.irqs_on p b' f' p'
      → s.pc r ≡ p
      → b' ≢ 0
      → (i : ℕ) × (holds (update s.pc r p' i) ≡ true)
  Move-owned take e h = (r, ground arith)
  Move-owned try_take e h = (r, ground arith)
  Move-owned clear e h = absurd (h refl)
  Move-owned return_released e h = let (i, hi) = owned h in (i, ground (arith, exclusive i r))
  Move-owned mv e h = let (i, hi) = owned h in (i, ground arith)

  Move-Inv :
      {b' : ℕ} {f' : Bool} {p' : Pc}
      → Move true true s.busy s.irqs_on (s.pc r) b' f' p'
      → Inv (record { busy = b'; running = r; irqs_on = f'; pc = update s.pc r p' })
  Move-Inv mv = record {
    exclusive = Move-exclusive mv refl;
    flagged = Move-flagged mv refl;
    seen_free = Move-seen_free mv refl;
    alone = Move-alone mv refl;
    off = Move-off mv refl;
    on = Move-on mv refl;
    saved = Move-saved mv refl;
    owned = Move-owned mv refl;
  }

  switch-Inv : (j : ℕ) → s.irqs_on ≡ true → Inv (record s { running = j })
  switch-Inv j h = record {
    exclusive = exclusive;
    flagged = flagged;
    seen_free = seen_free;
    alone = λ i m. cc (off i m);
    off = off;
    on = λ m. h;
    saved = saved;
    owned = owned;
  }

Inv-start : Inv start_system
Inv-start = record {
  exclusive = λ i j hi hj. cc;
  flagged = λ i hi. cc;
  seen_free = λ i hi. cc;
  alone = λ i m. cc;
  off = λ i m. cc;
  on = λ m. refl;
  saved = λ i. refl;
  owned = λ h. absurd (h refl);
}

pub Step-Inv : {s t : System} → Step true true s t → Inv s → Inv t
Step-Inv (switch j h) inv = switch-Inv inv j h
Step-Inv (move mv) inv = Move-Inv inv mv

pub Reach-Inv : {s : System} → Reach true true s → Inv s
Reach-Inv start = Inv-start
Reach-Inv (later r st) = Step-Inv st (Reach-Inv r)

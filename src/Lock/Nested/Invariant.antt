-- ===== src/Lock/Nested/Invariant.antt =====
-- What holds between any two statements of the recursive lock's code, whichever threads have run.
use formal_verification_of_x.Prelude.{ℕ, suc, ◌-◌, ◌≡◌, ◌≢◌, refl, arith, Bool, true, false}
use formal_verification_of_x.Lock.Nested.{
  Place, NestedSystem, put_place, NestedMove, call_again, call_acquire, see_owned, see_free,
  call_try, try_owned, try_free, call_release, call_release_last, NestedStep, switch, move,
  start_nested, NestedReach, start, later,
}
use formal_verification_of_x.Lock.Nested.Places.{
  depth, owns, masked, found_free, leaving, saved_on, NestedInv,
}

-- What a test of the move found.
abbrev Found :
    {me o c o' c' : ℕ} {f f' : Bool} {p p' : Place}
    → NestedMove true me o c f p o' c' f' p'
    → Type 0
Found {me} {o} (call_again _) = o ≡ suc me
Found {me} {o} (call_acquire _) = o ≢ suc me
Found {me} {o} (see_owned _) = o ≢ 0
Found {me} {o} (see_free _) = o ≡ 0
Found {me} {o} (try_owned _) = o ≢ 0
Found {me} {o} (try_free _) = o ≡ 0
Found {me} {o} {c} (call_release {d = d} _ _) = (d ≢ 0) × (c - 1 ≢ 0)
Found {me} {o} {c} (call_release_last {d = d} _ _) = (d ≢ 0) × (c - 1 ≡ 0)
Found _ = Unit

found :
    {me o c o' c' : ℕ} {f f' : Bool} {p p' : Place} (mv : NestedMove true me o c f p o' c' f' p')
    → Found mv
found (call_again h) = h
found (call_acquire h) = h
found (see_owned h) = h
found (see_free h) = h
found (try_owned h) = h
found (try_free h) = h
found (call_release h h') = (h, h')
found (call_release_last h h') = (h, h')
found _ = tt

module _ {s : NestedSystem} (inv : NestedInv s) where
  open inv use {named, held, counted, uncounted, shallow, emptied, seen_free, alone, off, on, saved}

  abbrev r : ℕ
  r = s.running

  NestedMove-named :
      {o' c' : ℕ} {f' : Bool} {p p' : Place}
      → NestedMove true r s.owner s.count s.irqs_on p o' c' f' p'
      → s.place r ≡ p
      → (i : ℕ) → owns (put_place s.place r p' i) ≡ true
      → o' ≡ suc i
  NestedMove-named call_try e i hi = ground (arith, named i, named r, seen_free r, shallow r)
  NestedMove-named mv e i hi = ground (arith, found mv, named i, named r, seen_free r, shallow r)

  NestedMove-counted :
      {o' c' : ℕ} {f' : Bool} {p p' : Place}
      → NestedMove true r s.owner s.count s.irqs_on p o' c' f' p'
      → s.place r ≡ p
      → (i : ℕ) → owns (put_place s.place r p' i) ≡ true
      → c' ≡ depth (put_place s.place r p' i)
  NestedMove-counted call_try e i hi =
      ground
        (arith, named i, named r, counted i, counted r, uncounted, seen_free r, shallow r, held r)
  NestedMove-counted mv e i hi = ground (
    arith,
    found mv,
    named i,
    named r,
    counted i,
    counted r,
    uncounted,
    seen_free r,
    shallow r,
    held r,
  )

  NestedMove-uncounted :
      {o' c' : ℕ} {f' : Bool} {p p' : Place}
      → NestedMove true r s.owner s.count s.irqs_on p o' c' f' p'
      → s.place r ≡ p
      → o' ≡ 0
      → c' ≡ 0
  NestedMove-uncounted call_try e h =
      ground (arith, named r, counted r, uncounted, emptied r, shallow r)
  NestedMove-uncounted mv e h =
      ground (arith, found mv, named r, counted r, uncounted, emptied r, shallow r)

  NestedMove-shallow :
      {o' c' : ℕ} {f' : Bool} {p p' : Place}
      → NestedMove true r s.owner s.count s.irqs_on p o' c' f' p'
      → s.place r ≡ p
      → (i : ℕ) → owns (put_place s.place r p' i) ≡ false
      → depth (put_place s.place r p' i) ≡ 0
  NestedMove-shallow call_try e i hi = ground (arith, named r, shallow i, shallow r, emptied r)
  NestedMove-shallow mv e i hi = ground (arith, found mv, named r, shallow i, shallow r, emptied r)

  NestedMove-emptied :
      {o' c' : ℕ} {f' : Bool} {p p' : Place}
      → NestedMove true r s.owner s.count s.irqs_on p o' c' f' p'
      → s.place r ≡ p
      → (i : ℕ) → leaving (put_place s.place r p' i) ≡ true
      → depth (put_place s.place r p' i) ≡ 0
  NestedMove-emptied call_try e i hi = ground (arith, emptied i, emptied r, counted r)
  NestedMove-emptied mv e i hi = ground (arith, found mv, emptied i, emptied r, counted r)

  NestedMove-seen_free :
      {o' c' : ℕ} {f' : Bool} {p p' : Place}
      → NestedMove true r s.owner s.count s.irqs_on p o' c' f' p'
      → s.place r ≡ p
      → (i : ℕ) → found_free (put_place s.place r p' i) ≡ true
      → o' ≡ 0
  NestedMove-seen_free call_try e i hi = ground (arith, seen_free i, seen_free r, alone i)
  NestedMove-seen_free mv e i hi = ground (arith, found mv, seen_free i, seen_free r, alone i)

  NestedMove-alone :
      {o' c' : ℕ} {f' : Bool} {p p' : Place}
      → NestedMove true r s.owner s.count s.irqs_on p o' c' f' p'
      → s.place r ≡ p
      → (i : ℕ) → masked (put_place s.place r p' i) ≡ true
      → i ≡ r
  NestedMove-alone call_try e i hi = ground (arith, alone i)
  NestedMove-alone mv e i hi = ground (arith, found mv, alone i)

  NestedMove-off :
      {o' c' : ℕ} {f' : Bool} {p p' : Place}
      → NestedMove true r s.owner s.count s.irqs_on p o' c' f' p'
      → s.place r ≡ p
      → (i : ℕ) → masked (put_place s.place r p' i) ≡ true
      → f' ≡ false
  NestedMove-off call_try e i hi = ground (arith, off i, off r, alone i)
  NestedMove-off mv e i hi = ground (arith, found mv, off i, off r, alone i)

  NestedMove-on :
      {o' c' : ℕ} {f' : Bool} {p p' : Place}
      → NestedMove true r s.owner s.count s.irqs_on p o' c' f' p'
      → s.place r ≡ p
      → masked (put_place s.place r p' r) ≡ false
      → f' ≡ true
  NestedMove-on call_try e h = ground (arith, on, saved r)
  NestedMove-on mv e h = ground (arith, found mv, on, saved r)

  NestedMove-saved :
      {o' c' : ℕ} {f' : Bool} {p p' : Place}
      → NestedMove true r s.owner s.count s.irqs_on p o' c' f' p'
      → s.place r ≡ p
      → (i : ℕ) → saved_on (put_place s.place r p' i) ≡ true
  NestedMove-saved call_try e i = ground (arith, saved i, saved r, on)
  NestedMove-saved mv e i = ground (arith, found mv, saved i, saved r, on)

  NestedMove-held :
      {o' c' : ℕ} {f' : Bool} {p p' : Place}
      → NestedMove true r s.owner s.count s.irqs_on p o' c' f' p'
      → s.place r ≡ p
      → (i : ℕ) → o' ≡ suc i
      → owns (put_place s.place r p' i) ≡ true
  NestedMove-held call_try e i hi = ground (arith, held i, held r)
  NestedMove-held mv e i hi = ground (arith, found mv, held i, held r, seen_free r, counted r)

  NestedMove-NestedInv :
      {o' c' : ℕ} {f' : Bool} {p' : Place}
      → NestedMove true r s.owner s.count s.irqs_on (s.place r) o' c' f' p'
      → NestedInv (record {
        owner = o';
        count = c';
        running = r;
        irqs_on = f';
        place = put_place s.place r p';
      })
  NestedMove-NestedInv mv = record {
    named = NestedMove-named mv refl;
    held = NestedMove-held mv refl;
    counted = NestedMove-counted mv refl;
    uncounted = NestedMove-uncounted mv refl;
    shallow = NestedMove-shallow mv refl;
    emptied = NestedMove-emptied mv refl;
    seen_free = NestedMove-seen_free mv refl;
    alone = NestedMove-alone mv refl;
    off = NestedMove-off mv refl;
    on = NestedMove-on mv refl;
    saved = NestedMove-saved mv refl;
  }

  switch-NestedInv : (j : ℕ) → s.irqs_on ≡ true → NestedInv (record s { running = j })
  switch-NestedInv j h = record {
    named = named;
    held = held;
    counted = counted;
    uncounted = uncounted;
    shallow = shallow;
    emptied = emptied;
    seen_free = seen_free;
    alone = λ i m. cc (off i m);
    off = off;
    on = λ m. h;
    saved = saved;
  }

NestedInv-start : NestedInv (start_nested 0)
NestedInv-start = record {
  named = λ i hi. ground arith;
  held = λ i h. absurd (omega arith);
  counted = λ i hi. ground arith;
  uncounted = λ h. refl;
  shallow = λ i hi. refl;
  emptied = λ i hi. refl;
  seen_free = λ i hi. refl;
  alone = λ i m. cc;
  off = λ i m. cc;
  on = λ m. refl;
  saved = λ i. refl;
}

pub NestedStep-NestedInv : {s t : NestedSystem} → NestedStep true s t → NestedInv s → NestedInv t
NestedStep-NestedInv (switch j h) inv = switch-NestedInv inv j h
NestedStep-NestedInv (move mv) inv = NestedMove-NestedInv inv mv

pub NestedReach-NestedInv : {s : NestedSystem} → NestedReach true 0 s → NestedInv s
NestedReach-NestedInv start = NestedInv-start
NestedReach-NestedInv (later r st) = NestedStep-NestedInv st (NestedReach-NestedInv r)

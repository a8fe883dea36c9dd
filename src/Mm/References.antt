-- ===== src/Mm/References.antt =====
-- The references that get_page_and_type_from_mfn takes and gives back.
use formal_verification_of_x.Prelude.{
  ℕ, ◌+◌, ◌-◌, ◌≡◌, refl, ◌∙◌, arith, if◌then◌else◌, Bool, true, false, not, ◌&&◌, ◌||◌, inl, inr,
  Bool-cases,
}
use formal_verification_of_x.Prelude.Int.{ℤ, pos, negsuc, ltb_ℤ}
use formal_verification_of_x.Mm.{PageOps, is_zero, type_or_put, get_page_and_type_from_mfn}

-- How the operations count the references of the page.
pub record IsCounted {S : Type 0} (ops : PageOps S) (refs : S → ℕ) : Type 0 where
  pub got :
      (s : S)
      → refs (ops.get_page_from_mfn s).0
        ≡ (if (ops.get_page_from_mfn s).1 then refs s + 1 else refs s)
  pub typed : (s : S) → refs (ops.get_page_type s).0 ≡ refs s
  pub put : (s : S) → refs (ops.put_page s) ≡ refs s - 1

module _ {S : Type 0} (ops : PageOps S) (refs : S → ℕ) where
  -- The references behind the call, from those before: `keeps` is whether the caller is left with one
  -- although the type was refused.
  abbrev pub referenced : ℤ → Bool → ℕ → Bool → ℤ → ℕ
  referenced partial keeps before got rc =
      if ltb_ℤ partial (pos 0)
      then before
      else if not got
      then before
      else if is_zero rc
      then before + 1
      else if keeps
      then before + 1
      else before

  -- What the call answers on a state.
  abbrev pub answered : ℤ → S → ℤ
  answered partial s =
      if ltb_ℤ partial (pos 0)
      then (ops.get_page_type s).1
      else if (ops.get_page_from_mfn s).1
      then (ops.get_page_type (ops.get_page_from_mfn s).0).1
      else negsuc 21

  type_or_put-answer :
      (partial : ℤ) (preemptible is_current : Bool) (t : S) (rc : ℤ)
      → (type_or_put ops partial preemptible is_current (t, rc)).1 ≡ rc
  type_or_put-answer partial preemptible is_current t rc =
      elim (Bool-cases (
        not (is_zero rc) && (not (ltb_ℤ partial (pos 0)) && (not preemptible || not is_current)))) [
          | inl e ↦ rw e
          | inr e ↦ rw e
        ]

  refs-type_or_put :
      (partial : ℤ) (preemptible is_current : Bool) (t : S) (rc : ℤ)
      → IsCounted ops refs
      → refs (type_or_put ops partial preemptible is_current (t, rc)).0 ≡ (
          if ltb_ℤ partial (pos 0)
          then refs t
          else if is_zero rc
          then refs t
          else if preemptible && is_current
          then refs t
          else refs t - 1)
  refs-type_or_put partial preemptible is_current t rc h = elim (Bool-cases (is_zero rc)) [
    | inl z ↦ elim (Bool-cases (ltb_ℤ partial (pos 0))) [ inl n ↦ rw (z, n) | inr n ↦ rw (z, n) ]
    | inr z ↦ elim (Bool-cases (ltb_ℤ partial (pos 0))) [
      | inl n ↦ rw (z, n)
      | inr n ↦ elim (Bool-cases preemptible) [
        | inl p ↦ elim (Bool-cases is_current) [
          | inl c ↦ rw (z, n, p, c)
          | inr c ↦ rw (z, n, p, c) (h.put t)
        ]
        | inr p ↦ rw (z, n, p) (h.put t)
      ]
    ]
  ]

  get_page_and_type-negative :
      (partial : ℤ) (preemptible is_current : Bool) (s : S)
      → ltb_ℤ partial (pos 0) ≡ true
      → get_page_and_type_from_mfn ops partial preemptible is_current s
        ≡ type_or_put ops partial preemptible is_current (ops.get_page_type s)
  unfolding get_page_and_type_from_mfn
  get_page_and_type-negative partial preemptible is_current s n = rw n

  get_page_and_type-refused :
      (partial : ℤ) (preemptible is_current : Bool) (s : S)
      → ltb_ℤ partial (pos 0) ≡ false
      → (ops.get_page_from_mfn s).1 ≡ false
      → get_page_and_type_from_mfn ops partial preemptible is_current s
        ≡ ((ops.get_page_from_mfn s).0, negsuc 21)
  unfolding get_page_and_type_from_mfn
  get_page_and_type-refused partial preemptible is_current s n g = rw (n, g)

  get_page_and_type-got :
      (partial : ℤ) (preemptible is_current : Bool) (s : S)
      → ltb_ℤ partial (pos 0) ≡ false
      → (ops.get_page_from_mfn s).1 ≡ true
      → get_page_and_type_from_mfn ops partial preemptible is_current s
        ≡ type_or_put ops partial preemptible is_current
            (ops.get_page_type (ops.get_page_from_mfn s).0)
  unfolding get_page_and_type_from_mfn
  get_page_and_type-got partial preemptible is_current s n g = rw (n, g)

  -- On operations that count references: with a negative `partial` the call asks for the type alone, answers
  -- what that answers and leaves the page's references as they were. Else, without the page -EINVAL is
  -- answered and they are as they were; with it, the type is asked for on it and its answer is the call's,
  -- and there is one more reference where the type was had, and where it was refused for the preempted
  -- current page; and as many as before where it was refused for another.
  pub get_page_and_type-referenced :
      (partial : ℤ) (preemptible is_current : Bool) (s : S)
      → IsCounted ops refs
      → let (s', rc) = get_page_and_type_from_mfn ops partial preemptible is_current s in
        (rc ≡ answered partial s)
        × (refs s'
            ≡ referenced partial
                (preemptible && is_current)
                (refs s)
                (ops.get_page_from_mfn s).1
                rc)
  get_page_and_type-referenced partial preemptible is_current s h =
      let got = ops.get_page_from_mfn s in
      elim (Bool-cases (ltb_ℤ partial (pos 0))) [
        | inl n ↦
            let typed = ops.get_page_type s in
            let answer = type_or_put-answer partial preemptible is_current typed.0 typed.1 in
            rw (get_page_and_type-negative partial preemptible is_current s n) (
              answer ∙ rw n refl,
              refs-type_or_put partial preemptible is_current typed.0 typed.1 h ∙ rw n (h.typed s),
            )
        | inr n ↦ elim (Bool-cases got.1) [
          | inr g ↦
              rw (get_page_and_type-refused partial preemptible is_current s n g)
                (rw (n, g) refl, h.got s ∙ rw (n, g))
          | inl g ↦
              let typed = ops.get_page_type got.0 in
              let answer = type_or_put-answer partial preemptible is_current typed.0 typed.1 in
              let same = h.typed got.0 in
              let more : refs got.0 ≡ refs s + 1 = h.got s ∙ rw g in
              let back : refs s + 1 - 1 ≡ refs s = omega arith in
              rw (get_page_and_type-got partial preemptible is_current s n g) (
                answer ∙ rw (n, g) refl,
                refs-type_or_put partial preemptible is_current typed.0 typed.1 h
                    ∙ rw (answer, n, g, same, more, back),
              )
        ]
      ]

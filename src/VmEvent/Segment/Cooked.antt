-- ===== src/VmEvent/Segment/Cooked.antt =====
-- What hvm_get_segment_register makes of the hardware's answer.
use formal_verification_of_x.Prelude.{
  ℕ, ◌/◌, sym, subst, ◌%◌, ◌^◌, ◌<◌, ◌≡◌, ◌≢◌, refl, arith, ◌==◌, leb, if◌then◌else◌, not, ◌&&◌,
  ◌||◌, bit_or, inl, inr, Bool, true, false, Bool-cases, ◌∙◌, ==_iff,
}
use formal_verification_of_x.Prelude.Bits.{digit-bit_or}
use formal_verification_of_x.VmEvent.Segment.{
  X86Segment, es, cs, ss, ds, fs, gs, tr, ldtr, gdtr, idtr, seg_none, SegmentRegister, attr,
  set_attr, is_x86_user_segment, fix_segment, cook, cook_present, hvm_get_segment_register,
}

-- The bit fields keep what is written through `attr`.
pub attr-set_attr : (w : ℕ) (reg : SegmentRegister) → w < 2 ^ 16 → attr (set_attr w reg) ≡ w
unfolding attr set_attr
attr-set_attr w reg lt = omega arith

-- The segments that are always present.
abbrev pub is_system_present : X86Segment → Bool
is_system_present cs = true
is_system_present tr = true
is_system_present gdtr = true
is_system_present idtr = true
is_system_present _ = false

-- A present segment as the code that reads it expects it.
pub record IsCooked (seg : X86Segment) (reg : SegmentRegister) : Type 0 where
  pub system : reg.s ≡ (if is_x86_user_segment seg then 1 else 0)
  pub granular : reg.g ≡ (if leb (2 ^ 20) reg.limit then 1 else 0)
  pub accessed : is_x86_user_segment seg ≡ true → reg.type % 2 ≡ 1

-- The two tables, which are no segments.
abbrev pub is_table : X86Segment → Bool
is_table gdtr = true
is_table idtr = true
is_table _ = false

-- The type of a segment that was `x`: with the busy bit in the task register, and with the accessed bit in a
-- user segment that is present.
abbrev pub typed : X86Segment → Bool → ℕ → ℕ
typed tr present x = bit_or x 2
typed seg present x = if is_x86_user_segment seg && present then bit_or x 1 else x

abbrev pub is_stack : X86Segment → Bool
is_stack ss = true
is_stack _ = false

-- Every field of the register behind the call, from those of the hardware's answer `h`.
pub record IsFields (seg : X86Segment) (h reg : SegmentRegister) : Type 0 where
  pub present : reg.p ≡ (if is_system_present seg then 1 else h.p)
  pub type : reg.type ≡ (if is_table seg then 0 else typed seg (not (reg.p == 0)) h.type)
  pub dpl : reg.dpl ≡ (if is_table seg then 0 else h.dpl)
  pub avl : reg.avl ≡ (if is_table seg then 0 else h.avl)
  pub l : reg.l ≡ (if is_table seg then 0 else h.l)
  pub db : reg.db ≡ (if is_table seg || is_stack seg && reg.p == 0 then 0 else h.db)
  pub pad : reg.pad ≡ (if is_table seg then 0 else h.pad)
  pub absent : reg.p ≡ 0 → (reg.s ≡ h.s) × (reg.g ≡ h.g)

-- The address part of a segment, which no case changes.
pub record IsSameSegment (a b : SegmentRegister) : Type 0 where
  pub sel : a.sel ≡ b.sel
  pub limit : a.limit ≡ b.limit
  pub base : a.base ≡ b.base

cook-IsCooked : (seg : X86Segment) (reg : SegmentRegister) → IsCooked seg (cook seg reg)
unfolding cook
cook-IsCooked seg reg = elim (Bool-cases (is_x86_user_segment seg)) [
  | inl user ↦ record {
    system = rw user refl;
    granular = rw user (ground arith);
    accessed = λ _. rw user (ground (arith, digit-bit_or 0 reg.type 1));
  }
  | inr other ↦ record {
    system = rw other refl;
    granular = rw other (ground arith);
    accessed = λ h. absurd (cc (rw other at h));
  }
]

cook-IsSameSegment :
    (seg : X86Segment) (reg : SegmentRegister)
    → IsSameSegment reg (cook seg reg) × ((cook seg reg).p ≡ reg.p)
unfolding cook
cook-IsSameSegment seg reg = elim (Bool-cases (is_x86_user_segment seg)) [
  | inl user ↦ rw user (record { sel = refl; limit = refl; base = refl }, refl)
  | inr other ↦ rw other (record { sel = refl; limit = refl; base = refl }, refl)
]

fix_segment-IsSameSegment :
    (seg : X86Segment) (reg : SegmentRegister) → IsSameSegment reg (fix_segment seg reg)
unfolding fix_segment set_attr
fix_segment-IsSameSegment es reg = record { sel = refl; limit = refl; base = refl }
fix_segment-IsSameSegment cs reg = record { sel = refl; limit = refl; base = refl }
fix_segment-IsSameSegment ss reg = elim (Bool-cases (reg.p == 0)) [
  | inl absent ↦ rw absent (record { sel = refl; limit = refl; base = refl })
  | inr present ↦ rw present (record { sel = refl; limit = refl; base = refl })
]
fix_segment-IsSameSegment ds reg = record { sel = refl; limit = refl; base = refl }
fix_segment-IsSameSegment fs reg = record { sel = refl; limit = refl; base = refl }
fix_segment-IsSameSegment gs reg = record { sel = refl; limit = refl; base = refl }
fix_segment-IsSameSegment tr reg = record { sel = refl; limit = refl; base = refl }
fix_segment-IsSameSegment ldtr reg = record { sel = refl; limit = refl; base = refl }
fix_segment-IsSameSegment gdtr reg = record { sel = refl; limit = refl; base = refl }
fix_segment-IsSameSegment idtr reg = record { sel = refl; limit = refl; base = refl }
fix_segment-IsSameSegment seg_none reg = record { sel = refl; limit = refl; base = refl }

fix_segment_present :
    (seg : X86Segment) (reg : SegmentRegister)
    → is_system_present seg ≡ true
    → (fix_segment seg reg).p ≡ 1
unfolding fix_segment set_attr
fix_segment_present cs reg h = refl
fix_segment_present tr reg h = refl
fix_segment_present gdtr reg h = refl
fix_segment_present idtr reg h = refl
fix_segment_present es reg h = absurd (cc h)
fix_segment_present ss reg h = absurd (cc h)
fix_segment_present ds reg h = absurd (cc h)
fix_segment_present fs reg h = absurd (cc h)
fix_segment_present gs reg h = absurd (cc h)
fix_segment_present ldtr reg h = absurd (cc h)
fix_segment_present seg_none reg h = absurd (cc h)

absent_stack :
    (h : SegmentRegister)
    → (h.p == 0) ≡ true
    → cook_present ss (fix_segment ss h) ≡ record h { db = 0 }
unfolding fix_segment cook_present
absent_stack h gone = rw (gone, gone) refl

present_stack :
    (h : SegmentRegister)
    → (h.p == 0) ≡ false
    → cook_present ss (fix_segment ss h)
      ≡ record h { s = 1; g = if h.limit / 2 ^ 20 == 0 then 0 else 1; type = bit_or h.type 1 }
unfolding fix_segment cook_present cook
present_stack h there = rw (there, there) refl

stack-IsFields : (h : SegmentRegister) → IsFields ss h (cook_present ss (fix_segment ss h))
stack-IsFields h = elim (Bool-cases (h.p == 0)) [
  | inl gone ↦ subst (IsFields ss h) (sym (absent_stack h gone)) (record {
    present = refl;
    type = rw gone refl;
    dpl = refl;
    avl = refl;
    l = refl;
    db = rw gone refl;
    pad = refl;
    absent = λ z. (refl, refl);
  })
  | inr there ↦ subst (IsFields ss h) (sym (present_stack h there)) (record {
    present = refl;
    type = rw there refl;
    dpl = refl;
    avl = refl;
    l = refl;
    db = rw there refl;
    pad = refl;
    absent = λ z. absurd (ground arith);
  })
]

cook_present-IsFields :
    (seg : X86Segment) (h : SegmentRegister) → IsFields seg h (cook_present seg (fix_segment seg h))
unfolding fix_segment cook_present cook set_attr
cook_present-IsFields es h = elim (Bool-cases (h.p == 0)) [
  | inl gone ↦ record {
    present = rw gone refl;
    type = rw (gone, gone) refl;
    dpl = rw gone refl;
    avl = rw gone refl;
    l = rw gone refl;
    db = rw gone refl;
    pad = rw gone refl;
    absent = λ z. rw gone (refl, refl);
  }
  | inr there ↦ record {
    present = rw there refl;
    type = rw (there, there) refl;
    dpl = rw there refl;
    avl = rw there refl;
    l = rw there refl;
    db = rw there refl;
    pad = rw there refl;
    absent = λ z. let z' : h.p ≡ 0 = rw there at z in absurd (ground arith);
  }
]
cook_present-IsFields cs h = record {
  present = refl;
  type = refl;
  dpl = refl;
  avl = refl;
  l = refl;
  db = refl;
  pad = refl;
  absent = λ z. absurd (omega arith);
}
cook_present-IsFields ss h = stack-IsFields h
cook_present-IsFields ds h = elim (Bool-cases (h.p == 0)) [
  | inl gone ↦ record {
    present = rw gone refl;
    type = rw (gone, gone) refl;
    dpl = rw gone refl;
    avl = rw gone refl;
    l = rw gone refl;
    db = rw gone refl;
    pad = rw gone refl;
    absent = λ z. rw gone (refl, refl);
  }
  | inr there ↦ record {
    present = rw there refl;
    type = rw (there, there) refl;
    dpl = rw there refl;
    avl = rw there refl;
    l = rw there refl;
    db = rw there refl;
    pad = rw there refl;
    absent = λ z. let z' : h.p ≡ 0 = rw there at z in absurd (ground arith);
  }
]
cook_present-IsFields fs h = elim (Bool-cases (h.p == 0)) [
  | inl gone ↦ record {
    present = rw gone refl;
    type = rw (gone, gone) refl;
    dpl = rw gone refl;
    avl = rw gone refl;
    l = rw gone refl;
    db = rw gone refl;
    pad = rw gone refl;
    absent = λ z. rw gone (refl, refl);
  }
  | inr there ↦ record {
    present = rw there refl;
    type = rw (there, there) refl;
    dpl = rw there refl;
    avl = rw there refl;
    l = rw there refl;
    db = rw there refl;
    pad = rw there refl;
    absent = λ z. let z' : h.p ≡ 0 = rw there at z in absurd (ground arith);
  }
]
cook_present-IsFields gs h = elim (Bool-cases (h.p == 0)) [
  | inl gone ↦ record {
    present = rw gone refl;
    type = rw (gone, gone) refl;
    dpl = rw gone refl;
    avl = rw gone refl;
    l = rw gone refl;
    db = rw gone refl;
    pad = rw gone refl;
    absent = λ z. rw gone (refl, refl);
  }
  | inr there ↦ record {
    present = rw there refl;
    type = rw (there, there) refl;
    dpl = rw there refl;
    avl = rw there refl;
    l = rw there refl;
    db = rw there refl;
    pad = rw there refl;
    absent = λ z. let z' : h.p ≡ 0 = rw there at z in absurd (ground arith);
  }
]
cook_present-IsFields tr h = record {
  present = refl;
  type = refl;
  dpl = refl;
  avl = refl;
  l = refl;
  db = refl;
  pad = refl;
  absent = λ z. absurd (omega arith);
}
cook_present-IsFields ldtr h = elim (Bool-cases (h.p == 0)) [
  | inl gone ↦ record {
    present = rw gone refl;
    type = rw gone refl;
    dpl = rw gone refl;
    avl = rw gone refl;
    l = rw gone refl;
    db = rw gone refl;
    pad = rw gone refl;
    absent = λ z. rw gone (refl, refl);
  }
  | inr there ↦ record {
    present = rw there refl;
    type = rw there refl;
    dpl = rw there refl;
    avl = rw there refl;
    l = rw there refl;
    db = rw there refl;
    pad = rw there refl;
    absent = λ z. let z' : h.p ≡ 0 = rw there at z in absurd (ground arith);
  }
]
cook_present-IsFields gdtr h = record {
  present = refl;
  type = refl;
  dpl = refl;
  avl = refl;
  l = refl;
  db = refl;
  pad = refl;
  absent = λ z. absurd (omega arith);
}
cook_present-IsFields idtr h = record {
  present = refl;
  type = refl;
  dpl = refl;
  avl = refl;
  l = refl;
  db = refl;
  pad = refl;
  absent = λ z. absurd (omega arith);
}
cook_present-IsFields seg_none h = elim (Bool-cases (h.p == 0)) [
  | inl gone ↦ record {
    present = rw gone refl;
    type = rw gone refl;
    dpl = rw gone refl;
    avl = rw gone refl;
    l = rw gone refl;
    db = rw gone refl;
    pad = rw gone refl;
    absent = λ z. rw gone (refl, refl);
  }
  | inr there ↦ record {
    present = rw there refl;
    type = rw there refl;
    dpl = rw there refl;
    avl = rw there refl;
    l = rw there refl;
    db = rw there refl;
    pad = rw there refl;
    absent = λ z. let z' : h.p ≡ 0 = rw there at z in absurd (ground arith);
  }
]

-- Whatever the hardware answers: selector, limit and base stay; %cs, %tr, the GDT and the IDT come out
-- present; and a segment that is present has the s bit of its kind, the g bit exactly for a limit of
-- 2^20 or more, and, when it is a user segment, the accessed bit. Of the other bits, %tr gets the busy bit in its
-- type, an absent %ss loses its db bit, the two tables come out with none, and all else is as the hardware
-- answered, the s and g bits of an absent segment too.
pub hvm_get_segment_register-IsCooked :
    (hardware : X86Segment → SegmentRegister → SegmentRegister) (seg : X86Segment)
    (reg : SegmentRegister)
    → IsSameSegment (hardware seg reg) (hvm_get_segment_register hardware seg reg)
      × (is_system_present seg ≡ true → (hvm_get_segment_register hardware seg reg).p ≡ 1)
      × ((hvm_get_segment_register hardware seg reg).p ≢ 0
          → IsCooked seg (hvm_get_segment_register hardware seg reg))
      × IsFields seg (hardware seg reg) (hvm_get_segment_register hardware seg reg)
unfolding hvm_get_segment_register cook_present
hvm_get_segment_register-IsCooked hardware seg reg =
    let fixed = fix_segment seg (hardware seg reg) in
    let same = fix_segment-IsSameSegment seg (hardware seg reg) in
    let present = fix_segment_present seg (hardware seg reg) in
    let cooked = cook-IsSameSegment seg fixed in
    let fields = cook_present-IsFields seg (hardware seg reg) in
    elim (Bool-cases (fixed.p == 0)) [
      | inl absent ↦
          rw absent
            (same, present, λ p. absurd (p ((==_iff fixed.p 0).0 absent)), rw absent at fields)
      | inr there ↦ rw there (
        record {
          sel = same.sel ∙ cooked.0.sel;
          limit = same.limit ∙ cooked.0.limit;
          base = same.base ∙ cooked.0.base;
        },
        (λ h. cooked.1 ∙ present h),
        (λ p. cook-IsCooked seg fixed),
        rw there at fields,
      )
    ]

-- ===== src/VmEvent/Segment/Packed.antt =====
-- What of a segment is left when it is packed for a VM event.
use formal_verification_of_x.Prelude.{
  ℕ, ◌+◌, ◌-◌, ◌*◌, ◌%◌, ◌^◌, ◌<◌, ◌≡◌, ◌≢◌, refl, arith, ◌==◌, leb, if◌then◌else◌, inl, inr, ◌⊎◌,
  true, Option, none, some, Bool-cases, ◌∙◌, sym, subst,
}
use formal_verification_of_x.VmEvent.{Selector, Registers}
use formal_verification_of_x.VmEvent.Segment.{
  X86Segment, es, cs, ss, ds, fs, gs, tr, ldtr, gdtr, idtr, seg_none, SegmentRegister,
  is_x86_user_segment, hvm_get_segment_register, selector, pack, vm_event_pack_segment_register,
}
use formal_verification_of_x.VmEvent.Segment.Cooked.{IsCooked, hvm_get_segment_register-IsCooked}

-- The selector register of a segment in the packed registers.
abbrev pub selector_of : X86Segment → Registers → Option Selector
selector_of es reg = some reg.es
selector_of cs reg = some reg.cs
selector_of ss reg = some reg.ss
selector_of ds reg = some reg.ds
selector_of fs reg = some reg.fs
selector_of gs reg = some reg.gs
selector_of _ reg = none

-- The limit in bytes that a packed limit stands for, in pages where `g` is set.
abbrev pub expand : ℕ → ℕ → ℕ
expand g limit = if g == 0 then limit else limit * 2 ^ 12 + (2 ^ 12 - 1)

-- A limit that the processor can have: below 2^20, or 2^32 at most in whole pages.
abbrev pub IsLimit : ℕ → Type 0
IsLimit limit = (limit < 2 ^ 20) ⊎ ((limit < 2 ^ 32) × (limit % 2 ^ 12 ≡ 2 ^ 12 - 1))

selector-expand :
    (seg : X86Segment) (reg : SegmentRegister)
    → IsCooked seg reg
    → IsLimit reg.limit
    → expand reg.g (selector reg).limit ≡ reg.limit
unfolding selector
selector-expand seg reg h (inl small) =
    let no_pages : reg.g ≡ 0 = ground (arith, h.granular) in rw no_pages (ground arith)
selector-expand seg reg h (inr (lt, whole)) = elim (Bool-cases (leb (2 ^ 20) reg.limit)) [
  | inl large ↦ let pages : reg.g ≡ 1 = ground (arith, h.granular) in rw pages (ground arith)
  | inr small ↦ let no_pages : reg.g ≡ 0 = ground (arith, h.granular) in rw no_pages (ground arith)
]

selector_of-pack :
    (seg : X86Segment) (read : SegmentRegister) (reg : Registers)
    → is_x86_user_segment seg ≡ true
    → selector_of seg (pack seg read reg) ≡ some (selector read)
unfolding pack
selector_of-pack es read reg h = refl
selector_of-pack cs read reg h = refl
selector_of-pack ss read reg h = refl
selector_of-pack ds read reg h = refl
selector_of-pack fs read reg h = refl
selector_of-pack gs read reg h = refl
selector_of-pack tr read reg h = absurd (cc h)
selector_of-pack ldtr read reg h = absurd (cc h)
selector_of-pack gdtr read reg h = absurd (cc h)
selector_of-pack idtr read reg h = absurd (cc h)
selector_of-pack seg_none read reg h = absurd (cc h)

pack_others :
    (seg other : X86Segment) (read : SegmentRegister) (reg : Registers)
    → seg ≢ other
    → selector_of other (pack seg read reg) ≡ selector_of other reg
unfolding pack
pack_others es es read reg ne = absurd (ne refl)
pack_others es _ read reg ne = refl
pack_others cs cs read reg ne = absurd (ne refl)
pack_others cs _ read reg ne = refl
pack_others ss ss read reg ne = absurd (ne refl)
pack_others ss _ read reg ne = refl
pack_others ds ds read reg ne = absurd (ne refl)
pack_others ds _ read reg ne = refl
pack_others fs fs read reg ne = absurd (ne refl)
pack_others fs _ read reg ne = refl
pack_others gs gs read reg ne = absurd (ne refl)
pack_others gs _ read reg ne = refl
pack_others tr other read reg ne = refl
pack_others ldtr other read reg ne = refl
pack_others gdtr other read reg ne = refl
pack_others idtr other read reg ne = refl
pack_others seg_none other read reg ne = refl

-- The packed limit of a user segment that is present stands for the segment's own limit, if that is
-- one a processor can have: nothing of it is lost though 20 bits are kept.
pub pack_segment_register-limit :
    (hardware : X86Segment → SegmentRegister → SegmentRegister) (stack : SegmentRegister)
    (seg : X86Segment) (reg : Registers)
    → is_x86_user_segment seg ≡ true
    → (hvm_get_segment_register hardware seg stack).p ≢ 0
    → IsLimit (hardware seg stack).limit
    → (sel : Selector) × (selector_of seg (vm_event_pack_segment_register hardware stack seg reg)
        ≡ some sel)
      × (expand (hvm_get_segment_register hardware seg stack).g sel.limit
          ≡ (hardware seg stack).limit)
unfolding vm_event_pack_segment_register
pack_segment_register-limit hardware stack seg reg user present limit =
    let read = hvm_get_segment_register hardware seg stack in
    let told = hvm_get_segment_register-IsCooked hardware seg stack in
    let keeps = selector-expand seg read (told.2 present) (subst IsLimit told.0.limit limit) in
    (selector read, selector_of-pack seg read reg user, keeps ∙ sym told.0.limit)

-- Packing one segment leaves the selector registers of all others as they were.
pub pack_segment_register_others :
    (hardware : X86Segment → SegmentRegister → SegmentRegister) (stack : SegmentRegister)
    (seg other : X86Segment) (reg : Registers)
    → seg ≢ other
    → selector_of other (vm_event_pack_segment_register hardware stack seg reg)
      ≡ selector_of other reg
unfolding vm_event_pack_segment_register
pack_segment_register_others hardware stack seg other reg ne =
    pack_others seg other (hvm_get_segment_register hardware seg stack) reg ne

-- ===== src/VmEvent/Segment.antt =====
-- hvm_get_segment_register and vm_event_pack_segment_register.
use formal_verification_of_x.Prelude.{
  ℕ, zero, suc, ◌+◌, ◌*◌, ◌/◌, ◌%◌, ◌^◌, ◌≡◌, ◌==◌, leb, if◌then◌else◌, Bool, true, false, bit_or,
}
use formal_verification_of_x.VmEvent.{Selector, Registers}
pub mod Cooked
pub mod Packed

-- `enum x86_segment`.
pub data X86Segment : Type 0 where
  es cs ss ds fs gs tr ldtr gdtr idtr seg_none : X86Segment

abbrev pub number : X86Segment → ℕ
number es = 0
number cs = 1
number ss = 2
number ds = 3
number fs = 4
number gs = 5
number tr = 6
number ldtr = 7
number gdtr = 8
number idtr = 9
number seg_none = 10

-- `struct segment_register`, with the bit fields that share their bits with `attr`.
pub record SegmentRegister : Type 0 where
  pub sel : ℕ
  pub type : ℕ
  pub s : ℕ
  pub dpl : ℕ
  pub p : ℕ
  pub avl : ℕ
  pub l : ℕ
  pub db : ℕ
  pub g : ℕ
  pub pad : ℕ
  pub limit : ℕ
  pub base : ℕ

-- `reg.attr`: the bit fields from the lowest bit on, as the compilers for x86 lay them out.
pub attr : SegmentRegister → ℕ
attr reg =
    reg.type
    + 2 ^ 4 * reg.s
    + 2 ^ 5 * reg.dpl
    + 2 ^ 7 * reg.p
    + 2 ^ 8 * reg.avl
    + 2 ^ 9 * reg.l
    + 2 ^ 10 * reg.db
    + 2 ^ 11 * reg.g
    + 2 ^ 12 * reg.pad

-- `reg.attr = w`.
pub set_attr : ℕ → SegmentRegister → SegmentRegister
set_attr w reg = record reg {
  type = w % 2 ^ 4;
  s = w / 2 ^ 4 % 2;
  dpl = w / 2 ^ 5 % 2 ^ 2;
  p = w / 2 ^ 7 % 2;
  avl = w / 2 ^ 8 % 2;
  l = w / 2 ^ 9 % 2;
  db = w / 2 ^ 10 % 2;
  g = w / 2 ^ 11 % 2;
  pad = w / 2 ^ 12 % 2 ^ 4;
}

-- `seg` is converted to an unsigned number.
abbrev pub is_x86_user_segment : X86Segment → Bool
is_x86_user_segment seg = leb (number seg) 5

-- The switch of hvm_get_segment_register; the case of `tr` falls through to that of `cs`.
unfoldable pub fix_segment : X86Segment → SegmentRegister → SegmentRegister
fix_segment ss reg = if reg.p == 0 then record reg { db = 0 } else reg
fix_segment tr reg = record reg { type = bit_or reg.type 2; p = 1 }
fix_segment cs reg = record reg { p = 1 }
fix_segment gdtr reg = set_attr 0x80 reg
fix_segment idtr reg = set_attr 0x80 reg
fix_segment es reg = reg
fix_segment ds reg = reg
fix_segment fs reg = reg
fix_segment gs reg = reg
fix_segment ldtr reg = reg
fix_segment seg_none reg = reg

-- What is done to a segment that is present: the bits s and g, and for a user segment the accessed bit.
unfoldable pub cook : X86Segment → SegmentRegister → SegmentRegister
cook seg reg =
    let user = is_x86_user_segment seg in
    let g = if reg.limit / 2 ^ 20 == 0 then 0 else 1 in
    if user
    then record reg { s = 1; g = g; type = bit_or reg.type 1 }
    else record reg { s = 0; g = g }

unfoldable pub cook_present : X86Segment → SegmentRegister → SegmentRegister
cook_present seg reg = if reg.p == 0 then reg else cook seg reg

-- `hardware` is the member get_segment_register of hvm_funcs, for the virtual CPU at hand: from what
-- `*reg` holds to what it writes there.
unfoldable pub hvm_get_segment_register :
    (X86Segment → SegmentRegister → SegmentRegister)
    → X86Segment
    → SegmentRegister
    → SegmentRegister
hvm_get_segment_register hardware seg reg = cook_present seg (fix_segment seg (hardware seg reg))

-- The 20 bits of limit and the 12 of access rights that a segment is packed to.
pub selector : SegmentRegister → Selector
selector seg = record {
  limit = (if seg.g == 0 then seg.limit else seg.limit / 2 ^ 12) % 2 ^ 20;
  ar = attr seg % 2 ^ 12;
}

-- The switch of vm_event_pack_segment_register.
pub pack : X86Segment → SegmentRegister → Registers → Registers
pack ss seg reg = record reg { ss_base = seg.base % 2 ^ 32; ss = selector seg; ss_sel = seg.sel }
pack fs seg reg = record reg { fs_base = seg.base; fs = selector seg; fs_sel = seg.sel }
pack gs seg reg = record reg { gs_base = seg.base; gs = selector seg; gs_sel = seg.sel }
pack cs seg reg = record reg { cs_base = seg.base % 2 ^ 32; cs = selector seg; cs_sel = seg.sel }
pack ds seg reg = record reg { ds_base = seg.base % 2 ^ 32; ds = selector seg; ds_sel = seg.sel }
pack es seg reg = record reg { es_base = seg.base % 2 ^ 32; es = selector seg; es_sel = seg.sel }
pack tr seg reg = reg
pack ldtr seg reg = reg
pack gdtr seg reg = reg
pack idtr seg reg = reg
pack seg_none seg reg = reg

-- `stack` is what the local `seg` holds before it is written.
pub vm_event_pack_segment_register :
    (X86Segment → SegmentRegister → SegmentRegister)
    → SegmentRegister
    → X86Segment
    → Registers
    → Registers
vm_event_pack_segment_register hardware stack segment reg =
    pack segment (hvm_get_segment_register hardware segment stack) reg

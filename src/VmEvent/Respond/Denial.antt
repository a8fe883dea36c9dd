-- ===== src/VmEvent/Respond/Denial.antt =====
-- What a denied register write takes back.
use formal_verification_of_x.Prelude.{
  ℕ, ◌≡◌, ◌≢◌, refl, arith, ◌==◌, if◌then◌else◌, inl, inr, Bool, true, false, ◌&&◌, some,
  Bool-cases,
}
use formal_verification_of_x.Prelude.Int.{ℤ, pos, negsuc}
use formal_verification_of_x.VmEvent.{DoWrite, ArchVmEvent, Vcpu, Response}
use formal_verification_of_x.VmEvent.Respond.{
  has_flag, is_unpaused, drop_write, vm_event_register_write_resume,
}

-- The registers whose writes wait for a response.
pub data Register : Type 0 where
  msr cr0 cr3 cr4 : Register

-- The pending write of a register.
abbrev pub pending : Register → DoWrite → ℕ
pending msr w = w.msr
pending cr0 w = w.cr0
pending cr3 w = w.cr3
pending cr4 w = w.cr4

-- The response is about a write to the register.
abbrev pub is_about : Register → Response → Bool
is_about msr rsp = rsp.reason == 5
is_about cr0 rsp = rsp.reason == 4 && rsp.write_ctrlreg_index == 0
is_about cr3 rsp = rsp.reason == 4 && rsp.write_ctrlreg_index == 1
is_about cr4 rsp = rsp.reason == 4 && rsp.write_ctrlreg_index == 2

pending-drop_write :
    (r : Register) (rsp : Response) (w : DoWrite)
    → pending r (drop_write rsp.reason rsp.write_ctrlreg_index w)
      ≡ (if is_about r rsp then 0 else pending r w)
unfolding drop_write
pending-drop_write msr rsp w = ground arith
pending-drop_write cr0 rsp w = ground arith
pending-drop_write cr3 rsp w = ground arith
pending-drop_write cr4 rsp w = ground arith

-- A response without the deny flag, and one for a virtual CPU that is not paused, changes nothing. A
-- response that denies drops, on a paused virtual CPU with a block, the pending write of exactly the
-- register it is about; nothing but pending writes changes.
pub write_resume_drops :
    (v : Vcpu) (rsp : Response)
    → (has_flag rsp 6 ≡ false → vm_event_register_write_resume v rsp ≡ some v)
      × (v.vm_event_pause_count ≡ pos 0 → vm_event_register_write_resume v rsp ≡ some v)
      × ((e : ArchVmEvent)
          → has_flag rsp 6 ≡ true
          → v.vm_event_pause_count ≢ pos 0
          → v.vm_event ≡ some e
          → (w : DoWrite) × (vm_event_register_write_resume v rsp
              ≡ some (record v { vm_event = some (record e { do_write = w }) }))
            × ((r : Register) → pending r w ≡ (if is_about r rsp then 0 else pending r e.do_write)))
unfolding vm_event_register_write_resume
write_resume_drops v rsp = (
  (λ off. rw off refl),
  (λ running. elim (Bool-cases (has_flag rsp 6)) [
    | inl on ↦ rw (on, running) refl
    | inr off ↦ rw off refl
  ]),
  λ e on paused has. (
    drop_write rsp.reason rsp.write_ctrlreg_index e.do_write,
    (rw (on, not_zero v.vm_event_pause_count paused, has) refl),
    λ r. pending-drop_write r rsp e.do_write,
  ),
)
  where
    not_zero : (n : ℤ) → n ≢ pos 0 → is_unpaused n ≡ false
    not_zero (pos n) h = elim (Bool-cases (n == 0)) [
      | inl hit ↦ let z : n ≡ 0 = ground arith in absurd (h (rw z refl))
      | inr miss ↦ miss
    ]
    not_zero (negsuc n) h = refl

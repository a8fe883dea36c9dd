-- ===== src/Monitor/Msr.antt =====
-- The bitmap of a domain and the monitoring of model-specific registers.
pub mod Marked
use formal_verification_of_x.Prelude.{
  ℕ, ◌+◌, ◌*◌, ◌%◌, ◌^◌, ◌≡◌, refl, ◌==◌, if◌then◌else◌, inl, inr, Bool, true, not, bit_and,
  Bool-cases,
}
use formal_verification_of_x.Prelude.Int.{ℤ, pos, negsuc}
use formal_verification_of_x.Monitor.{MonitorState, Bitmap, MonitoredDomain, MonitorPlatform, truth}

-- xzalloc_array returns 0.
abbrev pub xzalloc_array : ℤ → ℤ → ℤ
xzalloc_array x y = pos 0

-- The test of the bitmap behind the allocation; ENOMEM is returned as it is, not negated.
abbrev pub init_result : MonitoredDomain → MonitoredDomain × ℤ
init_result d = if not (truth d.arch.msr_bitmap) then (d, pos 12) else (d, pos 0)

pub arch_monitor_init_domain : MonitoredDomain → MonitoredDomain × ℤ
arch_monitor_init_domain d =
    if not (truth d.arch.msr_bitmap)
    then init_result
        (record d { arch = record d.arch { msr_bitmap = xzalloc_array d.arch.msr_bitmap (pos 2) } })
    else init_result d

abbrev pub zero_state : MonitorState
zero_state = record {
  msr_bitmap = pos 0;
  write_ctrlreg_mask = λ i. pos 0;
  write_ctrlreg_sync = 0;
  write_ctrlreg_onchangeonly = 0;
  write_ctrlreg_enabled = 0;
  singlestep_enabled = pos 0;
  inguest_pagefault_disabled = pos 0;
  software_breakpoint_enabled = pos 0;
  debug_exception_enabled = pos 0;
  debug_exception_sync = pos 0;
  cpuid_enabled = pos 0;
  emul_unimplemented_enabled = pos 0;
  descriptor_access_enabled = pos 0;
}

-- xfree has an empty body.
pub arch_monitor_cleanup_domain : MonitoredDomain → MonitoredDomain
arch_monitor_cleanup_domain d = record d { arch = zero_state; monitor = λ i. pos 0 }

-- The address of the bitmap, 0 for NULL, and `*msr` after the call.
pub monitor_bitmap_for_msr : MonitoredDomain → ℕ → ℕ × ℕ
monitor_bitmap_for_msr d msr =
    if msr == 0x1fff
    then (d.low, msr)
    else if msr == 0x40000000
    then (d.hypervisor, bit_and msr 0x1fff)
    else if msr == 0xc0001fff
    then (d.high, bit_and msr 0x1fff)
    else (0, msr)

-- A write to the bitmap at an address.
abbrev pub change_bitmap : MonitoredDomain → ℕ → (Bitmap → Bitmap) → MonitoredDomain
change_bitmap d address change = record d {
  bitmaps = λ a. if address == a then change (d.bitmaps a) else d.bitmaps a;
}

-- monitor_enable_msr from `if ( !bitmap )` on.
abbrev pub enable_in : MonitorPlatform → MonitoredDomain → Bool → ℕ × ℕ → MonitoredDomain × ℤ
enable_in p d onchangeonly (bitmap, index) =
    let second = (index + p.sizeof_msr_bitmap * 8) % 2 ^ 64 in
    let d' = change_bitmap d bitmap (p.set_bit index) in
    if bitmap == 0
    then (d, negsuc 21)
    else if onchangeonly
    then (change_bitmap d' bitmap (p.set_bit second), pos 0)
    else (change_bitmap d' bitmap (p.clear_bit second), pos 0)

pub monitor_enable_msr : MonitorPlatform → MonitoredDomain → ℕ → Bool → MonitoredDomain × ℤ
monitor_enable_msr p d msr onchangeonly =
    if not (truth d.arch.msr_bitmap)
    then (d, negsuc 5)
    else enable_in p d onchangeonly (monitor_bitmap_for_msr d msr)

-- monitor_disable_msr from `if ( !bitmap )` on; `msr` is an unsigned int.
abbrev pub disable_in : MonitorPlatform → MonitoredDomain → ℕ × ℕ → MonitoredDomain × ℤ
disable_in p d (bitmap, index) =
    if bitmap == 0
    then (d, negsuc 21)
    else (change_bitmap d bitmap (p.clear_bit (index % 2 ^ 32)), pos 0)

-- The address of `msr` is passed for that of an unsigned long, so that the four bytes behind it are its high
-- half; what is written to them is not followed.
pub monitor_disable_msr : MonitorPlatform → MonitoredDomain → ℕ → MonitoredDomain × ℤ
monitor_disable_msr p d msr =
    if not (truth d.arch.msr_bitmap)
    then (d, negsuc 5)
    else disable_in p d (monitor_bitmap_for_msr d (msr % 2 ^ 32 + 2 ^ 32 * p.behind_msr))

-- Neither of the two touches what is kept of the domain beside the bitmaps.
pub enable_msr-arch :
    (p : MonitorPlatform) (d : MonitoredDomain) (msr : ℕ) (onchangeonly : Bool)
    → (monitor_enable_msr p d msr onchangeonly).0.arch ≡ d.arch
unfolding monitor_enable_msr
enable_msr-arch p d msr onchangeonly = elim (Bool-cases (truth d.arch.msr_bitmap)) [
  | inr missing ↦ rw missing refl
  | inl there ↦ elim (Bool-cases ((monitor_bitmap_for_msr d msr).0 == 0)) [
    | inl null ↦ rw (there, null) refl
    | inr found ↦ elim (Bool-cases onchangeonly) [
      | inl on ↦ rw (there, found, on) refl
      | inr off ↦ rw (there, found, off) refl
    ]
  ]
]

pub disable_msr-arch :
    (p : MonitorPlatform) (d : MonitoredDomain) (msr : ℕ)
    → (monitor_disable_msr p d msr).0.arch ≡ d.arch
unfolding monitor_disable_msr
disable_msr-arch p d msr = elim (Bool-cases (truth d.arch.msr_bitmap)) [
  | inr missing ↦ rw missing refl
  | inl there ↦
      elim (Bool-cases ((monitor_bitmap_for_msr d (msr % 2 ^ 32 + 2 ^ 32 * p.behind_msr)).0 == 0)) [
        | inl null ↦ rw (there, null) refl
        | inr found ↦ rw (there, found) refl
      ]
]

-- A domain without a bitmap does not get one: arch_monitor_init_domain answers ENOMEM, not negated, and
-- changes nothing, and to monitor a register or to stop it is then refused with -ENXIO. A domain
-- with one keeps it, with the answer 0; a cleanup always leaves a domain without one.
pub init_domain_without_bitmap :
    (p : MonitorPlatform) (d : MonitoredDomain) (msr : ℕ) (onchangeonly : Bool)
    → (d.arch.msr_bitmap ≡ pos 0
        → (arch_monitor_init_domain d ≡ (d, pos 12))
          × (monitor_enable_msr p d msr onchangeonly ≡ (d, negsuc 5))
          × (monitor_disable_msr p d msr ≡ (d, negsuc 5)))
      × (truth d.arch.msr_bitmap ≡ true → arch_monitor_init_domain d ≡ (d, pos 0))
      × ((arch_monitor_init_domain (arch_monitor_cleanup_domain d)).1 ≡ pos 12)
unfolding arch_monitor_init_domain arch_monitor_cleanup_domain monitor_enable_msr
    monitor_disable_msr
init_domain_without_bitmap p d msr onchangeonly =
    ((λ h. rw h (refl, refl, refl)), (λ h. rw h refl), refl)

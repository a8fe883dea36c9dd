-- ===== src/PerCpu/Callback.antt =====
-- cpu_percpu_callback over the life of a processor.
use formal_verification_of_x.Prelude.{
  ℕ, ◌≡◌, ◌⊎◌, arith, ◌==◌, if◌then◌else◌, Bool, true, Option, none,
}
use formal_verification_of_x.PerCpu.{
  Areas, Layout, invalid_percpu_area, init_percpu_area, free_percpu_area, notifier_from_errno,
  cpu_up_prepare, cpu_up_canceled, cpu_dead, cpu_remove, cpu_percpu_callback,
}

-- The actions that free an area: which ones depends on park_offline_cpus.
abbrev pub frees : Layout → ℕ → Bool
frees l action =
    if l.park_offline_cpus == 0
    then (if action == cpu_up_canceled then true else action == cpu_dead)
    else action == cpu_remove

-- What the callback answers: 0, but for a processor that comes up without an area when the allocator has
-- none: then 0x8001, with no change but the call.
pub callback_answers :
    (l : Layout) (cpu action : ℕ) (p : Option ℕ) (s : Areas)
    → let (s', rc) = cpu_percpu_callback l action cpu p s in
      ((rc ≡ 0) ⊎ (rc ≡ 0x8001))
      × (rc ≡ 0x8001
          → (action ≡ cpu_up_prepare)
            × (p ≡ none)
            × (s.offsets cpu ≡ invalid_percpu_area l)
            × (s'.offsets ≡ s.offsets)
            × (s'.pending ≡ s.pending))
unfolding cpu_percpu_callback init_percpu_area free_percpu_area notifier_from_errno
callback_answers l cpu action p s = ground arith

-- ===== src/VmEvent/Lifetime.antt =====
-- vm_event_init_domain and vm_event_cleanup_domain over the virtual CPUs of a domain.
use formal_verification_of_x.Prelude.{
  ℕ, zero, suc, ◌+◌, ◌<◌, ◌≡◌, ◌≢◌, refl, sym, ap, subst, ◌∙◌, arith, ◌⊎◌, inl, inr, false, List,
  [], ◌∷◌, Option, none, some, Option-cases,
}
use formal_verification_of_x.Prelude.Int.{ℤ, pos, negsuc}
use mathlib.Core.Option.{some-ne-none}
use formal_verification_of_x.VmEvent.{ArchVmEvent, Vcpu, Domain}

-- The rest of the list behind a virtual CPU that is done.
abbrev pub behind : Vcpu → List Vcpu × ℤ → List Vcpu × ℤ
behind v (vs, result) = (v ∷ vs, result)

-- The body of the loop of vm_event_init_domain: what `v->arch.vm_event` is, what malloc answers, the
-- list from `v` on, and the rest of the loop with and without a call of malloc.
abbrev pub init_vcpu :
    Option ArchVmEvent
    → Option ArchVmEvent
    → Vcpu
    → List Vcpu
    → List Vcpu × ℤ
    → List Vcpu × ℤ
    → List Vcpu × ℤ
init_vcpu (some e) block v vs next skipped = behind v skipped
init_vcpu none none v vs next skipped = (v ∷ vs, negsuc 11)
init_vcpu none (some block) v vs next skipped = behind (record v { vm_event = some block }) next

-- The loop. `malloc k` is what call number `k` answers: NULL, or a block with whatever it holds.
pub init_vcpus : (ℕ → Option ArchVmEvent) → ℕ → List Vcpu → List Vcpu × ℤ
init_vcpus malloc k [] = ([], pos 0)
init_vcpus malloc k (v ∷ vs) =
    let next = init_vcpus malloc (k + 1) vs in
    let skipped = init_vcpus malloc k vs in init_vcpu v.vm_event (malloc k) v vs next skipped

pub vm_event_init_domain : (ℕ → Option ArchVmEvent) → Domain → Domain × ℤ
vm_event_init_domain malloc d =
    let done = init_vcpus malloc 0 d.vcpus in (record d { vcpus = done.0 }, done.1)

pub cleanup_vcpus : List Vcpu → List Vcpu
cleanup_vcpus [] = []
cleanup_vcpus (v ∷ vs) = record v { vm_event = none } ∷ cleanup_vcpus vs

pub vm_event_cleanup_domain : Domain → Domain
vm_event_cleanup_domain d = record d {
  vcpus = cleanup_vcpus d.vcpus;
  mem_access_emulate_each_rep = false;
}

-- Every virtual CPU has its block.
abbrev pub IsReady : List Vcpu → Type 0
IsReady [] = Unit
IsReady (v ∷ vs) = (v.vm_event ≢ none) × IsReady vs

-- The list is the one before, but that a virtual CPU without a block may have one.
abbrev pub IsGrown : List Vcpu → List Vcpu → Type 0
IsGrown [] [] = Unit
IsGrown [] (w ∷ ws) = ⊥
IsGrown (v ∷ vs) [] = ⊥
IsGrown (v ∷ vs) (w ∷ ws) =
    (w ≡ record v { vm_event = w.vm_event })
    × ((v.vm_event ≡ none) ⊎ (w.vm_event ≡ v.vm_event))
    × IsGrown vs ws

-- The virtual CPUs without a block.
abbrev pub lacking : List Vcpu → ℕ
lacking [] = 0
lacking (v ∷ vs) = elim v.vm_event [ none ↦ suc (lacking vs) | some e ↦ lacking vs ]

IsGrown-refl : (vs : List Vcpu) → IsGrown vs vs
IsGrown-refl [] = tt
IsGrown-refl (v ∷ vs) = (refl, inr refl, IsGrown-refl vs)

-- How the loop ends: all ready, or -12 at a call of malloc that answered NULL.
abbrev pub IsInit : (ℕ → Option ArchVmEvent) → ℕ → ℕ → List Vcpu × ℤ → Type 0
IsInit malloc k n (vs, result) =
    ((result ≡ pos 0) × IsReady vs × ((j : ℕ) → j < n → malloc (k + j) ≢ none))
    ⊎ ((result ≡ negsuc 11) × ((j : ℕ) × (j < n) × (malloc (k + j) ≡ none)))

fed_from :
    (malloc : ℕ → Option ArchVmEvent) (k n j : ℕ)
    → malloc k ≢ none
    → ((i : ℕ) → i < n → malloc (k + 1 + i) ≢ none)
    → j < suc n
    → malloc (k + j) ≢ none
fed_from malloc k n zero first fed lt = subst (λ i. malloc i ≢ none) (omega arith) first
fed_from malloc k n (suc j) first fed lt =
    subst (λ i. malloc i ≢ none) (omega arith) (fed j (omega arith))

init_vcpus-IsInit :
    (malloc : ℕ → Option ArchVmEvent) (k : ℕ) (vs : List Vcpu)
    → IsInit malloc k (lacking vs) (init_vcpus malloc k vs)
unfolding init_vcpus
init_vcpus-IsInit malloc k [] = inl (refl, tt, λ j lt. absurd (omega arith))
init_vcpus-IsInit malloc k (v ∷ vs) = elim (Option-cases v.vm_event) [
  | inr (e, has) ↦ rw has (elim (init_vcpus-IsInit malloc k vs) [
    | inl (zero_result, ready, fed) ↦ inl (zero_result, (some-ne-none e, ready), fed)
    | inr failed ↦ inr failed
  ])
  | inl lacks ↦ elim (Option-cases (malloc k)) [
    | inl out ↦
        rw (lacks, out)
          (inr (refl, (0, omega arith, subst (λ i. malloc i ≡ none) (omega arith) out)))
    | inr (block, given) ↦
        rw (lacks, given)
          (elim (init_vcpus-IsInit malloc (k + 1) vs) [
            | inl (zero_result, ready, fed) ↦ inl (
              zero_result,
              (some-ne-none block, ready),
              λ j lt.
                  fed_from malloc k (lacking vs) j (λ q. some-ne-none block (sym given ∙ q)) fed lt,
            )
            | inr (minus, (j, lt, out)) ↦
                inr (minus, (suc j, omega arith, subst (λ i. malloc i ≡ none) (omega arith) out))
          ])
  ]
]

init_vcpus-IsGrown :
    (malloc : ℕ → Option ArchVmEvent) (k : ℕ) (vs : List Vcpu)
    → IsGrown vs (init_vcpus malloc k vs).0
unfolding init_vcpus
init_vcpus-IsGrown malloc k [] = tt
init_vcpus-IsGrown malloc k (v ∷ vs) = elim (Option-cases v.vm_event) [
  | inr (e, has) ↦ rw has (refl, inr refl, init_vcpus-IsGrown malloc k vs)
  | inl lacks ↦ elim (Option-cases (malloc k)) [
    | inl out ↦ rw (lacks, out) (refl, inl refl, IsGrown-refl vs)
    | inr (block, given) ↦ rw (lacks, given) (refl, inl refl, init_vcpus-IsGrown malloc (k + 1) vs)
  ]
]

-- Where every virtual CPU has its block, the loop calls no malloc and changes nothing.
init_vcpus_ready :
    (malloc : ℕ → Option ArchVmEvent) (k : ℕ) (vs : List Vcpu)
    → IsReady vs
    → init_vcpus malloc k vs ≡ (vs, pos 0)
unfolding init_vcpus
init_vcpus_ready malloc k [] h = refl
init_vcpus_ready malloc k (v ∷ vs) h = elim (Option-cases v.vm_event) [
  | inl lacks ↦ absurd (h.0 lacks)
  | inr (e, has) ↦
      rw has (ap (behind (record v { vm_event = some e })) (init_vcpus_ready malloc k vs h.1))
]

cleanup-IsGrown : (vs ws : List Vcpu) → IsGrown vs ws → cleanup_vcpus ws ≡ cleanup_vcpus vs
unfolding cleanup_vcpus
cleanup-IsGrown [] [] h = refl
cleanup-IsGrown [] (w ∷ ws) h = absurd h
cleanup-IsGrown (v ∷ vs) [] h = absurd h
cleanup-IsGrown (v ∷ vs) (w ∷ ws) (same, kept, rest) =
    rw (cleanup-IsGrown vs ws rest)
      (ap (λ (u : Vcpu). record u { vm_event = none } ∷ cleanup_vcpus vs) same)

-- vm_event_init_domain returns 0 with a block for every virtual CPU, when each of the mallocs it
-- needs gives one, or -12 when one of them answers NULL. On both ways a block that was there
-- stays, and nothing else of a virtual CPU changes.
pub vm_event_init_domain-IsInit :
    (malloc : ℕ → Option ArchVmEvent) (d : Domain)
    → IsInit malloc 0
        (lacking d.vcpus)
        ((vm_event_init_domain malloc d).0.vcpus, (vm_event_init_domain malloc d).1)
      × IsGrown d.vcpus (vm_event_init_domain malloc d).0.vcpus
unfolding vm_event_init_domain
vm_event_init_domain-IsInit malloc d =
    (init_vcpus-IsInit malloc 0 d.vcpus, init_vcpus-IsGrown malloc 0 d.vcpus)

-- vm_event_cleanup_domain takes back what vm_event_init_domain did, whether it succeeded or failed
-- half way: the domain is as if it had been cleaned up without it.
pub cleanup-init_domain :
    (malloc : ℕ → Option ArchVmEvent) (d : Domain)
    → vm_event_cleanup_domain (vm_event_init_domain malloc d).0 ≡ vm_event_cleanup_domain d
unfolding vm_event_init_domain vm_event_cleanup_domain
cleanup-init_domain malloc d =
    rw
      (cleanup-IsGrown d.vcpus (init_vcpus malloc 0 d.vcpus).0
        (init_vcpus-IsGrown malloc 0 d.vcpus))
      refl

-- After an init that returned 0, another one returns 0 and changes nothing, whatever malloc answers.
pub init_domain_again :
    (malloc malloc' : ℕ → Option ArchVmEvent) (d : Domain)
    → (vm_event_init_domain malloc d).1 ≡ pos 0
    → vm_event_init_domain malloc' (vm_event_init_domain malloc d).0
      ≡ ((vm_event_init_domain malloc d).0, pos 0)
unfolding vm_event_init_domain
init_domain_again malloc malloc' d h = elim (init_vcpus-IsInit malloc 0 d.vcpus) [
  | inl (done, ready, fed) ↦
      rw (init_vcpus_ready malloc' 0 (init_vcpus malloc 0 d.vcpus).0 ready) refl
  | inr (minus, failed) ↦ absurd (cc (sym h ∙ minus))
]

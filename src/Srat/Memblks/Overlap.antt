-- ===== src/Srat/Memblks/Overlap.antt =====
-- Which memory blocks valid_numa_range and conflicting_memblks find.
use formal_verification_of_x.Prelude.{
  ℕ, zero, suc, ◌+◌, ◌<◌, ◌≤◌, ◌≡◌, ◌↔◌, inl, inr, arith, true, false, Option, none, some,
  Bool-cases, ltb, if◌then◌else◌,
}
use native.Mathlib.Decide.{dec_lt}
use formal_verification_of_x.Srat.Tables.{Node, Memblks}
use formal_verification_of_x.Srat.Memblks.{
  covers, valid_numa_range_loop, valid_numa_range, conflicts, conflicting_memblks_loop,
  conflicting_memblks,
}
use formal_verification_of_x.Srat.Memblks.Cutoff.{IsIn}

-- What an answer of the loop from `i` on, up to `j`, tells.
abbrev Conflict : Memblks → ℕ → ℕ → ℕ → ℕ → Option ℕ → Type 0
Conflict m i j start end none = (k : ℕ) → i ≤ k → k < j → conflicts (m.range k) start end ≡ false
Conflict m i j start end (some k) =
    (k < j)
    × (conflicts (m.range k) start end ≡ true)
    × ((l : ℕ) → i ≤ l → l < k → conflicts (m.range l) start end ≡ false)

Conflict-next :
    (m : Memblks) (i j start end : ℕ) (r : Option ℕ)
    → conflicts (m.range i) start end ≡ false
    → Conflict m (i + 1) j start end r
    → Conflict m i j start end r
Conflict-next m i j start end none miss h =
    λ k le lt. elim (dec_lt i k) [ yes more ↦ h k (omega arith) lt | no same ↦ ground arith ]
Conflict-next m i j start end (some k) miss (lt, hit, before) = (
  lt,
  hit,
  λ l le lt'. elim (dec_lt i l) [ yes more ↦ before l (omega arith) lt' | no same ↦ ground arith ],
)

conflicting_memblks_loop-Conflict :
    (rounds : ℕ) (m : Memblks) (i j start end : ℕ)
    → i + rounds ≡ j
    → Conflict m i j start end (conflicting_memblks_loop rounds m i start end)
unfolding conflicting_memblks_loop
conflicting_memblks_loop-Conflict zero m i j start end e = λ k le lt. absurd (omega arith)
conflicting_memblks_loop-Conflict (suc rounds) m i j start end e =
    elim (Bool-cases (conflicts (m.range i) start end)) [
      | inl hit ↦ rw hit (omega arith, hit, λ l le lt. absurd (omega arith))
      | inr miss ↦ rw miss (
          Conflict-next m i j start end _ miss
            (conflicting_memblks_loop-Conflict rounds m (i + 1) j start end (omega arith)))
    ]

-- What an answer of conflicting_memblks tells of the addresses from `start` up to `end`.
abbrev pub IsConflict : Memblks → ℕ → ℕ → Option ℕ → Type 0
IsConflict m start end none =
    (k : ℕ) → k < m.num → (x : ℕ) → IsIn x (m.range k) → ¬ ((start ≤ x) × (x < end))
IsConflict m start end (some k) =
    (k < m.num)
    × ((x : ℕ) × IsIn x (m.range k) × (start ≤ x) × (x < end))
    × ((l : ℕ) → l < k → (x : ℕ) → IsIn x (m.range l) → ¬ ((start ≤ x) × (x < end)))

disjoint :
    (nd : Node) (start end x : ℕ)
    → conflicts nd start end ≡ false
    → IsIn x nd
    → ¬ ((start ≤ x) × (x < end))
disjoint nd start end x h i b = ground arith

higher : ℕ → ℕ → ℕ
higher a b = if ltb a b then b else a

meeting :
    (nd : Node) (start end : ℕ)
    → start < end
    → nd.start ≤ nd.end
    → conflicts nd start end ≡ true
    → (x : ℕ) × IsIn x nd × (start ≤ x) × (x < end)
unfolding higher
meeting nd start end lt wf h =
    (higher nd.start start, (ground arith, ground arith), ground arith, ground arith)

Conflict-IsConflict :
    (m : Memblks) (start end : ℕ) (r : Option ℕ)
    → start < end
    → ((k : ℕ) → (m.range k).start ≤ (m.range k).end)
    → Conflict m 0 m.num start end r
    → IsConflict m start end r
Conflict-IsConflict m start end none lt wf h =
    λ k lt' x i. disjoint (m.range k) start end x (h k (omega arith) lt') i
Conflict-IsConflict m start end (some k) lt wf (bound, hit, before) = (
  bound,
  meeting (m.range k) start end lt (wf k) hit,
  λ l lt' x i. disjoint (m.range l) start end x (before l (omega arith) lt') i,
)

-- For a range that is not empty, over well-formed blocks, conflicting_memblks answers the first
-- memory block that has an address of the range, and -1 exactly when no block has one.
pub conflicting_memblks-IsConflict :
    (m : Memblks) (start end : ℕ)
    → start < end
    → ((k : ℕ) → (m.range k).start ≤ (m.range k).end)
    → IsConflict m start end (conflicting_memblks m start end)
unfolding conflicting_memblks
conflicting_memblks-IsConflict m start end lt wf =
    Conflict-IsConflict m start end _ lt wf
      (conflicting_memblks_loop-Conflict m.num m 0 m.num start end (omega arith))

valid_loop_sound :
    (rounds : ℕ) (m : Memblks) (i start end node : ℕ)
    → valid_numa_range_loop rounds m i start end node ≡ 1
    → (k : ℕ) × (k < i + rounds) × (covers m k start end node ≡ true)
unfolding valid_numa_range_loop
valid_loop_sound zero m i start end node h = absurd (omega arith)
valid_loop_sound (suc rounds) m i start end node h = elim (Bool-cases (covers m i start end node)) [
  | inl hit ↦ (i, omega arith, hit)
  | inr miss ↦
      let (k, lt, c) = valid_loop_sound rounds m (i + 1) start end node (rw miss at h) in
      (k, omega arith, c)
]

valid_loop_complete :
    (rounds : ℕ) (m : Memblks) (i start end node k : ℕ)
    → i ≤ k
    → k < i + rounds
    → covers m k start end node ≡ true
    → valid_numa_range_loop rounds m i start end node ≡ 1
unfolding valid_numa_range_loop
valid_loop_complete zero m i start end node k le lt h = absurd (omega arith)
valid_loop_complete (suc rounds) m i start end node k le lt h = elim (dec_lt i k) [
  | yes more ↦
      ground
        (arith, valid_loop_complete rounds m (i + 1) start end node k (omega arith) (omega arith) h)
  | no same ↦ let e : k ≡ i = omega arith in rw (rw e at h)
]

-- valid_numa_range answers 1 exactly when one memory block of the node has the whole range.
pub valid_numa_range_iff :
    (m : Memblks) (start end node : ℕ)
    → (valid_numa_range m start end node ≡ 1) ↔ (
        (k : ℕ) × (k < m.num)
        × ((m.range k).start ≤ start)
        × (end ≤ (m.range k).end)
        × (m.nodeid k ≡ node))
unfolding valid_numa_range
valid_numa_range_iff m start end node = (
  λ h.
      let (k, lt, c) = valid_loop_sound m.num m 0 start end node h in
      (k, omega arith, ground arith, ground arith, ground arith),
  λ h. valid_loop_complete m.num m 0 start end node h.0 (omega arith) (omega arith) (ground arith),
)

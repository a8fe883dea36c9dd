-- ===== src/Microcode/Container.antt =====
-- The offset of container_fast_forward.
use formal_verification_of_x.Prelude.{
  ℕ, zero, suc, ◌+◌, ◌*◌, if◌then◌else◌, ◌-◌, ◌%◌, ◌^◌, ◌≡◌, ◌≤◌, ◌<◌, refl, arith, ◌==◌, ◌!=◌, ltb,
  inl, inr, true, false, ◌&&◌, ◌||◌, some, Bool-cases,
}
use formal_verification_of_x.Prelude.Int.{ℤ, pos, negsuc}
use formal_verification_of_x.Microcode.{container_fast_forward}

-- Where container_fast_forward has come to from an offset, with so many bytes left there.
pub record IsForward (words : ℕ → ℕ) (size_left offset : ℕ) (r : ℤ × ℕ) : Type 0 where
  pub from : offset ≤ r.1
  pub upto : r.1 ≤ offset + size_left
  pub found :
      r.0 ≡ pos 0
      → (words r.1 ≡ 0x00414d44) × (words (r.1 + 1) ≡ 0) × (r.1 + 8 ≤ offset + size_left)

-- A failure that leaves the offset in the range.
stopped :
    (words : ℕ → ℕ) (size_left offset n offset' : ℕ)
    → offset ≤ offset'
    → offset' ≤ offset + size_left
    → IsForward words size_left offset (negsuc n, offset')
stopped words size_left offset n offset' from upto = record {
  from = from;
  upto = upto;
  found = λ e. absurd (cc e);
}

IsForward-skip :
    (words : ℕ → ℕ) (size_left offset size : ℕ) (r : ℤ × ℕ)
    → size ≤ size_left
    → IsForward words (size_left - size) (offset + size) r
    → IsForward words size_left offset r
IsForward-skip words size_left offset size r le h = record {
  from = omega (arith, h.from);
  upto = omega (arith, h.upto);
  found = λ e. let f = h.found e in (f.0, f.1, omega (arith, f.2));
}

-- When offset and size stay below 2^32, the fuel is above the size, and four times their sum can be read, as the
-- offset in bytes is used as one in words: container_fast_forward returns. It returns 0 only with an offset
-- whose two words are a container's header and that has eight bytes more, in bytes as the sizes count them, up
-- to the end of what was left; in every case the offset is between the one before and that end.
pub container_fast_forward-IsForward :
    (fuel : ℕ) (words : ℕ → ℕ) (extent size_left offset : ℕ)
    → size_left < fuel
    → offset + size_left < 2 ^ 32
    → 4 * (offset + size_left) ≤ extent
    → (r : ℤ × ℕ) × (container_fast_forward fuel words extent size_left offset ≡ some r)
      × IsForward words size_left offset r
unfolding container_fast_forward
container_fast_forward-IsForward zero words extent size_left offset lt small wide =
    absurd (omega arith)
container_fast_forward-IsForward (suc fuel) words extent size_left offset lt small wide =
    let size = (words (offset + 1) + 8) % 2 ^ 32 in
    elim (Bool-cases (ltb size_left 8)) [
      | inl short ↦ rw short (
        (negsuc 100, offset),
        refl,
        stopped words size_left offset 100 offset (omega arith) (omega arith),
      )
      | inr room ↦
          let there : ltb extent
                (4 * offset + (if words offset == 0x00414d44 || words offset == 1 then 8 else 4))
              ≡ false =
            ground arith in
          elim (Bool-cases (words offset == 0x00414d44 && words (offset + 1) == 0)) [
            | inl magic ↦
                rw (room, there, magic)
                  ((pos 0, offset), refl, at_header words size_left offset magic room)
            | inr other ↦ elim (Bool-cases (words offset != 1)) [
              | inl foreign ↦
                  rw (room, there, other, foreign)
                    (
                      (negsuc 100, offset),
                      refl,
                      stopped words size_left offset 100 offset (omega arith) (omega arith),
                    )
              | inr patch ↦ elim (Bool-cases (ltb size 32 || ltb size_left size)) [
                | inl bad ↦
                    rw (room, there, other, patch, bad)
                      (
                        (negsuc 100, offset),
                        refl,
                        stopped words size_left offset 100 offset (omega arith) (omega arith),
                      )
                | inr good ↦
                    let fits : (32 ≤ size) × (size ≤ size_left) = (ground arith, ground arith) in
                    let whole : (offset + size) % 2 ^ 32 ≡ offset + size = omega (arith, fits.1) in
                    elim (Bool-cases (size_left - size == 0)) [
                      | inl empty ↦
                          rw (room, there, other, patch, good, empty, whole)
                            (
                              (negsuc 3, offset + size),
                              refl,
                              stopped words size_left offset 3 (offset + size) (omega arith)
                                  (omega (arith, fits.1)),
                            )
                      | inr more ↦
                          let (r, e, h) =
                            container_fast_forward-IsForward fuel words extent (size_left - size)
                              (offset + size) (omega (arith, fits.0, fits.1))
                              (omega (arith, fits.1)) (omega (arith, fits.1)) in
                          rw (room, there, other, patch, good, more, whole)
                            (r, e, IsForward-skip words size_left offset size r fits.1 h)
                    ]
              ]
            ]
          ]
    ]
  where
    at_header :
        (words : ℕ → ℕ) (size_left offset : ℕ)
        → (words offset == 0x00414d44 && words (offset + 1) == 0) ≡ true
        → ltb size_left 8 ≡ false
        → IsForward words size_left offset (pos 0, offset)
    at_header words size_left offset magic room = record {
      from = omega arith;
      upto = omega arith;
      found = λ _. (ground arith, ground arith, ground arith);
    }

-- ===== src/Microcode/Load/Buffer.antt =====
-- The bounds of get_ucode_from_buffer_amd.
use formal_verification_of_x.Prelude.{
  ℕ, ◌+◌, ◌*◌, ◌⊎◌, ◌%◌, ◌^◌, ◌≤◌, ◌<◌, ◌≡◌, ◌≢◌, refl, arith, ◌!=◌, ltb, leb, false, Option, none,
  some, inl, inr, Bool-cases, Option-cases,
}
use formal_verification_of_x.Prelude.Int.{pos, negsuc}
use formal_verification_of_x.Microcode.{MicrocodeHeader, MicrocodeAmd}
use formal_verification_of_x.Microcode.Load.{Mpbhdr, Loaded, make_room, get_ucode_from_buffer_amd}

-- The size is that of a block: it is 0 where there is none.
abbrev pub IsSized : MicrocodeAmd → Type 0
IsSized mc = mc.mpb ≡ none → mc.mpb_size ≡ 0

-- What a call has done from a patch, at an offset.
pub record IsLoaded (buf : ℕ → Mpbhdr) (bufsize offset : ℕ) (r : Loaded) : Type 0 where
  pub sized : IsSized r.mc_amd
  pub failed : r.result ≢ pos 0 → r.offset ≡ offset
  pub start : r.result ≡ pos 0 → (offset < bufsize) × ((buf offset).kind ≡ 1)
  pub room : r.result ≡ pos 0 → (buf offset).len ≤ r.mc_amd.mpb_size
  pub moved : r.result ≡ pos 0 → r.offset ≡ (offset + (buf offset).len + 8) % 2 ^ 32
  pub end : r.result ≡ pos 0 → (offset + (buf offset).len) % 2 ^ 32 ≤ bufsize

-- The answer, or the fault of a header that cannot be read.
abbrev pub IsAnswer : (ℕ → Mpbhdr) → ℕ → ℕ → ℕ → Option Loaded → Type 0
IsAnswer buf extent bufsize offset answer =
    ((answer ≡ none) × (offset < bufsize) × (extent < 8 * offset + 8))
    ⊎ ((r : Loaded) × (answer ≡ some r) × IsLoaded buf bufsize offset r)

refused :
    (mc : MicrocodeAmd) (buf : ℕ → Mpbhdr) (bufsize offset n : ℕ)
    → IsSized mc
    → IsLoaded buf bufsize offset (record { result = negsuc n; mc_amd = mc; offset = offset })
refused mc buf bufsize offset n h = record {
  sized = h;
  failed = λ ne. refl;
  start = λ e. absurd (cc e);
  room = λ e. absurd (cc e);
  moved = λ e. absurd (cc e);
  end = λ e. absurd (cc e);
}

accepted :
    (mc : MicrocodeAmd) (buf : ℕ → Mpbhdr) (bufsize offset : ℕ)
    → IsSized mc
    → leb bufsize offset ≡ false
    → ((buf offset).kind != 1) ≡ false
    → ltb bufsize ((offset + (buf offset).len) % 2 ^ 32) ≡ false
    → (buf offset).len ≤ mc.mpb_size
    → IsLoaded buf bufsize offset
        (record { result = pos 0; mc_amd = mc; offset = (offset + (buf offset).len + 8) % 2 ^ 32 })
accepted mc buf bufsize offset h inside patch fits room = record {
  sized = h;
  failed = λ ne. absurd (ne refl);
  start = λ e. (ground arith, ground arith);
  room = λ e. room;
  moved = λ e. refl;
  end = λ e. ground arith;
}

no_room-IsSized : (len : ℕ) (mc : MicrocodeAmd) → IsSized mc → IsSized (make_room none len mc)
no_room-IsSized len mc h = elim (Option-cases mc.mpb) [
  | inl null ↦ λ e. rw null (h null)
  | inr (old, has) ↦ λ e. rw has refl
]

-- get_ucode_from_buffer_amd runs into the fault of a read behind what can be read, only at an offset below the
-- size and of a header, at eight times the offset, that is not all there; or it answers. It keeps the size of
-- a missing block at 0. When it answers 0, the offset was below the size and the header there is that of a
-- patch, the block has room for the length in it, the offset goes on by that length and 8, and the sum of offset
-- and length, cut to 32 bits, is at most the size; when it fails, the offset stays.
pub get_ucode-IsLoaded :
    (block : Option MicrocodeHeader) (mc : MicrocodeAmd) (extent : ℕ) (buf : ℕ → Mpbhdr)
    (bufsize offset : ℕ)
    → IsSized mc
    → IsAnswer buf extent bufsize offset
        (get_ucode_from_buffer_amd block mc extent buf bufsize offset)
unfolding get_ucode_from_buffer_amd
get_ucode-IsLoaded block mc extent buf bufsize offset h = elim (Bool-cases (leb bufsize offset)) [
  | inl past ↦ rw past (inr (_, refl, refused mc buf bufsize offset 100 h))
  | inr inside ↦ elim (Bool-cases (ltb extent (8 * offset + 4))) [
    | inl away ↦ rw (inside, away) (inl (refl, ground arith, ground arith))
    | inr there ↦ elim (Bool-cases ((buf offset).kind != 1)) [
      | inl foreign ↦
          rw (inside, there, foreign) (inr (_, refl, refused mc buf bufsize offset 100 h))
      | inr patch ↦ elim (Bool-cases (ltb extent (8 * offset + 8))) [
        | inl away ↦ rw (inside, there, patch, away) (inl (refl, ground arith, ground arith))
        | inr whole ↦ elim (Bool-cases (ltb bufsize ((offset + (buf offset).len) % 2 ^ 32))) [
          | inl long ↦
              rw (inside, there, patch, whole, long)
                (inr (_, refl, refused mc buf bufsize offset 100 h))
          | inr fits ↦ elim (Bool-cases (ltb mc.mpb_size (buf offset).len)) [
            | inr room ↦
                rw (inside, there, patch, whole, fits, room)
                  (inr (_, refl, accepted mc buf bufsize offset h inside patch fits (ground arith)))
            | inl tight ↦ elim (Option-cases block) [
              | inl out ↦
                  rw (inside, there, patch, whole, fits, tight, out)
                    (inr (
                      _,
                      refl,
                      refused (make_room none (buf offset).len mc) buf bufsize offset 0
                          (no_room-IsSized (buf offset).len mc h),
                    ))
              | inr (b, given) ↦
                  rw (inside, there, patch, whole, fits, tight, given)
                    (inr (
                      _,
                      refl,
                      accepted (make_room (some b) (buf offset).len mc) buf bufsize offset
                          (λ e. absurd (cc e)) inside patch fits (omega arith),
                    ))
            ]
          ]
        ]
      ]
    ]
  ]
]

past_end :
    (b : MicrocodeHeader) (mc : MicrocodeAmd) (extent : ℕ) (buf : ℕ → Mpbhdr) (bufsize offset : ℕ)
    → leb bufsize offset ≡ false
    → ltb extent (8 * offset + 4) ≡ false
    → ((buf offset).kind != 1) ≡ false
    → ltb extent (8 * offset + 8) ≡ false
    → ltb bufsize ((offset + (buf offset).len) % 2 ^ 32) ≡ false
    → bufsize < offset + (buf offset).len
    → (r : Loaded) × (get_ucode_from_buffer_amd (some b) mc extent buf bufsize offset ≡ some r)
      × (r.result ≡ pos 0)
      × (bufsize < offset + (buf offset).len)
unfolding get_ucode_from_buffer_amd
past_end b mc extent buf bufsize offset there first kind second fits lt =
    elim (Bool-cases (ltb mc.mpb_size (buf offset).len)) [
      | inr room ↦ rw (there, first, kind, second, fits, room) (_, refl, refl, lt)
      | inl tight ↦ rw (there, first, kind, second, fits, tight) (_, refl, refl, lt)
    ]

-- The sum of offset and length is cut to 32 bits: a patch whose length takes it past 2^32 is accepted
-- though it ends behind the buffer.
pub get_ucode_past_end :
    (b : MicrocodeHeader) (mc : MicrocodeAmd) (extent : ℕ) (buf : ℕ → Mpbhdr) (bufsize offset : ℕ)
    → offset < bufsize
    → bufsize < 2 ^ 32
    → 8 * offset + 8 ≤ extent
    → (buf offset).kind ≡ 1
    → 2 ^ 32 ≤ offset + (buf offset).len
    → offset + (buf offset).len ≤ 2 ^ 32 + bufsize
    → (r : Loaded) × (get_ucode_from_buffer_amd (some b) mc extent buf bufsize offset ≡ some r)
      × (r.result ≡ pos 0)
      × (bufsize < offset + (buf offset).len)
get_ucode_past_end b mc extent buf bufsize offset inside small whole patch past cut =
    let there : leb bufsize offset ≡ false = ground arith in
    let first : ltb extent (8 * offset + 4) ≡ false = ground arith in
    let kind : ((buf offset).kind != 1) ≡ false = ground arith in
    let second : ltb extent (8 * offset + 8) ≡ false = ground arith in
    let fits : ltb bufsize ((offset + (buf offset).len) % 2 ^ 32) ≡ false = ground arith in
    past_end b mc extent buf bufsize offset there first kind second fits (omega arith)

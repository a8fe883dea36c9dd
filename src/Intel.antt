-- ===== src/Intel.antt =====
-- intel_verified.c: the check of a microcode update, its match with the processor, and the walk over a
-- buffer of updates.
use formal_verification_of_x.Prelude.{
  ℕ, zero, suc, ◌+◌, ◌-◌, ◌*◌, ◌/◌, ◌%◌, ◌^◌, ◌==◌, ◌!=◌, ltb, leb, if◌then◌else◌, Bool, true,
  false, not, ◌&&◌, ◌||◌, Option, none, some, bit_and,
}
use formal_verification_of_x.Prelude.Int.{ℤ, pos, negsuc, ltb_ℤ}
pub mod Sanity
pub mod Matching
pub mod Loop

-- `struct microcode_header_intel`: the fields that are used.
pub record IntelHeader : Type 0 where
  pub hdrver : ℕ
  pub rev : ℕ
  pub sig : ℕ
  pub cksum : ℕ
  pub ldrver : ℕ
  pub pf : ℕ
  pub datasize : ℕ
  pub totalsize : ℕ

-- `struct extended_signature`.
pub record ExtendedSignature : Type 0 where
  pub sig : ℕ
  pub pf : ℕ
  pub cksum : ℕ

-- What a pointer to `struct extended_sigtable` leads to: `words` are the unsigned longs there, `entries`
-- the signatures behind the table, and `sig_at k` is what stands `k` tables further.
pub record ExtendedSigtable : Type 0 where
  pub count : ℕ
  pub words : ℕ → ℕ
  pub entries : ℕ → ExtendedSignature
  pub sig_at : ℕ → ExtendedSignature

-- An update: its header, and all of its unsigned longs.
pub record Update : Type 0 where
  pub hdr : IntelHeader
  pub words : ℕ → ℕ

-- `struct ucode_cpu_info`.
pub record UcodeCpuInfo : Type 0 where
  pub sig : ℕ
  pub pf : ℕ
  pub rev : ℕ
  pub mc_intel : Option Update

-- How a function ends: by a fault, not at all with the fuel that it has, or with a value.
pub data Outcome (A : Type 0) : Type 0 where
  fault unfinished : Outcome A
  returned : A → Outcome A

abbrev pub sizeof_header_intel : ℕ
sizeof_header_intel = 52

abbrev pub sizeof_sigtable : ℕ
sizeof_sigtable = 20

abbrev pub sizeof_signature : ℕ
sizeof_signature = 12

-- `totalsize ? totalsize : 2000 + sizeof(header)`.
unfoldable pub total_size_of : IntelHeader → ℕ
total_size_of hdr = if hdr.totalsize == 0 then 2000 + sizeof_header_intel else hdr.totalsize

unfoldable pub data_size_of : IntelHeader → ℕ
data_size_of hdr = if hdr.datasize == 0 then 2000 else hdr.datasize

-- A signature that collect_cpu_info writes: 1 << ((msr >> 50) & 7) where the model has platform flags.
-- Its first loop clears one byte twelve times.
pub collect_cpu_info_intel : ℕ → ℕ → ℕ → ℕ → UcodeCpuInfo → UcodeCpuInfo × ℤ
collect_cpu_info_intel x86_vendor x86 x86_model msr_content csig =
    let cleared = record csig { sig = csig.sig - csig.sig % 2 ^ 8 } in
    let pf = if leb 5 x86_model || ltb 6 x86 then 2 ^ (msr_content / 2 ^ 50 % 2 ^ 3) else csig.pf in
    if x86_vendor != 1 || ltb x86 6
    then (cleared, negsuc 0)
    else (record csig { sig = 0; pf = pf; rev = msr_content / 2 ^ 32 % 2 ^ 32 }, pos 0)

-- The signatures and flags are assumed to fit an int.
pub microcode_update_match : UcodeCpuInfo → IntelHeader → ℕ → ℕ → Bool
microcode_update_match uci mc_header sig pf =
    sig == uci.sig
    && ((not (bit_and pf uci.pf == 0) || (pf == 0 && uci.pf == 0)) && ltb uci.rev mc_header.rev)

-- `while (i--) sum += words[i];` in unsigned longs of `w` bytes.
unfoldable pub sum_words : ℕ → (ℕ → ℕ) → ℕ → ℕ → ℕ
sum_words w words zero sum = sum
sum_words w words (suc i) sum = sum_words w words i ((sum + words i) % 2 ^ (8 * w))

-- The loop over the extended signatures: whether it gets to its end.
pub signatures_sum : ℕ → IntelHeader → ExtendedSigtable → ℕ → ℕ → ℕ → Bool
signatures_sum w mc_header ext_header orig_sum zero i = true
signatures_sum w mc_header ext_header orig_sum (suc rounds) i =
    let rest = signatures_sum w mc_header ext_header orig_sum rounds (i + 1) in
    let ext_sig = ext_header.sig_at (sizeof_sigtable + sizeof_signature * i) in
    let minus = (mc_header.sig + mc_header.pf + mc_header.cksum) % 2 ^ 32 in
    let plus = (ext_sig.sig + ext_sig.pf + ext_sig.cksum) % 2 ^ 32 in
    if (orig_sum + 2 ^ (8 * w) - minus + plus) % 2 ^ (8 * w) == 0 then rest else false

-- The sum over the header and the data.
abbrev pub orig_sum : ℕ → Update → ℕ
orig_sum w mc =
    sum_words w mc.words ((sizeof_header_intel + data_size_of mc.hdr) % 2 ^ (8 * w) / w % 2 ^ 32) 0

-- From the first use of `ext_header` on, which a NULL one makes a fault.
abbrev pub check_extended : ℕ → Update → ℕ → Option ExtendedSigtable → Outcome ℤ
check_extended w mc ext_table_size none = fault
check_extended w mc ext_table_size (some ext_header) =
    if ext_table_size != (ext_header.count * sizeof_signature + sizeof_sigtable) % 2 ^ (8 * w)
    then returned (negsuc 13)
    else if sum_words w ext_header.words (ext_table_size / w % 2 ^ 32) 0 != 0
    then returned (negsuc 100)
    else if orig_sum w mc != 0
    then returned (negsuc 100)
    else if signatures_sum w mc.hdr ext_header 0 ext_header.count 0
    then returned (pos 0)
    else returned (negsuc 100)

-- `w` is the number of bytes of an unsigned long. The assignment of `ext_header` is commented out: it is
-- NULL throughout.
unfoldable pub microcode_sanity_check : ℕ → Update → Outcome ℤ
microcode_sanity_check w mc =
    let total_size = total_size_of mc.hdr in
    let needed = (data_size_of mc.hdr + sizeof_header_intel) % 2 ^ (8 * w) in
    let ext_table_size =
      (total_size + 2 ^ (8 * w) - (sizeof_header_intel + data_size_of mc.hdr) % 2 ^ (8 * w))
      % 2 ^ (8 * w) in
    if ltb total_size needed
    then returned (negsuc 100)
    else if mc.hdr.ldrver != 1 || mc.hdr.hdrver != 1
    then returned (negsuc 100)
    else if ext_table_size == 0
    then if orig_sum w mc != 0 then returned (negsuc 100) else returned (pos 0)
    else if ltb ext_table_size sizeof_sigtable
        || (ext_table_size - sizeof_sigtable) % sizeof_signature != 0
    then returned (negsuc 100)
    else check_extended w mc ext_table_size none

-- `for (i = 0; i < ext_sigcount; i++)`: whether one of the signatures matches.
pub matches_entry : UcodeCpuInfo → IntelHeader → (ℕ → ExtendedSignature) → ℕ → ℕ → Bool
matches_entry uci mc_header entries zero i = false
matches_entry uci mc_header entries (suc rounds) i =
    let rest = matches_entry uci mc_header entries rounds (i + 1) in
    if microcode_update_match uci mc_header (entries i).sig (entries i).pf then true else rest

-- From the label `find` on: `room` is whether the local `new_mc`, which nothing writes, is not NULL. The
-- copy of `total_size` bytes is the update.
abbrev pub store_match : Bool → Update → UcodeCpuInfo → UcodeCpuInfo × ℤ
store_match room mc uci =
    if not room then (uci, negsuc 11) else (record uci { mc_intel = some mc }, pos 1)

-- `ext_header` is a local that nothing writes.
pub get_matching_microcode : Bool → ExtendedSigtable → Update → UcodeCpuInfo → UcodeCpuInfo × ℤ
get_matching_microcode room ext_header mc uci =
    if microcode_update_match uci mc.hdr mc.hdr.sig mc.hdr.pf
    then store_match room mc uci
    else if leb (total_size_of mc.hdr) (data_size_of mc.hdr + sizeof_header_intel)
    then (uci, pos 0)
    else if matches_entry uci mc.hdr ext_header.entries ext_header.count 0
    then store_match room mc uci
    else (uci, pos 0)

pub microcode_resume_match_intel :
    Bool → ExtendedSigtable → Update → UcodeCpuInfo → UcodeCpuInfo × ℤ
microcode_resume_match_intel room ext_header mc uci = get_matching_microcode room ext_header mc uci

-- `val` is the upper half of the local `msr_content`, which nothing writes.
abbrev pub apply_update : ℕ → Option Update → UcodeCpuInfo → UcodeCpuInfo × ℤ
apply_update val none uci = (uci, negsuc 100)
apply_update val (some mc) uci =
    if val != mc.hdr.rev then (uci, negsuc 4) else (record uci { rev = val }, pos 0)

pub apply_microcode_intel : ℕ → UcodeCpuInfo → UcodeCpuInfo × ℤ
apply_microcode_intel val uci = apply_update val uci.mc_intel uci

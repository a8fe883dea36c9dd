-- ===== src/Tests/Strings.antt =====
-- string_verified.c over a memory that holds the text "abc" again and again.
use formal_verification_of_x.Prelude.{
  ◌+◌, ◌%◌, ◌≡◌, refl, arith, ◌==◌, if◌then◌else◌, inl, ◌↔◌, some,
}
use formal_verification_of_x.Prelude.Int.{ℤ, pos}
use formal_verification_of_x.CString.Memory.{Memory, IsString, IsBytes, IsSame, IsCopy}
use formal_verification_of_x.CString.Copy.{memcpy, strcat}
use formal_verification_of_x.CString.Copy.Block.{memcpy-IsCopy}
use formal_verification_of_x.CString.Copy.Strings.{strcat-IsConcat, IsConcat}
use formal_verification_of_x.CString.Compare.{strcmp}
use formal_verification_of_x.CString.Compare.Order.{strcmp-eq-zero}
use formal_verification_of_x.CString.Scan.{strstr}
use formal_verification_of_x.CString.Scan.Substring.{strstr-IsFirstMatch, IsFirstMatch}
use formal_verification_of_x.CString.Ffs.{ffsti2}
use formal_verification_of_x.CString.Ffs.Lowest.{ffsti2-IsLowestSet}

abbrev sample : Memory
sample a = if a % 4 == 3 then 0 else 97 + a % 4

sample-IsBytes : IsBytes sample
sample-IsBytes a = ground (arith)

sample-IsString : IsString sample 0 3
sample-IsString = record { chars = λ i lt. ground (arith); terminator = refl }

sample-IsString_next : IsString sample 4 3
sample-IsString_next = record { chars = λ i lt. ground (arith); terminator = refl }

sample-IsString_tail : IsString sample 5 2
sample-IsString_tail = record { chars = λ i lt. ground (arith); terminator = refl }

strstr-IsFirstMatch_example : IsFirstMatch sample 0 5 3 2 (strstr 8 sample 0 5)
strstr-IsFirstMatch_example =
    strstr-IsFirstMatch 8 sample 0 5 3 2 sample-IsBytes (omega arith) (omega arith) sample-IsString
      sample-IsString_tail

strcat-IsConcat_example :
    (m' : Memory) × (strcat 8 sample 0 4 ≡ some (m', 0)) × IsConcat sample m' 0 4 3 3
strcat-IsConcat_example =
    strcat-IsConcat 8 sample 0 4 3 3 (omega arith) (omega arith) sample-IsString
      sample-IsString_next (inl (omega arith))

strcmp-eq-zero_example :
    (r : ℤ) × (strcmp 8 sample 0 4 ≡ some r)
    × ((r ≡ pos 0) ↔ (IsSame sample 0 4 3 × IsString sample 4 3))
strcmp-eq-zero_example = strcmp-eq-zero 8 sample 0 4 3 (omega arith) sample-IsBytes sample-IsString

memcpy-IsCopy_example : IsCopy sample (memcpy sample 1 2 6).0 1 2 6 × ((memcpy sample 1 2 6).1 ≡ 1)
memcpy-IsCopy_example = memcpy-IsCopy sample 1 2 6 (inl (omega arith))

ffsti2-IsLowestSet_example : ffsti2 0x9000000000000020 ≡ some 6
ffsti2-IsLowestSet_example =
    ffsti2-IsLowestSet 5 0x9000000000000020 (omega arith) (omega arith)
      (refl, (refl, (refl, (refl, (refl, refl)))))

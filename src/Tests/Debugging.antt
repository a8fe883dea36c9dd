-- ===== src/Tests/Debugging.antt =====
-- mm_verified.c on a counter of references.
use formal_verification_of_x.Prelude.{ℕ, ◌+◌, ◌-◌, ◌≡◌, refl, true, false}
use formal_verification_of_x.Prelude.Int.{pos, negsuc}
use formal_verification_of_x.Mm.{PageOps, get_page_and_type_from_mfn}
use formal_verification_of_x.Mm.References.{
  IsCounted, answered, referenced, get_page_and_type-referenced,
}

-- The state is the number of references; the type is refused.
abbrev counter : PageOps ℕ
counter = record {
  get_page_from_mfn = λ n. (n + 1, true);
  get_page_type = λ n. (n, negsuc 15);
  put_page = λ n. n - 1;
  put_page_and_type = λ n. n - 1;
  page_set_owner = λ n. n;
  free_domheap_page = λ n. n;
  page_set_tlbflush_timestamp = λ n. n;
}

counter-IsCounted : IsCounted counter (λ n. n)
counter-IsCounted = record { got = λ n. refl; typed = λ n. refl; put = λ n. refl }

get_page_and_type-referenced_example :
    let (s', rc) = get_page_and_type_from_mfn counter (pos 0) true false 5 in
    (rc ≡ answered counter (λ n. n) (pos 0) 5)
    × (s' ≡ referenced counter (λ n. n) (pos 0) false 5 true rc)
get_page_and_type-referenced_example =
    get_page_and_type-referenced counter (λ n. n) (pos 0) true false 5 counter-IsCounted

-- ===== src/Tests/Caches.antt =====
-- mapcache_verified.c on an address inside of a page.
use formal_verification_of_x.Prelude.{◌*◌, ◌≡◌, arith}
use formal_verification_of_x.MapCache.{xc_page_size, xen_map_cache_unlocked}
use formal_verification_of_x.MapCache.Sizes.{pages_touched, test_bit_size-pages}

test_bit_size-pages_example :
    (xen_map_cache_unlocked 0x1ffff 0x10002).test_bit_size
    ≡ xc_page_size * pages_touched 0x1ffff 0x10002
test_bit_size-pages_example = test_bit_size-pages 0x1ffff 0x10002 (omega arith)

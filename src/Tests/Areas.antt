-- ===== src/Tests/Areas.antt =====
-- percpu_verified.c with areas of 0x5000 bytes.
use formal_verification_of_x.Prelude.{ℕ, ◌*◌, ◌^◌, ◌<◌, ◌≤◌, ◌≡◌, arith, [], some}
use formal_verification_of_x.PerCpu.{Areas, Layout, get_order_from_bytes, invalid_percpu_area}
use formal_verification_of_x.PerCpu.Order.{get_order_from_bytes-IsLeast}

get_order_from_bytes-IsLeast_example :
    (k : ℕ) × (get_order_from_bytes 0x5000 ≡ some k)
    × (0x5000 ≤ 2 ^ 12 * 2 ^ k)
    × ((j : ℕ) → j < k → 2 ^ 12 * 2 ^ j < 0x5000)
get_order_from_bytes-IsLeast_example =
    get_order_from_bytes-IsLeast 0x5000 (omega arith) (omega arith)

abbrev layout : Layout
layout = record { start = 0x200000; data_end = 0x205000; park_offline_cpus = 0 }

abbrev no_areas : Areas
no_areas = record {
  offsets = λ cpu. invalid_percpu_area layout;
  info_cpu = 0;
  pending = 0;
  calls = [];
}

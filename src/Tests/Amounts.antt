-- ===== src/Tests/Amounts.antt =====
-- Settings, watermarks and swap.
use system_memory_lmkd.Base.{◌≤◌, ◌≡◌, ◌↔◌, true, some, List, [], ◌∷◌, arith}
use system_memory_lmkd.Base.Int.{pos, ◌≤ℤ◌, ◌<ℤ◌, ◌*ℤ◌, ◌+ℤ◌, ◌-ℤ◌}
use system_memory_lmkd.Memory.{
  Meminfo, ZoneWatermarks, Zone, Node, wmark_rank, get_lowest_watermark, calc_zone_watermarks,
  get_free_swap, easy_available, calc_swap_utilization,
}
use system_memory_lmkd.Memory.Swap.{
  get_free_swap-bounds, calc_swap_utilization-bounds, recorded, Summary, recorded-Summary,
}
use system_memory_lmkd.Memory.Watermarks.{
  unreserved, IsOrdered, get_lowest_watermark_lem, calc_zone_watermarks-IsOrdered,
  calc_zone_watermarks-sum, sum_nodes,
}
use system_memory_lmkd.Time.{
  Timespec, nanoseconds, get_time_diff_ms, ns_per_ms, get_time_diff_ms-bounds,
}
use system_memory_lmkd.Props.{Properties, update_props, lmk_property}
use system_memory_lmkd.Props.Ranges.{
  InRange, update_props-InRange, lmk_property-layered, reader, layered,
}

abbrev unset : Properties
unset = record {
  get_bool = λ name def. def;
  get_int32 = λ name def. def;
  get_int64 = λ name def. def;
}

update_props-InRange_example : InRange (update_props true unset).0
update_props-InRange_example = update_props-InRange true unset

lmk_property-layered_example :
    lmk_property (reader (λ name. some (pos 7))) "swap_util_max" (pos 100) ≡ pos 7
unfolding reader layered
lmk_property-layered_example = lmk_property-layered (λ name. some (pos 7)) "swap_util_max" (pos 100)

abbrev mem : Meminfo
mem = record {
  nr_free_pages = pos 9000;
  cached = pos 20000;
  swap_cached = pos 100;
  buffers = pos 300;
  shmem = pos 500;
  unevictable = pos 200;
  total_swap = pos 100000;
  free_swap = pos 40000;
  active_anon = pos 30000;
  inactive_anon = pos 10000;
  inactive_file = pos 8000;
  cma_free = pos 1000;
}

abbrev marks : ZoneWatermarks
marks = record { high_wmark = pos 12000; low_wmark = pos 8500; min_wmark = pos 6000 }

lowest_breached :
    let rank = wmark_rank (get_lowest_watermark mem marks) in
    ((rank ≤ 0) ↔ (unreserved mem <ℤ pos 6000))
    × ((rank ≤ 1) ↔ (unreserved mem <ℤ pos 8500))
    × ((rank ≤ 2) ↔ (unreserved mem <ℤ pos 12000))
lowest_breached = get_lowest_watermark_lem mem marks (omega arith)

abbrev normal : Zone
normal = record {
  min = pos 6000;
  low = pos 8500;
  high = pos 12000;
  present = pos 500000;
  max_protection = pos 40;
}

abbrev nodes : List Node
nodes =
    record {
      zones = normal ∷ record normal { present = pos 0 } ∷ [];
      nr_inactive_file = pos 8000;
      nr_active_file = pos 7000;
    }
    ∷ []

ordered : IsOrdered (calc_zone_watermarks nodes)
ordered = calc_zone_watermarks-IsOrdered nodes (omega arith)

sums_of_zones :
    ((calc_zone_watermarks nodes).high_wmark ≡ sum_nodes (λ z. z.high) nodes)
    × ((calc_zone_watermarks nodes).low_wmark ≡ sum_nodes (λ z. z.low) nodes)
    × ((calc_zone_watermarks nodes).min_wmark ≡ sum_nodes (λ z. z.min) nodes)
sums_of_zones = calc_zone_watermarks-sum nodes

get_free_swap-bounds_example :
    (get_free_swap (pos 1) mem ≤ℤ pos 40000)
    × (get_free_swap (pos 1) mem ≤ℤ easy_available mem *ℤ pos 1)
get_free_swap-bounds_example = get_free_swap-bounds (pos 1) mem (ground arith)

percentage :
    (pos 0 ≤ℤ calc_swap_utilization (pos 0) mem) × (calc_swap_utilization (pos 0) mem ≤ℤ pos 100)
unfolding get_free_swap
percentage =
    calc_swap_utilization-bounds (pos 0) mem (omega arith) (omega arith) (omega arith) (omega arith)

recorded_twice : Summary (mem ∷ mem ∷ []) (recorded (mem ∷ mem ∷ []))
recorded_twice = recorded-Summary mem (mem ∷ []) (omega arith)

abbrev early : Timespec
early = record { tv_sec = pos 1; tv_nsec = pos 999999999 }

abbrev late : Timespec
late = record { tv_sec = pos 2; tv_nsec = pos 0 }

-- One nanosecond.
difference_close :
    let exact = nanoseconds late -ℤ nanoseconds early in
    (exact <ℤ get_time_diff_ms early late *ℤ ns_per_ms +ℤ ns_per_ms)
    × (get_time_diff_ms early late *ℤ ns_per_ms <ℤ exact +ℤ ns_per_ms)
difference_close = get_time_diff_ms-bounds early late

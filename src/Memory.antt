-- ===== src/Memory.antt =====
-- The memory state that lmkd.cpp works with: the fields of /proc/meminfo that it uses, the zones of
-- /proc/zoneinfo, their watermarks, free swap, swap utilization and the pressure levels. Amounts
-- are in pages, as `int64_t`; the sums stay far below its limit.
pub mod Watermarks
pub mod Swap
use system_memory_lmkd.Base.{
  ℕ, suc, ◌*◌, ◌≡◌, Bool, true, false, ◌&&◌, ◌||◌, not, Option, none, some, List, [], ◌∷◌,
  if◌then◌else◌,
}
use system_memory_lmkd.Base.Int.{ℤ, pos, negsuc, ◌+ℤ◌, ◌-ℤ◌, ◌*ℤ◌, ◌/ℤ◌, ◌<?◌, ◌≤?◌, ◌==ℤ◌, min_ℤ}

pub record Meminfo : Type 0 where
  pub nr_free_pages : ℤ
  pub cached : ℤ
  pub swap_cached : ℤ
  pub buffers : ℤ
  pub shmem : ℤ
  pub unevictable : ℤ
  pub total_swap : ℤ
  pub free_swap : ℤ
  pub active_anon : ℤ
  pub inactive_anon : ℤ
  pub inactive_file : ℤ
  pub cma_free : ℤ

-- The fields that `meminfo_parse` computes.
unfoldable pub nr_file_pages : Meminfo → ℤ
nr_file_pages mi = mi.cached +ℤ mi.swap_cached +ℤ mi.buffers

unfoldable pub easy_available : Meminfo → ℤ
easy_available mi = mi.nr_free_pages +ℤ mi.inactive_file

unfoldable pub get_free_swap : ℤ → Meminfo → ℤ
get_free_swap swap_compression_ratio mi =
    if swap_compression_ratio ==ℤ pos 0
    then mi.free_swap
    else min_ℤ mi.free_swap (easy_available mi *ℤ swap_compression_ratio)

unfoldable pub calc_swap_utilization : ℤ → Meminfo → ℤ
calc_swap_utilization ratio mi =
    let swap_used = mi.total_swap -ℤ get_free_swap ratio mi in
    let total_swappable = mi.active_anon +ℤ mi.inactive_anon +ℤ mi.shmem +ℤ swap_used in
    if pos 0 <? total_swappable then swap_used *ℤ pos 100 /ℤ total_swappable else pos 0

pub data Level : Type 0 where
  low medium critical : Level

-- The value of the enumerator.
unfoldable pub level_rank : Level → ℕ
level_rank low = 0
level_rank medium = 1
level_rank critical = 2

unfoldable pub upgrade_level : Level → Level
upgrade_level low = medium
upgrade_level medium = critical
upgrade_level critical = critical

unfoldable pub downgrade_level : Level → Level
downgrade_level low = low
downgrade_level medium = low
downgrade_level critical = medium

pub data ZoneWatermark : Type 0 where
  wmark_min wmark_low wmark_high wmark_none : ZoneWatermark

unfoldable pub wmark_rank : ZoneWatermark → ℕ
wmark_rank wmark_min = 0
wmark_rank wmark_low = 1
wmark_rank wmark_high = 2
wmark_rank wmark_none = 3

pub record ZoneWatermarks : Type 0 where
  pub high_wmark : ℤ
  pub low_wmark : ℤ
  pub min_wmark : ℤ

unfoldable pub get_lowest_watermark : Meminfo → ZoneWatermarks → ZoneWatermark
get_lowest_watermark mi w =
    let nr_free_pages = mi.nr_free_pages -ℤ mi.cma_free in
    if nr_free_pages <? w.min_wmark
    then wmark_min
    else if nr_free_pages <? w.low_wmark
    then wmark_low
    else if nr_free_pages <? w.high_wmark
    then wmark_high
    else wmark_none

pub record Zone : Type 0 where
  pub min : ℤ
  pub low : ℤ
  pub high : ℤ
  pub present : ℤ
  pub max_protection : ℤ

-- The zones of a node are those that its `zone_count` covers.
pub record Node : Type 0 where
  pub zones : List Zone
  pub nr_inactive_file : ℤ
  pub nr_active_file : ℤ

unfoldable pub add_zone : ZoneWatermarks → Zone → ZoneWatermarks
add_zone w z = if z.present ==ℤ pos 0 then w else record {
  high_wmark = w.high_wmark +ℤ (z.max_protection +ℤ z.high);
  low_wmark = w.low_wmark +ℤ (z.max_protection +ℤ z.low);
  min_wmark = w.min_wmark +ℤ (z.max_protection +ℤ z.min);
}

unfoldable pub add_zones : ZoneWatermarks → List Zone → ZoneWatermarks
add_zones w [] = w
add_zones w (z ∷ zs) = add_zones (add_zone w z) zs

unfoldable pub add_nodes : ZoneWatermarks → List Node → ZoneWatermarks
add_nodes w [] = w
add_nodes w (n ∷ ns) = add_nodes (add_zones w n.zones) ns

unfoldable pub calc_zone_watermarks : List Node → ZoneWatermarks
calc_zone_watermarks nodes =
    add_nodes (record { high_wmark = pos 0; low_wmark = pos 0; min_wmark = pos 0 }) nodes

-- The last loop of `zoneinfo_parse`: the reserve counts every zone, populated or not.
unfoldable pub zones_reserve : ℤ → List Zone → ℤ
zones_reserve acc [] = acc
zones_reserve acc (z ∷ zs) = zones_reserve (acc +ℤ (z.max_protection +ℤ z.high)) zs

unfoldable pub totalreserve_pages : ℤ → List Node → ℤ
totalreserve_pages acc [] = acc
totalreserve_pages acc (n ∷ ns) = totalreserve_pages (zones_reserve acc n.zones) ns

pub record LowPressureMem : Type 0 where
  pub min_nr_free_pages : ℤ
  pub max_nr_free_pages : ℤ

-- `max_nr_free_pages * 0.1` is compared as a tenth: below 2 ^ 53 pages the product of the two
-- doubles is at a multiple of ten exactly that, and elsewhere lies between the same integers.
unfoldable pub record_low_pressure_levels : LowPressureMem → Meminfo → LowPressureMem
record_low_pressure_levels s mi =
    let free = mi.nr_free_pages in
    record {
      min_nr_free_pages =
          if s.min_nr_free_pages ==ℤ negsuc 0 || free <? s.min_nr_free_pages
          then free
          else s.min_nr_free_pages;
      max_nr_free_pages =
          if s.max_nr_free_pages ==ℤ negsuc 0
            || (s.max_nr_free_pages <? free
                && (free -ℤ s.max_nr_free_pages) *ℤ pos 10 <? s.max_nr_free_pages)
          then free
          else s.max_nr_free_pages;
    }

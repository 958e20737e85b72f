-- ===== src/Time.antt =====
-- `struct timespec` and `get_time_diff_ms` of lmkd.cpp and reaper.cpp.
use system_memory_lmkd.Base.{arith}
use system_memory_lmkd.Base.Int.{ℤ, pos, ◌+ℤ◌, ◌-ℤ◌, ◌*ℤ◌, ◌/ℤ◌, ◌<ℤ◌, int_laws, *ℤ_parts}

pub record Timespec : Type 0 where
  pub tv_sec : ℤ
  pub tv_nsec : ℤ

-- A clock's value at the start of the program.
abbrev pub zero_tm : Timespec
zero_tm = record { tv_sec = pos 0; tv_nsec = pos 0 }

-- NS_PER_MS
abbrev pub ns_per_ms : ℤ
ns_per_ms = pos 1000000

unfoldable pub get_time_diff_ms : Timespec → Timespec → ℤ
get_time_diff_ms from to =
    (to.tv_sec -ℤ from.tv_sec) *ℤ pos 1000 +ℤ (to.tv_nsec -ℤ from.tv_nsec) /ℤ ns_per_ms

-- A point of time in nanoseconds.
unfoldable pub nanoseconds : Timespec → ℤ
nanoseconds t = t.tv_sec *ℤ pos 1000000000 +ℤ t.tv_nsec

div-remainder :
    (a : ℤ)
    → (a <ℤ (a /ℤ ns_per_ms) *ℤ ns_per_ms +ℤ ns_per_ms)
      × ((a /ℤ ns_per_ms) *ℤ ns_per_ms <ℤ a +ℤ ns_per_ms)
unfolding ◌/ℤ◌ ◌*ℤ◌ ◌+ℤ◌
div-remainder a = ground arith

-- The difference in milliseconds is off by less than one of them, for times in either order.
pub get_time_diff_ms-bounds :
    (from to : Timespec)
    → let exact = nanoseconds to -ℤ nanoseconds from in
      (exact <ℤ get_time_diff_ms from to *ℤ ns_per_ms +ℤ ns_per_ms)
      × (get_time_diff_ms from to *ℤ ns_per_ms <ℤ exact +ℤ ns_per_ms)
unfolding get_time_diff_ms nanoseconds
get_time_diff_ms-bounds from to =
    let d = to.tv_nsec -ℤ from.tv_nsec in
    omega (
      int_laws,
      *ℤ_parts to.tv_sec 1000000000,
      *ℤ_parts from.tv_sec 1000000000,
      *ℤ_parts (to.tv_sec -ℤ from.tv_sec) 1000,
      *ℤ_parts ((to.tv_sec -ℤ from.tv_sec) *ℤ pos 1000 +ℤ d /ℤ ns_per_ms) 1000000,
      *ℤ_parts (d /ℤ ns_per_ms) 1000000,
      div-remainder d,
    )

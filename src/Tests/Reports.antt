-- ===== src/Tests/Reports.antt =====
-- The report of a kill on a big-endian machine, and the names that go into it.
use system_memory_lmkd.Base.{◌≤◌, ◌≡◌, refl, true, some, none, List, [], ◌∷◌, arith}
use system_memory_lmkd.Base.Int.{pos, negsuc}
use system_memory_lmkd.Registry.Hash.{pid_hashfn}
use system_memory_lmkd.Pressure.Decision.{low_mem}
use system_memory_lmkd.Cstring.{same_text}
use system_memory_lmkd.Tasknames.{
  find, remove, pid_lookup, proc_insert, stats_remove_taskname, new_task, store_name,
  stats_store_taskname, stats_get_task_name,
}
use system_memory_lmkd.Tasknames.Refinement.{Op, store, removal, apply, run, map_of, run-named}
use system_memory_lmkd.Killreport.{
  Network, MemoryStat, KillStat, big_endian, reason_code, memory_values, kill_values, pack_int32,
  pack_int64, pack_string, pack_int32s, pack_int64s, lmkd_pack_set_kill_occurred,
}
use system_memory_lmkd.Killreport.Layout.{sent}
use system_memory_lmkd.Killreport.RoundTrip.{read_report, told, FitsKill, FitsMemory, read-pack}
use system_memory_lmkd.Killreport.Bounds.{pack-bounds}
use system_memory_lmkd.Procfs.{codes}
use mathlib.Core.Option
use system_memory_lmkd.Base.{ℕ, false, All}
use system_memory_lmkd.Base.Int.{ℤ}
use system_memory_lmkd.Control.{DataSock, event_bit}
use system_memory_lmkd.Cstring.{Bytes}
use system_memory_lmkd.Memstat.{stats_read_memory_stat}
use system_memory_lmkd.Memstat.Reading.{stats_read_memory_stat-stale, stats_read_memory_stat-spaced}
use system_memory_lmkd.Notify.{is_subscribed, stats_write_lmk_kill_occurred}
use system_memory_lmkd.Notify.Subscribers.{packets, Tells, stats_write-reaches}

-- The names of two apps, one of which is stored again, removed, and stored under a new name.
abbrev history : List Op
history =
    store (pos 20) (some (codes "com.game"))
    ∷ store (pos 276) (some (codes "com.mail"))
    ∷ store (pos 20) (some (codes "com.game"))
    ∷ removal (pos 20)
    ∷ store (pos 276) (some (codes "com.mail:sync"))
    ∷ store (pos 21) none
    ∷ []

run-named_example :
    stats_get_task_name (run true history none) (pos 276) ≡ map_of history (λ k. none) (pos 276)
run-named_example = run-named history (pos 276)

renamed : stats_get_task_name (run true history none) (pos 276) ≡ some (codes "com.mail:sync")
unfolding run apply stats_get_task_name stats_store_taskname store_name stats_remove_taskname
    proc_insert new_task pid_lookup find remove same_text pid_hashfn
renamed = refl

abbrev big_network : Network
big_network = record {
  htons = λ w. w;
  htonl = λ w. w;
  htonq = λ w. w;
  store16 = big_endian 2;
  store32 = big_endian 4;
  store64 = big_endian 8;
  htons_lem = λ w h. refl;
  htonl_lem = λ w h. refl;
  htonq_lem = λ w h. refl;
}

abbrev game : KillStat
game = record {
  uid = pos 10020;
  taskname = codes "com.game";
  kill_reason = low_mem;
  oom_score = pos 900;
  min_oom_score = pos 201;
  free_mem_kb = pos 51200;
  free_swap_kb = pos 0;
  thrashing = negsuc 0;
  max_thrashing = pos 30;
}

abbrev usage : MemoryStat
usage = record {
  pgfault = pos 5000;
  pgmajfault = pos 70;
  rss_in_bytes = pos 8589934592;
  cache_in_bytes = pos 0;
  swap_in_bytes = pos 4096;
  process_start_time_ns = pos 1000000000;
}

game_fits : FitsKill game
unfolding reason_code
game_fits = record {
  uid = omega arith;
  oom_score = omega arith;
  min_oom_score = omega arith;
  free_mem_kb = omega arith;
  free_swap_kb = omega arith;
  reason = omega arith;
  thrashing = omega arith;
  max_thrashing = omega arith;
}

usage_fits : FitsMemory usage
usage_fits = record {
  pgfault = omega arith;
  pgmajfault = omega arith;
  rss_in_bytes = omega arith;
  cache_in_bytes = omega arith;
  swap_in_bytes = omega arith;
  process_start_time_ns = omega arith;
}

read-pack_example :
    read_report (sent (lmkd_pack_set_kill_occurred big_network true (λ i. 255) game (some usage)))
    ≡ some (told game (some usage), 0 ∷ [])
read-pack_example = read-pack big_network (λ i. 255) game (some usage) game_fits usage_fits

pack-bounds_example :
    ((lmkd_pack_set_kill_occurred big_network true (λ i. 255) game none).index ≤ 214)
    × ((lmkd_pack_set_kill_occurred big_network true (λ i. 255) game none).bytes 214 ≡ 255)
pack-bounds_example = pack-bounds big_network true (λ i. 255) game none 214 (omega arith)

-- A name of eight characters ends the report at byte 95.
ends_at : (lmkd_pack_set_kill_occurred big_network true (λ i. 255) game none).index ≡ 95
unfolding lmkd_pack_set_kill_occurred pack_string pack_int32s pack_int64s pack_int32 pack_int64
    memory_values kill_values
ends_at = refl

-- Every connection is subscribed to the reports.
abbrev subscribed : ℕ → DataSock
subscribed i = record { sock = pos 7; pid = pos 900; async_event_mask = 2 }

stats_write-reaches_example :
    (packets 1
        (stats_write_lmk_kill_occurred big_network true (λ i. 255) subscribed game (some usage))
      ≡ 1)
    × All
        (Tells game (some usage))
        (stats_write_lmk_kill_occurred big_network true (λ i. 255) subscribed game (some usage))
unfolding is_subscribed event_bit
stats_write-reaches_example =
    stats_write-reaches big_network (λ i. 255) subscribed game (some usage) 1 game_fits usage_fits

-- Lines of a memory cgroup, each behind what the stack held.
abbrev cgroup_lines : List ((Bytes × ℤ) × Bytes)
cgroup_lines = (([], pos 0), codes "cache 81920") ∷ (([], pos 0), codes "total_rss 4096") ∷ []

stats_read_memory_stat-stale_example :
    Option.map
      (λ m. m.process_start_time_ns)
      (stats_read_memory_stat true true 100
        (record { cgroup = some cgroup_lines; stat = none })
        (pos 1)
        (pos 2)
        usage).1
    ≡ some (pos 1000000000)
stats_read_memory_stat-stale_example =
    stats_read_memory_stat-stale 100 cgroup_lines none (pos 1) (pos 2) usage

stats_read_memory_stat-spaced_example :
    stats_read_memory_stat true false 100
      (record { cgroup = none; stat = some (codes "123 (Binder thread) S 1") })
      (pos 1)
      (pos 2)
      usage
    ≡ (usage, none)
stats_read_memory_stat-spaced_example =
    stats_read_memory_stat-spaced 100 49 (codes "23") 40 (codes "Binder") 116 (codes "hread)") 83
      (codes " 1") none (pos 1) (pos 2) usage (omega arith) (ground arith) (ground arith)
      (omega arith)

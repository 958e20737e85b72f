-- ===== src/Tests/Events.antt =====
-- Memory pressure events, on the phone of the kill path.
use mathlib.Core.Option
use system_memory_lmkd.Base.{◌≡◌, refl, true, false, Option, some, List, [], ◌∷◌, All, arith, none}
use system_memory_lmkd.Base.Int.{ℤ, pos, ◌≤ℤ◌, ◌+ℤ◌, ◌*ℤ◌}
use system_memory_lmkd.Kill.Attempt.{victims}
use system_memory_lmkd.Kill.{is_kill_pending}
use system_memory_lmkd.Kill.Progress.{IsAllowed, count_all}
use system_memory_lmkd.Killcnt.{init}
use system_memory_lmkd.Memory.{
  Meminfo, low, level_rank, wmark_low, wmark_rank, ZoneWatermarks, get_lowest_watermark, Node,
  add_zone, add_zones, add_nodes, calc_zone_watermarks, easy_available, get_free_swap,
  calc_swap_utilization,
}
use system_memory_lmkd.Pressure.Decision.{
  psi, View, Decision, no_kill, low_mem, is_none, is_below, is_critical_event, is_direct, spare,
  decide, decide_load, decide_low_mem, decide_psi,
}
use system_memory_lmkd.Pressure.Event.{
  polling_do_not_change, polling_pause, polling_resume, PollingParams, Config, Readings, Result,
  filter_level, skips_wakeup, finish_poll, decide_once, decide_again, decide_kill,
  update_watermarks, view_of, stalled, after_kill,
}
use system_memory_lmkd.Pressure.Handler.{
  finish, act, conclude, evaluate, wake, guard_event, handle_event, mp_event_psi, is_quiet,
}
use system_memory_lmkd.Pressure.Ladder.{decide-spares}
use system_memory_lmkd.Pressure.Limit.{IsLimited, after_kill-IsLimited}
use system_memory_lmkd.Pressure.Safety.{mp_event_psi-Ends}
use system_memory_lmkd.Pressure.{
  Vmstat, Monitor, no_reclaim, refault_file, file_lru, reset_after_kill, is_swap_low, is_running,
  reclaim_state, record_reclaim, shift_right, refaulted, decay, cross_window, update_thrashing,
}
use system_memory_lmkd.Polling.{Polling, polling_paused, call_handler, run_unchanged, resume-pause}
use system_memory_lmkd.Props.Ranges.{update_props-InRange}
use system_memory_lmkd.Props.{Properties, Props, clamp, read_props, update_props}
use system_memory_lmkd.Registry.Invariant.{IsValid}
use system_memory_lmkd.Tests.Kills.{
  kill_program, both, both-IsValid, daemon, setup, kernel, short_slots,
}
use system_memory_lmkd.Time.{Timespec, zero_tm, get_time_diff_ms}

unfoldable pub event_program : Unit {0}
unfolding kill_program get_lowest_watermark add_zone add_zones add_nodes calc_zone_watermarks
    get_free_swap calc_swap_utilization is_none is_below is_critical_event is_direct spare decide
    decide_load decide_low_mem decide_psi filter_level skips_wakeup finish_poll decide_once
    decide_again decide_kill update_watermarks view_of stalled after_kill finish act conclude
    evaluate wake guard_event handle_event mp_event_psi is_quiet refault_file file_lru
    reset_after_kill is_swap_low is_running reclaim_state record_reclaim shift_right refaulted decay
    cross_window update_thrashing clamp read_props update_props get_time_diff_ms ◌*ℤ◌ level_rank
    wmark_rank is_kill_pending easy_available
event_program = tt

-- No property is set.
abbrev unset : Properties
unset = record {
  get_bool = λ name def. def;
  get_int32 = λ name def. def;
  get_int64 = λ name def. def;
}

abbrev pub settings : Props
settings =
    (update_props true (record {
      get_bool = λ name def. def;
      get_int32 = λ name def. def;
      get_int64 = λ name def. def;
    })).0

abbrev pub config : Config
config = record {
  props = settings;
  setup = setup;
  mem_event_update_zoneinfo_supported = true;
  vendor_reasons = pos 5;
}

abbrev low_mem_view : View
low_mem_view = record {
  source = psi low;
  events = true;
  cycle_after_kill = false;
  wmark = wmark_low;
  swap_is_low = false;
  swap_util = pos 20;
  thrashing = pos 5;
  thrashing_limit = pos 100;
  reclaim = no_reclaim;
  direct_reclaim_duration_ms = pos 0;
  file_lru_kb = pos 90000;
}

abbrev fresh : Decision
fresh = record {
  kill_reason = no_kill;
  min_score_adj = pos 0;
  cut_thrashing_limit = false;
  check_filecache = false;
}

abbrev cached_only : Decision
cached_only = record fresh { kill_reason = low_mem; min_score_adj = pos 701 }

low_mem_decided : decide settings (pos 5) low_mem_view fresh ≡ some cached_only
unfolding event_program
low_mem_decided = refl

decide-spares_example : pos 201 ≤ℤ pos 701
unfolding is_none is_below is_critical_event wmark_rank is_direct read_props update_props clamp ◌*ℤ◌
decide-spares_example =
    decide-spares settings (pos 5) low_mem_view fresh cached_only low (omega arith) refl refl
      low_mem_decided refl refl

-- 20 MB are free, and much of the swap.
abbrev meminfo : Meminfo
meminfo = record {
  nr_free_pages = pos 5000;
  cached = pos 40000;
  swap_cached = pos 100;
  buffers = pos 500;
  shmem = pos 1000;
  unevictable = pos 100;
  total_swap = pos 500000;
  free_swap = pos 300000;
  active_anon = pos 100000;
  inactive_anon = pos 100000;
  inactive_file = pos 20000;
  cma_free = pos 0;
}

-- kswapd has scanned pages.
abbrev vmstat : Vmstat
vmstat = record {
  nr_inactive_file = pos 20000;
  nr_active_file = pos 20000;
  workingset_refault = pos 0;
  workingset_refault_file = pos 900;
  pgscan_kswapd = pos 77;
  pgscan_direct = pos 0;
  pgrefill = pos 12;
}

abbrev zones : ℤ → List Node
zones low_wmark =
    record {
      nr_inactive_file = pos 20000;
      nr_active_file = pos 20000;
      zones =
          record {
            min = pos 1000;
            low = low_wmark;
            high = low_wmark +ℤ pos 2000;
            present = pos 500000;
            max_protection = pos 0;
          }
          ∷ [];
    }
    ∷ []

abbrev pub readings : ℤ → Readings
readings low_wmark = record {
  clock = some (record { tv_sec = pos 100; tv_nsec = pos 0 });
  exists = λ pid. true;
  vmstat = some vmstat;
  meminfo = some meminfo;
  zoneinfo = λ again. some (zones low_wmark);
  stall = λ again. some false;
  reclaim = record {
    memevent_listener = false;
    direct_reclaim_start_tm = zero_tm;
    kswapd_start_tm = zero_tm;
  };
}

abbrev pub monitor : ZoneWatermarks → Monitor
monitor watermarks = record {
  init_ws_refault = pos 900;
  prev_workingset_refault = pos 900;
  base_file_lru = pos 40000;
  init_pgscan_kswapd = pos 0;
  init_pgscan_direct = pos 0;
  init_pgrefill = pos 0;
  killing = false;
  thrashing_limit = pos 100;
  wmark_update_tm = zero_tm;
  thrashing_reset_tm = zero_tm;
  prev_thrash_growth = pos 0;
  check_filecache = false;
  max_thrashing = pos 0;
  first_kill = true;
  watermarks = watermarks;
  prev_level = low;
}

abbrev pub unknown : ZoneWatermarks
unknown = record { high_wmark = pos 0; low_wmark = pos 0; min_wmark = pos 0 }

abbrev pub idle : PollingParams
idle = record { update = polling_do_not_change; polling_interval_ms = pos 100 }

abbrev killed_by : Option Result → Option (List (ℤ × ℤ))
killed_by run = Option.map (λ res. victims res.effects) run

-- The low watermark is breached, and the gallery dies.
low_memory :
    killed_by (
      mp_event_psi config
        (readings (pos 6000))
        3
        kernel
        daemon
        (monitor unknown)
        (psi low)
        true
        idle)
    ≡ some ((pos 10, pos 905) ∷ [])
unfolding event_program
low_memory = refl

-- No watermark is breached.
enough_memory :
    killed_by (
      mp_event_psi config
        (readings (pos 1500))
        3
        kernel
        daemon
        (monitor unknown)
        (psi low)
        true
        idle)
    ≡ some []
unfolding event_program
enough_memory = refl

-- The old watermarks are breached, and the ones read again before the first kill are not: the first
-- decision stands.
old_watermarks :
    killed_by (
      mp_event_psi config
        (readings (pos 1500))
        3
        kernel
        daemon
        (monitor (record { high_wmark = pos 9000; low_wmark = pos 8000; min_wmark = pos 1000 }))
        (psi low)
        true
        idle)
    ≡ some ((pos 10, pos 905) ∷ [])
unfolding event_program
old_watermarks = refl

mp_event_psi-Ends_example :
    (res : Result) × (mp_event_psi config
        (readings (pos 6000))
        3
        kernel
        daemon
        (monitor unknown)
        (psi low)
        true
        idle
      ≡ some res)
    × All (IsAllowed both (pos 0)) (victims res.effects)
    × (res.daemon.killcnt ≡ count_all init (victims res.effects))
    × IsValid res.daemon.registry
unfolding read_props update_props clamp
mp_event_psi-Ends_example =
    mp_event_psi-Ends config (readings (pos 6000)) 3 kernel daemon (monitor unknown) (psi low) true
      idle (omega arith) (omega arith) tt both-IsValid short_slots

abbrev pub three_seconds : Timespec
three_seconds = record { tv_sec = pos 3; tv_nsec = pos 0 }

after_kill-IsLimited_example :
    let m' = (update_thrashing settings (monitor unknown) vmstat three_seconds).0 in
    IsLimited settings m'
    × IsLimited settings (after_kill settings true m')
    × ((after_kill settings true m').thrashing_limit ≤ℤ m'.thrashing_limit)
unfolding read_props update_props
after_kill-IsLimited_example =
    after_kill-IsLimited settings (monitor unknown) vmstat three_seconds true
      (update_props-InRange true unset) (omega arith) (omega arith)

abbrev never_polled : Polling
never_polled = record {
  poll_handler = none;
  paused_handler = none;
  poll_start_tm = zero_tm;
  last_poll_tm = zero_tm;
  polling_interval_ms = pos 100;
}

abbrev waiting : Polling
waiting =
    call_handler never_polled 1 (record { update = polling_pause; polling_interval_ms = pos 10 })
      zero_tm

abbrev resumed : Polling
resumed =
    call_handler (run_unchanged waiting ((2, three_seconds) ∷ [])) 7
      (record { update = polling_resume; polling_interval_ms = pos 100 }) three_seconds

-- A kill is waited for, a command comes in, and the process dies.
paused_resumed :
    (resumed.poll_handler ≡ some 1)
    × (resumed.poll_start_tm ≡ three_seconds)
    × (resumed.polling_interval_ms ≡ pos 10)
    × (polling_paused resumed ≡ false)
paused_resumed =
    resume-pause never_polled 1 7 ((2, three_seconds) ∷ []) zero_tm three_seconds (pos 10) (pos 100)

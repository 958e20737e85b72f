-- ===== src/Tests/Minfrees.antt =====
-- Minfree levels, on the phone of the kill path.
use mathlib.Core.Option
use system_memory_lmkd.Base.{
  inr, ℕ, zero, suc, ◌<◌, ◌≡◌, ◌⊎◌, refl, true, false, some, none, [], ◌∷◌, arith,
}
use system_memory_lmkd.Base.Int.{◌+ℤ◌, ◌-ℤ◌, pos, negsuc, ◌≤ℤ◌}
use system_memory_lmkd.Kill.Attempt.{victims}
use system_memory_lmkd.Memory.{
  Meminfo, low, medium, critical, totalreserve_pages, zones_reserve, nr_file_pages,
}
use system_memory_lmkd.Minfree.Reached.{IsFirst, spare_pages, spare_cache}
use system_memory_lmkd.Minfree.Ends.{HasEnded, mp_event_common-Ends, mp_event_common-spares}
use system_memory_lmkd.Minfree.Levels.{
  Stores, NoneBefore, cmd_target-Stores, search_targets-first, text_length,
}
use system_memory_lmkd.Minfree.Scores.{LevelsConfigured, TargetsConfigured}
use system_memory_lmkd.Minfree.Vmpressure.{
  VmConfig, VmReadings, VmState, level_oomadj, mp_event_common, mp_event_at, upgrade_event,
  raise_level, has_events, is_more_critical, start_polling, is_in_timeout, minfree_verdict, verdict,
  assess, conclude_vm, kill_at, note_low, returned, pause, report,
}
use system_memory_lmkd.Minfree.{
  Targets, digit_count, int_length, target_length, store_targets, cmd_target, other_file, is_short,
  search_targets, minfree_score,
}
use system_memory_lmkd.Packet.{LmkTarget}
use system_memory_lmkd.Pressure.Event.{PollingParams, polling_do_not_change}
use system_memory_lmkd.Tests.Events.{event_program, settings}
use system_memory_lmkd.Tests.Kills.{both-IsValid, daemon, setup, kernel, short_slots}
use system_memory_lmkd.Time.{Timespec, zero_tm, get_time_diff_ms}

minfree_program : Unit {0}
unfolding event_program digit_count int_length target_length store_targets cmd_target other_file
    is_short search_targets minfree_score text_length level_oomadj mp_event_common mp_event_at
    upgrade_event raise_level has_events is_more_critical start_polling is_in_timeout
    minfree_verdict verdict assess conclude_vm kill_at note_low returned pause report
    totalreserve_pages zones_reserve nr_file_pages
minfree_program = tt

abbrev home : LmkTarget
home = record { minfree = pos 18432; oom_adj_score = pos 0 }

abbrev cached : LmkTarget
cached = record { minfree = pos 46080; oom_adj_score = pos 900 }

abbrev pub unset_targets : Targets
unset_targets = record {
  lowmem_minfree = λ i. pos 0;
  lowmem_adj = λ i. pos 0;
  lowmem_targets_size = 0;
  last_req_tm = zero_tm;
}

abbrev later : Timespec
later = record { tv_sec = pos 5; tv_nsec = pos 0 }

abbrev two_targets : Targets
two_targets = record unset_targets {
  lowmem_minfree = λ i. elim i [ zero ↦ pos 18432 | suc n ↦ pos 46080 ];
  lowmem_adj = λ i. elim i [ zero ↦ pos 0 | suc n ↦ pos 900 ];
  lowmem_targets_size = 2;
}

late_enough : pos 1000 ≤ℤ get_time_diff_ms zero_tm later
unfolding minfree_program
late_enough = omega arith

fits : text_length (home ∷ cached ∷ []) < 92
unfolding minfree_program
fits = omega arith

stored_targets :
    Stores (cmd_target unset_targets (some later) (home ∷ cached ∷ [])) 1 cached
    × ((cmd_target unset_targets (some later) (home ∷ cached ∷ [])).lowmem_targets_size ≡ 2)
stored_targets =
    cmd_target-Stores unset_targets later (home ∷ cached ∷ []) 1 cached (omega arith) (omega arith)
      late_enough fits refl

first_reached :
    ((search_targets two_targets (pos 20000) (pos 30000) 2 0 ≡ pos 1001)
      × NoneBefore two_targets (pos 20000) (pos 30000) 2)
    ⊎ ((j : ℕ) × (j < 2)
        × (is_short two_targets (pos 20000) (pos 30000) j ≡ true)
        × NoneBefore two_targets (pos 20000) (pos 30000) j
        × (search_targets two_targets (pos 20000) (pos 30000) 2 0 ≡ two_targets.lowmem_adj j))
first_reached = search_targets-first two_targets (pos 20000) (pos 30000) 2

second_target : search_targets two_targets (pos 20000) (pos 30000) 2 0 ≡ pos 900
unfolding minfree_program
second_target = refl

abbrev vm_config : VmConfig
vm_config = record {
  props = record settings { use_minfree_levels = true };
  setup = setup;
  targets = two_targets;
  use_psi_monitors = true;
}

-- 20000 pages are free, and 30000 hold files.
abbrev meminfo : Meminfo
meminfo = record {
  nr_free_pages = pos 20000;
  cached = pos 30000;
  swap_cached = pos 0;
  buffers = pos 0;
  shmem = pos 0;
  unevictable = pos 0;
  total_swap = pos 0;
  free_swap = pos 0;
  active_anon = pos 0;
  inactive_anon = pos 0;
  inactive_file = pos 0;
  cma_free = pos 0;
}

abbrev readings : VmReadings
readings = record {
  evcount = λ l. none;
  clock = some later;
  exists = λ pid. false;
  meminfo = some meminfo;
  zoneinfo = some [];
  mem_usage = none;
  memsw_usage = none;
}

abbrev state : VmState
state = record {
  low_pressure_mem = record { min_nr_free_pages = negsuc 0; max_nr_free_pages = negsuc 0 };
  last_report_tm = zero_tm;
}

abbrev unchanged : PollingParams
unchanged = record { update = polling_do_not_change; polling_interval_ms = pos 100 }

levels_configured : LevelsConfigured vm_config.props
unfolding minfree_program
levels_configured low = omega arith
levels_configured medium = omega arith
levels_configured critical = omega arith

targets_configured : TargetsConfigured two_targets
targets_configured zero h = omega arith
targets_configured (suc i) h = omega arith

mp_event_common-Ends_example :
    HasEnded daemon
      (negsuc 999)
      (mp_event_common vm_config 3 kernel readings state daemon critical true none unchanged)
mp_event_common-Ends_example =
    mp_event_common-Ends vm_config readings 3 kernel state daemon critical true none unchanged
      levels_configured targets_configured both-IsValid short_slots

-- The cache is below the amount of the second target only.
second-IsFirst : IsFirst two_targets (spare_pages meminfo []) (spare_cache meminfo) (pos 900)
unfolding ◌+ℤ◌ ◌-ℤ◌
second-IsFirst =
    inr (1, omega arith, (omega arith, omega arith), λ i l b. ground (arith, l, b), refl)

mp_event_common-spares_example :
    HasEnded daemon
      (pos 900)
      (mp_event_common vm_config 3 kernel readings state daemon critical true none unchanged)
mp_event_common-spares_example =
    mp_event_common-spares vm_config readings 3 kernel state daemon critical true none unchanged
      meminfo [] (pos 900) refl refl refl targets_configured both-IsValid short_slots second-IsFirst

-- The second target is reached, and a cached application dies.
one_killed :
    Option.map
      (λ res. victims res.effects)
      (mp_event_common vm_config 3 kernel readings state daemon critical true none unchanged)
    ≡ some ((pos 10, pos 905) ∷ [])
unfolding minfree_program
one_killed = refl

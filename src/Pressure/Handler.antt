-- ===== src/Pressure/Handler.antt =====
-- `__mp_event_psi` from its first guard to its last line.
use mathlib.Core.Option
use system_memory_lmkd.Base.{ℕ, Bool, false, Option, none, some, List, [], ◌++◌, if◌then◌else◌}
use system_memory_lmkd.Base.Int.{pos, ◌<?◌, ◌==ℤ◌}
use system_memory_lmkd.Kill.Search.{find_and_kill_process}
use system_memory_lmkd.Kill.{Daemon, Kernel, Effect, stop_wait_for_proc_kill}
use system_memory_lmkd.Memory.{Meminfo}
use system_memory_lmkd.Pressure.Decision.{Source, psi, vendor, Decision, is_none}
use system_memory_lmkd.Pressure.Event.{
  PollingParams, Config, Readings, Result, filter_level, skips_wakeup, finish_poll, Pass, Passed,
  returns, decides, decide_kill, after_kill, least_score,
}
use system_memory_lmkd.Pressure.{
  Vmstat, Monitor, ReclaimState, no_reclaim, kswapd_reclaim, direct_reclaim, refault_file,
  reset_after_kill, is_swap_low, reclaim_state, record_reclaim, update_thrashing,
}
use system_memory_lmkd.Time.{Timespec}

-- "Device is not thrashing and not reclaiming, bail out early".
unfoldable pub is_quiet : Source → ReclaimState → Monitor → Vmstat → Bool
is_quiet (vendor reason least) state m vs = false
is_quiet (psi level) no_reclaim m vs = refault_file vs ==ℤ m.prev_workingset_refault
is_quiet (psi level) kswapd_reclaim m vs = false
is_quiet (psi level) direct_reclaim m vs = false

module _ (c : Config) (r : Readings) where
  unfoldable pub finish :
      Daemon → List Effect → Monitor → Bool → ReclaimState → Bool → PollingParams → Result
  finish d es m events reclaim swap_is_low poll = record {
    monitor = m;
    daemon = d;
    effects = es;
    poll = finish_poll c d m events reclaim swap_is_low poll;
  }

  -- "Kill a process if necessary". `none`: the fuel of the search is used up.
  unfoldable pub act :
      ℕ
      → Kernel
      → Daemon
      → List Effect
      → Pass
      → Monitor
      → Decision
      → Bool
      → PollingParams
      → Option Result
  act fuel k d es p m decision stall poll =
      let swap_is_low : Bool = is_swap_low c.props p.mi in
      let search = find_and_kill_process fuel c.setup k d (least_score decision stall) p.tm in
      let killed : Option Result =
        Option.map
          (λ o.
            let m' : Monitor =
              if pos 0 <? o.result then after_kill c.props decision.cut_thrashing_limit m else m in
            finish o.daemon (es ++ o.effects) m' p.events p.reclaim swap_is_low poll)
          search in
      if is_none decision.kill_reason
      then some (finish d es m p.events p.reclaim swap_is_low poll)
      else killed

  -- A return leaves the polling as it was.
  unfoldable pub conclude :
      ℕ → Kernel → Daemon → List Effect → Pass → PollingParams → Passed → Option Result
  conclude fuel k d es p poll (returns m) =
      some (record { monitor = m; daemon = d; effects = es; poll = poll })
  conclude fuel k d es p poll (decides m decision stall) = act fuel k d es p m decision stall poll

  -- From the reclaim state on, with the statics after the reset.
  unfoldable pub evaluate :
      ℕ
      → Kernel
      → Daemon
      → List Effect
      → Source
      → Bool
      → Bool
      → Monitor
      → Meminfo
      → Vmstat
      → Timespec
      → PollingParams
      → Option Result
  evaluate fuel k d es source events cycle_after_kill m mi vs tm poll =
      let reclaim = reclaim_state r.reclaim m vs in
      let m' = record_reclaim reclaim m vs in
      let (thrashed, thrashing) = update_thrashing c.props m' vs tm in
      let p : Pass = record {
        source = source;
        events = events;
        cycle_after_kill = cycle_after_kill;
        mi = mi;
        vs = vs;
        thrashing = thrashing;
        reclaim = reclaim;
        tm = tm;
      } in
      let decided = conclude fuel k d es p poll (decide_kill c r p thrashed) in
      if is_quiet source reclaim m vs
      then some (finish d es m' events reclaim (is_swap_low c.props mi) poll)
      else decided

  -- After the guards, with what was read of the two files.
  unfoldable pub wake :
      ℕ
      → Kernel
      → Daemon
      → List Effect
      → Source
      → Bool
      → Monitor
      → Timespec
      → PollingParams
      → Option Vmstat
      → Option Meminfo
      → Option Result
  wake fuel k d es source events m tm poll none mi =
      some (record { monitor = m; daemon = d; effects = es; poll = poll })
  wake fuel k d es source events m tm poll (some vs) none =
      some (record { monitor = m; daemon = d; effects = es; poll = poll })
  wake fuel k d es source events m tm poll (some vs) (some mi) =
      evaluate fuel k d es source events m.killing (reset_after_kill m vs tm) mi vs tm poll

  -- With the statics that the filter of levels leaves.
  unfoldable pub guard_event :
      ℕ
      → Kernel
      → Daemon
      → Source
      → Bool
      → Monitor
      → PollingParams
      → Timespec
      → Option Monitor
      → Option Result
  guard_event fuel k d source events m poll tm none =
      some (record { monitor = m; daemon = d; effects = []; poll = poll })
  guard_event fuel k d source events m poll tm (some m') =
      let (d', es) = stop_wait_for_proc_kill c.setup d in
      let awake = wake fuel k d' es source events m' tm poll r.vmstat r.meminfo in
      if skips_wakeup c r d tm then some (finish d [] m' events no_reclaim false poll) else awake

  unfoldable pub handle_event :
      ℕ
      → Kernel
      → Daemon
      → Monitor
      → Source
      → Bool
      → PollingParams
      → Option Timespec
      → Option Result
  handle_event fuel k d m source events poll none =
      some (record { monitor = m; daemon = d; effects = []; poll = poll })
  handle_event fuel k d m source events poll (some tm) =
      guard_event fuel k d source events m poll tm (filter_level source events m)

  unfoldable pub mp_event_psi :
      ℕ → Kernel → Daemon → Monitor → Source → Bool → PollingParams → Option Result
  mp_event_psi fuel k d m source events poll = handle_event fuel k d m source events poll r.clock

-- ===== src/Minfree/Vmpressure.antt =====
-- `mp_event_common` of lmkd.cpp, the handler of the older strategies: minfree levels, and the ratio of
-- memory to memory and swap in use. The counters of the log are left out.
use mathlib.Core.Option
use system_memory_lmkd.Base.{
  ℕ, Bool, true, false, not, ◌&&◌, ◌||◌, Option, none, some, List, [], ◌++◌, ltb, if◌then◌else◌,
}
use system_memory_lmkd.Base.Int.{ℤ, pos, negsuc, ◌*ℤ◌, ◌/ℤ◌, ◌<?◌, ◌≤?◌, ◌==ℤ◌}
use system_memory_lmkd.Kill.Search.{find_and_kill_process}
use system_memory_lmkd.Kill.{
  Daemon, Setup, Kernel, Effect, Outcome, is_kill_pending, is_waiting_for_kill,
  stop_wait_for_proc_kill,
}
use system_memory_lmkd.Memory.{
  Meminfo, Level, low, medium, critical, level_rank, upgrade_level, downgrade_level, Node,
  totalreserve_pages, LowPressureMem, record_low_pressure_levels, get_free_swap,
}
use system_memory_lmkd.Minfree.{Targets, minfree_score}
use system_memory_lmkd.Pressure.Event.{PollingParams, polling_start, polling_pause}
use system_memory_lmkd.Props.{Props, oom_score_adj_max}
use system_memory_lmkd.Time.{Timespec, get_time_diff_ms}

pub record VmConfig : Type 0 where
  pub props : Props
  pub setup : Setup
  pub targets : Targets
  pub use_psi_monitors : Bool

-- What is read during one event. Of a level: the count of its event descriptor; `none` where there
-- is no descriptor or the read fails. The usages are the numbers in the two cgroup files.
pub record VmReadings : Type 0 where
  pub evcount : Level → Option ℕ
  pub clock : Option Timespec
  pub exists : ℤ → Bool
  pub meminfo : Option Meminfo
  pub zoneinfo : Option (List Node)
  pub mem_usage : Option ℤ
  pub memsw_usage : Option ℤ

-- `last_report_tm` and `low_pressure_mem`.
pub record VmState : Type 0 where
  pub low_pressure_mem : LowPressureMem
  pub last_report_tm : Timespec

-- The last field is whether `lmkd_no_kill_candidates_hook` was called.
pub record VmResult : Type 0 where
  pub state : VmState
  pub daemon : Daemon
  pub effects : List Effect
  pub poll : PollingParams
  pub no_candidates : Bool

-- FAIL_REPORT_RLIMIT_MS
abbrev pub fail_report_rlimit_ms : ℤ
fail_report_rlimit_ms = pos 1000

unfoldable pub level_oomadj : Props → Level → ℤ
level_oomadj c low = c.oomadj_low
level_oomadj c medium = c.oomadj_medium
level_oomadj c critical = c.oomadj_critical

unfoldable pub has_events : Option ℕ → Bool
has_events none = false
has_events (some n) = ltb 0 n

unfoldable pub raise_level : VmReadings → Level → Level → Level
raise_level r lvl level =
    if has_events (r.evcount lvl) && ltb (level_rank level) (level_rank lvl) then lvl else level

-- "Check all event counters from low to critical".
unfoldable pub upgrade_event : VmReadings → Level → Level
upgrade_event r level = raise_level r critical (raise_level r medium (raise_level r low level))

-- `none` for a handler without `poll_handler`.
unfoldable pub is_more_critical : Level → Option Level → Bool
is_more_critical trigger none = true
is_more_critical trigger (some handled) = ltb (level_rank handled) (level_rank trigger)

unfoldable pub start_polling :
    VmConfig → Level → Bool → Option Level → PollingParams → PollingParams
start_polling c trigger events handler poll =
    if c.use_psi_monitors && events && is_more_critical trigger handler
    then record { update = polling_start; polling_interval_ms = pos 10 }
    else poll

unfoldable pub get_memory_usage : Option ℤ → ℤ
get_memory_usage none = negsuc 0
get_memory_usage (some n) = if n ==ℤ pos 0 then negsuc 0 else n

unfoldable pub is_in_timeout : VmConfig → Daemon → Timespec → Bool
is_in_timeout c d tm =
    not (c.props.kill_timeout_ms ==ℤ pos 0)
    && get_time_diff_ms d.last_kill_tm tm <? c.props.kill_timeout_ms

-- What stands before the label `do_kill`: a return, or the level and the least score to kill at.
pub data Verdict : Type 0 where
  ignore : Verdict
  do_kill : Level → ℤ → Verdict

unfoldable pub minfree_verdict : VmConfig → Level → Meminfo → List Node → Verdict
minfree_verdict c level mi zi =
    let score = minfree_score c.targets (totalreserve_pages (pos 0) zi) mi in
    if score ==ℤ pos 1001 then ignore else do_kill level score

unfoldable pub upgraded : Props → ℤ → Level → Level
upgraded c mem_pressure low =
    if c.enable_pressure_upgrade && mem_pressure <? c.upgrade_pressure
    then upgrade_level low
    else low
upgraded c mem_pressure medium =
    if c.enable_pressure_upgrade && mem_pressure <? c.upgrade_pressure
    then upgrade_level medium
    else medium
upgraded c mem_pressure critical = critical

unfoldable pub downgraded : Props → ℤ → Level → Level
downgraded c mem_pressure low = low
downgraded c mem_pressure medium = medium
downgraded c mem_pressure critical =
    if c.upgrade_pressure <? mem_pressure then downgrade_level critical else critical

unfoldable pub has_swap : Props → Meminfo → Bool
has_swap c mi =
    mi.total_swap *ℤ c.swap_free_low_percentage /ℤ pos 100
    ≤? get_free_swap c.swap_compression_ratio mi

-- With the level's own score, which it is killed at.
unfoldable pub at_level : Props → Level → Verdict
at_level c level = do_kill level (level_oomadj c level)

unfoldable pub pressure_verdict : Props → Meminfo → ℤ → Level → Verdict
pressure_verdict c mi mem_pressure level =
    let up = upgraded c mem_pressure level in
    if has_swap c mi
    then if c.downgrade_pressure <? mem_pressure
      then ignore
      else at_level c (downgraded c mem_pressure up)
    else at_level c up

unfoldable pub usage_verdict : Props → VmReadings → Meminfo → Level → Verdict
usage_verdict c r mi level =
    let mem_usage = get_memory_usage r.mem_usage in
    let memsw_usage = get_memory_usage r.memsw_usage in
    if oom_score_adj_max <? level_oomadj c level
    then ignore
    else if mem_usage <? pos 0 || memsw_usage <? pos 0
    then at_level c level
    else pressure_verdict c mi (mem_usage *ℤ pos 100 /ℤ memsw_usage) level

-- From the branch on minfree levels to `do_kill`.
unfoldable pub verdict : VmConfig → VmReadings → Meminfo → List Node → Level → Verdict
verdict c r mi zi level =
    if c.props.use_minfree_levels
    then minfree_verdict c level mi zi
    else usage_verdict c.props r mi level

-- A `return`.
unfoldable pub returned : VmState → Daemon → List Effect → PollingParams → Bool → VmResult
returned s d es poll no_candidates = record {
  state = s;
  daemon = d;
  effects = es;
  poll = poll;
  no_candidates = no_candidates;
}

-- The last lines: the polling pauses while a death is waited for.
unfoldable pub pause : Setup → VmState → Daemon → List Effect → PollingParams → Bool → VmResult
pause c s d es poll no_candidates =
    returned s d es
      (if is_waiting_for_kill c d then record poll { update = polling_pause } else poll)
      no_candidates

-- After the search: a report of nothing freed is rate limited, and then the function returns.
unfoldable pub report :
    Setup → VmState → List Effect → ℤ → Timespec → PollingParams → Outcome → VmResult
report c s es score tm poll o =
    let nothing = o.result ==ℤ pos 0 in
    let hook = nothing && score ==ℤ pos 0 in
    if nothing && get_time_diff_ms s.last_report_tm tm <? fail_report_rlimit_ms
    then returned s o.daemon (es ++ o.effects) poll hook
    else pause c (record s { last_report_tm = tm }) o.daemon (es ++ o.effects) poll hook

unfoldable pub note_low : VmState → Meminfo → Level → VmState
note_low s mi low = record s { low_pressure_mem = record_low_pressure_levels s.low_pressure_mem mi }
note_low s mi medium = s
note_low s mi critical = s

module _ (c : VmConfig) (fuel : ℕ) (k : Kernel) where
  -- The label `do_kill`; `none` when the fuel of the search is used up.
  unfoldable pub kill_at :
      VmState → Daemon → List Effect → Meminfo → Timespec → PollingParams → ℤ → Option VmResult
  kill_at s d es mi tm poll score =
      let search = find_and_kill_process fuel c.setup k d score tm in
      let one : Option VmResult =
        Option.map (λ o. pause c.setup s o.daemon (es ++ o.effects) poll false) search in
      let reported : Option VmResult = Option.map (report c.setup s es score tm poll) search in
      if c.props.low_ram_device
      then one
      else if not c.props.use_minfree_levels
          && s.low_pressure_mem.max_nr_free_pages ≤? mi.nr_free_pages
      then some (returned s d es poll false)
      else reported

  unfoldable pub conclude_vm :
      VmState
      → Daemon
      → List Effect
      → Meminfo
      → Timespec
      → PollingParams
      → Verdict
      → Option VmResult
  conclude_vm s d es mi tm poll ignore = some (returned s d es poll false)
  conclude_vm s d es mi tm poll (do_kill level score) = kill_at s d es mi tm poll score

  -- From the reading of the two files on.
  unfoldable pub assess :
      VmReadings
      → VmState
      → Daemon
      → List Effect
      → Level
      → Timespec
      → PollingParams
      → Option Meminfo
      → Option (List Node)
      → Option VmResult
  assess r s d es level tm poll none zi = some (returned s d es poll false)
  assess r s d es level tm poll (some mi) none = some (returned s d es poll false)
  assess r s d es level tm poll (some mi) (some zi) =
      let s' = if c.props.use_minfree_levels then s else note_low s mi level in
      conclude_vm s' d es mi tm poll (verdict c r mi zi level)

  unfoldable pub mp_event_at :
      VmReadings → VmState → Daemon → Level → PollingParams → Option Timespec → Option VmResult
  mp_event_at r s d level poll none = some (returned s d [] poll false)
  mp_event_at r s d level poll (some tm) =
      let (d', es) = stop_wait_for_proc_kill c.setup d in
      let assessed = assess r s d' es level tm poll r.meminfo r.zoneinfo in
      if is_in_timeout c d tm && is_kill_pending c.setup r.exists d
      then some (returned s d [] poll false)
      else assessed

  unfoldable pub mp_event_common :
      VmReadings → VmState → Daemon → Level → Bool → Option Level → PollingParams → Option VmResult
  mp_event_common r s d trigger events handler poll =
      let level = if c.use_psi_monitors then trigger else upgrade_event r trigger in
      mp_event_at r s d level (start_polling c trigger events handler poll) r.clock

-- ===== src/Pressure/Event.antt =====
-- `__mp_event_psi` of lmkd.cpp as a whole: its guards and early returns, the refresh of the
-- watermarks, the kill and the polling that follows. A `return` leaves the polling as it was.
use system_memory_lmkd.Base.{
  Bool, true, false, not, ◌&&◌, ◌||◌, Option, none, some, List, ltb, if◌then◌else◌,
}
use system_memory_lmkd.Base.Int.{to_word, of_word, ℤ, pos, ◌-ℤ◌, ◌*ℤ◌, ◌/ℤ◌, ◌<?◌, ◌==ℤ◌}
use system_memory_lmkd.Kill.{Daemon, Setup, Effect, is_kill_pending, is_waiting_for_kill}
use system_memory_lmkd.Memory.{
  Meminfo, low, level_rank, Node, calc_zone_watermarks, get_lowest_watermark, calc_swap_utilization,
}
use system_memory_lmkd.Pressure.Decision.{
  Source, psi, vendor, View, Decision, no_kill, is_none, is_direct, decide,
}
use system_memory_lmkd.Pressure.{Vmstat, Monitor, Reclaim, ReclaimState, file_lru, is_swap_low}
use system_memory_lmkd.Props.{Props}
use system_memory_lmkd.Time.{Timespec, get_time_diff_ms}

pub data PollingUpdate : Type 0 where
  polling_do_not_change polling_start polling_pause polling_resume : PollingUpdate

pub record PollingParams : Type 0 where
  pub update : PollingUpdate
  pub polling_interval_ms : ℤ

pub record Config : Type 0 where
  pub props : Props
  pub setup : Setup
  pub mem_event_update_zoneinfo_supported : Bool
  -- NUM_VENDOR_LMK_KILL_REASON
  pub vendor_reasons : ℤ

-- What the kernel answers during one event; `none` where it cannot be read. The zones and the
-- stall are read once more before the first kill. The stall is whether the full average of memory
-- pressure is above `stall_limit_critical`.
pub record Readings : Type 0 where
  pub clock : Option Timespec
  pub exists : ℤ → Bool
  pub vmstat : Option Vmstat
  pub meminfo : Option Meminfo
  pub zoneinfo : Bool → Option (List Node)
  pub stall : Bool → Option Bool
  pub reclaim : Reclaim

pub record Result : Type 0 where
  pub monitor : Monitor
  pub daemon : Daemon
  pub effects : List Effect
  pub poll : PollingParams

-- A lower event within the first polling window is ignored: `none`.
unfoldable pub filter_level : Source → Bool → Monitor → Option Monitor
filter_level (vendor reason least) events m = some m
filter_level (psi level) true m =
    if ltb (level_rank level) (level_rank m.prev_level)
    then none
    else some (record m { prev_level = level })
filter_level (psi level) false m = some (record m { prev_level = low })

unfoldable pub skips_wakeup : Config → Readings → Daemon → Timespec → Bool
skips_wakeup c r d tm =
    is_kill_pending c.setup r.exists d
    && (c.props.kill_timeout_ms ==ℤ pos 0
        || get_time_diff_ms d.last_kill_tm tm <? c.props.kill_timeout_ms)

-- The label `no_kill`.
unfoldable pub finish_poll :
    Config → Daemon → Monitor → Bool → ReclaimState → Bool → PollingParams → PollingParams
finish_poll c d m events reclaim swap_is_low poll =
    if is_waiting_for_kill c.setup d then record poll { update = polling_pause } else record {
      update = if events || m.killing || is_direct reclaim then polling_start else poll.update;
      polling_interval_ms = if swap_is_low || m.killing then pos 10 else pos 100;
    }

-- The label `update_watermarks`; `none` for the return when the zones cannot be read.
unfoldable pub update_watermarks : Config → Readings → Bool → Timespec → Monitor → Option Monitor
update_watermarks c r again tm m =
    let stale : Bool =
      m.watermarks.high_wmark ==ℤ pos 0
      || (not c.mem_event_update_zoneinfo_supported
          && pos 60000 <? get_time_diff_ms m.wmark_update_tm tm) in
    if stale
    then elim (r.zoneinfo again) [
      | none ↦ none
      | some zi ↦ some (record m { watermarks = calc_zone_watermarks zi; wmark_update_tm = tm })
    ]
    else some m

unfoldable pub stalled : Option Bool → Bool → Bool
stalled none before = before
stalled (some b) before = b

-- What one pass from `update_watermarks` to the decision is about.
pub record Pass : Type 0 where
  pub source : Source
  pub events : Bool
  pub cycle_after_kill : Bool
  pub mi : Meminfo
  pub vs : Vmstat
  pub thrashing : ℤ
  pub reclaim : ReclaimState
  pub tm : Timespec

unfoldable pub view_of : Config → Readings → Pass → Monitor → View
view_of c r p m = record {
  source = p.source;
  events = p.events;
  cycle_after_kill = p.cycle_after_kill;
  wmark = get_lowest_watermark p.mi m.watermarks;
  swap_is_low = is_swap_low c.props p.mi;
  swap_util = calc_swap_utilization c.props.swap_compression_ratio p.mi;
  thrashing = p.thrashing;
  thrashing_limit = m.thrashing_limit;
  reclaim = p.reclaim;
  direct_reclaim_duration_ms = get_time_diff_ms r.reclaim.direct_reclaim_start_tm p.tm;
  file_lru_kb = file_lru p.vs *ℤ c.setup.page_k;
}

-- One pass, after an earlier decision whose variables keep their values. A rejected vendor event
-- returns, like zones that cannot be read, with the statics changed so far.
pub data Passed : Type 0 where
  returns : Monitor → Passed
  decides : Monitor → Decision → Bool → Passed

unfoldable pub decide_once : Config → Readings → Pass → Bool → Bool → Monitor → Decision → Passed
decide_once c r p again stall m d = elim (update_watermarks c r again p.tm m) [
  | none ↦ returns m
  | some m' ↦ elim (decide c.props c.vendor_reasons (view_of c r p m') d) [
    | none ↦ returns m'
    | some d' ↦
        decides (record m' { check_filecache = d'.check_filecache }) d'
          (stalled (r.stall again) stall)
  ]
]

-- Before the first kill the watermarks are read again, and the decision is taken again.
unfoldable pub decide_again : Config → Readings → Pass → Passed → Passed
decide_again c r p (returns m) = returns m
decide_again c r p (decides m d stall) =
    let first = record m {
      first_kill = false;
      watermarks = record m.watermarks { high_wmark = pos 0 };
    } in
    let again = decide_once c r p true stall first d in
    if not (is_none d.kill_reason) && m.first_kill then again else decides m d stall

unfoldable pub decide_kill : Config → Readings → Pass → Monitor → Passed
decide_kill c r p m =
    let fresh : Decision = record {
      kill_reason = no_kill;
      min_score_adj = pos 0;
      cut_thrashing_limit = false;
      check_filecache = m.check_filecache;
    } in
    decide_again c r p (decide_once c r p false false m fresh)

-- The statics after a kill that freed memory. The product is one of `int`s, which the source leaves
-- undefined when it overflows; it wraps here.
unfoldable pub after_kill : Props → Bool → Monitor → Monitor
after_kill c cut m = record m {
  killing = true;
  max_thrashing = pos 0;
  thrashing_limit =
      if cut
      then of_word (to_word (m.thrashing_limit *ℤ (pos 100 -ℤ c.thrashing_limit_decay_pct)))
        /ℤ pos 100
      else m.thrashing_limit;
}

-- The score from which on processes may be killed: any, if the system is stalled.
abbrev pub least_score : Decision → Bool → ℤ
least_score d stall = if stall then pos 0 else d.min_score_adj

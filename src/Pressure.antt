-- ===== src/Pressure.antt =====
-- The state of the memory pressure handler `__mp_event_psi` of lmkd.cpp, and its stages up to the
-- decision: each static variable of the function is a field of `Monitor`. What it reads from the
-- kernel is a record. The counters kept for the log are left out.
pub mod Decision
pub mod Event
pub mod Handler
pub mod Ladder
pub mod Limit
pub mod Outcome
pub mod Safety
use system_memory_lmkd.Base.{
  ℕ, ◌/◌, ◌^◌, Bool, true, false, not, ◌&&◌, ◌||◌, Option, none, some, if◌then◌else◌,
}
use system_memory_lmkd.Base.Int.{ℤ, pos, negsuc, pos_part, ◌+ℤ◌, ◌-ℤ◌, ◌*ℤ◌, ◌/ℤ◌, ◌<?◌, ◌==ℤ◌}
use system_memory_lmkd.Memory.{Meminfo, Level, ZoneWatermarks, get_free_swap}
use system_memory_lmkd.Props.{Props}
use system_memory_lmkd.Time.{Timespec, get_time_diff_ms}

-- The fields of `union vmstat` that the handler reads.
pub record Vmstat : Type 0 where
  pub nr_inactive_file : ℤ
  pub nr_active_file : ℤ
  pub workingset_refault : ℤ
  pub workingset_refault_file : ℤ
  pub pgscan_kswapd : ℤ
  pub pgscan_direct : ℤ
  pub pgrefill : ℤ

pub record Monitor : Type 0 where
  pub init_ws_refault : ℤ
  pub prev_workingset_refault : ℤ
  pub base_file_lru : ℤ
  pub init_pgscan_kswapd : ℤ
  pub init_pgscan_direct : ℤ
  pub init_pgrefill : ℤ
  pub killing : Bool
  pub thrashing_limit : ℤ
  pub wmark_update_tm : Timespec
  pub thrashing_reset_tm : Timespec
  pub prev_thrash_growth : ℤ
  pub check_filecache : Bool
  pub max_thrashing : ℤ
  pub first_kill : Bool
  pub watermarks : ZoneWatermarks
  pub prev_level : Level

pub data ReclaimState : Type 0 where
  no_reclaim kswapd_reclaim direct_reclaim : ReclaimState

-- Of the listener for memory events, if there is one: when direct reclaim and kswapd started, zero
-- while they do not run.
pub record Reclaim : Type 0 where
  pub memevent_listener : Bool
  pub direct_reclaim_start_tm : Timespec
  pub kswapd_start_tm : Timespec

unfoldable pub refault_file : Vmstat → ℤ
refault_file vs =
    if vs.workingset_refault ==ℤ pos 0 then vs.workingset_refault_file else vs.workingset_refault

unfoldable pub file_lru : Vmstat → ℤ
file_lru vs = vs.nr_inactive_file +ℤ vs.nr_active_file

-- "Reset states after process got killed".
unfoldable pub reset_after_kill : Monitor → Vmstat → Timespec → Monitor
reset_after_kill m vs tm =
    if m.killing
    then record m {
      killing = false;
      base_file_lru = file_lru vs;
      init_ws_refault = refault_file vs;
      thrashing_reset_tm = tm;
      prev_thrash_growth = pos 0;
    }
    else m

-- "Check free swap levels".
unfoldable pub is_swap_low : Props → Meminfo → Bool
is_swap_low c mi =
    if c.swap_free_low_percentage ==ℤ pos 0
    then false
    else get_free_swap c.swap_compression_ratio mi
      <? mi.total_swap *ℤ c.swap_free_low_percentage /ℤ pos 100

unfoldable pub is_running : Timespec → Bool
is_running t = not (t.tv_sec ==ℤ pos 0) || not (t.tv_nsec ==ℤ pos 0)

-- "Identify reclaim state".
unfoldable pub reclaim_state : Reclaim → Monitor → Vmstat → ReclaimState
reclaim_state r m vs =
    let direct =
      if r.memevent_listener
      then is_running r.direct_reclaim_start_tm
      else not (vs.pgscan_direct ==ℤ m.init_pgscan_direct) in
    let kswapd =
      if r.memevent_listener
      then is_running r.kswapd_start_tm
      else not (vs.pgscan_kswapd ==ℤ m.init_pgscan_kswapd)
        || not (vs.pgrefill ==ℤ m.init_pgrefill) in
    if direct then direct_reclaim else if kswapd then kswapd_reclaim else no_reclaim

unfoldable pub record_reclaim : ReclaimState → Monitor → Vmstat → Monitor
record_reclaim direct_reclaim m vs = record m {
  init_pgscan_direct = vs.pgscan_direct;
  init_pgscan_kswapd = vs.pgscan_kswapd;
  init_pgrefill = vs.pgrefill;
}
record_reclaim kswapd_reclaim m vs = record m {
  init_pgscan_kswapd = vs.pgscan_kswapd;
  init_pgrefill = vs.pgrefill;
}
record_reclaim no_reclaim m vs = m

-- `>>` on an `int64_t` keeps the sign. The source leaves shifts of 64 or more undefined.
unfoldable pub shift_right : ℤ → ℕ → ℤ
shift_right (pos n) w = pos (n / 2 ^ w)
shift_right (negsuc n) w = negsuc (n / 2 ^ w)

-- THRASHING_RESET_INTERVAL_MS
abbrev pub thrashing_reset_interval_ms : ℤ
thrashing_reset_interval_ms = pos 1000

-- The share of the file cache that was read again, in percent.
unfoldable pub refaulted : Monitor → Vmstat → ℤ
refaulted m vs = (refault_file vs -ℤ m.init_ws_refault) *ℤ pos 100 /ℤ (m.base_file_lru +ℤ pos 1)

unfoldable pub decay : ℤ → ℤ → ℤ → ℤ
decay windows limit growth =
    if pos 1 <? windows || growth <? limit then shift_right growth (pos_part windows) else growth

-- A new window starts, with what is left of the last one's growth.
unfoldable pub cross_window : Props → Monitor → Vmstat → Timespec → Monitor
cross_window c m vs tm = record m {
  prev_thrash_growth =
      decay (get_time_diff_ms m.thrashing_reset_tm tm /ℤ thrashing_reset_interval_ms)
        m.thrashing_limit (refaulted m vs);
  base_file_lru = file_lru vs;
  init_ws_refault = refault_file vs;
  thrashing_reset_tm = tm;
  thrashing_limit = c.thrashing_limit_pct;
}

-- The thrashing at this event, and the statics after it.
unfoldable pub update_thrashing : Props → Monitor → Vmstat → Timespec → Monitor × ℤ
update_thrashing c m vs tm =
    let crossed = thrashing_reset_interval_ms <? get_time_diff_ms m.thrashing_reset_tm tm in
    let m' : Monitor = if crossed then cross_window c m vs tm else m in
    let thrashing : ℤ = (if crossed then pos 0 else refaulted m vs) +ℤ m'.prev_thrash_growth in
    (
      record m' {
        prev_workingset_refault = refault_file vs;
        max_thrashing = if m'.max_thrashing <? thrashing then thrashing else m'.max_thrashing;
      },
      thrashing,
    )

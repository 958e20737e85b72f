-- ===== src/Pressure/Decision.antt =====
-- The decision of `__mp_event_psi` whether to kill, why, and which score to spare.
use system_memory_lmkd.Base.{Bool, true, false, ◌&&◌, ◌||◌, Option, none, some, ltb, if◌then◌else◌}
use system_memory_lmkd.Base.Int.{ℤ, pos, ◌+ℤ◌, ◌-ℤ◌, ◌<?◌}
use system_memory_lmkd.Memory.{
  Level, low, medium, critical, ZoneWatermark, wmark_min, wmark_low, wmark_high, wmark_rank,
}
use system_memory_lmkd.Pressure.{ReclaimState, direct_reclaim, kswapd_reclaim, no_reclaim}
use system_memory_lmkd.Props.{Props}

-- `enum kill_reasons`; `no_kill` is NONE, and a vendor's reason comes with its number.
pub data KillReason : Type 0 where
  no_kill pressure_after_kill not_responding low_swap_and_thrashing low_mem_and_swap : KillReason
  low_mem_and_thrashing direct_recl_and_thrashing low_mem_and_swap_util : KillReason
  low_filecache_after_thrashing low_mem direct_recl_stuck : KillReason
  vendor_kill : ℤ → KillReason

-- Where an event comes from.
pub data Source : Type 0 where
  psi : Level → Source
  vendor : ℤ → ℤ → Source

-- What the ladder of conditions looks at.
pub record View : Type 0 where
  pub source : Source
  pub events : Bool
  pub cycle_after_kill : Bool
  pub wmark : ZoneWatermark
  pub swap_is_low : Bool
  pub swap_util : ℤ
  pub thrashing : ℤ
  pub thrashing_limit : ℤ
  pub reclaim : ReclaimState
  pub direct_reclaim_duration_ms : ℤ
  pub file_lru_kb : ℤ

-- The variables that it sets.
pub record Decision : Type 0 where
  pub kill_reason : KillReason
  pub min_score_adj : ℤ
  pub cut_thrashing_limit : Bool
  pub check_filecache : Bool

unfoldable pub is_below : ZoneWatermark → ZoneWatermark → Bool
is_below a b = ltb (wmark_rank a) (wmark_rank b)

unfoldable pub is_critical_event : View → Bool
is_critical_event v = elim v.source [
  | psi level ↦ elim level [ low ↦ false | medium ↦ false | critical ↦ v.events ]
  | vendor reason least ↦ false
]

unfoldable pub is_direct : ReclaimState → Bool
is_direct direct_reclaim = true
is_direct kswapd_reclaim = false
is_direct no_reclaim = false

unfoldable pub is_none : KillReason → Bool
is_none no_kill = true
is_none pressure_after_kill = false
is_none not_responding = false
is_none low_swap_and_thrashing = false
is_none low_mem_and_swap = false
is_none low_mem_and_thrashing = false
is_none direct_recl_and_thrashing = false
is_none low_mem_and_swap_util = false
is_none low_filecache_after_thrashing = false
is_none low_mem = false
is_none direct_recl_stuck = false
is_none (vendor_kill reason) = false

-- PERCEPTIBLE_APP_ADJ + 1 when the condition holds; else as before.
unfoldable pub spare : Bool → ℤ → ℤ
spare b least = if b then pos 201 else least

-- The branches that look at the thrashing, from "swap is low" on.
unfoldable pub decide_load : Props → View → Decision → Decision
decide_load c v d =
    let mild : Bool = v.thrashing <? c.thrashing_critical_pct in
    let below_high : Bool = is_below v.wmark wmark_high in
    let thrashes : Bool = v.thrashing_limit <? v.thrashing in
    let calm : Bool = is_below wmark_min v.wmark && mild in
    if v.swap_is_low && c.thrashing_limit_pct <? v.thrashing
    then record d {
      kill_reason = low_swap_and_thrashing;
      min_score_adj = spare calm d.min_score_adj;
      check_filecache = true;
    }
    else if v.swap_is_low && below_high
    then record d { kill_reason = low_mem_and_swap; min_score_adj = spare calm d.min_score_adj }
    else if below_high && c.swap_util_max <? pos 100 && c.swap_util_max <? v.swap_util
    then record d { kill_reason = low_mem_and_swap_util }
    else if below_high && thrashes
    then record d {
      kill_reason = low_mem_and_thrashing;
      min_score_adj = spare mild d.min_score_adj;
      cut_thrashing_limit = true;
      check_filecache = true;
    }
    else if is_direct v.reclaim && thrashes
    then record d {
      kill_reason = direct_recl_and_thrashing;
      min_score_adj = spare mild d.min_score_adj;
      cut_thrashing_limit = true;
      check_filecache = true;
    }
    else if is_direct v.reclaim
        && pos 0 <? c.direct_reclaim_threshold_ms
        && c.direct_reclaim_threshold_ms <? v.direct_reclaim_duration_ms
    then record d { kill_reason = direct_recl_stuck }
    else if d.check_filecache
    then (if v.file_lru_kb <? c.filecache_min_kb
        then record d { kill_reason = low_filecache_after_thrashing; min_score_adj = pos 201 }
        else record d { check_filecache = false })
    else d

-- "Check if a cached app should be killed".
unfoldable pub decide_low_mem : Props → View → Decision → Decision
decide_low_mem c v d =
    if is_none d.kill_reason && is_below v.wmark wmark_high
    then record d { kill_reason = low_mem; min_score_adj = c.lowmem_min_oom_score }
    else d

unfoldable pub decide_psi : Props → View → Decision → Decision
decide_psi c v d =
    if v.cycle_after_kill && is_below v.wmark wmark_low
    then record d {
      kill_reason = pressure_after_kill;
      min_score_adj = c.pressure_after_kill_min_score;
    }
    else if is_critical_event v
    then record d { kill_reason = not_responding }
    else decide_load c v d

-- VENDOR_KILL_REASON_BASE
abbrev pub vendor_kill_reason_base : ℤ
vendor_kill_reason_base = pos 1000

-- The argument is the number of reasons that vendors have. `none` for an invalid vendor event.
unfoldable pub decide : Props → ℤ → View → Decision → Option Decision
decide c vendor_reasons v d = elim v.source [
  | psi level ↦ some (decide_low_mem c v (decide_psi c v d))
  | vendor reason least ↦
      let bad : Bool =
        reason <? pos 0
        || (vendor_kill_reason_base +ℤ vendor_reasons -ℤ pos 1) <? reason
        || least <? pos 0 in
      if bad
      then none
      else some (
          decide_low_mem c v (record d {
            kill_reason = vendor_kill (reason +ℤ vendor_kill_reason_base);
            min_score_adj = least;
          }))
]

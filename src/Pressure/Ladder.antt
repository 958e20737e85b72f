-- ===== src/Pressure/Ladder.antt =====
-- When the decision is to kill, and when it spares the perceptible processes.
use system_memory_lmkd.Base.{
  ◌≡◌, refl, inl, inr, Bool, true, false, not, ◌&&◌, ◌||◌, some, arith, Bool-cases,
}
use system_memory_lmkd.Base.Int.{ℤ, pos, ◌<?◌, ◌≤ℤ◌}
use system_memory_lmkd.Memory.{
  Level, ZoneWatermark, wmark_min, wmark_low, wmark_high, wmark_none, wmark_rank,
}
use system_memory_lmkd.Pressure.Decision.{
  psi, View, Decision, no_kill, is_below, is_critical_event, is_direct, is_none, spare, decide_load,
  decide_low_mem, decide_psi, decide,
}
use system_memory_lmkd.Props.{Props}

-- Memory is breached, or the device does not respond.
abbrev pub is_breached : View → Bool
is_breached v = is_below v.wmark wmark_high || is_critical_event v

abbrev pub is_stuck : Props → View → Bool
is_stuck c v =
    is_direct v.reclaim
    && pos 0 <? c.direct_reclaim_threshold_ms
    && c.direct_reclaim_threshold_ms <? v.direct_reclaim_duration_ms

-- The cache is read again too often, while swap is low or during direct reclaim.
abbrev pub is_thrashing : Props → View → Bool
is_thrashing c v =
    v.swap_is_low && c.thrashing_limit_pct <? v.thrashing
    || is_direct v.reclaim && v.thrashing_limit <? v.thrashing

-- What calls for a kill.
unfoldable pub calls_for_kill : Props → View → Bool → Bool
calls_for_kill c v checks =
    is_breached v
    || is_thrashing c v
    || is_stuck c v
    || checks && v.file_lru_kb <? c.filecache_min_kb

low_mem-reason :
    (c : Props) (v : View) (d : Decision)
    → is_none (decide_low_mem c v d).kill_reason
      ≡ (is_none d.kill_reason && not (is_below v.wmark wmark_high))
unfolding decide_low_mem is_none
low_mem-reason c v d = ground arith

-- Why a perceptible process may be killed for a pressure event.
abbrev pub permits_perceptible : Props → View → Bool
permits_perceptible c v =
    is_below v.wmark wmark_low
    || is_critical_event v
    || is_stuck c v
    || not (v.thrashing <? c.thrashing_critical_pct)
    || c.swap_util_max <? v.swap_util

above_min : (w : ZoneWatermark) → is_below w wmark_low ≡ false → is_below wmark_min w ≡ true
unfolding is_below wmark_rank
above_min wmark_min e = ground (arith, e)
above_min wmark_low e = refl
above_min wmark_high e = refl
above_min wmark_none e = refl

psi-spares :
    (c : Props) (v : View) (d : Decision)
    → d.kill_reason ≡ no_kill
    → permits_perceptible c v ≡ false
    → is_none (decide_psi c v d).kill_reason ≡ false
    → pos 201 ≤ℤ (decide_psi c v d).min_score_adj
unfolding decide_psi decide_load is_none spare
psi-spares c v d fresh no_permit kills = ground (arith, fresh, no_permit, kills, above_min v.wmark)

-- Unless the min watermark is breached, a critical event came in, direct reclaim is stuck, the
-- thrashing is at its critical limit or swap utilization is above its maximum, a fresh decision on a
-- pressure event to kill spares every perceptible process: its least score is at least 201, where
-- the setting for low memory alone is.
pub decide-spares :
    (c : Props) (vendor_reasons : ℤ) (v : View) (d d' : Decision) (level : Level)
    → pos 201 ≤ℤ c.lowmem_min_oom_score
    → v.source ≡ psi level
    → d.kill_reason ≡ no_kill
    → decide c vendor_reasons v d ≡ some d'
    → permits_perceptible c v ≡ false
    → is_none d'.kill_reason ≡ false
    → pos 201 ≤ℤ d'.min_score_adj
unfolding decide decide_low_mem
decide-spares c n v d d' level low from fresh e no_permit kills =
    let decided : decide_low_mem c v (decide_psi c v d) ≡ d' = ground (arith, from, e) in
    let spared = psi-spares c v d fresh no_permit in
    elim (Bool-cases (is_none (decide_psi c v d).kill_reason)) [
      | inl b ↦ ground (arith, b, decided, kills, low, low_mem-reason c v (decide_psi c v d))
      | inr b ↦ ground (arith, b, decided, kills, spared)
    ]

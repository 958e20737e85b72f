-- ===== src/Memevents.antt =====
-- The listener for the kernel's memory events: memevent_listener_notification of lmkd.cpp, over a batch
-- of events. What the kernel answers while an event is handled comes with the event.
pub mod Reclaims
use system_memory_lmkd.Base.{
  ℕ, Bool, true, false, Option, none, some, List, [], ◌∷◌, ◌++◌, if◌then◌else◌,
}
use system_memory_lmkd.Base.Int.{ℤ, pos}
use system_memory_lmkd.Kill.{Kernel, Effect}
use system_memory_lmkd.Memory.{Node, calc_zone_watermarks}
use system_memory_lmkd.Pressure.{Monitor, Reclaim}
use system_memory_lmkd.Pressure.Decision.{vendor}
use system_memory_lmkd.Pressure.Event.{Config, Readings, Result}
use system_memory_lmkd.Pressure.Handler.{mp_event_psi}
use system_memory_lmkd.Time.{Timespec, zero_tm}

-- Another type than these is passed over by the `switch`.
pub data MemEvent : Type 0 where
  direct_reclaim_begin direct_reclaim_end kswapd_wake kswapd_sleep other : MemEvent
  vendor_lmk_kill : ℤ → ℤ → Kernel → Readings → MemEvent
  update_zoneinfo : Option (List Node) → MemEvent

-- The statics: those of the pressure event and those of the listener. The effects are in their order.
pub record State : Type 0 where
  pub result : Result
  pub reclaim : Reclaim

unfoldable pub set_direct : Timespec → State → State
set_direct tm s = record s { reclaim = record s.reclaim { direct_reclaim_start_tm = tm } }

unfoldable pub set_kswapd : Timespec → State → State
set_kswapd tm s = record s { reclaim = record s.reclaim { kswapd_start_tm = tm } }

-- A failure to parse leaves the watermarks as they are.
unfoldable pub update_zoneinfo_watermarks : Option (List Node) → Monitor → Monitor
update_zoneinfo_watermarks none m = m
update_zoneinfo_watermarks (some zi) m = record m { watermarks = calc_zone_watermarks zi }

-- What a vendor's event leaves, behind the effects so far. `none`: out of fuel.
unfoldable pub after_vendor : State → Option Result → Option State
after_vendor s none = none
after_vendor s (some r) =
    some (record s { result = record r { effects = s.result.effects ++ r.effects } })

module _ (c : Config) (fuel : ℕ) where
  unfoldable pub handle : Timespec → MemEvent → State → Option State
  handle tm direct_reclaim_begin s = some (set_direct tm s)
  handle tm direct_reclaim_end s = some (set_direct zero_tm s)
  handle tm kswapd_wake s = some (set_kswapd tm s)
  handle tm kswapd_sleep s = some (set_kswapd zero_tm s)
  handle tm other s = some s
  handle tm (vendor_lmk_kill reason least k r) s =
      let p = s.result in
      after_vendor s (
        mp_event_psi c (record r { reclaim = s.reclaim }) fuel k p.daemon p.monitor
          (vendor reason least) false p.poll)
  handle tm (update_zoneinfo zi) s =
      let p = s.result in
      some (record s { result = record p { monitor = update_zoneinfo_watermarks zi p.monitor } })

  unfoldable pub handle_all : Timespec → List MemEvent → State → Option State
  handle_all tm [] s = some s
  handle_all tm (e ∷ es) s = elim (handle tm e s) [ none ↦ none | some t ↦ handle_all tm es t ]

  -- Without the time or the events direct reclaim counts as ended.
  unfoldable pub memevent_listener_notification :
      Option Timespec → Option (List MemEvent) → State → Option State
  memevent_listener_notification none events s = some (set_direct zero_tm s)
  memevent_listener_notification (some tm) none s = some (set_direct zero_tm s)
  memevent_listener_notification (some tm) (some events) s = handle_all tm events s

-- ===== src/Tests/Batches.antt =====
-- A batch of memory events, on the phone of the kill path.
use system_memory_lmkd.Base.{◌≡◌, true, some, List, [], ◌∷◌, arith}
use system_memory_lmkd.Base.Int.{pos}
use system_memory_lmkd.Kill.Removal.{Follows}
use system_memory_lmkd.Memevents.{
  MemEvent, direct_reclaim_begin, kswapd_sleep, vendor_lmk_kill, State,
  memevent_listener_notification,
}
use system_memory_lmkd.Memevents.Reclaims.{notification-Ends}
use system_memory_lmkd.Props.{clamp, read_props, update_props}
use system_memory_lmkd.Tests.Events.{config, readings, monitor, unknown, idle, three_seconds}
use system_memory_lmkd.Tests.Kills.{both, both-IsValid, daemon, kernel, short_slots}
use system_memory_lmkd.Time.{Timespec, zero_tm}

abbrev kswapd_running : State
kswapd_running = record {
  result = record { monitor = monitor unknown; daemon = daemon; effects = []; poll = idle };
  reclaim = record {
    memevent_listener = true;
    direct_reclaim_start_tm = zero_tm;
    kswapd_start_tm = three_seconds;
  };
}

-- A vendor's kill in the midst of direct reclaim, and the end of kswapd's run.
abbrev batch : List MemEvent
batch =
    direct_reclaim_begin
    ∷ vendor_lmk_kill (pos 0) (pos 900) kernel (readings (pos 6000))
    ∷ kswapd_sleep
    ∷ []

abbrev noon : Timespec
noon = record { tv_sec = pos 100; tv_nsec = pos 7 }

notification-Ends_example :
    (t : State) × (memevent_listener_notification config 3 (some noon) (some batch) kswapd_running
      ≡ some t)
    × (t.reclaim ≡ record {
      memevent_listener = true;
      direct_reclaim_start_tm = noon;
      kswapd_start_tm = zero_tm;
    })
    × Follows both t.result.daemon.registry
unfolding read_props update_props clamp
notification-Ends_example =
    notification-Ends config 3 noon batch kswapd_running (omega arith) (omega arith)
      (tt, (omega arith, (tt, tt))) both-IsValid short_slots

-- ===== src/Tests/Loops.antt =====
-- The event loop, on the phone of the kill path.
use system_memory_lmkd.Base.{◌≡◌, refl, true, false, some, none, [], ◌∷◌, arith}
use system_memory_lmkd.Base.Int.{pos, ◌≤ℤ◌, ◌+ℤ◌, ◌-ℤ◌, ◌*ℤ◌, ◌/ℤ◌}
use system_memory_lmkd.Kill.{is_waiting_for_kill}
use system_memory_lmkd.Mainloop.Waits.{IsWithin, next_wait-IsWithin, expire-polls}
use system_memory_lmkd.Mainloop.{
  Loop, poll_now, next_wait, expire, call, close_connection, other, handle_events, first_pass,
  second_pass, hung_up,
}
use system_memory_lmkd.Pressure.Event.{polling_pause}
use system_memory_lmkd.Tests.Kills.{daemon, setup}
use system_memory_lmkd.Time.{Timespec, zero_tm, get_time_diff_ms}

-- A victim's descriptor is waited for.
abbrev waiting : Loop
waiting = record {
  polling = record {
    poll_handler = none;
    paused_handler = some 2;
    poll_start_tm = zero_tm;
    last_poll_tm = zero_tm;
    polling_interval_ms = pos 10;
  };
  update = polling_pause;
  daemon = record daemon { last_kill = pos 40 };
}

abbrev soon : Timespec
soon = record { tv_sec = pos 0; tv_nsec = pos 40000000 }

elapsed : pos 0 ≤ℤ get_time_diff_ms zero_tm soon
unfolding get_time_diff_ms ◌+ℤ◌ ◌-ℤ◌ ◌*ℤ◌ ◌/ℤ◌
elapsed = omega arith

awaited : is_waiting_for_kill setup waiting.daemon ≡ true
unfolding is_waiting_for_kill
awaited = refl

next_wait-IsWithin_example : IsWithin (pos 10) (pos 100) (next_wait (pos 100) setup waiting soon)
next_wait-IsWithin_example =
    next_wait-IsWithin (pos 100) setup waiting soon (omega arith) (omega arith) awaited elapsed
      elapsed

expired_polled :
    ((expire setup waiting soon).0.polling.poll_handler ≡ some 2)
    × (next_wait (pos 100) setup (expire setup waiting soon).0 soon ≡ poll_now)
    × (is_waiting_for_kill setup (expire setup waiting soon).0.daemon ≡ false)
expired_polled = expire-polls (pos 100) setup waiting 2 soon soon refl

-- A connection that hangs up is closed before a command on another one is read.
hangs_up_first :
    handle_events (
      record { hup = false; handler = some (other 1) }
      ∷ record { hup = true; handler = some (other 0) }
      ∷ [])
    ≡ close_connection 0 ∷ call (other 1) ∷ []
unfolding handle_events first_pass second_pass hung_up
hangs_up_first = refl

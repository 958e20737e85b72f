-- ===== src/Watchdog/Timer.antt =====
-- `class Watchdog` of watchdog.cpp, and the mainloop's use of it around a handler: the timer of the
-- watchdog's thread, which sends it SIGALRM, and what makes the thread bite.
use system_memory_lmkd.Base.{ℕ, Bool, true, false, Option, none, some, if◌then◌else◌}

-- `armed` is the number of seconds of the running timer.
pub record Watchdog : Type 0 where
  pub timeout : ℕ
  pub timer_created : Bool
  pub armed : Option ℕ

unfoldable pub new : ℕ → Watchdog
new timeout = record { timeout = timeout; timer_created = false; armed = none }

-- Whether `sigprocmask` and `timer_create` work.
unfoldable pub create_timer : Bool → Bool → Watchdog → Watchdog × Bool
create_timer masks creates w =
    if masks
    then if creates then (record w { timer_created = true }, true) else (w, false)
    else (w, false)

-- Whether `timer_settime` works.
unfoldable pub start : Bool → Watchdog → Watchdog × Bool
start sets w =
    if w.timer_created
    then if sets then (record w { armed = some w.timeout }, true) else (w, false)
    else (w, false)

unfoldable pub stop : Bool → Watchdog → Watchdog × Bool
stop sets w =
    if w.timer_created
    then if sets then (record w { armed = none }, true) else (w, false)
    else (w, false)

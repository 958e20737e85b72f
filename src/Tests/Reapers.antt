-- ===== src/Tests/Reapers.antt =====
-- The reaper with two threads, asked for one kill.
use system_memory_lmkd.Base.{ℕ, ◌<◌, ◌≡◌, ◌⊎◌, refl, Bool, true, false, update, [], length, arith}
use system_memory_lmkd.Base.Int.{pos}
use system_memory_lmkd.Reaper.Balance.{Balanced, Reach-Balanced}
use system_memory_lmkd.Reaper.Drain.{queued-thread, Run-Settled, work, Settled}
use system_memory_lmkd.Reaper.System.{
  sleep, sleeps, Notified, wakes_one, System, waiting, start, request, take, Works, takes, Reach,
  here, next, requests, works, stay, more,
}
use system_memory_lmkd.Reaper.{
  TargetProc, Reaper, new, create_threads, init, async_kill, dequeue_request,
}

reaper_program : Unit {0}
unfolding new create_threads init async_kill dequeue_request start request take sleep
reaper_program = tt

abbrev victim : TargetProc
victim = record { pidfd = pos 40; pid = pos 10; uid = pos 10010 }

abbrev every : ℕ → Bool
every i = true

-- A thread finds nothing to do and waits at the condition variable, until the request wakes it.
abbrev slept : System
slept = sleep (start every (pos 7)) 0

sleep_step : Works (start every (pos 7)) slept
unfolding reaper_program
sleep_step = sleeps (start every (pos 7)) 0 (omega arith) refl refl

abbrev asked : System
asked = request slept (pos 50) victim (update slept.pc 0 waiting)

one_woken : Notified slept.reaper.thread_cnt slept.pc (update slept.pc 0 waiting)
unfolding reaper_program
one_woken = wakes_one 0 (omega arith) refl

asked_reached : Reach (start every (pos 7)) asked
asked_reached =
    next (next here (works sleep_step))
      (requests slept (pos 50) victim (update slept.pc 0 waiting) one_woken)

abbrev duplicate : TargetProc
duplicate = record victim { pidfd = pos 50 }

abbrev emptied : Reaper
emptied = record { queue = []; active_requests = 1; thread_cnt = 2; comm_fd = pos 7 }

abbrev taken : System
taken = take asked 1 emptied duplicate

take_step : Works asked taken
unfolding reaper_program
take_step = takes asked 1 emptied duplicate (omega arith) refl refl

Reach-Balanced_example : Balanced taken
Reach-Balanced_example = Reach-Balanced every (pos 7) (next asked_reached (works take_step))

one_queued : 0 < length asked.reaper.queue
unfolding reaper_program
one_queued = omega arith

queued-thread_example : (i : ℕ) × (i < asked.reaper.thread_cnt) × (asked.pc i ≡ waiting)
queued-thread_example = queued-thread every (pos 7) asked_reached one_queued

Run-Settled_example :
    ((1 < work asked) × ((t : System) × Works taken t)) ⊎ ((1 ≡ work asked) × Settled taken)
Run-Settled_example = Run-Settled every (pos 7) asked_reached (more take_step stay)

-- A third request finds both threads busy.
third_refused : (async_kill (record emptied { active_requests = 2 }) (pos 52) victim).1 ≡ false
unfolding reaper_program
third_refused = refl

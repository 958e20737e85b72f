-- ===== src/Tests/Watchdogs.antt =====
-- The watchdog, on the phone of the kill path with a launcher added.
use system_memory_lmkd.Base.{
  ℕ, ◌≤◌, ◌≡◌, ◌≢◌, ◌↔◌, refl, true, false, Option, some, none, [], length, arith, leb,
}
use system_memory_lmkd.Base.Int.{ℤ, pos, negsuc}
use system_memory_lmkd.Reaper.{Signals, new, async_kill, kill}
use system_memory_lmkd.Registry.Hash.{adj_to_slot}
use system_memory_lmkd.Registry.{empty, pid_lookup}
use system_memory_lmkd.Tests.Kills.{kill_program, both, both-IsValid}
use system_memory_lmkd.Watchdog.Crash.{find_victim-crashed}
use system_memory_lmkd.Watchdog.Victim.{Chosen, watchdog_callback-Chosen}
use system_memory_lmkd.Watchdog.{
  Bite, bitten, spared, null_pointer, crashed, backwards, prev_among, proc_adj_prev, tail_node,
  copy, target_at, or_tail, find_victim, is_killed, bite, watchdog_callback, after_bite,
}

watchdog_program : Unit {0}
unfolding kill_program new async_kill kill backwards prev_among proc_adj_prev tail_node copy
    target_at or_tail find_victim is_killed bite watchdog_callback after_bite
watchdog_program = tt

-- Signals reach every process.
abbrev signals : Signals
signals = record { kill = λ pid. pos 0; pidfd_send_signal = λ fd. pos 0 }

no_zero : pid_lookup both (pos 0) ≡ none
unfolding kill_program
no_zero = refl

at_most_one : (t : ℕ) → length (both.slots t) ≤ 1
unfolding kill_program
at_most_one t = ground arith

watchdog_callback-Chosen_example :
    Chosen signals new both (pos 1001) (watchdog_callback signals new (λ n. both) 2003)
watchdog_callback-Chosen_example =
    watchdog_callback-Chosen signals new both 1 2003 both-IsValid no_zero at_most_one (omega arith)

find_victim-crashed_example :
    (find_victim both (pos 800) (pos 10) ≡ crashed)
    ↔ ((pos 10 ≢ pos 0) × (both.slots (adj_to_slot (pos 800)) ≡ []))
find_victim-crashed_example = find_victim-crashed both (pos 800) (pos 10)

abbrev victim_pid : Option Bite → Option ℤ
victim_pid none = none
victim_pid (some (bitten p)) = some p.pid
victim_pid (some null_pointer) = some (negsuc 0)
victim_pid (some spared) = none

-- The process of the highest score dies.
highest_dies : victim_pid (watchdog_callback signals new (λ n. both) 200) ≡ some (pos 10)
unfolding watchdog_program
highest_dies = refl

-- The main thread removes both processes while the watchdog fails to kill the first.
emptied_meanwhile :
    watchdog_callback
      (record signals { pidfd_send_signal = λ fd. negsuc 0 })
      new
      (λ n. elim (leb n 95) [ true ↦ both | false ↦ empty ])
      200
    ≡ some null_pointer
unfolding watchdog_program
emptied_meanwhile = refl

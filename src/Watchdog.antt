-- ===== src/Watchdog.antt =====
-- The watchdog: `watchdog_callback` of lmkd.cpp with `proc_adj_prev` and `find_victim`, and the timer
-- of watchdog.cpp. The callback runs in a thread of its own, and holds the lock of the lists only
-- within `find_victim`: the main thread may change the registry between its calls.
pub mod Backwards
pub mod Crash
pub mod Level
pub mod Timer
pub mod Victim
use system_memory_lmkd.Base.{
  ℕ, zero, suc, ◌+◌, Bool, true, false, ◌&&◌, Option, none, some, List, [], ◌∷◌, ◌++◌,
  if◌then◌else◌,
}
use system_memory_lmkd.Base.Int.{ℤ, pos, negsuc, ◌-ℤ◌, ◌<?◌, ◌==ℤ◌}
use system_memory_lmkd.Reaper.{Reaper, Signals, TargetProc, kill}
use system_memory_lmkd.Registry.Chain.{Proc}
use system_memory_lmkd.Registry.Hash.{adj_to_slot}
use system_memory_lmkd.Registry.{Registry, pid_lookup, pid_invalidate, proc_adj_tail}

-- The nodes of a list from its tail on.
unfoldable pub backwards : List ℤ → List ℤ
backwards [] = []
backwards (x ∷ xs) = backwards xs ++ x ∷ []

-- What a search for a node comes to: a null pointer that is read, a null pointer that is returned,
-- the head of the list, or a node.
pub data Position : Type 0 where
  null_read null at_head : Position
  node : ℤ → Position

-- Of the nodes from the tail on, the one behind the pid's.
unfoldable pub prev_among : ℤ → List ℤ → Position
prev_among pid [] = null
prev_among pid (x ∷ []) = if x ==ℤ pid then at_head else null
prev_among pid (x ∷ y ∷ ys) =
    let rest = prev_among pid (y ∷ ys) in if x ==ℤ pid then node y else rest

-- The walk starts at `adjslot_tail`, which is null when the list is empty, and reads the pid there.
unfoldable pub proc_adj_prev : Registry → ℤ → ℤ → Position
proc_adj_prev r oomadj pid = elim (r.slots (adj_to_slot oomadj)) [
  | [] ↦ null_read
  | x ∷ xs ↦ prev_among pid (backwards (x ∷ xs))
]

unfoldable pub tail_node : Registry → ℤ → Position
tail_node r oomadj = elim (proc_adj_tail r oomadj) [ none ↦ null | some pid ↦ node pid ]

pub data Found : Type 0 where
  crashed nothing : Found
  found : Proc → Found

-- The record that a node stands in.
unfoldable pub copy : Registry → ℤ → Found
copy r pid = elim (pid_lookup r pid) [ none ↦ nothing | some p ↦ found p ]

-- "the list is empty at this oom_score or we looped through it"
unfoldable pub target_at : Registry → Position → Found
target_at r null_read = crashed
target_at r null = nothing
target_at r at_head = nothing
target_at r (node pid) = copy r pid

-- "pid was removed, restart at the tail"
unfoldable pub or_tail : Registry → ℤ → Position → Position
or_tail r oom_score null_read = null_read
or_tail r oom_score null = tail_node r oom_score
or_tail r oom_score at_head = at_head
or_tail r oom_score (node pid) = node pid

unfoldable pub find_victim : Registry → ℤ → ℤ → Found
find_victim r oom_score prev_pid = target_at r (
    if prev_pid ==ℤ pos 0
    then tail_node r oom_score
    else or_tail r oom_score (proc_adj_prev r oom_score prev_pid))

-- The reaper kills at once, without its threads.
unfoldable pub is_killed : Signals → Reaper → Proc → Bool
is_killed k reaper p =
    p.valid
    && (kill k reaper (negsuc 0) (record { pidfd = p.pidfd; pid = p.pid; uid = p.uid }) true).1
      ==ℤ pos 0

-- How the callback ends: at a null pointer, with nobody killed, or with a victim.
pub data Bite : Type 0 where
  null_pointer spared : Bite
  bitten : Proc → Bite

module _ (k : Signals) (reaper : Reaper) (view : ℕ → Registry) where
  -- The registry at the `n`th call of `find_victim` is `view n`; `none` when the fuel is used up.
  unfoldable pub bite : ℕ → ℕ → ℤ → ℤ → Option Bite
  bite zero n oom_score prev_pid = none
  bite (suc fuel) n oom_score prev_pid =
      if oom_score <? pos 0 then some spared else elim (find_victim (view n) oom_score prev_pid) [
        | crashed ↦ some null_pointer
        | nothing ↦ bite fuel (n + 1) (oom_score -ℤ pos 1) (pos 0)
        | found p ↦ elim (is_killed k reaper p) [
          | true ↦ some (bitten p)
          | false ↦ bite fuel (n + 1) oom_score p.pid
        ]
      ]

  unfoldable pub watchdog_callback : ℕ → Option Bite
  watchdog_callback fuel = bite fuel 0 (pos 1000) (pos 0)

-- The victim's record is only marked, since the main thread owns it.
unfoldable pub after_bite : Registry → Bite → Registry
after_bite r null_pointer = r
after_bite r spared = r
after_bite r (bitten p) = pid_invalidate r p.pid

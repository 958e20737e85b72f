-- ===== src/Kill/Search.antt =====
-- The choice of a victim: `proc_get_heaviest` and `find_and_kill_process` of lmkd.cpp.
use mathlib.Core.Option
use system_memory_lmkd.Base.{
  ℕ, zero, suc, Bool, ◌||◌, Option, none, some, List, [], ◌∷◌, ◌++◌, if◌then◌else◌,
}
use system_memory_lmkd.Base.Int.{ℤ, pos, pos_part, ◌-ℤ◌, ◌==ℤ◌, ◌<?◌, ◌≤?◌}
use system_memory_lmkd.Kill.{
  Daemon, Setup, Kernel, Effect, Outcome, Stepped, closing, kill_one_process,
}
use system_memory_lmkd.Registry.Chain.{Proc}
use system_memory_lmkd.Registry.Hash.{adj_to_slot}
use system_memory_lmkd.Registry.{pid_lookup, pid_remove, proc_adj_tail}
use system_memory_lmkd.Time.{Timespec}

-- The loop of `proc_get_heaviest` over the nodes from one on, with the heaviest so far. A process
-- whose size cannot be read is removed.
unfoldable pub heaviest_of : Kernel → Daemon → List ℤ → Option ℤ → ℤ → Stepped × Option ℤ
heaviest_of k d [] best maxsize = ((d, []), best)
heaviest_of k d (pid ∷ pids) best maxsize =
    let gone = pid_remove d.last_kill d.registry pid in
    let (rest, found) =
      heaviest_of k (if k.size pid <? pos 0 then record d { registry = gone.registry } else d) pids
        (if maxsize <? k.size pid then some pid else best)
        (if maxsize <? k.size pid then k.size pid else maxsize) in
    ((rest.0, (if k.size pid <? pos 0 then closing gone.closed else []) ++ rest.1), found)

-- One process alone is taken without a look at its size.
unfoldable pub proc_get_heaviest : Kernel → Daemon → List ℤ → Stepped × Option ℤ
proc_get_heaviest k d [] = ((d, []), none)
proc_get_heaviest k d (pid ∷ []) = ((d, []), some pid)
proc_get_heaviest k d (pid ∷ next ∷ pids) = heaviest_of k d (pid ∷ next ∷ pids) none (pos 0)

unfoldable pub choose_victim : Kernel → Daemon → Bool → ℤ → Stepped × Option ℤ
choose_victim k d heaviest i =
    let slot = d.registry.slots (adj_to_slot i) in
    let heavy = proc_get_heaviest k d slot in
    if heaviest then heavy else ((d, []), proc_adj_tail d.registry i)

-- The record behind a node.
unfoldable pub victim_record : Daemon → Option ℤ → Option Proc
victim_record d none = none
victim_record d (some pid) = pid_lookup d.registry pid

unfoldable pub after : List Effect → Outcome → Outcome
after es o = record o { effects = es ++ o.effects }

-- The inner loop at one score. `killed_size` is what the last attempt left; with no victim it is
-- left as it was. `none`: the fuel is used up.
unfoldable pub kill_at_level :
    ℕ → Setup → Kernel → Daemon → Bool → ℤ → Timespec → ℤ → Option Outcome
kill_at_level zero s k d heaviest i tm killed_size = none
kill_at_level (suc fuel) s k d heaviest i tm killed_size =
    let ((d', closed), pid) = choose_victim k d heaviest i in
    elim (victim_record d' pid) [
      | none ↦ some (record { daemon = d'; result = killed_size; effects = closed })
      | some p ↦
          let o = kill_one_process s k d' p tm in
          let again =
            Option.map (after (closed ++ o.effects))
              (kill_at_level fuel s k o.daemon heaviest i tm o.result) in
          if pos 0 ≤? o.result then some (after closed o) else again
    ]

-- PERCEPTIBLE_APP_ADJ
abbrev pub perceptible : ℤ
perceptible = pos 200

-- The outer loop, for `n` more scores from `i` down.
unfoldable pub kill_levels : ℕ → ℕ → Setup → Kernel → Daemon → Bool → ℤ → Timespec → Option Outcome
kill_levels zero fuel s k d heaviest i tm =
    some (record { daemon = d; result = pos 0; effects = [] })
kill_levels (suc n) fuel s k d heaviest i tm =
    let heaviest' = heaviest || i ≤? perceptible in
    elim (kill_at_level fuel s k d heaviest' i tm (pos 0)) [
      | none ↦ none
      | some o ↦
          let rest =
            Option.map (after o.effects)
              (kill_levels n fuel s k o.daemon heaviest' (i -ℤ pos 1) tm) in
          if o.result ==ℤ pos 0 then rest else some o
    ]

-- The scores from 1000 down to the least one allowed.
unfoldable pub find_and_kill_process : ℕ → Setup → Kernel → Daemon → ℤ → Timespec → Option Outcome
find_and_kill_process fuel s k d min_score_adj tm =
    kill_levels (pos_part (pos 1001 -ℤ min_score_adj)) fuel s k d s.kill_heaviest_task (pos 1000) tm

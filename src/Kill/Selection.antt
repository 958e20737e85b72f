-- ===== src/Kill/Selection.antt =====
-- The loops of `find_and_kill_process`: they end, and what they have done by then.
use system_memory_lmkd.Base.{
  ℕ, zero, suc, ◌<◌, ◌≡◌, refl, inl, inr, Bool, ◌||◌, Option, some, [], ◌++◌, All, length, arith,
  Bool-cases, Option-cases,
}
use system_memory_lmkd.Base.Int.{ℤ, pos, negsuc, pos_part, ◌+ℤ◌, ◌-ℤ◌, ◌≤ℤ◌, ◌≤?◌, ◌==ℤ◌, int_laws}
use system_memory_lmkd.Kill.Attempt.{victims}
use system_memory_lmkd.Kill.Heaviest.{victim-oomadj}
use system_memory_lmkd.Kill.Progress.{
  Progress, same-Progress, then-Progress, IsAllowed, count_all, choose_victim-Progress,
  kill_one_process-Progress, kill_one_process-shorter,
}
use system_memory_lmkd.Kill.Search.{
  choose_victim, victim_record, kill_at_level, kill_levels, find_and_kill_process, after,
  perceptible,
}
use system_memory_lmkd.Kill.{Daemon, Setup, Kernel, Outcome, kill_one_process}
use system_memory_lmkd.Registry.Hash.{adj_to_slot, IsScore}
use system_memory_lmkd.Registry.Invariant.{IsValid}
use system_memory_lmkd.Time.{Timespec}

-- A run that ends, with what it has done.
pub record Ends (d : Daemon) (least : ℤ) (run : Option Outcome) : Type 0 where
  pub outcome : Outcome
  pub ends : run ≡ some outcome
  pub progress : Progress d least outcome.daemon outcome.effects

module _ (s : Setup) (k : Kernel) (tm : Timespec) (least : ℤ) where
  level-Ends :
      (fuel : ℕ) (d : Daemon) (heaviest : Bool) (i killed_size : ℤ)
      → IsValid d.registry
      → IsScore i
      → least ≤ℤ i
      → length (d.registry.slots (adj_to_slot i)) < fuel
      → Ends d least (kill_at_level fuel s k d heaviest i tm killed_size)
  unfolding kill_at_level after
  level-Ends zero d heaviest i size v sc low h = absurd (omega arith)
  level-Ends (suc fuel) d heaviest i size v sc low h =
      let d' = (choose_victim k d heaviest i).0.0 in
      let closed = (choose_victim k d heaviest i).0.1 in
      let chosen = choose_victim-Progress k d heaviest i least v in
      elim (Option-cases (victim_record d' (choose_victim k d heaviest i).1)) [
        | inl e ↦ record {
          outcome = record { daemon = d'; result = size; effects = closed };
          ends = rw (e, kill_at_level) refl;
          progress = chosen;
        }
        | inr (p, e) ↦
            let o = kill_one_process s k d' p tm in
            let (at_i, here) = victim-oomadj k d heaviest i v p sc e in
            let tried =
              kill_one_process-Progress s k d' p tm least chosen.follows.well_formed here
                (ground (arith, at_i)) in
            elim (Bool-cases (pos 0 ≤? o.result)) [
              | inl r ↦ record {
                outcome = after closed o;
                ends = rw (e, kill_at_level, r) refl;
                progress = then-Progress d d' o.daemon least closed o.effects chosen tried;
              }
              | inr r ↦
                  let rest =
                    level-Ends fuel o.daemon heaviest i o.result tried.follows.well_formed sc low (
                      ground (
                        arith,
                        at_i,
                        chosen.follows.fewer (adj_to_slot i),
                        kill_one_process-shorter s k d' p tm least chosen.follows.well_formed here
                            (ground (arith, r)),
                      )) in
                  record {
                    outcome = after (closed ++ o.effects) rest.outcome;
                    ends = rw (e, kill_at_level, r, rest.ends) refl;
                    progress =
                        then-Progress d o.daemon rest.outcome.daemon least (closed ++ o.effects)
                          rest.outcome.effects
                          (then-Progress d d' o.daemon least closed o.effects chosen tried)
                          rest.progress;
                  }
            ]
      ]

  levels-Ends :
      (n fuel : ℕ) (d : Daemon) (heaviest : Bool) (i : ℤ)
      → IsValid d.registry
      → negsuc 999 ≤ℤ least
      → i ≤ℤ pos 1000
      → least +ℤ pos n ≤ℤ i +ℤ pos 1
      → ((t : ℕ) → length (d.registry.slots t) < fuel)
      → Ends d least (kill_levels n fuel s k d heaviest i tm)
  unfolding kill_levels after
  levels-Ends zero fuel d heaviest i v b t h l = record {
    outcome = record { daemon = d; result = pos 0; effects = [] };
    ends = refl;
    progress = same-Progress d least v;
  }
  levels-Ends (suc n) fuel d heaviest i v b t h l =
      let heaviest' = heaviest || i ≤? perceptible in
      let low : least ≤ℤ i = omega (int_laws, h) in
      let level =
        level-Ends fuel d heaviest' i (pos 0) v (ground (arith, b, low), t) low
          (l (adj_to_slot i)) in
      let o = level.outcome in
      elim (Bool-cases (o.result ==ℤ pos 0)) [
        | inr r ↦ record {
          outcome = o;
          ends = rw (level.ends, kill_levels, r) refl;
          progress = level.progress;
        }
        | inl r ↦
            let rest =
              levels-Ends n fuel o.daemon heaviest' (i -ℤ pos 1) level.progress.follows.well_formed
                b (omega (int_laws, t)) (omega (int_laws, h))
                (λ t. omega (arith, l t, level.progress.follows.fewer t)) in
            record {
              outcome = after o.effects rest.outcome;
              ends = rw (level.ends, kill_levels, r, rest.ends) refl;
              progress =
                  then-Progress d o.daemon rest.outcome.daemon least o.effects rest.outcome.effects
                    level.progress rest.progress;
            }
      ]

pub search-Ends :
    (fuel : ℕ) (s : Setup) (k : Kernel) (d : Daemon) (least : ℤ) (tm : Timespec)
    → IsValid d.registry
    → negsuc 999 ≤ℤ least
    → least ≤ℤ pos 1001
    → ((t : ℕ) → length (d.registry.slots t) < fuel)
    → Ends d least (find_and_kill_process fuel s k d least tm)
unfolding find_and_kill_process ◌+ℤ◌ ◌-ℤ◌
search-Ends fuel s k d least tm v b t l =
    levels-Ends s k tm least (pos_part (pos 1001 -ℤ least)) fuel d s.kill_heaviest_task (pos 1000) v
      b (omega arith) (ground (arith, t)) l

-- From a well-formed registry, with a least score from -1000 to 1001 and more fuel than any slot has
-- nodes, the search ends. Each process that it killed was registered with the score that it was
-- killed at, which is not below the least one; each kill is counted, in order; and the registry is
-- still well formed.
pub find_and_kill_process-Ends :
    (fuel : ℕ) (s : Setup) (k : Kernel) (d : Daemon) (least : ℤ) (tm : Timespec)
    → IsValid d.registry
    → negsuc 999 ≤ℤ least
    → least ≤ℤ pos 1001
    → ((t : ℕ) → length (d.registry.slots t) < fuel)
    → (o : Outcome) × (find_and_kill_process fuel s k d least tm ≡ some o)
      × All (IsAllowed d.registry least) (victims o.effects)
      × (o.daemon.killcnt ≡ count_all d.killcnt (victims o.effects))
      × IsValid o.daemon.registry
find_and_kill_process-Ends fuel s k d least tm v b t l =
    let run = search-Ends fuel s k d least tm v b t l in
    (
      run.outcome, run.ends, run.progress.allowed, run.progress.counted,
      run.progress.follows.well_formed,
    )

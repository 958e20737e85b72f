-- ===== src/Pressure/Safety.antt =====
-- That a memory pressure event is handled to its end, and what it may have killed.
use mathlib.Core.Path.{subst}
use system_memory_lmkd.Base.{
  ℕ, ◌<◌, ◌≡◌, ◌∙◌, refl, ap, inl, inr, Bool, false, Option, none, some, List, [], All, length,
  Bool-cases,
}
use system_memory_lmkd.Base.Int.{pos}
use system_memory_lmkd.Kill.Attempt.{victims, Keeps, stop_wait-Keeps}
use system_memory_lmkd.Kill.Progress.{IsAllowed, count_all}
use system_memory_lmkd.Kill.{Daemon, Kernel, Effect, stop_wait_for_proc_kill}
use system_memory_lmkd.Memory.{Meminfo}
use system_memory_lmkd.Pressure.Decision.{Source}
use system_memory_lmkd.Pressure.Event.{
  PollingParams, Config, Readings, Result, filter_level, skips_wakeup, Pass, decide_kill,
}
use system_memory_lmkd.Pressure.Handler.{
  finish, evaluate, wake, guard_event, handle_event, mp_event_psi, is_quiet,
}
use system_memory_lmkd.Pressure.{
  Vmstat, Monitor, no_reclaim, is_swap_low, reset_after_kill, reclaim_state, record_reclaim,
  update_thrashing,
}
use system_memory_lmkd.Kill.Removal.{Follows}
use system_memory_lmkd.Registry.Invariant.{IsValid}
use system_memory_lmkd.Time.{Timespec}
use system_memory_lmkd.Pressure.Outcome.{
  IsLeast, IsLeastOf, Safe, silent-Safe, conclude-Safe, decide_kill-IsLeast,
}

module _ (c : Config) (after_min : IsLeast c.props.pressure_after_kill_min_score)
    (low_min : IsLeast c.props.lowmem_min_oom_score) (r : Readings) (fuel : ℕ) (k : Kernel)
    (d : Daemon) (v : IsValid d.registry) (short : (t : ℕ) → length (d.registry.slots t) < fuel)
    (source : Source) (ok : IsLeastOf source) (events : Bool) (poll : PollingParams) where
  evaluate-Safe :
      (es : List Effect) (after : Bool) (m : Monitor) (mi : Meminfo) (vs : Vmstat) (tm : Timespec)
      → victims es ≡ []
      → Safe d (evaluate c r fuel k d es source events after m mi vs tm poll)
  unfolding evaluate finish
  evaluate-Safe es after m mi vs tm silent =
      let reclaim = reclaim_state r.reclaim m vs in
      let m' = record_reclaim reclaim m vs in
      let thrashed = update_thrashing c.props m' vs tm in
      let p : Pass = record {
        source = source;
        events = events;
        cycle_after_kill = after;
        mi = mi;
        vs = vs;
        thrashing = thrashed.1;
        reclaim = reclaim;
        tm = tm;
      } in
      elim (Bool-cases (is_quiet source reclaim m vs)) [
        | inl b ↦ rw b (
            silent-Safe d (finish c r d es m' events reclaim (is_swap_low c.props mi) poll) v refl
              silent)
        | inr b ↦ rw b (
            conclude-Safe c r fuel k d es p poll v short silent (decide_kill c r p thrashed.0)
              (decide_kill-IsLeast c r p after_min low_min ok thrashed.0))
      ]

-- A step before that keeps the tables.
transfer-Safe :
    (d d' : Daemon) (es : List Effect) (run : Option Result)
    → Keeps d d' es
    → Safe d' run
    → Safe d run
transfer-Safe d d' es run keeps h = record {
  result = h.result;
  ends = h.ends;
  allowed =
      subst (λ g. All (IsAllowed g (pos 0)) (victims h.result.effects)) keeps.registry h.allowed;
  counted = h.counted ∙ ap (λ g. count_all g (victims h.result.effects)) keeps.killcnt;
  follows = subst (λ g. Follows g h.result.daemon.registry) keeps.registry h.follows;
}

module _ (c : Config) (after_min : IsLeast c.props.pressure_after_kill_min_score)
    (low_min : IsLeast c.props.lowmem_min_oom_score) (r : Readings) (fuel : ℕ) (k : Kernel)
    (d : Daemon) (v : IsValid d.registry) (short : (t : ℕ) → length (d.registry.slots t) < fuel)
    (source : Source) (ok : IsLeastOf source) (events : Bool) (poll : PollingParams) where
  wake-Safe :
      (es : List Effect) (m : Monitor) (tm : Timespec) (vs : Option Vmstat) (mi : Option Meminfo)
      → victims es ≡ []
      → Safe d (wake c r fuel k d es source events m tm poll vs mi)
  unfolding wake
  wake-Safe es m tm none mi e =
      silent-Safe d (record { monitor = m; daemon = d; effects = es; poll = poll }) v refl e
  wake-Safe es m tm (some vs) none e =
      silent-Safe d (record { monitor = m; daemon = d; effects = es; poll = poll }) v refl e
  wake-Safe es m tm (some vs) (some mi) e =
      evaluate-Safe c after_min low_min r fuel k d v short source ok events poll es m.killing
        (reset_after_kill m vs tm) mi vs tm e

module _ (c : Config) (after_min : IsLeast c.props.pressure_after_kill_min_score)
    (low_min : IsLeast c.props.lowmem_min_oom_score) (r : Readings) (fuel : ℕ) (k : Kernel)
    (d : Daemon) (v : IsValid d.registry) (short : (t : ℕ) → length (d.registry.slots t) < fuel)
    (source : Source) (ok : IsLeastOf source) (events : Bool) (poll : PollingParams) where
  guard_event-Safe :
      (m : Monitor) (tm : Timespec) (filtered : Option Monitor)
      → Safe d (guard_event c r fuel k d source events m poll tm filtered)
  unfolding guard_event finish victims
  guard_event-Safe m tm none =
      silent-Safe d (record { monitor = m; daemon = d; effects = []; poll = poll }) v refl refl
  guard_event-Safe m tm (some m') =
      let d' = (stop_wait_for_proc_kill c.setup d).0 in
      let es = (stop_wait_for_proc_kill c.setup d).1 in
      let keeps = stop_wait-Keeps c.setup d in
      let v' : IsValid d'.registry = rw keeps.registry v in
      let short' : (t : ℕ) → length (d'.registry.slots t) < fuel =
        λ t. rw keeps.registry (short t) in
      elim (Bool-cases (skips_wakeup c r d tm)) [
        | inl w ↦ rw w (silent-Safe d (finish c r d [] m' events no_reclaim false poll) v refl refl)
        | inr w ↦ rw w (
            transfer-Safe d d' es
              (wake c r fuel k d' es source events m' tm poll r.vmstat r.meminfo) keeps
              (wake-Safe c after_min low_min r fuel k d' v' short' source ok events poll es m' tm
                r.vmstat r.meminfo keeps.silent))
      ]

  handle_event-Safe :
      (m : Monitor) (clock : Option Timespec)
      → Safe d (handle_event c r fuel k d m source events poll clock)
  unfolding handle_event victims
  handle_event-Safe m none =
      silent-Safe d (record { monitor = m; daemon = d; effects = []; poll = poll }) v refl refl
  handle_event-Safe m (some tm) = guard_event-Safe m tm (filter_level source events m)

pub mp_event_psi-Safe :
    (c : Config) (r : Readings) (fuel : ℕ) (k : Kernel) (d : Daemon) (m : Monitor) (source : Source)
    (events : Bool) (poll : PollingParams)
    → IsLeast c.props.pressure_after_kill_min_score
    → IsLeast c.props.lowmem_min_oom_score
    → IsLeastOf source
    → IsValid d.registry
    → ((t : ℕ) → length (d.registry.slots t) < fuel)
    → Safe d (mp_event_psi c r fuel k d m source events poll)
unfolding mp_event_psi
mp_event_psi-Safe c r fuel k d m source events poll after_min low_min ok v short =
    handle_event-Safe c after_min low_min r fuel k d v short source ok events poll m r.clock

-- A memory pressure event is handled to its end, whatever the kernel answers, when the registry is
-- well formed, the two configured scores are from 0 to 1001, a vendor's is at most 1001, and the
-- fuel is more than any slot has nodes. Each process that it killed was registered at the score it was killed at,
-- which is not negative; each kill is counted; and the registry is well formed afterwards.
pub mp_event_psi-Ends :
    (c : Config) (r : Readings) (fuel : ℕ) (k : Kernel) (d : Daemon) (m : Monitor) (source : Source)
    (events : Bool) (poll : PollingParams)
    → IsLeast c.props.pressure_after_kill_min_score
    → IsLeast c.props.lowmem_min_oom_score
    → IsLeastOf source
    → IsValid d.registry
    → ((t : ℕ) → length (d.registry.slots t) < fuel)
    → (res : Result) × (mp_event_psi c r fuel k d m source events poll ≡ some res)
      × All (IsAllowed d.registry (pos 0)) (victims res.effects)
      × (res.daemon.killcnt ≡ count_all d.killcnt (victims res.effects))
      × IsValid res.daemon.registry
mp_event_psi-Ends c r fuel k d m source events poll after_min low_min ok v short =
    let safe = mp_event_psi-Safe c r fuel k d m source events poll after_min low_min ok v short in
    (safe.result, safe.ends, safe.allowed, safe.counted, safe.follows.well_formed)

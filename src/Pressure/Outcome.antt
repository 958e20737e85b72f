-- ===== src/Pressure/Outcome.antt =====
-- The decision and the kill of a memory pressure event: they end, and what may have been killed.
use system_memory_lmkd.Base.{
  ℕ, ◌<◌, ◌≡◌, ◌∙◌, refl, inl, inr, Bool, true, false, not, ◌&&◌, Option, some, List, [], ◌∷◌, ◌++◌,
  All, length, arith, if◌then◌else◌, Bool-cases, Option-cases,
}
use system_memory_lmkd.Base.Int.{ℤ, pos, ◌+ℤ◌, ◌≤ℤ◌, ◌<?◌}
use system_memory_lmkd.Kill.Attempt.{victims, victims-append}
use system_memory_lmkd.Kill.Progress.{IsAllowed, count_all}
use system_memory_lmkd.Kill.Removal.{Follows, same-Follows}
use system_memory_lmkd.Kill.Selection.{search-Ends}
use system_memory_lmkd.Kill.{Daemon, Kernel, Effect}
use system_memory_lmkd.Pressure.Decision.{
  Source, psi, vendor, vendor_kill, vendor_kill_reason_base, View, Decision, no_kill, is_none,
  spare, decide, decide_psi, decide_load, decide_low_mem,
}
use system_memory_lmkd.Pressure.Event.{
  PollingParams, Config, Readings, Result, Pass, Passed, returns, decides, decide_once,
  decide_again, decide_kill, update_watermarks, view_of, after_kill, least_score,
}
use system_memory_lmkd.Pressure.Handler.{finish, act, conclude}
use system_memory_lmkd.Pressure.{Monitor, is_swap_low}
use system_memory_lmkd.Props.{Props}
use system_memory_lmkd.Registry.Invariant.{IsValid}
use system_memory_lmkd.Registry.{Registry}

-- 1001 spares every process.
abbrev pub IsLeast : ℤ → Type 0
IsLeast a = (pos 0 ≤ℤ a) × (a ≤ℤ pos 1001)

abbrev pub IsLeastOf : Source → Type 0
IsLeastOf (psi level) = Unit
IsLeastOf (vendor reason least) = least ≤ℤ pos 1001

-- A pass keeps the least score in its range.
abbrev PassedIsLeast : Passed → Type 0
PassedIsLeast (returns m) = Unit
PassedIsLeast (decides m d stall) = IsLeast d.min_score_adj

module _ (c : Props) (after_min : IsLeast c.pressure_after_kill_min_score)
    (low_min : IsLeast c.lowmem_min_oom_score) where
  psi-IsLeast :
      (v : View) (d : Decision) → IsLeast d.min_score_adj → IsLeast (decide_psi c v d).min_score_adj
  unfolding decide_psi decide_load spare
  psi-IsLeast v d h = ground (arith, h, after_min)

  low_mem-IsLeast :
      (v : View) (d : Decision)
      → IsLeast d.min_score_adj
      → IsLeast (decide_low_mem c v d).min_score_adj
  unfolding decide_low_mem
  low_mem-IsLeast v d h = ground (arith, h, low_min)

  decide-IsLeast :
      (n : ℤ) (v : View) (d d' : Decision) (s : Source)
      → v.source ≡ s
      → IsLeastOf s
      → IsLeast d.min_score_adj
      → decide c n v d ≡ some d'
      → IsLeast d'.min_score_adj
  unfolding decide
  decide-IsLeast n v d d' (psi level) from ok h e =
      ground (arith, from, e, low_mem-IsLeast v (decide_psi c v d) (psi-IsLeast v d h))
  decide-IsLeast n v d d' (vendor reason least) from ok h e =
      let d0 : Decision = record d {
        kill_reason = vendor_kill (reason +ℤ vendor_kill_reason_base);
        min_score_adj = least;
      } in
      ground (arith, from, e, ok, low_mem-IsLeast v d0)

module _ (c : Config) (r : Readings) (p : Pass)
    (after_min : IsLeast c.props.pressure_after_kill_min_score)
    (low_min : IsLeast c.props.lowmem_min_oom_score) (ok : IsLeastOf p.source) where
  decide_once-IsLeast :
      (again stall : Bool) (m : Monitor) (d : Decision)
      → IsLeast d.min_score_adj
      → PassedIsLeast (decide_once c r p again stall m d)
  unfolding decide_once view_of
  decide_once-IsLeast again stall m d h = elim (Option-cases (update_watermarks c r again p.tm m)) [
    | inl e ↦ rw (e, decide_once) tt
    | inr (m', e) ↦ elim (Option-cases (decide c.props c.vendor_reasons (view_of c r p m') d)) [
      | inl f ↦ rw (e, decide_once, f) tt
      | inr (d', f) ↦
          rw (e, decide_once, f)
            (decide-IsLeast c.props after_min low_min c.vendor_reasons (view_of c r p m') d d'
              p.source refl ok h f)
    ]
  ]

  decide_again-IsLeast : (q : Passed) → PassedIsLeast q → PassedIsLeast (decide_again c r p q)
  unfolding decide_again
  decide_again-IsLeast (returns m) h = tt
  decide_again-IsLeast (decides m d stall) h =
      let first = record m {
        first_kill = false;
        watermarks = record m.watermarks { high_wmark = pos 0 };
      } in
      elim (Bool-cases (not (is_none d.kill_reason) && m.first_kill)) [
        | inl e ↦ rw e (decide_once-IsLeast true stall first d h)
        | inr e ↦ rw e h
      ]

  pub decide_kill-IsLeast : (m : Monitor) → PassedIsLeast (decide_kill c r p m)
  unfolding decide_kill
  decide_kill-IsLeast m =
      let fresh : Decision = record {
        kill_reason = no_kill;
        min_score_adj = pos 0;
        cut_thrashing_limit = false;
        check_filecache = m.check_filecache;
      } in
      decide_again-IsLeast (decide_once c r p false false m fresh)
        (decide_once-IsLeast false false m fresh (omega arith))

-- A run that ends, with the kills that it made after the silent steps before it.
pub record Safe (d : Daemon) (run : Option Result) : Type 0 where
  pub result : Result
  pub ends : run ≡ some result
  pub allowed : All (IsAllowed d.registry (pos 0)) (victims result.effects)
  pub counted : result.daemon.killcnt ≡ count_all d.killcnt (victims result.effects)
  pub follows : Follows d.registry result.daemon.registry

pub silent-Safe :
    (d : Daemon) (res : Result)
    → IsValid d.registry
    → res.daemon ≡ d
    → victims res.effects ≡ []
    → Safe d (some res)
unfolding count_all
silent-Safe d res v e q = record {
  result = res;
  ends = refl;
  allowed = rw q tt;
  counted = rw (q, e) refl;
  follows = rw e (same-Follows d.registry v);
}

pub lower-IsAllowed :
    (r : Registry) (least' least : ℤ) (vs : List (ℤ × ℤ))
    → least' ≤ℤ least
    → All (IsAllowed r least) vs
    → All (IsAllowed r least') vs
lower-IsAllowed r least' least [] h a = tt
lower-IsAllowed r least' least ((pid, a) ∷ vs) h ((low, here), rest) =
    ((omega (arith, low, h), here), lower-IsAllowed r least' least vs h rest)

module _ (c : Config) (r : Readings) (fuel : ℕ) (k : Kernel) (d : Daemon) (es : List Effect)
    (p : Pass) (poll : PollingParams) (v : IsValid d.registry)
    (short : (t : ℕ) → length (d.registry.slots t) < fuel) (silent : victims es ≡ []) where
  act-Safe :
      (m : Monitor) (decision : Decision) (stall : Bool)
      → IsLeast decision.min_score_adj
      → Safe d (act c r fuel k d es p m decision stall poll)
  unfolding act finish
  act-Safe m decision stall h =
      let low = is_swap_low c.props p.mi in
      let least = least_score decision stall in
      let range : IsLeast least = ground (arith, h) in
      let run = search-Ends fuel c.setup k d least p.tm v (omega (arith, range.0)) range.1 short in
      let o = run.outcome in
      let all : victims (es ++ o.effects) ≡ victims o.effects =
        victims-append es o.effects ∙ rw silent refl in
      elim (Bool-cases (is_none decision.kill_reason)) [
        | inl b ↦ rw b (silent-Safe d (finish c r d es m p.events p.reclaim low poll) v refl silent)
        | inr b ↦
            rw (b, run.ends)
              (record {
                result =
                    finish c r o.daemon (es ++ o.effects)
                      (if pos 0 <? o.result
                        then after_kill c.props decision.cut_thrashing_limit m
                        else m)
                      p.events p.reclaim low poll;
                ends = refl;
                allowed = rw all (
                    lower-IsAllowed d.registry (pos 0) least (victims o.effects) range.0
                      run.progress.allowed);
                counted = rw all run.progress.counted;
                follows = run.progress.follows;
              })
      ]

  pub conclude-Safe : (q : Passed) → PassedIsLeast q → Safe d (conclude c r fuel k d es p poll q)
  unfolding conclude
  conclude-Safe (returns m) h =
      silent-Safe d (record { monitor = m; daemon = d; effects = es; poll = poll }) v refl silent
  conclude-Safe (decides m decision stall) h = act-Safe m decision stall h

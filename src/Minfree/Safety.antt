-- ===== src/Minfree/Safety.antt =====
-- That an event of the older strategies is handled to its end, and what it may have killed.
use mathlib.Core.Option
use system_memory_lmkd.Base.{
  ℕ, ◌<◌, ◌≡◌, ◌∙◌, refl, ap, inl, inr, Bool, false, not, ◌&&◌, Option, some, List, [], ◌++◌, All,
  length, Bool-cases,
}
use system_memory_lmkd.Base.Int.{ℤ, pos, ◌<?◌, ◌≤?◌, ◌==ℤ◌}
use system_memory_lmkd.Kill.Attempt.{victims, victims-append}
use system_memory_lmkd.Kill.Progress.{IsAllowed, count_all}
use system_memory_lmkd.Kill.Search.{find_and_kill_process}
use system_memory_lmkd.Kill.Selection.{find_and_kill_process-Ends}
use system_memory_lmkd.Kill.{Daemon, Setup, Kernel, Effect, Outcome}
use system_memory_lmkd.Memory.{Meminfo}
use system_memory_lmkd.Minfree.Vmpressure.{
  VmConfig, VmState, VmResult, Verdict, ignore, do_kill, returned, pause, report, kill_at,
  conclude_vm, fail_report_rlimit_ms,
}
use system_memory_lmkd.Minfree.Scores.{IsAtLeast, VerdictIsAtLeast}
use system_memory_lmkd.Pressure.Event.{PollingParams}
use system_memory_lmkd.Pressure.Outcome.{lower-IsAllowed}
use system_memory_lmkd.Registry.Invariant.{IsValid}
use system_memory_lmkd.Time.{Timespec, get_time_diff_ms}

-- A run that ends, and its victims' scores are not below the least one.
pub record VmSafe (d : Daemon) (least : ℤ) (run : Option VmResult) : Type 0 where
  pub result : VmResult
  pub ends : run ≡ some result
  pub allowed : All (IsAllowed d.registry least) (victims result.effects)
  pub counted : result.daemon.killcnt ≡ count_all d.killcnt (victims result.effects)
  pub well_formed : IsValid result.daemon.registry

pub silent-VmSafe :
    (d d' : Daemon) (least : ℤ) (s : VmState) (es : List Effect) (poll : PollingParams) (b : Bool)
    → IsValid d.registry
    → d' ≡ d
    → victims es ≡ []
    → VmSafe d least (some (returned s d' es poll b))
unfolding count_all returned
silent-VmSafe d d' least s es poll b v e q = record {
  result = returned s d' es poll b;
  ends = refl;
  allowed = rw q tt;
  counted = rw (q, e) refl;
  well_formed = rw e v;
}

-- What follows the search keeps its daemon and its effects.
record Carries (o : Outcome) (es : List Effect) (res : VmResult) : Type 0 where
  daemon : res.daemon ≡ o.daemon
  effects : res.effects ≡ es ++ o.effects

pause-Carries :
    (c : Setup) (s : VmState) (o : Outcome) (es : List Effect) (poll : PollingParams) (b : Bool)
    → Carries o es (pause c s o.daemon (es ++ o.effects) poll b)
unfolding pause returned
pause-Carries c s o es poll b = record { daemon = refl; effects = refl }

report-Carries :
    (c : Setup) (s : VmState) (es : List Effect) (score : ℤ) (tm : Timespec) (poll : PollingParams)
    (o : Outcome)
    → Carries o es (report c s es score tm poll o)
unfolding report returned
report-Carries c s es score tm poll o =
    let nothing = o.result ==ℤ pos 0 in
    let soon = get_time_diff_ms s.last_report_tm tm <? fail_report_rlimit_ms in
    elim (Bool-cases (nothing && soon)) [
      | inl e ↦ rw e (record { daemon = refl; effects = refl })
      | inr e ↦ rw e (
          pause-Carries c (record s { last_report_tm = tm }) o es poll (nothing && score ==ℤ pos 0))
    ]

module _ (c : VmConfig) (fuel : ℕ) (k : Kernel) (d : Daemon) (es : List Effect) (mi : Meminfo)
    (tm : Timespec) (poll : PollingParams) (least : ℤ) (v : IsValid d.registry)
    (short : (t : ℕ) → length (d.registry.slots t) < fuel) (silent : victims es ≡ []) where
  carried-VmSafe :
      (score : ℤ) (after : Outcome → VmResult)
      → IsAtLeast least score
      → ((o : Outcome) → Carries o es (after o))
      → VmSafe d least (Option.map after (find_and_kill_process fuel c.setup k d score tm))
  carried-VmSafe score after (lower, low_end, top) carries =
      let (o, e, allowed, counted, well_formed) =
        find_and_kill_process-Ends fuel c.setup k d score tm v low_end top short in
      let all : victims (after o).effects ≡ victims o.effects =
        ap victims (carries o).effects ∙ victims-append es o.effects ∙ rw silent refl in
      rw e (record {
        result = after o;
        ends = refl;
        allowed = rw all (lower-IsAllowed d.registry least score (victims o.effects) lower allowed);
        counted = rw (all, (carries o).daemon) counted;
        well_formed = rw (carries o).daemon well_formed;
      })

  kill_at-VmSafe :
      (s : VmState) (score : ℤ)
      → IsAtLeast least score
      → VmSafe d least (kill_at c fuel k s d es mi tm poll score)
  unfolding kill_at
  kill_at-VmSafe s score h =
      let enough = s.low_pressure_mem.max_nr_free_pages ≤? mi.nr_free_pages in
      elim (Bool-cases c.props.low_ram_device) [
        | inl e ↦ simp e (
            carried-VmSafe score (λ o. pause c.setup s o.daemon (es ++ o.effects) poll false) h
              (λ o. pause-Carries c.setup s o es poll false))
        | inr e ↦ elim (Bool-cases (not c.props.use_minfree_levels && enough)) [
          | inl f ↦ simp (e, f) (silent-VmSafe d d least s es poll false v refl silent)
          | inr f ↦
              simp (e, f)
                (carried-VmSafe score (report c.setup s es score tm poll) h
                  (report-Carries c.setup s es score tm poll))
        ]
      ]

  pub conclude_vm-VmSafe :
      (s : VmState) (q : Verdict)
      → VerdictIsAtLeast least q
      → VmSafe d least (conclude_vm c fuel k s d es mi tm poll q)
  unfolding conclude_vm
  conclude_vm-VmSafe s ignore h = silent-VmSafe d d least s es poll false v refl silent
  conclude_vm-VmSafe s (do_kill level score) h = kill_at-VmSafe s score h

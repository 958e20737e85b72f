-- ===== src/Minfree/Ends.antt =====
-- `mp_event_common` from its first line to its last: it ends, and which processes it may kill.
use mathlib.Core.Path.{subst}
use system_memory_lmkd.Base.{
  ℕ, ◌<◌, ◌≡◌, ◌∙◌, refl, ap, inl, inr, Bool, true, false, ◌&&◌, Option, none, some, List, [], All,
  length, if◌then◌else◌, Bool-cases,
}
use system_memory_lmkd.Base.Int.{ℤ, pos, negsuc}
use system_memory_lmkd.Kill.Attempt.{victims, stop_wait-Keeps}
use system_memory_lmkd.Kill.Progress.{IsAllowed, count_all}
use system_memory_lmkd.Kill.{Daemon, Kernel, Effect, is_kill_pending, stop_wait_for_proc_kill}
use system_memory_lmkd.Memory.{Meminfo, Level, Node, totalreserve_pages}
use system_memory_lmkd.Minfree.Reached.{IsFirst, spare_pages, spare_cache, IsFirst-minfree_score}
use system_memory_lmkd.Minfree.Safety.{VmSafe, silent-VmSafe, conclude_vm-VmSafe}
use system_memory_lmkd.Minfree.Scores.{
  VerdictIsAtLeast, LevelsConfigured, TargetsConfigured, minfree-IsAtLeast, usage-IsAtLeast,
}
use system_memory_lmkd.Minfree.Vmpressure.{
  VmConfig, VmReadings, VmState, VmResult, Verdict, ignore, do_kill, verdict, note_low, assess,
  is_in_timeout, mp_event_at, start_polling, upgrade_event, mp_event_common, minfree_verdict,
}
use system_memory_lmkd.Minfree.{minfree_score}
use system_memory_lmkd.Pressure.Event.{PollingParams}
use system_memory_lmkd.Registry.Invariant.{IsValid}
use system_memory_lmkd.Time.{Timespec}

-- Whatever the level, the verdict on what was read kills at no lower score.
abbrev Spares : VmConfig → VmReadings → ℤ → Option Meminfo → Option (List Node) → Type 0
Spares c r least none zi = Unit
Spares c r least (some mi) none = Unit
Spares c r least (some mi) (some zi) =
    (level : Level) → VerdictIsAtLeast least (verdict c r mi zi level)

module _ (c : VmConfig) (r : VmReadings) (fuel : ℕ) (k : Kernel) (least : ℤ)
    (spares : Spares c r least r.meminfo r.zoneinfo) where
  assess-VmSafe :
      (s : VmState) (d : Daemon) (es : List Effect) (level : Level) (tm : Timespec)
      (poll : PollingParams) (mi : Option Meminfo) (zi : Option (List Node))
      → IsValid d.registry
      → ((t : ℕ) → length (d.registry.slots t) < fuel)
      → victims es ≡ []
      → Spares c r least mi zi
      → VmSafe d least (assess c fuel k r s d es level tm poll mi zi)
  unfolding assess
  assess-VmSafe s d es level tm poll none zi v short silent h =
      silent-VmSafe d d least s es poll false v refl silent
  assess-VmSafe s d es level tm poll (some mi) none v short silent h =
      silent-VmSafe d d least s es poll false v refl silent
  assess-VmSafe s d es level tm poll (some mi) (some zi) v short silent h =
      conclude_vm-VmSafe c fuel k d es mi tm poll least v short silent
        (if c.props.use_minfree_levels then s else note_low s mi level) (verdict c r mi zi level)
        (h level)

  mp_event_at-VmSafe :
      (s : VmState) (d : Daemon) (level : Level) (poll : PollingParams) (clock : Option Timespec)
      → IsValid d.registry
      → ((t : ℕ) → length (d.registry.slots t) < fuel)
      → VmSafe d least (mp_event_at c fuel k r s d level poll clock)
  unfolding mp_event_at victims
  mp_event_at-VmSafe s d level poll none v short =
      silent-VmSafe d d least s [] poll false v refl refl
  mp_event_at-VmSafe s d level poll (some tm) v short =
      let d' = (stop_wait_for_proc_kill c.setup d).0 in
      let es = (stop_wait_for_proc_kill c.setup d).1 in
      let keeps = stop_wait-Keeps c.setup d in
      let after =
        assess-VmSafe s d' es level tm poll r.meminfo r.zoneinfo (rw keeps.registry v)
          (λ t. rw keeps.registry (short t)) keeps.silent spares in
      elim (Bool-cases (is_in_timeout c d tm && is_kill_pending c.setup r.exists d)) [
        | inl e ↦ rw e (silent-VmSafe d d least s [] poll false v refl refl)
        | inr e ↦ rw e (record {
          result = after.result;
          ends = after.ends;
          allowed =
              subst (λ g. All (IsAllowed g least) (victims after.result.effects)) keeps.registry
                after.allowed;
          counted =
              after.counted ∙ ap (λ g. count_all g (victims after.result.effects)) keeps.killcnt;
          well_formed = after.well_formed;
        })
      ]

-- Minfree levels spare what the first target that is reached spares.
minfree-Spares :
    (c : VmConfig) (r : VmReadings) (mi : Meminfo) (zi : List Node)
    → c.props.use_minfree_levels ≡ true
    → TargetsConfigured c.targets
    → Spares c r (minfree_score c.targets (totalreserve_pages (pos 0) zi) mi) (some mi) (some zi)
unfolding verdict
minfree-Spares c r mi zi e h level = simp e (minfree-IsAtLeast c level mi zi h)

weaker-IsAtLeast :
    (least : ℤ) (q : Verdict) → VerdictIsAtLeast least q → VerdictIsAtLeast (negsuc 999) q
weaker-IsAtLeast least ignore h = tt
weaker-IsAtLeast least (do_kill level score) h = (h.1, h.1, h.2)

all-Spares :
    (c : VmConfig) (r : VmReadings) (mi : Option Meminfo) (zi : Option (List Node))
    → LevelsConfigured c.props
    → TargetsConfigured c.targets
    → Spares c r (negsuc 999) mi zi
unfolding verdict
all-Spares c r none zi levels targets = tt
all-Spares c r (some mi) none levels targets = tt
all-Spares c r (some mi) (some zi) levels targets = λ level.
    elim (Bool-cases c.props.use_minfree_levels) [
      | inl e ↦ simp e (
          weaker-IsAtLeast (minfree_score c.targets (totalreserve_pages (pos 0) zi) mi)
            (minfree_verdict c level mi zi) (minfree-IsAtLeast c level mi zi targets))
      | inr e ↦ simp e (usage-IsAtLeast c.props r mi level levels)
    ]

-- What a run that ends has done.
abbrev pub HasEnded : Daemon → ℤ → Option VmResult → Type 0
HasEnded d least run =
    (res : VmResult) × (run ≡ some res)
    × All (IsAllowed d.registry least) (victims res.effects)
    × (res.daemon.killcnt ≡ count_all d.killcnt (victims res.effects))
    × IsValid res.daemon.registry

common-HasEnded :
    (c : VmConfig) (r : VmReadings) (fuel : ℕ) (k : Kernel) (s : VmState) (d : Daemon)
    (trigger : Level) (events : Bool) (handler : Option Level) (poll : PollingParams) (least : ℤ)
    → Spares c r least r.meminfo r.zoneinfo
    → IsValid d.registry
    → ((t : ℕ) → length (d.registry.slots t) < fuel)
    → HasEnded d least (mp_event_common c fuel k r s d trigger events handler poll)
unfolding mp_event_common
common-HasEnded c r fuel k s d trigger events handler poll least spares v short =
    let level = if c.use_psi_monitors then trigger else upgrade_event r trigger in
    let safe =
      mp_event_at-VmSafe c r fuel k least spares s d level
        (start_polling c trigger events handler poll) r.clock v short in
    (safe.result, safe.ends, safe.allowed, safe.counted, safe.well_formed)

-- An event of the older strategies is handled to its end, whatever is read, when the registry is
-- well formed, the scores of the levels and of the targets are from -1000 to 1001, and the fuel is
-- more than any slot has nodes. Each process that it killed was registered at the score it was
-- killed at; each kill is counted; and the registry is well formed afterwards.
pub mp_event_common-Ends :
    (c : VmConfig) (r : VmReadings) (fuel : ℕ) (k : Kernel) (s : VmState) (d : Daemon)
    (trigger : Level) (events : Bool) (handler : Option Level) (poll : PollingParams)
    → LevelsConfigured c.props
    → TargetsConfigured c.targets
    → IsValid d.registry
    → ((t : ℕ) → length (d.registry.slots t) < fuel)
    → HasEnded d (negsuc 999) (mp_event_common c fuel k r s d trigger events handler poll)
mp_event_common-Ends c r fuel k s d trigger events handler poll levels targets =
    common-HasEnded c r fuel k s d trigger events handler poll (negsuc 999)
      (all-Spares c r r.meminfo r.zoneinfo levels targets)

-- With minfree levels, when the memory and the zones can be read, every process that the event kills
-- is registered at a score of at least that of the first target of which both amounts are below, and
-- at least 1001 when there is none. The amounts are the free pages less those that the zones keep, and
-- the pages of files and buffers less those shared or locked, or 0. The scores of the targets are from
-- -1000 to 1001, the registry is well formed, and the fuel is more than any slot has nodes, so that the
-- event is handled to its end.
pub mp_event_common-spares :
    (c : VmConfig) (r : VmReadings) (fuel : ℕ) (k : Kernel) (s : VmState) (d : Daemon)
    (trigger : Level) (events : Bool) (handler : Option Level) (poll : PollingParams) (mi : Meminfo)
    (zi : List Node) (least : ℤ)
    → c.props.use_minfree_levels ≡ true
    → r.meminfo ≡ some mi
    → r.zoneinfo ≡ some zi
    → TargetsConfigured c.targets
    → IsValid d.registry
    → ((t : ℕ) → length (d.registry.slots t) < fuel)
    → IsFirst c.targets (spare_pages mi zi) (spare_cache mi) least
    → HasEnded d least (mp_event_common c fuel k r s d trigger events handler poll)
mp_event_common-spares c r fuel k s d trigger events handler poll mi zi least on e f targets v l
      first =
    let same = IsFirst-minfree_score c.targets mi zi least first in
    common-HasEnded c r fuel k s d trigger events handler poll least
      (simp (e, f, same) (minfree-Spares c r mi zi on targets)) v l

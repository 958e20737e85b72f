-- ===== src/Startup/Pipe.antt =====
-- The pipe between the reaper and the main thread, and what `init_reaper` leaves of it.
use system_memory_lmkd.Base.{
  ℕ, ◌+◌, ◌≡◌, refl, Bool, true, false, Option, none, some, [], arith, ltb, if◌then◌else◌,
}
use system_memory_lmkd.Base.Int.{ℤ, pos, ◌==ℤ◌, +ℤ_parts}
use system_memory_lmkd.Monitors.Ledger.{opened, closed, DifferAs}
use system_memory_lmkd.Reaper
use system_memory_lmkd.Startup.{ReaperAnswer, Reaping, with_pipe, init_reaper}

-- The reaper: it has threads exactly if it is in order, its pipe is closed again otherwise, and one
-- more event is waited for.
abbrev pub pipe_ends : ReaperAnswer → ℤ → ℕ
pipe_ends a q = elim a.pipe [
  | none ↦ 0
  | some (x, y) ↦ (if x ==ℤ q then 1 else 0) + (if y ==ℤ q then 1 else 0)
]

abbrev pub one_if : Bool → ℕ
one_if b = if b then 1 else 0

pub record Reaped (a : ReaperAnswer) (maxevents : ℤ) (r : Reaping) : Type 0 where
  pub events : DifferAs r.maxevents maxevents (one_if r.ok) 0
  pub threads : ltb 0 r.reaper.thread_cnt ≡ r.ok
  pub pipe : (q : ℤ) → opened q r.effects ≡ closed q r.effects + (if r.ok then pipe_ends a q else 0)

with_pipe-Reaped :
    (a : ReaperAnswer) (x y maxevents : ℤ)
    → a.pipe ≡ some (x, y)
    → Reaped a maxevents (with_pipe a x y Reaper.new maxevents)
unfolding with_pipe Reaper.init Reaper.new opened closed
with_pipe-Reaped a x y maxevents e = record {
  events = ground (arith, +ℤ_parts maxevents (pos 1));
  threads = ground arith;
  pipe = λ q. rw e (ground arith);
}

Reaped-if :
    (a : ReaperAnswer) (maxevents : ℤ) (b : Bool) (x y : Reaping)
    → Reaped a maxevents x
    → Reaped a maxevents y
    → Reaped a maxevents (if b then x else y)
Reaped-if a maxevents true x y h k = h
Reaped-if a maxevents false x y h k = k

abbrev undone : ℤ → Reaping
undone maxevents = record { reaper = Reaper.new; maxevents = maxevents; effects = []; ok = false }

undone-Reaped : (a : ReaperAnswer) (maxevents : ℤ) → Reaped a maxevents (undone maxevents)
unfolding Reaper.new opened closed
undone-Reaped a maxevents = record { events = omega arith; threads = refl; pipe = λ q. refl }

piped-Reaped :
    (a : ReaperAnswer) (maxevents : ℤ) (p : Option (ℤ × ℤ))
    → a.pipe ≡ p
    → Reaped a maxevents
        (elim p [ none ↦ undone maxevents | some (x, y) ↦ with_pipe a x y Reaper.new maxevents ])
piped-Reaped a maxevents none e = undone-Reaped a maxevents
piped-Reaped a maxevents (some (x, y)) e = with_pipe-Reaped a x y maxevents e

pub init_reaper-Reaped :
    (a : ReaperAnswer) (maxevents : ℤ) → Reaped a maxevents (init_reaper a Reaper.new maxevents)
unfolding init_reaper
init_reaper-Reaped a maxevents =
    Reaped-if a maxevents a.supported _ _ (piped-Reaped a maxevents a.pipe refl)
      (undone-Reaped a maxevents)

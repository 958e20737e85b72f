-- ===== src/Tests/Kills.antt =====
-- The kill path, on a phone with two cached applications.
use system_memory_lmkd.Base.{
  ℕ, ◌≤◌, ◌<◌, ◌≡◌, refl, true, false, Option, none, some, List, [], ◌∷◌, length, All, arith,
  if◌then◌else◌,
}
use mathlib.Core.Option
use system_memory_lmkd.Base.Int.{ℤ, pos, negsuc, ◌==ℤ◌, ◌≤ℤ◌, ◌+ℤ◌, ◌-ℤ◌, ◌/ℤ◌}
use system_memory_lmkd.Kill.Attempt.{victims}
use system_memory_lmkd.Kill.Descriptors.{kill_one_process-effects}
use system_memory_lmkd.Kill.Heaviest.{proc_get_heaviest-largest, size_of}
use system_memory_lmkd.Kill.Progress.{IsAllowed, count_all, HasPages}
use system_memory_lmkd.Kill.Search.{
  heaviest_of, proc_get_heaviest, choose_victim, victim_record, after, kill_at_level, kill_levels,
  find_and_kill_process,
}
use system_memory_lmkd.Kill.Selection.{find_and_kill_process-Ends}
use system_memory_lmkd.Kill.Single.{find_and_kill_process-Once}
use system_memory_lmkd.Kill.{
  Daemon, Setup, Kernel, Outcome, close, closing, is_killable, kill_one_process, kill_target,
  drop_record, start_wait_for_proc_kill, stop_wait_for_proc_kill,
}
use system_memory_lmkd.Killcnt.{init}
use system_memory_lmkd.Registry.Chain.{Proc, find, remove, erase, last, occurrences}
use system_memory_lmkd.Registry.Hash.{pid_hashfn}
use system_memory_lmkd.Registry.Invariant.{IsValid, empty-IsValid, insert-IsValid}
use system_memory_lmkd.Registry.{
  Registry, empty, pid_lookup, pid_remove, proc_insert, proc_slot, proc_unslot, unlink, closes,
  proc_adj_tail,
}
use system_memory_lmkd.Time.{zero_tm}

unfoldable pub kill_program : Unit {0}
unfolding find pid_hashfn empty pid_lookup proc_insert proc_slot proc_unslot unlink remove erase
    last occurrences pid_remove closes closing proc_adj_tail heaviest_of proc_get_heaviest
    choose_victim victim_record after kill_at_level kill_levels find_and_kill_process is_killable
    kill_one_process kill_target drop_record start_wait_for_proc_kill stop_wait_for_proc_kill ◌+ℤ◌
    ◌-ℤ◌ ◌/ℤ◌ victims
kill_program = tt

abbrev gallery : Proc
gallery = record {
  pid = pos 10;
  pidfd = pos 40;
  uid = pos 10010;
  oomadj = pos 905;
  reg_pid = pos 900;
  valid = true;
}

abbrev notes : Proc
notes = record gallery { pid = pos 11; pidfd = pos 41; oomadj = pos 900 }

abbrev pub both : Registry
both = proc_insert (proc_insert empty gallery) notes

pub both-IsValid : IsValid both
unfolding kill_program
both-IsValid =
    insert-IsValid (proc_insert empty gallery) notes
      (insert-IsValid empty gallery empty-IsValid refl (omega arith)) refl (omega arith)

abbrev pub daemon : Daemon
daemon = record {
  registry = both;
  killcnt = init;
  last_kill = negsuc 0;
  last_kill_tm = zero_tm;
  maxevents = pos 4;
}

abbrev pub setup : Setup
setup = record { pidfd_supported = true; kill_heaviest_task = false; page_k = pos 4 }

-- Each process holds 4000 kB, and can be killed.
abbrev pub kernel : Kernel
kernel = record {
  status = λ pid. true;
  tgid = λ pid. some pid;
  rss_kb = λ pid. some (pos 4000);
  swap_kb = λ pid. some (pos 0);
  name = λ pid. true;
  size = λ pid. pos 1000;
  kill = λ pid. true;
  epoll_add = λ fd. true;
  before_kill_hook = λ p pages score. pos 0;
}

-- The result, and the processes killed.
abbrev summary : Option Outcome → Option (ℤ × List (ℤ × ℤ))
summary run = Option.map (λ o. (o.result, victims o.effects)) run

cached_first :
    summary (find_and_kill_process 3 setup kernel daemon (pos 900) zero_tm)
    ≡ some (pos 1000, (pos 10, pos 905) ∷ [])
unfolding kill_program
cached_first = refl

-- The only process of the highest score in use is gone: the search stops with its -1.
stale_level :
    summary (
      find_and_kill_process 3 setup
        (record kernel { tgid = λ pid. if pid ==ℤ pos 10 then none else some pid })
        daemon
        (pos 900)
        zero_tm)
    ≡ some (negsuc 0, [])
unfolding kill_program
stale_level = refl

-- A process of less than one page counts as nothing, and a second one is killed.
small_process :
    summary (
      find_and_kill_process 3 setup
        (record kernel { rss_kb = λ pid. if pid ==ℤ pos 10 then some (pos 0) else some (pos 4000) })
        daemon
        (pos 900)
        zero_tm)
    ≡ some (pos 1000, (pos 10, pos 905) ∷ (pos 11, pos 900) ∷ [])
unfolding kill_program
small_process = refl

pub short_slots : (t : ℕ) → length (both.slots t) < 3
unfolding kill_program
short_slots t = ground arith

find_and_kill_process-Ends_example :
    (o : Outcome) × (find_and_kill_process 3 setup kernel daemon (pos 900) zero_tm ≡ some o)
    × All (IsAllowed both (pos 900)) (victims o.effects)
    × (o.daemon.killcnt ≡ count_all init (victims o.effects))
    × IsValid o.daemon.registry
find_and_kill_process-Ends_example =
    find_and_kill_process-Ends 3 setup kernel daemon (pos 900) zero_tm both-IsValid (omega arith)
      (omega arith) short_slots

pages : HasPages setup kernel
pages pid rss e = ground (arith, e)

find_and_kill_process-Once_example :
    (o : Outcome) × (find_and_kill_process 3 setup kernel daemon (pos 900) zero_tm ≡ some o)
    × (length (victims o.effects) ≤ 1)
find_and_kill_process-Once_example =
    find_and_kill_process-Once 3 setup kernel daemon (pos 900) zero_tm both-IsValid (omega arith)
      (omega arith) short_slots (omega arith) pages

largest_of_level :
    All
      (λ x.
        kernel.size x ≤ℤ size_of kernel (proc_get_heaviest kernel daemon (pos 11 ∷ pos 10 ∷ [])).1)
      (pos 11 ∷ pos 10 ∷ [])
    × ((q : ℤ)
        → (proc_get_heaviest kernel daemon (pos 11 ∷ pos 10 ∷ [])).1 ≡ some q
        → 1 ≤ occurrences q (pos 11 ∷ pos 10 ∷ []))
    × IsValid (proc_get_heaviest kernel daemon (pos 11 ∷ pos 10 ∷ [])).0.0.registry
largest_of_level =
    proc_get_heaviest-largest kernel daemon (pos 11 ∷ pos 10 ∷ []) both-IsValid (omega arith)

gallery_registered : pid_lookup both (pos 10) ≡ some gallery
unfolding kill_program
gallery_registered = refl

abbrev refusing : Kernel
refusing = record kernel { kill = λ pid. false }

gallery_killable : is_killable refusing gallery ≡ some (pos 4000)
unfolding kill_program
gallery_killable = refl

kill_one_process-effects_example :
    ((kill_one_process setup refusing daemon gallery zero_tm).effects
      ≡ close (pos 40) ∷ close (pos 40) ∷ [])
    × ((kill_one_process setup refusing daemon gallery zero_tm).daemon.last_kill ≡ negsuc 0)
kill_one_process-effects_example =
    kill_one_process-effects setup refusing daemon gallery zero_tm (pos 4000) refl (omega arith)
      (omega arith) gallery_registered gallery_killable (omega arith) refl

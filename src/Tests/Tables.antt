-- ===== src/Tests/Tables.antt =====
-- The registry, the registrations and the kill counters.
use system_memory_lmkd.Base.{
  ℕ, zero, suc, ◌≡◌, refl, true, false, some, List, [], ◌∷◌, if◌then◌else◌, arith,
}
use system_memory_lmkd.Base.Int.{ℤ, pos, negsuc, ◌==ℤ◌}
use system_memory_lmkd.Packet.{LmkProcprio}
use system_memory_lmkd.Registry.Chain.{Proc, find, modify, erase}
use system_memory_lmkd.Registry.Hash.{pid_hashfn}
use system_memory_lmkd.Registry.Invariant.{IsValid, empty-IsValid}
use system_memory_lmkd.Registry.{
  Registry, empty, pid_lookup, proc_insert, proc_slot, proc_unslot, proc_write, may_claim, claim,
}
use system_memory_lmkd.Register.{
  Config, Os, is_rejected, register_oom_adj_proc, register_app, soft_limit_mult, is_system_server,
  register_record, new_proc, rescore, apply_proc_prio, apply_procs, cmd_procremove, cmd_procpurge,
}
use system_memory_lmkd.Register.Commands.{
  effective_score, is_accepted, lookup-apply_proc_prio, apply_procs-IsValid, apply_procs-foreign,
}
use system_memory_lmkd.Register.Records.{registered}
use system_memory_lmkd.Register.Purge.{Reads, kept, cmd_procpurge-Reads, cmd_procremove-Reads}
use system_memory_lmkd.Killcnt.{get_killcnt, inc_killcnt, inc_cell, init, sum_slots, cell_of}
use system_memory_lmkd.Killcnt.History.{
  counted, kills_between, kills_at, distinct, get_killcnt-counted, get_killcnt-total,
  get_killcnt-full,
}

abbrev config : Config
config = record {
  use_inkernel_interface = false;
  per_app_memcg = true;
  pidfd_supported = true;
  last_kill = negsuc 0;
}

abbrev os : Os
os = record {
  tgid = λ pid. some pid;
  score_file = λ pid. true;
  soft_limit_path = λ pid. true;
  system_uid = some (pos 1000);
  pidfd_open = λ pid. pos 30;
  calloc = true;
}

abbrev launcher : LmkProcprio
launcher = record { pid = pos 4711; uid = pos 10001; oomadj = pos 600; ptype = pos 0 }

abbrev service : LmkProcprio
service = record { pid = pos 12; uid = pos 1000; oomadj = negsuc 899; ptype = pos 1 }

abbrev activity_manager : ℤ
activity_manager = pos 900

abbrev one_app : Registry
one_app = (apply_procs config os empty (launcher ∷ []) activity_manager).0

one_app-IsValid : IsValid one_app
one_app-IsValid = apply_procs-IsValid config os empty (launcher ∷ []) activity_manager empty-IsValid

registry_program : Unit {0}
unfolding apply_procs apply_proc_prio is_rejected register_oom_adj_proc register_app soft_limit_mult
    is_system_server register_record new_proc proc_insert proc_slot empty pid_lookup find pid_hashfn
    rescore proc_write proc_unslot modify erase may_claim claim registered effective_score
    is_accepted kept
registry_program = tt

-- The launcher is registered as perceptible, by the activity manager.
abbrev launcher_record : Proc
launcher_record = record {
  pid = pos 4711;
  pidfd = pos 30;
  uid = pos 10001;
  oomadj = pos 200;
  reg_pid = activity_manager;
  valid = true;
}

launcher_registered : pid_lookup one_app (pos 4711) ≡ some launcher_record
unfolding registry_program
launcher_registered = refl

launcher_slotted : one_app.slots 1200 ≡ pos 4711 ∷ []
unfolding registry_program
launcher_slotted = refl

lookup-apply_proc_prio_example :
    pid_lookup (apply_proc_prio config os empty launcher activity_manager).0 (pos 4711)
    ≡ some launcher_record
unfolding registry_program
lookup-apply_proc_prio_example =
    lookup-apply_proc_prio config os empty launcher activity_manager (pos 4711)

apply_procs-IsValid_example :
    IsValid (apply_procs config os one_app (service ∷ launcher ∷ []) activity_manager).0
apply_procs-IsValid_example =
    apply_procs-IsValid config os one_app (service ∷ launcher ∷ []) activity_manager one_app-IsValid

foreign_claim : may_claim launcher_record (pos 777) ≡ false
unfolding may_claim
foreign_claim = refl

apply_procs-foreign_example :
    pid_lookup
      (apply_procs config os one_app (record launcher { oomadj = pos 999 } ∷ []) (pos 777)).0
      (pos 4711)
    ≡ some launcher_record
apply_procs-foreign_example =
    apply_procs-foreign config os one_app (record launcher { oomadj = pos 999 } ∷ []) (pos 777)
      (pos 4711) launcher_record launcher_registered foreign_claim

purged_table :
    Reads
      (λ q. kept activity_manager (pid_lookup one_app q))
      (cmd_procpurge config one_app activity_manager).0
purged_table = cmd_procpurge-Reads config activity_manager one_app refl one_app-IsValid

after_removal :
    Reads
      (λ q. if pos 4711 ==ℤ q then kept (pos 777) (pid_lookup one_app q) else pid_lookup one_app q)
      (cmd_procremove config one_app (pos 4711) (pos 777)).0
after_removal = cmd_procremove-Reads config (pos 777) one_app (pos 4711) refl one_app-IsValid

-- Three cached applications and one foreground application killed.
abbrev four_kills : List ℤ
four_kills = pos 0 ∷ pos 905 ∷ pos 900 ∷ pos 905 ∷ []

counter_program : Unit {0}
unfolding counted inc_killcnt inc_cell init kills_between kills_at distinct get_killcnt sum_slots
    cell_of
counter_program = tt

cached_kills : get_killcnt (counted four_kills) (pos 900) (pos 999) ≡ some (pos 3)
unfolding counter_program
cached_kills = refl

get_killcnt-counted_example :
    get_killcnt (counted four_kills) (pos 900) (pos 999)
    ≡ some (pos (kills_between (pos 900) (pos 999) four_kills))
unfolding distinct kills_at
get_killcnt-counted_example =
    get_killcnt-counted four_kills (pos 900) (pos 999) (omega arith) (omega arith) (omega arith)
      (omega arith) (omega arith) (omega arith)

all_four_kills : get_killcnt (counted four_kills) (pos 1001) (pos 1001) ≡ some (pos 4)
all_four_kills =
    get_killcnt-total four_kills (pos 1001) (pos 1001) (omega arith) (omega arith) (omega arith)

-- One kill at each of the scores below `n`.
staircase : ℕ → List ℤ
staircase zero = []
staircase (suc n) = pos n ∷ staircase n

get_killcnt-full_example :
    (get_killcnt (counted (pos 999 ∷ staircase 32)) (pos 0) (pos 1000)
      ≡ get_killcnt (counted (staircase 32)) (pos 0) (pos 1000))
    × (get_killcnt (counted (pos 999 ∷ staircase 32)) (pos 999) (pos 999) ≡ some (pos 0))
    × (get_killcnt (counted (pos 999 ∷ staircase 32)) (pos 1001) (pos 1001) ≡ some (pos 33))
unfolding staircase distinct kills_at
get_killcnt-full_example =
    get_killcnt-full (staircase 32) (pos 999) (pos 0) (pos 1000) (omega arith) refl refl
      (omega arith) (omega arith)

-- ===== src/Tasknames.antt =====
-- The names of the processes that statslog.cpp keeps for its reports: a hash table of its own, from
-- pid to name. A chain is the list of its records, newest first, and a name is the list of its bytes
-- in front of the terminating zero. `enable_stats_log` is an argument.
pub mod Refinement
use system_memory_lmkd.Base.{
  ℕ, zero, suc, ◌-◌, Bool, true, false, ◌&&◌, not, Option, none, some, List, [], ◌∷◌, ◌==◌,
  if◌then◌else◌, update, take,
}
use system_memory_lmkd.Base.Int.{ℤ, ◌==ℤ◌}
use system_memory_lmkd.Cstring.{Bytes, same_text}
use system_memory_lmkd.Registry.Hash.{pid_hashfn}

abbrev pub max_taskname_len : ℕ
max_taskname_len = 128

pub record Task : Type 0 where
  pub pid : ℤ
  pub taskname : Bytes

-- The chains; there are none before the first name is stored.
abbrev pub Tasknames : Type 0
Tasknames = Option (ℕ → List Task)

-- The walk of `pid_lookup`.
unfoldable pub find : ℤ → List Task → Option Task
find q [] = none
find q (p ∷ ps) = if p.pid ==ℤ q then some p else find q ps

-- The walk of `stats_remove_taskname`, which takes that record out of its chain.
unfoldable pub remove : ℤ → List Task → List Task
remove q [] = []
remove q (p ∷ ps) = if p.pid ==ℤ q then ps else p ∷ remove q ps

unfoldable pub pid_lookup : Tasknames → ℤ → Option Task
pid_lookup none pid = none
pid_lookup (some pidhash) pid = find pid (pidhash (pid_hashfn pid))

-- `calloc` makes empty chains.
unfoldable pub proc_insert : Tasknames → Task → Tasknames
proc_insert none p = some (update (λ i. []) (pid_hashfn p.pid) (p ∷ []))
proc_insert (some pidhash) p = let h = pid_hashfn p.pid in some (update pidhash h (p ∷ pidhash h))

unfoldable pub stats_remove_taskname : Bool → Tasknames → ℤ → Tasknames
stats_remove_taskname enabled none pid = none
stats_remove_taskname enabled (some pidhash) pid =
    let h = pid_hashfn pid in
    if enabled then some (update pidhash h (remove pid (pidhash h))) else some pidhash

-- What `strncpy` and the zero behind it leave.
unfoldable pub new_task : ℤ → Bytes → Task
new_task pid name = record { pid = pid; taskname = take (max_taskname_len - 1) name }

unfoldable pub store_name : Bool → Tasknames → ℤ → Bytes → Tasknames
store_name enabled t pid name = elim (pid_lookup t pid) [
  | none ↦ proc_insert t (new_task pid name)
  | some p ↦
      if same_text p.taskname name
      then t
      else proc_insert (stats_remove_taskname enabled t pid) (new_task pid name)
]

-- `none` is a null pointer for the name.
unfoldable pub stats_store_taskname : Bool → Tasknames → ℤ → Option Bytes → Tasknames
stats_store_taskname enabled t pid none = t
stats_store_taskname enabled t pid (some name) =
    if enabled then store_name enabled t pid name else t

unfoldable pub stats_purge_tasknames : Bool → Tasknames → Tasknames
stats_purge_tasknames enabled none = none
stats_purge_tasknames enabled (some pidhash) = some (if enabled then (λ i. []) else pidhash)

unfoldable pub stats_get_task_name : Tasknames → ℤ → Option Bytes
stats_get_task_name t pid = elim (pid_lookup t pid) [ none ↦ none | some p ↦ some p.taskname ]

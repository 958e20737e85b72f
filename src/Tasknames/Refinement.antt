-- ===== src/Tasknames/Refinement.antt =====
-- The table of names against a map from pids to names, over every sequence of its operations.
use mathlib.Core.Path.{fun_ext}
use system_memory_lmkd.Base.{
  ℕ, ◌+◌, ◌≤◌, ◌≡◌, refl, Bool, true, false, Option, none, some, List, [], ◌∷◌, arith,
  if◌then◌else◌, take, take_idem, Bool-cases, Option-cases, inl, inr,
}
use system_memory_lmkd.Base.Int.{ℤ, ◌==ℤ◌, ==ℤ_iff}
use system_memory_lmkd.Cstring.{Bytes, same_text, same_text-eq}
use system_memory_lmkd.Registry.Hash.{pid_hashfn}
use system_memory_lmkd.Tasknames.{
  Task, Tasknames, find, remove, pid_lookup, proc_insert, stats_remove_taskname, new_task,
  store_name, stats_store_taskname, stats_purge_tasknames, stats_get_task_name,
}

pub data Op : Type 0 where
  store : ℤ → Option Bytes → Op
  removal : ℤ → Op
  purge : Op

unfoldable pub apply : Bool → Op → Tasknames → Tasknames
apply enabled (store pid name) t = stats_store_taskname enabled t pid name
apply enabled (removal pid) t = stats_remove_taskname enabled t pid
apply enabled purge t = stats_purge_tasknames enabled t

unfoldable pub run : Bool → List Op → Tasknames → Tasknames
run enabled [] t = t
run enabled (o ∷ os) t = run enabled os (apply enabled o t)

-- The map: the first 127 bytes of the name stored last, unless it was removed since.
unfoldable pub named : Op → (ℤ → Option Bytes) → ℤ → Option Bytes
named (store pid none) m q = m q
named (store pid (some name)) m q = if pid ==ℤ q then some (take 127 name) else m q
named (removal pid) m q = if pid ==ℤ q then none else m q
named purge m q = none

unfoldable pub map_of : List Op → (ℤ → Option Bytes) → ℤ → Option Bytes
map_of [] m = m
map_of (o ∷ os) m = map_of os (named o m)

abbrev chains : Tasknames → ℕ → List Task
chains none i = []
chains (some pidhash) i = pidhash i

count : ℤ → List Task → ℕ
count q [] = 0
count q (p ∷ ps) = (if p.pid ==ℤ q then 1 else 0) + count q ps

abbrev IsShort : Option Task → Type 0
IsShort none = Unit
IsShort (some p) = take 127 p.taskname ≡ p.taskname

-- A pid has one record, whose name is short enough.
record IsValid (t : Tasknames) : Type 0 where
  unique : (q : ℤ) (i : ℕ) → count q (chains t i) ≤ 1
  short : (q : ℤ) → IsShort (pid_lookup t q)

find-count : (q : ℤ) (ps : List Task) → count q ps ≡ 0 → find q ps ≡ none
unfolding find count
find-count q [] e = refl
find-count q (x ∷ ps) e = ground (arith, find-count q ps)

count-find : (q : ℤ) (ps : List Task) → find q ps ≡ none → count q ps ≡ 0
unfolding find count
count-find q [] e = refl
count-find q (x ∷ ps) e = ground (arith, count-find q ps)

find-remove :
    (k q : ℤ) (ps : List Task)
    → count q ps ≤ 1
    → find q (remove k ps) ≡ (if k ==ℤ q then none else find q ps)
unfolding find remove count
find-remove k q [] h = ground arith
find-remove k q (x ∷ ps) h =
    ground
      (arith, find-remove k q ps, find-count q ps, ==ℤ_iff x.pid k, ==ℤ_iff x.pid q, ==ℤ_iff k q)

count-remove : (k q : ℤ) (ps : List Task) → count q (remove k ps) ≤ count q ps
unfolding remove count
count-remove k q [] = omega arith
count-remove k q (x ∷ ps) = ground (arith, count-remove k q ps)

lookup-insert :
    (t : Tasknames) (p : Task) (q : ℤ)
    → pid_lookup (proc_insert t p) q ≡ (if p.pid ==ℤ q then some p else pid_lookup t q)
unfolding pid_lookup proc_insert find
lookup-insert none p q = ground (arith, ==ℤ_iff p.pid q)
lookup-insert (some pidhash) p q = ground (arith, ==ℤ_iff p.pid q)

IsShort-if : (b : Bool) (o p : Option Task) → IsShort o → IsShort p → IsShort (if b then o else p)
IsShort-if true o p h k = h
IsShort-if false o p h k = k

kept-short : (p : Task) → IsShort (some p) → take 127 p.taskname ≡ p.taskname
kept-short p h = h

count-insert :
    (t : Tasknames) (p : Task) (q : ℤ) (i : ℕ)
    → IsValid t
    → pid_lookup t p.pid ≡ none
    → count q (chains (proc_insert t p) i) ≤ 1
unfolding proc_insert pid_lookup count
count-insert none p q i v new = ground arith
count-insert (some pidhash) p q i v new =
    ground (arith, v.unique q i, ==ℤ_iff p.pid q, count-find p.pid (pidhash (pid_hashfn p.pid)) new)

insert-IsValid :
    (t : Tasknames) (pid : ℤ) (name : Bytes)
    → IsValid t
    → pid_lookup t pid ≡ none
    → IsValid (proc_insert t (new_task pid name))
unfolding new_task
insert-IsValid t pid name v new = record {
  unique = λ q i. count-insert t (new_task pid name) q i v new;
  short = λ q. rw (lookup-insert t (new_task pid name) q) (
      IsShort-if (pid ==ℤ q) (some (new_task pid name)) (pid_lookup t q) (take_idem 127 name)
        (v.short q));
}

lookup-remove :
    (t : Tasknames) (k q : ℤ)
    → IsValid t
    → pid_lookup (stats_remove_taskname true t k) q ≡ (if k ==ℤ q then none else pid_lookup t q)
unfolding pid_lookup stats_remove_taskname
lookup-remove none k q v = ground arith
lookup-remove (some pidhash) k q v =
    ground (arith, ==ℤ_iff k q, v.unique q (pid_hashfn k), find-remove k q (pidhash (pid_hashfn k)))

count-removed :
    (t : Tasknames) (k : ℤ)
    → IsValid t
    → (q : ℤ) (i : ℕ) → count q (chains (stats_remove_taskname true t k) i) ≤ 1
unfolding stats_remove_taskname count
count-removed none k v q i = omega arith
count-removed (some pidhash) k v q i =
    ground (arith, v.unique q i, count-remove k q (pidhash (pid_hashfn k)))

remove-IsValid : (t : Tasknames) (k : ℤ) → IsValid t → IsValid (stats_remove_taskname true t k)
remove-IsValid t k v = record {
  unique = count-removed t k v;
  short =
      λ q. rw (lookup-remove t k q v) (IsShort-if (k ==ℤ q) none (pid_lookup t q) tt (v.short q));
}

empty-IsValid : IsValid none
unfolding count pid_lookup
empty-IsValid = record { unique = λ q i. omega arith; short = λ q. tt }

purge-IsValid : (t : Tasknames) → IsValid (stats_purge_tasknames true t)
unfolding stats_purge_tasknames count pid_lookup find
purge-IsValid none = empty-IsValid
purge-IsValid (some pidhash) = record { unique = λ q i. omega arith; short = λ q. tt }

store-IsValid :
    (t : Tasknames) (k : ℤ) (name : Bytes) → IsValid t → IsValid (store_name true t k name)
unfolding store_name
store-IsValid t k name v = elim (Option-cases (pid_lookup t k)) [
  | inl e ↦ rw (e, store_name) (insert-IsValid t k name v e)
  | inr (p, e) ↦ elim (Bool-cases (same_text p.taskname name)) [
    | inl s ↦ rw (e, s, store_name) v
    | inr s ↦
        rw (e, s, store_name)
          (insert-IsValid (stats_remove_taskname true t k) k name (remove-IsValid t k v)
            (ground (arith, lookup-remove t k k v)))
  ]
]

get-store :
    (t : Tasknames) (k : ℤ) (name : Bytes) (q : ℤ)
    → IsValid t
    → stats_get_task_name (store_name true t k name) q
      ≡ (if k ==ℤ q then some (take 127 name) else stats_get_task_name t q)
unfolding store_name stats_get_task_name new_task
get-store t k name q v = elim (Option-cases (pid_lookup t k)) [
  | inl e ↦ rw (e, store_name) (ground (arith, lookup-insert t (new_task k name) q))
  | inr (p, e) ↦ elim (Bool-cases (same_text p.taskname name)) [
    | inl s ↦
        rw (e, s, store_name)
          (ground (
            arith,
            kept-short p (rw e at (v.short k)),
            e,
            ==ℤ_iff k q,
            same_text-eq p.taskname name s,
          ))
    | inr s ↦
        rw (e, s, store_name)
          (ground (
            arith,
            lookup-insert (stats_remove_taskname true t k) (new_task k name) q,
            lookup-remove t k q v,
          ))
  ]
]

apply-IsValid : (o : Op) (t : Tasknames) → IsValid t → IsValid (apply true o t)
unfolding apply stats_store_taskname
apply-IsValid (store pid none) t v = v
apply-IsValid (store pid (some name)) t v = store-IsValid t pid name v
apply-IsValid (removal pid) t v = remove-IsValid t pid v
apply-IsValid purge t v = purge-IsValid t

apply-named :
    (o : Op) (t : Tasknames) (q : ℤ)
    → IsValid t
    → stats_get_task_name (apply true o t) q ≡ named o (stats_get_task_name t) q
unfolding apply stats_store_taskname named
apply-named (store pid none) t q v = refl
apply-named (store pid (some name)) t q v = get-store t pid name q v
apply-named (removal pid) t q v =
    unfold stats_get_task_name in ground (arith, lookup-remove t pid q v)
apply-named purge none q v = unfold stats_purge_tasknames stats_get_task_name pid_lookup in refl
apply-named purge (some pidhash) q v =
    unfold stats_purge_tasknames stats_get_task_name pid_lookup find in refl

run-map :
    (os : List Op) (t : Tasknames) (q : ℤ)
    → IsValid t
    → stats_get_task_name (run true os t) q ≡ map_of os (stats_get_task_name t) q
unfolding run map_of
run-map [] t q v = refl
run-map (o ∷ os) t q v =
    rw (← (fun_ext (λ k. apply-named o t k v)))
      (run-map os (apply true o t) q (apply-IsValid o t v))

-- After any sequence of stores, removals and purges that starts without a table, while the reports
-- are enabled, a lookup finds for each pid the first 127 bytes of the name that was stored for it
-- last, and nothing when none was stored or it was removed or purged since.
pub run-named :
    (os : List Op) (q : ℤ) → stats_get_task_name (run true os none) q ≡ map_of os (λ k. none) q
unfolding stats_get_task_name pid_lookup
run-named os q = run-map os none q empty-IsValid

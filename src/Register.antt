-- ===== src/Register.antt =====
-- How clients change the registry, in lmkd.cpp: `register_oom_adj_proc`, `apply_proc_prio`,
-- `cmd_procprio`, `cmd_procs_prio`, `cmd_procremove` and `cmd_procpurge`. What these read from the
-- system is a record of functions, and what they do outside the registry is a list of effects.
pub mod Records
pub mod Purge
pub mod Commands
use mathlib.Core.Option
use system_memory_lmkd.Base.{
  ℕ, zero, suc, ◌+◌, ◌*◌, ◌^◌, ◌≡◌, Bool, true, false, not, ◌&&◌, ◌||◌, Option, none, some, List,
  [], ◌∷◌, ◌++◌, if◌then◌else◌,
}
use system_memory_lmkd.Base.Int.{ℤ, pos, negsuc, ◌==ℤ◌, ◌<?◌, ◌≤?◌}
use system_memory_lmkd.Packet.{LmkProcprio, proc_type_app, proc_type_count}
use system_memory_lmkd.Registry.Chain.{Proc}
use system_memory_lmkd.Registry.{
  Registry, pid_lookup, proc_slot, proc_unslot, proc_insert, proc_write, pid_remove, Removal,
  may_claim, claim,
}

pub data Effect : Type 0 where
  -- `/proc/<pid>/oom_score_adj`
  write_score : ℤ → ℤ → Effect
  -- the soft limit of a pid, its value, and whether a missing file is an error
  write_soft_limit : ℤ → ℕ → Bool → Effect
  close : ℤ → Effect
  -- the calls of statslog.cpp and `poll_kernel` under the in-kernel interface
  store_taskname : ℤ → Effect
  remove_taskname : ℤ → Effect
  poll_kernel : Effect
  purge_tasknames : Effect

-- The settings and descriptors that these functions read.
pub record Config : Type 0 where
  pub use_inkernel_interface : Bool
  pub per_app_memcg : Bool
  pub pidfd_supported : Bool
  pub last_kill : ℤ

-- The answers of the system: `parse_status_tag` over `read_proc_status` for the thread group,
-- whether a process's score file opens, `CgroupGetAttributePathForTask`, the user id that
-- `getpwnam("system")` finds, `pidfd_open`, and whether `calloc` has room.
pub record Os : Type 0 where
  pub tgid : ℤ → Option ℤ
  pub score_file : ℤ → Bool
  pub soft_limit_path : ℤ → Bool
  pub system_uid : Option ℤ
  pub pidfd_open : ℤ → ℤ
  pub calloc : Bool

-- The ladder of scores: the score to register and the multiple of eight megabytes.
unfoldable pub soft_limit_mult : ℤ → ℤ × ℕ
soft_limit_mult adj =
    if pos 900 ≤? adj
    then (adj, 0)
    else if pos 800 ≤? adj
    then (adj, 0)
    else if pos 700 ≤? adj
    then (adj, 0)
    else if pos 600 ≤? adj
    then (pos 200, 1)
    else if pos 500 ≤? adj
    then (adj, 0)
    else if pos 400 ≤? adj
    then (adj, 0)
    else if pos 300 ≤? adj
    then (adj, 1)
    else if pos 200 ≤? adj
    then (adj, 8)
    else if pos 100 ≤? adj
    then (adj, 10)
    else if pos 0 ≤? adj
    then (adj, 20)
    else (adj, 64)

-- SYSTEM_ADJ
abbrev pub system_adj : ℤ
system_adj = negsuc 899

unfoldable pub is_system_server : Os → ℤ → ℤ → Bool
is_system_server os score uid =
    score ==ℤ system_adj && elim os.system_uid [ none ↦ false | some u ↦ uid ==ℤ u ]

-- The record of a process that has none, or `none` when it cannot be made.
unfoldable pub new_proc : Config → Os → LmkProcprio → ℤ → ℤ → Option Proc
new_proc c os p score cred =
    let fd = (if c.pidfd_supported then os.pidfd_open p.pid else negsuc 0) in
    if c.pidfd_supported && fd <? pos 0
    then none
    else if os.calloc
    then some (record {
      pid = p.pid;
      pidfd = fd;
      uid = p.uid;
      oomadj = score;
      reg_pid = cred;
      valid = true;
    })
    else none

-- A known record is claimed, taken out of its slot, rescored and slotted again.
unfoldable pub rescore : Registry → Proc → ℤ → ℤ → Registry
rescore r p score cred =
    let claimed = proc_write r p.pid (λ q. claim q cred) in
    let out = proc_unslot claimed p in
    let moved = proc_write out p.pid (λ q. record q { oomadj = score }) in
    proc_slot moved (record p { oomadj = score })

unfoldable pub register_record : Config → Os → Registry → LmkProcprio → ℤ → ℤ → Registry
register_record c os r p score cred = elim (pid_lookup r p.pid) [
  | none ↦ elim (new_proc c os p score cred) [ none ↦ r | some q ↦ proc_insert r q ]
  | some q ↦ if may_claim q cred then rescore r q score cred else r
]

-- The branch for an application under per-application memory groups.
unfoldable pub register_app : Config → Os → Registry → LmkProcprio → ℤ → Registry × List Effect
register_app c os r p cred =
    let (score, mult) = soft_limit_mult p.oomadj in
    let limit = write_soft_limit p.pid (mult * 2 ^ 23) (not (is_system_server os score p.uid)) in
    if os.soft_limit_path p.pid then (register_record c os r p score cred, limit ∷ []) else (r, [])

unfoldable pub register_oom_adj_proc :
    Config → Os → Registry → LmkProcprio → ℤ → Registry × List Effect
register_oom_adj_proc c os r p cred =
    if p.ptype ==ℤ proc_type_app && c.per_app_memcg
    then register_app c os r p cred
    else (register_record c os r p p.oomadj cred, [])

-- The early returns of `apply_proc_prio` before the score is written.
unfoldable pub is_rejected : Os → LmkProcprio → Bool
is_rejected os p =
    (p.oomadj <? negsuc 999 || pos 1000 <? p.oomadj)
    || ((p.ptype <? proc_type_app || proc_type_count ≤? p.ptype)
        || (elim (os.tgid p.pid) [ none ↦ false | some t ↦ not (t ==ℤ p.pid) ]))

unfoldable pub apply_proc_prio : Config → Os → Registry → LmkProcprio → ℤ → Registry × List Effect
apply_proc_prio c os r p cred =
    if is_rejected os p
    then (r, [])
    else if not (os.score_file p.pid)
    then (r, [])
    else if c.use_inkernel_interface
    then (r, write_score p.pid p.oomadj ∷ store_taskname p.pid ∷ [])
    else let (r', effects) = register_oom_adj_proc c os r p cred in
      (r', write_score p.pid p.oomadj ∷ effects)

-- The loop of `cmd_procs_prio`.
unfoldable pub apply_procs : Config → Os → Registry → List LmkProcprio → ℤ → Registry × List Effect
apply_procs c os r [] cred = (r, [])
apply_procs c os r (p ∷ ps) cred =
    let (r', first) = apply_proc_prio c os r p cred in
    let (r'', others) = apply_procs c os r' ps cred in (r'', first ++ others)

unfoldable pub closing : Option ℤ → List Effect
closing none = []
closing (some fd) = close fd ∷ []

unfoldable pub cmd_procremove : Config → Registry → ℤ → ℤ → Registry × List Effect
cmd_procremove c r pid cred =
    if c.use_inkernel_interface
    then (r, poll_kernel ∷ remove_taskname pid ∷ [])
    else elim (pid_lookup r pid) [
      | none ↦ (r, [])
      | some p ↦
          let claimed = proc_write r pid (λ q. claim q cred) in
          let gone = pid_remove c.last_kill claimed pid in
          if may_claim p cred then (gone.registry, closing gone.closed) else (r, [])
    ]

-- One record of `cmd_procpurge`: purged if the requestor may claim it.
unfoldable pub purge_record : Config → Registry → Proc → ℤ → Registry × List Effect
purge_record c r p cred =
    let gone = pid_remove c.last_kill (proc_write r p.pid (λ q. claim q cred)) p.pid in
    if may_claim p cred then (gone.registry, closing gone.closed) else (r, [])

-- One chain of `cmd_procpurge`: its records as they stood when the walk came to it, since each
-- step reads `next` before it removes.
unfoldable pub purge_chain : Config → Registry → List Proc → ℤ → Registry × List Effect
purge_chain c r [] cred = (r, [])
purge_chain c r (p ∷ ps) cred =
    let (r', first) = purge_record c r p cred in
    let (r'', others) = purge_chain c r' ps cred in (r'', first ++ others)

-- The chains from `i` on, `n` of them.
unfoldable pub purge_chains : Config → Registry → ℕ → ℕ → ℤ → Registry × List Effect
purge_chains c r zero i cred = (r, [])
purge_chains c r (suc n) i cred =
    let (r', first) = purge_chain c r (r.pidhash i) cred in
    let (r'', others) = purge_chains c r' n (i + 1) cred in (r'', first ++ others)

-- PIDHASH_SZ
abbrev pub pidhash_sz : ℕ
pidhash_sz = 1024

unfoldable pub cmd_procpurge : Config → Registry → ℤ → Registry × List Effect
cmd_procpurge c r cred =
    if c.use_inkernel_interface
    then (r, purge_tasknames ∷ [])
    else purge_chains c r pidhash_sz 0 cred

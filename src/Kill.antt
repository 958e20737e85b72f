-- ===== src/Kill.antt =====
-- The kill path of lmkd.cpp: waiting for the death of the last victim, `kill_one_process`,
-- `proc_get_heaviest` and `find_and_kill_process`. The kernel's answers during one call are a
-- record of functions of the pid, and what is done outside the daemon is a list of effects.
pub mod Attempt
pub mod Descriptors
pub mod Heaviest
pub mod Progress
pub mod Removal
pub mod Search
pub mod Selection
pub mod Single
use mathlib.Core.Option
use system_memory_lmkd.Base.{
  ℕ, zero, suc, ◌+◌, ◌≡◌, Bool, true, false, not, ◌&&◌, ◌||◌, Option, none, some, List, [], ◌∷◌,
  ◌++◌, if◌then◌else◌,
}
use system_memory_lmkd.Base.Int.{ℤ, pos, negsuc, pos_part, ◌+ℤ◌, ◌-ℤ◌, ◌/ℤ◌, ◌==ℤ◌, ◌<?◌, ◌≤?◌}
use system_memory_lmkd.Killcnt.{Killcnt, inc_killcnt}
use system_memory_lmkd.Registry.Chain.{Proc}
use system_memory_lmkd.Registry.Hash.{adj_to_slot}
use system_memory_lmkd.Registry.{Registry, pid_lookup, pid_remove, proc_adj_tail}
use system_memory_lmkd.Time.{Timespec}

pub record Daemon : Type 0 where
  pub registry : Registry
  pub killcnt : Killcnt
  pub last_kill : ℤ
  pub last_kill_tm : Timespec
  pub maxevents : ℤ

pub record Setup : Type 0 where
  pub pidfd_supported : Bool
  pub kill_heaviest_task : Bool
  pub page_k : ℤ

-- Of a pid: whether /proc/<pid>/status can be read, the three fields of it as `parse_status_tag`
-- finds them, whether its name can be read, its size in pages (negative when it cannot be read) and
-- whether `reaper.kill` returns 0. Of a descriptor: whether `epoll_ctl` adds it. And the vendor's
-- hook, given the record, its size in pages and its score.
pub record Kernel : Type 0 where
  pub status : ℤ → Bool
  pub tgid : ℤ → Option ℤ
  pub rss_kb : ℤ → Option ℤ
  pub swap_kb : ℤ → Option ℤ
  pub name : ℤ → Bool
  pub size : ℤ → ℤ
  pub kill : ℤ → Bool
  pub epoll_add : ℤ → Bool
  pub before_kill_hook : Proc → ℤ → ℤ → ℤ

pub data Effect : Type 0 where
  close : ℤ → Effect
  -- a successful kill of a pid at its score, and its notification with the memory it held
  killed : ℤ → ℤ → Effect
  notified : ℤ → ℤ → ℤ → Effect

pub record Outcome : Type 0 where
  pub daemon : Daemon
  pub result : ℤ
  pub effects : List Effect

-- The daemon after a step, with the descriptors that it closed.
abbrev pub Stepped : Type 0
Stepped = Daemon × List Effect

unfoldable pub closing : Option ℤ → List Effect
closing none = []
closing (some fd) = close fd ∷ []

unfoldable pub is_waiting_for_kill : Setup → Daemon → Bool
is_waiting_for_kill s d = s.pidfd_supported && not (d.last_kill <? pos 0)

-- The argument is whether /proc has an entry for the last victim.
unfoldable pub is_kill_pending : Setup → (ℤ → Bool) → Daemon → Bool
is_kill_pending s exists d =
    if d.last_kill <? pos 0 then false else if s.pidfd_supported then true else exists d.last_kill

unfoldable pub stop_wait_for_proc_kill : Setup → Daemon → Stepped
stop_wait_for_proc_kill s d =
    if d.last_kill <? pos 0
    then (d, [])
    else if s.pidfd_supported
    then (
      record d { last_kill = negsuc 0; maxevents = d.maxevents -ℤ pos 1 },
      close d.last_kill ∷ [],
    )
    else (record d { last_kill = negsuc 0 }, [])

-- A wait in progress is stopped first.
unfoldable pub start_wait_for_proc_kill : Setup → Kernel → Daemon → ℤ → Stepped
start_wait_for_proc_kill s k d pid_or_fd =
    let (d', stopped) = stop_wait_for_proc_kill s d in
    if not s.pidfd_supported
    then (record d' { last_kill = pid_or_fd }, stopped)
    else if k.epoll_add pid_or_fd
    then (record d' { last_kill = pid_or_fd; maxevents = d'.maxevents +ℤ pos 1 }, stopped)
    else (record d' { last_kill = negsuc 0 }, stopped ++ close pid_or_fd ∷ [])

-- The checks before a kill: the memory of the process, in kilobytes, or `none` for `goto out`.
unfoldable pub is_killable : Kernel → Proc → Option ℤ
is_killable k p = if not p.valid || not (k.status p.pid) then none else elim (k.tgid p.pid) [
  | none ↦ none
  | some t ↦
      let rss : Option ℤ = elim (k.rss_kb p.pid) [
        | none ↦ none
        | some rss ↦ elim (k.swap_kb p.pid) [
          | none ↦ none
          | some swap ↦ if k.name p.pid then some rss else none
        ]
      ] in
      if t ==ℤ p.pid then rss else none
]

-- The label `out`: the record goes, and with it its descriptor unless that is waited for.
unfoldable pub drop_record : Daemon → ℤ → ℤ → List Effect → Outcome
drop_record d pid result effects =
    let r = pid_remove d.last_kill d.registry pid in
    record {
      daemon = record d { registry = r.registry };
      result = result;
      effects = effects ++ closing r.closed;
    }

-- From the start of the wait on. The hook's answer, which is not positive, is the result when the
-- kill fails.
unfoldable pub kill_target : Setup → Kernel → Daemon → Proc → Timespec → ℤ → ℤ → Outcome
kill_target s k d p tm rss_kb hook =
    let (d', started) =
      start_wait_for_proc_kill s k d (if p.pidfd <? pos 0 then p.pid else p.pidfd) in
    let counted = record d' { last_kill_tm = tm; killcnt = inc_killcnt d'.killcnt p.oomadj } in
    let (stopped, closed) = stop_wait_for_proc_kill s d' in
    if k.kill p.pid
    then drop_record counted p.pid (rss_kb /ℤ s.page_k)
        (started ++ killed p.pid p.oomadj ∷ notified p.pid p.uid rss_kb ∷ [])
    else drop_record stopped p.pid hook (started ++ closed)

unfoldable pub kill_one_process : Setup → Kernel → Daemon → Proc → Timespec → Outcome
kill_one_process s k d p tm = elim (is_killable k p) [
  | none ↦ drop_record d p.pid (negsuc 0) []
  | some rss_kb ↦
      let hook = k.before_kill_hook p (rss_kb /ℤ s.page_k) p.oomadj in
      if pos 0 <? hook
      then record { daemon = d; result = hook; effects = [] }
      else kill_target s k d p tm rss_kb hook
]

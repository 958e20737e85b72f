-- ===== src/Kill/Descriptors.antt =====
-- Who closes a victim's descriptor.
use system_memory_lmkd.Base.{
  ◌≡◌, refl, true, false, some, [], ◌∷◌, arith, if◌then◌else◌, Bool-cases, inl, inr,
}
use system_memory_lmkd.Base.Int.{ℤ, pos, negsuc, ◌/ℤ◌, ◌+ℤ◌, ◌-ℤ◌, ◌≤ℤ◌, ◌<ℤ◌, ◌<?◌, ◌==ℤ◌}
use system_memory_lmkd.Kill.{
  Daemon, Setup, Kernel, close, killed, notified, closing, is_killable, stop_wait_for_proc_kill,
  start_wait_for_proc_kill, drop_record, kill_target, kill_one_process,
}
use system_memory_lmkd.Registry.Chain.{Proc}
use system_memory_lmkd.Registry.{pid_lookup, pid_remove, closes}
use system_memory_lmkd.Time.{Timespec}

stop_wait-idle :
    (s : Setup) (d : Daemon) → d.last_kill <ℤ pos 0 → stop_wait_for_proc_kill s d ≡ (d, [])
unfolding stop_wait_for_proc_kill
stop_wait-idle s d idle = let e : (d.last_kill <? pos 0) ≡ true = ground arith in rw e refl

stop_wait-effects :
    (s : Setup) (d : Daemon)
    → s.pidfd_supported ≡ true
    → pos 0 ≤ℤ d.last_kill
    → stop_wait_for_proc_kill s d ≡ (
      record d { last_kill = negsuc 0; maxevents = d.maxevents -ℤ pos 1 },
      close d.last_kill ∷ [],
    )
unfolding stop_wait_for_proc_kill
stop_wait-effects s d sup busy =
    let e : (d.last_kill <? pos 0) ≡ false = ground arith in rw (e, sup) refl

abbrev waiting : Daemon → ℤ → Daemon
waiting d fd = record d { last_kill = fd; maxevents = d.maxevents +ℤ pos 1 }

start_wait-effects :
    (s : Setup) (k : Kernel) (d : Daemon) (fd : ℤ)
    → s.pidfd_supported ≡ true
    → d.last_kill <ℤ pos 0
    → k.epoll_add fd ≡ true
    → start_wait_for_proc_kill s k d fd ≡ (waiting d fd, [])
unfolding start_wait_for_proc_kill
start_wait-effects s k d fd sup idle added = simp (sup, added, stop_wait-idle s d idle) refl

-- An attempt at a registered process with a descriptor, when no other wait is in progress and
-- `epoll_ctl` takes the descriptor. After a kill the descriptor is left open and waited for; after a
-- failed kill it is closed twice, by `stop_wait_for_proc_kill` and again by `pid_remove`.
pub kill_one_process-effects :
    (s : Setup) (k : Kernel) (d : Daemon) (p : Proc) (tm : Timespec) (rss : ℤ)
    → s.pidfd_supported ≡ true
    → d.last_kill <ℤ pos 0
    → pos 0 ≤ℤ p.pidfd
    → pid_lookup d.registry p.pid ≡ some p
    → is_killable k p ≡ some rss
    → k.before_kill_hook p (rss /ℤ s.page_k) p.oomadj ≤ℤ pos 0
    → k.epoll_add p.pidfd ≡ true
    → let o = kill_one_process s k d p tm in
      (o.effects ≡ (
        if k.kill p.pid
        then killed p.pid p.oomadj ∷ notified p.pid p.uid rss ∷ []
        else close p.pidfd ∷ close p.pidfd ∷ []))
      × (o.daemon.last_kill ≡ (if k.kill p.pid then p.pidfd else negsuc 0))
unfolding kill_one_process kill_target drop_record pid_remove closing closes
kill_one_process-effects s k d p tm rss sup idle fd_open here ready hook added =
    let fd_test : (p.pidfd <? pos 0) ≡ false = ground arith in
    let hook_test : (pos 0 <? k.before_kill_hook p (rss /ℤ s.page_k) p.oomadj) ≡ false =
      ground arith in
    let same : (p.pidfd ==ℤ p.pidfd) ≡ true = ground arith in
    let other : (p.pidfd ==ℤ negsuc 0) ≡ false = ground arith in
    let started = start_wait-effects s k d p.pidfd sup idle added in
    let d' = waiting d p.pidfd in
    let stopped = stop_wait-effects s d' sup fd_open in
    elim (Bool-cases (k.kill p.pid)) [
      | inl y ↦
          rw (ready, kill_one_process, hook_test, kill_target, fd_test, started, y)
            (rw (here, pid_remove, fd_test, same) (refl, refl))
      | inr y ↦
          rw (ready, kill_one_process, hook_test, kill_target, fd_test, started, stopped, y)
            (rw (here, pid_remove, fd_test, other) (refl, refl))
    ]

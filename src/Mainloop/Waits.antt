-- ===== src/Mainloop/Waits.antt =====
-- That the event loop does not sleep through a death.
use system_memory_lmkd.Base.{
  ℕ, ◌≡◌, refl, arith, true, false, some, inl, inr, Bool-cases, Option-cases,
}
use system_memory_lmkd.Base.Int.{ℤ, pos, ◌-ℤ◌, ◌≤ℤ◌, ◌<ℤ◌, ◌<?◌, ◌==ℤ◌, int_laws, lt_of_test}
use system_memory_lmkd.Kill.{Daemon, Setup, is_waiting_for_kill, stop_wait_for_proc_kill}
use system_memory_lmkd.Mainloop.{
  Loop, Wait, poll_now, kill_expired, forever, poll_within, kill_within, poll_delay, kill_wait,
  next_wait, is_resume, expire,
}
use system_memory_lmkd.Polling.{Polling, polling_paused, resume_polling}
use system_memory_lmkd.Pressure.Event.{polling_resume}
use system_memory_lmkd.Time.{Timespec, get_time_diff_ms}

-- The times that are waited, for a poll and for a death; a wait without end has none.
abbrev pub IsWithin : ℤ → ℤ → Wait → Type 0
IsWithin interval timeout (kill_within t) = (pos 0 <ℤ t) × (t ≤ℤ timeout)
IsWithin interval timeout (poll_within t) = (pos 0 <ℤ t) × (t ≤ℤ interval)
IsWithin interval timeout poll_now = Unit
IsWithin interval timeout kill_expired = Unit
IsWithin interval timeout forever = ⊥

kill_wait-IsWithin :
    (interval timeout : ℤ) (setup : Setup) (d : Daemon) (tm : Timespec)
    → pos 0 <ℤ timeout
    → is_waiting_for_kill setup d ≡ true
    → pos 0 ≤ℤ get_time_diff_ms d.last_kill_tm tm
    → IsWithin interval timeout (kill_wait timeout setup d tm)
unfolding kill_wait
kill_wait-IsWithin interval timeout setup d tm h w late =
    let elapsed = get_time_diff_ms d.last_kill_tm tm in
    let set : (timeout ==ℤ pos 0) ≡ false = ground (arith, h) in
    elim (Bool-cases (pos 0 <? (timeout -ℤ elapsed))) [
      | inl e ↦
          rw (set, w, e, kill_wait)
            (lt_of_test (pos 0) (timeout -ℤ elapsed) e, omega (int_laws, late))
      | inr e ↦ rw (set, w, e, kill_wait) tt
    ]

poll_delay-bounds :
    (p : Polling) (tm : Timespec)
    → pos 0 <ℤ p.polling_interval_ms
    → pos 0 ≤ℤ get_time_diff_ms p.last_poll_tm tm
    → (pos 0 <ℤ poll_delay p tm) × (poll_delay p tm ≤ℤ p.polling_interval_ms)
unfolding poll_delay
poll_delay-bounds p tm h late =
    let delay = get_time_diff_ms p.last_poll_tm tm in
    elim (Bool-cases (delay <? p.polling_interval_ms)) [
      | inl e ↦
          let l = lt_of_test delay p.polling_interval_ms e in
          rw (e, poll_delay) (omega (int_laws, l), omega (int_laws, late))
      | inr e ↦ rw (e, poll_delay) (omega (arith, h))
    ]

-- While the death of a victim is waited for, the loop does not wait without end: it acts at once, or
-- waits a positive time that is no longer than the polling interval or the kill timeout; where both
-- of these are positive, and the last poll and the last kill are not in the future.
pub next_wait-IsWithin :
    (timeout : ℤ) (setup : Setup) (s : Loop) (tm : Timespec)
    → pos 0 <ℤ timeout
    → pos 0 <ℤ s.polling.polling_interval_ms
    → is_waiting_for_kill setup s.daemon ≡ true
    → pos 0 ≤ℤ get_time_diff_ms s.daemon.last_kill_tm tm
    → pos 0 ≤ℤ get_time_diff_ms s.polling.last_poll_tm tm
    → IsWithin s.polling.polling_interval_ms timeout (next_wait timeout setup s tm)
unfolding next_wait
next_wait-IsWithin timeout setup s tm h i w killed polled =
    elim (Option-cases s.polling.poll_handler) [
      | inl e ↦
          rw (e, next_wait)
            (kill_wait-IsWithin s.polling.polling_interval_ms timeout setup s.daemon tm h w killed)
      | inr (g, e) ↦ elim (Bool-cases (is_resume s.update)) [
        | inl f ↦ rw (e, next_wait, f) tt
        | inr f ↦ rw (e, next_wait, f) (poll_delay-bounds s.polling tm i polled)
      ]
    ]

stopped :
    (setup : Setup) (d : Daemon)
    → is_waiting_for_kill setup (stop_wait_for_proc_kill setup d).0 ≡ false
unfolding is_waiting_for_kill stop_wait_for_proc_kill
stopped setup d = elim (Bool-cases (d.last_kill <? pos 0)) [
  | inl e ↦ rw (e, stop_wait_for_proc_kill) (ground (arith, e))
  | inr e ↦ elim (Bool-cases setup.pidfd_supported) [
    | inl f ↦ rw (e, f, stop_wait_for_proc_kill) (ground arith)
    | inr f ↦ rw (e, f, stop_wait_for_proc_kill) (ground arith)
  ]
]

expired_loop :
    (setup : Setup) (s : Loop) (tm : Timespec)
    → polling_paused s.polling ≡ true
    → (expire setup s tm).0 ≡ record {
      polling = resume_polling s.polling tm;
      update = polling_resume;
      daemon = (stop_wait_for_proc_kill setup s.daemon).0;
    }
unfolding expire
expired_loop setup s tm p = rw (p, expire) refl

-- When the wait for a death runs out while the polling is paused, the paused handler is polled at
-- once, whatever the time is, and no death is waited for any more.
pub expire-polls :
    (timeout : ℤ) (setup : Setup) (s : Loop) (h : ℕ) (tm later : Timespec)
    → s.polling.paused_handler ≡ some h
    → let s' = (expire setup s tm).0 in
      (s'.polling.poll_handler ≡ some h)
      × (next_wait timeout setup s' later ≡ poll_now)
      × (is_waiting_for_kill setup s'.daemon ≡ false)
unfolding polling_paused resume_polling next_wait is_resume
expire-polls timeout setup s h tm later e =
    let p : polling_paused s.polling ≡ true = rw (e, polling_paused) refl in
    rw (expired_loop setup s tm p) (e, rw (e, next_wait) refl, stopped setup s.daemon)

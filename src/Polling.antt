-- ===== src/Polling.antt =====
-- The polling of lmkd.cpp: `call_handler` and `resume_polling`. A handler is named by a number; what
-- it asks for is the update that it leaves in `poll_params`, with its interval.
use system_memory_lmkd.Base.{
  ℕ, ◌≡◌, ◌∙◌, refl, arith, Bool, true, false, Option, none, some, List, [], ◌∷◌, ◌==◌,
  if◌then◌else◌,
}
use system_memory_lmkd.Base.Int.{ℤ, pos, ◌<?◌}
use system_memory_lmkd.Pressure.Event.{
  PollingUpdate, polling_do_not_change, polling_start, polling_pause, polling_resume, PollingParams,
}
use system_memory_lmkd.Time.{Timespec, get_time_diff_ms}

pub record Polling : Type 0 where
  pub poll_handler : Option ℕ
  pub paused_handler : Option ℕ
  pub poll_start_tm : Timespec
  pub last_poll_tm : Timespec
  pub polling_interval_ms : ℤ

unfoldable pub polling_paused : Polling → Bool
polling_paused s = elim s.paused_handler [ none ↦ false | some h ↦ true ]

-- PSI_WINDOW_SIZE_MS
abbrev pub psi_window_size_ms : ℤ
psi_window_size_ms = pos 1000

unfoldable pub resume_polling : Polling → Timespec → Polling
resume_polling s tm = record s {
  poll_start_tm = tm;
  poll_handler = s.paused_handler;
  polling_interval_ms = pos 10;
  paused_handler = none;
}

unfoldable pub is_polled : Option ℕ → ℕ → Bool
is_polled none h = false
is_polled (some p) h = p == h

-- The switch on the update.
unfoldable pub apply_update : PollingUpdate → Polling → ℕ → Timespec → Polling
apply_update polling_start s h tm = record s {
  poll_start_tm = tm;
  poll_handler = some h;
  last_poll_tm = tm;
}
apply_update polling_pause s h tm = record s { paused_handler = some h; poll_handler = none }
apply_update polling_resume s h tm = resume_polling s tm
apply_update polling_do_not_change s h tm =
    if psi_window_size_ms <? get_time_diff_ms s.poll_start_tm tm
    then record s { poll_handler = none }
    else s

-- After the handler `h` ran and left these parameters.
unfoldable pub call_handler : Polling → ℕ → PollingParams → Timespec → Polling
call_handler s h poll tm =
    let s' = record s {
      polling_interval_ms = poll.polling_interval_ms;
      last_poll_tm = if is_polled s.poll_handler h then tm else s.last_poll_tm;
    } in
    apply_update poll.update s' h tm

-- Handlers that ask for no change, with their times.
unfoldable pub run_unchanged : Polling → List (ℕ × Timespec) → Polling
run_unchanged s [] = s
run_unchanged s ((h, tm) ∷ calls) =
    run_unchanged
      (call_handler s h
        (record { update = polling_do_not_change; polling_interval_ms = s.polling_interval_ms }) tm)
      calls

abbrev unchanged : Polling → PollingParams
unchanged s = record { update = polling_do_not_change; polling_interval_ms = s.polling_interval_ms }

call-paused :
    (s : Polling) (h : ℕ) (tm : Timespec)
    → (call_handler s h (unchanged s) tm).paused_handler ≡ s.paused_handler
unfolding call_handler apply_update
call-paused s h tm = ground arith

unchanged-paused :
    (s : Polling) (calls : List (ℕ × Timespec))
    → (run_unchanged s calls).paused_handler ≡ s.paused_handler
unfolding run_unchanged
unchanged-paused s [] = refl
unchanged-paused s ((h, tm) ∷ calls) =
    unchanged-paused (call_handler s h (unchanged s) tm) calls ∙ call-paused s h tm

-- A handler that paused the polling is polled again, at once, at the short interval and for a new
-- window, when another handler resumes it, whatever handlers ran in between that asked for no
-- change; and the polling is then not paused.
pub resume-pause :
    (s : Polling) (h g : ℕ) (calls : List (ℕ × Timespec)) (paused resumed : Timespec)
    (before after : ℤ)
    → let waiting =
        call_handler s h (record { update = polling_pause; polling_interval_ms = before }) paused in
      let end =
        call_handler
          (run_unchanged waiting calls)
          g
          (record { update = polling_resume; polling_interval_ms = after })
          resumed in
      (end.poll_handler ≡ some h)
      × (end.poll_start_tm ≡ resumed)
      × (end.polling_interval_ms ≡ pos 10)
      × (polling_paused end ≡ false)
unfolding call_handler apply_update resume_polling polling_paused
resume-pause s h g calls paused resumed before after =
    let waiting =
      call_handler s h (record { update = polling_pause; polling_interval_ms = before }) paused in
    (unchanged-paused waiting calls, refl, refl, refl)

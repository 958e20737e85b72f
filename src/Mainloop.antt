-- ===== src/Mainloop.antt =====
-- The event loop of lmkd.cpp: how long `mainloop` waits, what it does when the wait for a death runs
-- out, the order in which it handles what came in, and the two handlers for the end of a kill.
pub mod Waits
use system_memory_lmkd.Base.{
  ℕ, Bool, true, false, not, ◌&&◌, ◌||◌, ◌≡◌, ◌≤◌, ◌∙◌, refl, arith, Option, none, some, List, [],
  ◌∷◌, ◌++◌, inl, inr, Bool-cases, if◌then◌else◌,
}
use system_memory_lmkd.Base.Int.{ℤ, pos, negsuc, ◌-ℤ◌, ◌≤ℤ◌, ◌<ℤ◌, ◌<?◌, ◌≤?◌, ◌==ℤ◌, int_laws}
use system_memory_lmkd.Kill.{
  Daemon, Setup, Effect, Stepped, is_waiting_for_kill, stop_wait_for_proc_kill,
}
use system_memory_lmkd.Polling.{Polling, polling_paused, resume_polling}
use system_memory_lmkd.Pressure.Event.{
  PollingUpdate, polling_do_not_change, polling_start, polling_pause, polling_resume, PollingParams,
}
use system_memory_lmkd.Time.{Timespec, get_time_diff_ms}

-- `update` is what the last handler asked for.
pub record Loop : Type 0 where
  pub polling : Polling
  pub update : PollingUpdate
  pub daemon : Daemon

-- What an iteration starts with: a poll or the end of a wait at once, or a wait for events with a
-- timeout, or with none.
pub data Wait : Type 0 where
  poll_now kill_expired forever : Wait
  poll_within kill_within : ℤ → Wait

unfoldable pub is_resume : PollingUpdate → Bool
is_resume polling_do_not_change = false
is_resume polling_start = false
is_resume polling_pause = false
is_resume polling_resume = true

-- "Calculate next timeout"
unfoldable pub poll_delay : Polling → Timespec → ℤ
poll_delay p tm =
    let delay = get_time_diff_ms p.last_poll_tm tm in
    if delay <? p.polling_interval_ms then p.polling_interval_ms -ℤ delay else p.polling_interval_ms

unfoldable pub kill_wait : ℤ → Setup → Daemon → Timespec → Wait
kill_wait kill_timeout_ms setup d tm =
    let delay = kill_timeout_ms -ℤ get_time_diff_ms d.last_kill_tm tm in
    if not (kill_timeout_ms ==ℤ pos 0) && is_waiting_for_kill setup d
    then if pos 0 <? delay then kill_within delay else kill_expired
    else forever

unfoldable pub next_wait : ℤ → Setup → Loop → Timespec → Wait
next_wait kill_timeout_ms setup s tm = elim s.polling.poll_handler [
  | none ↦ kill_wait kill_timeout_ms setup s.daemon tm
  | some h ↦ if is_resume s.update then poll_now else poll_within (poll_delay s.polling tm)
]

-- After a wait for the next poll: whether it is due.
unfoldable pub is_due : Polling → Timespec → Bool
is_due p tm = p.polling_interval_ms ≤? get_time_diff_ms p.last_poll_tm tm

-- "Kill notification timed out"
unfoldable pub expire : Setup → Loop → Timespec → Loop × List Effect
expire setup s tm =
    let (d, es) = stop_wait_for_proc_kill setup s.daemon in
    if polling_paused s.polling
    then (record { polling = resume_polling s.polling tm; update = polling_resume; daemon = d }, es)
    else (record s { daemon = d }, es)

-- The death of the victim, or its failure, ends the wait and the pause.
unfoldable pub kill_done_handler : Setup → Daemon → PollingParams → Stepped × PollingParams
kill_done_handler setup d poll =
    (stop_wait_for_proc_kill setup d, record poll { update = polling_resume })

-- The pid that the pipe holds is only taken out of it.
unfoldable pub kill_fail_handler : Setup → Daemon → ℤ → PollingParams → Stepped × PollingParams
kill_fail_handler setup d pid poll =
    (stop_wait_for_proc_kill setup d, record poll { update = polling_resume })

-- An event: whether its descriptor hung up, and its handler, if it has one.
pub data Handler : Type 0 where
  kill_done : Handler
  -- of the data connections and of all else, with its data
  other : ℕ → Handler

pub record Event : Type 0 where
  pub hup : Bool
  pub handler : Option Handler

pub data Action : Type 0 where
  call : Handler → Action
  close_connection : ℕ → Action

unfoldable pub hung_up : Handler → Action
hung_up kill_done = call kill_done
hung_up (other i) = close_connection i

-- "First pass to see if any data socket connections were dropped."
unfoldable pub first_pass : List Event → List Action
first_pass [] = []
first_pass (e ∷ es) =
    let rest = first_pass es in
    elim e.handler [ none ↦ rest | some h ↦ if e.hup then hung_up h ∷ rest else rest ]

unfoldable pub second_pass : List Event → List Action
second_pass [] = []
second_pass (e ∷ es) =
    let rest = second_pass es in
    elim e.handler [ none ↦ rest | some h ↦ if e.hup then rest else call h ∷ rest ]

unfoldable pub handle_events : List Event → List Action
handle_events es = first_pass es ++ second_pass es

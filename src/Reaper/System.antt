-- ===== src/Reaper/System.antt =====
-- The main thread and the reaper's threads as a step relation. A step of a thread is one stretch of
-- `reaper_main` between two points where another thread may run: it takes a request, or finds none and
-- waits at the condition variable, signals the process, closes the descriptor, and reports that it is
-- done. A thread that waits there goes on when `notify_one` picks it, or without a reason. The priorities that it sets and
-- `process_mrelease` change nothing of this state.
use system_memory_lmkd.Base.{
  ℕ, zero, suc, ◌<◌, ◌≡◌, Bool, true, false, none, some, List, [], ◌∷◌, update, if◌then◌else◌,
}
use system_memory_lmkd.Base.Int.{ℤ, pos, ◌==ℤ◌}
use system_memory_lmkd.Reaper.{
  TargetProc, Reaper, new, init, async_kill, dequeue_request, request_complete,
}

-- Where a thread stands in the loop of `reaper_main`: `waiting` in front of its look at the queue,
-- `asleep` in `cond_.wait`.
pub data Pc : Type 0 where
  waiting : Pc
  asleep : Pc
  holding : TargetProc → Pc
  signalled : TargetProc → Pc
  closed : Pc

-- The last four are histories, newest first: the requests accepted, the signals sent with their
-- results, the descriptors closed, and the pids written to the pipe to the main thread.
pub record System : Type 0 where
  pub reaper : Reaper
  pub pc : ℕ → Pc
  pub accepted : List TargetProc
  pub attempted : List (TargetProc × ℤ)
  pub closes : List TargetProc
  pub pipe : List ℤ

-- After `init`, with the threads at the top of their loop.
unfoldable pub start : (ℕ → Bool) → ℤ → System
start creates comm_fd = record {
  reaper = (init creates comm_fd new).0;
  pc = λ i. waiting;
  accepted = [];
  attempted = [];
  closes = [];
  pipe = [];
}

abbrev pub is_asleep : Pc → Bool
is_asleep asleep = true
is_asleep waiting = false
is_asleep (holding t) = false
is_asleep (signalled t) = false
is_asleep closed = false

-- `notify_one` over `n` threads: it wakes one of those that wait, whichever the system picks, and
-- does nothing when none waits.
pub data Notified (n : ℕ) (pc : ℕ → Pc) : (ℕ → Pc) → Type 0 where
  wakes_one : (i : ℕ) → i < n → pc i ≡ asleep → Notified n pc (update pc i waiting)
  wakes_none : ((i : ℕ) → i < n → is_asleep (pc i) ≡ false) → Notified n pc pc

-- The main thread asks for a kill; `pc` is what `notify_one` makes of the threads when it is called.
unfoldable pub request : System → ℤ → TargetProc → (ℕ → Pc) → System
request s dup t pc =
    let (r, ok) = async_kill s.reaper dup t in
    record s {
      reaper = r;
      pc = if ok then pc else s.pc;
      accepted = if ok then record t { pidfd = dup } ∷ s.accepted else s.accepted;
    }

unfoldable pub take : System → ℕ → Reaper → TargetProc → System
take s i r t = record s { reaper = r; pc = update s.pc i (holding t) }

-- `cond_.wait`, and its end without a notification.
unfoldable pub sleep : System → ℕ → System
sleep s i = record s { pc = update s.pc i asleep }

unfoldable pub rouse : System → ℕ → System
rouse s i = record s { pc = update s.pc i waiting }

-- The result of `pidfd_send_signal`; a failure is written to the pipe.
unfoldable pub send_signal : System → ℕ → TargetProc → ℤ → System
send_signal s i t result = record s {
  pc = update s.pc i (signalled t);
  attempted = (t, result) ∷ s.attempted;
  pipe = if result ==ℤ pos 0 then s.pipe else t.pid ∷ s.pipe;
}

unfoldable pub close_fd : System → ℕ → TargetProc → System
close_fd s i t = record s { pc = update s.pc i closed; closes = t ∷ s.closes }

unfoldable pub complete : System → ℕ → System
complete s i = record s { reaper = request_complete s.reaper; pc = update s.pc i waiting }

-- The steps of the threads.
pub data Works : System → System → Type 0 where
  takes :
      (s : System) (i : ℕ) (r : Reaper) (t : TargetProc)
      → i < s.reaper.thread_cnt
      → s.pc i ≡ waiting
      → dequeue_request s.reaper ≡ some (r, t)
      → Works s (take s i r t)
  sleeps :
      (s : System) (i : ℕ)
      → i < s.reaper.thread_cnt
      → s.pc i ≡ waiting
      → dequeue_request s.reaper ≡ none
      → Works s (sleep s i)
  signals :
      (s : System) (i : ℕ) (t : TargetProc) (result : ℤ)
      → i < s.reaper.thread_cnt
      → s.pc i ≡ holding t
      → Works s (send_signal s i t result)
  closes_fd :
      (s : System) (i : ℕ) (t : TargetProc)
      → i < s.reaper.thread_cnt
      → s.pc i ≡ signalled t
      → Works s (close_fd s i t)
  completes :
      (s : System) (i : ℕ) → i < s.reaper.thread_cnt → s.pc i ≡ closed → Works s (complete s i)

pub data Step : System → System → Type 0 where
  requests :
      (s : System) (dup : ℤ) (t : TargetProc) (pc : ℕ → Pc)
      → Notified s.reaper.thread_cnt s.pc pc
      → Step s (request s dup t pc)
  wakes : (s : System) (i : ℕ) → i < s.reaper.thread_cnt → s.pc i ≡ asleep → Step s (rouse s i)
  works : {s u : System} → Works s u → Step s u

pub data Reach (s : System) : System → Type 0 where
  here : Reach s s
  next : {t u : System} → Reach s t → Step t u → Reach s u

-- So many steps of the threads, with no request and no wake-up without a reason in between.
pub data Run : System → ℕ → System → Type 0 where
  stay : {s : System} → Run s zero s
  more : {s t u : System} {n : ℕ} → Works s t → Run t n u → Run s (suc n) u

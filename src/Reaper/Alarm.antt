-- ===== src/Reaper/Alarm.antt =====
-- The condition variable: no request in the queue is slept through, since each one that is queued wakes
-- a thread that sleeps, or finds none asleep.
use system_memory_lmkd.Base.{
  ℕ, zero, suc, ◌+◌, ◌≤◌, ◌<◌, ◌≡◌, ◌⊎◌, refl, ap, Bool, false, none, some, length, arith,
  if◌then◌else◌, inl, inr,
}
use system_memory_lmkd.Base.Int.{ℤ}
use system_memory_lmkd.Reaper.Balance.{
  gathered, gathered-update, busy, Balanced, dequeue_request-cons, Reach-Balanced,
}
use system_memory_lmkd.Reaper.System.{
  Pc, waiting, asleep, holding, signalled, closed, is_asleep, Notified, wakes_one, wakes_none,
  System, start, request, take, sleep, rouse, send_signal, close_fd, complete, Works, takes, sleeps,
  signals, closes_fd, completes, Step, requests, works, wakes, Reach, here, next,
}
use system_memory_lmkd.Reaper.{
  TargetProc, Reaper, new, init, async_kill, dequeue_request, request_complete,
}

-- The threads that will look at the queue, and those that sleep.
abbrev pub ready : Pc → ℕ
ready waiting = 1
ready asleep = 0
ready (holding t) = 0
ready (signalled t) = 0
ready closed = 0

abbrev sleeping : Pc → ℕ
sleeping p = if is_asleep p then 1 else 0

one_of_three : (p : Pc) → ready p + busy p + sleeping p ≡ 1
one_of_three waiting = refl
one_of_three asleep = refl
one_of_three (holding t) = refl
one_of_three (signalled t) = refl
one_of_three closed = refl

all_threads :
    (n : ℕ) (f : ℕ → Pc) → gathered ready n f + gathered busy n f + gathered sleeping n f ≡ n
unfolding gathered
all_threads zero f = refl
all_threads (suc n) f = omega (arith, all_threads n f, one_of_three (f n))

none_sleeping :
    (n : ℕ) (f : ℕ → Pc) → ((i : ℕ) → i < n → is_asleep (f i) ≡ false) → gathered sleeping n f ≡ 0
unfolding gathered
none_sleeping zero f h = refl
none_sleeping (suc n) f h =
    ground (arith, none_sleeping n f (λ i l. h i (omega (arith, l))), h n (omega arith))

-- After a notification one thread more is ready, or every thread is ready or busy.
Notified-ready :
    {n : ℕ} {f g : ℕ → Pc}
    → Notified n f g
    → (gathered ready n g ≡ gathered ready n f + 1)
      ⊎ ((gathered ready n g ≡ gathered ready n f) × (gathered ready n f + gathered busy n f ≡ n))
Notified-ready {n} {f} (wakes_one i lt at_pc) =
    inl (omega (arith, ap ready at_pc, gathered-update ready n i f waiting lt))
Notified-ready {n} {f} (wakes_none h) =
    inr (refl, omega (arith, all_threads n f, none_sleeping n f h))

-- As many threads are ready as there are requests in the queue, or more.
abbrev pub Awake : System → Type 0
Awake s = length s.reaper.queue ≤ gathered ready s.reaper.thread_cnt s.pc

request-Awake :
    (s : System) (dup : ℤ) (t : TargetProc) (pc : ℕ → Pc)
    → Notified s.reaper.thread_cnt s.pc pc
    → Balanced s
    → Awake s
    → Awake (request s dup t pc)
unfolding request async_kill
request-Awake s dup t pc notified b a = elim (Notified-ready notified) [
  | inl e ↦ ground (arith, a, e)
  | inr (e, full) ↦ ground (arith, a, e, full, b.active)
]

take-Awake :
    (s : System) (i : ℕ) (r : Reaper) (t : TargetProc)
    → i < s.reaper.thread_cnt
    → s.pc i ≡ waiting
    → dequeue_request s.reaper ≡ some (r, t)
    → Awake s
    → Awake (take s i r t)
unfolding take
take-Awake s i r t lt at_pc e a =
    let (q, active, n) = dequeue_request-cons s.reaper r t e in
    ground (arith, q, n, a, at_pc, gathered-update ready s.reaper.thread_cnt i s.pc (holding t) lt)

pub none_queued : (r : Reaper) → dequeue_request r ≡ none → length r.queue ≡ 0
unfolding dequeue_request
none_queued r e = ground (arith, e)

pub Works-Awake : {s u : System} → Works s u → Awake s → Awake u
unfolding sleep send_signal close_fd complete request_complete
Works-Awake (takes s i r t lt at_pc e) a = take-Awake s i r t lt at_pc e a
Works-Awake (sleeps s i lt at_pc e) a = omega (arith, none_queued s.reaper e)
Works-Awake (signals s i t result lt at_pc) a =
    omega
      (arith, a, ap ready at_pc, gathered-update ready s.reaper.thread_cnt i s.pc (signalled t) lt)
Works-Awake (closes_fd s i t lt at_pc) a =
    omega (arith, a, ap ready at_pc, gathered-update ready s.reaper.thread_cnt i s.pc closed lt)
Works-Awake (completes s i lt at_pc) a =
    omega (arith, a, ap ready at_pc, gathered-update ready s.reaper.thread_cnt i s.pc waiting lt)

Step-Awake : {s u : System} → Step s u → Balanced s → Awake s → Awake u
unfolding rouse
Step-Awake (requests s dup t pc n) b a = request-Awake s dup t pc n b a
Step-Awake (works st) b a = Works-Awake st a
Step-Awake (wakes s i lt at_pc) b a =
    omega (arith, a, ap ready at_pc, gathered-update ready s.reaper.thread_cnt i s.pc waiting lt)

start-Awake : (creates : ℕ → Bool) (fd : ℤ) → Awake (start creates fd)
unfolding start init new
start-Awake creates fd = ground arith

pub Reach-Awake : (creates : ℕ → Bool) (fd : ℤ) {u : System} → Reach (start creates fd) u → Awake u
Reach-Awake creates fd here = start-Awake creates fd
Reach-Awake creates fd (next r st) =
    Step-Awake st (Reach-Balanced creates fd r) (Reach-Awake creates fd r)

-- ===== src/Reaper/Drain.antt =====
-- That the reaper gets its work done: a request in the queue has a thread that waits for it, and the
-- threads come to rest with every accepted request signalled.
use system_memory_lmkd.Base.{
  ℕ, zero, suc, ◌+◌, ◌*◌, ◌<◌, ◌≡◌, ◌⊎◌, refl, Bool, none, some, List, [], ◌∷◌, length, arith,
  Option-cases, inl, inr,
}
use system_memory_lmkd.Reaper.Alarm.{ready, Awake, Works-Awake, Reach-Awake}
use system_memory_lmkd.Reaper.Balance.{
  gathered, gathered-update, busy, held, to_close, tally, tally_attempts, Balanced,
  dequeue_request-cons, Works-Balanced, Reach-Balanced,
}
use system_memory_lmkd.Base.Int.{ℤ, pos}
use system_memory_lmkd.Reaper.System.{
  Pc, asleep, sleep, sleeps, waiting, holding, signalled, closed, System, start, take, send_signal,
  close_fd, complete, Works, takes, signals, closes_fd, completes, Reach, Run, stay, more,
}
use system_memory_lmkd.Reaper.{TargetProc, Reaper, dequeue_request, request_complete}

-- The steps that a thread has left.
abbrev pub left : Pc → ℕ
left asleep = 0
left waiting = 1
left closed = 2
left (signalled t) = 3
left (holding t) = 4

pub work : System → ℕ
work s = 4 * length s.reaper.queue + gathered left s.reaper.thread_cnt s.pc

Works-work : {s u : System} → Works s u → work s ≡ work u + 1
unfolding work take sleep send_signal close_fd complete request_complete
Works-work (takes s i r t lt e d) =
    let (q, a, n) = dequeue_request-cons s.reaper r t d in
    ground (arith, q, n, e, gathered-update left s.reaper.thread_cnt i s.pc (holding t) lt)
Works-work (sleeps s i lt e d) =
    ground (arith, e, gathered-update left s.reaper.thread_cnt i s.pc asleep lt)
Works-work (signals s i t result lt e) =
    ground (arith, e, gathered-update left s.reaper.thread_cnt i s.pc (signalled t) lt)
Works-work (closes_fd s i t lt e) =
    ground (arith, e, gathered-update left s.reaper.thread_cnt i s.pc closed lt)
Works-work (completes s i lt e) =
    ground (arith, e, gathered-update left s.reaper.thread_cnt i s.pc waiting lt)

Pc-cases :
    (p : Pc)
    → (p ≡ asleep)
      ⊎ (p ≡ waiting)
      ⊎ ((t : TargetProc) × (p ≡ holding t))
      ⊎ ((t : TargetProc) × (p ≡ signalled t))
      ⊎ (p ≡ closed)
Pc-cases asleep = inl refl
Pc-cases waiting = inr (inl refl)
Pc-cases (holding t) = inr (inr (inl (t, refl)))
Pc-cases (signalled t) = inr (inr (inr (inl (t, refl))))
Pc-cases closed = inr (inr (inr (inr refl)))

left-cases : (p : Pc) → (p ≡ asleep) ⊎ (0 < left p)
left-cases asleep = inl refl
left-cases waiting = inr (omega arith)
left-cases (holding t) = inr (omega arith)
left-cases (signalled t) = inr (omega arith)
left-cases closed = inr (omega arith)

ready-cases : (p : Pc) → (p ≡ waiting) ⊎ (ready p ≡ 0)
ready-cases waiting = inl refl
ready-cases asleep = inr refl
ready-cases (holding t) = inr refl
ready-cases (signalled t) = inr refl
ready-cases closed = inr refl

-- Some thread has steps left, or all sleep.
find_busy : (n : ℕ) (f : ℕ → Pc) → 0 < gathered left n f → (i : ℕ) × (i < n) × (0 < left (f i))
unfolding gathered
find_busy zero f h = absurd (omega arith)
find_busy (suc n) f h = elim (left-cases (f n)) [
  | inr l ↦ (n, omega arith, l)
  | inl e ↦ let (i, lt, l) = find_busy n f (ground (arith, e, h)) in (i, omega (arith, lt), l)
]

find_waiting : (n : ℕ) (f : ℕ → Pc) → 0 < gathered ready n f → (i : ℕ) × (i < n) × (f i ≡ waiting)
unfolding gathered
find_waiting zero f h = absurd (omega arith)
find_waiting (suc n) f h = elim (ready-cases (f n)) [
  | inl e ↦ (n, omega arith, e)
  | inr e ↦ let (i, lt, w) = find_waiting n f (omega (arith, h, e)) in (i, omega (arith, lt), w)
]

queue-cases : (r : Reaper) → (0 < length r.queue) ⊎ (length r.queue ≡ 0)
queue-cases r = ground arith

dequeue_request-some :
    (r : Reaper) → 0 < length r.queue → (d : Reaper × TargetProc) × (dequeue_request r ≡ some d)
dequeue_request-some r h = elim (Option-cases (dequeue_request r)) [
  | inl e ↦ absurd (unfold dequeue_request in (ground (arith, e, h)))
  | inr found ↦ found
]

empty-dequeue_request : (r : Reaper) → length r.queue ≡ 0 → dequeue_request r ≡ none
unfolding dequeue_request
empty-dequeue_request r e = ground (arith, e)

-- In every state that can be reached, if a request is in the queue then a thread waits for one: the
-- reaper accepts no more requests than it has threads, so none has to wait for another to be done.
pub queued-thread :
    (creates : ℕ → Bool) (fd : ℤ) {s : System}
    → Reach (start creates fd) s
    → 0 < length s.reaper.queue
    → (i : ℕ) × (i < s.reaper.thread_cnt) × (s.pc i ≡ waiting)
queued-thread creates fd {s} r h =
    let a = Reach-Awake creates fd r in find_waiting s.reaper.thread_cnt s.pc (omega (arith, a, h))

step_left : (s : System) → Awake s → 0 < work s → (u : System) × Works s u
unfolding work
step_left s a h = elim (queue-cases s.reaper) [
  | inl q ↦
      let (i, lt, w) = find_waiting s.reaper.thread_cnt s.pc (omega (arith, a, q)) in
      let ((r, t), e) = dequeue_request-some s.reaper q in (take s i r t, takes s i r t lt w e)
  | inr q ↦
      let (i, lt, l) = find_busy s.reaper.thread_cnt s.pc (omega (arith, h, q)) in
      elim (Pc-cases (s.pc i)) [
        | inl e ↦ absurd (ground (arith, e, l))
        | inr (inl e) ↦ (sleep s i, sleeps s i lt e (empty-dequeue_request s.reaper q))
        | inr (inr (inl (t, e))) ↦ (send_signal s i t (pos 0), signals s i t (pos 0) lt e)
        | inr (inr (inr (inl (t, e)))) ↦ (close_fd s i t, closes_fd s i t lt e)
        | inr (inr (inr (inr e))) ↦ (complete s i, completes s i lt e)
      ]
]

Run-work : {n : ℕ} {s u : System} → Run s n u → work s ≡ work u + n
Run-work stay = omega arith
Run-work (more st run) = omega (arith, Works-work st, Run-work run)

Run-Awake : {n : ℕ} {s u : System} → Run s n u → Awake s → Awake u
Run-Awake stay a = a
Run-Awake (more st run) a = Run-Awake run (Works-Awake st a)

Run-Balanced : {n : ℕ} {s u : System} → Run s n u → Balanced s → Balanced u
Run-Balanced stay b = b
Run-Balanced (more st run) b = Run-Balanced run (Works-Balanced st b)

idle-gathered :
    (w : Pc → ℕ) (n : ℕ) (f : ℕ → Pc) → w asleep ≡ 0 → gathered left n f ≡ 0 → gathered w n f ≡ 0
unfolding gathered
idle-gathered w zero f e h = refl
idle-gathered w (suc n) f e h = elim (left-cases (f n)) [
  | inl q ↦ ground (arith, q, e, h, idle-gathered w n f e (omega arith))
  | inr l ↦ absurd (omega (arith, h, l))
]

-- The queue is empty, nothing is counted as active, and every request accepted was signalled and its
-- descriptor closed, as often as it was accepted.
pub record Settled (s : System) : Type 0 where
  pub empty : s.reaper.queue ≡ []
  pub inactive : s.reaper.active_requests ≡ 0
  pub all_signalled : (p : TargetProc → Bool) → tally p s.accepted ≡ tally_attempts p s.attempted
  pub all_closed : (p : TargetProc → Bool) → tally p s.accepted ≡ tally p s.closes

empty_of_length : {A : Type 0} (xs : List A) → length xs ≡ 0 → xs ≡ []
empty_of_length [] e = refl
empty_of_length (x ∷ xs) e = absurd (omega (arith, e))

work-Settled : (s : System) → Balanced s → work s ≡ 0 → Settled s
unfolding work tally
work-Settled s b e =
    let n = s.reaper.thread_cnt in
    let idle : gathered left n s.pc ≡ 0 = omega (arith, e) in
    let q : s.reaper.queue ≡ [] = empty_of_length s.reaper.queue (omega (arith, e)) in
    record {
      empty = q;
      inactive = ground (arith, b.active, q, idle-gathered busy n s.pc refl idle);
      all_signalled =
          λ p. ground (arith, b.accounted p, q, idle-gathered (held p) n s.pc refl idle);
      all_closed = λ p. ground (
        arith,
        b.accounted p,
        b.closing p,
        q,
        idle-gathered (held p) n s.pc refl idle,
        idle-gathered (to_close p) n s.pc refl idle,
      );
    }

-- From every state that can be reached, and while the main thread asks for nothing more and no thread
-- wakes without a reason, however the threads are scheduled: they have made fewer steps than the work
-- that there was, and one of them can make another, or they have made as many, and every accepted
-- request was signalled.
pub Run-Settled :
    (creates : ℕ → Bool) (fd : ℤ) {s u : System} {n : ℕ}
    → Reach (start creates fd) s
    → Run s n u
    → ((n < work s) × ((t : System) × Works u t)) ⊎ ((n ≡ work s) × Settled u)
Run-Settled creates fd {s} {u} {n} r run =
    let b = Run-Balanced run (Reach-Balanced creates fd r) in
    let e = Run-work run in
    let cases : (0 < work u) ⊎ (work u ≡ 0) = ground arith in
    elim cases [
      | inl h ↦ inl (omega (arith, e, h), step_left u (Run-Awake run (Reach-Awake creates fd r)) h)
      | inr h ↦ inr (omega (arith, e, h), work-Settled u b h)
    ]

-- ===== src/Reaper/Balance.antt =====
-- The accounts of the reaper: every request that was accepted is in the queue, with a thread, or
-- attempted, and `active_requests_` counts those not completed.
use system_memory_lmkd.Base.{
  ℕ, zero, suc, ◌+◌, ◌≤◌, ◌<◌, ◌≡◌, refl, ap, Bool, some, List, [], ◌∷◌, update, ◌==◌, length,
  if◌then◌else◌, arith, Bool-cases, inl, inr,
}
use system_memory_lmkd.Base.Int.{ℤ}
use system_memory_lmkd.Reaper.System.{
  Notified, wakes_one, wakes_none, sleep, rouse, sleeps, wakes, asleep, Pc, waiting, holding,
  signalled, closed, System, start, request, take, send_signal, close_fd, complete, Works, takes,
  signals, closes_fd, completes, Step, requests, works, Reach, here, next,
}
use system_memory_lmkd.Reaper.{
  TargetProc, Reaper, new, init, async_kill, dequeue_request, request_complete,
}

-- A measure of the threads, summed over the first `n`.
unfoldable pub gathered : (Pc → ℕ) → ℕ → (ℕ → Pc) → ℕ
gathered w zero f = 0
gathered w (suc n) f = gathered w n f + w (f n)

gathered-update_beyond :
    (w : Pc → ℕ) (n i : ℕ) (f : ℕ → Pc) (p : Pc)
    → n ≤ i
    → gathered w n (update f i p) ≡ gathered w n f
unfolding gathered
gathered-update_beyond w zero i f p h = refl
gathered-update_beyond w (suc n) i f p h = ground (arith, gathered-update_beyond w n i f p)

pub gathered-update :
    (w : Pc → ℕ) (n i : ℕ) (f : ℕ → Pc) (p : Pc)
    → i < n
    → gathered w n (update f i p) + w (f i) ≡ gathered w n f + w p
unfolding gathered
gathered-update w zero i f p h = absurd (omega arith)
gathered-update w (suc n) i f p h = elim (Bool-cases (n == i)) [
  | inl e ↦ ground (arith, e, gathered-update_beyond w n i f p)
  | inr e ↦ ground (arith, e, gathered-update w n i f p)
]

gathered-const : (w : Pc → ℕ) (n : ℕ) → w waiting ≡ 0 → gathered w n (λ i. waiting) ≡ 0
unfolding gathered
gathered-const w zero h = refl
gathered-const w (suc n) h = omega (arith, gathered-const w n h)

abbrev pub busy : Pc → ℕ
busy waiting = 0
busy asleep = 0
busy (holding t) = 1
busy (signalled t) = 1
busy closed = 1

-- How often a target stands in a list, by any test that tells it apart.
unfoldable pub tally : (TargetProc → Bool) → List TargetProc → ℕ
tally p [] = 0
tally p (t ∷ ts) = (if p t then 1 else 0) + tally p ts

unfoldable pub tally_attempts : (TargetProc → Bool) → List (TargetProc × ℤ) → ℕ
tally_attempts p [] = 0
tally_attempts p ((t, result) ∷ ts) = (if p t then 1 else 0) + tally_attempts p ts

abbrev pub held : (TargetProc → Bool) → Pc → ℕ
held p waiting = 0
held p asleep = 0
held p (holding t) = if p t then 1 else 0
held p (signalled t) = 0
held p closed = 0

abbrev pub to_close : (TargetProc → Bool) → Pc → ℕ
to_close p waiting = 0
to_close p asleep = 0
to_close p (holding t) = 0
to_close p (signalled t) = if p t then 1 else 0
to_close p closed = 0

pub record Balanced (s : System) : Type 0 where
  pub active :
      s.reaper.active_requests ≡ length s.reaper.queue + gathered busy s.reaper.thread_cnt s.pc
  pub fits : s.reaper.active_requests ≤ s.reaper.thread_cnt
  pub accounted :
      (p : TargetProc → Bool)
      → tally p s.accepted
        ≡ tally p s.reaper.queue
          + gathered (held p) s.reaper.thread_cnt s.pc
          + tally_attempts p s.attempted
  pub closing :
      (p : TargetProc → Bool)
      → tally_attempts p s.attempted
        ≡ gathered (to_close p) s.reaper.thread_cnt s.pc + tally p s.closes

start-Balanced : (creates : ℕ → Bool) (fd : ℤ) → Balanced (start creates fd)
unfolding start init new tally tally_attempts
start-Balanced creates fd =
    let n = (start creates fd).reaper.thread_cnt in
    record {
      active = ground (arith, gathered-const busy n refl);
      fits = ground arith;
      accounted = λ p. ground (arith, gathered-const (held p) n refl);
      closing = λ p. ground (arith, gathered-const (to_close p) n refl);
    }

pub dequeue_request-cons :
    (r r' : Reaper) (t : TargetProc)
    → dequeue_request r ≡ some (r', t)
    → (r.queue ≡ t ∷ r'.queue)
      × (r'.active_requests ≡ r.active_requests)
      × (r'.thread_cnt ≡ r.thread_cnt)
unfolding dequeue_request
dequeue_request-cons r r' t e = ground (arith, e)

-- A notification moves no measure that does not tell a thread that waits from one that was woken.
Notified-gathered :
    (w : Pc → ℕ) {n : ℕ} {f g : ℕ → Pc}
    → w waiting ≡ w asleep
    → Notified n f g
    → gathered w n g ≡ gathered w n f
Notified-gathered w {n} {f} e (wakes_one i lt at_pc) =
    omega (arith, e, ap w at_pc, gathered-update w n i f waiting lt)
Notified-gathered w e (wakes_none h) = refl

module _ (s : System) (dup : ℤ) (t : TargetProc) (pc : ℕ → Pc)
    (notified : Notified s.reaper.thread_cnt s.pc pc) (b : Balanced s) where
  request-Balanced : Balanced (request s dup t pc)
  unfolding request async_kill tally
  request-Balanced = record {
    active = ground (arith, b.active, Notified-gathered busy refl notified);
    fits = ground (arith, b.fits);
    accounted = λ p. ground (arith, b.accounted p, Notified-gathered (held p) refl notified);
    closing = λ p. ground (arith, b.closing p, Notified-gathered (to_close p) refl notified);
  }

-- A thread that falls asleep or wakes up.
module _ (s : System) (i : ℕ) (lt : i < s.reaper.thread_cnt) (b : Balanced s) (p q : Pc)
    (at_pc : s.pc i ≡ p) where
  moved-Balanced :
      busy p ≡ busy q
      → ((t : TargetProc → Bool) → held t p ≡ held t q)
      → ((t : TargetProc → Bool) → to_close t p ≡ to_close t q)
      → Balanced (record s { pc = update s.pc i q })
  moved-Balanced e f g =
      let cnt = s.reaper.thread_cnt in
      record {
        active = omega (arith, b.active, e, ap busy at_pc, gathered-update busy cnt i s.pc q lt);
        fits = b.fits;
        accounted = λ t. omega (
          arith,
          b.accounted t,
          f t,
          ap (held t) at_pc,
          gathered-update (held t) cnt i s.pc q lt,
        );
        closing = λ t. omega (
          arith,
          b.closing t,
          g t,
          ap (to_close t) at_pc,
          gathered-update (to_close t) cnt i s.pc q lt,
        );
      }

take-Balanced :
    (s : System) (i : ℕ) (r : Reaper) (t : TargetProc)
    → i < s.reaper.thread_cnt
    → s.pc i ≡ waiting
    → dequeue_request s.reaper ≡ some (r, t)
    → Balanced s
    → Balanced (take s i r t)
unfolding take tally
take-Balanced s i r t lt at_pc e b =
    let (q, a, n) = dequeue_request-cons s.reaper r t e in
    let cnt = s.reaper.thread_cnt in
    record {
      active =
          ground (arith, q, a, n, b.active, at_pc, gathered-update busy cnt i s.pc (holding t) lt);
      fits = omega (arith, a, n, b.fits);
      accounted = λ p.
          ground
            (arith, q, n, b.accounted p, at_pc, gathered-update (held p) cnt i s.pc (holding t) lt);
      closing = λ p.
          ground (
            arith,
            q,
            n,
            b.closing p,
            at_pc,
            gathered-update (to_close p) cnt i s.pc (holding t) lt,
          );
    }

-- A step that moves one thread.
module _ (s : System) (i : ℕ) (lt : i < s.reaper.thread_cnt) (b : Balanced s) where
  send_signal-Balanced :
      (t : TargetProc) (result : ℤ) → s.pc i ≡ holding t → Balanced (send_signal s i t result)
  unfolding send_signal tally_attempts
  send_signal-Balanced t result at_pc =
      let cnt = s.reaper.thread_cnt in
      record {
        active = ground (arith, b.active, at_pc, gathered-update busy cnt i s.pc (signalled t) lt);
        fits = b.fits;
        accounted = λ p.
            ground
              (arith, b.accounted p, at_pc, gathered-update (held p) cnt i s.pc (signalled t) lt);
        closing = λ p.
            ground
              (arith, b.closing p, at_pc, gathered-update (to_close p) cnt i s.pc (signalled t) lt);
      }

  close_fd-Balanced : (t : TargetProc) → s.pc i ≡ signalled t → Balanced (close_fd s i t)
  unfolding close_fd tally
  close_fd-Balanced t at_pc =
      let cnt = s.reaper.thread_cnt in
      record {
        active = ground (arith, b.active, at_pc, gathered-update busy cnt i s.pc closed lt);
        fits = b.fits;
        accounted = λ p.
            ground (arith, b.accounted p, at_pc, gathered-update (held p) cnt i s.pc closed lt);
        closing = λ p.
            ground (arith, b.closing p, at_pc, gathered-update (to_close p) cnt i s.pc closed lt);
      }

  complete-Balanced : s.pc i ≡ closed → Balanced (complete s i)
  unfolding complete request_complete
  complete-Balanced at_pc =
      let cnt = s.reaper.thread_cnt in
      record {
        active = ground (arith, b.active, at_pc, gathered-update busy cnt i s.pc waiting lt);
        fits = omega (arith, b.fits);
        accounted = λ p.
            ground (arith, b.accounted p, at_pc, gathered-update (held p) cnt i s.pc waiting lt);
        closing = λ p.
            ground (arith, b.closing p, at_pc, gathered-update (to_close p) cnt i s.pc waiting lt);
      }

pub Works-Balanced : {s u : System} → Works s u → Balanced s → Balanced u
Works-Balanced (takes s i r t lt at_pc e) b = take-Balanced s i r t lt at_pc e b
Works-Balanced (sleeps s i lt at_pc e) b =
    unfold sleep in moved-Balanced s i lt b waiting asleep at_pc refl (λ t. refl) (λ t. refl)
Works-Balanced (signals s i t result lt at_pc) b = send_signal-Balanced s i lt b t result at_pc
Works-Balanced (closes_fd s i t lt at_pc) b = close_fd-Balanced s i lt b t at_pc
Works-Balanced (completes s i lt at_pc) b = complete-Balanced s i lt b at_pc

Step-Balanced : {s u : System} → Step s u → Balanced s → Balanced u
Step-Balanced (requests s dup t pc n) b = request-Balanced s dup t pc n b
Step-Balanced (wakes s i lt at_pc) b =
    unfold rouse in moved-Balanced s i lt b asleep waiting at_pc refl (λ t. refl) (λ t. refl)
Step-Balanced (works st) b = Works-Balanced st b

-- In every state that the main thread and the reaper's threads can reach, `active_requests_` is the
-- number of requests in the queue or with a thread, and never more than the number of threads; every
-- request that was accepted is queued, with a thread that has not signalled yet, or signalled, and
-- as often as it was accepted; and every signalled request has its descriptor closed, once, or is
-- still with the thread that will close it.
pub Reach-Balanced :
    (creates : ℕ → Bool) (fd : ℤ) {u : System} → Reach (start creates fd) u → Balanced u
Reach-Balanced creates fd here = start-Balanced creates fd
Reach-Balanced creates fd (next r st) = Step-Balanced st (Reach-Balanced creates fd r)

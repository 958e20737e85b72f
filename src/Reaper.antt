-- ===== src/Reaper.antt =====
-- `class Reaper` of reaper.cpp: the pool of threads that kill processes for the main thread. A
-- method runs under the mutex as one step; what `dup` and the kernel answer are arguments. The back
-- of the vector `queue_` is the front of the list.
pub mod System
pub mod Balance
pub mod Alarm
pub mod Drain
use system_memory_lmkd.Base.{
  ℕ, zero, suc, ◌+◌, ◌-◌, Bool, true, false, ◌||◌, ◌==◌, leb, ltb, Option, none, some, List, [],
  ◌∷◌, if◌then◌else◌,
}
use system_memory_lmkd.Base.Int.{ℤ, pos, negsuc, ◌==ℤ◌, ◌<?◌}

pub record TargetProc : Type 0 where
  pub pidfd : ℤ
  pub pid : ℤ
  pub uid : ℤ

pub record Reaper : Type 0 where
  pub queue : List TargetProc
  pub active_requests : ℕ
  pub thread_cnt : ℕ
  pub comm_fd : ℤ

-- As the constructor leaves it.
unfoldable pub new : Reaper
new = record { queue = []; active_requests = 0; thread_cnt = 0; comm_fd = negsuc 0 }

-- THREAD_POOL_SIZE
abbrev pub thread_pool_size : ℕ
thread_pool_size = 2

-- The loop of `init`, given whether each `pthread_create` works.
unfoldable pub create_threads : ℕ → ℕ → (ℕ → Bool) → ℕ → ℕ
create_threads zero i creates cnt = cnt
create_threads (suc n) i creates cnt =
    create_threads n (i + 1) creates (if creates i then cnt + 1 else cnt)

unfoldable pub init : (ℕ → Bool) → ℤ → Reaper → Reaper × Bool
init creates comm_fd r =
    let cnt = create_threads thread_pool_size 0 creates r.thread_cnt in
    if ltb 0 r.thread_cnt
    then (r, false)
    else if cnt == 0
    then (r, false)
    else (record r { thread_cnt = cnt; comm_fd = comm_fd }, true)

-- The argument before the target is what `dup` returns.
unfoldable pub async_kill : Reaper → ℤ → TargetProc → Reaper × Bool
async_kill r dup t =
    if t.pidfd ==ℤ negsuc 0
    then (r, false)
    else if r.thread_cnt == 0
    then (r, false)
    else if leb r.thread_cnt r.active_requests
    then (r, false)
    else (
      record r {
        active_requests = r.active_requests + 1;
        queue = record t { pidfd = dup } ∷ r.queue;
      },
      true,
    )

-- The results of `::kill` and of `pidfd_send_signal`, 0 when they succeed.
pub record Signals : Type 0 where
  pub kill : ℤ → ℤ
  pub pidfd_send_signal : ℤ → ℤ

unfoldable pub kill : Signals → Reaper → ℤ → TargetProc → Bool → Reaper × ℤ
kill k r dup t synchronous =
    let (r', accepted) = async_kill r dup t in
    if t.pidfd <? pos 0
    then (r, k.kill t.pid)
    else if synchronous
    then (r, k.pidfd_send_signal t.pidfd)
    else if accepted
    then (r', pos 0)
    else (r', k.pidfd_send_signal t.pidfd)

-- One look at the queue under the lock; `none` sends the thread to `cond_.wait`.
unfoldable pub dequeue_request : Reaper → Option (Reaper × TargetProc)
dequeue_request r = elim r.queue [ [] ↦ none | t ∷ q ↦ some (record r { queue = q }, t) ]

unfoldable pub request_complete : Reaper → Reaper
request_complete r = record r { active_requests = r.active_requests - 1 }

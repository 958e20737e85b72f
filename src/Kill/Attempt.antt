-- ===== src/Kill/Attempt.antt =====
-- One attempt at a victim, `kill_one_process`: either memory was freed elsewhere and nothing
-- changes, or the record goes, with or without a kill.
use system_memory_lmkd.Base.{
  ◌≡◌, ◌∙◌, ◌⊎◌, inl, inr, refl, Option, none, some, List, [], ◌∷◌, ◌++◌, arith, Bool-cases,
  Option-cases, if◌then◌else◌,
}
use system_memory_lmkd.Base.Int.{ℤ, pos, negsuc, ◌/ℤ◌, ◌<ℤ◌, ◌<?◌}
use system_memory_lmkd.Kill.{
  Daemon, Setup, Kernel, Effect, Outcome, close, killed, notified, closing, is_killable,
  stop_wait_for_proc_kill, start_wait_for_proc_kill, drop_record, kill_target, kill_one_process,
}
use system_memory_lmkd.Killcnt.{inc_killcnt}
use system_memory_lmkd.Registry.Chain.{Proc}
use system_memory_lmkd.Registry.{pid_remove}
use system_memory_lmkd.Time.{Timespec}

-- The processes killed, with their scores, in the order of the kills.
unfoldable pub victims : List Effect → List (ℤ × ℤ)
victims [] = []
victims (close fd ∷ es) = victims es
victims (notified pid uid kb ∷ es) = victims es
victims (killed pid a ∷ es) = (pid, a) ∷ victims es

pub victims-append : (xs ys : List Effect) → victims (xs ++ ys) ≡ victims xs ++ victims ys
unfolding victims
victims-append [] ys = refl
victims-append (close fd ∷ xs) ys = victims-append xs ys
victims-append (notified pid uid kb ∷ xs) ys = victims-append xs ys
victims-append (killed pid a ∷ xs) ys = rw (victims-append xs ys) refl

pub victims-closing : (fd : Option ℤ) → victims (closing fd) ≡ []
unfolding closing victims
victims-closing none = refl
victims-closing (some fd) = refl

victims-around :
    (es xs : List Effect) (fd : Option ℤ)
    → victims es ≡ []
    → victims ((es ++ xs) ++ closing fd) ≡ victims xs ++ []
victims-around es xs fd e =
    rw (victims-append (es ++ xs) (closing fd), victims-append es xs, victims-closing fd, e) refl

-- A step that kills nothing and keeps the tables.
pub record Keeps (d d' : Daemon) (es : List Effect) : Type 0 where
  pub registry : d'.registry ≡ d.registry
  pub killcnt : d'.killcnt ≡ d.killcnt
  pub silent : victims es ≡ []

pub stop_wait-Keeps :
    (s : Setup) (d : Daemon)
    → Keeps d (stop_wait_for_proc_kill s d).0 (stop_wait_for_proc_kill s d).1
unfolding stop_wait_for_proc_kill victims
stop_wait-Keeps s d = elim (Bool-cases (d.last_kill <? pos 0)) [
  | inl e ↦ rw e (record { registry = refl; killcnt = refl; silent = refl })
  | inr e ↦ elim (Bool-cases s.pidfd_supported) [
    | inl f ↦ rw (e, f) (record { registry = refl; killcnt = refl; silent = refl })
    | inr f ↦ rw (e, f) (record { registry = refl; killcnt = refl; silent = refl })
  ]
]

start_wait-Keeps :
    (s : Setup) (k : Kernel) (d : Daemon) (fd : ℤ)
    → Keeps d (start_wait_for_proc_kill s k d fd).0 (start_wait_for_proc_kill s k d fd).1
unfolding start_wait_for_proc_kill victims
start_wait-Keeps s k d fd =
    let h = stop_wait-Keeps s d in
    elim (Bool-cases s.pidfd_supported) [
      | inr f ↦ simp f (record { registry = h.registry; killcnt = h.killcnt; silent = h.silent })
      | inl f ↦ elim (Bool-cases (k.epoll_add fd)) [
        | inl g ↦
            simp (f, g) (record { registry = h.registry; killcnt = h.killcnt; silent = h.silent })
        | inr g ↦
            simp (f, g)
              (record {
                registry = h.registry;
                killcnt = h.killcnt;
                silent =
                    rw (victims-append (stop_wait_for_proc_kill s d).1 (close fd ∷ []), h.silent)
                      refl;
              })
      ]
    ]

is_killable-rss :
    (k : Kernel) (p : Proc) (rss : ℤ) → is_killable k p ≡ some rss → k.rss_kb p.pid ≡ some rss
unfolding is_killable
is_killable-rss k p rss e = elim (Option-cases (k.tgid p.pid)) [
  | inl t ↦ ground (arith, e, t)
  | inr (t, ft) ↦ elim (Option-cases (k.rss_kb p.pid)) [
    | inl r ↦ ground (arith, e, ft, r)
    | inr (r, fr) ↦ elim (Option-cases (k.swap_kb p.pid)) [
      | inl w ↦ ground (arith, e, ft, fr, w)
      | inr (w, fw) ↦ ground (arith, e, ft, fr, fw)
    ]
  ]
]

-- What an attempt leaves.
pub record Attempt (s : Setup) (k : Kernel) (d : Daemon) (p : Proc) (o : Outcome) : Type 0 where
  pub tables :
      ((o.daemon.registry ≡ d.registry) × (pos 0 <ℤ o.result))
      ⊎ ((fd : ℤ) × (o.daemon.registry ≡ (pid_remove fd d.registry p.pid).registry))
  pub kills :
      ((victims o.effects ≡ []) × (o.daemon.killcnt ≡ d.killcnt))
      ⊎ ((victims o.effects ≡ (p.pid, p.oomadj) ∷ [])
          × (o.daemon.killcnt ≡ inc_killcnt d.killcnt p.oomadj)
          × ((rss : ℤ) × (k.rss_kb p.pid ≡ some rss) × (o.result ≡ rss /ℤ s.page_k)))

module _ (s : Setup) (k : Kernel) (d : Daemon) (p : Proc) (tm : Timespec) where
  dropped : (result : ℤ) → Attempt s k d p (drop_record d p.pid result [])
  unfolding drop_record victims
  dropped result = record {
    tables = inr (d.last_kill, refl);
    kills = inl (victims-closing (pid_remove d.last_kill d.registry p.pid).closed, refl);
  }

  target-Attempt :
      (rss hook : ℤ) → k.rss_kb p.pid ≡ some rss → Attempt s k d p (kill_target s k d p tm rss hook)
  unfolding kill_target drop_record victims
  target-Attempt rss hook e =
      let fd = if p.pidfd <? pos 0 then p.pid else p.pidfd in
      let started = start_wait-Keeps s k d fd in
      let d' = (start_wait_for_proc_kill s k d fd).0 in
      let es = (start_wait_for_proc_kill s k d fd).1 in
      let stopped = stop_wait-Keeps s d' in
      elim (Bool-cases (k.kill p.pid)) [
        | inl y ↦
            let shot = killed p.pid p.oomadj ∷ notified p.pid p.uid rss ∷ [] in
            let gone = pid_remove d'.last_kill d'.registry p.pid in
            rw y (record {
              tables = inr (d'.last_kill, rw started.registry refl);
              kills = inr (
                victims-around es shot gone.closed started.silent,
                rw started.killcnt refl,
                (rss, e, refl),
              );
            })
        | inr y ↦
            let d'' = (stop_wait_for_proc_kill s d').0 in
            let gone = pid_remove d''.last_kill d''.registry p.pid in
            rw y (record {
              tables = inr (d''.last_kill, rw (stopped.registry, started.registry) refl);
              kills = inl (
                victims-around es (stop_wait_for_proc_kill s d').1 gone.closed started.silent
                    ∙ rw stopped.silent refl,
                stopped.killcnt ∙ started.killcnt,
              );
            })
      ]

  pub kill_one_process-Attempt : Attempt s k d p (kill_one_process s k d p tm)
  unfolding kill_one_process victims
  kill_one_process-Attempt = elim (Option-cases (is_killable k p)) [
    | inl e ↦ rw (e, kill_one_process) (dropped (negsuc 0))
    | inr (rss, e) ↦
        let hook = k.before_kill_hook p (rss /ℤ s.page_k) p.oomadj in
        elim (Bool-cases (pos 0 <? hook)) [
          | inl h ↦
              rw (e, kill_one_process, h)
                (record { tables = inl (refl, ground (arith, h)); kills = inl (refl, refl) })
          | inr h ↦
              rw (e, kill_one_process, h) (target-Attempt rss hook (is_killable-rss k p rss e))
        ]
  ]

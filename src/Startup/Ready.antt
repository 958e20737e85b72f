-- ===== src/Startup/Ready.antt =====
-- What the daemon is when it enters its loop.
use system_memory_lmkd.Base.{
  ℕ, ◌+◌, ◌<◌, ◌≡◌, refl, ◌∙◌, ap, Bool, true, false, not, ◌&&◌, ◌||◌, some, [], arith, inl, inr,
  Bool-cases, ltb, if◌then◌else◌,
}
use system_memory_lmkd.Base.Int.{ℤ, pos, negsuc, ◌<?◌, ◌==ℤ◌, +ℤ_parts}
use system_memory_lmkd.Control.{Server, monitors_of, with_monitors}
use system_memory_lmkd.Monitors.Ledger.{watch, watched, opened, closed, DifferAs}
use system_memory_lmkd.Monitors.Levels.{AllClosed}
use system_memory_lmkd.Monitors.Reinit.{init_monitors-events}
use system_memory_lmkd.Props
use system_memory_lmkd.Registry.Invariant.{IsValid, empty-IsValid}
use system_memory_lmkd.Registry.{empty}
use system_memory_lmkd.Startup.Pipe.{pipe_ends, one_if, init_reaper-Reaped}
use system_memory_lmkd.Startup.{
  Answer, Booted, wait_more, disconnected, init_kernel, is_delayed, started_monitors, init_user,
  init_sources, init_tables, init_rest, init, ReaperAnswer, Running, run_reaper, main,
}

-- The sources of events but for the control socket and the reaper.
abbrev pub sources : Booted → ℕ
sources b =
    watched b.server.monitors + (if b.server.use_inkernel_interface then watch b.kpoll_fd else 0)

abbrev pub Grows : Server → Server → ℕ → Type 0
Grows s s' n = DifferAs s'.daemon.maxevents s.daemon.maxevents n 0

kernel-Grows :
    (k : Answer) (b : Booted)
    → AllClosed b.server.monitors
    → b.server.use_inkernel_interface ≡ true
    → Grows b.server (init_kernel k b).server (sources (init_kernel k b))
unfolding init_kernel wait_more
kernel-Grows k b (p, q, r) e = elim (Bool-cases (k.kernel_file <? pos 0)) [
  | inl f ↦ rw (f, init_kernel, p, q, r, e, f) (omega arith)
  | inr f ↦ elim (Bool-cases k.kernel_added) [
    | inl g ↦
        rw (f, g, init_kernel, p, q, r, e, f)
          (omega (arith, +ℤ_parts b.server.daemon.maxevents (pos 1)))
    | inr g ↦ rw (f, g, init_kernel, p, q, r, e) (omega arith)
  ]
]

user-Grows :
    (k : Answer) (b : Booted)
    → AllClosed b.server.monitors
    → b.server.use_inkernel_interface ≡ false
    → Grows b.server (init_user k b).server (sources (init_user k b))
unfolding init_user started_monitors monitors_of with_monitors
user-Grows k b (p, q, r) e = elim (Bool-cases (is_delayed k b.server)) [
  | inl f ↦ rw (f, init_user, p, q, r, e) (omega arith)
  | inr f ↦
      let grows =
        init_monitors-events b.server.props k.properties k.files (monitors_of b.server) (p, q, r) in
      rw (f, init_user, e) (omega (arith, grows))
]

-- What the sources leave of a server that has no descriptor of them yet.
record Sourced (k : Answer) (b c : Booted) : Type 0 where
  grows : Grows b.server c.server (sources c)
  data_sock : c.server.data_sock ≡ b.server.data_sock
  pidhash : c.server.daemon.registry.pidhash ≡ b.server.daemon.registry.pidhash

kernel-Sourced :
    (k : Answer) (b : Booted)
    → AllClosed b.server.monitors
    → b.server.use_inkernel_interface ≡ true
    → Sourced k b (init_kernel k b)
unfolding init_kernel wait_more
kernel-Sourced k b h e = record {
  grows = kernel-Grows k b h e;
  data_sock = ground arith;
  pidhash = ground arith;
}

user-Sourced :
    (k : Answer) (b : Booted)
    → AllClosed b.server.monitors
    → b.server.use_inkernel_interface ≡ false
    → Sourced k b (init_user k b)
unfolding init_user with_monitors
user-Sourced k b h e = record {
  grows = user-Grows k b h e;
  data_sock = ground arith;
  pidhash = ground arith;
}

-- Whether there is a source of events: the kernel's own killer, or monitors, which may wait.
abbrev pub has_source : Answer → Server → Bool
has_source k s = k.minfree_writable || (is_delayed k s || (started_monitors k s).ok)

init_sources-Sourced :
    (k : Answer) (b : Booted) → AllClosed b.server.monitors → Sourced k b (init_sources k b)
unfolding init_sources init_kernel init_user is_delayed started_monitors
init_sources-Sourced k b h = elim (Bool-cases k.minfree_writable) [
  | inl e ↦
      let s =
        kernel-Sourced k (record b { server = record b.server { use_inkernel_interface = true } }) h
          refl in
      rw (e, init_sources)
        (record { grows = s.grows; data_sock = s.data_sock; pidhash = s.pidhash })
  | inr e ↦
      let s =
        user-Sourced k (record b { server = record b.server { use_inkernel_interface = false } }) h
          refl in
      rw (e, init_sources)
        (record { grows = s.grows; data_sock = s.data_sock; pidhash = s.pidhash })
]

init_sources-ok :
    (k : Answer) (b : Booted) → b.ok ≡ true → (init_sources k b).ok ≡ has_source k b.server
unfolding init_sources init_kernel init_user is_delayed started_monitors monitors_of
init_sources-ok k b e = ground (arith, e)

-- The server that `init` starts from.
abbrev pub fresh : Booted → Props.Properties → Booted
fresh b ps = record b { server = record b.server { props = (Props.update_props true ps).0 } }

-- What has to go well.
abbrev pub is_able : Answer → Server → Bool
is_able k s =
    (not (k.epoll_create ==ℤ negsuc 0) && not (k.control_socket <? pos 0))
    && ((k.listens && k.ctrl_added) && (has_source k (wait_more (disconnected s)) && k.init_hook))

disconnected-closed : (s : Server) (i : ℕ) → i < 3 → ((disconnected s).data_sock i).sock ≡ negsuc 0
unfolding disconnected
disconnected-closed s i l = ground (arith, l)

-- After `init`.
record Up (b c : Booted) : Type 0 where
  ok : c.ok ≡ true
  grows : Grows b.server c.server (1 + sources c)
  connections : (i : ℕ) → i < 3 → (c.server.data_sock i).sock ≡ negsuc 0
  registry : c.server.daemon.registry ≡ empty

init-Up :
    (fuel : ℕ) (k : Answer) (b : Booted)
    → AllClosed b.server.monitors
    → b.server.daemon.registry.pidhash ≡ (λ i. [])
    → is_able k b.server ≡ true
    → Up b (init fuel k b)
unfolding init init_rest init_tables disconnected wait_more empty
init-Up fuel k b h e able =
    let c = record b { server = wait_more (disconnected b.server); ok = true } in
    let s = init_sources-Sourced k c h in
    let a1 : (k.epoll_create ==ℤ negsuc 0) ≡ false = ground (arith, able) in
    let a2 : (k.control_socket <? pos 0) ≡ false = ground (arith, able) in
    let a3 : k.listens ≡ true = ground (arith, able) in
    let a4 : k.ctrl_added ≡ true = ground (arith, able) in
    let a5 : (init_sources k c).ok ≡ true = init_sources-ok k c refl ∙ ground (arith, able) in
    let a6 : k.init_hook ≡ true = ground (arith, able) in
    simp (a1, a2, a3, a4, a5)
      (record {
        ok = a6;
        grows = omega (arith, s.grows, +ℤ_parts b.server.daemon.maxevents (pos 1));
        connections = λ i l. ap (λ f. (f i).sock) s.data_sock ∙ disconnected-closed b.server i l;
        registry = ap (λ t. record { pidhash = t; slots = λ t. [] }) (s.pidhash ∙ e);
      })

-- The daemon in front of its loop: the events that it waits for are those of the control socket, of
-- each pressure monitor, of the kernel's killer, if that is used and its file is open, and of the
-- reaper, if that is in order.
pub record Ready (b : Booted) (a : ReaperAnswer) (r : Running) : Type 0 where
  pub events : Grows b.server r.booted.server (1 + sources r.booted + one_if r.reaping.ok)
  pub connections : (i : ℕ) → i < 3 → (r.booted.server.data_sock i).sock ≡ negsuc 0
  pub registry : IsValid r.booted.server.daemon.registry
  pub threads : ltb 0 r.reaping.reaper.thread_cnt ≡ r.reaping.ok
  pub pipe :
      (q : ℤ)
      → opened q r.reaping.effects
        ≡ closed q r.reaping.effects + (if r.reaping.ok then pipe_ends a q else 0)

-- When the vendor takes the settings, epoll, the control socket and the vendor's hook are in order,
-- and there is a source of events, which is the kernel's own killer or pressure monitors that are set
-- up or wait for the boot, the daemon reaches its loop. As many events more are waited for then as
-- there are sources, the reaper's included; no client is connected, the registry is well formed, the
-- reaper has threads exactly when it is in order, and its pipe is closed again when it is not. No
-- pressure monitor and no process is there before.
pub main-Ready :
    (fuel : ℕ) (k : Answer) (a : ReaperAnswer) (b : Booted)
    → AllClosed b.server.monitors
    → b.server.daemon.registry.pidhash ≡ (λ i. [])
    → is_able k (fresh b k.properties).server ≡ true
    → (r : Running) × (main fuel true k a b ≡ some r) × Ready b a r
unfolding main run_reaper Props.update_props
main-Ready fuel k a b h e able =
    let c = init fuel k (fresh b k.properties) in
    let up = init-Up fuel k (fresh b k.properties) h e able in
    let reaped = init_reaper-Reaped a c.server.daemon.maxevents in
    (
      run_reaper a c,
      ground (arith, up.ok),
      record {
        events = omega (arith, up.grows, reaped.events);
        connections = up.connections;
        registry = rw up.registry empty-IsValid;
        threads = reaped.threads;
        pipe = reaped.pipe;
      },
    )

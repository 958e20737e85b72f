-- ===== src/Control/Commands.antt =====
-- That no packet, and no end of a connection, breaks the registry.
use mathlib.Core.Option
use system_memory_lmkd.Base.{
  ℕ, ◌-◌, ◌/◌, ◌%◌, ◌≡◌, ◌∙◌, refl, Bool, true, false, not, ◌&&◌, ◌||◌, List, ◌==◌, ltb, arith, inl,
  inr, Bool-cases, Option-cases, if◌then◌else◌,
}
use system_memory_lmkd.Base.Int.{ℤ}
use system_memory_lmkd.Control.{
  Server, System, Reply, config_of, table, ctrl_data_close, cmd_subscribe, with_monitors,
}
use system_memory_lmkd.Control.Dispatch.{
  Message, unread, anonymous, message, store_pid, reload, reinitialize, answer_props,
  drop_threshold, start, listen, init_memevent_listener_monitoring, boot, register_all,
  reply_killcnt, run_command, dispatch, ctrl_command_handler,
}
use system_memory_lmkd.Props
use system_memory_lmkd.Killcnt.{get_killcnt}
use system_memory_lmkd.Packet.{
  ByteOrder, LmkCmd, target, procprio, procremove, procpurge, getkillcnt, subscribe, prockill,
  update_props, stat_kill_occurred, start_monitoring, boot_completed, procs_prio, pack_get_cmd,
  pack_get_procs_prio, pack_get_procprio, pack_get_procremove, pack_get_getkillcnt, LmkGetkillcnt,
}
use system_memory_lmkd.Register.Commands.{apply_procs-IsValid, apply_proc_prio-IsValid}
use system_memory_lmkd.Register.Purge.{cmd_procpurge-Reads, cmd_procremove-Reads}
use system_memory_lmkd.Register.{Config, cmd_procremove, cmd_procpurge}
use system_memory_lmkd.Registry.Chain.{Proc, find-map, count-map}
use system_memory_lmkd.Registry.Hash.{pid_hashfn}
use system_memory_lmkd.Registry.Invariant.{IsValid}
use system_memory_lmkd.Registry.{Registry, pid_lookup, remove_claims, unclaim}

unclaim-pid : (pid : ℤ) (p : Proc) → (unclaim pid p).pid ≡ p.pid
unfolding unclaim
unclaim-pid pid p = ground arith

unclaim-oomadj : (pid : ℤ) (p : Proc) → (unclaim pid p).oomadj ≡ p.oomadj
unfolding unclaim
unclaim-oomadj pid p = ground arith

lookup-remove_claims :
    (r : Registry) (pid q : ℤ)
    → pid_lookup (remove_claims r pid) q ≡ Option.map (unclaim pid) (pid_lookup r q)
unfolding pid_lookup remove_claims
lookup-remove_claims r pid q = find-map q (unclaim pid) (unclaim-pid pid) (r.pidhash (pid_hashfn q))

pub remove_claims-IsValid : (r : Registry) (pid : ℤ) → IsValid r → IsValid (remove_claims r pid)
unfolding remove_claims
remove_claims-IsValid r pid v = record {
  once =
      λ q i. ground (arith, v.once q i, count-map q (unclaim pid) (unclaim-pid pid) (r.pidhash i));
  slotted = λ q s. elim (Option-cases (pid_lookup r q)) [
    | inl e ↦ ground (arith, e, v.slotted q s, lookup-remove_claims r pid q)
    | inr (p, e) ↦
        ground (arith, e, v.slotted q s, lookup-remove_claims r pid q, unclaim-oomadj pid p)
  ];
  scored = λ q. elim (Option-cases (pid_lookup r q)) [
    | inl e ↦ ground (arith, e, v.scored q, lookup-remove_claims r pid q)
    | inr (p, e) ↦ ground (arith, e, v.scored q, lookup-remove_claims r pid q, unclaim-oomadj pid p)
  ];
}

abbrev registry_of : Reply → Registry
registry_of x = x.server.daemon.registry

procremove-IsValid :
    (c : Config) (r : Registry) (pid cred : ℤ) → IsValid r → IsValid (cmd_procremove c r pid cred).0
unfolding cmd_procremove
procremove-IsValid c r pid cred v = elim (Bool-cases c.use_inkernel_interface) [
  | inl e ↦ rw (e, cmd_procremove) v
  | inr e ↦ (cmd_procremove-Reads c cred r pid e v).well_formed
]

procpurge-IsValid :
    (c : Config) (r : Registry) (cred : ℤ) → IsValid r → IsValid (cmd_procpurge c r cred).0
unfolding cmd_procpurge
procpurge-IsValid c r cred v = elim (Bool-cases c.use_inkernel_interface) [
  | inl e ↦ rw (e, cmd_procpurge) v
  | inr e ↦ (cmd_procpurge-Reads c cred r e v).well_formed
]

-- One of two replies.
either :
    (b : Bool) (x y : Reply)
    → IsValid (registry_of x)
    → IsValid (registry_of y)
    → IsValid (registry_of (if b then x else y))
either true x y h n = h
either false x y h n = n

-- The commands that leave the registry alone.
module _ (order : ByteOrder) (k : System) where
  drop_threshold-registry :
      (s : Server) → (drop_threshold order k s).daemon.registry ≡ s.daemon.registry
  unfolding drop_threshold
  drop_threshold-registry s = ground arith

  reinitialize-registry :
      (s : Server) → (reinitialize order k s).0.daemon.registry ≡ s.daemon.registry
  unfolding reinitialize with_monitors
  reinitialize-registry s =
      elim (Bool-cases (not s.use_inkernel_interface && s.monitors.monitors_initialized)) [
        | inl e ↦ rw (e, reinitialize) refl
        | inr e ↦ rw (e, reinitialize) refl
      ]

  reload-registry : (s : Server) (i : ℕ) → registry_of (reload order k s i) ≡ s.daemon.registry
  unfolding reload answer_props
  reload-registry s i =
      let (props, ok) = Props.update_props k.hook k.properties in
      let loaded = record s { props = props } in
      elim (Bool-cases ok) [
        | inl e ↦
            rw (e, reload)
              (drop_threshold-registry (reinitialize order k loaded).0
                ∙ reinitialize-registry loaded)
        | inr e ↦ rw (e, reload) refl
      ]

  start-registry : (s : Server) → registry_of (start order k s) ≡ s.daemon.registry
  unfolding start with_monitors
  start-registry s = elim (Bool-cases s.monitors.monitors_initialized) [
    | inl e ↦ simp (e, start) refl
    | inr e ↦ elim (Bool-cases (k.properties.get_bool "sys.boot_completed" false)) [
      | inl f ↦ simp (e, f, start) refl
      | inr f ↦ simp (e, f, start) refl
    ]
  ]

  init_memevent_listener-registry :
      (s : Server)
      → (init_memevent_listener_monitoring order k s).0.daemon.registry ≡ s.daemon.registry
  unfolding init_memevent_listener_monitoring
  init_memevent_listener-registry s = ground arith

  listen-registry : (s : Server) → (listen order k s).daemon.registry ≡ s.daemon.registry
  unfolding listen
  listen-registry s = ground (arith, init_memevent_listener-registry s)

  boot-registry : (s : Server) (i : ℕ) → registry_of (boot order k s i) ≡ s.daemon.registry
  unfolding boot
  boot-registry s i = elim (Bool-cases s.boot_completed_handled) [
    | inl e ↦ simp (e, boot) refl
    | inr e ↦ elim (Bool-cases (k.properties.get_bool "sys.boot_completed" false)) [
      | inl f ↦ simp (e, f, boot) (listen-registry s)
      | inr f ↦ simp (e, f, boot) refl
    ]
  ]

  killcnt-registry :
      (s : Server) (i : ℕ) (g : LmkGetkillcnt)
      → registry_of (reply_killcnt order k s i g) ≡ s.daemon.registry
  unfolding reply_killcnt
  killcnt-registry s i g =
      elim (Option-cases (get_killcnt s.daemon.killcnt g.min_oomadj g.max_oomadj)) [
        | inl e ↦ rw (e, reply_killcnt) refl
        | inr (n, e) ↦ rw (e, reply_killcnt) refl
      ]

  register_all-IsValid :
      (s : Server) (cred : ℤ) (words : List ℕ) (nargs : ℕ)
      → IsValid s.daemon.registry
      → IsValid (registry_of (register_all order k s cred words nargs))
  unfolding register_all table
  register_all-IsValid s cred words nargs v =
      elim (Option-cases (pack_get_procs_prio order words nargs)) [
        | inl e ↦ rw (e, register_all) v
        | inr (ps, e) ↦
            rw (e, register_all)
              (apply_procs-IsValid (config_of s) k.os s.daemon.registry ps cred v)
      ]

  run_command-IsValid :
      (s : Server) (i : ℕ) (cred : ℤ) (words : List ℕ) (nargs : ℕ) (cmd : LmkCmd)
      → IsValid s.daemon.registry
      → IsValid (registry_of (run_command order k s i cred words nargs cmd))
  unfolding run_command table cmd_subscribe
  run_command-IsValid s i cred words nargs target v =
      either (nargs % 2 == 1 || ltb 6 (nargs / 2)) _ _ v v
  run_command-IsValid s i cred words nargs procprio v = either (ltb nargs 3 || ltb 4 nargs) _ _ v (
      apply_proc_prio-IsValid (config_of s) k.os s.daemon.registry
        (pack_get_procprio order words nargs) cred v)
  run_command-IsValid s i cred words nargs procremove v =
      either (nargs == 1) _ _
        (procremove-IsValid (config_of s) s.daemon.registry (pack_get_procremove order words) cred
          v)
        v
  run_command-IsValid s i cred words nargs procpurge v =
      either (nargs == 0) _ _ (procpurge-IsValid (config_of s) s.daemon.registry cred v) v
  run_command-IsValid s i cred words nargs getkillcnt v =
      either (nargs == 2) _ _
        (either s.use_inkernel_interface _ _ v
          (rw (killcnt-registry s i (pack_get_getkillcnt order words)) v))
        v
  run_command-IsValid s i cred words nargs subscribe v = either (nargs == 1) _ _ v v
  run_command-IsValid s i cred words nargs prockill v = v
  run_command-IsValid s i cred words nargs update_props v =
      either (nargs == 0) _ _ (rw (reload-registry s i) v) v
  run_command-IsValid s i cred words nargs stat_kill_occurred v = v
  run_command-IsValid s i cred words nargs start_monitoring v =
      either (nargs == 0) _ _ (rw (start-registry s) v) v
  run_command-IsValid s i cred words nargs boot_completed v =
      either (nargs == 0) _ _ (rw (boot-registry s i) v) v
  run_command-IsValid s i cred words nargs procs_prio v = register_all-IsValid s cred words nargs v

-- Whatever a client sends, in whatever length, and also when the connection is closed because the
-- message has no credentials, the registry stays well formed.
pub ctrl_command_handler-IsValid :
    (order : ByteOrder) (k : System) (s : Server) (i : ℕ) (m : Message)
    → IsValid s.daemon.registry
    → IsValid (ctrl_command_handler order k s i m).server.daemon.registry
unfolding ctrl_command_handler dispatch ctrl_data_close store_pid
ctrl_command_handler-IsValid order k s i unread v = v
ctrl_command_handler-IsValid order k s i anonymous v =
    remove_claims-IsValid s.daemon.registry (s.data_sock i).pid v
ctrl_command_handler-IsValid order k s i (message len words cred) v =
    let s' = store_pid s i cred in
    either (ltb len 4) _ _ v (elim (Option-cases (pack_get_cmd order words)) [
      | inl e ↦ rw (e, dispatch) v
      | inr (cmd, e) ↦
          rw (e, dispatch) (run_command-IsValid order k s' i cred words (len / 4 - 1) cmd v)
    ])

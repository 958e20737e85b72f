-- ===== src/Control/Dispatch.antt =====
-- `ctrl_command_handler` of lmkd.cpp: what each command of a packet does.
use system_memory_lmkd.Base.{
  ℕ, zero, suc, ◌+◌, ◌-◌, ◌/◌, ◌%◌, Bool, true, false, not, ◌&&◌, ◌||◌, none, some, List, [], ◌∷◌,
  ◌++◌, map, ◌==◌, ltb, update, if◌then◌else◌,
}
use system_memory_lmkd.Base.Int.{ℤ, pos, negsuc, ◌+ℤ◌, ◌<?◌}
use system_memory_lmkd.Killcnt.{get_killcnt}
use system_memory_lmkd.Minfree.{cmd_target}
use system_memory_lmkd.Monitors.{init_monitors, destroy_monitors, then_also}
use system_memory_lmkd.Packet.{
  ByteOrder, LmkCmd, target, procprio, procremove, procpurge, getkillcnt, subscribe, prockill,
  update_props, stat_kill_occurred, start_monitoring, boot_completed, procs_prio, LmkTarget,
  LmkGetkillcnt, pack_get_cmd, pack_get_target, pack_get_procprio, pack_get_procremove,
  pack_get_getkillcnt, pack_get_subscribe, pack_get_procs_prio, pack_set_repl,
}
use system_memory_lmkd.Props
use system_memory_lmkd.Register.{apply_proc_prio, apply_procs, cmd_procremove, cmd_procpurge}
use system_memory_lmkd.Control.{
  Server, System, Listener, CtrlEffect, on_monitor, write, bad_read, Reply, go_on, config_of, table,
  ctrl_data_close, cmd_subscribe, monitors_of, with_monitors,
}

module _ (order : ByteOrder) (k : System) where
  unfoldable pub targets_at : List ℕ → ℕ → ℕ → List LmkTarget
  targets_at words zero i = []
  targets_at words (suc n) i = pack_get_target order words i ∷ targets_at words n (i + 1)

  -- LMK_GETKILLCNT
  unfoldable pub reply_killcnt : Server → ℕ → LmkGetkillcnt → Reply
  reply_killcnt s i g = elim (get_killcnt s.daemon.killcnt g.min_oomadj g.max_oomadj) [
    | none ↦ go_on s (bad_read ∷ [])
    | some n ↦ go_on s (write i (pack_set_repl order getkillcnt n) ∷ [])
  ]

  -- Direct reclaim is not waited for without a listener.
  unfoldable pub drop_threshold : Server → Server
  drop_threshold s =
      if pos 0 <? s.props.direct_reclaim_threshold_ms && not s.memevent_listener
      then record s { props = record s.props { direct_reclaim_threshold_ms = pos 0 } }
      else s

  -- LMK_UPDATE_PROPS, when the settings are taken: whether the monitors could be set up again.
  unfoldable pub reinitialize : Server → Server × List CtrlEffect × Bool
  reinitialize s =
      let step =
        then_also (init_monitors s.props k.properties k.files) (destroy_monitors (monitors_of s)) in
      if not s.use_inkernel_interface && s.monitors.monitors_initialized
      then (with_monitors s step.monitors, map on_monitor step.effects, step.ok)
      else (s, [], true)

  -- A failure is answered, and the daemon exits to be started again.
  unfoldable pub answer_props : Server → ℕ → List CtrlEffect → Bool → Reply
  answer_props s i es ok = record {
    server = s;
    effects =
        es ++ write i (pack_set_repl order update_props (if ok then pos 0 else negsuc 0)) ∷ [];
    exits = not ok;
  }

  unfoldable pub reload : Server → ℕ → Reply
  reload s i =
      let (props, ok) = Props.update_props k.hook k.properties in
      let loaded = record s { props = props } in
      let (s', es, up) = reinitialize loaded in
      if ok then answer_props (drop_threshold s') i es up else answer_props loaded i [] false

  -- LMK_START_MONITORING
  unfoldable pub start : Server → Reply
  start s =
      let step = init_monitors s.props k.properties k.files (monitors_of s) in
      if s.monitors.monitors_initialized
      then go_on s []
      else if not (k.properties.get_bool "sys.boot_completed" false)
      then go_on s []
      else record {
        server = with_monitors s step.monitors;
        effects = map on_monitor step.effects;
        exits = not step.ok;
      }

  -- The events that lmkd cannot do without.
  unfoldable pub is_registered : Listener → Bool
  is_registered l =
      (l.ok && (l.direct_reclaim_begin && l.direct_reclaim_end))
      && (l.kswapd_wake && l.kswapd_sleep)

  -- One more event is waited for when a listener is made. The zones are noted before the descriptor
  -- is looked at.
  unfoldable pub init_memevent_listener_monitoring : Server → Server × Bool
  init_memevent_listener_monitoring s =
      let l = k.listener in
      let noted = record s { mem_event_update_zoneinfo_supported = l.update_zoneinfo } in
      if s.memevent_listener
      then (s, true)
      else if not (is_registered l)
      then (s, false)
      else if l.ring_buffer_fd <? pos 0 || not l.epoll_add
      then (noted, false)
      else (
        record noted {
          memevent_listener = true;
          daemon = record s.daemon { maxevents = s.daemon.maxevents +ℤ pos 1 };
        },
        true,
      )

  unfoldable pub listen : Server → Server
  listen s =
      let (s', ok) = init_memevent_listener_monitoring s in
      let without : Server =
        if pos 0 <? s'.props.direct_reclaim_threshold_ms
        then record s' { props = record s'.props { direct_reclaim_threshold_ms = pos 0 } }
        else s' in
      if ok then s' else without

  -- LMK_BOOT_COMPLETED
  unfoldable pub boot : Server → ℕ → Reply
  boot s i =
      let booted = record (listen s) { boot_completed_handled = true } in
      let answer : ℤ → List CtrlEffect =
        λ result. write i (pack_set_repl order boot_completed result) ∷ [] in
      if s.boot_completed_handled
      then go_on s (answer (pos 1))
      else if not (k.properties.get_bool "sys.boot_completed" false)
      then go_on s (answer (negsuc 0))
      else go_on booted (answer (pos 0))

  -- LMK_PROCS_PRIO
  unfoldable pub register_all : Server → ℤ → List ℕ → ℕ → Reply
  register_all s cred words nargs = elim (pack_get_procs_prio order words nargs) [
    | none ↦ go_on s []
    | some ps ↦ table s (apply_procs (config_of s) k.os s.daemon.registry ps cred)
  ]

  -- The switch: a command of so many arguments, from the connection `i` of the client `cred`. A
  -- wrong number of them is only logged.
  unfoldable pub run_command : Server → ℕ → ℤ → List ℕ → ℕ → LmkCmd → Reply
  run_command s i cred words nargs target =
      if nargs % 2 == 1 || ltb 6 (nargs / 2)
      then go_on s []
      else go_on
          (record s { targets = cmd_target s.targets k.clock (targets_at words (nargs / 2) 0) }) []
  run_command s i cred words nargs procprio =
      let p = pack_get_procprio order words nargs in
      if ltb nargs 3 || ltb 4 nargs
      then go_on s []
      else table s (apply_proc_prio (config_of s) k.os s.daemon.registry p cred)
  run_command s i cred words nargs procremove =
      let pid = pack_get_procremove order words in
      if nargs == 1
      then table s (cmd_procremove (config_of s) s.daemon.registry pid cred)
      else go_on s []
  run_command s i cred words nargs procpurge =
      if nargs == 0
      then table s (cmd_procpurge (config_of s) s.daemon.registry cred)
      else go_on s []
  run_command s i cred words nargs getkillcnt =
      if nargs == 2
      then if s.use_inkernel_interface
        then go_on s (write i (pack_set_repl order getkillcnt (pos 0)) ∷ [])
        else reply_killcnt s i (pack_get_getkillcnt order words)
      else go_on s []
  run_command s i cred words nargs subscribe =
      if nargs == 1
      then go_on (cmd_subscribe s i (pack_get_subscribe order words)) []
      else go_on s []
  run_command s i cred words nargs prockill = go_on s []
  run_command s i cred words nargs update_props = if nargs == 0 then reload s i else go_on s []
  run_command s i cred words nargs stat_kill_occurred = go_on s []
  run_command s i cred words nargs start_monitoring = if nargs == 0 then start s else go_on s []
  run_command s i cred words nargs boot_completed = if nargs == 0 then boot s i else go_on s []
  run_command s i cred words nargs procs_prio = register_all s cred words nargs

-- What `recvmsg` gives: nothing, a packet without credentials, or one with its length in bytes, the
-- buffer as words, and the sender.
pub data Message : Type 0 where
  unread anonymous : Message
  message : ℕ → List ℕ → ℤ → Message

-- "Store PID of the peer"
unfoldable pub store_pid : Server → ℕ → ℤ → Server
store_pid s i pid = record s {
  data_sock = update s.data_sock i (record (s.data_sock i) { pid = pid });
}

unfoldable pub dispatch : ByteOrder → System → Server → ℕ → ℤ → List ℕ → ℕ → Reply
dispatch order k s i cred words nargs = elim (pack_get_cmd order words) [
  | none ↦ go_on s []
  | some cmd ↦ run_command order k s i cred words nargs cmd
]

unfoldable pub ctrl_command_handler : ByteOrder → System → Server → ℕ → Message → Reply
ctrl_command_handler order k s i unread = go_on s []
ctrl_command_handler order k s i anonymous = ctrl_data_close s i
ctrl_command_handler order k s i (message len words cred) =
    let s' = store_pid s i cred in
    if ltb len 4 then go_on s' [] else dispatch order k s' i cred words (len / 4 - 1)

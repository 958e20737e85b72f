-- ===== src/Tests/Controls.antt =====
-- The pressure monitors and the control socket, on the phone of the kill path.
use system_memory_lmkd.Base.{◌+◌, ◌≡◌, refl, inr, true, false, some, none, [], ◌∷◌, ◌++◌}
use system_memory_lmkd.Base.Int.{pos, negsuc}
use system_memory_lmkd.Control.Commands.{ctrl_command_handler-IsValid}
use system_memory_lmkd.Control.Connections.{
  Balanced, connections, ctrl_connect_handler-Balanced, ctrl_connect_handler-loses,
}
use system_memory_lmkd.Control.{Server, System}
use system_memory_lmkd.Control.Dispatch.{message, ctrl_command_handler}
use system_memory_lmkd.Control.Accept.{ctrl_connect_handler}
use system_memory_lmkd.Monitors.Ledger.{DifferAs, opened, closed}
use system_memory_lmkd.Monitors.Levels.{AllClosed, pressure_files}
use system_memory_lmkd.Monitors.Reinit.{destroy-init_monitors, common-destroy-init}
use system_memory_lmkd.Monitors.{
  Monitors, PressureFiles, stay, register, init_mp_psi, init_psi_monitor, destroy_mp, and_then,
  or_clear, then_also, override, init_levels, init_psi_monitors, init_mp_common, init_common,
  try_psi, using_psi, mark_initialized, init_monitors, destroy_monitors,
}
use system_memory_lmkd.Packet.{ByteOrder}
use system_memory_lmkd.Props.{Properties}
use system_memory_lmkd.Register.{Os}
use system_memory_lmkd.Registry.Invariant.{IsValid}
use system_memory_lmkd.Tests.Events.{event_program, settings}
use system_memory_lmkd.Tests.Kills.{both-IsValid, daemon}
use system_memory_lmkd.Tests.Minfrees.{unset_targets}
use system_memory_lmkd.Time.{zero_tm}

unfoldable pub monitor_program : Unit {0}
unfolding event_program stay register init_psi_monitor init_mp_psi destroy_mp and_then or_clear
    then_also override init_levels init_psi_monitors init_mp_common init_common try_psi using_psi
    mark_initialized init_monitors destroy_monitors
monitor_program = tt

abbrev pub unset : Properties
unset = record {
  get_bool = λ name def. def;
  get_int32 = λ name def. def;
  get_int64 = λ name def. def;
}

-- A kernel without pressure stall information.
abbrev pub old_kernel : PressureFiles
old_kernel = record {
  psi_file = λ l. negsuc 0;
  psi_trigger = λ l t. false;
  mp_file = λ l. pos (20 + l);
  evctl_file = λ l. pos (30 + l);
  eventfd = λ l. pos (40 + l);
  evctl_write = λ l. true;
  epoll_add = λ fd. true;
  is_memcg_v1 = true;
}

abbrev unwatched : Monitors
unwatched = record {
  mpevfd = λ l. negsuc 0;
  handler = λ l. none;
  threshold_ms = λ l. pos 70;
  maxevents = pos 4;
  use_psi_monitors = false;
  monitors_initialized = false;
}

pub all_closed : AllClosed unwatched
all_closed = (refl, refl, refl)

destroy-init_monitors_example :
    ((destroy_monitors
        (init_monitors settings unset old_kernel unwatched).monitors).monitors.maxevents
      ≡ pos 4)
    × AllClosed
        (destroy_monitors (init_monitors settings unset old_kernel unwatched).monitors).monitors
destroy-init_monitors_example = destroy-init_monitors settings unset old_kernel unwatched all_closed

falls_back : (init_monitors settings unset old_kernel unwatched).monitors.use_psi_monitors ≡ false
unfolding monitor_program
falls_back = refl

succeeds : (init_monitors settings unset old_kernel unwatched).ok ≡ true
unfolding monitor_program
succeeds = refl

common-destroy-init_example :
    opened (pos 21) (
      (init_monitors settings unset old_kernel unwatched).effects
      ++ (destroy_monitors (init_monitors settings unset old_kernel unwatched).monitors).effects)
    ≡ closed (pos 21) (
        (init_monitors settings unset old_kernel unwatched).effects
        ++ (destroy_monitors (init_monitors settings unset old_kernel unwatched).monitors).effects)
      + pressure_files old_kernel (pos 21)
common-destroy-init_example =
    common-destroy-init settings unset old_kernel unwatched (pos 21) all_closed falls_back succeeds

abbrev pub server : Server
server = record {
  daemon = daemon;
  data_sock = λ i. record { sock = negsuc 0; pid = pos 0; async_event_mask = 0 };
  targets = unset_targets;
  monitors = unwatched;
  props = settings;
  use_inkernel_interface = false;
  pidfd_supported = true;
  memevent_listener = false;
  mem_event_update_zoneinfo_supported = false;
  boot_completed_handled = false;
}

abbrev os : Os
os = record {
  tgid = λ pid. some pid;
  score_file = λ pid. true;
  soft_limit_path = λ pid. true;
  system_uid = none;
  pidfd_open = λ pid. pos 60;
  calloc = true;
}

abbrev pub system : System
system = record {
  os = os;
  clock = some zero_tm;
  properties = unset;
  files = old_kernel;
  hook = true;
  listener = record {
    ok = true;
    direct_reclaim_begin = true;
    direct_reclaim_end = true;
    kswapd_wake = true;
    kswapd_sleep = true;
    update_zoneinfo = false;
    ring_buffer_fd = pos 70;
    epoll_add = true;
  };
}

abbrev pub big_endian : ByteOrder
big_endian = record { htonl = λ w. w; ntohl = λ w. w; ntohl-htonl = λ w h. refl }

-- LMK_PROCREMOVE of a process, by its registrant.
ctrl_command_handler-IsValid_example :
    IsValid
      (ctrl_command_handler big_endian system server 0
        (message 8 (2 ∷ 10 ∷ []) (pos 900))).server.daemon.registry
ctrl_command_handler-IsValid_example =
    ctrl_command_handler-IsValid big_endian system server 0 (message 8 (2 ∷ 10 ∷ []) (pos 900))
      both-IsValid

ctrl_connect_handler-Balanced_example :
    Balanced server (ctrl_connect_handler server (pos 8) true).server
ctrl_connect_handler-Balanced_example = ctrl_connect_handler-Balanced server (pos 8) true (inr refl)

ctrl_connect_handler-loses_example :
    DifferAs
      (ctrl_connect_handler server (pos 8) false).server.daemon.maxevents
      (pos 4)
      (connections (ctrl_connect_handler server (pos 8) false).server.data_sock)
      1
ctrl_connect_handler-loses_example = ctrl_connect_handler-loses server (pos 8) refl

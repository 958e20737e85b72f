-- ===== src/Control.antt =====
-- The control socket of lmkd.cpp: the state behind it, its data connections and their end. The
-- commands and the new connections are in the children. What is read from the system is a record, and what is
-- done outside the daemon's state is a list of effects.
pub mod Commands
pub mod Dispatch
pub mod Accept
pub mod Connections
use system_memory_lmkd.Base.{
  ℕ, zero, suc, ◌+◌, ◌-◌, ◌*◌, ◌/◌, ◌%◌, ◌^◌, Bool, true, false, not, ◌&&◌, ◌||◌, Option, none,
  some, List, [], ◌∷◌, ◌++◌, map, ◌==◌, ltb, update, if◌then◌else◌,
}
use Prim.Native.Nat.{bit_or}
use system_memory_lmkd.Base.Int.{ℤ, pos, negsuc, ◌+ℤ◌, ◌-ℤ◌, ◌<?◌, ◌==ℤ◌}
use system_memory_lmkd.Kill.{Daemon}
use system_memory_lmkd.Killcnt.{get_killcnt}
use system_memory_lmkd.Minfree.{Targets, cmd_target}
use system_memory_lmkd.Monitors.{
  Monitors, FdEffect, PressureFiles, init_monitors, destroy_monitors, then_also,
}
use system_memory_lmkd.Packet.{
  ByteOrder, LmkCmd, target, procprio, procremove, procpurge, getkillcnt, subscribe, prockill,
  update_props, stat_kill_occurred, start_monitoring, boot_completed, procs_prio, LmkTarget,
  LmkGetkillcnt, pack_get_cmd, pack_get_target, pack_get_procprio, pack_get_procremove,
  pack_get_getkillcnt, pack_get_subscribe, pack_get_procs_prio, pack_set_repl,
}
use system_memory_lmkd.Props
use system_memory_lmkd.Register.{
  Config, Os, Effect, apply_proc_prio, apply_procs, cmd_procremove, cmd_procpurge,
}
use system_memory_lmkd.Registry.{Registry, remove_claims}
use system_memory_lmkd.Time.{Timespec}

-- `struct sock_event_handler_info`, for a data connection.
pub record DataSock : Type 0 where
  pub sock : ℤ
  pub pid : ℤ
  pub async_event_mask : ℕ

pub record Server : Type 0 where
  pub daemon : Daemon
  pub data_sock : ℕ → DataSock
  pub targets : Targets
  pub monitors : Monitors
  pub props : Props.Props
  pub use_inkernel_interface : Bool
  pub pidfd_supported : Bool
  pub memevent_listener : Bool
  pub mem_event_update_zoneinfo_supported : Bool
  pub boot_completed_handled : Bool

-- What the library for BPF answers: whether the listener is in order, whether it registers direct
-- reclaim, kswapd and the changes of the zones, and its descriptor; and whether `epoll_ctl` adds that.
pub record Listener : Type 0 where
  pub ok : Bool
  pub direct_reclaim_begin : Bool
  pub direct_reclaim_end : Bool
  pub kswapd_wake : Bool
  pub kswapd_sleep : Bool
  pub update_zoneinfo : Bool
  pub ring_buffer_fd : ℤ
  pub epoll_add : Bool

-- The last field but one is whether the vendor's hook takes the settings.
pub record System : Type 0 where
  pub os : Os
  pub clock : Option Timespec
  pub properties : Props.Properties
  pub files : PressureFiles
  pub hook : Bool
  pub listener : Listener

pub data CtrlEffect : Type 0 where
  on_table : Effect → CtrlEffect
  on_monitor : FdEffect → CtrlEffect
  close_sock : ℤ → CtrlEffect
  -- a packet written to a connection
  write : ℕ → List ℕ → CtrlEffect
  -- a read in front of `killcnt_idx`
  bad_read : CtrlEffect

pub record Reply : Type 0 where
  pub server : Server
  pub effects : List CtrlEffect
  pub exits : Bool

-- MAX_DATA_CONN
abbrev pub max_data_conn : ℕ
max_data_conn = 3

abbrev pub go_on : Server → List CtrlEffect → Reply
go_on s es = record { server = s; effects = es; exits = false }

abbrev with_registry : Server → Registry → Server
with_registry s r = record s { daemon = record s.daemon { registry = r } }

unfoldable pub config_of : Server → Config
config_of s = record {
  use_inkernel_interface = s.use_inkernel_interface;
  per_app_memcg = s.props.per_app_memcg;
  pidfd_supported = s.pidfd_supported;
  last_kill = s.daemon.last_kill;
}

-- What the commands of the registry leave.
unfoldable pub table : Server → Registry × List Effect → Reply
table s (r, es) = go_on (with_registry s r) (map on_table es)

unfoldable pub ctrl_data_close : Server → ℕ → Reply
ctrl_data_close s i =
    let c = s.data_sock i in
    go_on
      (record s {
        data_sock = update s.data_sock i (record c { sock = negsuc 0 });
        daemon = record s.daemon {
          maxevents = s.daemon.maxevents -ℤ pos 1;
          registry = remove_claims s.daemon.registry c.pid;
        };
      })
      (close_sock c.sock ∷ [])

-- `1 << n` as a mask; the source leaves it undefined for a negative number and from 32 on.
unfoldable pub event_bit : ℤ → ℕ
event_bit (pos n) = 2 ^ n % 2 ^ 32
event_bit (negsuc n) = 0

unfoldable pub cmd_subscribe : Server → ℕ → ℤ → Server
cmd_subscribe s i evt_type =
    let c = s.data_sock i in
    record s {
      data_sock =
          update s.data_sock i
            (record c { async_event_mask = bit_or c.async_event_mask (event_bit evt_type) });
    }

-- The monitors wait on the same number of events as the rest.
unfoldable pub monitors_of : Server → Monitors
monitors_of s = record s.monitors { maxevents = s.daemon.maxevents }

unfoldable pub with_monitors : Server → Monitors → Server
with_monitors s m = record s { monitors = m; daemon = record s.daemon { maxevents = m.maxevents } }

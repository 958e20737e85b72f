-- ===== src/Startup.antt =====
-- The start of the daemon: `init`, `init_reaper` and the part of `main` in front of `mainloop` of
-- lmkd.cpp. The descriptors that are opened and closed are effects, but for those of the control
-- socket and of epoll, which stay.
pub mod Pipe
pub mod Ready
use system_memory_lmkd.Base.{
  ℕ, Bool, true, false, not, ◌||◌, Option, none, some, List, [], ◌∷◌, ◌++◌, ltb, if◌then◌else◌,
}
use system_memory_lmkd.Base.Int.{ℤ, pos, negsuc, ◌+ℤ◌, ◌<?◌, ◌==ℤ◌}
use system_memory_lmkd.Control.{Server, monitors_of, with_monitors, max_data_conn}
use system_memory_lmkd.Killcnt.{invalid_idx}
use system_memory_lmkd.Monitors.{FdEffect, opens, closes, PressureFiles, Step, init_monitors}
use system_memory_lmkd.Props
use system_memory_lmkd.Reaper
use system_memory_lmkd.Reread.{Pread, Reader, Answers, reread_file}

-- What the system answers `init`: the results of the calls, and whether the others succeed.
pub record Answer : Type 0 where
  pub epoll_create : ℤ
  pub control_socket : ℤ
  pub listens : Bool
  pub ctrl_added : Bool
  pub minfree_writable : Bool
  pub kernel_file : ℤ
  pub kernel_added : Bool
  pub pidfd_open : ℤ
  pub no_such_call : Bool
  pub init_hook : Bool
  pub properties : Props.Properties
  pub files : PressureFiles
  pub zoneinfo : Pread
  pub memory : Answers

-- The statics that `init` sets; whether clients were told that kills are reported; and whether its
-- result is 0.
pub record Booted : Type 0 where
  pub server : Server
  pub kpoll_fd : ℤ
  pub reader : Reader
  pub reports_kills : Bool
  pub effects : List FdEffect
  pub ok : Bool

unfoldable pub wait_more : Server → Server
wait_more s = record s { daemon = record s.daemon { maxevents = s.daemon.maxevents +ℤ pos 1 } }

unfoldable pub disconnected : Server → Server
disconnected s = record s {
  data_sock = λ i.
      if ltb i max_data_conn then record (s.data_sock i) { sock = negsuc 0 } else s.data_sock i;
}

-- `use_inkernel_interface` with its file.
unfoldable pub init_kernel : Answer → Booted → Booted
init_kernel k b =
    let fd = k.kernel_file in
    if fd <? pos 0
    then record b { kpoll_fd = fd }
    else if k.kernel_added
    then record b {
      server = wait_more b.server;
      kpoll_fd = fd;
      reports_kills = true;
      effects = b.effects ++ opens fd ∷ [];
    }
    else record b { kpoll_fd = negsuc 0; effects = b.effects ++ opens fd ∷ closes fd ∷ [] }

unfoldable pub is_delayed : Answer → Server → Bool
is_delayed k s =
    not (not s.props.delay_monitors_until_boot || k.properties.get_bool "sys.boot_completed" false)

unfoldable pub started_monitors : Answer → Server → Step
started_monitors k s = init_monitors s.props k.properties k.files (monitors_of s)

unfoldable pub init_user : Answer → Booted → Booted
init_user k b =
    let step = started_monitors k b.server in
    if is_delayed k b.server then record b { reports_kills = true } else record b {
      server = with_monitors b.server step.monitors;
      reports_kills = if step.ok then true else b.reports_kills;
      effects = b.effects ++ step.effects;
      ok = step.ok;
    }

unfoldable pub init_sources : Answer → Booted → Booted
init_sources k b =
    let c = record b { server = record b.server { use_inkernel_interface = k.minfree_writable } } in
    if k.minfree_writable then init_kernel k c else init_user k c

-- The slots' heads and the indices of the counters.
unfoldable pub init_tables : Server → Server
init_tables s =
    let d = s.daemon in
    record s {
      daemon = record d {
        registry = record d.registry { slots = λ t. [] };
        killcnt = record d.killcnt { idx = λ t. invalid_idx };
      };
    }

-- The rest of `init`, behind the sources of events.
unfoldable pub init_rest : ℕ → Answer → Booted → Booted
init_rest fuel k b =
    let s = init_tables b.server in
    let fd = k.pidfd_open in
    let supported = if fd <? pos 0 then not k.no_such_call else true in
    let probe = if fd <? pos 0 then [] else opens fd ∷ closes fd ∷ [] in
    record b {
      server = record s { pidfd_supported = supported };
      reader =
          record (reread_file fuel k.zoneinfo k.memory (record b.reader { is_open = false })).0 {
            is_open = b.reader.is_open;
          };
      effects = b.effects ++ probe;
      ok = k.init_hook;
    }

unfoldable pub init : ℕ → Answer → Booted → Booted
init fuel k b =
    let c = record b { server = disconnected b.server } in
    let d = init_sources k (record c { server = wait_more c.server; ok = true }) in
    if k.epoll_create ==ℤ negsuc 0
    then record b { ok = false }
    else if k.control_socket <? pos 0
    then record c { ok = false }
    else if not k.listens
    then record c { ok = false }
    else if not k.ctrl_added
    then record c { ok = false }
    else if d.ok
    then init_rest fuel k d
    else d

-- What the system answers `init_reaper`.
pub record ReaperAnswer : Type 0 where
  pub supported : Bool
  pub pipe : Option (ℤ × ℤ)
  pub nonblocking : Bool
  pub comm_added : Bool
  pub creates : ℕ → Bool

-- The reaper, the events that are waited for, the effects and the result.
pub record Reaping : Type 0 where
  pub reaper : Reaper.Reaper
  pub maxevents : ℤ
  pub effects : List FdEffect
  pub ok : Bool

-- With the pipe.
unfoldable pub with_pipe : ReaperAnswer → ℤ → ℤ → Reaper.Reaper → ℤ → Reaping
with_pipe a read_end write_end r maxevents =
    let (r', ok) = Reaper.init a.creates write_end r in
    let open_both = opens read_end ∷ opens write_end ∷ [] in
    let drop_reaper_comm = open_both ++ closes read_end ∷ closes write_end ∷ [] in
    let dropped : Reaping = record {
      reaper = r;
      maxevents = maxevents;
      effects = drop_reaper_comm;
      ok = false;
    } in
    if not a.nonblocking
    then dropped
    else if not a.comm_added
    then dropped
    else if ok
    then record { reaper = r'; maxevents = maxevents +ℤ pos 1; effects = open_both; ok = true }
    else record dropped { reaper = r' }

unfoldable pub init_reaper : ReaperAnswer → Reaper.Reaper → ℤ → Reaping
init_reaper a r maxevents =
    let none_done : Reaping = record {
      reaper = r;
      maxevents = maxevents;
      effects = [];
      ok = false;
    } in
    if a.supported
    then elim a.pipe [
      | none ↦ none_done
      | some (read_end, write_end) ↦ with_pipe a read_end write_end r maxevents
    ]
    else none_done

-- The daemon as `mainloop` finds it.
pub record Running : Type 0 where
  pub booted : Booted
  pub reaping : Reaping

unfoldable pub run_reaper : ReaperAnswer → Booted → Running
run_reaper a b =
    let r = init_reaper a Reaper.new b.server.daemon.maxevents in
    record {
      booted = record b {
        server = record b.server { daemon = record b.server.daemon { maxevents = r.maxevents } };
      };
      reaping = r;
    }

-- `main` without arguments, up to its loop; `none` when it ends. The first Boolean is what the
-- vendor's hook makes of the settings.
unfoldable pub main : ℕ → Bool → Answer → ReaperAnswer → Booted → Option Running
main fuel props_hook k a b =
    let (props, ok) = Props.update_props props_hook k.properties in
    let c = init fuel k (record b { server = record b.server { props = props } }) in
    if ok then if c.ok then some (run_reaper a c) else none else none

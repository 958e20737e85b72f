-- ===== src/Tests/Startups.antt =====
-- The start of the daemon on a phone without pressure stall information.
use system_memory_lmkd.Base.{◌==◌, if◌then◌else◌, ◌≡◌, refl, true, false, some, []}
use system_memory_lmkd.Base.Int.{pos, negsuc}
use system_memory_lmkd.Props.{update_props}
use system_memory_lmkd.Registry.{empty}
use system_memory_lmkd.Startup.{
  Answer, Booted, ReaperAnswer, Running, main, started_monitors, is_delayed, wait_more,
  disconnected,
}
use system_memory_lmkd.Startup.Ready.{Ready, is_able, fresh, main-Ready}
use system_memory_lmkd.Tests.Controls.{server, unset, old_kernel, monitor_program, all_closed}
use system_memory_lmkd.Tests.Kills.{daemon}

abbrev unstarted : Booted
unstarted = record {
  server = record server { daemon = record daemon { registry = empty; maxevents = pos 0 } };
  kpoll_fd = pos 0;
  reader = record { buf = λ i. 0; buf_size = 4096; allocated = false; is_open = false };
  reports_kills = false;
  effects = [];
  ok = false;
}

abbrev answer : Answer
answer = record {
  epoll_create = pos 3;
  control_socket = pos 4;
  listens = true;
  ctrl_added = true;
  minfree_writable = false;
  kernel_file = negsuc 0;
  kernel_added = false;
  pidfd_open = pos 9;
  no_such_call = false;
  init_hook = true;
  properties = unset;
  files = old_kernel;
  zoneinfo = λ offset max. some [];
  memory = record { malloc_works = true; open_works = true; realloc_works = λ size. true };
}

-- One of the two threads cannot be created.
abbrev one_thread : ReaperAnswer
one_thread = record {
  supported = true;
  pipe = some (pos 10, pos 11);
  nonblocking = true;
  comm_added = true;
  creates = λ i. if i == 0 then false else true;
}

answer_able : is_able answer (fresh unstarted unset).server ≡ true
unfolding monitor_program started_monitors is_delayed wait_more disconnected update_props
answer_able = refl

main-Ready_example :
    (r : Running) × (main 3 true answer one_thread unstarted ≡ some r)
    × Ready unstarted one_thread r
unfolding empty
main-Ready_example = main-Ready 3 answer one_thread unstarted all_closed refl answer_able

-- ===== src/Lib.antt =====
-- Android's low memory killer daemon, lmkd: a model of its core and the theorems about it.
--
-- The daemon keeps a table of processes that its clients register with an oom_adj score. It watches
-- the kernel's signs of memory pressure, decides whether a process should die and which, kills it
-- and waits for its death, and counts and reports the kills.
--
-- Which file models which part of the repository:
--   Base           shared names, tests and lists; Base/Int: C's signed integers and their 32 bits
--   Packet         include/lmkd.h: the packets of the control socket and their readers and writers
--   Registry       lmkd.cpp: struct proc, pidhash, procadjslot_list, pid_lookup to pid_invalidate,
--                  claim_record, remove_claims
--   Register       lmkd.cpp: register_oom_adj_proc, apply_proc_prio, cmd_procprio, cmd_procs_prio,
--                  cmd_procremove, cmd_procpurge
--   Killcnt        lmkd.cpp: inc_killcnt and get_killcnt
--   Props          lmkd.cpp: update_props and the settings
--   Memory         lmkd.cpp: watermarks, free swap, swap utilization, pressure levels
--   Time           lmkd.cpp: get_time_diff_ms
--   Kill           lmkd.cpp: kill_one_process, proc_get_heaviest, find_and_kill_process and the wait
--                  for the death of a victim
--   Pressure       lmkd.cpp: __mp_event_psi, from its guards to the polling that it asks for
--   Polling        lmkd.cpp: call_handler and resume_polling
--   Minfree        lmkd.cpp: cmd_target and the search for a target; Minfree/Vmpressure:
--                  mp_event_common
--   Monitors       lmkd.cpp and libpsi/psi.cpp: init_monitors, destroy_monitors and the monitors of
--                  both kinds
--   Control        lmkd.cpp: the data connections; Control/Dispatch: ctrl_command_handler;
--                  Control/Accept: ctrl_connect_handler
--   Client         liblmkd_utils.cpp: the client library; Client/Exchange: it and the daemon together
--   Mainloop       lmkd.cpp: mainloop's waits and the order of its events, kill_done_handler and
--                  kill_fail_handler
--   Reaper         reaper.cpp: the queue and the count of requests; Reaper/System: reaper_main and
--                  its threads as a step relation
--   Watchdog       lmkd.cpp and watchdog.cpp: watchdog_callback, find_victim and the timer
--   Tasknames      statslog.cpp: the names of the processes, and their hash table
--   Killreport     statslog.cpp: the report of a kill, byte by byte, with a reader of it
--   Memstat        statslog.cpp: the statistics of a process's memory, from its cgroup or from /proc
--   Notify         lmkd.cpp: what the clients are told of a kill, and poll_kernel
--   Reread         lmkd.cpp: read_all and reread_file
--   Memevents      lmkd.cpp: memevent_listener_notification
--   Startup        lmkd.cpp: init, init_reaper and main up to its loop
--   Cstring        the C library's functions on strings that the parsers call
--   Procfs         lmkd.cpp: the parsers of /proc/meminfo, /proc/vmstat and a status file;
--                  Procfs/Zoneinfo: that of /proc/zoneinfo
--   Tests          the theorems at concrete inputs, and runs of the definitions
--
-- State is a record passed from call to call; an array is a function of its index; a linked list is
-- a list. An int is an integer, unbounded where the source cannot come near its limits and written
-- with its wrap-around where it can. What a function reads from the system is an argument, and what
-- it does there is a list of effects.
--
-- Some loops run on fuel. That of get_killcnt has as many rounds as there are slots: the slot grows in
-- each round and the loop ends at the last one. The search for a victim at one score has a fuel that
-- its callers pass on; more than the number of nodes of any slot is enough, since a failed attempt
-- takes a node away. The watchdog's loop needs a round for each process that it tries and one more at
-- each of its 1001 scores, while the registry stays as it is. The parsers have a round for each byte
-- or line of their text and one more. The buffer of reread_file is doubled as often as the fuel says;
-- the number of doublings that a file needs is in its theorem.
--
-- The reaper's threads and the main thread interleave as steps of a relation, a step being what a
-- thread does between two points where another may run. A thread that finds the queue empty waits at
-- the condition variable; a notification wakes one of those that wait, whichever the system picks, and
-- a thread may also wake without one. The watchdog's thread sees the registry as it
-- is at each of its searches.
--
-- Not modelled: epoll_wait, main as a client, logging, thread priorities, process_mrelease,
-- the files of the in-kernel interface, the averages of the pressure files, and the locks, which order
-- the accesses of the threads.
mod Base
pub mod Registry
pub mod Packet
pub mod Killcnt
pub mod Register
pub mod Props
pub mod Memory
mod Tests
pub mod Time
pub mod Kill
pub mod Pressure
pub mod Polling
pub mod Reaper
pub mod Cstring
pub mod Procfs
pub mod Tasknames
pub mod Memstat
pub mod Notify
pub mod Reread
pub mod Startup
pub mod Memevents
pub mod Killreport
pub mod Watchdog
pub mod Monitors
pub mod Control
pub mod Client
pub mod Mainloop
pub mod Minfree

-- ===== src/Control/Accept.antt =====
-- `ctrl_connect_handler` of lmkd.cpp: a new data connection.
use system_memory_lmkd.Base.{ℕ, Bool, Option, none, some, [], ◌++◌, update, if◌then◌else◌}
use system_memory_lmkd.Base.Int.{ℤ, pos, ◌+ℤ◌, ◌<?◌}
use system_memory_lmkd.Control.{Server, Reply, go_on, ctrl_data_close}

unfoldable pub get_free_dsock : Server → Option ℕ
get_free_dsock s =
    if (s.data_sock 0).sock <? pos 0
    then some 0
    else if (s.data_sock 1).sock <? pos 0
    then some 1
    else if (s.data_sock 2).sock <? pos 0
    then some 2
    else none

-- All the connections, from the first.
unfoldable pub close_all : Server → Reply
close_all s =
    let a = ctrl_data_close s 0 in
    let b = ctrl_data_close a.server 1 in
    let c = ctrl_data_close b.server 2 in go_on c.server (a.effects ++ b.effects ++ c.effects)

-- The connection `i` that `accept` returned as `fd`; whether `epoll_ctl` adds it.
unfoldable pub connect_at : Server → ℕ → ℤ → Bool → Reply
connect_at s i fd adds =
    let c = s.data_sock i in
    let refused = record s { data_sock = update s.data_sock i (record c { sock = fd }) } in
    let accepted = record s {
      data_sock = update s.data_sock i (record c { sock = fd; async_event_mask = 0 });
    } in
    if fd <? pos 0
    then go_on refused []
    else if adds
    then go_on
        (record accepted { daemon = record s.daemon { maxevents = s.daemon.maxevents +ℤ pos 1 } })
        []
    else ctrl_data_close accepted i

-- When no connection is free, all are closed first.
unfoldable pub ctrl_connect_handler : Server → ℤ → Bool → Reply
ctrl_connect_handler s fd adds =
    let closed = close_all s in
    let r = connect_at closed.server 0 fd adds in
    elim (get_free_dsock s) [
      | some i ↦ connect_at s i fd adds
      | none ↦ record r { effects = closed.effects ++ r.effects }
    ]

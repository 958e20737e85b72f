-- ===== src/Tests/Clients.antt =====
-- Clients of the daemon of the control socket, on a big-endian and on a little-endian machine.
use system_memory_lmkd.Base.{
  ℕ, ◌≡◌, refl, true, some, none, List, [], ◌∷◌, ◌++◌, arith, if◌then◌else◌,
}
use system_memory_lmkd.Base.Int.{pos, to_word, of_word}
use system_memory_lmkd.Client.Exchange.{register-apply, kill_count-unturned, update_props-exits}
use system_memory_lmkd.Client.{
  lmkd_register_proc, lmkd_update_props, lmkd_get_kill_count, kill_count_reply, is_reply, is_cmd,
  update_props_success, update_props_fail,
}
use system_memory_lmkd.Control.Dispatch.{message, ctrl_command_handler, store_pid}
use system_memory_lmkd.Control.{CtrlEffect, table, config_of, write}
use system_memory_lmkd.Killcnt.{init, get_killcnt}
use system_memory_lmkd.Packet.{
  getkillcnt, update_props, LmkProcprio, LmkGetkillcnt, pack_set_repl, pack_get_cmd, header, cmd_of,
  cmd_code, word,
}
use system_memory_lmkd.Register.{apply_proc_prio}
use system_memory_lmkd.Tests.Controls.{server, system, big_endian}
use system_memory_lmkd.Tests.Packets.{little_endian, swap32}

abbrev player : LmkProcprio
player = record { pid = pos 20; uid = pos 10020; oomadj = pos 200; ptype = pos 0 }

register-apply_example :
    ctrl_command_handler big_endian system server 0
      (message 20 ((lmkd_register_proc big_endian true player).0 ++ 7 ∷ []) (pos 900))
    ≡ table (store_pid server 0 (pos 900)) (
        apply_proc_prio
          (config_of (store_pid server 0 (pos 900)))
          system.os
          (store_pid server 0 (pos 900)).daemon.registry
          player
          (pos 900))
register-apply_example =
    register-apply big_endian system server 0 player (7 ∷ []) (pos 900) (omega arith)

-- The range above all scores asks for the total.
abbrev total : LmkGetkillcnt
total = record { min_oomadj = pos 1001; max_oomadj = pos 1001 }

none_yet : get_killcnt init (pos 1001) (pos 1001) ≡ some (pos 0)
unfolding get_killcnt init
none_yet = refl

kill_count-unturned_example :
    ((ctrl_command_handler little_endian system server 0 (
        message 12 ((lmkd_get_kill_count little_endian true total none).0 ++ []) (pos 900))).effects
      ≡ write 0 (pack_set_repl little_endian getkillcnt (pos 0)) ∷ [])
    × ((lmkd_get_kill_count little_endian true total (
          some
            (record { size = 8; packet = pack_set_repl little_endian getkillcnt (pos 0) ++ [] }))).1
        ≡ of_word (little_endian.htonl (to_word (pos 0))))
kill_count-unturned_example =
    kill_count-unturned little_endian system server 0 total [] (pos 900) (pos 0) (omega arith)
      (omega arith) refl none_yet

-- One kill is reported as 2 ^ 24 on a little-endian machine.
one_kill :
    (lmkd_get_kill_count little_endian true total
      (some (record { size = 8; packet = pack_set_repl little_endian getkillcnt (pos 1) }))).1
    ≡ pos 16777216
unfolding lmkd_get_kill_count kill_count_reply is_reply is_cmd pack_get_cmd pack_set_repl header
    cmd_of cmd_code word swap32
one_kill = refl

props_exit :
    (es : List CtrlEffect) × (w : List ℕ) × ((ctrl_command_handler big_endian system server 0
        (message 4 (header big_endian update_props ∷ []) (pos 900))).effects
      ≡ es ++ write 0 w ∷ [])
    × (lmkd_update_props big_endian true (some (record { size = 8; packet = w ++ 7 ∷ [] })) ≡ (
        if (ctrl_command_handler big_endian system server 0
          (message 4 (header big_endian update_props ∷ []) (pos 900))).exits
        then update_props_fail
        else update_props_success))
props_exit = update_props-exits big_endian system server 0 [] (7 ∷ []) (pos 900)

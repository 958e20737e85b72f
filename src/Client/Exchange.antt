-- ===== src/Client/Exchange.antt =====
-- A client and the daemon together: what a request does, and what its reply is taken for.
use system_memory_lmkd.Base.{
  ℕ, ◌≡◌, refl, Bool, true, false, none, some, List, [], ◌∷◌, ◌++◌, arith, if◌then◌else◌,
}
use system_memory_lmkd.Base.Int.{ℤ, pos, negsuc, to_word, of_word, IsInt32}
use system_memory_lmkd.Client.{
  lmkd_register_proc, lmkd_update_props, lmkd_get_kill_count, is_cmd, is_reply, props_reply,
  kill_count_reply, update_props_success, update_props_fail,
}
use system_memory_lmkd.Control.Dispatch.{
  message, ctrl_command_handler, dispatch, run_command, store_pid, reply_killcnt, answer_props,
  reload, reinitialize, drop_threshold,
}
use system_memory_lmkd.Control.{Server, System, Reply, table, config_of, write, CtrlEffect}
use system_memory_lmkd.Killcnt.{get_killcnt}
use system_memory_lmkd.Packet.RoundTrip.{
  IsProcprio, get-set_procprio, get-set_getkillcnt, get_cmd-header, read-word,
}
use system_memory_lmkd.Packet.{
  ByteOrder, LmkCmd, getkillcnt, update_props, LmkProcprio, LmkGetkillcnt, word_at, pack_set_repl,
  pack_get_repl, header, word,
}
use system_memory_lmkd.Props
use system_memory_lmkd.Register.{apply_proc_prio}

-- The daemon treats the packet of `lmkd_register_proc`, of twenty bytes, as the registration of the
-- very record that the client passed, whatever the buffer holds behind it.
pub register-apply :
    (order : ByteOrder) (k : System) (s : Server) (i : ℕ) (p : LmkProcprio) (junk : List ℕ)
    (cred : ℤ)
    → IsProcprio p
    → let s' = store_pid s i cred in
      ctrl_command_handler order k s i
        (message 20 ((lmkd_register_proc order true p).0 ++ junk) cred)
      ≡ table s' (apply_proc_prio (config_of s') k.os s'.daemon.registry p cred)
unfolding ctrl_command_handler dispatch run_command lmkd_register_proc
register-apply order k s i p junk cred h =
    let (is_procprio, same, app) = get-set_procprio order p junk h in
    rw (is_procprio, dispatch, same) refl

-- The reply of two words that the daemon writes to a request.
abbrev reply_of : ByteOrder → LmkCmd → ℤ → List ℕ → List ℕ
reply_of order c result junk = pack_set_repl order c result ++ junk

reply-is_reply :
    (order : ByteOrder) (writes : Bool) (c : LmkCmd) (result : ℤ) (junk : List ℕ)
    → is_reply order writes c (record { size = 8; packet = reply_of order c result junk }) ≡ true
unfolding is_reply is_cmd pack_set_repl
reply-is_reply order writes c result junk =
    rw (get_cmd-header order c (word order result ∷ junk)) (ground arith)

-- A client that asks for the kills at a range of scores is told the count that the daemon keeps, in
-- network byte order: `lmkd_get_kill_count` does not turn it.
pub kill_count-unturned :
    (order : ByteOrder) (k : System) (s : Server) (i : ℕ) (g : LmkGetkillcnt) (junk : List ℕ)
    (cred n : ℤ)
    → IsInt32 g.min_oomadj
    → IsInt32 g.max_oomadj
    → s.use_inkernel_interface ≡ false
    → get_killcnt s.daemon.killcnt g.min_oomadj g.max_oomadj ≡ some n
    → ((ctrl_command_handler order k s i
          (message 12 ((lmkd_get_kill_count order true g none).0 ++ junk) cred)).effects
        ≡ write i (pack_set_repl order getkillcnt n) ∷ [])
      × ((lmkd_get_kill_count order true g
            (some (record { size = 8; packet = pack_set_repl order getkillcnt n ++ junk }))).1
          ≡ of_word (order.htonl (to_word n)))
unfolding ctrl_command_handler dispatch run_command lmkd_get_kill_count reply_killcnt store_pid
    kill_count_reply
kill_count-unturned order k s i g junk cred n h0 h1 user e =
    let (is_getkillcnt, same) = get-set_getkillcnt order g junk h0 h1 in
    (
      rw (is_getkillcnt, dispatch, same) (simp user (rw (e, reply_killcnt) refl)),
      rw (reply-is_reply order true getkillcnt n junk) (unfold pack_set_repl word in refl),
    )

get-set_repl :
    (order : ByteOrder) (c : LmkCmd) (result : ℤ) (junk : List ℕ)
    → IsInt32 result
    → pack_get_repl order (reply_of order c result junk) ≡ result
unfolding pack_get_repl pack_set_repl word_at
get-set_repl order c result junk h = read-word order result h

-- The last packet that is written, and that a client which reads it, whatever its buffer holds behind
-- it, fails exactly when the daemon exits.
abbrev Told : ByteOrder → ℕ → List ℕ → Reply → Type 0
Told order i junk r =
    (es : List CtrlEffect) × (w : List ℕ) × (r.effects ≡ es ++ write i w ∷ [])
    × (lmkd_update_props order true (some (record { size = 8; packet = w ++ junk }))
        ≡ (if r.exits then update_props_fail else update_props_success))

answer-Told :
    (order : ByteOrder) (k : System) (s : Server) (i : ℕ) (junk : List ℕ) (es : List CtrlEffect)
    (ok : Bool)
    → Told order i junk (answer_props order k s i es ok)
unfolding answer_props lmkd_update_props props_reply
answer-Told order k s i junk es true =
    let result = pos 0 in
    (
      es,
      pack_set_repl order update_props result,
      refl,
      rw
          (
            reply-is_reply order true update_props result junk,
            get-set_repl order update_props result junk (omega arith),
          )
          refl,
    )
answer-Told order k s i junk es false =
    let result = negsuc 0 in
    (
      es,
      pack_set_repl order update_props result,
      refl,
      rw
          (
            reply-is_reply order true update_props result junk,
            get-set_repl order update_props result junk (omega arith),
          )
          refl,
    )

either-Told :
    (order : ByteOrder) (i : ℕ) (junk : List ℕ) (b : Bool) (x y : Reply)
    → Told order i junk x
    → Told order i junk y
    → Told order i junk (if b then x else y)
either-Told order i junk true x y h n = h
either-Told order i junk false x y h n = n

reload-Told :
    (order : ByteOrder) (k : System) (s : Server) (i : ℕ) (junk : List ℕ)
    → Told order i junk (reload order k s i)
unfolding reload
reload-Told order k s i junk =
    let loaded = record s { props = (Props.update_props k.hook k.properties).0 } in
    let again = reinitialize order k loaded in
    let after = drop_threshold order k again.0 in
    either-Told order i junk (Props.update_props k.hook k.properties).1
      (answer_props order k after i again.1 again.2) (answer_props order k loaded i [] false)
      (answer-Told order k after i junk again.1 again.2)
      (answer-Told order k loaded i junk [] false)

-- A client's LMK_UPDATE_PROPS, a packet of four bytes, is answered on its connection, after whatever
-- is done with the monitors; and `lmkd_update_props` takes the answer for a failure when the daemon
-- exits, and for a success when it does not.
pub update_props-exits :
    (order : ByteOrder) (k : System) (s : Server) (i : ℕ) (rest junk : List ℕ) (cred : ℤ)
    → Told order i junk
        (ctrl_command_handler order k s i (message 4 (header order update_props ∷ rest) cred))
unfolding ctrl_command_handler dispatch run_command
update_props-exits order k s i rest junk cred =
    rw (get_cmd-header order update_props rest, dispatch)
      (reload-Told order k (store_pid s i cred) i junk)

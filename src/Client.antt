-- ===== src/Client.antt =====
-- The client library, liblmkd_utils.cpp: the packets that it writes to the control socket and what it
-- makes of the replies. Whether a write works and what a read gives are arguments.
pub mod Exchange
use system_memory_lmkd.Base.{
  ℕ, Bool, true, false, not, ◌&&◌, Option, none, some, List, ◌==◌, get_or, if◌then◌else◌,
}
use system_memory_lmkd.Base.Int.{ℤ, pos, negsuc, ◌==ℤ◌, of_word}
use system_memory_lmkd.Packet.{
  ByteOrder, LmkCmd, getkillcnt, update_props, boot_completed, cmd_code, LmkProcprio, LmkGetkillcnt,
  pack_get_cmd, pack_get_repl, pack_set_procprio, pack_set_procs_prio, pack_set_procremove,
  pack_set_getkillcnt, header,
}

-- The packet written, and the result.
abbrev pub Sent : Type 0
Sent = List ℕ × ℤ

-- The bytes read and the buffer.
pub record Received : Type 0 where
  pub size : ℕ
  pub packet : List ℕ

pub data UpdatePropsResult : Type 0 where
  update_props_success update_props_fail update_props_send_err update_props_recv_err
        update_props_format_err :
      UpdatePropsResult

pub data BootCompletedResult : Type 0 where
  boot_completed_notif_success boot_completed_notif_fails boot_completed_notif_already_handled
        boot_completed_notif_send_err boot_completed_notif_recv_err
        boot_completed_notif_format_err :
      BootCompletedResult

abbrev written : Bool → ℤ
written writes = if writes then pos 0 else negsuc 0

module _ (order : ByteOrder) (writes : Bool) where
  unfoldable pub lmkd_register_proc : LmkProcprio → Sent
  lmkd_register_proc p = (pack_set_procprio order p, written writes)

  unfoldable pub lmkd_register_procs : List LmkProcprio → Sent
  lmkd_register_procs ps = (pack_set_procs_prio order ps, written writes)

  unfoldable pub lmkd_unregister_proc : ℤ → Sent
  lmkd_unregister_proc pid = (pack_set_procremove order pid, written writes)

  unfoldable pub is_cmd : LmkCmd → Option LmkCmd → Bool
  is_cmd c none = false
  is_cmd c (some d) = cmd_code d == cmd_code c

  -- A reply of two words to this command.
  unfoldable pub is_reply : LmkCmd → Received → Bool
  is_reply c m = m.size == 8 && is_cmd c (pack_get_cmd order m.packet)

  unfoldable pub props_reply : Received → UpdatePropsResult
  props_reply m =
      if not (is_reply update_props m)
      then update_props_format_err
      else if pack_get_repl order m.packet ==ℤ pos 0
      then update_props_success
      else update_props_fail

  -- The request is a header alone; `none` for a read that fails.
  unfoldable pub lmkd_update_props : Option Received → UpdatePropsResult
  lmkd_update_props none = if writes then update_props_recv_err else update_props_send_err
  lmkd_update_props (some m) = if writes then props_reply m else update_props_send_err

  unfoldable pub boot_reply : Received → BootCompletedResult
  boot_reply m =
      let result = pack_get_repl order m.packet in
      if not (is_reply boot_completed m)
      then boot_completed_notif_format_err
      else if result ==ℤ negsuc 0
      then boot_completed_notif_fails
      else if result ==ℤ pos 0
      then boot_completed_notif_success
      else if result ==ℤ pos 1
      then boot_completed_notif_already_handled
      else boot_completed_notif_fails

  unfoldable pub lmkd_notify_boot_completed : Option Received → BootCompletedResult
  lmkd_notify_boot_completed none =
      if writes then boot_completed_notif_recv_err else boot_completed_notif_send_err
  lmkd_notify_boot_completed (some m) =
      if writes then boot_reply m else boot_completed_notif_send_err

  -- The count is taken from the packet as it stands, and not through `ntohl`.
  unfoldable pub kill_count_reply : Received → ℤ
  kill_count_reply m = if is_reply getkillcnt m then of_word (get_or m.packet 1 0) else negsuc 2

  unfoldable pub lmkd_get_kill_count : LmkGetkillcnt → Option Received → List ℕ × ℤ
  lmkd_get_kill_count g none = (pack_set_getkillcnt order g, if writes then negsuc 1 else negsuc 0)
  lmkd_get_kill_count g (some m) =
      (pack_set_getkillcnt order g, if writes then kill_count_reply m else negsuc 0)

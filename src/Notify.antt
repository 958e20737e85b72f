-- ===== src/Notify.antt =====
-- What the daemon tells its clients of a kill without being asked: ctrl_data_write_lmk_kill_occurred,
-- stats_write_lmk_kill_occurred and poll_kernel of lmkd.cpp. The packets that are written come as a
-- list, each with the index of its connection; a failed write is only logged.
pub mod Subscribers
use Prim.Native.Nat.{bit_and}
use system_memory_lmkd.Base.{
  ℕ, zero, suc, ◌+◌, ◌*◌, ◌/◌, Bool, true, false, ◌&&◌, not, Option, none, some, List, [], ◌∷◌,
  ◌++◌, map, ◌==◌, if◌then◌else◌,
}
use system_memory_lmkd.Base.Int.{ℤ, pos, negsuc, ◌<?◌, ◌==ℤ◌, ◌*ℤ◌}
use system_memory_lmkd.Control.{DataSock, max_data_conn, event_bit}
use system_memory_lmkd.Cstring.{Bytes}
use system_memory_lmkd.Killreport.{Network, KillStat, MemoryStat, lmkd_pack_set_kill_occurred}
use system_memory_lmkd.Killreport.Layout.{sent}
use system_memory_lmkd.Packet.{ByteOrder, pack_set_prockills}
use system_memory_lmkd.Pressure.Decision.{no_kill}
use system_memory_lmkd.Tasknames.{Tasknames, stats_get_task_name}

-- LMK_ASYNC_EVENT_KILL and LMK_ASYNC_EVENT_STAT
abbrev pub async_event_kill : ℤ
async_event_kill = pos 0

abbrev pub async_event_stat : ℤ
async_event_stat = pos 1

-- `data_sock[i].sock >= 0 && data_sock[i].async_event_mask & 1 << event`
unfoldable pub is_subscribed : ℤ → DataSock → Bool
is_subscribed event c =
    not (c.sock <? pos 0) && not (bit_and c.async_event_mask (event_bit event) == 0)

-- The loop over the connections, from `i` on.
unfoldable pub subscribers : ℤ → (ℕ → DataSock) → ℕ → ℕ → List ℕ
subscribers event socks i zero = []
subscribers event socks i (suc rounds) =
    let others = subscribers event socks (i + 1) rounds in
    if is_subscribed event (socks i) then i ∷ others else others

-- A packet of words, or one of bytes.
pub data Notice : Type 0 where
  words : List ℕ → Notice
  octets : Bytes → Notice

unfoldable pub broadcast : ℤ → (ℕ → DataSock) → Notice → List (ℕ × Notice)
broadcast event socks n = map (λ i. (i, n)) (subscribers event socks 0 max_data_conn)

unfoldable pub ctrl_data_write_lmk_kill_occurred :
    ByteOrder → (ℕ → DataSock) → ℤ → ℤ → ℤ → List (ℕ × Notice)
ctrl_data_write_lmk_kill_occurred order socks pid uid rss_kb =
    broadcast async_event_kill socks (words (pack_set_prockills order pid uid rss_kb))

module _ (net : Network) (enabled : Bool) (buffer : ℕ → ℕ) (socks : ℕ → DataSock) where
  unfoldable pub stats_write_lmk_kill_occurred : KillStat → Option MemoryStat → List (ℕ × Notice)
  stats_write_lmk_kill_occurred kill_st mem_st =
      let p = lmkd_pack_set_kill_occurred net enabled buffer kill_st mem_st in
      if p.index == 0 then [] else broadcast async_event_stat socks (octets (sent p))

  -- Without a name nothing is told.
  unfoldable pub stats_write_lmk_kill_occurred_pid :
      Tasknames → ℤ → KillStat → Option MemoryStat → List (ℕ × Notice)
  stats_write_lmk_kill_occurred_pid names pid kill_st mem_st =
      elim (stats_get_task_name names pid) [
        | none ↦ []
        | some name ↦ stats_write_lmk_kill_occurred (record kill_st { taskname = name }) mem_st
      ]

-- The fields of a line of /proc/lowmemorykiller.
pub record KernelKill : Type 0 where
  pub pid : ℤ
  pub uid : ℤ
  pub group_leader_pid : ℤ
  pub pgfault : ℤ
  pub pgmajfault : ℤ
  pub rss_in_pages : ℤ
  pub oom_score_adj : ℤ
  pub min_score_adj : ℤ
  pub starttime : ℤ

-- `>> 10` of what is not negative, and the rounding of a negative number towards minus infinity.
unfoldable pub shift_10 : ℤ → ℤ
shift_10 (pos n) = pos (n / 1024)
shift_10 (negsuc n) = negsuc (n / 1024)

unfoldable pub kernel_kill_stat : KernelKill → KillStat
kernel_kill_stat k = record {
  uid = k.uid;
  taskname = [];
  kill_reason = no_kill;
  oom_score = k.oom_score_adj;
  min_oom_score = k.min_score_adj;
  free_mem_kb = pos 0;
  free_swap_kb = pos 0;
  thrashing = pos 0;
  max_thrashing = pos 0;
}

unfoldable pub kernel_memory_stat : ℕ → ℕ → KernelKill → MemoryStat
kernel_memory_stat pagesize ticks k = record {
  pgfault = k.pgfault;
  pgmajfault = k.pgmajfault;
  rss_in_bytes = k.rss_in_pages *ℤ pos pagesize;
  cache_in_bytes = pos 0;
  swap_in_bytes = pos 0;
  process_start_time_ns = k.starttime *ℤ pos (1000000000 / ticks);
}

module _ (order : ByteOrder) (net : Network) (enabled : Bool) (pagesize ticks : ℕ)
    (socks : ℕ → DataSock) (names : Tasknames) where
  -- One line: only the death of a group's leader is told.
  unfoldable pub poll_line : (ℕ → ℕ) → KernelKill → List (ℕ × Notice)
  poll_line buffer k =
      let m = kernel_memory_stat pagesize ticks k in
      if k.group_leader_pid ==ℤ k.pid
      then ctrl_data_write_lmk_kill_occurred order socks k.pid k.uid (shift_10 m.rss_in_bytes)
        ++ stats_write_lmk_kill_occurred_pid net enabled buffer socks names k.pid
            (kernel_kill_stat k) (some m)
      else []

  -- The lines that are read until there is none, `none` for one that has not all its fields, with
  -- what the packet's buffer holds at first.
  unfoldable pub poll_kernel : ℤ → List ((ℕ → ℕ) × Option KernelKill) → List (ℕ × Notice)
  poll_kernel poll_fd [] = []
  poll_kernel poll_fd ((buffer, none) ∷ ls) = poll_kernel poll_fd ls
  poll_kernel poll_fd ((buffer, some k) ∷ ls) =
      let here = poll_line buffer k ++ poll_kernel poll_fd ls in
      if poll_fd ==ℤ negsuc 0 then [] else here

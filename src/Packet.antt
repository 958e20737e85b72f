-- ===== src/Packet.antt =====
-- The control packets of include/lmkd.h. A packet is thirteen `int`s; `lmkd_pack_set_*` stores the
-- words of its result from index 0 on and returns four times their number, and a reader finds them
-- followed by whatever the buffer held. `htonl` and `ntohl` are the C library's, taken as a record.
pub mod RoundTrip
use system_memory_lmkd.Base.{
  ℕ, zero, suc, ◌+◌, ◌-◌, ◌*◌, ◌/◌, ◌%◌, ◌^◌, ◌<◌, ◌≡◌, Bool, Option, none, some, List, [], ◌∷◌,
  ◌==◌, ltb, if◌then◌else◌, ◌||◌, not, get_or,
}
use system_memory_lmkd.Base.Int.{ℤ, pos, to_word, of_word, ◌==ℤ◌}

pub record ByteOrder : Type 0 where
  pub htonl : ℕ → ℕ
  pub ntohl : ℕ → ℕ
  pub ntohl-htonl : (w : ℕ) → w < 2 ^ 32 → ntohl (htonl w) ≡ w

pub data LmkCmd : Type 0 where
  target procprio procremove procpurge getkillcnt subscribe prockill update_props stat_kill_occurred
        start_monitoring boot_completed procs_prio :
      LmkCmd

unfoldable pub cmd_code : LmkCmd → ℕ
cmd_code target = 0
cmd_code procprio = 1
cmd_code procremove = 2
cmd_code procpurge = 3
cmd_code getkillcnt = 4
cmd_code subscribe = 5
cmd_code prockill = 6
cmd_code update_props = 7
cmd_code stat_kill_occurred = 8
cmd_code start_monitoring = 9
cmd_code boot_completed = 10
cmd_code procs_prio = 11

-- The cases of a `switch` on the command; `none` is its `default`.
unfoldable pub cmd_of : ℕ → Option LmkCmd
cmd_of c =
    if c == 0
    then some target
    else if c == 1
    then some procprio
    else if c == 2
    then some procremove
    else if c == 3
    then some procpurge
    else if c == 4
    then some getkillcnt
    else if c == 5
    then some subscribe
    else if c == 6
    then some prockill
    else if c == 7
    then some update_props
    else if c == 8
    then some stat_kill_occurred
    else if c == 9
    then some start_monitoring
    else if c == 10
    then some boot_completed
    else if c == 11
    then some procs_prio
    else none

-- MAX_TARGETS, CTRL_PACKET_MAX_SIZE, LMK_PROCPRIO_FIELD_COUNT and PROCS_PRIO_MAX_RECORD_COUNT
abbrev pub max_targets : ℕ
max_targets = 6

abbrev pub ctrl_packet_max_size : ℕ
ctrl_packet_max_size = 4 * (max_targets * 2 + 1)

abbrev pub procprio_field_count : ℕ
procprio_field_count = 4

abbrev pub procs_prio_max_record_count : ℕ
procs_prio_max_record_count = ctrl_packet_max_size / (procprio_field_count * 4)

pub record LmkTarget : Type 0 where
  pub minfree : ℤ
  pub oom_adj_score : ℤ

pub record LmkProcprio : Type 0 where
  pub pid : ℤ
  pub uid : ℤ
  pub oomadj : ℤ
  pub ptype : ℤ

pub record LmkGetkillcnt : Type 0 where
  pub min_oomadj : ℤ
  pub max_oomadj : ℤ

-- PROC_TYPE_FIRST is PROC_TYPE_APP; PROC_TYPE_SERVICE follows, then PROC_TYPE_COUNT.
abbrev pub proc_type_app : ℤ
proc_type_app = pos 0

abbrev pub proc_type_count : ℤ
proc_type_count = pos 2

module _ (order : ByteOrder) where
  open order use {htonl, ntohl}

  -- `ntohl(packet[i])` as an `int`, and `htonl` of an `int`.
  unfoldable pub word_at : List ℕ → ℕ → ℤ
  word_at packet i = of_word (ntohl (get_or packet i 0))

  unfoldable pub word : ℤ → ℕ
  word x = htonl (to_word x)

  unfoldable pub pack_get_cmd : List ℕ → Option LmkCmd
  unfolding cmd_of
  pack_get_cmd packet = cmd_of (ntohl (get_or packet 0 0))

  unfoldable pub header : LmkCmd → ℕ
  unfolding cmd_code
  header c = htonl (cmd_code c)

  unfoldable pub pack_get_target : List ℕ → ℕ → LmkTarget
  unfolding word_at
  pack_get_target packet target_idx = record {
    minfree = word_at packet (target_idx * 2 + 1);
    oom_adj_score = word_at packet (target_idx * 2 + 2);
  }

  target_words : List LmkTarget → List ℕ
  unfolding word
  target_words [] = []
  target_words (t ∷ ts) = word t.minfree ∷ word t.oom_adj_score ∷ target_words ts

  unfoldable pub pack_set_target : List LmkTarget → List ℕ
  unfolding header target_words
  pack_set_target targets = header target ∷ target_words targets

  -- A missing type is PROC_TYPE_APP.
  unfoldable pub pack_get_procprio : List ℕ → ℕ → LmkProcprio
  unfolding word_at
  pack_get_procprio packet field_count = record {
    pid = word_at packet 1;
    uid = word_at packet 2;
    oomadj = word_at packet 3;
    ptype = if ltb 3 field_count then word_at packet 4 else proc_type_app;
  }

  procprio_words : LmkProcprio → List ℕ → List ℕ
  unfolding word
  procprio_words p rest = word p.pid ∷ word p.uid ∷ word p.oomadj ∷ word p.ptype ∷ rest

  unfoldable pub pack_set_procprio : LmkProcprio → List ℕ
  unfolding header procprio_words
  pack_set_procprio p = header procprio ∷ procprio_words p []

  unfoldable pub pack_get_procremove : List ℕ → ℤ
  unfolding word_at
  pack_get_procremove packet = word_at packet 1

  unfoldable pub pack_set_procremove : ℤ → List ℕ
  unfolding header word
  pack_set_procremove pid = header procremove ∷ word pid ∷ []

  unfoldable pub pack_set_procpurge : List ℕ
  unfolding header
  pack_set_procpurge = header procpurge ∷ []

  unfoldable pub pack_get_getkillcnt : List ℕ → LmkGetkillcnt
  unfolding word_at
  pack_get_getkillcnt packet = record {
    min_oomadj = word_at packet 1;
    max_oomadj = word_at packet 2;
  }

  unfoldable pub pack_set_getkillcnt : LmkGetkillcnt → List ℕ
  unfolding header word
  pack_set_getkillcnt g = header getkillcnt ∷ word g.min_oomadj ∷ word g.max_oomadj ∷ []

  -- The replies, and the one-word requests.
  unfoldable pub pack_set_repl : LmkCmd → ℤ → List ℕ
  unfolding header word
  pack_set_repl c result = header c ∷ word result ∷ []

  unfoldable pub pack_get_repl : List ℕ → ℤ
  unfolding word_at
  pack_get_repl packet = word_at packet 1

  unfoldable pub pack_get_subscribe : List ℕ → ℤ
  unfolding word_at
  pack_get_subscribe packet = word_at packet 1

  unfoldable pub pack_set_subscribe : ℤ → List ℕ
  unfolding header word
  pack_set_subscribe evt_type = header subscribe ∷ word evt_type ∷ []

  unfoldable pub pack_set_prockills : ℤ → ℤ → ℤ → List ℕ
  unfolding header word
  pack_set_prockills pid uid rss_kb = header prockill ∷ word pid ∷ word uid ∷ word rss_kb ∷ []

  -- The loop of `lmkd_pack_get_procs_prio`, over the records left, from `packetIdx` on.
  procs_at : List ℕ → ℕ → ℕ → List LmkProcprio
  unfolding word_at
  procs_at packet zero idx = []
  procs_at packet (suc n) idx =
      record {
        pid = word_at packet idx;
        uid = word_at packet (idx + 1);
        oomadj = word_at packet (idx + 2);
        ptype = word_at packet (idx + 3);
      }
      ∷ procs_at packet n (idx + 4)

  -- `none` is the result -1.
  unfoldable pub pack_get_procs_prio : List ℕ → ℕ → Option (List LmkProcprio)
  unfolding procs_at
  pack_get_procs_prio packet field_count =
      if ltb field_count procprio_field_count || not (field_count % procprio_field_count == 0)
      then none
      else some (procs_at packet (field_count / procprio_field_count) 1)

  procs_words : List LmkProcprio → List ℕ
  unfolding procprio_words
  procs_words [] = []
  procs_words (p ∷ ps) = procprio_words p (procs_words ps)

  unfoldable pub pack_set_procs_prio : List LmkProcprio → List ℕ
  unfolding header procs_words
  pack_set_procs_prio ps = header procs_prio ∷ procs_words ps

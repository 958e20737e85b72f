-- ===== src/Minfree.antt =====
-- The levels of free memory that the activity manager sets: `cmd_target` of lmkd.cpp, and the search
-- of `mp_event_common` among them. The strings that are published are left out but for their
-- lengths, since the loop stops when its buffer is full.
pub mod Levels
pub mod Reached
pub mod Ends
pub mod Safety
pub mod Scores
pub mod Vmpressure
use system_memory_lmkd.Base.{
  ℕ, zero, suc, ◌+◌, ◌-◌, ◌/◌, ◌^◌, Bool, true, false, ◌&&◌, ◌||◌, Option, none, some, List, [],
  ◌∷◌, ltb, leb, length, update, if◌then◌else◌,
}
use system_memory_lmkd.Base.Int.{ℤ, pos, negsuc, ◌+ℤ◌, ◌-ℤ◌, ◌<?◌}
use system_memory_lmkd.Memory.{Meminfo, nr_file_pages}
use system_memory_lmkd.Packet.{LmkTarget}
use system_memory_lmkd.Time.{Timespec, get_time_diff_ms}

-- `lowmem_minfree`, `lowmem_adj`, `lowmem_targets_size`, and the time of the last request.
pub record Targets : Type 0 where
  pub lowmem_minfree : ℕ → ℤ
  pub lowmem_adj : ℕ → ℤ
  pub lowmem_targets_size : ℕ
  pub last_req_tm : Timespec

abbrev pub max_targets : ℕ
max_targets = 6

-- TARGET_UPDATE_MIN_INTERVAL_MS
abbrev pub target_update_min_interval_ms : ℤ
target_update_min_interval_ms = pos 1000

-- PROPERTY_VALUE_MAX of the C library
abbrev pub property_value_max : ℕ
property_value_max = 92

-- The digits of a number below 10 ^ fuel.
unfoldable pub digit_count : ℕ → ℕ → ℕ
digit_count zero n = 0
digit_count (suc fuel) n = let rest = digit_count fuel (n / 10) in if ltb n 10 then 1 else 1 + rest

-- The length of "%d" for an `int`.
unfoldable pub int_length : ℤ → ℕ
int_length (pos n) = digit_count 10 n
int_length (negsuc n) = 1 + digit_count 10 (n + 1)

-- The length of "%d:%d,".
unfoldable pub target_length : LmkTarget → ℕ
target_length t = int_length t.minfree + 1 + int_length t.oom_adj_score + 1

-- The loop over the targets, from index `i` on, with the length written so far.
unfoldable pub store_targets : Targets → ℕ → ℕ → List LmkTarget → Targets
store_targets s i len [] = s
store_targets s i len (t ∷ ts) =
    let s' = record s {
      lowmem_minfree = update s.lowmem_minfree i t.minfree;
      lowmem_adj = update s.lowmem_adj i t.oom_adj_score;
    } in
    let rest = store_targets s' (i + 1) (len + target_length t) ts in
    if leb property_value_max (len + target_length t) then s' else rest

-- The targets of the packet, in their order; no clock for a clock that cannot be read.
unfoldable pub cmd_target : Targets → Option Timespec → List LmkTarget → Targets
cmd_target s clock ts = if ltb (length ts) 1 || ltb max_targets (length ts) then s else elim clock [
  | none ↦ s
  | some tm ↦
      if get_time_diff_ms s.last_req_tm tm <? target_update_min_interval_ms
      then s
      else record (store_targets (record s { last_req_tm = tm }) 0 0 ts) {
        lowmem_targets_size = length ts;
      }
]

-- The cache that can be given back.
unfoldable pub other_file : Meminfo → ℤ
other_file mi =
    let fixed = mi.shmem +ℤ mi.unevictable +ℤ mi.swap_cached in
    if fixed <? nr_file_pages mi
    then nr_file_pages mi -ℤ mi.shmem -ℤ mi.unevictable -ℤ mi.swap_cached
    else pos 0

unfoldable pub is_short : Targets → ℤ → ℤ → ℕ → Bool
is_short s free file i = free <? s.lowmem_minfree i && file <? s.lowmem_minfree i

-- `n` more targets from index `i` on; OOM_SCORE_ADJ_MAX + 1 if none of them is reached.
unfoldable pub search_targets : Targets → ℤ → ℤ → ℕ → ℕ → ℤ
search_targets s free file zero i = pos 1001
search_targets s free file (suc n) i =
    let rest = search_targets s free file n (i + 1) in
    if is_short s free file i then s.lowmem_adj i else rest

unfoldable pub minfree_score : Targets → ℤ → Meminfo → ℤ
minfree_score s totalreserve mi =
    search_targets s (mi.nr_free_pages -ℤ totalreserve) (other_file mi) s.lowmem_targets_size 0

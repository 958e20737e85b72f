-- ===== src/Memstat.antt =====
-- The statistics of a process's memory that statslog.cpp reads in front of a kill. They stand in one
-- static record, which each call changes and returns. What a file holds is an argument, `none` when it
-- cannot be read.
pub mod Reading
use system_memory_lmkd.Base.{
  ℕ, zero, suc, ◌/◌, Bool, true, false, not, Option, none, some, List, [], ◌∷◌, if◌then◌else◌, take,
}
use system_memory_lmkd.Base.Int.{ℤ, pos, ◌*ℤ◌}
use system_memory_lmkd.Cstring.{Bytes, same_text, text_lt, strtoll, scan_int, scan_word}
use system_memory_lmkd.Killreport.{MemoryStat}
use system_memory_lmkd.Procfs.{codes}
use system_memory_lmkd.Tasknames.{max_taskname_len}

-- What `sscanf` leaves of a line of a memory cgroup's statistics. The variables that it does not reach
-- keep what they held.
unfoldable pub scan_line : Bytes × ℤ → Bytes → Bytes × ℤ
scan_line old line = elim (scan_word line) [
  | none ↦ old
  | some (key, rest) ↦ elim (strtoll 10 rest) [
    | none ↦ (take max_taskname_len key, old.1)
    | some value ↦ (take max_taskname_len key, value)
  ]
]

unfoldable pub store_value : Bytes → ℤ → MemoryStat → MemoryStat
store_value key value s =
    if text_lt key (codes "total_")
    then s
    else if same_text key (codes "total_pgfault")
    then record s { pgfault = value }
    else if same_text key (codes "total_pgmajfault")
    then record s { pgmajfault = value }
    else if same_text key (codes "total_rss")
    then record s { rss_in_bytes = value }
    else if same_text key (codes "total_cache")
    then record s { cache_in_bytes = value }
    else if same_text key (codes "total_swap")
    then record s { swap_in_bytes = value }
    else s

-- What the stack held in front of the line, and the line.
unfoldable pub memory_stat_parse_line : (Bytes × ℤ) × Bytes → MemoryStat → MemoryStat
memory_stat_parse_line l s = let (key, value) = scan_line l.0 l.1 in store_value key value s

unfoldable pub parse_lines : List ((Bytes × ℤ) × Bytes) → MemoryStat → MemoryStat
parse_lines [] s = s
parse_lines (l ∷ ls) s = parse_lines ls (memory_stat_parse_line l s)

-- The result is whether it is 0.
unfoldable pub memory_stat_from_cgroup :
    Option (List ((Bytes × ℤ) × Bytes)) → MemoryStat → Bool × MemoryStat
memory_stat_from_cgroup none s = (false, s)
memory_stat_from_cgroup (some ls) s = (true, parse_lines ls s)

-- "%*d" so many times, and "%*s".
unfoldable pub skip_ints : ℕ → Option Bytes → Option Bytes
skip_ints n none = none
skip_ints zero (some cs) = some cs
skip_ints (suc n) (some cs) = elim (scan_int cs) [
  | none ↦ none
  | some (v, rest) ↦ skip_ints n (some rest)
]

unfoldable pub skip_word : Option Bytes → Option Bytes
skip_word none = none
skip_word (some cs) = elim (scan_word cs) [ none ↦ none | some (w, rest) ↦ some rest ]

unfoldable pub take_int : Option Bytes → Option (ℤ × Option Bytes)
take_int none = none
take_int (some cs) = elim (scan_int cs) [ none ↦ none | some (v, rest) ↦ some (v, some rest) ]

-- The fields behind pid, command and state: those of the page faults and the start time.
unfoldable pub stat_values : Option Bytes → Option (ℤ × ℤ × ℤ)
stat_values behind_state = elim (take_int (skip_ints 6 behind_state)) [
  | none ↦ none
  | some (pgfault, a) ↦ elim (take_int (skip_ints 1 a)) [
    | none ↦ none
    | some (pgmajfault, b) ↦ elim (take_int (skip_ints 9 b)) [
      | none ↦ none
      | some (starttime, c) ↦ some (pgfault, pgmajfault, starttime)
    ]
  ]
]

unfoldable pub scan_stat : Bytes → Option (ℤ × ℤ × ℤ)
scan_stat buffer = stat_values (skip_word (skip_word (skip_ints 1 (some buffer))))

-- `ticks` is the number of clock ticks in a second.
unfoldable pub with_values : ℕ → Option (ℤ × ℤ × ℤ) → MemoryStat → Bool × MemoryStat
with_values ticks none s = (false, s)
with_values ticks (some (pgfault, pgmajfault, starttime)) s = (
  true,
  record s {
    pgfault = pgfault;
    pgmajfault = pgmajfault;
    process_start_time_ns = starttime *ℤ pos (1000000000 / ticks);
  },
)

unfoldable pub memory_stat_from_procfs : ℕ → Option Bytes → MemoryStat → Bool × MemoryStat
memory_stat_from_procfs ticks none s = (false, s)
memory_stat_from_procfs ticks (some buffer) s = with_values ticks (scan_stat buffer) s

-- What the two files hold.
pub record Sources : Type 0 where
  pub cgroup : Option (List ((Bytes × ℤ) × Bytes))
  pub stat : Option Bytes

unfoldable pub read_procfs : ℕ → Sources → ℤ → ℤ → MemoryStat → MemoryStat × Option MemoryStat
read_procfs ticks f rss_bytes swap_bytes s =
    let (ok, t) = memory_stat_from_procfs ticks f.stat s in
    let u = record t { rss_in_bytes = rss_bytes; swap_in_bytes = swap_bytes } in
    if ok then (u, some u) else (t, none)

-- The static record afterwards, and the result.
unfoldable pub stats_read_memory_stat :
    Bool → Bool → ℕ → Sources → ℤ → ℤ → MemoryStat → MemoryStat × Option MemoryStat
stats_read_memory_stat enabled per_app_memcg ticks f rss_bytes swap_bytes s =
    let (ok, t) = memory_stat_from_cgroup f.cgroup s in
    if not enabled
    then (s, none)
    else if per_app_memcg
    then if ok then (t, some t) else read_procfs ticks f rss_bytes swap_bytes t
    else read_procfs ticks f rss_bytes swap_bytes s

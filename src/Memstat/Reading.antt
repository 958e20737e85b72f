-- ===== src/Memstat/Reading.antt =====
-- What a report can say of the memory: fields of an earlier process, and nothing for some commands.
use mathlib.Core.Option
use system_memory_lmkd.Base.{
  ℕ, ◌≤◌, ◌≡◌, refl, ap, ◌∙◌, Bool, true, false, Option, none, some, List, [], ◌∷◌, ◌++◌, arith,
  if◌then◌else◌, All,
}
use system_memory_lmkd.Base.Int.{ℤ}
use system_memory_lmkd.Cstring.{Bytes}
use system_memory_lmkd.Cstring.Numbers.{IsDigit}
use system_memory_lmkd.Cstring.Scans.{IsWord, scan_int-decimal, scan_word-word, scan_int-letter}
use system_memory_lmkd.Killreport.{MemoryStat}
use system_memory_lmkd.Memstat.{
  scan_line, store_value, memory_stat_parse_line, parse_lines, memory_stat_from_cgroup, skip_ints,
  skip_word, take_int, stat_values, scan_stat, with_values, memory_stat_from_procfs, read_procfs,
  stats_read_memory_stat,
}

-- A choice of two records with the same start time.
same_start :
    (b : Bool) (s t : MemoryStat) (v : ℤ)
    → s.process_start_time_ns ≡ v
    → t.process_start_time_ns ≡ v
    → (if b then s else t).process_start_time_ns ≡ v
same_start true s t v h k = h
same_start false s t v h k = k

store_value-start :
    (key : Bytes) (value : ℤ) (s : MemoryStat)
    → (store_value key value s).process_start_time_ns ≡ s.process_start_time_ns
unfolding store_value
store_value-start key value s = ground arith

parse_lines-start :
    (ls : List ((Bytes × ℤ) × Bytes)) (s : MemoryStat)
    → (parse_lines ls s).process_start_time_ns ≡ s.process_start_time_ns
unfolding parse_lines memory_stat_parse_line
parse_lines-start [] s = refl
parse_lines-start (l ∷ ls) s =
    let k = scan_line l.0 l.1 in
    parse_lines-start ls (store_value k.0 k.1 s) ∙ store_value-start k.0 k.1 s

-- With memory cgroups, whatever the lines of the process's file, the statistics that are returned have
-- the start time that the static record had before, which is that of another process or 0.
pub stats_read_memory_stat-stale :
    (ticks : ℕ) (ls : List ((Bytes × ℤ) × Bytes)) (stat : Option Bytes) (rss swap : ℤ)
    (s : MemoryStat)
    → Option.map
        (λ m. m.process_start_time_ns)
        (stats_read_memory_stat true true ticks
          (record { cgroup = some ls; stat = stat })
          rss
          swap
          s).1
      ≡ some s.process_start_time_ns
unfolding stats_read_memory_stat memory_stat_from_cgroup
stats_read_memory_stat-stale ticks ls stat rss swap s = ap some (parse_lines-start ls s)

stat_values-letter : (c : ℕ) (rest : Bytes) → 65 ≤ c → stat_values (some (32 ∷ c ∷ rest)) ≡ none
unfolding stat_values take_int skip_ints
stat_values-letter c rest h = rw (scan_int-letter c rest h, stat_values, skip_ints)

-- With statistics from /proc, a process whose command has a space in its first two words, in front of
-- the letter of its state or of a third word that begins with a letter, has none: the scan of its
-- stat file takes the second word for the state and fails, so that the static record stays as it is.
pub stats_read_memory_stat-spaced :
    (ticks d : ℕ) (ds : Bytes) (a : ℕ) (as' : Bytes) (b : ℕ) (bs : Bytes) (c : ℕ) (rest : Bytes)
    (cgroup : Option (List ((Bytes × ℤ) × Bytes))) (rss swap : ℤ) (s : MemoryStat)
    → All IsDigit (d ∷ ds)
    → IsWord (a ∷ as')
    → IsWord (b ∷ bs)
    → 65 ≤ c
    → stats_read_memory_stat true false ticks
        (record {
          cgroup = cgroup;
          stat = some (d ∷ (ds ++ 32 ∷ a ∷ (as' ++ 32 ∷ b ∷ (bs ++ 32 ∷ c ∷ rest))));
        })
        rss
        swap
        s
      ≡ (s, none)
unfolding stats_read_memory_stat read_procfs memory_stat_from_procfs scan_stat stat_values take_int
    skip_ints skip_word with_values
stats_read_memory_stat-spaced ticks d ds a as' b bs c rest cgroup rss swap s hd ha hb hc = rw (
  scan_int-decimal d ds (a ∷ (as' ++ 32 ∷ b ∷ (bs ++ 32 ∷ c ∷ rest))) hd,
  skip_ints,
  scan_word-word a as' (b ∷ (bs ++ 32 ∷ c ∷ rest)) ha,
  skip_word,
  scan_word-word b bs (c ∷ rest) hb,
  skip_word,
  stat_values-letter c rest hc,
)

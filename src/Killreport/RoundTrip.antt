-- ===== src/Killreport/RoundTrip.antt =====
-- The report read back.
use system_memory_lmkd.Base.{
  ℕ, ◌≡◌, refl, ◌∙◌, ap, true, Option, none, some, List, [], ◌∷◌, ◌++◌, arith, length, take, All,
}
use system_memory_lmkd.Base.Int.{ℤ, pos, negsuc, IsInt32, IsInt64}
use system_memory_lmkd.Cstring.{Bytes}
use system_memory_lmkd.Killreport.{
  Network, MemoryStat, KillStat, big_endian, reason_code, memory_values, kill_values,
  lmkd_pack_set_kill_occurred,
}
use system_memory_lmkd.Killreport.Layout.{sent, words32, words64, text, sent-pack}
use system_memory_lmkd.Killreport.Reader.{
  ◌>>=◌, read_int32, read_int64s, read_int32s, read_utf, read-int32, read-words32, read-words64,
  read-text,
}

-- What a reader makes of the report.
pub record Report : Type 0 where
  pub code : ℤ
  pub memory : MemoryStat
  pub uid : ℤ
  pub oom_score : ℤ
  pub min_oom_score : ℤ
  pub free_mem_kb : ℤ
  pub free_swap_kb : ℤ
  pub reason : ℤ
  pub thrashing : ℤ
  pub max_thrashing : ℤ
  pub taskname : Bytes

memory_of : List ℤ → Option MemoryStat
memory_of (a ∷ b ∷ c ∷ d ∷ e ∷ f ∷ []) = some (record {
  pgfault = a;
  pgmajfault = b;
  rss_in_bytes = c;
  cache_in_bytes = d;
  swap_in_bytes = e;
  process_start_time_ns = f;
})
memory_of other = none

report_of : ℤ → MemoryStat → Bytes → List ℤ → Option Report
report_of code m name (a ∷ b ∷ c ∷ d ∷ e ∷ f ∷ g ∷ h ∷ []) = some (record {
  code = code;
  memory = m;
  uid = a;
  oom_score = b;
  min_oom_score = c;
  free_mem_kb = d;
  free_swap_kb = e;
  reason = f;
  thrashing = g;
  max_thrashing = h;
  taskname = name;
})
report_of code m name other = none

-- So many numbers of each width and a text, and the bytes behind them.
read_values : ℕ → ℕ → Bytes → Option (List ℤ × List ℤ × Bytes × Bytes)
read_values m k cs = read_int64s m cs >>= λ r.
    read_int32s k r.1 >>= λ s. read_utf s.1 >>= λ t. some (r.0, s.0, t.0, t.1)

read_with : ℤ → Option (List ℤ × List ℤ × Bytes × Bytes) → Option (Report × Bytes)
read_with code values =
    values >>= λ v. memory_of v.0 >>= λ memory. report_of code memory v.2 v.1 >>= λ r. some (r, v.3)

-- The report, and the bytes behind it.
pub read_report : Bytes → Option (Report × Bytes)
read_report cs = read_int32 cs >>= λ c. read_with c.0 (read_values 6 8 c.1)

-- Without statistics of the memory every field of theirs is -1.
abbrev pub reported : Option MemoryStat → MemoryStat
reported (some m) = m
reported none = record {
  pgfault = negsuc 0;
  pgmajfault = negsuc 0;
  rss_in_bytes = negsuc 0;
  cache_in_bytes = negsuc 0;
  swap_in_bytes = negsuc 0;
  process_start_time_ns = negsuc 0;
}

abbrev pub told : KillStat → Option MemoryStat → Report
told kill mem = record {
  code = pos 8;
  memory = reported mem;
  uid = kill.uid;
  oom_score = kill.oom_score;
  min_oom_score = kill.min_oom_score;
  free_mem_kb = kill.free_mem_kb;
  free_swap_kb = kill.free_swap_kb;
  reason = reason_code kill.kill_reason;
  thrashing = kill.thrashing;
  max_thrashing = kill.max_thrashing;
  taskname = take 127 kill.taskname;
}

-- The fields have the width of their types, and the two amounts fit into an `int`.
pub record FitsKill (k : KillStat) : Type 0 where
  pub uid : IsInt32 k.uid
  pub oom_score : IsInt32 k.oom_score
  pub min_oom_score : IsInt32 k.min_oom_score
  pub free_mem_kb : IsInt32 k.free_mem_kb
  pub free_swap_kb : IsInt32 k.free_swap_kb
  pub reason : IsInt32 (reason_code k.kill_reason)
  pub thrashing : IsInt32 k.thrashing
  pub max_thrashing : IsInt32 k.max_thrashing

pub record FitsMemory (m : MemoryStat) : Type 0 where
  pub pgfault : IsInt64 m.pgfault
  pub pgmajfault : IsInt64 m.pgmajfault
  pub rss_in_bytes : IsInt64 m.rss_in_bytes
  pub cache_in_bytes : IsInt64 m.cache_in_bytes
  pub swap_in_bytes : IsInt64 m.swap_in_bytes
  pub process_start_time_ns : IsInt64 m.process_start_time_ns

read-values :
    (ms ks : List ℤ) (name : Bytes)
    → All IsInt64 ms
    → All IsInt32 ks
    → read_values (length ms) (length ks) (words64 ms ++ (words32 ks ++ text name))
      ≡ some (ms, ks, take 127 name, 0 ∷ [])
unfolding read_values
read-values ms ks name hm hk =
    rw
      (read-words64 ms (words32 ks ++ text name) hm, read-words32 ks (text name) hk, read-text name)

read-code : (cs : Bytes) → read_int32 (big_endian 4 8 ++ cs) ≡ some (pos 8, cs)
read-code cs = read-int32 (pos 8) cs (omega arith)

kill-fits : (kill : KillStat) → FitsKill kill → All IsInt32 (kill_values kill)
unfolding kill_values
kill-fits kill f = (
  f.uid,
  (
    f.oom_score,
    (
      f.min_oom_score,
      (f.free_mem_kb, (f.free_swap_kb, (f.reason, (f.thrashing, (f.max_thrashing, tt))))),
    ),
  ),
)

memory-fits : (m : MemoryStat) → FitsMemory m → All IsInt64 (memory_values (some m))
unfolding memory_values
memory-fits m f = (
  f.pgfault,
  (
    f.pgmajfault,
    (f.rss_in_bytes, (f.cache_in_bytes, (f.swap_in_bytes, (f.process_start_time_ns, tt)))),
  ),
)

memory-reported :
    (mem : Option MemoryStat) → memory_values mem ≡ memory_values (some (reported mem))
unfolding memory_values
memory-reported none = refl
memory-reported (some m) = refl

read-bytes :
    (kill : KillStat) (m : MemoryStat)
    → FitsKill kill
    → FitsMemory m
    → read_report (
        big_endian 4 8
        ++ (words64 (memory_values (some m)) ++ (words32 (kill_values kill) ++ text kill.taskname)))
      ≡ some (told kill (some m), 0 ∷ [])
unfolding read_report read_with memory_values kill_values memory_of report_of
read-bytes kill m fk fm =
    let ms = memory_values (some m) in
    let ks = kill_values kill in
    let rest = words64 ms ++ (words32 ks ++ text kill.taskname) in
    ap (λ (o : Option (ℤ × Bytes)). o >>= λ c. read_with c.0 (read_values 6 8 c.1)) (read-code rest)
    ∙ ap (read_with (pos 8))
        (read-values ms ks kill.taskname (memory-fits m fm) (kill-fits kill fk))

-- A reader gets back the report: the code of the packet, the statistics of the memory, or -1 in each
-- of their fields when there are none, the fields of the kill, and the first 127 bytes of the name,
-- with a single zero behind them. It does not depend on what the buffer held before. The fields are
-- as wide as their types, and the two amounts of memory fit into an `int`.
pub read-pack :
    (net : Network) (buffer : ℕ → ℕ) (kill : KillStat) (mem : Option MemoryStat)
    → FitsKill kill
    → FitsMemory (reported mem)
    → read_report (sent (lmkd_pack_set_kill_occurred net true buffer kill mem))
      ≡ some (told kill mem, 0 ∷ [])
read-pack net buffer kill mem fk fm =
    rw (sent-pack net buffer kill mem, memory-reported mem) (read-bytes kill (reported mem) fk fm)

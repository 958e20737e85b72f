-- ===== src/Killreport.antt =====
-- The report of a kill, statslog.cpp: the packet that `lmkd_pack_set_kill_occurred` fills, byte by
-- byte. `packet` is an array of bytes with the index behind what is packed. The byte order of the
-- machine and the C library's conversions are taken as a record.
pub mod Bounds
pub mod Layout
pub mod Reader
pub mod RoundTrip
use Prim.Native.Nat.{min}
use system_memory_lmkd.Base.{
  ℕ, zero, suc, ◌+◌, ◌-◌, ◌/◌, ◌%◌, ◌^◌, ◌<◌, ◌≡◌, Bool, Option, none, some, List, [], ◌∷◌, ◌++◌,
  if◌then◌else◌, update, length,
}
use system_memory_lmkd.Base.Int.{ℤ, pos, negsuc, to_word, to_word64}
use system_memory_lmkd.Packet.{stat_kill_occurred, cmd_code}
use system_memory_lmkd.Pressure.Decision.{
  KillReason, no_kill, pressure_after_kill, not_responding, low_swap_and_thrashing,
  low_mem_and_swap, low_mem_and_thrashing, direct_recl_and_thrashing, low_mem_and_swap_util,
  low_filecache_after_thrashing, low_mem, direct_recl_stuck, vendor_kill,
}
use system_memory_lmkd.Cstring.{Bytes}
use system_memory_lmkd.Tasknames.{max_taskname_len}

-- The bytes of a number below 256 ^ n, the most significant one first.
abbrev pub big_endian : ℕ → ℕ → Bytes
big_endian zero w = []
big_endian (suc n) w = big_endian n (w / 256) ++ (w % 256) ∷ []

-- `store` gives the bytes of a word in the order in which the machine puts them into memory.
pub record Network : Type 0 where
  pub htons : ℕ → ℕ
  pub htonl : ℕ → ℕ
  pub htonq : ℕ → ℕ
  pub store16 : ℕ → Bytes
  pub store32 : ℕ → Bytes
  pub store64 : ℕ → Bytes
  pub htons_lem : (w : ℕ) → w < 2 ^ 16 → store16 (htons w) ≡ big_endian 2 w
  pub htonl_lem : (w : ℕ) → w < 2 ^ 32 → store32 (htonl w) ≡ big_endian 4 w
  pub htonq_lem : (w : ℕ) → w < 2 ^ 64 → store64 (htonq w) ≡ big_endian 8 w

pub record MemoryStat : Type 0 where
  pub pgfault : ℤ
  pub pgmajfault : ℤ
  pub rss_in_bytes : ℤ
  pub cache_in_bytes : ℤ
  pub swap_in_bytes : ℤ
  pub process_start_time_ns : ℤ

pub record KillStat : Type 0 where
  pub uid : ℤ
  pub taskname : Bytes
  pub kill_reason : KillReason
  pub oom_score : ℤ
  pub min_oom_score : ℤ
  pub free_mem_kb : ℤ
  pub free_swap_kb : ℤ
  pub thrashing : ℤ
  pub max_thrashing : ℤ

-- The value of the enumerator; a vendor's reason stands with its base.
unfoldable pub reason_code : KillReason → ℤ
reason_code no_kill = negsuc 0
reason_code pressure_after_kill = pos 0
reason_code not_responding = pos 1
reason_code low_swap_and_thrashing = pos 2
reason_code low_mem_and_swap = pos 3
reason_code low_mem_and_thrashing = pos 4
reason_code direct_recl_and_thrashing = pos 5
reason_code low_mem_and_swap_util = pos 6
reason_code low_filecache_after_thrashing = pos 7
reason_code low_mem = pos 8
reason_code direct_recl_stuck = pos 9
reason_code (vendor_kill reason) = reason

pub record Packet : Type 0 where
  pub bytes : ℕ → ℕ
  pub index : ℕ

unfoldable pub write : (ℕ → ℕ) → ℕ → Bytes → ℕ → ℕ
write b i [] = b
write b i (c ∷ cs) = write (update b i c) (i + 1) cs

-- The bytes that `strncpy` writes: the text, then zeros, and no zero behind a text of this length.
unfoldable pub strncpy : ℕ → Bytes → Bytes
strncpy zero cs = []
strncpy (suc n) [] = 0 ∷ strncpy n []
strncpy (suc n) (c ∷ cs) = c ∷ strncpy n cs

unfoldable pub memory_values : Option MemoryStat → List ℤ
memory_values none = negsuc 0 ∷ negsuc 0 ∷ negsuc 0 ∷ negsuc 0 ∷ negsuc 0 ∷ negsuc 0 ∷ []
memory_values (some s) =
    s.pgfault ∷ s.pgmajfault ∷ s.rss_in_bytes ∷ s.cache_in_bytes ∷ s.swap_in_bytes
    ∷ s.process_start_time_ns ∷ []

unfoldable pub kill_values : KillStat → List ℤ
kill_values k =
    k.uid
    ∷ k.oom_score
    ∷ k.min_oom_score
    ∷ k.free_mem_kb
    ∷ k.free_swap_kb
    ∷ reason_code k.kill_reason
    ∷ k.thrashing
    ∷ k.max_thrashing
    ∷ []

module _ (net : Network) where
  unfoldable pub pack_int32 : Packet → ℤ → Packet
  pack_int32 p value = record {
    bytes = write p.bytes p.index (net.store32 (net.htonl (to_word value)));
    index = p.index + 4;
  }

  unfoldable pub pack_int64 : Packet → ℤ → Packet
  pack_int64 p value = record {
    bytes = write p.bytes p.index (net.store64 (net.htonq (to_word64 value)));
    index = p.index + 8;
  }

  unfoldable pub pack_string : Packet → Bytes → Packet
  pack_string p value =
      let len = min (length value) (max_taskname_len - 1) in
      let at = p.index + 2 in
      let b = write p.bytes p.index (net.store16 (net.htons len)) in
      let c = write b at (strncpy (max_taskname_len - 1) value) in
      record { bytes = update c (at + (max_taskname_len - 1)) 0; index = at + len + 1 }

  -- One value after the other.
  unfoldable pub pack_int32s : Packet → List ℤ → Packet
  pack_int32s p [] = p
  pack_int32s p (v ∷ vs) = pack_int32s (pack_int32 p v) vs

  unfoldable pub pack_int64s : Packet → List ℤ → Packet
  pack_int64s p [] = p
  pack_int64s p (v ∷ vs) = pack_int64s (pack_int64 p v) vs

  -- The result is the index. The buffer holds anything at first.
  unfoldable pub lmkd_pack_set_kill_occurred :
      Bool → (ℕ → ℕ) → KillStat → Option MemoryStat → Packet
  lmkd_pack_set_kill_occurred enabled buffer kill_stat mem_stat =
      let start : Packet = record { bytes = buffer; index = 0 } in
      let header = pack_int32 start (pos (cmd_code stat_kill_occurred)) in
      let with_memory = pack_int64s header (memory_values mem_stat) in
      let with_kill = pack_int32s with_memory (kill_values kill_stat) in
      if enabled then pack_string with_kill kill_stat.taskname else start

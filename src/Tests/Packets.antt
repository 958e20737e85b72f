-- ===== src/Tests/Packets.antt =====
-- Packets of include/lmkd.h on a little-endian machine.
use system_memory_lmkd.Base.{
  ℕ, ◌+◌, ◌*◌, ◌/◌, ◌%◌, ◌^◌, ◌<◌, ◌≡◌, refl, some, List, [], ◌∷◌, ◌++◌, length, arith,
}
use system_memory_lmkd.Base.Int.{pos, negsuc}
use system_memory_lmkd.Packet.{
  ByteOrder, target, procprio, getkillcnt, procs_prio, LmkTarget, LmkProcprio, LmkGetkillcnt,
  pack_get_cmd, pack_get_target, pack_set_target, pack_get_procprio, pack_set_procprio,
  pack_get_getkillcnt, pack_set_getkillcnt, pack_get_procs_prio, pack_set_procs_prio, proc_type_app,
  word,
}
use system_memory_lmkd.Packet.RoundTrip.{
  get-set_procprio, get-set_target, get-set_procs_prio, get-set_getkillcnt,
}

unfoldable pub swap32 : ℕ → ℕ
swap32 w =
    (w % 256) * 2 ^ 24 + (w / 256 % 256) * 2 ^ 16 + (w / 2 ^ 16 % 256) * 256 + w / 2 ^ 24 % 256

pub swap32_twice : (w : ℕ) → w < 2 ^ 32 → swap32 (swap32 w) ≡ w
unfolding swap32
swap32_twice w h = omega arith

abbrev pub little_endian : ByteOrder
little_endian = record { htonl = swap32; ntohl = swap32; ntohl-htonl = swap32_twice }

word_two : word little_endian (pos 2) ≡ 2 ^ 25
unfolding word swap32
word_two = refl

abbrev cached_app : LmkProcprio
cached_app = record { pid = pos 4711; uid = pos 10001; oomadj = pos 905; ptype = pos 0 }

abbrev native_service : LmkProcprio
native_service = record { pid = pos 12; uid = pos 1000; oomadj = negsuc 899; ptype = pos 1 }

abbrev stale : List ℕ
stale = 7 ∷ 8 ∷ []

service_read :
    (pack_get_cmd little_endian (pack_set_procprio little_endian native_service ++ stale)
      ≡ some procprio)
    × (pack_get_procprio little_endian (pack_set_procprio little_endian native_service ++ stale) 4
        ≡ native_service)
    × (pack_get_procprio little_endian (pack_set_procprio little_endian native_service ++ stale) 3
        ≡ record native_service { ptype = proc_type_app })
service_read = get-set_procprio little_endian native_service stale (omega arith)

abbrev foreground : LmkTarget
foreground = record { minfree = pos 18432; oom_adj_score = pos 0 }

abbrev background : LmkTarget
background = record { minfree = pos 64512; oom_adj_score = pos 900 }

second_target_read :
    (pack_get_cmd little_endian
        (pack_set_target little_endian (foreground ∷ background ∷ []) ++ stale)
      ≡ some target)
    × (pack_get_target little_endian
          (pack_set_target little_endian (foreground ∷ background ∷ []) ++ stale)
          1
        ≡ background)
second_target_read =
    get-set_target little_endian (foreground ∷ []) [] background stale (omega arith)

two_records_back :
    (pack_get_cmd little_endian
        (pack_set_procs_prio little_endian (cached_app ∷ native_service ∷ []) ++ stale)
      ≡ some procs_prio)
    × (length (pack_set_procs_prio little_endian (cached_app ∷ native_service ∷ [])) ≡ 9)
    × (pack_get_procs_prio little_endian
          (pack_set_procs_prio little_endian (cached_app ∷ native_service ∷ []) ++ stale)
          8
        ≡ some (cached_app ∷ native_service ∷ []))
two_records_back =
    get-set_procs_prio little_endian (cached_app ∷ native_service ∷ []) stale (omega arith)
      (omega arith)

abbrev cached_range : LmkGetkillcnt
cached_range = record { min_oomadj = pos 900; max_oomadj = pos 999 }

get-set_getkillcnt_example :
    (pack_get_cmd little_endian (pack_set_getkillcnt little_endian cached_range ++ stale)
      ≡ some getkillcnt)
    × (pack_get_getkillcnt little_endian (pack_set_getkillcnt little_endian cached_range ++ stale)
        ≡ cached_range)
get-set_getkillcnt_example =
    get-set_getkillcnt little_endian cached_range stale (omega arith) (omega arith)

-- ===== src/Procfs.antt =====
-- The parsers of /proc/meminfo, /proc/vmstat and /proc/<pid>/status in lmkd.cpp. Reading a file is a
-- parameter: its text, or nothing when `reread_file` fails.
pub mod Names
pub mod Fields
pub mod Status
pub mod Zoneinfo
use Prim.Native.String.{String}
use Prim.Native.Char.{code}
use mathlib.Core.Option
use system_memory_lmkd.Base.{
  ℕ, zero, suc, ◌+◌, ◌-◌, ◌*◌, Bool, true, false, ◌&&◌, ◌||◌, not, Option, none, some, List, [],
  ◌∷◌, ◌==◌, if◌then◌else◌, update, length,
}
use system_memory_lmkd.Base.Int.{ℤ, pos, negsuc, ◌+ℤ◌, ◌/ℤ◌}
use system_memory_lmkd.Memory.{Meminfo}
use system_memory_lmkd.Pressure.{Vmstat}
use system_memory_lmkd.Cstring.{Bytes, same_text, strtok, strtoll, skip}

-- The bytes of an ASCII text.
abbrev pub codes : String → Bytes
codes String.[] = []
codes (String.◌∷◌ c s) = code c ∷ codes s

-- A number that does not fit stops at the limits of `long long`, which is as wide as `int64_t`.
unfoldable pub parse_int64 : Bytes → Option ℤ
parse_int64 str = strtoll 10 str

-- The search from the index `i` on; `none` is -1.
unfoldable pub find_from : ℕ → Bytes → List Bytes → Option ℕ
find_from i name [] = none
find_from i name (f ∷ fs) = if same_text name f then some i else find_from (i + 1) name fs

unfoldable pub find_field : Bytes → List Bytes → Option ℕ
find_field name field_names = find_from 0 name field_names

pub data FieldMatch : Type 0 where
  no_match : FieldMatch
  parse_fail : ℕ → FieldMatch
  parse_success : ℕ → ℤ → FieldMatch

-- The index, and the value of a success, are the ones stored through the pointers.
unfoldable pub found_match : Option ℕ → Option ℤ → FieldMatch
found_match none v = no_match
found_match (some i) none = parse_fail i
found_match (some i) (some v) = parse_success i v

unfoldable pub match_field : Bytes → Bytes → List Bytes → FieldMatch
match_field cp ap field_names = found_match (find_field cp field_names) (parse_int64 ap)

-- The values of a union by their index.
abbrev pub Fields : Type 0
Fields = ℕ → ℤ

-- The first two words of a line.
unfoldable pub two_words : Bytes → Option (Bytes × Bytes)
two_words line = elim (strtok (32 ∷ []) line) [
  | none ↦ none
  | some (cp, rest) ↦ elim (strtok (32 ∷ []) rest) [ none ↦ none | some (ap, more) ↦ some (cp, ap) ]
]

-- What a match stores; `none` is a failure.
unfoldable pub store_match : (ℤ → ℤ) → Fields → FieldMatch → Option Fields
store_match scale fields no_match = some fields
store_match scale fields (parse_fail i) = none
store_match scale fields (parse_success i v) = some (update fields i (scale v))

unfoldable pub parse_line : List Bytes → (ℤ → ℤ) → Bytes → Fields → Option Fields
parse_line names scale line fields = elim (two_words line) [
  | none ↦ none
  | some (cp, ap) ↦ store_match scale fields (match_field cp ap names)
]

unfoldable pub meminfo_field_names : List Bytes
meminfo_field_names =
    codes "MemFree:"
    ∷ codes "Cached:"
    ∷ codes "SwapCached:"
    ∷ codes "Buffers:"
    ∷ codes "Shmem:"
    ∷ codes "Unevictable:"
    ∷ codes "SwapTotal:"
    ∷ codes "SwapFree:"
    ∷ codes "Active(anon):"
    ∷ codes "Inactive(anon):"
    ∷ codes "Active(file):"
    ∷ codes "Inactive(file):"
    ∷ codes "SReclaimable:"
    ∷ codes "SUnreclaim:"
    ∷ codes "KernelStack:"
    ∷ codes "PageTables:"
    ∷ codes "ION_heap:"
    ∷ codes "ION_heap_pool:"
    ∷ codes "CmaFree:"
    ∷ []

unfoldable pub vmstat_field_names : List Bytes
vmstat_field_names =
    codes "nr_free_pages"
    ∷ codes "nr_inactive_file"
    ∷ codes "nr_active_file"
    ∷ codes "workingset_refault"
    ∷ codes "workingset_refault_file"
    ∷ codes "pgscan_kswapd"
    ∷ codes "pgscan_direct"
    ∷ codes "pgscan_direct_throttle"
    ∷ codes "pgrefill"
    ∷ []

-- The amounts of the file are in kB; `page_k` is the size of a page in kB.
unfoldable pub meminfo_parse_line : ℕ → Bytes → Fields → Option Fields
meminfo_parse_line page_k = parse_line meminfo_field_names (λ v. v /ℤ pos page_k)

unfoldable pub vmstat_parse_line : Bytes → Fields → Option Fields
vmstat_parse_line = parse_line vmstat_field_names (λ v. v)

-- The lines of a text, which `strtok_r` finds one after the other: those that are not empty.
unfoldable pub lines_of : ℕ → Bytes → List Bytes
lines_of zero cs = []
lines_of (suc fuel) cs = elim (strtok (10 ∷ []) cs) [
  | none ↦ []
  | some (line, rest) ↦ line ∷ lines_of fuel rest
]

unfoldable pub parse_lines : (Bytes → Fields → Option Fields) → List Bytes → Fields → Option Fields
parse_lines f [] fields = some fields
parse_lines f (l ∷ ls) fields = elim (f l fields) [ none ↦ none | some g ↦ parse_lines f ls g ]

-- The whole file, with more fuel than it has bytes. `none` is -1.
unfoldable pub parse_file : (Bytes → Fields → Option Fields) → Option Bytes → Option Fields
parse_file f none = none
parse_file f (some buf) = parse_lines f (lines_of (suc (length buf)) buf) (λ i. pos 0)

-- The fields by their names.
unfoldable pub meminfo_of : Fields → Meminfo
meminfo_of arr = record {
  nr_free_pages = arr 0;
  cached = arr 1;
  swap_cached = arr 2;
  buffers = arr 3;
  shmem = arr 4;
  unevictable = arr 5;
  total_swap = arr 6;
  free_swap = arr 7;
  active_anon = arr 8;
  inactive_anon = arr 9;
  inactive_file = arr 11;
  cma_free = arr 18;
}

unfoldable pub vmstat_of : Fields → Vmstat
vmstat_of arr = record {
  nr_inactive_file = arr 1;
  nr_active_file = arr 2;
  workingset_refault = arr 3;
  workingset_refault_file = arr 4;
  pgscan_kswapd = arr 5;
  pgscan_direct = arr 6;
  pgrefill = arr 8;
}

unfoldable pub meminfo_parse : ℕ → Option Bytes → Option Meminfo
meminfo_parse page_k buf = Option.map meminfo_of (parse_file (meminfo_parse_line page_k) buf)

unfoldable pub vmstat_parse : Option Bytes → Option Vmstat
vmstat_parse buf = Option.map vmstat_of (parse_file vmstat_parse_line buf)

unfoldable pub begins : Bytes → Bytes → Bool
begins [] cs = true
begins (t ∷ ts) [] = false
begins (t ∷ ts) (c ∷ cs) = t == c && begins ts cs

-- `strstr`, with whether it found the tag at the start of the buffer or behind a newline; `front` says
-- so of the place where it starts.
unfoldable pub strstr : Bytes → Bool → Bytes → Option (Bool × Bytes)
strstr tag front [] = if begins tag [] then some (front, []) else none
strstr tag front (c ∷ cs) =
    if begins tag (c ∷ cs) then some (front, c ∷ cs) else strstr tag (c == 10) cs

-- `pos++` in front of the next round.
unfoldable pub next_place : Bytes → Bool × Bytes
next_place [] = (false, [])
next_place (c ∷ cs) = (c == 10, cs)

-- The loop ends when nothing is found or the tag stands at a line's front.
unfoldable pub resume : (Bool → Bytes → Option Bytes) → Option (Bool × Bytes) → Option Bytes
resume again none = none
resume again (some (true, found)) = some found
resume again (some (false, found)) = again (next_place found).0 (next_place found).1

unfoldable pub find_tag : ℕ → Bytes → Bool → Bytes → Option Bytes
find_tag zero tag front cs = none
find_tag (suc fuel) tag front cs = resume (find_tag fuel tag) (strstr tag front cs)

unfoldable pub drop : ℕ → Bytes → Bytes
drop zero cs = cs
drop (suc n) [] = []
drop (suc n) (c ∷ cs) = drop n cs

-- The number behind the tag and spaces.
unfoldable pub tag_value : Bytes → Option Bytes → Option ℤ
tag_value tag none = none
tag_value tag (some line) = parse_int64 (skip (λ c. c == 32) (drop (length tag) line))

unfoldable pub parse_status_tag : Bytes → Bytes → Option ℤ
parse_status_tag buf tag = tag_value tag (find_tag (suc (length buf)) tag true buf)

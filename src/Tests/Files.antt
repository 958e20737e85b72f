-- ===== src/Tests/Files.antt =====
-- Files of /proc and what the parsers make of them.
use system_memory_lmkd.Base.{◌&&◌, false, ℕ, ◌≡◌, refl, ap, true, some, List, [], ◌∷◌, ◌++◌, arith}
use system_memory_lmkd.Base.Int.{ℤ, pos, negsuc, ◌/ℤ◌}
use system_memory_lmkd.Memory.{Meminfo}
use system_memory_lmkd.Cstring.{
  Bytes, scan_int, same_text, skip, until, behind, strtok, strtoll, digits_value,
}
use system_memory_lmkd.Base.{◌+◌, zero, suc, ◌-◌, Bool-cases, inl, inr, leb, if◌then◌else◌}
use system_memory_lmkd.Reread.{
  read_doubling, after_read, read_all, read_from, add_read, store, Pread, Reader, Answers,
  reread_file,
}
use system_memory_lmkd.Reread.Whole.{slice, IsFile, IsRead, reread_file-whole}
use system_memory_lmkd.Procfs.{
  codes, meminfo_parse, parse_status_tag, begins, drop, parse_int64, find_field, find_from,
  match_field, found_match,
}
use system_memory_lmkd.Procfs.Fields.{Entry, IsEntry, text, meminfo_parse-text}
use system_memory_lmkd.Procfs.Status.{number, behind_tag, without, parse_status_tag-tagged}
use system_memory_lmkd.Procfs.Zoneinfo.{
  no_zone, zoneinfo_parse_protection, protect, zone_value, zoneinfo_parse_zone, zoneinfo_parse_node,
  parse_node, step_on, zone_line, zone_words, zone_field, zone_protection, zone_match, node_line,
  node_field, node_match, zoneinfo_zone_field_names, zoneinfo_zone_spec_field_names,
  zoneinfo_node_field_names,
}
use system_memory_lmkd.Procfs.Zoneinfo.Nodes.{
  overrun, Parsed, crashed, parsed, node_header, zoneinfo_parse_lines, walk, visit, marked, after,
  new_node, enter_node, enter_zone, open_node, close_node, next_index, is_new, end_file,
}
use system_memory_lmkd.Procfs.Zoneinfo.Walk.{Good, zoneinfo_parse_lines-Good}
use system_memory_lmkd.Procfs.Zoneinfo.Protection.{IsLargest, zoneinfo_parse_protection-IsLargest}

-- "MemFree:     7952 kB" and "Dirty: 8 kB"
abbrev mem_free : Entry
mem_free = record {
  initial = b'M';
  letters = codes "emFree:";
  spaces = 4;
  digit = b'7';
  digits = codes "952";
  unit = codes " kB";
}

abbrev dirty : Entry
dirty = record {
  initial = b'D';
  letters = codes "irty:";
  spaces = 0;
  digit = b'8';
  digits = [];
  unit = codes " kB";
}

mem_free-IsEntry : IsEntry mem_free
mem_free-IsEntry = record {
  name_plain = ground arith;
  all_digits = omega arith;
  set_off = refl;
  one_line = ground arith;
}

dirty-IsEntry : IsEntry dirty
dirty-IsEntry = record {
  name_plain = ground arith;
  all_digits = omega arith;
  set_off = refl;
  one_line = ground arith;
}

-- 7952 kB are 1988 pages of 4 kB.
abbrev found : Meminfo
found = record {
  nr_free_pages = pos 1988;
  cached = pos 0;
  swap_cached = pos 0;
  buffers = pos 0;
  shmem = pos 0;
  unevictable = pos 0;
  total_swap = pos 0;
  free_swap = pos 0;
  active_anon = pos 0;
  inactive_anon = pos 0;
  inactive_file = pos 0;
  cma_free = pos 0;
}

meminfo_parse-text_example : meminfo_parse 4 (some (text (mem_free ∷ dirty ∷ []))) ≡ some found
unfolding same_text ◌/ℤ◌
meminfo_parse-text_example =
    meminfo_parse-text 4 (mem_free ∷ dirty ∷ []) (mem_free-IsEntry, (dirty-IsEntry, tt))

-- A process whose name holds the tag.
abbrev status : Bytes
status = codes "Name:\tVmRSS:9" ++ 10 ∷ codes "VmRSS:    77 kB" ++ 10 ∷ []

parse_status_tag-tagged_example :
    parse_status_tag status (codes "VmRSS:") ≡ number (behind_tag (codes "VmRSS:") true status)
parse_status_tag-tagged_example = parse_status_tag-tagged status b'V' (codes "mRSS:")

resident : number (behind_tag (codes "VmRSS:") true status) ≡ some (pos 77)
unfolding behind_tag without strtoll skip digits_value
resident = refl

abbrev file : List Bytes
file =
    codes "Node 0, zone      DMA"
    ∷ codes "  per-node stats"
    ∷ codes "      nr_inactive_file 21"
    ∷ codes "      nr_active_file 34"
    ∷ codes "  pages free     3970"
    ∷ codes "        min      8"
    ∷ codes "        protection: (0, 2000, 7953)"
    ∷ codes "  pagesets"
    ∷ codes "Node 0, zone   Normal"
    ∷ []

zoneinfo_parse_lines-Good_example : Good 0 file (zoneinfo_parse_lines file)
zoneinfo_parse_lines-Good_example = zoneinfo_parse_lines-Good file

three_numbers :
    IsLargest
      (zoneinfo_parse_protection (codes "(0, 2000, 7953") no_zone).protection
      6
      (zoneinfo_parse_protection (codes "(0, 2000, 7953") no_zone).max_protection
three_numbers = zoneinfo_parse_protection-IsLargest (codes "(0, 2000, 7953") no_zone (λ j. refl)

-- The index of the zone after the only node, its number, and the low protection of its zone.
abbrev nodes_found : Parsed → ℕ
nodes_found (parsed nodes count) = count
nodes_found other = 0

abbrev protection_found : Parsed → ℤ
protection_found (parsed nodes count) = ((nodes 0).zones 0).max_protection
protection_found other = negsuc 0

abbrev whole : List Bytes
whole =
    codes "Node 0, zone      DMA"
    ∷ codes "  per-node stats"
    ∷ codes "      nr_inactive_file 21"
    ∷ codes "      nr_active_file 34"
    ∷ codes "  pages free     3970"
    ∷ codes "        protection: (0, 2000, 7953)"
    ∷ codes "  pagesets"
    ∷ codes "    cpu: 0"
    ∷ []

one_node :
    (nodes_found (zoneinfo_parse_lines whole) ≡ 1)
    × (protection_found (zoneinfo_parse_lines whole) ≡ pos 7953)
unfolding zoneinfo_parse_lines walk visit marked after new_node enter_node enter_zone open_node
    close_node next_index is_new end_file node_header begins drop strtoll strtok skip until behind
    digits_value zoneinfo_parse_node parse_node step_on node_line node_field node_match
    zoneinfo_parse_zone zone_line zone_words zone_field zone_protection zone_match
    zoneinfo_parse_protection protect zone_value zoneinfo_zone_field_names
    zoneinfo_zone_spec_field_names zoneinfo_node_field_names find_field find_from same_text
    match_field found_match parse_int64 scan_int
one_node = (refl, refl)

cut_short : zoneinfo_parse_lines (codes "Node 0, zone DMA" ∷ []) ≡ crashed
unfolding zoneinfo_parse_lines walk visit marked is_new node_header begins drop strtoll digits_value
    skip scan_int
cut_short = refl

-- A file of the ten letters from A on, of which a read gives three at most.
abbrev letters : ℕ → ℕ
letters i = 65 + i

abbrev got : ℕ → ℕ → ℕ
got offset max =
    if leb 10 offset
    then 0
    else if leb max (10 - offset) && leb max 3
    then max
    else if leb 3 (10 - offset)
    then 3
    else 10 - offset

abbrev short_reads : Pread
short_reads offset max = some (slice letters offset (got offset max))

some-slice :
    (offset max r : ℕ)
    → got offset max ≡ suc r
    → short_reads offset max ≡ some (slice letters offset (suc r))
some-slice offset max r e = ap (λ k. some (slice letters offset k)) e

short_reads-IsFile : IsFile 10 letters short_reads
short_reads-IsFile = record {
  inside = λ offset max h k. elim (Bool-cases (leb max (10 - offset) && leb max 3)) [
    | inl e ↦ (max - 1, some-slice offset max (max - 1) (ground arith), omega arith, ground arith)
    | inr e ↦ elim (Bool-cases (leb 3 (10 - offset))) [
      | inl l ↦ (2, some-slice offset max 2 (ground arith), ground arith, ground arith)
      | inr l ↦
          (9 - offset, some-slice offset max (9 - offset) (ground arith), ground arith, omega arith)
    ]
  ];
  at_end = λ offset max h k.
      let none_left : got offset max ≡ 0 = ground arith in
      ap (λ k. some (slice letters offset k)) none_left;
}

abbrev willing : Answers
willing = record { malloc_works = true; open_works = true; realloc_works = λ size. true }

abbrev closed : Reader
closed = record { buf = λ i. 255; buf_size = 4; allocated = false; is_open = false }

reread_file-whole_example : IsRead 10 letters closed (reread_file 3 short_reads willing closed)
reread_file-whole_example =
    reread_file-whole 10 letters short_reads short_reads-IsFile willing (λ size. refl) 2 closed refl
      refl (omega arith)

-- The last letter and the zero behind it.
tenth :
    ((reread_file 3 short_reads willing closed).0.buf 9 ≡ 74)
    × ((reread_file 3 short_reads willing closed).0.buf 10 ≡ 0)
unfolding reread_file read_doubling after_read read_all read_from add_read store
tenth = (refl, refl)

-- A header for each of seven zones of one node.
abbrev zones_of : ℕ → List Bytes
zones_of zero = []
zones_of (suc n) =
    codes "Node 0, zone Movable" ∷ codes "  pages free 1" ∷ codes "  pagesets" ∷ zones_of n

seventh_zone :
    zoneinfo_parse_lines (
      codes "Node 0, zone DMA"
      ∷ codes "  per-node stats"
      ∷ codes "      nr_inactive_file 21"
      ∷ codes "      nr_active_file 34"
      ∷ codes "  pagesets"
      ∷ zones_of 6)
    ≡ overrun
unfolding zoneinfo_parse_lines walk visit marked after new_node enter_node enter_zone open_node
    close_node next_index is_new end_file node_header begins drop strtoll strtok skip until behind
    digits_value zoneinfo_parse_node parse_node step_on node_line node_field node_match
    zoneinfo_parse_zone zone_line zone_words zone_field zone_protection zone_match
    zoneinfo_parse_protection protect zone_value zoneinfo_zone_field_names
    zoneinfo_zone_spec_field_names zoneinfo_node_field_names find_field find_from same_text
    match_field found_match parse_int64 scan_int
seventh_zone = refl

-- ===== src/Procfs/Zoneinfo/Nodes.antt =====
-- `zoneinfo_parse` of lmkd.cpp: the walk over the nodes and zones of the file, and the totals.
use system_memory_lmkd.Base.{
  ℕ, zero, suc, ◌+◌, Bool, true, false, ◌&&◌, not, Option, none, some, List, [], ◌∷◌, ◌==◌,
  if◌then◌else◌, update, length, leb,
}
use system_memory_lmkd.Base.Int.{ℤ, ◌==ℤ◌}
use system_memory_lmkd.Memory
use system_memory_lmkd.Cstring.{Bytes, skip, is_space, scan_int}
use system_memory_lmkd.Procfs.{codes, begins, drop, lines_of}
use system_memory_lmkd.Procfs.Zoneinfo.{
  Zone, Node, no_node, max_nr_nodes, max_nr_zones, zoneinfo_parse_zone, zoneinfo_parse_node,
}

-- `sscanf`: a literal part of the format, a space in it, "%d", and "%s".
literal : Bytes → Bytes → Option Bytes
literal t cs = if begins t cs then some (drop (length t) cs) else none

is_word : Bytes → Bool
is_word [] = false
is_word (c ∷ cs) = true

-- "Node %d, zone %4096s" with both conversions: the number of the node.
unfoldable pub node_header : Bytes → Option ℤ
unfolding literal is_word
node_header line = elim (literal (codes "Node") line) [
  | none ↦ none
  | some a ↦ elim (scan_int a) [
    | none ↦ none
    | some (id, b) ↦ elim (literal (codes ",") b) [
      | none ↦ none
      | some c ↦ elim (literal (codes "zone") (skip is_space c)) [
        | none ↦ none
        | some d ↦ if is_word (skip is_space d) then some id else none
      ]
    ]
  ]
]

-- The nodes, the current one's index and whether there is one, and the index of its zone.
pub record Cursor : Type 0 where
  pub nodes : ℕ → Node
  pub found : Bool
  pub node_idx : ℕ
  pub zone_idx : ℕ

-- `crashed` is a read through a null pointer, and `overrun` a zone behind the array of its node.
pub data Parsed : Type 0 where
  failed crashed overrun unfinished : Parsed
  parsed : (ℕ → Node) → ℕ → Parsed

unfoldable pub close_node : Cursor → ℕ → Node
close_node s =
    let n = s.nodes s.node_idx in
    if s.found
    then update s.nodes s.node_idx (record n { zone_count = s.zone_idx + 1 })
    else s.nodes

-- The end of the file: the nodes and their number.
unfoldable pub end_file : Cursor → Parsed
end_file s = if s.found then parsed (close_node s) (s.node_idx + 1) else failed

-- The next node, of index `i`.
unfoldable pub open_node : Cursor → ℤ → ℕ → Cursor
open_node s id i = record {
  nodes = update (close_node s) i (record (close_node s i) { id = id });
  found = true;
  node_idx = i;
  zone_idx = 0;
}

unfoldable pub next_index : Cursor → ℕ
next_index s = if s.found then s.node_idx + 1 else 0

-- `!node || node->id != node_id`
unfoldable pub is_new : Cursor → ℤ → Bool
is_new s id = if s.found then not ((s.nodes s.node_idx).id ==ℤ id) else true

-- What the parsers of a node and of a zone leave: the cursor and the lines behind them, an error, or
-- a place behind the array `zones`.
pub data Entry : Type 0 where
  entered : Cursor → List Bytes → Entry
  rejected beyond : Entry

-- The zone's fields are parsed where the cursor stands. The source does not check the place.
unfoldable pub enter_zone : Cursor → List Bytes → Entry
enter_zone s ls =
    let n = s.nodes s.node_idx in
    let (ok, z, rest) = zoneinfo_parse_zone ls (n.zones s.zone_idx) in
    let m = record n { zones = update n.zones s.zone_idx z } in
    if leb max_nr_zones s.zone_idx
    then beyond
    else if ok
    then entered (record s { nodes = update s.nodes s.node_idx m }) rest
    else rejected

unfoldable pub enter_node : Cursor → List Bytes → Entry
enter_node s ls =
    let (ok, n, rest) = zoneinfo_parse_node ls (s.nodes s.node_idx) in
    let zones = enter_zone (record s { nodes = update s.nodes s.node_idx n }) rest in
    if ok then zones else rejected

unfoldable pub new_node : Cursor → ℤ → List Bytes → Entry
new_node s id ls =
    let i = next_index s in
    if s.found && i == max_nr_nodes then rejected else enter_node (open_node s id i) ls

unfoldable pub after : (Cursor → List Bytes → Parsed) → Entry → Parsed
after again rejected = failed
after again beyond = overrun
after again (entered s ls) = again s ls

-- The line behind a new node's first one; the last line has none behind it.
unfoldable pub marked : (Cursor → List Bytes → Parsed) → Cursor → ℤ → List Bytes → Parsed
marked again s id [] = crashed
marked again s id (line ∷ ls) =
    if begins (codes "  per-node stats") line then after again (new_node s id ls) else again s ls

unfoldable pub visit : (Cursor → List Bytes → Parsed) → Cursor → List Bytes → Option ℤ → Parsed
visit again s ls none = again s ls
visit again s ls (some id) =
    if is_new s id
    then marked again s id ls
    else after again (enter_zone (record s { zone_idx = s.zone_idx + 1 }) ls)

unfoldable pub walk : ℕ → Cursor → List Bytes → Parsed
walk zero s ls = unfinished
walk (suc fuel) s [] = end_file s
walk (suc fuel) s (line ∷ ls) = visit (walk fuel) s ls (node_header line)

abbrev pub start : Cursor
start = record { nodes = λ i. no_node; found = false; node_idx = 0; zone_idx = 0 }

-- As many rounds as there are lines, and one for the end.
unfoldable pub zoneinfo_parse_lines : List Bytes → Parsed
zoneinfo_parse_lines ls = walk (suc (length ls)) start ls

unfoldable pub zoneinfo_parse : Option Bytes → Parsed
zoneinfo_parse none = failed
zoneinfo_parse (some buf) = zoneinfo_parse_lines (lines_of (suc (length buf)) buf)

-- What the watermarks are computed from.
unfoldable pub zone_of : Zone → Memory.Zone
zone_of z = record {
  min = z.fields 1;
  low = z.fields 2;
  high = z.fields 3;
  present = z.fields 4;
  max_protection = z.max_protection;
}

-- The first `count` zones or nodes of an array, from the index `i` on.
unfoldable pub zones_from : (ℕ → Zone) → ℕ → ℕ → List Memory.Zone
zones_from zones i zero = []
zones_from zones i (suc count) = zone_of (zones i) ∷ zones_from zones (i + 1) count

unfoldable pub nodes_from : (ℕ → Node) → ℕ → ℕ → List Memory.Node
nodes_from nodes i zero = []
nodes_from nodes i (suc count) =
    let n = nodes i in
    record {
      zones = zones_from n.zones 0 n.zone_count;
      nr_inactive_file = n.fields 0;
      nr_active_file = n.fields 1;
    }
    ∷ nodes_from nodes (i + 1) count

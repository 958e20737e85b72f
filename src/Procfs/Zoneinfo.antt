-- ===== src/Procfs/Zoneinfo.antt =====
-- The parser of /proc/zoneinfo in lmkd.cpp. All its calls of `strtok_r` with a newline share one saved
-- pointer: it is the list of the lines that are left. The arrays are functions of an index; a zone's
-- index is not checked in the source, which has room for six zones of a node.
pub mod Nodes
pub mod Protection
pub mod Lines
pub mod Walk
use system_memory_lmkd.Base.{
  ℕ, zero, suc, ◌+◌, ◌-◌, Bool, true, false, ◌&&◌, ◌||◌, not, Option, none, some, List, [], ◌∷◌,
  ◌==◌, ltb, leb, if◌then◌else◌, update, length,
}
use system_memory_lmkd.Base.Int.{ℤ, pos, negsuc, ◌+ℤ◌, ◌<?◌, ◌==ℤ◌}
use system_memory_lmkd.Memory
use system_memory_lmkd.Cstring.{Bytes, strtok, strtoll, skip, is_space}
use system_memory_lmkd.Procfs.{
  codes, Fields, FieldMatch, no_match, parse_fail, parse_success, find_field, match_field, begins,
  drop, lines_of,
}

unfoldable pub zoneinfo_zone_field_names : List Bytes
zoneinfo_zone_field_names =
    codes "nr_free_pages"
    ∷ codes "min"
    ∷ codes "low"
    ∷ codes "high"
    ∷ codes "present"
    ∷ codes "nr_free_cma"
    ∷ []

unfoldable pub zoneinfo_zone_spec_field_names : List Bytes
zoneinfo_zone_spec_field_names = codes "protection:" ∷ codes "pagesets" ∷ []

unfoldable pub zoneinfo_node_field_names : List Bytes
zoneinfo_node_field_names = codes "nr_inactive_file" ∷ codes "nr_active_file" ∷ []

abbrev pub max_nr_zones : ℕ
max_nr_zones = 6

abbrev pub max_nr_nodes : ℕ
max_nr_nodes = 2

pub record Zone : Type 0 where
  pub fields : Fields
  pub protection : ℕ → ℤ
  pub max_protection : ℤ

pub record Node : Type 0 where
  pub id : ℤ
  pub zone_count : ℕ
  pub zones : ℕ → Zone
  pub fields : Fields

-- What `memset` leaves.
abbrev pub no_zone : Zone
no_zone = record { fields = λ i. pos 0; protection = λ i. pos 0; max_protection = pos 0 }

abbrev pub no_node : Node
no_node = record { id = pos 0; zone_count = 0; zones = λ i. no_zone; fields = λ i. pos 0 }

-- `strtoll(buf, &buf, 0)`, which gives 0 where it finds no number.
unfoldable pub zone_value : Bytes → ℤ
zone_value token = elim (strtoll 0 token) [ none ↦ pos 0 | some v ↦ v ]

-- The rounds left, the index and the maximum so far.
unfoldable pub protect : ℕ → ℕ → ℤ → Option (Bytes × Bytes) → Zone → Zone
protect zero i max token zone = record zone { max_protection = max }
protect (suc rounds) i max none zone = record zone { max_protection = max }
protect (suc rounds) i max (some (token, rest)) zone =
    let v = zone_value token in
    protect rounds (i + 1) (if max <? v then v else max) (strtok (codes "), ") rest)
      (record zone { protection = update zone.protection i v })

unfoldable pub zoneinfo_parse_protection : Bytes → Zone → Zone
zoneinfo_parse_protection buf = protect max_nr_zones 0 (pos 0) (strtok (codes "(), ") buf)

-- A loop over lines goes on, or returns a result.
pub data Step (S : Type 0) : Type 0 where
  go_on : S → Step S
  returns : Bool → S → Step S

-- The next round, or the end.
unfoldable pub step_on {ℓ} : {S : Type 0} {R : Type ℓ} → (S → R) → (Bool → S → R) → Step S → R
step_on again done (go_on s) = again s
step_on again done (returns ok s) = done ok s

unfoldable pub zone_match : Zone → FieldMatch → Step Zone
zone_match zone no_match = go_on zone
zone_match zone (parse_fail i) = returns false zone
zone_match zone (parse_success i v) =
    let z = record zone { fields = update zone.fields i v } in
    if i == 4 && v ==ℤ pos 0 then returns true z else go_on z

unfoldable pub zone_field : Zone → Bytes → Option (Bytes × Bytes) → Step Zone
zone_field zone cp none = go_on zone
zone_field zone cp (some (ap, rest)) = zone_match zone (match_field cp ap zoneinfo_zone_field_names)

unfoldable pub zone_protection : Zone → Option (Bytes × Bytes) → Step Zone
zone_protection zone none = go_on zone
zone_protection zone (some (ap, rest)) = go_on (zoneinfo_parse_protection ap zone)

unfoldable pub zone_words : Zone → Option (Bytes × Bytes) → Step Zone
zone_words zone none = returns false zone
zone_words zone (some (cp, rest)) = elim (find_field cp zoneinfo_zone_spec_field_names) [
  | some i ↦ if i == 1 then returns true zone else zone_protection zone (strtok (codes ")") rest)
  | none ↦ zone_field zone cp (strtok (codes " ") rest)
]

unfoldable pub zone_line : Zone → Bytes → Step Zone
zone_line zone line = zone_words zone (strtok (codes " ") line)

-- The result, what was stored, and the lines that are left.
unfoldable pub zoneinfo_parse_zone : List Bytes → Zone → Bool × Zone × List Bytes
zoneinfo_parse_zone [] zone = (false, zone, [])
zoneinfo_parse_zone (line ∷ ls) zone =
    step_on (zoneinfo_parse_zone ls) (λ ok z. (ok, z, ls)) (zone_line zone line)

-- The fields that are still to be matched, and the node's fields.
unfoldable pub node_match : ℕ → Fields → FieldMatch → Step (ℕ × Fields)
node_match left fields no_match = go_on (left, fields)
node_match left fields (parse_fail i) = returns false (left, fields)
node_match left fields (parse_success i v) =
    let s : ℕ × Fields = (left - 1, update fields i v) in
    if left - 1 == 0 then returns true s else go_on s

unfoldable pub node_field : ℕ → Fields → Bytes → Option (Bytes × Bytes) → Step (ℕ × Fields)
node_field left fields cp none = returns false (left, fields)
node_field left fields cp (some (ap, rest)) =
    node_match left fields (match_field cp ap zoneinfo_node_field_names)

unfoldable pub node_line : ℕ → Fields → Bytes → Step (ℕ × Fields)
node_line left fields line = elim (strtok (codes " ") line) [
  | none ↦ returns false (left, fields)
  | some (cp, rest) ↦ node_field left fields cp (strtok (codes " ") rest)
]

unfoldable pub parse_node : List Bytes → ℕ × Fields → Bool × Fields × List Bytes
parse_node [] s = (false, s.1, [])
parse_node (line ∷ ls) s = step_on (parse_node ls) (λ ok t. (ok, t.1, ls)) (node_line s.0 s.1 line)

unfoldable pub zoneinfo_parse_node : List Bytes → Node → Bool × Node × List Bytes
zoneinfo_parse_node ls node =
    let (ok, fields, rest) = parse_node ls (2, node.fields) in
    (ok, record node { fields = fields }, rest)

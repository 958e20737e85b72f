-- ===== src/Procfs/Zoneinfo/Lines.antt =====
-- The lines of /proc/zoneinfo that a parser leaves: an end of those it was given.
use system_memory_lmkd.Base.{ℕ, ◌+◌, ◌≤◌, Bool, Option, none, some, List, [], ◌∷◌, arith, length}
use system_memory_lmkd.Base.Int.{ℤ}
use system_memory_lmkd.Cstring.{Bytes}
use system_memory_lmkd.Procfs.{Fields}
use system_memory_lmkd.Procfs.Zoneinfo.{
  Zone, Step, go_on, returns, step_on, zone_line, node_line, zoneinfo_parse_zone, parse_node,
}
use system_memory_lmkd.Procfs.Zoneinfo.Nodes.{node_header}

pub data Suffix : List Bytes → List Bytes → Type 0 where
  same : {ls : List Bytes} → Suffix ls ls
  later : {l : Bytes} {rest ls : List Bytes} → Suffix rest ls → Suffix rest (l ∷ ls)

-- How many lines are the first one of a zone.
abbrev pub is_header : Option ℤ → ℕ
is_header none = 0
is_header (some id) = 1

abbrev pub headers : List Bytes → ℕ
headers [] = 0
headers (l ∷ ls) = is_header (node_header l) + headers ls

pub Suffix-trans : {a b c : List Bytes} → Suffix a b → Suffix b c → Suffix a c
Suffix-trans p same = p
Suffix-trans p (later q) = later (Suffix-trans p q)

pub Suffix-length : {a b : List Bytes} → Suffix a b → length a ≤ length b
Suffix-length same = omega arith
Suffix-length (later p) = omega (arith, Suffix-length p)

pub Suffix-headers : {a b : List Bytes} → Suffix a b → headers a ≤ headers b
Suffix-headers same = omega arith
Suffix-headers (later p) = omega (arith, Suffix-headers p)

zone-step :
    (ls : List Bytes) (again : Zone → Bool × Zone × List Bytes)
    → ((z : Zone) → Suffix (again z).2 ls)
    → {l : Bytes} (s : Step Zone) → Suffix (step_on again (λ ok z. (ok, z, ls)) s).2 (l ∷ ls)
unfolding step_on
zone-step ls again h (go_on z) = later (h z)
zone-step ls again h (returns ok z) = later same

node-step :
    (ls : List Bytes) (again : ℕ × Fields → Bool × Fields × List Bytes)
    → ((s : ℕ × Fields) → Suffix (again s).2 ls)
    → {l : Bytes} (s : Step (ℕ × Fields))
    → Suffix (step_on again (λ ok t. (ok, t.1, ls)) s).2 (l ∷ ls)
unfolding step_on
node-step ls again h (go_on s) = later (h s)
node-step ls again h (returns ok s) = later same

pub zone-Suffix : (ls : List Bytes) (zone : Zone) → Suffix (zoneinfo_parse_zone ls zone).2 ls
unfolding zoneinfo_parse_zone step_on
zone-Suffix [] zone = same
zone-Suffix (l ∷ ls) zone =
    zone-step ls (zoneinfo_parse_zone ls) (zone-Suffix ls) (zone_line zone l)

pub node-Suffix : (ls : List Bytes) (s : ℕ × Fields) → Suffix (parse_node ls s).2 ls
unfolding parse_node step_on
node-Suffix [] s = same
node-Suffix (l ∷ ls) s = node-step ls (parse_node ls) (node-Suffix ls) (node_line s.0 s.1 l)

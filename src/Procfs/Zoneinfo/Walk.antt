-- ===== src/Procfs/Zoneinfo/Walk.antt =====
-- The walk over /proc/zoneinfo ends, keeps its nodes in the array, and crashes only at a last line or
-- a seventh zone.
use system_memory_lmkd.Procfs.Zoneinfo.Lines.{
  Suffix, same, later, is_header, headers, Suffix-trans, Suffix-length, Suffix-headers, zone-Suffix,
  node-Suffix,
}
use system_memory_lmkd.Base.{
  true, leb, ap, if◌then◌else◌, ℕ, zero, suc, ◌+◌, ◌<◌, ◌≤◌, ◌≡◌, refl, false, ◌&&◌, Option, none,
  some, List, [], ◌∷◌, arith, ◌==◌, length, update, Bool-cases, inl, inr,
}
use system_memory_lmkd.Base.Int.{ℤ}
use system_memory_lmkd.Cstring.{Bytes}
use system_memory_lmkd.Procfs.{begins, codes}
use system_memory_lmkd.Procfs.Zoneinfo.{zoneinfo_parse_zone, zoneinfo_parse_node}
use system_memory_lmkd.Procfs.Zoneinfo.Nodes.{
  Entry, entered, rejected, beyond, overrun, Cursor, Parsed, failed, crashed, unfinished, parsed,
  node_header, close_node, end_file, open_node, next_index, is_new, enter_zone, enter_node,
  new_node, after, marked, visit, walk, start, zoneinfo_parse_lines,
}

-- The last line is the first one of a zone.
abbrev pub EndsInHeader : List Bytes → Type 0
EndsInHeader [] = ⊥
EndsInHeader (l ∷ []) = (id : ℤ) × (node_header l ≡ some id)
EndsInHeader (l ∷ m ∷ ls) = EndsInHeader (m ∷ ls)

-- From one zone to six.
abbrev pub IsCount : ℕ → Type 0
IsCount n = (1 ≤ n) × (n ≤ 6)

-- Behind so many headers: one node or two, each with one to six zones; a crash at a header without a
-- line behind it, and one at the seventh header or later.
abbrev pub Good : ℕ → List Bytes → Parsed → Type 0
Good past ls failed = Unit
Good past ls unfinished = ⊥
Good past ls crashed = EndsInHeader ls
Good past ls overrun = 7 ≤ past + headers ls
Good past ls (parsed nodes count) =
    (1 ≤ count) × (count ≤ 2) × ((i : ℕ) → i < count → IsCount (nodes i).zone_count)

ends-cons : (l : Bytes) (ls : List Bytes) → EndsInHeader ls → EndsInHeader (l ∷ ls)
ends-cons l [] h = absurd h
ends-cons l (m ∷ ls) h = h

ends-Suffix : {a b : List Bytes} → Suffix a b → EndsInHeader a → EndsInHeader b
ends-Suffix same h = h
ends-Suffix (later {l} {ls = b} p) h = ends-cons l b (ends-Suffix p h)

Good-Suffix :
    (past past' : ℕ) (a b : List Bytes)
    → Suffix a b
    → past + headers a ≤ past' + headers b
    → (r : Parsed) → Good past a r
    → Good past' b r
Good-Suffix past past' a b p l failed h = h
Good-Suffix past past' a b p l unfinished h = h
Good-Suffix past past' a b p l crashed h = ends-Suffix p h
Good-Suffix past past' a b p l overrun h = omega (arith, l, h)
Good-Suffix past past' a b p l (parsed nodes count) h = h

-- Behind so many headers: the cursor's node is in the array, the nodes in front of it have their
-- zones, and the cursor's zone had a header of its own.
record Fine (past : ℕ) (s : Cursor) : Type 0 where
  within : s.node_idx < 2
  counted : (i : ℕ) → i < s.node_idx → IsCount (s.nodes i).zone_count
  fresh : s.found ≡ false → s.node_idx ≡ 0
  tallied : s.zone_idx + (if s.found then 1 else 0) ≤ past

-- A cursor that stands in the arrays.
abbrev Inside : ℕ → Cursor → Type 0
Inside past s = Fine past s × (s.zone_idx < 6)

abbrev Entered : ℕ → List Bytes → Entry → Type 0
Entered past ls rejected = Unit
Entered past ls beyond = 7 ≤ past
Entered past ls (entered s rest) = Inside past s × Suffix rest ls

enter_zone-Entered :
    (past : ℕ) (s : Cursor) (ls : List Bytes)
    → Fine past s
    → s.found ≡ true
    → Entered past ls (enter_zone s ls)
unfolding enter_zone
enter_zone-Entered past s ls f there =
    let n = s.nodes s.node_idx in
    let r = zoneinfo_parse_zone ls (n.zones s.zone_idx) in
    elim (Bool-cases (leb 6 s.zone_idx)) [
      | inl l ↦ rw (l, enter_zone) (ground (arith, l, there, f.tallied))
      | inr l ↦ elim (Bool-cases r.0) [
        | inl e ↦
            rw (l, e, enter_zone)
              (
                (
                  record {
                    within = f.within;
                    counted = λ i h. ground (arith, f.counted i);
                    fresh = f.fresh;
                    tallied = f.tallied;
                  },
                  ground (arith, l),
                ),
                zone-Suffix ls (n.zones s.zone_idx),
              )
        | inr e ↦ rw (l, e, enter_zone) tt
      ]
    ]

Entered-Suffix :
    (past : ℕ) (a b : List Bytes) (o : Entry) → Suffix a b → Entered past a o → Entered past b o
Entered-Suffix past a b rejected p h = tt
Entered-Suffix past a b beyond p h = h
Entered-Suffix past a b (entered s rest) p h = (h.0, Suffix-trans h.1 p)

enter_node-Entered :
    (past : ℕ) (s : Cursor) (ls : List Bytes)
    → Fine past s
    → s.found ≡ true
    → Entered past ls (enter_node s ls)
unfolding enter_node zoneinfo_parse_node
enter_node-Entered past s ls f there =
    let n = s.nodes s.node_idx in
    let r = zoneinfo_parse_node ls n in
    let t : Cursor = record s { nodes = update s.nodes s.node_idx r.1 } in
    let ft : Fine past t = record {
      within = f.within;
      counted = λ i h. ground (arith, f.counted i);
      fresh = f.fresh;
      tallied = f.tallied;
    } in
    elim (Bool-cases r.0) [
      | inl e ↦
          rw (e, enter_node)
            (Entered-Suffix past r.2 ls (enter_zone t r.2) (node-Suffix ls (2, n.fields))
              (enter_zone-Entered past t r.2 ft there))
      | inr e ↦ rw (e, enter_node) tt
    ]

open_node-Fine :
    (past : ℕ) (s : Cursor) (id : ℤ)
    → Inside past s
    → (s.found && next_index s == 2) ≡ false
    → Fine (past + 1) (open_node s id (next_index s))
unfolding open_node next_index close_node
open_node-Fine past s id (f, bounded) h = record {
  within = ground (arith, f.within, f.fresh);
  counted = λ i l. ground (arith, f.counted i, f.fresh, bounded);
  fresh = λ e. ground arith;
  tallied = omega arith;
}

new_node-Entered :
    (past : ℕ) (s : Cursor) (id : ℤ) (ls : List Bytes)
    → Inside past s
    → Entered (past + 1) ls (new_node s id ls)
unfolding new_node
new_node-Entered past s id ls f = elim (Bool-cases (s.found && next_index s == 2)) [
  | inl e ↦ rw (e, new_node) tt
  | inr e ↦
      rw (e, new_node)
        (enter_node-Entered (past + 1) (open_node s id (next_index s)) ls
          (open_node-Fine past s id f e) (unfold open_node in refl))
]

-- The rounds that are left are good on fewer lines.
abbrev Goes : (Cursor → List Bytes → Parsed) → List Bytes → Type 0
Goes again ls =
    (past : ℕ) (s : Cursor) (rest : List Bytes)
    → Inside past s
    → length rest ≤ length ls
    → Good past rest (again s rest)

after-Good :
    (again : Cursor → List Bytes → Parsed) (past : ℕ) (ls : List Bytes) (o : Entry)
    → Entered past ls o
    → Goes again ls
    → Good past ls (after again o)
unfolding after
after-Good again past ls rejected h g = tt
after-Good again past ls beyond h g = omega (arith, h)
after-Good again past ls (entered s rest) h g =
    Good-Suffix past past rest ls h.1 (omega (arith, Suffix-headers h.1)) (again s rest)
      (g past s rest h.0 (Suffix-length h.1))

end_file-Good : (past : ℕ) (s : Cursor) → Inside past s → Good past [] (end_file s)
unfolding end_file close_node
end_file-Good past s (f, bounded) = elim (Bool-cases s.found) [
  | inl e ↦
      rw e (omega arith, ground (arith, f.within), λ i l. ground (arith, f.counted i, bounded))
  | inr e ↦ rw e tt
]

module _ (again : Cursor → List Bytes → Parsed) (past : ℕ) (s : Cursor) (f : Inside past s) where
  marked-Good :
      (l : Bytes) (id : ℤ) (ls : List Bytes)
      → node_header l ≡ some id
      → Goes again ls
      → Good past (l ∷ ls) (marked again s id ls)
  unfolding marked
  marked-Good l id [] e g = (id, e)
  marked-Good l id (m ∷ ls) e g =
      let p : Suffix ls (l ∷ m ∷ ls) = later (later same) in
      let header : is_header (node_header l) ≡ 1 = ap is_header e in
      elim (Bool-cases (begins (codes "  per-node stats") m)) [
        | inl b ↦
            rw (b, marked)
              (Good-Suffix (past + 1) past ls (l ∷ m ∷ ls) p (omega (arith, header))
                (after again (new_node s id ls))
                (after-Good again (past + 1) ls (new_node s id ls) (new_node-Entered past s id ls f)
                  (λ q t rest h k. g q t rest h (omega arith))))
        | inr b ↦
            rw (b, marked)
              (Good-Suffix past past ls (l ∷ m ∷ ls) p (omega arith) (again s ls)
                (g past s ls f (omega arith)))
      ]

  visit-Good :
      (l : Bytes) (ls : List Bytes) (header : Option ℤ)
      → node_header l ≡ header
      → Goes again ls
      → Good past (l ∷ ls) (visit again s ls header)
  unfolding visit
  visit-Good l ls none e g =
      Good-Suffix past past ls (l ∷ ls) (later same) (omega arith) (again s ls)
        (g past s ls f (omega arith))
  visit-Good l ls (some id) e g = elim (Bool-cases (is_new s id)) [
    | inl b ↦ rw (b, visit) (marked-Good l id ls e g)
    | inr b ↦
        let t : Cursor = record s { zone_idx = s.zone_idx + 1 } in
        let there : s.found ≡ true = unfold is_new in ground (arith, b) in
        let ft : Fine (past + 1) t = record {
          within = f.0.within;
          counted = f.0.counted;
          fresh = f.0.fresh;
          tallied = omega (arith, f.0.tallied);
        } in
        let header : is_header (node_header l) ≡ 1 = ap is_header e in
        rw (b, visit)
          (Good-Suffix (past + 1) past ls (l ∷ ls) (later same) (omega (arith, header))
            (after again (enter_zone t ls))
            (after-Good again (past + 1) ls (enter_zone t ls)
              (enter_zone-Entered (past + 1) t ls ft there) g))
  ]

walk-Good :
    (fuel past : ℕ) (s : Cursor) (ls : List Bytes)
    → length ls < fuel
    → Inside past s
    → Good past ls (walk fuel s ls)
unfolding walk
walk-Good zero past s ls h f = absurd (omega arith)
walk-Good (suc fuel) past s [] h f = end_file-Good past s f
walk-Good (suc fuel) past s (l ∷ ls) h f =
    visit-Good (walk fuel) past s f l ls (node_header l) refl
      (λ q t rest ft k. walk-Good fuel q t rest (omega arith) ft)

-- On every sequence of lines the parser of zoneinfo ends: it fails, or it finds one node or two, each
-- with one to six zones, or it reads through a null pointer, which happens only when the last line
-- of the file is the first line of a zone, or it goes to a zone behind the array of a node, which
-- happens only when at least seven lines are the first line of a zone.
pub zoneinfo_parse_lines-Good : (ls : List Bytes) → Good 0 ls (zoneinfo_parse_lines ls)
unfolding zoneinfo_parse_lines
zoneinfo_parse_lines-Good ls = walk-Good (suc (length ls)) 0 start ls (omega arith) (
  record {
    within = omega arith;
    counted = λ i h. absurd (omega (arith, h));
    fresh = λ e. refl;
    tallied = omega arith;
  },
  omega arith,
)

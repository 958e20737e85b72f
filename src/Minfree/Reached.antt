-- ===== src/Minfree/Reached.antt =====
-- The target that a shortage of memory reaches, said of the amounts themselves.
use system_memory_lmkd.Base.{
  ℕ, ◌<◌, ◌≡◌, ◌⊎◌, sym, ap, ◌∙◌, true, false, List, [], ◌∷◌, arith, inl, inr, Bool-cases,
}
use system_memory_lmkd.Base.Int.{
  ℤ, pos, ◌+ℤ◌, ◌-ℤ◌, ◌<ℤ◌, ◌<?◌, max_ℤ, ◌≤ℤ◌, lt_of_test, eq_of_parts, int_laws,
}
use system_memory_lmkd.Memory.{
  Meminfo, Zone, Node, nr_file_pages, totalreserve_pages, zones_reserve,
}
use system_memory_lmkd.Minfree.Levels.{search_targets-first}
use system_memory_lmkd.Minfree.{Targets, other_file, is_short, search_targets, minfree_score}

-- What the zones keep for themselves.
abbrev pub kept_zones : List Zone → ℤ
kept_zones [] = pos 0
kept_zones (z ∷ zs) = z.high +ℤ z.max_protection +ℤ kept_zones zs

abbrev pub kept : List Node → ℤ
kept [] = pos 0
kept (n ∷ ns) = kept_zones n.zones +ℤ kept ns

-- The free pages that no zone keeps, and the pages of files that can be given back.
abbrev pub spare_pages : Meminfo → List Node → ℤ
spare_pages mi zi = mi.nr_free_pages -ℤ kept zi

abbrev pub spare_cache : Meminfo → ℤ
spare_cache mi = max_ℤ (pos 0) (mi.cached +ℤ mi.buffers -ℤ mi.shmem -ℤ mi.unevictable)

-- Both amounts are below the target's.
abbrev pub IsBelow : Targets → ℤ → ℤ → ℕ → Type 0
IsBelow s free cache i = (free <ℤ s.lowmem_minfree i) × (cache <ℤ s.lowmem_minfree i)

abbrev pub NotBefore : Targets → ℤ → ℤ → ℕ → Type 0
NotBefore s free cache n = (i : ℕ) → i < n → IsBelow s free cache i → ⊥

-- The score of the first target that both are below, and 1001 when there is none.
abbrev pub IsFirst : Targets → ℤ → ℤ → ℤ → Type 0
IsFirst s free cache least =
    ((least ≡ pos 1001) × NotBefore s free cache s.lowmem_targets_size)
    ⊎ ((j : ℕ) × (j < s.lowmem_targets_size)
        × IsBelow s free cache j
        × NotBefore s free cache j
        × (least ≡ s.lowmem_adj j))

le_of_test : (a b : ℤ) → (a <? b) ≡ false → b ≤ℤ a
le_of_test a b h = ground arith

zones_reserve-kept : (acc : ℤ) (zs : List Zone) → zones_reserve acc zs ≡ acc +ℤ kept_zones zs
unfolding zones_reserve
zones_reserve-kept acc [] = omega int_laws
zones_reserve-kept acc (z ∷ zs) =
    zones_reserve-kept (acc +ℤ (z.max_protection +ℤ z.high)) zs ∙ omega int_laws

totalreserve-kept : (acc : ℤ) (ns : List Node) → totalreserve_pages acc ns ≡ acc +ℤ kept ns
unfolding totalreserve_pages
totalreserve-kept acc [] = omega int_laws
totalreserve-kept acc (n ∷ ns) =
    totalreserve-kept (zones_reserve acc n.zones) ns
    ∙ (ap (λ a. a +ℤ kept ns) (zones_reserve-kept acc n.zones) ∙ omega int_laws)

free-spare :
    (mi : Meminfo) (zi : List Node)
    → mi.nr_free_pages -ℤ totalreserve_pages (pos 0) zi ≡ spare_pages mi zi
free-spare mi zi = rw (totalreserve-kept (pos 0) zi) (omega int_laws)

other_file-spare : (mi : Meminfo) → other_file mi ≡ spare_cache mi
unfolding other_file nr_file_pages
other_file-spare mi =
    let fixed = mi.shmem +ℤ mi.unevictable +ℤ mi.swap_cached in
    let pages = mi.cached +ℤ mi.swap_cached +ℤ mi.buffers in
    let rest = mi.cached +ℤ mi.buffers -ℤ mi.shmem -ℤ mi.unevictable in
    let sum : pages -ℤ mi.shmem -ℤ mi.unevictable -ℤ mi.swap_cached ≡ rest = omega int_laws in
    elim (Bool-cases (fixed <? pages)) [
      | inl e ↦
          let more : pos 0 <ℤ rest = omega (int_laws, lt_of_test fixed pages e) in
          rw (e, sum) (eq_of_parts rest (max_ℤ (pos 0) rest) (ground (arith, more)))
      | inr e ↦
          let less : rest ≤ℤ pos 0 = omega (int_laws, le_of_test fixed pages e) in
          rw e (eq_of_parts (pos 0) (max_ℤ (pos 0) rest) (ground (arith, less)))
    ]

is_short-IsBelow :
    (s : Targets) (free cache : ℤ) (i : ℕ) → is_short s free cache i ≡ true → IsBelow s free cache i
unfolding is_short
is_short-IsBelow s free cache i h = ground (arith, h)

below-is_short :
    (s : Targets) (free cache : ℤ) (i : ℕ)
    → is_short s free cache i ≡ false
    → IsBelow s free cache i
    → ⊥
unfolding is_short
below-is_short s free cache i h b = ground (arith, h, b.0, b.1)

apart : (i j : ℕ) → (i < j) ⊎ ((i ≡ j) ⊎ (j < i))
apart i j = ground arith

search_unique :
    (s : Targets) (free cache least : ℤ)
    → IsFirst s free cache least
    → least ≡ search_targets s free cache s.lowmem_targets_size 0
search_unique s free cache least first =
    elim (search_targets-first s free cache s.lowmem_targets_size) [
      | inl (e, none_before) ↦ elim first [
        | inl (f, not_before) ↦ f ∙ sym e
        | inr (j, l, b, not_before, f) ↦ absurd (below-is_short s free cache j (none_before j l) b)
      ]
      | inr (i, m, short, none_before, e) ↦
          let c = is_short-IsBelow s free cache i short in
          elim first [
            | inl (f, not_before) ↦ absurd (not_before i m c)
            | inr (j, l, b, not_before, f) ↦ elim (apart i j) [
              | inl lt ↦ absurd (not_before i lt c)
              | inr (inl q) ↦ f ∙ (ap s.lowmem_adj (sym q) ∙ sym e)
              | inr (inr lt) ↦ absurd (below-is_short s free cache j (none_before j lt) b)
            ]
          ]
    ]

-- The score that the search ends with is that of the first target.
pub IsFirst-minfree_score :
    (s : Targets) (mi : Meminfo) (zi : List Node) (least : ℤ)
    → IsFirst s (spare_pages mi zi) (spare_cache mi) least
    → least ≡ minfree_score s (totalreserve_pages (pos 0) zi) mi
unfolding minfree_score
IsFirst-minfree_score s mi zi least first =
    rw (free-spare mi zi, other_file-spare mi)
      (search_unique s (spare_pages mi zi) (spare_cache mi) least first)

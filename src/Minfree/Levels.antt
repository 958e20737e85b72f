-- ===== src/Minfree/Levels.antt =====
-- What a request for targets leaves, and which score the search among them picks.
use system_memory_lmkd.Base.{
  ℕ, zero, suc, ◌+◌, ◌≤◌, ◌<◌, ◌≡◌, ◌⊎◌, refl, inl, inr, true, false, Option, none, some, List, [],
  ◌∷◌, ◌==◌, length, update, arith, Bool-cases,
}
use system_memory_lmkd.Base.Int.{ℤ, pos, ◌≤ℤ◌}
use system_memory_lmkd.Minfree.{
  Targets, target_length, store_targets, cmd_target, is_short, search_targets, max_targets,
  property_value_max, target_update_min_interval_ms,
}
use system_memory_lmkd.Packet.{LmkTarget}
use system_memory_lmkd.Time.{Timespec, get_time_diff_ms}

abbrev pub nth : List LmkTarget → ℕ → Option LmkTarget
nth [] i = none
nth (t ∷ ts) zero = some t
nth (t ∷ ts) (suc i) = nth ts i

-- The length of the whole text.
unfoldable pub text_length : List LmkTarget → ℕ
text_length [] = 0
text_length (t ∷ ts) = target_length t + text_length ts

-- A stored target, in the two arrays.
abbrev pub Stores : Targets → ℕ → LmkTarget → Type 0
Stores s i t = (s.lowmem_minfree i ≡ t.minfree) × (s.lowmem_adj i ≡ t.oom_adj_score)

-- One target stored.
abbrev store : Targets → ℕ → LmkTarget → Targets
store s i t = record s {
  lowmem_minfree = update s.lowmem_minfree i t.minfree;
  lowmem_adj = update s.lowmem_adj i t.oom_adj_score;
}

-- What stands below the index stays.
store_targets-below :
    (s : Targets) (i len : ℕ) (ts : List LmkTarget) (j : ℕ)
    → j < i
    → ((store_targets s i len ts).lowmem_minfree j ≡ s.lowmem_minfree j)
      × ((store_targets s i len ts).lowmem_adj j ≡ s.lowmem_adj j)
unfolding store_targets
store_targets-below s i len [] j h = (refl, refl)
store_targets-below s i len (t ∷ ts) j h =
    ground
      (arith, store_targets-below (store s i t) (i + 1) (len + target_length t) ts j (omega arith))

store_targets-nth :
    (s : Targets) (i len : ℕ) (ts : List LmkTarget) (j : ℕ) (t : LmkTarget)
    → len + text_length ts < property_value_max
    → nth ts j ≡ some t
    → Stores (store_targets s i len ts) (i + j) t
unfolding store_targets text_length
store_targets-nth s i len [] j t l e = ground (arith, e)
store_targets-nth s i len (u ∷ ts) zero t l e = ground (
  arith,
  l,
  e,
  store_targets-below (store s i u) (i + 1) (len + target_length u) ts i (omega arith),
)
store_targets-nth s i len (u ∷ ts) (suc j) t l e = ground (
  arith,
  l,
  store_targets-nth (store s i u) (i + 1) (len + target_length u) ts j t (omega (arith, l)) e,
)

-- A request of one to six targets, not too soon after the last one and with a text that fits its
-- buffer, puts each of them in its place.
pub cmd_target-Stores :
    (s : Targets) (tm : Timespec) (ts : List LmkTarget) (j : ℕ) (t : LmkTarget)
    → 1 ≤ length ts
    → length ts ≤ max_targets
    → target_update_min_interval_ms ≤ℤ get_time_diff_ms s.last_req_tm tm
    → text_length ts < property_value_max
    → nth ts j ≡ some t
    → Stores (cmd_target s (some tm) ts) j t
      × ((cmd_target s (some tm) ts).lowmem_targets_size ≡ length ts)
unfolding cmd_target
cmd_target-Stores s tm ts j t few most late fits e = ground (
  arith,
  few,
  most,
  late,
  store_targets-nth (record s { last_req_tm = tm }) 0 0 ts j t (omega (arith, fits)) e,
)

-- No target before this one is reached.
abbrev pub NoneBefore : Targets → ℤ → ℤ → ℕ → Type 0
NoneBefore s free file n = (j : ℕ) → j < n → is_short s free file j ≡ false

search-cases :
    (s : Targets) (free file : ℤ) (n i : ℕ)
    → NoneBefore s free file i
    → ((search_targets s free file n i ≡ pos 1001) × NoneBefore s free file (i + n))
      ⊎ ((j : ℕ) × (j < i + n)
          × (is_short s free file j ≡ true)
          × NoneBefore s free file j
          × (search_targets s free file n i ≡ s.lowmem_adj j))
unfolding search_targets
search-cases s free file zero i h = inl (refl, λ j l. h j (omega (arith, l)))
search-cases s free file (suc n) i h = elim (Bool-cases (is_short s free file i)) [
  | inl e ↦ inr (i, omega arith, e, h, rw e refl)
  | inr e ↦
      let h' : NoneBefore s free file (i + 1) = λ j l. elim (Bool-cases (j == i)) [
        | inl q ↦ ground (arith, q, e)
        | inr q ↦ h j (ground (arith, q, l))
      ] in
      elim (search-cases s free file n (i + 1) h') [
        | inl (r, none_before) ↦ inl (rw e r, λ j l. none_before j (omega (arith, l)))
        | inr (j, l, sh, nb, r) ↦ inr (j, omega (arith, l), sh, nb, rw e r)
      ]
]

-- The search picks the score of the first target that both the free memory and the cache are below,
-- and 1001, which spares every process, when there is none.
pub search_targets-first :
    (s : Targets) (free file : ℤ) (n : ℕ)
    → ((search_targets s free file n 0 ≡ pos 1001) × NoneBefore s free file n)
      ⊎ ((j : ℕ) × (j < n)
          × (is_short s free file j ≡ true)
          × NoneBefore s free file j
          × (search_targets s free file n 0 ≡ s.lowmem_adj j))
search_targets-first s free file n =
    elim (search-cases s free file n 0 (λ j l. absurd (omega (arith, l)))) [
      | inl (r, h) ↦ inl (r, λ j l. h j (omega (arith, l)))
      | inr (j, l, sh, nb, r) ↦ inr (j, omega (arith, l), sh, nb, r)
    ]

-- ===== src/Memory/Swap.antt =====
-- Free swap, swap utilization, the levels and the record of low pressure.
use system_memory_lmkd.Base.{
  ℕ, ◌+◌, ◌*◌, ◌/◌, ◌≤◌, ◌<◌, ◌≡◌, inl, inr, List, [], ◌∷◌, arith, Bool-cases, All, ◌≢◌,
}
use system_memory_lmkd.Base.Int.{
  ℤ, pos, negsuc, ◌+ℤ◌, ◌-ℤ◌, ◌*ℤ◌, ◌/ℤ◌, ◌≤ℤ◌, ◌<ℤ◌, ◌<?◌, ==ℤ_iff, int_laws, lt_of_test,
}
use system_memory_lmkd.Memory.{
  Meminfo, easy_available, get_free_swap, calc_swap_utilization, Level, level_rank, upgrade_level,
  downgrade_level, LowPressureMem, record_low_pressure_levels, low, critical,
}

div-le : (a b t : ℕ) → 0 < t → a ≤ b * t → a / t ≤ b
div-le a b t h k = grind arith

-- A share of a whole, in percent.
percent :
    (u t : ℤ)
    → pos 0 ≤ℤ u
    → u ≤ℤ t
    → pos 0 <ℤ t
    → (pos 0 ≤ℤ u *ℤ pos 100 /ℤ t) × (u *ℤ pos 100 /ℤ t ≤ℤ pos 100)
unfolding ◌*ℤ◌ ◌/ℤ◌
percent (pos u) (pos t) a b c =
    let e : pos u *ℤ pos 100 ≡ pos (u * 100) = ground arith in
    rw e (omega arith, omega (arith, div-le (u * 100) 100 t (omega arith) (grind arith)))
percent (negsuc u) t a b c = absurd (omega arith)
percent (pos u) (negsuc t) a b c = absurd (omega arith)

get_free_swap-le : (ratio : ℤ) (mi : Meminfo) → get_free_swap ratio mi ≤ℤ mi.free_swap
unfolding get_free_swap
get_free_swap-le ratio mi = ground arith

-- Free swap is never over-estimated, and with a ratio set it is bounded by the memory that is easily
-- available times that ratio too.
pub get_free_swap-bounds :
    (ratio : ℤ) (mi : Meminfo)
    → ratio ≢ pos 0
    → (get_free_swap ratio mi ≤ℤ mi.free_swap)
      × (get_free_swap ratio mi ≤ℤ easy_available mi *ℤ ratio)
unfolding get_free_swap
get_free_swap-bounds ratio mi h = ground (arith, ==ℤ_iff ratio (pos 0))

-- Where no more swap is free than there is and the anonymous and shared pages are not negative, the
-- utilization is a percentage.
pub calc_swap_utilization-bounds :
    (ratio : ℤ) (mi : Meminfo)
    → get_free_swap ratio mi ≤ℤ mi.total_swap
    → pos 0 ≤ℤ mi.active_anon
    → pos 0 ≤ℤ mi.inactive_anon
    → pos 0 ≤ℤ mi.shmem
    → (pos 0 ≤ℤ calc_swap_utilization ratio mi) × (calc_swap_utilization ratio mi ≤ℤ pos 100)
unfolding calc_swap_utilization
calc_swap_utilization-bounds ratio mi f a i s =
    let used = mi.total_swap -ℤ get_free_swap ratio mi in
    let all = mi.active_anon +ℤ mi.inactive_anon +ℤ mi.shmem +ℤ used in
    elim (Bool-cases (pos 0 <? all)) [
      | inl e ↦ rw e (percent used all (omega int_laws) (omega int_laws) (lt_of_test (pos 0) all e))
      | inr e ↦ rw e (omega arith, omega arith)
    ]

pub upgrade-downgrade :
    (l : Level)
    → (level_rank l ≤ level_rank (upgrade_level l))
      × (level_rank (upgrade_level l) ≤ level_rank l + 1)
      × (l ≢ critical → downgrade_level (upgrade_level l) ≡ l)
      × (l ≢ low → upgrade_level (downgrade_level l) ≡ l)
unfolding upgrade_level downgrade_level level_rank
upgrade-downgrade l = ground arith

-- The record after a history of events, the newest first.
unfoldable pub recorded : List Meminfo → LowPressureMem
recorded [] = record { min_nr_free_pages = negsuc 0; max_nr_free_pages = negsuc 0 }
recorded (mi ∷ h) = record_low_pressure_levels (recorded h) mi

abbrev pub HasFree : Meminfo → Type 0
HasFree mi = pos 0 ≤ℤ mi.nr_free_pages

least_mono :
    (m n : ℤ) (h : List Meminfo)
    → n ≤ℤ m
    → All (λ mi. m ≤ℤ mi.nr_free_pages) h
    → All (λ mi. n ≤ℤ mi.nr_free_pages) h
least_mono m n [] le a = tt
least_mono m n (mi ∷ h) le (a, rest) = (omega arith, least_mono m n h le rest)

-- The recorded minimum is no event's excess, and lies between 0 and the recorded maximum.
pub record Summary (h : List Meminfo) (s : LowPressureMem) : Type 0 where
  pub nonneg : pos 0 ≤ℤ s.min_nr_free_pages
  pub least : All (λ mi. s.min_nr_free_pages ≤ℤ mi.nr_free_pages) h
  pub ordered : s.min_nr_free_pages ≤ℤ s.max_nr_free_pages

-- The bounds after one more event.
module _ (s : LowPressureMem) (mi : Meminfo) (free : HasFree mi) where
  next-min :
      pos 0 ≤ℤ s.min_nr_free_pages
      → let m = (record_low_pressure_levels s mi).min_nr_free_pages in
        (pos 0 ≤ℤ m) × (m ≤ℤ mi.nr_free_pages) × (m ≤ℤ s.min_nr_free_pages)
  unfolding record_low_pressure_levels
  next-min h = ground arith

  next-max :
      pos 0 ≤ℤ s.max_nr_free_pages
      → s.max_nr_free_pages ≤ℤ (record_low_pressure_levels s mi).max_nr_free_pages
  unfolding record_low_pressure_levels
  next-max h = ground arith

-- After any non-empty history of events with no negative amount, the recorded minimum is at most
-- the free memory at each event, and lies between 0 and the recorded maximum.
pub recorded-Summary :
    (mi : Meminfo) (h : List Meminfo) → All HasFree (mi ∷ h) → Summary (mi ∷ h) (recorded (mi ∷ h))
unfolding recorded
recorded-Summary mi [] (f, fs) =
    unfold record_low_pressure_levels in
    record { nonneg = ground arith; least = ground arith; ordered = ground arith }
recorded-Summary mi (x ∷ h) (f, fs) = step (recorded-Summary x h fs)
  where
    step :
        Summary (x ∷ h) (recorded (x ∷ h))
        → Summary (mi ∷ x ∷ h) (record_low_pressure_levels (recorded (x ∷ h)) mi)
    step v =
        let low = next-min (recorded (x ∷ h)) mi f v.nonneg in
        let high = next-max (recorded (x ∷ h)) mi f (omega (arith, v.nonneg, v.ordered)) in
        record {
          nonneg = low.0;
          least = (low.1, least_mono (recorded (x ∷ h)).min_nr_free_pages _ (x ∷ h) low.2 v.least);
          ordered = omega (arith, low, high, v.ordered);
        }

-- ===== src/Pressure/Limit.antt =====
-- The limit on thrashing, which a kill cuts and a new window restores.
use native.Mathlib.Nat.{mul-le-mul_left}
use system_memory_lmkd.Base.{ℕ, ◌-◌, ◌*◌, ◌≤◌, ◌≡◌, Bool, arith}
use system_memory_lmkd.Base.Int.{
  to_word, of_word, of_word-to_word, ℤ, pos, negsuc, ◌-ℤ◌, ◌*ℤ◌, ◌/ℤ◌, ◌≤ℤ◌,
}
use system_memory_lmkd.Pressure.Event.{after_kill}
use system_memory_lmkd.Pressure.{Monitor, Vmstat, update_thrashing, cross_window}
use system_memory_lmkd.Props.Ranges.{InRange}
use system_memory_lmkd.Props.{Props}
use system_memory_lmkd.Time.{Timespec}

times_pos : (a j : ℕ) → pos a *ℤ pos j ≡ pos (a * j)
unfolding ◌*ℤ◌
times_pos a j = ground arith

mul_le-hundred : (a d : ℕ) → a * (100 - d) ≤ a * 100
mul_le-hundred a d = mul-le-mul_left a (omega arith)

cut-bounds :
    (a d : ℤ)
    → pos 0 ≤ℤ a
    → pos 0 ≤ℤ d
    → d ≤ℤ pos 100
    → (pos 0 ≤ℤ a *ℤ (pos 100 -ℤ d) /ℤ pos 100) × (a *ℤ (pos 100 -ℤ d) /ℤ pos 100 ≤ℤ a)
unfolding ◌/ℤ◌
cut-bounds (pos a) (pos d) ha hd hd' =
    let rest : pos 100 -ℤ pos d ≡ pos (100 - d) = unfold ◌-ℤ◌ in ground arith in
    rw (rest, times_pos a (100 - d)) (omega arith, omega (arith, mul_le-hundred a d))
cut-bounds (negsuc a) d ha hd hd' = absurd (omega arith)
cut-bounds (pos a) (negsuc d) ha hd hd' = absurd (omega arith)

product-IsInt32 :
    (a d : ℤ)
    → pos 0 ≤ℤ a
    → a ≤ℤ pos 21474836
    → pos 0 ≤ℤ d
    → d ≤ℤ pos 100
    → of_word (to_word (a *ℤ (pos 100 -ℤ d))) ≡ a *ℤ (pos 100 -ℤ d)
product-IsInt32 (pos a) (pos d) ha ha' hd hd' =
    let rest : pos 100 -ℤ pos d ≡ pos (100 - d) = unfold ◌-ℤ◌ in ground arith in
    rw (rest, times_pos a (100 - d))
      (of_word-to_word (pos (a * (100 - d))) (omega arith, omega (arith, mul_le-hundred a d, ha')))
product-IsInt32 (negsuc a) d ha ha' hd hd' = absurd (omega arith)
product-IsInt32 (pos a) (negsuc d) ha ha' hd hd' = absurd (omega arith)

-- The limit is between 0 and its setting.
abbrev pub IsLimited : Props → Monitor → Type 0
IsLimited c m = (pos 0 ≤ℤ m.thrashing_limit) × (m.thrashing_limit ≤ℤ c.thrashing_limit_pct)

-- With settings in their ranges, and the one for the limit on thrashing at most 21474836 percent, a
-- hundredth of the greatest `int`, so that the product of a cut does not overflow, the limit stays
-- between 0 and its setting through the update of an event and a kill after it, and a kill never
-- raises it.
pub after_kill-IsLimited :
    (c : Props) (m : Monitor) (vs : Vmstat) (tm : Timespec) (cut : Bool)
    → InRange c
    → c.thrashing_limit_pct ≤ℤ pos 21474836
    → IsLimited c m
    → let m' = (update_thrashing c m vs tm).0 in
      IsLimited c m'
      × IsLimited c (after_kill c cut m')
      × ((after_kill c cut m').thrashing_limit ≤ℤ m'.thrashing_limit)
unfolding update_thrashing cross_window after_kill
after_kill-IsLimited c m vs tm cut range small h =
    let m' = (update_thrashing c m vs tm).0 in
    let updated : IsLimited c m' = ground (arith, h, range.limit) in
    let (low, high) =
      cut-bounds m'.thrashing_limit c.thrashing_limit_decay_pct updated.0 range.decay.0
        range.decay.1 in
    let whole =
      product-IsInt32 m'.thrashing_limit c.thrashing_limit_decay_pct updated.0
        (omega (arith, updated.1, small)) range.decay.0 range.decay.1 in
    (updated, rw whole (ground (arith, updated, low, high)), rw whole (ground (arith, low, high)))

-- ===== src/Props/Ranges.antt =====
-- The ranges that `update_props` forces on the settings, whatever the properties hold.
use Prim.Native.String.{String, ◌++◌}
use system_memory_lmkd.Base.{◌≡◌, Bool, false, Option, none, some, arith, if◌then◌else◌}
use system_memory_lmkd.Base.Int.{ℤ, pos, ◌≤ℤ◌, ◌*ℤ◌, max_ℤ}
use system_memory_lmkd.Props.{
  narrow, Properties, Props, clamp, read_props, update_props, lmk_property,
}

clamp_bounds :
    (low high value : ℤ)
    → low ≤ℤ high
    → (low ≤ℤ clamp low high value) × (clamp low high value ≤ℤ high)
unfolding clamp
clamp_bounds low high value h = ground arith

le-max_left : (a b : ℤ) → a ≤ℤ max_ℤ a b
le-max_left a b = ground arith

abbrev pub IsPercent : ℤ → Type 0
IsPercent a = (pos 0 ≤ℤ a) × (a ≤ℤ pos 100)

pub record InRange (p : Props) : Type 0 where
  pub swap_free_low : IsPercent p.swap_free_low_percentage
  pub swap_util : IsPercent p.swap_util_max
  pub decay : IsPercent p.thrashing_limit_decay_pct
  pub limit : pos 0 ≤ℤ p.thrashing_limit_pct
  pub critical : pos 0 ≤ℤ p.thrashing_critical_pct
  pub lowmem : pos 201 ≤ℤ p.lowmem_min_oom_score

-- Whatever the properties hold, the three percentages are between 0 and 100, the limits on
-- thrashing are not negative, and the setting for the least score to kill at when only the memory is
-- low is at least 201, one more than that of a perceptible process.
pub update_props-InRange : (hook : Bool) (ps : Properties) → InRange (update_props hook ps).0
unfolding update_props read_props
update_props-InRange hook ps =
    let int32 = lmk_property ps.get_int32 in
    let low_ram = ps.get_bool "ro.config.low_ram" false in
    let limit = int32 "thrashing_limit" (if low_ram then pos 30 else pos 100) in
    let decay = int32 "thrashing_limit_decay" (if low_ram then pos 50 else pos 10) in
    record {
      swap_free_low =
          clamp_bounds (pos 0) (pos 100) (int32 "swap_free_low_percentage" (pos 10)) (omega arith);
      swap_util = clamp_bounds (pos 0) (pos 100) (int32 "swap_util_max" (pos 100)) (omega arith);
      decay = clamp_bounds (pos 0) (pos 100) decay (omega arith);
      limit = le-max_left (pos 0) limit;
      critical =
          le-max_left (pos 0)
            (int32 "thrashing_limit_critical" (narrow (max_ℤ (pos 0) limit *ℤ pos 3)));
      lowmem = le-max_left (pos 201) (int32 "lowmem_min_oom_score" (pos 701));
    }

-- A reader over a store of values, some of them unset.
unfoldable pub reader : {A : Type 0} → (String → Option A) → String → A → A
reader store name def = elim (store name) [ none ↦ def | some v ↦ v ]

-- The value of an experiment wins, then the device's, then the default.
unfoldable pub layered : {A : Type 0} → Option A → Option A → A → A
layered (some v) device def = v
layered none (some v) def = v
layered none none def = def

-- With readers that return their default exactly when the store has no value, a setting is the
-- experiment's value, else the device's, else the default.
pub lmk_property-layered :
    {A : Type 0} (store : String → Option A) (name : String) (def : A)
    → lmk_property (reader store) name def
      ≡ layered
          (store ("persist.device_config.lmkd_native." ++ name))
          (store ("ro.lmk." ++ name))
          def
unfolding reader layered
lmk_property-layered store name def = ground arith

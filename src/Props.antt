-- ===== src/Props.antt =====
-- The settings of lmkd.cpp and `update_props`, which reads them from the system's properties. The
-- property store is a record of the three readers of the C library; each returns its second
-- argument when the property is unset. `kill_timeout_ms` is kept as the `long` that it is cast to.
pub mod Ranges
use Prim.Native.String.{String, ◌++◌}
use system_memory_lmkd.Base.{Bool, true, false, if◌then◌else◌}
use system_memory_lmkd.Base.Int.{ℤ, pos, ◌*ℤ◌, ◌<?◌, max_ℤ, min_ℤ, to_word, of_word}

pub record Properties : Type 0 where
  pub get_bool : String → Bool → Bool
  pub get_int32 : String → ℤ → ℤ
  pub get_int64 : String → ℤ → ℤ

-- GET_LMK_PROPERTY: the experiment's value stands in front of the device's.
abbrev pub lmk_property : {A : Type 0} → (String → A → A) → String → A → A
lmk_property get name def =
    get ("persist.device_config.lmkd_native." ++ name) (get ("ro.lmk." ++ name) def)

unfoldable pub clamp : ℤ → ℤ → ℤ → ℤ
clamp low high value = max_ℤ (min_ℤ value high) low

-- An `int64_t` stored in an `int`, and a product of `int`s that wraps.
abbrev pub narrow : ℤ → ℤ
narrow x = of_word (to_word x)

abbrev pub perceptible_app_adj : ℤ
perceptible_app_adj = pos 200

abbrev pub previous_app_adj : ℤ
previous_app_adj = pos 700

abbrev pub oom_score_adj_max : ℤ
oom_score_adj_max = pos 1000

pub record Props : Type 0 where
  pub oomadj_low : ℤ
  pub oomadj_medium : ℤ
  pub oomadj_critical : ℤ
  pub debug_process_killing : Bool
  pub enable_pressure_upgrade : Bool
  pub upgrade_pressure : ℤ
  pub downgrade_pressure : ℤ
  pub kill_heaviest_task : Bool
  pub low_ram_device : Bool
  pub kill_timeout_ms : ℤ
  pub pressure_after_kill_min_score : ℤ
  pub use_minfree_levels : Bool
  pub per_app_memcg : Bool
  pub swap_free_low_percentage : ℤ
  pub psi_partial_stall_ms : ℤ
  pub psi_complete_stall_ms : ℤ
  pub thrashing_limit_pct : ℤ
  pub thrashing_limit_decay_pct : ℤ
  pub thrashing_critical_pct : ℤ
  pub swap_util_max : ℤ
  pub filecache_min_kb : ℤ
  pub stall_limit_critical : ℤ
  pub delay_monitors_until_boot : Bool
  pub direct_reclaim_threshold_ms : ℤ
  pub swap_compression_ratio : ℤ
  pub lowmem_min_oom_score : ℤ

-- The assignments of `update_props`. The limit on thrashing is read before the critical limit,
-- whose default is three times as much.
unfoldable pub read_props : Properties → Props
unfolding clamp
read_props ps =
    let bool = lmk_property ps.get_bool in
    let int32 = lmk_property ps.get_int32 in
    let int64 = lmk_property ps.get_int64 in
    let low_ram = ps.get_bool "ro.config.low_ram" false in
    let limit = max_ℤ (pos 0) (int32 "thrashing_limit" (if low_ram then pos 30 else pos 100)) in
    record {
      oomadj_low = int32 "low" (pos 1001);
      oomadj_medium = int32 "medium" (pos 800);
      oomadj_critical = int32 "critical" (pos 0);
      debug_process_killing = bool "debug" false;
      enable_pressure_upgrade = bool "critical_upgrade" false;
      upgrade_pressure = int32 "upgrade_pressure" (pos 100);
      downgrade_pressure = int32 "downgrade_pressure" (pos 100);
      kill_heaviest_task = bool "kill_heaviest_task" false;
      low_ram_device = low_ram;
      kill_timeout_ms = int32 "kill_timeout_ms" (pos 100);
      pressure_after_kill_min_score = int32 "pressure_after_kill_min_score" (pos 0);
      use_minfree_levels = bool "use_minfree_levels" false;
      per_app_memcg = ps.get_bool "ro.config.per_app_memcg" low_ram;
      swap_free_low_percentage =
          clamp (pos 0) (pos 100) (int32 "swap_free_low_percentage" (pos 10));
      psi_partial_stall_ms = int32 "psi_partial_stall_ms" (if low_ram then pos 200 else pos 70);
      psi_complete_stall_ms = int32 "psi_complete_stall_ms" (pos 700);
      thrashing_limit_pct = limit;
      thrashing_limit_decay_pct =
          clamp (pos 0) (pos 100)
            (int32 "thrashing_limit_decay" (if low_ram then pos 50 else pos 10));
      thrashing_critical_pct =
          max_ℤ (pos 0) (int32 "thrashing_limit_critical" (narrow (limit *ℤ pos 3)));
      swap_util_max = clamp (pos 0) (pos 100) (int32 "swap_util_max" (pos 100));
      filecache_min_kb = int64 "filecache_min_kb" (pos 0);
      stall_limit_critical = int64 "stall_limit_critical" (pos 100);
      delay_monitors_until_boot = bool "delay_monitors_until_boot" false;
      direct_reclaim_threshold_ms = narrow (int64 "direct_reclaim_threshold_ms" (pos 0));
      swap_compression_ratio = narrow (int64 "swap_compression_ratio" (pos 1));
      lowmem_min_oom_score = max_ℤ (pos 201) (int32 "lowmem_min_oom_score" (pos 701));
    }

-- The settings are in force when the hook of the vendor accepts them or not; the result says which.
unfoldable pub update_props : Bool → Properties → Props × Bool
update_props hook ps = (read_props ps, hook)

-- ===== src/Monitors.antt =====
-- The pressure monitors of lmkd.cpp: `init_mp_psi`, `init_psi_monitors`, `init_mp_common`,
-- `init_monitors` and their counterparts, with `init_psi_monitor` of libpsi/psi.cpp. An array over the
-- levels is a function of the level's number. What is opened and closed is a list of effects; the
-- lines written to the kernel are shorter than their buffers.
pub mod Ledger
pub mod Balance
pub mod Levels
pub mod Reinit
use system_memory_lmkd.Base.{
  ℕ, ◌+◌, Bool, true, false, not, ◌&&◌, ◌||◌, Option, none, some, List, [], ◌∷◌, ◌++◌, update,
  if◌then◌else◌,
}
use system_memory_lmkd.Base.Int.{ℤ, pos, negsuc, ◌+ℤ◌, ◌-ℤ◌, ◌<?◌, ◌==ℤ◌}
use system_memory_lmkd.Memory.{Level, low, medium, critical, level_rank}
use system_memory_lmkd.Props.{Props, Properties, lmk_property}

pub data Handler : Type 0 where
  psi_handler common_handler : Handler

pub record Monitors : Type 0 where
  pub mpevfd : ℕ → ℤ
  pub handler : ℕ → Option Handler
  pub threshold_ms : ℕ → ℤ
  pub maxevents : ℤ
  pub use_psi_monitors : Bool
  pub monitors_initialized : Bool

pub data FdEffect : Type 0 where
  opens closes : ℤ → FdEffect

-- Of a level: the descriptor of the pressure file, or a negative number, and whether the kernel takes
-- a trigger with this threshold; the same of the three files of a memory cgroup. Of a descriptor:
-- whether `epoll_ctl` adds it. And whether the memory cgroups are those of version 1.
pub record PressureFiles : Type 0 where
  pub psi_file : ℕ → ℤ
  pub psi_trigger : ℕ → ℤ → Bool
  pub mp_file : ℕ → ℤ
  pub evctl_file : ℕ → ℤ
  pub eventfd : ℕ → ℤ
  pub evctl_write : ℕ → Bool
  pub epoll_add : ℤ → Bool
  pub is_memcg_v1 : Bool

-- The monitors after a step, its result and what it opened and closed.
pub record Step : Type 0 where
  pub monitors : Monitors
  pub ok : Bool
  pub effects : List FdEffect

unfoldable pub stay : Monitors → Bool → List FdEffect → Step
stay m ok es = record { monitors = m; ok = ok; effects = es }

unfoldable pub register : Monitors → ℕ → ℤ → Handler → Monitors
register m level fd h = record m {
  mpevfd = update m.mpevfd level fd;
  handler = update m.handler level (some h);
  maxevents = m.maxevents +ℤ pos 1;
}

-- Of libpsi: the descriptor with a trigger of this threshold, or -1. The resource is the memory and
-- the stall type one of the table's, which pass its tests; `psi_trigger` says whether the write of
-- the line succeeds.
unfoldable pub init_psi_monitor : PressureFiles → ℕ → ℤ → ℤ × List FdEffect
init_psi_monitor k level threshold_ms =
    let fd = k.psi_file level in
    if fd <? pos 0
    then (negsuc 0, [])
    else if k.psi_trigger level threshold_ms
    then (fd, opens fd ∷ [])
    else (negsuc 0, opens fd ∷ closes fd ∷ [])

-- The monitor that is closed again has its handler set.
unfoldable pub init_mp_psi : PressureFiles → ℕ → Bool → Monitors → Step
init_mp_psi k level use_new_strategy m =
    let (fd, es) = init_psi_monitor k level (m.threshold_ms level) in
    let h = if use_new_strategy then psi_handler else common_handler in
    if m.threshold_ms level ==ℤ pos 0
    then stay m true []
    else if fd <? pos 0
    then stay m false es
    else if k.epoll_add fd
    then stay (register m level fd h) true es
    else stay (record m { handler = update m.handler level (some h) }) false (es ++ closes fd ∷ [])

-- `destroy_mp_psi`, and `destroy_mp_common`, which does the same by other calls.
unfoldable pub destroy_mp : ℕ → Monitors → Step
destroy_mp level m =
    let fd = m.mpevfd level in
    if fd <? pos 0
    then stay m true []
    else stay
        (record m { mpevfd = update m.mpevfd level (negsuc 0); maxevents = m.maxevents -ℤ pos 1 })
        true (closes fd ∷ [])

-- A second step after a first one that succeeded.
unfoldable pub and_then : (Monitors → Step) → Step → Step
and_then f s =
    let t = f s.monitors in if s.ok then record t { effects = s.effects ++ t.effects } else s

-- A step that clears up after one that failed.
unfoldable pub or_clear : (Monitors → Step) → Step → Step
or_clear f s =
    let t = f s.monitors in
    if s.ok
    then s
    else record { monitors = t.monitors; ok = false; effects = s.effects ++ t.effects }

-- Both, whatever the first one's result is.
unfoldable pub then_also : (Monitors → Step) → Step → Step
then_also f s = let t = f s.monitors in record t { effects = s.effects ++ t.effects }

abbrev use_new : Props → Properties → Bool
use_new c ps =
    lmk_property ps.get_bool "use_new_strategy" (c.low_ram_device || not c.use_minfree_levels)

-- The thresholds that the new strategy sets; the old one uses what is there.
unfoldable pub override : Props → Bool → Monitors → Monitors
override c use_new_strategy m =
    if use_new_strategy
    then record m {
      threshold_ms =
          update (update (update m.threshold_ms 0 (pos 0)) 1 c.psi_partial_stall_ms) 2
            c.psi_complete_stall_ms;
    }
    else m

-- The three levels, from low to critical; a failure takes back what stood before.
unfoldable pub init_levels : PressureFiles → Bool → Monitors → Step
init_levels k new m =
    and_then
      (λ m. or_clear (λ m. then_also (destroy_mp 0) (destroy_mp 1 m)) (init_mp_psi k 2 new m))
      (and_then (λ m. or_clear (destroy_mp 0) (init_mp_psi k 1 new m)) (init_mp_psi k 0 new m))

unfoldable pub init_psi_monitors : Props → Properties → PressureFiles → Monitors → Step
unfolding init_levels
init_psi_monitors c ps k m =
    let new = use_new c ps in
    if not new && not k.is_memcg_v1 then stay m false [] else init_levels k new (override c new m)

-- The descriptor of the pressure file stays open when the monitor is registered.
unfoldable pub init_mp_common : PressureFiles → ℕ → Monitors → Step
init_mp_common k level m =
    let mpfd = k.mp_file level in
    let evctlfd = k.evctl_file level in
    let evfd = k.eventfd level in
    let h = update m.handler level (some common_handler) in
    if not k.is_memcg_v1
    then stay m false []
    else if mpfd <? pos 0
    then stay m false []
    else if evctlfd <? pos 0
    then stay m false (opens mpfd ∷ closes mpfd ∷ [])
    else if evfd <? pos 0
    then stay m false (opens mpfd ∷ opens evctlfd ∷ closes evctlfd ∷ closes mpfd ∷ [])
    else if not (k.evctl_write level)
    then stay m false
        (opens mpfd ∷ opens evctlfd ∷ opens evfd ∷ closes evfd ∷ closes evctlfd ∷ closes mpfd ∷ [])
    else if k.epoll_add evfd
    then stay (register m level evfd common_handler) true
        (opens mpfd ∷ opens evctlfd ∷ opens evfd ∷ closes evctlfd ∷ [])
    else stay (record m { handler = h }) false
        (opens mpfd ∷ opens evctlfd ∷ opens evfd ∷ closes evfd ∷ closes evctlfd ∷ closes mpfd ∷ [])

unfoldable pub init_common : PressureFiles → Monitors → Step
init_common k m =
    and_then (init_mp_common k 2) (and_then (init_mp_common k 1) (init_mp_common k 0 m))

abbrev may_use_psi : Properties → Bool
may_use_psi ps = lmk_property ps.get_bool "use_psi" true

unfoldable pub try_psi : Props → Properties → PressureFiles → Monitors → Step
try_psi c ps k m =
    let s = init_psi_monitors c ps k m in if may_use_psi ps then s else stay m false []

unfoldable pub using_psi : Bool → Step → Step
using_psi b s = record s { monitors = record s.monitors { use_psi_monitors = b } }

unfoldable pub mark_initialized : Step → Step
mark_initialized s =
    if s.ok then record s { monitors = record s.monitors { monitors_initialized = true } } else s

-- "Fall back to vmpressure".
unfoldable pub init_monitors : Props → Properties → PressureFiles → Monitors → Step
init_monitors c ps k m =
    let s = try_psi c ps k m in
    let fallback = then_also (init_common k) (using_psi false s) in
    if s.ok then mark_initialized (using_psi true s) else mark_initialized fallback

unfoldable pub destroy_monitors : Monitors → Step
destroy_monitors m = then_also (destroy_mp 0) (then_also (destroy_mp 1) (destroy_mp 2 m))

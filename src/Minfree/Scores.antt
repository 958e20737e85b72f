-- ===== src/Minfree/Scores.antt =====
-- Which scores an event of the older strategies kills at.
use system_memory_lmkd.Base.{ℕ, ◌<◌, inl, inr, List, ◌||◌, arith, Bool-cases}
use system_memory_lmkd.Base.Int.{ℤ, pos, negsuc, ◌-ℤ◌, ◌*ℤ◌, ◌/ℤ◌, ◌≤ℤ◌, ◌<?◌, ◌==ℤ◌}
use system_memory_lmkd.Memory.{Meminfo, Level, Node, totalreserve_pages}
use system_memory_lmkd.Minfree.Levels.{search_targets-first}
use system_memory_lmkd.Minfree.Vmpressure.{
  VmConfig, VmReadings, Verdict, ignore, do_kill, minfree_verdict, usage_verdict, pressure_verdict,
  at_level, upgraded, downgraded, has_swap, level_oomadj, get_memory_usage,
}
use system_memory_lmkd.Minfree.{Targets, minfree_score, other_file, search_targets}
use system_memory_lmkd.Props.{Props, oom_score_adj_max}

-- A score to kill at that is not below the least one.
abbrev pub IsAtLeast : ℤ → ℤ → Type 0
IsAtLeast least score = (least ≤ℤ score) × (negsuc 999 ≤ℤ score) × (score ≤ℤ pos 1001)

abbrev pub VerdictIsAtLeast : ℤ → Verdict → Type 0
VerdictIsAtLeast least ignore = Unit
VerdictIsAtLeast least (do_kill level score) = IsAtLeast least score

-- Scores that the slots have a place for, and 1001.
abbrev pub IsConfigured : ℤ → Type 0
IsConfigured a = (negsuc 999 ≤ℤ a) × (a ≤ℤ pos 1001)

abbrev pub LevelsConfigured : Props → Type 0
LevelsConfigured c = (level : Level) → IsConfigured (level_oomadj c level)

abbrev pub TargetsConfigured : Targets → Type 0
TargetsConfigured s = (i : ℕ) → i < s.lowmem_targets_size → IsConfigured (s.lowmem_adj i)

search-IsConfigured :
    (s : Targets) (free file : ℤ)
    → TargetsConfigured s
    → IsConfigured (search_targets s free file s.lowmem_targets_size 0)
search-IsConfigured s free file h = elim (search_targets-first s free file s.lowmem_targets_size) [
  | inl (e, none_before) ↦ rw e (omega arith)
  | inr (j, l, short, none_before, e) ↦ rw e (h j l)
]

minfree_score-IsConfigured :
    (s : Targets) (reserve : ℤ) (mi : Meminfo)
    → TargetsConfigured s
    → IsConfigured (minfree_score s reserve mi)
unfolding minfree_score
minfree_score-IsConfigured s reserve mi h =
    search-IsConfigured s (mi.nr_free_pages -ℤ reserve) (other_file mi) h

pub minfree-IsAtLeast :
    (c : VmConfig) (level : Level) (mi : Meminfo) (zi : List Node)
    → TargetsConfigured c.targets
    → VerdictIsAtLeast
        (minfree_score c.targets (totalreserve_pages (pos 0) zi) mi)
        (minfree_verdict c level mi zi)
unfolding minfree_verdict
minfree-IsAtLeast c level mi zi h =
    let score = minfree_score c.targets (totalreserve_pages (pos 0) zi) mi in
    let range = minfree_score-IsConfigured c.targets (totalreserve_pages (pos 0) zi) mi h in
    elim (Bool-cases (score ==ℤ pos 1001)) [
      | inl e ↦ rw e tt
      | inr e ↦ rw e (omega arith, range.0, range.1)
    ]

at_level-IsAtLeast :
    (c : Props) (level : Level)
    → LevelsConfigured c
    → VerdictIsAtLeast (negsuc 999) (at_level c level)
unfolding at_level
at_level-IsAtLeast c level h = ((h level).0, (h level).0, (h level).1)

pressure-IsAtLeast :
    (c : Props) (mi : Meminfo) (p : ℤ) (level : Level)
    → LevelsConfigured c
    → VerdictIsAtLeast (negsuc 999) (pressure_verdict c mi p level)
unfolding pressure_verdict
pressure-IsAtLeast c mi p level h =
    let up = upgraded c p level in
    elim (Bool-cases (has_swap c mi)) [
      | inr e ↦ rw e (at_level-IsAtLeast c up h)
      | inl e ↦ elim (Bool-cases (c.downgrade_pressure <? p)) [
        | inl f ↦ simp (e, f) tt
        | inr f ↦ simp (e, f) (at_level-IsAtLeast c (downgraded c p up) h)
      ]
    ]

pub usage-IsAtLeast :
    (c : Props) (r : VmReadings) (mi : Meminfo) (level : Level)
    → LevelsConfigured c
    → VerdictIsAtLeast (negsuc 999) (usage_verdict c r mi level)
unfolding usage_verdict
usage-IsAtLeast c r mi level h =
    let mem = get_memory_usage r.mem_usage in
    let memsw = get_memory_usage r.memsw_usage in
    elim (Bool-cases (oom_score_adj_max <? level_oomadj c level)) [
      | inl e ↦ rw e tt
      | inr e ↦ elim (Bool-cases (mem <? pos 0 || memsw <? pos 0)) [
        | inl f ↦ rw (e, f) (at_level-IsAtLeast c level h)
        | inr f ↦ rw (e, f) (pressure-IsAtLeast c mi (mem *ℤ pos 100 /ℤ memsw) level h)
      ]
    ]

-- ===== src/Monitors/Reinit.antt =====
-- `init_monitors` and `destroy_monitors` as LMK_UPDATE_PROPS uses them: what one undoes of the other.
use system_memory_lmkd.Base.{
  ℕ, ◌+◌, ◌≡◌, ◌∙◌, refl, Bool, true, false, not, ◌&&◌, [], ◌++◌, arith, inl, inr, Bool-cases,
  if◌then◌else◌,
}
use system_memory_lmkd.Base.Int.{ℤ, eq_of_parts}
use system_memory_lmkd.Monitors.Balance.{Books, clean-Books}
use system_memory_lmkd.Monitors.Ledger.{
  opened, closed, DifferAs, Kept, no_leak, same-Kept, then-Kept, watched, held,
}
use system_memory_lmkd.Monitors.Levels.{
  AllClosed, init_levels-Books, init_levels-fails, init_common-Books, destroy_monitors-Kept,
  destroy_monitors-Closed, pressure_files,
}
use system_memory_lmkd.Monitors.{
  Monitors, PressureFiles, Step, stay, then_also, and_then, register, init_mp_common, override,
  use_new, init_levels, init_psi_monitors, init_common, using_psi, mark_initialized, may_use_psi,
  try_psi, init_monitors, destroy_monitors,
}
use system_memory_lmkd.Props.{Props, Properties}

one_flag :
    (k : PressureFiles) (level : ℕ) (m : Monitors)
    → (init_mp_common k level m).monitors.use_psi_monitors ≡ m.use_psi_monitors
unfolding init_mp_common stay register
one_flag k level m = ground arith

next_flag :
    (k : PressureFiles) (level : ℕ) (s : Step)
    → (and_then (init_mp_common k level) s).monitors.use_psi_monitors ≡ s.monitors.use_psi_monitors
unfolding and_then
next_flag k level s = elim (Bool-cases s.ok) [
  | inl e ↦ simp e (one_flag k level s.monitors)
  | inr e ↦ simp e refl
]

common_flag :
    (k : PressureFiles) (m : Monitors)
    → (init_common k m).monitors.use_psi_monitors ≡ m.use_psi_monitors
unfolding init_common
common_flag k m =
    let s = init_mp_common k 0 m in
    next_flag k 2 (and_then (init_mp_common k 1) s) ∙ next_flag k 1 s ∙ one_flag k 0 m

module _ (c : Props) (ps : Properties) (k : PressureFiles) (m : Monitors)
    (closed_all : AllClosed m) where
  stay-Books : Books no_leak m (stay m false [])
  unfolding stay
  stay-Books = clean-Books m (stay m false []) (same-Kept m)

  -- The thresholds are not in the books.
  overridden-Books : (new : Bool) → Books no_leak m (init_levels k new (override c new m))
  unfolding override
  overridden-Books true =
      let b = init_levels-Books k true (override c true m) closed_all in
      record {
        leak = b.leak;
        kept = record { events = b.kept.events; descriptors = b.kept.descriptors };
        at_most = b.at_most;
        exactly = b.exactly;
      }
  overridden-Books false = init_levels-Books k false m closed_all

  overridden-fails :
      (new : Bool)
      → (init_levels k new (override c new m)).ok ≡ false
      → AllClosed (init_levels k new (override c new m)).monitors
  unfolding override
  overridden-fails true = init_levels-fails k true (override c true m) closed_all
  overridden-fails false = init_levels-fails k false m closed_all

  psi-Books : Books no_leak m (init_psi_monitors c ps k m)
  unfolding init_psi_monitors
  psi-Books = elim (Bool-cases (not (use_new c ps) && not k.is_memcg_v1)) [
    | inl e ↦ rw (e, init_psi_monitors) stay-Books
    | inr e ↦ rw (e, init_psi_monitors) (overridden-Books (use_new c ps))
  ]

  psi-fails :
      (init_psi_monitors c ps k m).ok ≡ false → AllClosed (init_psi_monitors c ps k m).monitors
  unfolding init_psi_monitors stay
  psi-fails = elim (Bool-cases (not (use_new c ps) && not k.is_memcg_v1)) [
    | inl e ↦ rw (e, init_psi_monitors) (λ f. closed_all)
    | inr e ↦ rw (e, init_psi_monitors) (overridden-fails (use_new c ps))
  ]

  tried-Books : Books no_leak m (try_psi c ps k m)
  unfolding try_psi
  tried-Books = elim (Bool-cases (may_use_psi ps)) [
    | inl e ↦ rw (e, try_psi) psi-Books
    | inr e ↦ rw (e, try_psi) stay-Books
  ]

  tried-fails : (try_psi c ps k m).ok ≡ false → AllClosed (try_psi c ps k m).monitors
  unfolding try_psi stay
  tried-fails = elim (Bool-cases (may_use_psi ps)) [
    | inl e ↦ rw (e, try_psi) psi-fails
    | inr e ↦ rw (e, try_psi) (λ f. closed_all)
  ]

  -- What an initialization leaks: nothing with psi monitors.
  record Initialized (i : Step) : Type 0 where
    leak : ℤ → ℕ
    kept : Kept leak m i.monitors i.effects
    psi : (q : ℤ) → i.monitors.use_psi_monitors ≡ true → leak q ≡ 0
    common :
        (q : ℤ) → i.monitors.use_psi_monitors ≡ false → i.ok ≡ true → leak q ≡ pressure_files k q

  marked : (i : Step) → Initialized i → Initialized (mark_initialized i)
  unfolding mark_initialized
  marked i h = elim (Bool-cases i.ok) [
    | inl e ↦
        simp (e, mark_initialized)
          (record {
            leak = h.leak;
            kept = record { events = h.kept.events; descriptors = h.kept.descriptors };
            psi = h.psi;
            common = λ q f g. h.common q f e;
          })
    | inr e ↦ simp (e, mark_initialized) h
  ]

  either :
      (b : Bool) (i j : Step)
      → (b ≡ true → Initialized i)
      → (b ≡ false → Initialized j)
      → Initialized (if b then i else j)
  either true i j h n = h refl
  either false i j h n = n refl

  by_psi : Initialized (using_psi true (try_psi c ps k m))
  unfolding using_psi
  by_psi =
      let b = tried-Books in
      record {
        leak = b.leak;
        kept = record { events = b.kept.events; descriptors = b.kept.descriptors };
        psi = λ q f. omega (arith, b.at_most q);
        common = λ q f. absurd (ground (arith, f));
      }

  by_common :
      (try_psi c ps k m).ok ≡ false
      → Initialized (then_also (init_common k) (using_psi false (try_psi c ps k m)))
  unfolding using_psi then_also
  by_common e =
      let s = try_psi c ps k m in
      let b = tried-Books in
      let t = (using_psi false s).monitors in
      let n = init_common-Books k t (tried-fails e) in
      record {
        leak = λ q. b.leak q + n.leak q;
        kept =
            then-Kept b.leak n.leak m t (init_common k t).monitors s.effects
              (init_common k t).effects
              (record { events = b.kept.events; descriptors = b.kept.descriptors }) n.kept;
        psi = λ q f. absurd (ground (arith, f, common_flag k t));
        common = λ q f g. omega (arith, b.at_most q, n.exactly q g);
      }

  initialized : Initialized (init_monitors c ps k m)
  unfolding init_monitors
  initialized =
      let s = try_psi c ps k m in
      let fallback = then_also (init_common k) (using_psi false s) in
      either s.ok (mark_initialized (using_psi true s)) (mark_initialized fallback)
        (λ e. marked (using_psi true s) by_psi) (λ e. marked fallback (by_common e))

unwatched : (m : Monitors) → AllClosed m → watched m ≡ 0
unwatched m (a, b, c) = rw (a, b, c) refl

unheld : (q : ℤ) (m : Monitors) → AllClosed m → held q m ≡ 0
unheld q m (a, b, c) = rw (a, b, c) refl

-- Destroying the monitors undoes their initialization: from monitors of which no level is watched,
-- whatever the kernel answers and whether or not the initialization succeeds, no level is watched
-- afterwards and as many events are waited for as before.
pub destroy-init_monitors :
    (c : Props) (ps : Properties) (k : PressureFiles) (m : Monitors)
    → AllClosed m
    → let i = init_monitors c ps k m in
      let d = destroy_monitors i.monitors in
      (d.monitors.maxevents ≡ m.maxevents) × AllClosed d.monitors
destroy-init_monitors c ps k m closed_all =
    let i = init_monitors c ps k m in
    let d = destroy_monitors i.monitors in
    let h = initialized c ps k m closed_all in
    let after = destroy_monitors-Closed i.monitors in
    let kept =
      then-Kept h.leak no_leak m i.monitors d.monitors i.effects d.effects h.kept
        (destroy_monitors-Kept i.monitors) in
    (
      eq_of_parts d.monitors.maxevents m.maxevents
          (omega (arith, kept.events, unwatched m closed_all, unwatched d.monitors after)),
      after,
    )

pub init_monitors-events :
    (c : Props) (ps : Properties) (k : PressureFiles) (m : Monitors)
    → AllClosed m
    → let m' = (init_monitors c ps k m).monitors in DifferAs m'.maxevents m.maxevents (watched m') 0
init_monitors-events c ps k m closed_all =
    omega (arith, (initialized c ps k m closed_all).kept.events, unwatched m closed_all)

reinit-descriptors :
    (c : Props) (ps : Properties) (k : PressureFiles) (m : Monitors) (closed_all : AllClosed m)
    (q : ℤ)
    → let i = init_monitors c ps k m in
      let es = i.effects ++ (destroy_monitors i.monitors).effects in
      opened q es ≡ closed q es + (initialized c ps k m closed_all).leak q
reinit-descriptors c ps k m closed_all q =
    let i = init_monitors c ps k m in
    let d = destroy_monitors i.monitors in
    let h = initialized c ps k m closed_all in
    let kept =
      then-Kept h.leak no_leak m i.monitors d.monitors i.effects d.effects h.kept
        (destroy_monitors-Kept i.monitors) in
    omega (
      arith,
      kept.descriptors q,
      unheld q m closed_all,
      unheld q d.monitors (destroy_monitors-Closed i.monitors),
    )

-- With psi monitors, from monitors of which no level is watched: the initialization and the
-- destruction together close each descriptor as often as they open it.
pub psi-destroy-init :
    (c : Props) (ps : Properties) (k : PressureFiles) (m : Monitors) (q : ℤ)
    → AllClosed m
    → (init_monitors c ps k m).monitors.use_psi_monitors ≡ true
    → let i = init_monitors c ps k m in
      let es = i.effects ++ (destroy_monitors i.monitors).effects in opened q es ≡ closed q es
psi-destroy-init c ps k m q closed_all e =
    omega
      (arith, reinit-descriptors c ps k m closed_all q, (initialized c ps k m closed_all).psi q e)

-- With the monitors of memory cgroups, all three set up from monitors of which no level is watched:
-- the three descriptors of the pressure files are opened once more than they are closed, by the
-- initialization and the destruction together; every other one is closed as often as it is opened.
pub common-destroy-init :
    (c : Props) (ps : Properties) (k : PressureFiles) (m : Monitors) (q : ℤ)
    → AllClosed m
    → (init_monitors c ps k m).monitors.use_psi_monitors ≡ false
    → (init_monitors c ps k m).ok ≡ true
    → let i = init_monitors c ps k m in
      let es = i.effects ++ (destroy_monitors i.monitors).effects in
      opened q es ≡ closed q es + pressure_files k q
common-destroy-init c ps k m q closed_all e f = omega (
  arith,
  reinit-descriptors c ps k m closed_all q,
  (initialized c ps k m closed_all).common q e f,
)

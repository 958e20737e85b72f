-- ===== src/Monitors/Levels.antt =====
-- The three levels together: `init_psi_monitors`, the loop over `init_mp_common`, and
-- `destroy_monitors`.
use system_memory_lmkd.Base.{
  ℕ, ◌+◌, ◌<◌, ◌≡◌, ◌∙◌, refl, Bool, false, ◌==◌, arith, inl, inr, Bool-cases, if◌then◌else◌,
}
use system_memory_lmkd.Base.Int.{ℤ}
use system_memory_lmkd.Monitors.Balance.{
  Books, Closed, Spares, clean-Books, and_then-Books, or_clear-Books, destroy-Spares,
  init_psi-Spares, init_common-Spares, destroy-Closed, failed-Spares,
}
use system_memory_lmkd.Monitors.Ledger.{
  Kept, no_leak, then-Kept, destroy-Kept, init_psi-Kept, init_common-Kept, pressure_file,
}
use system_memory_lmkd.Monitors.{
  Monitors, PressureFiles, Step, init_mp_psi, destroy_mp, and_then, or_clear, then_also,
  init_mp_common, init_levels, init_common, destroy_monitors,
}

abbrev pub AllClosed : Monitors → Type 0
AllClosed m = Closed 0 m × Closed 1 m × Closed 2 m

then_also-Kept :
    (f g : ℤ → ℕ) (m : Monitors) (s : Step) (step : Monitors → Step)
    → Kept f m s.monitors s.effects
    → Kept g s.monitors (step s.monitors).monitors (step s.monitors).effects
    → Kept (λ q. f q + g q) m (then_also step s).monitors (then_also step s).effects
unfolding then_also
then_also-Kept f g m s step a b =
    then-Kept f g m s.monitors (step s.monitors).monitors s.effects (step s.monitors).effects a b

and_then-Closed :
    (j : ℕ) (s : Step) (step : Monitors → Step)
    → Closed j s.monitors
    → Spares j s.monitors (step s.monitors)
    → Closed j (and_then step s).monitors
unfolding and_then
and_then-Closed j s step c e = elim (Bool-cases s.ok) [ inl o ↦ simp o (rw e c) | inr o ↦ simp o c ]

or_clear-Spares :
    (j : ℕ) (m : Monitors) (s : Step) (step : Monitors → Step)
    → Spares j m s
    → Spares j s.monitors (step s.monitors)
    → Spares j m (or_clear step s)
unfolding or_clear
or_clear-Spares j m s step a b = elim (Bool-cases s.ok) [
  | inl o ↦ simp o a
  | inr o ↦ simp o (b ∙ a)
]

module _ (k : PressureFiles) (new : Bool) where
  -- The second and the third level, with what clears up after them.
  abbrev second : Monitors → Step
  second m = or_clear (destroy_mp 0) (init_mp_psi k 1 new m)

  abbrev third : Monitors → Step
  third m = or_clear (λ m. then_also (destroy_mp 0) (destroy_mp 1 m)) (init_mp_psi k 2 new m)

  second-Books : (m : Monitors) → Closed 1 m → Books no_leak m (second m)
  second-Books m c =
      let s = init_mp_psi k 1 new m in
      or_clear-Books no_leak m s (clean-Books m s (init_psi-Kept k m 1 new (omega arith) c))
        (destroy_mp 0) (destroy-Kept s.monitors 0 (omega arith))

  third-Books : (m : Monitors) → Closed 2 m → Books no_leak m (third m)
  third-Books m c =
      let s = init_mp_psi k 2 new m in
      let d = destroy_mp 1 s.monitors in
      or_clear-Books no_leak m s (clean-Books m s (init_psi-Kept k m 2 new (omega arith) c))
        (λ m. then_also (destroy_mp 0) (destroy_mp 1 m))
        (then_also-Kept no_leak no_leak s.monitors d (destroy_mp 0)
          (destroy-Kept s.monitors 1 (omega arith)) (destroy-Kept d.monitors 0 (omega arith)))

  module _ (m : Monitors) (c : AllClosed m) where
    abbrev one : Step
    one = init_mp_psi k 0 new m

    abbrev two : Step
    two = and_then second one

    one-Closed : (j : ℕ) → (j == 0) ≡ false → Closed j m → Closed j one.monitors
    one-Closed j o h = rw (init_psi-Spares 0 j o k new m) h

    two-Closed : Closed 2 two.monitors
    two-Closed = and_then-Closed 2 one second (one-Closed 2 refl c.2) (
        or_clear-Spares 2 one.monitors (init_mp_psi k 1 new one.monitors) (destroy_mp 0)
          (init_psi-Spares 1 2 refl k new one.monitors)
          (destroy-Spares 0 2 refl (init_mp_psi k 1 new one.monitors).monitors))

    pub init_levels-Books : Books no_leak m (init_levels k new m)
    unfolding init_levels
    init_levels-Books =
        and_then-Books no_leak no_leak m two
          (and_then-Books no_leak no_leak m one
            (clean-Books m one (init_psi-Kept k m 0 new (omega arith) c.0)) second
            (second-Books one.monitors (one-Closed 1 refl c.1)))
          third (third-Books two.monitors two-Closed)

    -- A failure leaves no level watched.
    one-fails : one.ok ≡ false → AllClosed one.monitors
    one-fails e = (
      rw (failed-Spares 0 k new m e) c.0,
      rw (init_psi-Spares 0 1 refl k new m) c.1,
      rw (init_psi-Spares 0 2 refl k new m) c.2,
    )

  second-fails :
      (m : Monitors)
      → Closed 1 m
      → Closed 2 m
      → (second m).ok ≡ false
      → AllClosed (second m).monitors
  unfolding or_clear
  second-fails m a b e =
      let s = init_mp_psi k 1 new m in
      elim (Bool-cases s.ok) [
        | inl o ↦ absurd (ground (arith, o, e))
        | inr o ↦ simp o (
          destroy-Closed 0 s.monitors,
          rw (destroy-Spares 0 1 refl s.monitors, failed-Spares 1 k new m o) a,
          rw (destroy-Spares 0 2 refl s.monitors, init_psi-Spares 1 2 refl k new m) b,
        )
      ]

  third-fails : (m : Monitors) → Closed 2 m → (third m).ok ≡ false → AllClosed (third m).monitors
  unfolding or_clear then_also
  third-fails m b e =
      let s = init_mp_psi k 2 new m in
      let d = destroy_mp 1 s.monitors in
      elim (Bool-cases s.ok) [
        | inl o ↦ absurd (ground (arith, o, e))
        | inr o ↦ simp o (
          destroy-Closed 0 d.monitors,
          rw (destroy-Spares 0 1 refl d.monitors) (destroy-Closed 1 s.monitors),
          rw
              (
                destroy-Spares 0 2 refl d.monitors,
                destroy-Spares 1 2 refl s.monitors,
                failed-Spares 2 k new m o,
              )
              b,
        )
      ]

  and_then-fails :
      (s : Step) (step : Monitors → Step)
      → (s.ok ≡ false → AllClosed s.monitors)
      → ((step s.monitors).ok ≡ false → AllClosed (step s.monitors).monitors)
      → (and_then step s).ok ≡ false
      → AllClosed (and_then step s).monitors
  unfolding and_then
  and_then-fails s step a b e = elim (Bool-cases s.ok) [
    | inl o ↦ simp o (b (simp o at e))
    | inr o ↦ simp o (a o)
  ]

  pub init_levels-fails :
      (m : Monitors)
      → AllClosed m
      → (init_levels k new m).ok ≡ false
      → AllClosed (init_levels k new m).monitors
  unfolding init_levels
  init_levels-fails m c =
      let s = init_mp_psi k 0 new m in
      and_then-fails (two m c) third
        (and_then-fails s second (one-fails m c)
          (second-fails s.monitors (one-Closed m c 1 refl c.1) (one-Closed m c 2 refl c.2)))
        (third-fails (two m c).monitors (two-Closed m c))

-- What the three monitors of memory cgroups leak.
abbrev pub pressure_files : PressureFiles → ℤ → ℕ
pressure_files k q = pressure_file k 0 q + pressure_file k 1 q + pressure_file k 2 q

one_common-Books :
    (k : PressureFiles) (m : Monitors) (level : ℕ)
    → level < 3
    → Closed level m
    → Books (pressure_file k level) m (init_mp_common k level m)
one_common-Books k m level l c = record {
  leak = if (init_mp_common k level m).ok then pressure_file k level else no_leak;
  kept = init_common-Kept k m level l c;
  at_most = λ q. elim (Bool-cases (init_mp_common k level m).ok) [
    | inl o ↦ rw o (omega arith)
    | inr o ↦ rw o (omega arith)
  ];
  exactly = λ q e. rw e refl;
}

pub init_common-Books :
    (k : PressureFiles) (m : Monitors) → AllClosed m → Books (pressure_files k) m (init_common k m)
unfolding init_common
init_common-Books k m (a, b, c) =
    let s = init_mp_common k 0 m in
    let t = and_then (init_mp_common k 1) s in
    let s_closed : (j : ℕ) → (j == 0) ≡ false → Closed j m → Closed j s.monitors =
      λ j o h. rw (init_common-Spares 0 j o k m) h in
    let t_closed : Closed 2 t.monitors =
      and_then-Closed 2 s (init_mp_common k 1) (s_closed 2 refl c)
        (init_common-Spares 1 2 refl k s.monitors) in
    and_then-Books (λ q. pressure_file k 0 q + pressure_file k 1 q) (pressure_file k 2) m t
      (and_then-Books (pressure_file k 0) (pressure_file k 1) m s
        (one_common-Books k m 0 (omega arith) a) (init_mp_common k 1)
        (one_common-Books k s.monitors 1 (omega arith) (s_closed 1 refl b)))
      (init_mp_common k 2) (one_common-Books k t.monitors 2 (omega arith) t_closed)

pub destroy_monitors-Kept :
    (m : Monitors) → Kept no_leak m (destroy_monitors m).monitors (destroy_monitors m).effects
unfolding destroy_monitors
destroy_monitors-Kept m =
    let s = destroy_mp 2 m in
    let t = then_also (destroy_mp 1) s in
    then_also-Kept no_leak no_leak m t (destroy_mp 0)
      (then_also-Kept no_leak no_leak m s (destroy_mp 1) (destroy-Kept m 2 (omega arith))
        (destroy-Kept s.monitors 1 (omega arith)))
      (destroy-Kept t.monitors 0 (omega arith))

pub destroy_monitors-Closed : (m : Monitors) → AllClosed (destroy_monitors m).monitors
unfolding destroy_monitors then_also
destroy_monitors-Closed m =
    let s = destroy_mp 2 m in
    let t = destroy_mp 1 s.monitors in
    (
      destroy-Closed 0 t.monitors,
      rw (destroy-Spares 0 1 refl t.monitors) (destroy-Closed 1 s.monitors),
      rw (destroy-Spares 0 2 refl t.monitors, destroy-Spares 1 2 refl s.monitors)
          (destroy-Closed 2 m),
    )

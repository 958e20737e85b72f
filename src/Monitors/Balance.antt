-- ===== src/Monitors/Balance.antt =====
-- Each composite step of the monitors keeps the books, and touches no more levels than it should.
use system_memory_lmkd.Base.{
  ℕ, ◌+◌, ◌≤◌, ◌≡◌, refl, Bool, true, false, ◌++◌, ◌==◌, arith, inl, inr, Bool-cases,
}
use system_memory_lmkd.Base.Int.{ℤ, pos, ◌<?◌}
use system_memory_lmkd.Monitors.Ledger.{Kept, no_leak, then-Kept}
use system_memory_lmkd.Monitors.{
  Monitors, PressureFiles, Step, stay, register, init_mp_psi, init_psi_monitor, destroy_mp,
  and_then, or_clear, init_mp_common,
}

-- A step, with what it leaks: at most so much, and exactly that when it succeeds.
pub record Books (most : ℤ → ℕ) (m : Monitors) (s : Step) : Type 0 where
  pub leak : ℤ → ℕ
  pub kept : Kept leak m s.monitors s.effects
  pub at_most : (q : ℤ) → leak q ≤ most q
  pub exactly : (q : ℤ) → s.ok ≡ true → leak q ≡ most q

-- A level that is not watched, and one that a step leaves alone.
abbrev pub Closed : ℕ → Monitors → Type 0
Closed level m = (m.mpevfd level <? pos 0) ≡ true

abbrev pub Spares : ℕ → Monitors → Step → Type 0
Spares level m s = s.monitors.mpevfd level ≡ m.mpevfd level

pub clean-Books :
    (m : Monitors) (s : Step) → Kept no_leak m s.monitors s.effects → Books no_leak m s
clean-Books m s h = record {
  leak = no_leak;
  kept = h;
  at_most = λ q. omega arith;
  exactly = λ q e. refl;
}

module _ (f g : ℤ → ℕ) (m : Monitors) (s : Step) (b : Books f m s) (step : Monitors → Step)
    (n : Books g s.monitors (step s.monitors)) where
  both-Kept :
      Kept
        (λ q. b.leak q + n.leak q)
        m
        (step s.monitors).monitors
        (s.effects ++ (step s.monitors).effects)
  both-Kept =
      then-Kept b.leak n.leak m s.monitors (step s.monitors).monitors s.effects
        (step s.monitors).effects b.kept n.kept

  pub and_then-Books : Books (λ q. f q + g q) m (and_then step s)
  unfolding and_then
  and_then-Books = elim (Bool-cases s.ok) [
    | inl e ↦ simp e (record {
      leak = λ q. b.leak q + n.leak q;
      kept = both-Kept;
      at_most = λ q. omega (arith, b.at_most q, n.at_most q);
      exactly = λ q k. omega (arith, b.exactly q e, n.exactly q k);
    })
    | inr e ↦ simp e (record {
      leak = b.leak;
      kept = b.kept;
      at_most = λ q. omega (arith, b.at_most q);
      exactly = λ q k. absurd (ground (arith, e, k));
    })
  ]

-- Clearing up and destroying leak nothing.
module _ (f : ℤ → ℕ) (m : Monitors) (s : Step) (b : Books f m s) (step : Monitors → Step)
    (n : Kept no_leak s.monitors (step s.monitors).monitors (step s.monitors).effects) where
  cleared-Kept :
      Kept (λ q. b.leak q + 0) m (step s.monitors).monitors (s.effects ++ (step s.monitors).effects)
  cleared-Kept =
      then-Kept b.leak no_leak m s.monitors (step s.monitors).monitors s.effects
        (step s.monitors).effects b.kept n

  pub or_clear-Books : Books f m (or_clear step s)
  unfolding or_clear
  or_clear-Books = elim (Bool-cases s.ok) [
    | inl e ↦ simp e b
    | inr e ↦ simp e (record {
      leak = λ q. b.leak q + 0;
      kept = cleared-Kept;
      at_most = λ q. omega (arith, b.at_most q);
      exactly = λ q k. absurd (ground (arith, e, k));
    })
  ]

module _ (level j : ℕ) (other : (j == level) ≡ false) where
  pub destroy-Spares : (m : Monitors) → Spares j m (destroy_mp level m)
  unfolding destroy_mp stay
  destroy-Spares m = elim (Bool-cases (m.mpevfd level <? pos 0)) [
    | inl e ↦ rw (e, destroy_mp) refl
    | inr e ↦ rw (e, destroy_mp, other) refl
  ]

  pub init_psi-Spares :
      (k : PressureFiles) (new : Bool) (m : Monitors) → Spares j m (init_mp_psi k level new m)
  unfolding init_mp_psi init_psi_monitor stay register
  init_psi-Spares k new m = ground (arith, other)

  pub init_common-Spares :
      (k : PressureFiles) (m : Monitors) → Spares j m (init_mp_common k level m)
  unfolding init_mp_common stay register
  init_common-Spares k m = ground (arith, other)

pub destroy-Closed : (level : ℕ) (m : Monitors) → Closed level (destroy_mp level m).monitors
unfolding destroy_mp stay
destroy-Closed level m = ground arith

-- A monitor that cannot be set up leaves its level alone.
pub failed-Spares :
    (level : ℕ) (k : PressureFiles) (new : Bool) (m : Monitors)
    → (init_mp_psi k level new m).ok ≡ false
    → Spares level m (init_mp_psi k level new m)
unfolding init_mp_psi init_psi_monitor stay register
failed-Spares level k new m e = ground (arith, e)

-- ===== src/Watchdog/Victim.antt =====
-- Which process the watchdog kills.
use mathlib.Core.Path.{subst}
use system_memory_lmkd.Base.{
  ℕ, zero, suc, ◌+◌, ◌*◌, ◌≤◌, ◌<◌, ◌≡◌, refl, true, false, Option, none, some, All, length, arith,
  inl, inr, ◌⊎◌, Bool-cases,
}
use system_memory_lmkd.Base.Int.{ℤ, pos, negsuc, ◌-ℤ◌, ◌≤ℤ◌, ◌<ℤ◌, ◌==ℤ◌, ==ℤ_iff}
use system_memory_lmkd.Reaper.{Reaper, Signals}
use system_memory_lmkd.Registry.Chain.{Proc, occurrences}
use system_memory_lmkd.Registry.Hash.{adj_to_slot, adj_to_slot_injective, IsScore}
use system_memory_lmkd.Registry.Invariant.{IsValid, HasScore}
use system_memory_lmkd.Registry.{Registry, pid_lookup}
use system_memory_lmkd.Watchdog.Backwards.{All-occurs, occurrences-backwards}
use system_memory_lmkd.Watchdog.Level.{Bites, level-cases, Resists}
use system_memory_lmkd.Watchdog.{
  backwards, is_killed, Bite, spared, bitten, bite, watchdog_callback,
}

-- The score below the first `m` scores from 0 on.
abbrev below : ℕ → ℤ
below zero = negsuc 0
below (suc m) = pos m

minus_one : (m : ℕ) → pos m -ℤ pos 1 ≡ below m
unfolding ◌-ℤ◌
minus_one m = ground arith

module _ (k : Signals) (reaper : Reaper) (r : Registry) where
  -- No process registered at a score between the two can be killed.
  abbrev pub Spared : ℤ → ℤ → Type 0
  Spared low high =
      (q : ℤ) (p : Proc)
      → pid_lookup r q ≡ some p
      → low <ℤ p.oomadj
      → p.oomadj <ℤ high
      → is_killed k reaper p ≡ false

  -- Either nobody is killed, and no process with a score below the last one could be, or a process
  -- that none with a greater score could be killed in place of.
  abbrev pub Chosen : ℤ → Option Bite → Type 0
  Chosen high run =
      ((run ≡ some spared) × Spared (negsuc 0) high)
      ⊎ ((p : Proc) × (run ≡ some (bitten p))
          × (pid_lookup r p.pid ≡ some p)
          × (is_killed k reaper p ≡ true)
          × (pos 0 ≤ℤ p.oomadj)
          × Spared p.oomadj high)

module _ (k : Signals) (reaper : Reaper) (r : Registry) (v : IsValid r)
    (no_zero : pid_lookup r (pos 0) ≡ none) (most : ℕ)
    (short : (t : ℕ) → length (r.slots t) ≤ most) where
  lookup-IsScore : (q : ℤ) (p : Proc) → pid_lookup r q ≡ some p → IsScore p.oomadj
  lookup-IsScore q p e = subst HasScore e (v.scored q)

  -- A level that was tried in full.
  level-Resists :
      (m : ℕ) (q : ℤ) (p : Proc)
      → All (Resists k reaper r v no_zero) (backwards (r.slots (adj_to_slot (pos m))))
      → pid_lookup r q ≡ some p
      → p.oomadj ≡ pos m
      → is_killed k reaper p ≡ false
  level-Resists m q p all e a =
      let slot = adj_to_slot (pos m) in
      let present : 1 ≤ occurrences q (backwards (r.slots slot)) =
        ground (arith, occurrences-backwards q (r.slots slot), v.slotted q slot, e, a) in
      All-occurs (Resists k reaper r v no_zero) q (backwards (r.slots slot)) all present p e

  extend-Spared :
      (m : ℕ) (low : ℤ)
      → All (Resists k reaper r v no_zero) (backwards (r.slots (adj_to_slot (pos m))))
      → Spared k reaper r low (pos m)
      → Spared k reaper r low (pos (suc m))
  extend-Spared m low all s q p f above under = elim (Bool-cases (p.oomadj ==ℤ pos m)) [
    | inl e ↦ level-Resists m q p all f ((==ℤ_iff p.oomadj (pos m)).0 e)
    | inr e ↦ s q p f above (ground (arith, e, under))
  ]

  extend-Chosen :
      (m : ℕ) (run : Option Bite)
      → All (Resists k reaper r v no_zero) (backwards (r.slots (adj_to_slot (pos m))))
      → Chosen k reaper r (pos m) run
      → Chosen k reaper r (pos (suc m)) run
  extend-Chosen m run all (inl (e, s)) = inl (e, extend-Spared m (negsuc 0) all s)
  extend-Chosen m run all (inr (p, e, here, dead, a, s)) =
      inr (p, e, here, dead, a, extend-Spared m p.oomadj all s)

  victim-oomadj :
      (m : ℕ) (run : Option Bite) (b : Bites k reaper r v no_zero (pos m) run)
      → m ≤ 1000
      → b.victim.oomadj ≡ pos m
  victim-oomadj m run b t =
      adj_to_slot_injective b.victim.oomadj (pos m) (lookup-IsScore b.victim.pid b.victim b.here)
        (omega (arith, t)) b.slot

  bites-Chosen :
      (m : ℕ) (run : Option Bite)
      → Bites k reaper r v no_zero (pos m) run
      → m ≤ 1000
      → Chosen k reaper r (pos (suc m)) run
  bites-Chosen m run b t =
      let e = victim-oomadj m run b t in
      inr (
        b.victim,
        b.ends,
        b.here,
        b.killed,
        ground (arith, e),
        λ q p f above under. absurd (ground (arith, e, above, under)),
      )

  scores :
      (m f n : ℕ)
      → m ≤ 1001
      → m * (most + 1) < f
      → Chosen k reaper r (pos m) (bite k reaper (λ n. r) f n (below m) (pos 0))
  unfolding bite
  scores zero zero n t h = absurd (omega (arith, h))
  scores zero (suc f) n t h = inl (refl, λ q p e low high. absurd (omega (arith, low, high)))
  scores (suc m) f n t h =
      let run = bite k reaper (λ n. r) f n (pos m) (pos 0) in
      let fuel = m * (most + 1) + 1 in
      let enough : length (r.slots (adj_to_slot (pos m))) + fuel < f =
        omega (arith, h, short (adj_to_slot (pos m))) in
      elim (level-cases k reaper r v no_zero fuel f n (pos m) (ground arith) enough) [
        | inr b ↦ bites-Chosen m run b (omega (arith, t))
        | inl d ↦
            let rest = scores m d.left d.calls (omega (arith, t)) (omega (arith, d.enough)) in
            extend-Chosen m run d.resist (rw (d.goes_on, minus_one m) rest)
      ]

-- Over a registry that is well formed, has no process 0 and stays as it is meanwhile, the callback
-- ends without reading a null pointer, with fuel for a call for each process and one more at each
-- of the 1001 scores from 0 on. Its victim is registered, with a score that is not negative, and no
-- process of a higher score could be killed; and when there is no victim, no process whose score is
-- not negative could be.
pub watchdog_callback-Chosen :
    (k : Signals) (reaper : Reaper) (r : Registry) (most fuel : ℕ)
    → IsValid r
    → pid_lookup r (pos 0) ≡ none
    → ((t : ℕ) → length (r.slots t) ≤ most)
    → 1001 * (most + 1) < fuel
    → Chosen k reaper r (pos 1001) (watchdog_callback k reaper (λ n. r) fuel)
unfolding watchdog_callback
watchdog_callback-Chosen k reaper r most fuel v no_zero short h =
    scores k reaper r v no_zero most short 1001 fuel 0 (omega arith) h

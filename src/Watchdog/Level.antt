-- ===== src/Watchdog/Level.antt =====
-- The callback at one score, over a registry that the main thread leaves alone: it tries each process
-- from the tail on, once, and goes on to the next lower score when none dies.
use system_memory_lmkd.Base.{
  ℕ, zero, suc, ◌+◌, ◌≤◌, ◌<◌, ◌≡◌, ◌∙◌, refl, sym, ap, true, false, Option, none, some, List, [],
  ◌∷◌, ◌++◌, All, length, arith, inl, inr, ◌⊎◌, Bool-cases, Option-cases,
}
use system_memory_lmkd.Base.Int.{ℤ, pos, ◌==ℤ◌, ==ℤ_iff, ◌<?◌, ◌-ℤ◌}
use system_memory_lmkd.Reaper.{Reaper, Signals}
use system_memory_lmkd.Registry.Chain.{Proc, occurrences}
use system_memory_lmkd.Registry.Hash.{adj_to_slot}
use system_memory_lmkd.Registry.Invariant.{IsValid, lookup-pid}
use system_memory_lmkd.Registry.{Registry, pid_lookup, proc_adj_tail}
use system_memory_lmkd.Watchdog.Backwards.{
  first, next_of, last-backwards, length-backwards, occurrences-backwards, prev_among-append,
  occurrences-within, occurs-within,
}
use system_memory_lmkd.Watchdog.{
  backwards, null, node, prev_among, proc_adj_prev, tail_node, Found, nothing, found, copy,
  target_at, or_tail, find_victim, is_killed, Bite, bitten, bite,
}

module _ (k : Signals) (reaper : Reaper) (r : Registry) (v : IsValid r)
    (no_zero : pid_lookup r (pos 0) ≡ none) where
  -- The process that the pid is registered for cannot be killed.
  abbrev pub Resists : ℤ → Type 0
  Resists q = (p : Proc) → pid_lookup r q ≡ some p → is_killed k reaper p ≡ false

  abbrev nodes : ℤ → List ℤ
  nodes a = backwards (r.slots (adj_to_slot a))

  once : (q a : ℤ) → occurrences q (nodes a) ≤ 1
  once q a =
      rw (occurrences-backwards q (r.slots (adj_to_slot a)), v.slotted q (adj_to_slot a))
        (elim (Option-cases (pid_lookup r q)) [
          | inl e ↦ rw e (omega arith)
          | inr (p, e) ↦ rw e (ground arith)
        ])

  -- What a walk finds in the nodes that are left.
  abbrev found_in : List ℤ → Found
  found_in [] = nothing
  found_in (y ∷ ys) = copy r y

  first_found :
      (ys : List ℤ)
      → target_at r (elim (first ys) [ none ↦ null | some pid ↦ node pid ]) ≡ found_in ys
  unfolding target_at
  first_found [] = refl
  first_found (y ∷ ys) = refl

  from_tail : (a : ℤ) → find_victim r a (pos 0) ≡ found_in (nodes a)
  unfolding find_victim tail_node proc_adj_tail
  from_tail a = rw (last-backwards (r.slots (adj_to_slot a)), tail_node) (first_found (nodes a))

  -- A process among the nodes.
  record Registered (a y : ℤ) : Type 0 where
    proc : Proc
    present : 1 ≤ occurrences y (r.slots (adj_to_slot a))
    here : pid_lookup r y ≡ some proc
    own : proc.pid ≡ y
    slot : adj_to_slot proc.oomadj ≡ adj_to_slot a
    nonzero : (y ==ℤ pos 0) ≡ false

  registered : (a y : ℤ) (tried rest : List ℤ) → nodes a ≡ tried ++ y ∷ rest → Registered a y
  registered a y tried rest e =
      let slot = adj_to_slot a in
      let present : 1 ≤ occurrences y (r.slots slot) = omega (
        arith,
        occurs-within y tried rest,
        occurrences-backwards y (r.slots slot),
        ap (occurrences y) e,
      ) in
      elim (Option-cases (pid_lookup r y)) [
        | inl f ↦ absurd (ground (arith, f, v.slotted y slot, present))
        | inr (p, f) ↦ record {
          proc = p;
          present = present;
          here = f;
          own = lookup-pid r y p f;
          slot = ground (arith, f, v.slotted y slot, present);
          nonzero = elim (Bool-cases (y ==ℤ pos 0)) [
            | inr g ↦ g
            | inl g ↦
                absurd (ground (arith, f, no_zero, ap (pid_lookup r) ((==ℤ_iff y (pos 0)).0 g)))
          ];
        }
      ]

  walks_back :
      (a y : ℤ) (xs : List ℤ)
      → r.slots (adj_to_slot a) ≡ xs
      → 1 ≤ occurrences y xs
      → proc_adj_prev r a y ≡ prev_among y (backwards xs)
  unfolding proc_adj_prev occurrences
  walks_back a y [] e h = absurd (omega (arith, h))
  walks_back a y (x ∷ xs) e h = rw (e, proc_adj_prev) refl

  next_found : (a : ℤ) (rest : List ℤ) → target_at r (or_tail r a (next_of rest)) ≡ found_in rest
  unfolding target_at or_tail
  next_found a [] = refl
  next_found a (y ∷ ys) = refl

  from_node :
      (a y : ℤ) (tried rest : List ℤ)
      → nodes a ≡ tried ++ y ∷ rest
      → find_victim r a y ≡ found_in rest
  unfolding find_victim
  from_node a y tried rest e =
      let h = registered a y tried rest e in
      let unique : occurrences y tried ≡ 0 =
        occurrences-within y tried rest (omega (arith, ap (occurrences y) e, once y a)) in
      let prev : proc_adj_prev r a y ≡ next_of rest =
        walks_back a y (r.slots (adj_to_slot a)) refl h.present
        ∙ ap (prev_among y) e
        ∙ prev_among-append y tried rest unique in
      rw (h.nonzero, prev) (next_found a rest)

  -- A run at a score that ends with a victim.
  pub record Bites (a : ℤ) (run : Option Bite) : Type 0 where
    pub victim : Proc
    pub ends : run ≡ some (bitten victim)
    pub here : pid_lookup r victim.pid ≡ some victim
    pub killed : is_killed k reaper victim ≡ true
    pub slot : adj_to_slot victim.oomadj ≡ adj_to_slot a

  -- A run that goes on to the next score with this much fuel at least.
  pub record Descends (a : ℤ) (fuel : ℕ) (run : Option Bite) (tried : List ℤ) : Type 0 where
    pub left : ℕ
    pub calls : ℕ
    pub enough : fuel ≤ left
    pub goes_on : run ≡ bite k reaper (λ n. r) left calls (a -ℤ pos 1) (pos 0)
    pub resist : All Resists tried

  append_one : (y : ℤ) (xs ys : List ℤ) → (xs ++ y ∷ []) ++ ys ≡ xs ++ y ∷ ys
  append_one y [] ys = refl
  append_one y (x ∷ xs) ys = ap (λ zs. x ∷ zs) (append_one y xs ys)

  level :
      (fuel f n : ℕ) (a prev : ℤ) (tried rest : List ℤ)
      → (a <? pos 0) ≡ false
      → nodes a ≡ tried ++ rest
      → find_victim r a prev ≡ found_in rest
      → length rest + fuel < f
      → Descends a fuel (bite k reaper (λ n. r) f n a prev) rest
        ⊎ Bites a (bite k reaper (λ n. r) f n a prev)
  unfolding bite
  level fuel zero n a prev tried rest h e next enough = absurd (omega (arith, enough))
  level fuel (suc f) n a prev tried [] h e next enough = inl (record {
    left = f;
    calls = n + 1;
    enough = omega (arith, enough);
    goes_on = rw (h, next, bite) refl;
    resist = tt;
  })
  level fuel (suc f) n a prev tried (y ∷ ys) h e next enough =
      let g = registered a y tried ys e in
      let p = g.proc in
      let finds : find_victim r a prev ≡ found p = next ∙ unfold copy in rw (g.here, copy) refl in
      elim (Bool-cases (is_killed k reaper p)) [
        | inl b ↦ inr (record {
          victim = p;
          ends = rw (h, finds, bite, b) refl;
          here = rw g.own g.here;
          killed = b;
          slot = g.slot;
        })
        | inr b ↦
            let step : bite k reaper (λ n. r) (suc f) n a prev
                ≡ bite k reaper (λ n. r) f (n + 1) a y =
              rw (h, finds, bite, b, g.own) refl in
            elim (level fuel f (n + 1) a y (tried ++ y ∷ []) ys h (e ∙ sym (append_one y tried ys))
              (from_node a y tried ys e) (omega (arith, enough))) [
                | inl d ↦ inl (record {
                  left = d.left;
                  calls = d.calls;
                  enough = d.enough;
                  goes_on = step ∙ d.goes_on;
                  resist = (λ o s. cc (g.here, s, b), d.resist);
                })
                | inr q ↦ inr (record {
                  victim = q.victim;
                  ends = step ∙ q.ends;
                  here = q.here;
                  killed = q.killed;
                  slot = q.slot;
                })
              ]
      ]

  pub level-cases :
      (fuel f n : ℕ) (a : ℤ)
      → (a <? pos 0) ≡ false
      → length (r.slots (adj_to_slot a)) + fuel < f
      → Descends a fuel (bite k reaper (λ n. r) f n a (pos 0)) (backwards (r.slots (adj_to_slot a)))
        ⊎ Bites a (bite k reaper (λ n. r) f n a (pos 0))
  level-cases fuel f n a h enough =
      level fuel f n a (pos 0) [] (nodes a) h refl (from_tail a)
        (omega (arith, enough, length-backwards (r.slots (adj_to_slot a))))

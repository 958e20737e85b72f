-- ===== src/Watchdog/Crash.antt =====
-- When the watchdog's search reads a null pointer.
use system_memory_lmkd.Base.{
  ◌≡◌, ◌≢◌, ◌∙◌, ◌↔◌, refl, sym, List, [], ◌∷◌, arith, inl, inr, Bool-cases, Option-cases,
}
use system_memory_lmkd.Base.Int.{ℤ, pos, ◌==ℤ◌, ==ℤ_iff}
use system_memory_lmkd.Registry.Hash.{adj_to_slot}
use system_memory_lmkd.Registry.{Registry, pid_lookup, proc_adj_tail}
use system_memory_lmkd.Watchdog.{
  backwards, Position, null_read, null, at_head, node, prev_among, proc_adj_prev, tail_node,
  crashed, copy, target_at, or_tail, find_victim,
}

prev_among-null_read : (pid : ℤ) (xs : List ℤ) → prev_among pid xs ≢ null_read
unfolding prev_among
prev_among-null_read pid [] e = ground arith
prev_among-null_read pid (x ∷ []) e = ground (arith, e)
prev_among-null_read pid (x ∷ y ∷ ys) e = ground (arith, e, prev_among-null_read pid (y ∷ ys))

target_at-crashed : (r : Registry) (n : Position) → target_at r n ≡ crashed → n ≡ null_read
unfolding target_at copy
target_at-crashed r null_read e = refl
target_at-crashed r null e = ground (arith, e)
target_at-crashed r at_head e = ground (arith, e)
target_at-crashed r (node pid) e = elim (Option-cases (pid_lookup r pid)) [
  | inl f ↦ ground (arith, e, f)
  | inr (p, f) ↦ ground (arith, e, f)
]

tail_node-null_read : (r : Registry) (a : ℤ) → tail_node r a ≢ null_read
unfolding tail_node
tail_node-null_read r a e = elim (Option-cases (proc_adj_tail r a)) [
  | inl f ↦ ground (arith, e, f)
  | inr (pid, f) ↦ ground (arith, e, f)
]

or_tail-null_read :
    (r : Registry) (a : ℤ) (n : Position) → or_tail r a n ≡ null_read → n ≡ null_read
unfolding or_tail
or_tail-null_read r a null_read e = refl
or_tail-null_read r a null e = absurd (tail_node-null_read r a e)
or_tail-null_read r a at_head e = ground (arith, e)
or_tail-null_read r a (node pid) e = ground (arith, e)

adj_prev-null_read :
    (r : Registry) (a pid : ℤ) (xs : List ℤ)
    → r.slots (adj_to_slot a) ≡ xs
    → proc_adj_prev r a pid ≡ null_read
    → xs ≡ []
unfolding proc_adj_prev
adj_prev-null_read r a pid [] f e = refl
adj_prev-null_read r a pid (x ∷ xs) f e =
    let w : proc_adj_prev r a pid ≡ prev_among pid (backwards (x ∷ xs)) =
      rw (f, proc_adj_prev) refl in
    absurd (prev_among-null_read pid (backwards (x ∷ xs)) (sym w ∙ e))

-- The search for the process behind an earlier one reads a null pointer exactly when the list of that
-- score has become empty: the earlier one and all others are gone from it.
pub find_victim-crashed :
    (r : Registry) (oom_score prev_pid : ℤ)
    → (find_victim r oom_score prev_pid ≡ crashed)
      ↔ ((prev_pid ≢ pos 0) × (r.slots (adj_to_slot oom_score) ≡ []))
unfolding find_victim
find_victim-crashed r a prev = elim (Bool-cases (prev ==ℤ pos 0)) [
  | inl z ↦
      let w : find_victim r a prev ≡ target_at r (tail_node r a) = rw (z, find_victim) refl in
      (
        λ c. absurd (tail_node-null_read r a (target_at-crashed r (tail_node r a) (sym w ∙ c))),
        λ (some_pid, e). absurd (some_pid ((==ℤ_iff prev (pos 0)).0 z)),
      )
  | inr z ↦
      let prior = proc_adj_prev r a prev in
      let w : find_victim r a prev ≡ target_at r (or_tail r a prior) = rw (z, find_victim) refl in
      (
        λ c. (
          λ q. absurd (ground (arith, z, (==ℤ_iff prev (pos 0)).1 q)),
          adj_prev-null_read r a prev (r.slots (adj_to_slot a)) refl
              (or_tail-null_read r a prior (target_at-crashed r (or_tail r a prior) (sym w ∙ c))),
        ),
        λ (some_pid, e).
            let lost : prior ≡ null_read = unfold proc_adj_prev in rw (e, proc_adj_prev) refl in
            w ∙ unfold or_tail target_at in rw lost refl,
      )
]

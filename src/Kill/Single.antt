-- ===== src/Kill/Single.antt =====
-- That `find_and_kill_process` kills one process: a search goes on only after an attempt that
-- returned an error or 0.
use mathlib.Core.Option
use mathlib.Core.Path.{subst}
use system_memory_lmkd.Base.{
  ℕ, zero, suc, ◌≤◌, ◌<◌, ◌≡◌, ◌∙◌, refl, inl, inr, Bool, ◌||◌, Option, some, none, List, [], ◌∷◌,
  ◌++◌, length, length-append, arith, Bool-cases, Option-cases,
}
use system_memory_lmkd.Base.Int.{ℤ, pos, negsuc, pos_part, ◌-ℤ◌, ◌≤ℤ◌, ◌<ℤ◌, ◌≤?◌, ◌==ℤ◌}
use system_memory_lmkd.Kill.Attempt.{victims, victims-append}
use system_memory_lmkd.Kill.Progress.{Once, HasPages, choose_victim-Silent, kill_one_process-Once}
use system_memory_lmkd.Kill.Search.{
  choose_victim, victim_record, kill_at_level, kill_levels, find_and_kill_process, after,
  perceptible,
}
use system_memory_lmkd.Kill.Selection.{find_and_kill_process-Ends}
use system_memory_lmkd.Kill.{Daemon, Setup, Kernel, Effect, Outcome, kill_one_process}
use system_memory_lmkd.Registry.Invariant.{IsValid}
use system_memory_lmkd.Time.{Timespec}

-- A step that killed nothing before it.
after-Once : (es : List Effect) (o : Outcome) → victims es ≡ [] → Once o → Once (after es o)
unfolding after
after-Once es o e h =
    let n = length-append (victims es) (victims o.effects) in
    let m : length (victims (es ++ o.effects)) ≡ length (victims o.effects) =
      rw (victims-append es o.effects, e) refl in
    record {
      at_most = omega (arith, m, h.at_most);
      positive = λ q. h.positive (omega (arith, m, q));
    }

nothing_killed : (o : Outcome) → Once o → o.result ≤ℤ pos 0 → victims o.effects ≡ []
nothing_killed o h r =
    elim (victims o.effects) as (λ vs. (0 < length vs → pos 0 <ℤ o.result) → vs ≡ []) [
      | [] ↦ λ q. refl
      | v ∷ vs ↦ λ q. absurd (omega (arith, q (omega arith)))
    ]
      h.positive

-- What a run that ended has.
abbrev Holds : (Outcome → Type 0) → Option Outcome → Type 0
Holds P none = Unit {0}
Holds P (some o) = P o

after-Holds :
    (es : List Effect) (run : Option Outcome)
    → victims es ≡ []
    → Holds Once run
    → Holds Once (Option.map (after es) run)
after-Holds es none e h = tt
after-Holds es (some o) e h = after-Once es o e h

module _ (s : Setup) (k : Kernel) (tm : Timespec) (page : pos 0 <ℤ s.page_k)
    (big : HasPages s k) where
  level-Once :
      (fuel : ℕ) (d : Daemon) (heaviest : Bool) (i killed_size : ℤ)
      → Holds Once (kill_at_level fuel s k d heaviest i tm killed_size)
  unfolding kill_at_level
  level-Once zero d heaviest i size = tt
  level-Once (suc fuel) d heaviest i size =
      let d' = (choose_victim k d heaviest i).0.0 in
      let closed = (choose_victim k d heaviest i).0.1 in
      let silent = choose_victim-Silent k d heaviest i in
      elim (Option-cases (victim_record d' (choose_victim k d heaviest i).1)) [
        | inl f ↦
            rw (f, kill_at_level)
              (record {
                at_most = rw silent.effects (omega arith);
                positive = rw silent.effects (λ h. absurd (omega arith));
              })
        | inr (p, f) ↦
            let o = kill_one_process s k d' p tm in
            let once = kill_one_process-Once s k d' p tm page big in
            elim (Bool-cases (pos 0 ≤? o.result)) [
              | inl r ↦ rw (f, kill_at_level, r) (after-Once closed o silent.effects once)
              | inr r ↦
                  rw (f, kill_at_level, r)
                    (after-Holds (closed ++ o.effects)
                      (kill_at_level fuel s k o.daemon heaviest i tm o.result)
                      (victims-append closed o.effects
                        ∙ rw (silent.effects, nothing_killed o once (ground (arith, r))) refl)
                      (level-Once fuel o.daemon heaviest i o.result))
            ]
      ]

  levels-Once :
      (n fuel : ℕ) (d : Daemon) (heaviest : Bool) (i : ℤ)
      → Holds Once (kill_levels n fuel s k d heaviest i tm)
  unfolding kill_levels victims
  levels-Once zero fuel d heaviest i = record {
    at_most = omega arith;
    positive = λ h. absurd (omega arith);
  }
  levels-Once (suc n) fuel d heaviest i =
      let heaviest' = heaviest || i ≤? perceptible in
      let level = level-Once fuel d heaviest' i (pos 0) in
      elim (Option-cases (kill_at_level fuel s k d heaviest' i tm (pos 0))) [
        | inl f ↦ rw (f, kill_levels) tt
        | inr (o, f) ↦
            let once : Once o = subst (Holds Once) f level in
            elim (Bool-cases (o.result ==ℤ pos 0)) [
              | inl r ↦
                  rw (f, kill_levels, r)
                    (after-Holds o.effects
                      (kill_levels n fuel s k o.daemon heaviest' (i -ℤ pos 1) tm)
                      (nothing_killed o once (ground (arith, r)))
                      (levels-Once n fuel o.daemon heaviest' (i -ℤ pos 1)))
              | inr r ↦ rw (f, kill_levels, r) once
            ]
      ]

-- From a well-formed registry, with a least score from -1000 to 1001 and more fuel than any slot
-- has nodes, the search ends with at most one process killed, where pages have a size and every
-- process whose memory can be read has at least one of them.
pub find_and_kill_process-Once :
    (fuel : ℕ) (s : Setup) (k : Kernel) (d : Daemon) (least : ℤ) (tm : Timespec)
    → IsValid d.registry
    → negsuc 999 ≤ℤ least
    → least ≤ℤ pos 1001
    → ((t : ℕ) → length (d.registry.slots t) < fuel)
    → pos 0 <ℤ s.page_k
    → HasPages s k
    → (o : Outcome) × (find_and_kill_process fuel s k d least tm ≡ some o)
      × (length (victims o.effects) ≤ 1)
unfolding find_and_kill_process
find_and_kill_process-Once fuel s k d least tm v b t l page big =
    let (o, e, allowed, counted, well_formed) =
      find_and_kill_process-Ends fuel s k d least tm v b t l in
    let once : Once o = subst (Holds Once) e (
      levels-Once s k tm page big (pos_part (pos 1001 -ℤ least)) fuel d s.kill_heaviest_task
        (pos 1000)) in
    (o, e, once.at_most)

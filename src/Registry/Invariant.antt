-- ===== src/Registry/Invariant.antt =====
-- What the registry's operations keep: a pid has at most one record, in the chain of its hash, and
-- exactly one node, in the slot of its record's score; and how each operation changes the lookup.
use mathlib.Core.Option
use mathlib.Core.Path.{subst}
use system_memory_lmkd.Base.{
  ℕ, ◌≤◌, ◌≡◌, refl, sym, Option, none, some, ◌==◌, if◌then◌else◌, arith, Option-cases, inl, inr,
}
use system_memory_lmkd.Base.Int.{ℤ, ◌==ℤ◌, ==ℤ_iff}
use system_memory_lmkd.Registry.{
  Registry, empty, pid_lookup, proc_slot, proc_unslot, proc_insert, proc_write, unlink,
}
use system_memory_lmkd.Registry.Chain.{
  Proc, find, count, occurrences, find-pid, count-eq-zero, find-remove, count-remove-le,
  occurrences-erase, find-modify, count-modify,
}
use system_memory_lmkd.Registry.Hash.{pid_hashfn, adj_to_slot, IsScore}

-- How often a pid with this record should stand in slot `s`.
abbrev pub expected : Option Proc → ℕ → ℕ
expected none s = 0
expected (some p) s = if adj_to_slot p.oomadj == s then 1 else 0

-- `init` sizes the slots for the scores from -1000 to 1000.
abbrev pub HasScore : Option Proc → Type 0
HasScore none = Unit {0}
HasScore (some p) = IsScore p.oomadj

pub record IsValid (r : Registry) : Type 0 where
  pub once : (q : ℤ) (i : ℕ) → count q (r.pidhash i) ≤ (if i == pid_hashfn q then 1 else 0)
  pub slotted : (q : ℤ) (s : ℕ) → occurrences q (r.slots s) ≡ expected (pid_lookup r q) s
  pub scored : (q : ℤ) → HasScore (pid_lookup r q)

pub lookup-pid : (r : Registry) (q : ℤ) (p : Proc) → pid_lookup r q ≡ some p → p.pid ≡ q
unfolding pid_lookup
lookup-pid r q p e = find-pid q (r.pidhash (pid_hashfn q)) p e

pub lookup-own :
    (r : Registry) (q : ℤ) (p : Proc) → pid_lookup r q ≡ some p → pid_lookup r p.pid ≡ some p
lookup-own r q p e = subst (λ k. pid_lookup r k ≡ some p) (sym (lookup-pid r q p e)) e

pub empty-IsValid : IsValid empty
unfolding empty pid_lookup count occurrences find
empty-IsValid = record { once = λ q i. omega arith; slotted = λ q s. refl; scored = λ q. tt }

pub lookup-insert :
    (r : Registry) (p : Proc) (q : ℤ)
    → pid_lookup (proc_insert r p) q ≡ (if p.pid ==ℤ q then some p else pid_lookup r q)
unfolding pid_lookup proc_insert proc_slot find
lookup-insert r p q = ground (arith, ==ℤ_iff p.pid q)

pub insert-IsValid :
    (r : Registry) (p : Proc)
    → IsValid r
    → pid_lookup r p.pid ≡ none
    → IsScore p.oomadj
    → IsValid (proc_insert r p)
unfolding proc_insert proc_slot count occurrences
insert-IsValid r p v new h = record {
  once = λ q i. ground (
    arith,
    v.once q i,
    ==ℤ_iff p.pid q,
    count-eq-zero p.pid (r.pidhash (pid_hashfn p.pid)) (unfold pid_lookup in new),
  );
  slotted = λ q s. ground (arith, v.slotted q s, ==ℤ_iff p.pid q, lookup-insert r p q);
  scored = λ q. ground (arith, v.scored q, lookup-insert r p q);
}

module _ (r : Registry) (p : Proc) (v : IsValid r) (here : pid_lookup r p.pid ≡ some p) where
  pub lookup-unlink :
      (q : ℤ) → pid_lookup (unlink r p) q ≡ (if p.pid ==ℤ q then none else pid_lookup r q)
  unfolding pid_lookup unlink proc_unslot
  lookup-unlink q = ground (
    arith,
    ==ℤ_iff p.pid q,
    v.once q (pid_hashfn p.pid),
    find-remove p.pid q (r.pidhash (pid_hashfn p.pid)),
  )

  pub unlink-IsValid : IsValid (unlink r p)
  unfolding unlink proc_unslot
  unlink-IsValid = record {
    once =
        λ q i. ground (arith, v.once q i, count-remove-le p.pid q (r.pidhash (pid_hashfn p.pid)));
    slotted = λ q s. ground (
      arith,
      here,
      v.slotted q s,
      ==ℤ_iff p.pid q,
      lookup-unlink q,
      occurrences-erase p.pid q (r.slots (adj_to_slot p.oomadj)),
    );
    scored = λ q. ground (arith, v.scored q, lookup-unlink q);
  }

-- A write that keeps the pid.
module _ (r : Registry) (k : ℤ) (f : Proc → Proc) (same : (p : Proc) → (f p).pid ≡ p.pid) where
  pub lookup-write :
      (q : ℤ)
      → pid_lookup (proc_write r k f) q
        ≡ (if k ==ℤ q then Option.map f (pid_lookup r q) else pid_lookup r q)
  unfolding pid_lookup proc_write
  lookup-write q = ground (arith, ==ℤ_iff k q, find-modify k q f same (r.pidhash (pid_hashfn k)))

  -- And keeps the score.
  pub write-IsValid :
      ((p : Proc) → (f p).oomadj ≡ p.oomadj) → IsValid r → IsValid (proc_write r k f)
  unfolding proc_write
  write-IsValid score v = record {
    once = λ q i. ground (arith, v.once q i, count-modify k q f same (r.pidhash (pid_hashfn k)));
    slotted = λ q s. elim (Option-cases (pid_lookup r q)) [
      | inl e ↦ ground (arith, v.slotted q s, lookup-write q)
      | inr (p, e) ↦ ground (arith, e, v.slotted q s, lookup-write q, score p)
    ];
    scored = λ q. elim (Option-cases (pid_lookup r q)) [
      | inl e ↦ ground (arith, v.scored q, lookup-write q)
      | inr (p, e) ↦ ground (arith, e, v.scored q, lookup-write q, score p)
    ];
  }

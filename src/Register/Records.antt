-- ===== src/Register/Records.antt =====
-- What a registration and a removal do to the lookup of every pid, and that they keep the registry
-- well formed.
use mathlib.Core.Option
use system_memory_lmkd.Base.{
  ◌≡◌, refl, inl, inr, true, Option, none, some, if◌then◌else◌, arith, Bool-cases, Option-cases,
}
use system_memory_lmkd.Base.Int.{ℤ, ◌==ℤ◌, ==ℤ_iff}
use system_memory_lmkd.Packet.{LmkProcprio}
use system_memory_lmkd.Registry.Chain.{Proc, occurrences, count-modify, occurrences-erase}
use system_memory_lmkd.Registry.Hash.{pid_hashfn, adj_to_slot, IsScore}
use system_memory_lmkd.Registry.Invariant.{
  IsValid, lookup-pid, lookup-own, lookup-insert, insert-IsValid, lookup-write, write-IsValid,
}
use system_memory_lmkd.Registry.{
  Registry, pid_lookup, proc_slot, proc_unslot, proc_write, may_claim, claim,
}
use system_memory_lmkd.Register.{Config, Os, new_proc, rescore, register_record}

pub claim-pid : (cred : ℤ) (p : Proc) → (claim p cred).pid ≡ p.pid
unfolding claim
claim-pid cred p = ground arith

pub claim-oomadj : (cred : ℤ) (p : Proc) → (claim p cred).oomadj ≡ p.oomadj
unfolding claim
claim-oomadj cred p = ground arith

pub claim-may_claim :
    (cred : ℤ) (p : Proc) → may_claim p cred ≡ true → claim p cred ≡ record p { reg_pid = cred }
unfolding claim may_claim
claim-may_claim cred p h = ground (arith, ==ℤ_iff p.reg_pid cred)

abbrev set_score : ℤ → Proc → Proc
set_score score p = record p { oomadj = score }

-- A node moves to the slot of its record's new score.
module _ (r : Registry) (p x : Proc) (score : ℤ) where
  abbrev reslot : Registry
  reslot =
      proc_slot (proc_write (proc_unslot r p) p.pid (set_score score)) (record p { oomadj = score })

  lookup-reslot :
      (q : ℤ)
      → pid_lookup reslot q
        ≡ (if p.pid ==ℤ q then Option.map (set_score score) (pid_lookup r q) else pid_lookup r q)
  unfolding pid_lookup proc_slot proc_unslot proc_write
  lookup-reslot q =
      unfold pid_lookup proc_write in lookup-write r p.pid (set_score score) (λ y. refl) q

  reslot-IsValid :
      IsValid r → pid_lookup r p.pid ≡ some x → x.oomadj ≡ p.oomadj → IsScore score → IsValid reslot
  unfolding proc_slot proc_unslot proc_write occurrences
  reslot-IsValid v here same h = record {
    once = λ q i. ground (
      arith,
      v.once q i,
      count-modify p.pid q (set_score score) (λ y. refl) (r.pidhash (pid_hashfn p.pid)),
    );
    slotted = λ q s. ground (
      arith,
      here,
      v.slotted q s,
      ==ℤ_iff p.pid q,
      lookup-reslot q,
      occurrences-erase p.pid q (r.slots (adj_to_slot p.oomadj)),
    );
    scored = λ q. ground (arith, here, v.scored q, ==ℤ_iff p.pid q, lookup-reslot q);
  }

module _ (r : Registry) (p : Proc) (score cred : ℤ) where
  pub lookup-rescore :
      (q : ℤ)
      → pid_lookup r p.pid ≡ some p
      → may_claim p cred ≡ true
      → pid_lookup (rescore r p score cred) q ≡ (
          if p.pid ==ℤ q
          then some (record p { oomadj = score; reg_pid = cred })
          else pid_lookup r q)
  unfolding rescore
  lookup-rescore q here mine =
      let e = lookup-reslot (proc_write r p.pid (λ y. claim y cred)) p p score q in
      ground (
        arith,
        e,
        here,
        ==ℤ_iff p.pid q,
        lookup-write r p.pid (λ y. claim y cred) (claim-pid cred) q,
        claim-may_claim cred p mine,
      )

  pub rescore-IsValid :
      IsValid r → pid_lookup r p.pid ≡ some p → IsScore score → IsValid (rescore r p score cred)
  unfolding rescore
  rescore-IsValid v here h =
      reslot-IsValid (proc_write r p.pid (λ y. claim y cred)) p (claim p cred) score
        (write-IsValid r p.pid (λ y. claim y cred) (claim-pid cred) (claim-oomadj cred) v)
        (ground (
          arith,
          here,
          ==ℤ_iff p.pid p.pid,
          lookup-write r p.pid (λ y. claim y cred) (claim-pid cred) p.pid,
        ))
        (claim-oomadj cred p) h

new_proc-fields :
    (c : Config) (os : Os) (p : LmkProcprio) (score cred : ℤ) (x : Proc)
    → new_proc c os p score cred ≡ some x
    → (x.pid ≡ p.pid) × (x.oomadj ≡ score)
unfolding new_proc
new_proc-fields c os p score cred x e = ground arith

-- What a registration leaves as the record of its pid: a new one, the old one rescored and claimed,
-- or the old one as it was when another client owns it.
unfoldable pub registered : Config → Os → LmkProcprio → ℤ → ℤ → Option Proc → Option Proc
registered c os p score cred none = new_proc c os p score cred
registered c os p score cred (some x) =
    if may_claim x cred then some (record x { oomadj = score; reg_pid = cred }) else some x

module _ (c : Config) (os : Os) (r : Registry) (p : LmkProcprio) (score cred : ℤ) where
  pub lookup-register_record :
      (q : ℤ)
      → pid_lookup (register_record c os r p score cred) q ≡ (
          if p.pid ==ℤ q then registered c os p score cred (pid_lookup r p.pid) else pid_lookup r q)
  unfolding registered register_record
  lookup-register_record q = elim (Option-cases (pid_lookup r p.pid)) [
    | inl e ↦ elim (Option-cases (new_proc c os p score cred)) [
      | inl n ↦ rw (e, register_record, n) (ground (arith, e, n, ==ℤ_iff p.pid q))
      | inr (x, n) ↦
          rw (e, register_record, n)
            (ground (arith, e, n, lookup-insert r x q, new_proc-fields c os p score cred x n))
    ]
    | inr (x, e) ↦
        let keyed = lookup-pid r p.pid x e in
        rw (e, register_record)
          (ground
            (arith, e, ==ℤ_iff p.pid q, lookup-rescore r x score cred q (lookup-own r p.pid x e)))
  ]

  pub register_record-IsValid :
      IsValid r → IsScore score → IsValid (register_record c os r p score cred)
  unfolding register_record
  register_record-IsValid v h = elim (Option-cases (pid_lookup r p.pid)) [
    | inl e ↦ elim (Option-cases (new_proc c os p score cred)) [
      | inl n ↦ rw (e, register_record, n) v
      | inr (x, n) ↦
          let (keyed, scored) = new_proc-fields c os p score cred x n in
          rw (e, register_record, n) (insert-IsValid r x v (rw keyed e) (rw scored h))
    ]
    | inr (x, e) ↦ elim (Bool-cases (may_claim x cred)) [
      | inl mine ↦
          rw (e, register_record, mine)
            (rescore-IsValid r x score cred v (lookup-own r p.pid x e) h)
      | inr other ↦ rw (e, register_record, other) v
    ]
  ]

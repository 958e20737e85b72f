-- ===== src/Register/Purge.antt =====
-- What `cmd_procremove` and `cmd_procpurge` do to the lookup of every pid: a record goes exactly
-- when the requestor may claim it.
use system_memory_lmkd.Base.{
  ℕ, zero, suc, ◌+◌, ◌≤◌, ◌≡◌, refl, inl, inr, false, ◌&&◌, ◌==◌, ltb, leb, Option, none, some,
  List, [], ◌∷◌, if◌then◌else◌, arith, Bool-cases, Option-cases,
}
use system_memory_lmkd.Base.Int.{ℤ, ◌==ℤ◌, ==ℤ_iff}
use system_memory_lmkd.Registry.Chain.{Proc, find, count, find-eq-none}
use system_memory_lmkd.Registry.Hash.{pid_hashfn, pid_hashfn-lt}
use system_memory_lmkd.Registry.Invariant.{
  IsValid, lookup-pid, lookup-own, lookup-unlink, unlink-IsValid, lookup-write, write-IsValid,
}
use system_memory_lmkd.Registry.{
  Registry, pid_lookup, proc_write, pid_remove, unlink, may_claim, claim,
}
use system_memory_lmkd.Register.Records.{claim-pid, claim-oomadj}
use system_memory_lmkd.Register.{
  Config, cmd_procremove, purge_record, purge_chain, purge_chains, cmd_procpurge, pidhash_sz,
}

-- What a removal by `cred` leaves of a record.
unfoldable pub kept : ℤ → Option Proc → Option Proc
kept cred none = none
kept cred (some p) = if may_claim p cred then none else some p

-- Claimed and then removed.
module _ (last_kill : ℤ) (r : Registry) (p : Proc) (cred : ℤ) (v : IsValid r)
    (here : pid_lookup r p.pid ≡ some p) where
  abbrev claimed : Registry
  claimed = proc_write r p.pid (λ q. claim q cred)

  claimed-here : pid_lookup claimed (claim p cred).pid ≡ some (claim p cred)
  claimed-here = ground (
    arith,
    here,
    claim-pid cred p,
    ==ℤ_iff p.pid p.pid,
    lookup-write r p.pid (λ q. claim q cred) (claim-pid cred) p.pid,
  )

  claimed-IsValid : IsValid claimed
  claimed-IsValid = write-IsValid r p.pid (λ q. claim q cred) (claim-pid cred) (claim-oomadj cred) v

  remove-eq : (pid_remove last_kill claimed p.pid).registry ≡ unlink claimed (claim p cred)
  unfolding pid_remove
  remove-eq =
      let e : pid_lookup claimed p.pid ≡ some (claim p cred) =
        ground (arith, claimed-here, claim-pid cred p) in
      rw (e, pid_remove)

  pub removed-IsValid : IsValid (pid_remove last_kill claimed p.pid).registry
  removed-IsValid =
      rw remove-eq (unlink-IsValid claimed (claim p cred) claimed-IsValid claimed-here)

  pub lookup-removed :
      (q : ℤ)
      → pid_lookup (pid_remove last_kill claimed p.pid).registry q
        ≡ (if p.pid ==ℤ q then none else pid_lookup r q)
  lookup-removed q = rw remove-eq (
      ground (
        arith,
        claim-pid cred p,
        lookup-unlink claimed (claim p cred) claimed-IsValid claimed-here q,
        lookup-write r p.pid (λ y. claim y cred) (claim-pid cred) q,
      ))

-- A registry that is well formed and reads as `f`.
pub record Reads (f : ℤ → Option Proc) (r : Registry) : Type 0 where
  pub well_formed : IsValid r
  pub reads : (q : ℤ) → pid_lookup r q ≡ f q

module _ (c : Config) (cred : ℤ) where
  purge_record-Reads :
      (r : Registry) (p : Proc)
      → IsValid r
      → pid_lookup r p.pid ≡ some p
      → Reads
          (λ q. if p.pid ==ℤ q then kept cred (some p) else pid_lookup r q)
          (purge_record c r p cred).0
  unfolding purge_record kept
  purge_record-Reads r p v here = elim (Bool-cases (may_claim p cred)) [
    | inl mine ↦ rw mine (record {
      well_formed = removed-IsValid c.last_kill r p cred v here;
      reads = lookup-removed c.last_kill r p cred v here;
    })
    | inr other ↦
        rw other (record { well_formed = v; reads = λ q. ground (arith, here, ==ℤ_iff p.pid q) })
  ]

  abbrev purged_of : Option Proc → Option Proc → Option Proc
  purged_of none old = old
  purged_of (some x) old = kept cred (some x)

  purge_chain-Reads :
      (r : Registry) (ps : List Proc)
      → IsValid r
      → ((q : ℤ) → count q ps ≤ 1)
      → ((q : ℤ) (x : Proc) → find q ps ≡ some x → pid_lookup r q ≡ some x)
      → Reads (λ q. purged_of (find q ps) (pid_lookup r q)) (purge_chain c r ps cred).0
  unfolding purge_chain find count
  purge_chain-Reads r [] v once here = record { well_formed = v; reads = λ q. refl }
  purge_chain-Reads r (p ∷ ps) v once here =
      let first = purge_record-Reads r p v (here p.pid p (ground (arith, ==ℤ_iff p.pid p.pid))) in
      let rest =
        purge_chain-Reads (purge_record c r p cred).0 ps first.well_formed
          (λ q. omega (arith, once q))
          (λ q x e.
            ground (arith, first.reads q, here q x, once q, ==ℤ_iff p.pid q, find-eq-none q ps)) in
      record {
        well_formed = rest.well_formed;
        reads = λ q. ground (arith, rest.reads q, first.reads q, once q, find-eq-none q ps);
      }

  find-chain :
      (r : Registry) (i : ℕ) (q : ℤ)
      → IsValid r
      → find q (r.pidhash i) ≡ (if i == pid_hashfn q then pid_lookup r q else none)
  unfolding pid_lookup
  find-chain r i q v = ground (arith, v.once q i, find-eq-none q (r.pidhash i))

  purge_chains-Reads :
      (r : Registry) (n i : ℕ)
      → IsValid r
      → Reads
          (λ q.
            if leb i (pid_hashfn q) && ltb (pid_hashfn q) (i + n)
            then kept cred (pid_lookup r q)
            else pid_lookup r q)
          (purge_chains c r n i cred).0
  unfolding purge_chains kept
  purge_chains-Reads r zero i v = record { well_formed = v; reads = λ q. ground arith }
  purge_chains-Reads r (suc n) i v =
      let first =
        purge_chain-Reads r (r.pidhash i) v (λ q. ground (arith, v.once q i))
          (λ q x e. ground (arith, find-chain r i q v)) in
      let rest =
        purge_chains-Reads (purge_chain c r (r.pidhash i) cred).0 n (i + 1) first.well_formed in
      record {
        well_formed = rest.well_formed;
        reads = λ q. ground (arith, rest.reads q, first.reads q, find-chain r i q v);
      }

  -- Purging leaves a well-formed registry in which exactly the records that another client owns
  -- are still found.
  pub cmd_procpurge-Reads :
      (r : Registry)
      → c.use_inkernel_interface ≡ false
      → IsValid r
      → Reads (λ q. kept cred (pid_lookup r q)) (cmd_procpurge c r cred).0
  unfolding cmd_procpurge
  cmd_procpurge-Reads r user v =
      let all = purge_chains-Reads r pidhash_sz 0 v in
      simp user (record {
        well_formed = all.well_formed;
        reads = λ q. ground (arith, all.reads q, pid_hashfn-lt q);
      })

  procremove-record :
      (r : Registry) (p : Proc)
      → c.use_inkernel_interface ≡ false
      → pid_lookup r p.pid ≡ some p
      → cmd_procremove c r p.pid cred ≡ purge_record c r p cred
  unfolding cmd_procremove purge_record
  procremove-record r p user here = ground arith

  procremove_missing :
      (r : Registry) (pid : ℤ) → pid_lookup r pid ≡ none → (cmd_procremove c r pid cred).0 ≡ r
  unfolding cmd_procremove
  procremove_missing r pid gone = ground arith

  -- Removing a pid leaves a well-formed registry in which the other pids read as before, and this
  -- one is still found exactly if another client owns its record.
  pub cmd_procremove-Reads :
      (r : Registry) (pid : ℤ)
      → c.use_inkernel_interface ≡ false
      → IsValid r
      → Reads
          (λ q. if pid ==ℤ q then kept cred (pid_lookup r q) else pid_lookup r q)
          (cmd_procremove c r pid cred).0
  unfolding kept
  cmd_procremove-Reads r pid user v = elim (Option-cases (pid_lookup r pid)) [
    | inl e ↦
        rw (procremove_missing r pid e)
          (record { well_formed = v; reads = λ q. ground (arith, e, ==ℤ_iff pid q) })
    | inr (p, e) ↦
        let same = lookup-pid r pid p e in
        let t = purge_record-Reads r p v (lookup-own r pid p e) in
        rw (← same) (
          rw (procremove-record r p user (lookup-own r pid p e)) (record {
            well_formed = t.well_formed;
            reads = λ q. ground (arith, t.reads q, lookup-own r pid p e, ==ℤ_iff p.pid q);
          }))
  ]

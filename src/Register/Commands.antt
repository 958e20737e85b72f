-- ===== src/Register/Commands.antt =====
-- LMK_PROCPRIO and LMK_PROCS_PRIO: which registrations are taken, at which score, and what they
-- leave alone.
use system_memory_lmkd.Base.{
  ◌≡◌, inl, inr, Bool, true, false, not, ◌&&◌, ◌||◌, some, List, [], ◌∷◌, if◌then◌else◌, arith,
  Bool-cases,
}
use system_memory_lmkd.Base.Int.{ℤ, pos, ◌==ℤ◌, ◌<?◌, ◌≤?◌, ==ℤ_iff}
use system_memory_lmkd.Packet.{LmkProcprio, proc_type_app}
use system_memory_lmkd.Registry.Chain.{Proc}
use system_memory_lmkd.Registry.Hash.{IsScore}
use system_memory_lmkd.Registry.Invariant.{IsValid}
use system_memory_lmkd.Registry.{Registry, pid_lookup, may_claim}
use system_memory_lmkd.Register.Records.{
  registered, lookup-register_record, register_record-IsValid,
}
use system_memory_lmkd.Register.{
  Config, Os, soft_limit_mult, register_record, register_app, register_oom_adj_proc, is_rejected,
  apply_proc_prio, apply_procs,
}

-- The score that a record gets: launchers among the applications are kept perceptible.
unfoldable pub effective_score : Config → LmkProcprio → ℤ
effective_score c p =
    if (p.ptype ==ℤ proc_type_app && c.per_app_memcg)
      && (pos 600 ≤? p.oomadj && p.oomadj <? pos 700)
    then pos 200
    else p.oomadj

-- The tests that a registration passes before it reaches the table.
unfoldable pub is_accepted : Config → Os → LmkProcprio → Bool
is_accepted c os p =
    (not (is_rejected os p) && os.score_file p.pid)
    && (not c.use_inkernel_interface
        && (not (p.ptype ==ℤ proc_type_app && c.per_app_memcg) || os.soft_limit_path p.pid))

soft_limit_mult-score :
    (a : ℤ) → (soft_limit_mult a).0 ≡ (if pos 600 ≤? a && a <? pos 700 then pos 200 else a)
unfolding soft_limit_mult
soft_limit_mult-score a = ground arith

register_app-record :
    (c : Config) (os : Os) (r : Registry) (p : LmkProcprio) (cred : ℤ)
    → (register_app c os r p cred).0 ≡ (
        if os.soft_limit_path p.pid
        then register_record c os r p
            (if pos 600 ≤? p.oomadj && p.oomadj <? pos 700 then pos 200 else p.oomadj)
            cred
        else r)
unfolding register_app
register_app-record c os r p cred = ground (arith, soft_limit_mult-score p.oomadj)

apply_proc_prio-record :
    (c : Config) (os : Os) (r : Registry) (p : LmkProcprio) (cred : ℤ)
    → (apply_proc_prio c os r p cred).0
      ≡ (if is_accepted c os p then register_record c os r p (effective_score c p) cred else r)
unfolding apply_proc_prio register_oom_adj_proc is_accepted effective_score
apply_proc_prio-record c os r p cred = ground (arith, register_app-record c os r p cred)

accepted-IsScore :
    (c : Config) (os : Os) (p : LmkProcprio)
    → is_accepted c os p ≡ true
    → IsScore (effective_score c p)
unfolding is_accepted effective_score is_rejected
accepted-IsScore c os p h = ground arith

module _ (c : Config) (os : Os) where
  -- A registration that is accepted gives its pid the new or the rescored record, and leaves every
  -- other pid as it was; any other registration leaves the whole lookup as it was.
  pub lookup-apply_proc_prio :
      (r : Registry) (p : LmkProcprio) (cred q : ℤ)
      → pid_lookup (apply_proc_prio c os r p cred).0 q ≡ (
          if is_accepted c os p && p.pid ==ℤ q
          then registered c os p (effective_score c p) cred (pid_lookup r p.pid)
          else pid_lookup r q)
  lookup-apply_proc_prio r p cred q =
      rw (apply_proc_prio-record c os r p cred)
        (ground (arith, lookup-register_record c os r p (effective_score c p) cred q))

  pub apply_proc_prio-IsValid :
      (r : Registry) (p : LmkProcprio) (cred : ℤ)
      → IsValid r
      → IsValid (apply_proc_prio c os r p cred).0
  apply_proc_prio-IsValid r p cred v = rw (apply_proc_prio-record c os r p cred) (branch v)
    where
      branch :
          IsValid r
          → IsValid (
              if is_accepted c os p then register_record c os r p (effective_score c p) cred else r)
      branch v = elim (Bool-cases (is_accepted c os p)) [
        | inl taken ↦ rw taken (
            register_record-IsValid c os r p (effective_score c p) cred v
              (accepted-IsScore c os p taken))
        | inr refused ↦ rw refused v
      ]

  -- A batch of registrations, whatever their scores and types, keeps the registry well formed.
  pub apply_procs-IsValid :
      (r : Registry) (ps : List LmkProcprio) (cred : ℤ)
      → IsValid r
      → IsValid (apply_procs c os r ps cred).0
  unfolding apply_procs
  apply_procs-IsValid r [] cred v = v
  apply_procs-IsValid r (p ∷ ps) cred v =
      apply_procs-IsValid (apply_proc_prio c os r p cred).0 ps cred
        (apply_proc_prio-IsValid r p cred v)

  registered-foreign :
      (p : LmkProcprio) (score cred : ℤ) (x : Proc)
      → may_claim x cred ≡ false
      → registered c os p score cred (some x) ≡ some x
  unfolding registered
  registered-foreign p score cred x h = rw h

  -- A batch of registrations leaves every record that another client owns as it was.
  pub apply_procs-foreign :
      (r : Registry) (ps : List LmkProcprio) (cred q : ℤ) (x : Proc)
      → pid_lookup r q ≡ some x
      → may_claim x cred ≡ false
      → pid_lookup (apply_procs c os r ps cred).0 q ≡ some x
  unfolding apply_procs
  apply_procs-foreign r [] cred q x e h = e
  apply_procs-foreign r (p ∷ ps) cred q x e h =
      apply_procs-foreign (apply_proc_prio c os r p cred).0 ps cred q x
        (ground (
          arith,
          e,
          lookup-apply_proc_prio r p cred q,
          ==ℤ_iff p.pid q,
          registered-foreign p (effective_score c p) cred x h,
        ))
        h

-- ===== src/Kill/Heaviest.antt =====
-- What `proc_get_heaviest` finds: a process of the slot, and none of the slot is larger.
use system_memory_lmkd.Base.{
  ◌≤◌, ◌<◌, ◌≡◌, ◌⊎◌, refl, Option, none, some, List, [], ◌∷◌, Bool, length, if◌then◌else◌, All,
  arith, Bool-cases, inl, inr,
}
use system_memory_lmkd.Base.Int.{ℤ, pos, ==ℤ_iff, ◌≤ℤ◌, ◌<?◌}
use system_memory_lmkd.Kill.Removal.{Follows, same-Follows, then-Follows, pid_remove-Follows}
use system_memory_lmkd.Kill.Search.{heaviest_of, proc_get_heaviest, choose_victim, victim_record}
use system_memory_lmkd.Kill.{Daemon, Kernel}
use system_memory_lmkd.Registry.Chain.{Proc, last, occurrences}
use system_memory_lmkd.Registry.Hash.{adj_to_slot, IsScore, adj_to_slot_injective}
use system_memory_lmkd.Registry.Invariant.{IsValid, lookup-pid, lookup-own}
use system_memory_lmkd.Registry.{pid_lookup, pid_remove, proc_adj_tail}

-- A process whose size cannot be read is gone.
abbrev swept : Kernel → Daemon → ℤ → Daemon
swept k d pid =
    if k.size pid <? pos 0
    then record d { registry = (pid_remove d.last_kill d.registry pid).registry }
    else d

swept-Follows :
    (k : Kernel) (d : Daemon) (pid : ℤ)
    → IsValid d.registry
    → Follows d.registry (swept k d pid).registry
swept-Follows k d pid v = elim (Bool-cases (k.size pid <? pos 0)) [
  | inl e ↦ rw e (pid_remove-Follows d.last_kill d.registry pid v)
  | inr e ↦ rw e (same-Follows d.registry v)
]

heaviest_of-Follows :
    (k : Kernel) (d : Daemon) (pids : List ℤ) (best : Option ℤ) (m : ℤ)
    → IsValid d.registry
    → Follows d.registry (heaviest_of k d pids best m).0.0.registry
unfolding heaviest_of
heaviest_of-Follows k d [] best m v = same-Follows d.registry v
heaviest_of-Follows k d (pid ∷ pids) best m v =
    let f = swept-Follows k d pid v in
    let best' = if m <? k.size pid then some pid else best in
    let m' = if m <? k.size pid then k.size pid else m in
    then-Follows d.registry (swept k d pid).registry
      (heaviest_of k (swept k d pid) pids best' m').0.0.registry f
      (heaviest_of-Follows k (swept k d pid) pids best' m' f.well_formed)

-- What the search found is the best so far, or a node of the rest.
abbrev IsFrom : Option ℤ → List ℤ → ℤ → Type 0
IsFrom best pids q = (best ≡ some q) ⊎ (0 < occurrences q pids)

-- The size that a candidate stands for.
abbrev pub size_of : Kernel → Option ℤ → ℤ
size_of k none = pos 0
size_of k (some q) = k.size q

heaviest_of-IsFrom :
    (k : Kernel) (d : Daemon) (pids : List ℤ) (best : Option ℤ) (m : ℤ) (q : ℤ)
    → (heaviest_of k d pids best m).1 ≡ some q
    → IsFrom best pids q
unfolding heaviest_of occurrences
heaviest_of-IsFrom k d [] best m q e = inl e
heaviest_of-IsFrom k d (pid ∷ pids) best m q e =
    let best' = if m <? k.size pid then some pid else best in
    let m' = if m <? k.size pid then k.size pid else m in
    let h = heaviest_of-IsFrom k (swept k d pid) pids best' m' q e in
    elim h [
      | inl f ↦ elim (Bool-cases (m <? k.size pid)) [
        | inl t ↦ inr (ground (arith, f, t, ==ℤ_iff pid q))
        | inr t ↦ inl (ground (arith, f, t))
      ]
      | inr f ↦ inr (omega (arith, f))
    ]

heaviest_of-largest :
    (k : Kernel) (d : Daemon) (pids : List ℤ) (best : Option ℤ) (m : ℤ)
    → m ≡ size_of k best
    → let found = size_of k (heaviest_of k d pids best m).1 in
      (m ≤ℤ found) × All (λ x. k.size x ≤ℤ found) pids
unfolding heaviest_of
heaviest_of-largest k d [] best m e = (ground (arith, e), tt)
heaviest_of-largest k d (pid ∷ pids) best m e =
    let best' = if m <? k.size pid then some pid else best in
    let m' = if m <? k.size pid then k.size pid else m in
    let (h, hs) = heaviest_of-largest k (swept k d pid) pids best' m' (ground (arith, e)) in
    (ground (arith, h), (ground (arith, h), hs))

proc_get_heaviest-from :
    (k : Kernel) (d : Daemon) (pids : List ℤ) (q : ℤ)
    → (proc_get_heaviest k d pids).1 ≡ some q
    → 0 < occurrences q pids
unfolding proc_get_heaviest occurrences
proc_get_heaviest-from k d [] q e = ground (arith, e)
proc_get_heaviest-from k d (pid ∷ []) q e = ground (arith, e, ==ℤ_iff pid q)
proc_get_heaviest-from k d (pid ∷ next ∷ pids) q e =
    elim (heaviest_of-IsFrom k d (pid ∷ next ∷ pids) none (pos 0) q e) [
      | inl f ↦ ground (arith, f)
      | inr f ↦ unfold occurrences in f
    ]

proc_get_heaviest-Follows :
    (k : Kernel) (d : Daemon) (pids : List ℤ)
    → IsValid d.registry
    → Follows d.registry (proc_get_heaviest k d pids).0.0.registry
unfolding proc_get_heaviest
proc_get_heaviest-Follows k d [] v = same-Follows d.registry v
proc_get_heaviest-Follows k d (pid ∷ []) v = same-Follows d.registry v
proc_get_heaviest-Follows k d (pid ∷ next ∷ pids) v =
    heaviest_of-Follows k d (pid ∷ next ∷ pids) none (pos 0) v

-- Of a slot of at least two processes the search finds one of them that no other exceeds in size,
-- or, when none has a positive size, nothing; and it leaves the registry well formed.
pub proc_get_heaviest-largest :
    (k : Kernel) (d : Daemon) (pids : List ℤ)
    → IsValid d.registry
    → 2 ≤ length pids
    → All (λ x. k.size x ≤ℤ size_of k (proc_get_heaviest k d pids).1) pids
      × ((q : ℤ) → (proc_get_heaviest k d pids).1 ≡ some q → 0 < occurrences q pids)
      × IsValid (proc_get_heaviest k d pids).0.0.registry
unfolding proc_get_heaviest
proc_get_heaviest-largest k d [] v l = absurd (omega arith)
proc_get_heaviest-largest k d (pid ∷ []) v l = absurd (omega arith)
proc_get_heaviest-largest k d (pid ∷ next ∷ pids) v l = (
  (heaviest_of-largest k d (pid ∷ next ∷ pids) none (pos 0) refl).1,
  λ q. proc_get_heaviest-from k d (pid ∷ next ∷ pids) q,
  (proc_get_heaviest-Follows k d (pid ∷ next ∷ pids) v).well_formed,
)

last-from : (xs : List ℤ) (q : ℤ) → last xs ≡ some q → 0 < occurrences q xs
unfolding last occurrences
last-from [] q e = ground (arith, e)
last-from (x ∷ []) q e = ground (arith, e, ==ℤ_iff x q)
last-from (x ∷ y ∷ ys) q e = let h = last-from (y ∷ ys) q e in omega (arith, h)

victim_record-some :
    (d : Daemon) (p : Proc) (best : Option ℤ)
    → victim_record d best ≡ some p
    → (best ≡ some p.pid) × (pid_lookup d.registry p.pid ≡ some p)
unfolding victim_record
victim_record-some d p none e = ground (arith, e)
victim_record-some d p (some q) e =
    (ground (arith, lookup-pid d.registry q p e), lookup-own d.registry q p e)

module _ (k : Kernel) (d : Daemon) (heaviest : Bool) (i : ℤ) (v : IsValid d.registry) where
  pub choose_victim-Follows : Follows d.registry (choose_victim k d heaviest i).0.0.registry
  unfolding choose_victim
  choose_victim-Follows = elim (Bool-cases heaviest) [
    | inl e ↦ rw e (proc_get_heaviest-Follows k d (d.registry.slots (adj_to_slot i)) v)
    | inr e ↦ rw e (same-Follows d.registry v)
  ]

  choose_victim-from :
      (q : ℤ)
      → (choose_victim k d heaviest i).1 ≡ some q
      → 0 < occurrences q (d.registry.slots (adj_to_slot i))
  unfolding choose_victim proc_adj_tail
  choose_victim-from q e = elim (Bool-cases heaviest) [
    | inl h ↦ proc_get_heaviest-from k d (d.registry.slots (adj_to_slot i)) q (ground (arith, h, e))
    | inr h ↦ last-from (d.registry.slots (adj_to_slot i)) q (ground (arith, h, e))
  ]

  -- The victim is registered at the score that was looked at.
  pub victim-oomadj :
      (p : Proc)
      → IsScore i
      → victim_record (choose_victim k d heaviest i).0.0 (choose_victim k d heaviest i).1 ≡ some p
      → (p.oomadj ≡ i) × (pid_lookup (choose_victim k d heaviest i).0.0.registry p.pid ≡ some p)
  victim-oomadj p s e =
      let (found, here) =
        victim_record-some (choose_victim k d heaviest i).0.0 p (choose_victim k d heaviest i).1
          e in
      let before = choose_victim-Follows.still p.pid p here in
      (
        ground (
          arith,
          before,
          choose_victim-from p.pid found,
          v.slotted p.pid (adj_to_slot i),
          v.scored p.pid,
          adj_to_slot_injective p.oomadj i,
        ),
        here,
      )

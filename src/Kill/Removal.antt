-- ===== src/Kill/Removal.antt =====
-- What a removal does to the registry of the kill path: records only go, and a list of nodes that
-- loses one is shorter.
use system_memory_lmkd.Base.{
  ℕ, ◌+◌, Bool-cases, ◌≤◌, ◌<◌, ◌≡◌, refl, none, some, List, [], ◌∷◌, ◌==◌, if◌then◌else◌, length,
  arith, Option-cases, inl, inr,
}
use system_memory_lmkd.Base.Int.{ℤ, ◌==ℤ◌}
use system_memory_lmkd.Registry.Chain.{Proc, erase, occurrences}
use system_memory_lmkd.Registry.Hash.{adj_to_slot}
use system_memory_lmkd.Registry.Invariant.{IsValid, lookup-own, lookup-unlink, unlink-IsValid}
use system_memory_lmkd.Registry.{Registry, pid_lookup, pid_remove, unlink, proc_unslot}

-- The second registry is well formed and holds no record that the first does not.
pub record Follows (r r' : Registry) : Type 0 where
  pub well_formed : IsValid r'
  pub fewer : (s : ℕ) → length (r'.slots s) ≤ length (r.slots s)
  pub still : (q : ℤ) (p : Proc) → pid_lookup r' q ≡ some p → pid_lookup r q ≡ some p

pub same-Follows : (r : Registry) → IsValid r → Follows r r
same-Follows r v = record { well_formed = v; fewer = λ s. omega arith; still = λ q p e. e }

pub then-Follows : (a b c : Registry) → Follows a b → Follows b c → Follows a c
then-Follows a b c f g = record {
  well_formed = g.well_formed;
  fewer = λ s. omega (arith, f.fewer s, g.fewer s);
  still = λ q p e. f.still q p (g.still q p e);
}

length-erase :
    (q : ℤ) (xs : List ℤ)
    → length (erase q xs) + (if occurrences q xs == 0 then 0 else 1) ≡ length xs
unfolding erase occurrences
length-erase q [] = refl
length-erase q (x ∷ xs) = elim (Bool-cases (x ==ℤ q)) [
  | inl e ↦ rw e (ground arith)
  | inr e ↦ rw e (ground (arith, length-erase q xs))
]

unlink-Follows :
    (r : Registry) (p : Proc) → IsValid r → pid_lookup r p.pid ≡ some p → Follows r (unlink r p)
unlink-Follows r p v here = record {
  well_formed = unlink-IsValid r p v here;
  fewer = λ s.
      unfold unlink proc_unslot in
      ground (arith, length-erase p.pid (r.slots (adj_to_slot p.oomadj)));
  still = λ q x e. ground (arith, e, lookup-unlink r p v here q);
}

unlink-shorter :
    (r : Registry) (p : Proc)
    → IsValid r
    → pid_lookup r p.pid ≡ some p
    → length ((unlink r p).slots (adj_to_slot p.oomadj)) < length (r.slots (adj_to_slot p.oomadj))
unfolding unlink proc_unslot
unlink-shorter r p v here = ground (
  arith,
  here,
  v.slotted p.pid (adj_to_slot p.oomadj),
  length-erase p.pid (r.slots (adj_to_slot p.oomadj)),
)

module _ (last_kill : ℤ) (r : Registry) (q : ℤ) where
  remove-none : pid_lookup r q ≡ none → (pid_remove last_kill r q).registry ≡ r
  unfolding pid_remove
  remove-none e = rw (e, pid_remove)

  remove-some :
      (p : Proc) → pid_lookup r q ≡ some p → (pid_remove last_kill r q).registry ≡ unlink r p
  unfolding pid_remove
  remove-some p e = rw (e, pid_remove)

  pub pid_remove-Follows : IsValid r → Follows r (pid_remove last_kill r q).registry
  pid_remove-Follows v = elim (Option-cases (pid_lookup r q)) [
    | inl e ↦ rw (remove-none e) (same-Follows r v)
    | inr (p, e) ↦ rw (remove-some p e) (unlink-Follows r p v (lookup-own r q p e))
  ]

  pub pid_remove-shorter :
      (p : Proc)
      → IsValid r
      → pid_lookup r q ≡ some p
      → length ((pid_remove last_kill r q).registry.slots (adj_to_slot p.oomadj))
        < length (r.slots (adj_to_slot p.oomadj))
  pid_remove-shorter p v e = rw (remove-some p e) (unlink-shorter r p v (lookup-own r q p e))

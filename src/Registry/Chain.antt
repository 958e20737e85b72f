-- ===== src/Registry/Chain.antt =====
-- `struct proc` of lmkd.cpp, one hash chain of records, and one list of nodes.
use system_memory_lmkd.Base.{
  ℕ, ◌+◌, ◌-◌, ◌≤◌, ◌≡◌, refl, Bool, Option, none, some, List, [], ◌∷◌, map, if◌then◌else◌, arith,
}
use mathlib.Core.Option
use system_memory_lmkd.Base.Int.{ℤ, ◌==ℤ◌, ==ℤ_iff}

pub record Proc : Type 0 where
  pub pid : ℤ
  pub pidfd : ℤ
  pub uid : ℤ
  pub oomadj : ℤ
  pub reg_pid : ℤ
  pub valid : Bool

-- The walk of `pid_lookup`: the first record of the chain with this pid.
unfoldable pub find : ℤ → List Proc → Option Proc
find q [] = none
find q (p ∷ ps) = if p.pid ==ℤ q then some p else find q ps

-- The walk of `pid_remove`, which takes that record out of the chain.
unfoldable pub remove : ℤ → List Proc → List Proc
remove q [] = []
remove q (p ∷ ps) = if p.pid ==ℤ q then ps else p ∷ remove q ps

-- A write to that record.
unfoldable pub modify : ℤ → (Proc → Proc) → List Proc → List Proc
modify q f [] = []
modify q f (p ∷ ps) = if p.pid ==ℤ q then f p ∷ ps else p ∷ modify q f ps

-- `adjslot_remove` takes the node itself out; a pid has one node in a list.
unfoldable pub erase : ℤ → List ℤ → List ℤ
erase q [] = []
erase q (x ∷ xs) = if x ==ℤ q then xs else x ∷ erase q xs

-- `adjslot_tail`: `head->prev`, or nothing when that is the head.
unfoldable pub last : List ℤ → Option ℤ
last [] = none
last (x ∷ []) = some x
last (x ∷ y ∷ ys) = last (y ∷ ys)

unfoldable pub count : ℤ → List Proc → ℕ
count q [] = 0
count q (p ∷ ps) = (if p.pid ==ℤ q then 1 else 0) + count q ps

unfoldable pub occurrences : ℤ → List ℤ → ℕ
occurrences q [] = 0
occurrences q (x ∷ xs) = (if x ==ℤ q then 1 else 0) + occurrences q xs

pub find-pid : (q : ℤ) (ps : List Proc) (p : Proc) → find q ps ≡ some p → p.pid ≡ q
unfolding find
find-pid q [] p e = ground arith
find-pid q (x ∷ ps) p e = ground (arith, ==ℤ_iff x.pid q, find-pid q ps p)

pub count-eq-zero : (q : ℤ) (ps : List Proc) → find q ps ≡ none → count q ps ≡ 0
unfolding find count
count-eq-zero q [] e = refl
count-eq-zero q (x ∷ ps) e = ground (arith, count-eq-zero q ps)

pub find-eq-none : (q : ℤ) (ps : List Proc) → count q ps ≡ 0 → find q ps ≡ none
unfolding find count
find-eq-none q [] e = refl
find-eq-none q (x ∷ ps) e = ground (arith, find-eq-none q ps)

module _ (k q : ℤ) where
  pub find-remove :
      (ps : List Proc)
      → count q ps ≤ 1
      → find q (remove k ps) ≡ (if k ==ℤ q then none else find q ps)
  unfolding find remove count
  find-remove [] h = ground arith
  find-remove (x ∷ ps) h =
      ground
        (arith, find-remove ps, find-eq-none q ps, ==ℤ_iff x.pid k, ==ℤ_iff x.pid q, ==ℤ_iff k q)

  pub count-remove-le : (ps : List Proc) → count q (remove k ps) ≤ count q ps
  unfolding remove count
  count-remove-le [] = omega arith
  count-remove-le (x ∷ ps) = ground (arith, count-remove-le ps)

  pub occurrences-erase :
      (xs : List ℤ) → occurrences q (erase k xs) ≡ occurrences q xs - (if k ==ℤ q then 1 else 0)
  unfolding erase occurrences
  occurrences-erase [] = ground arith
  occurrences-erase (x ∷ xs) =
      ground (arith, occurrences-erase xs, ==ℤ_iff x k, ==ℤ_iff x q, ==ℤ_iff k q)

  module _ (f : Proc → Proc) (same : (p : Proc) → (f p).pid ≡ p.pid) where
    pub find-modify :
        (ps : List Proc)
        → find q (modify k f ps) ≡ (if k ==ℤ q then Option.map f (find q ps) else find q ps)
    unfolding find modify
    find-modify [] = ground arith
    find-modify (x ∷ ps) =
        ground (arith, find-modify ps, same x, ==ℤ_iff x.pid k, ==ℤ_iff x.pid q, ==ℤ_iff k q)

    pub count-modify : (ps : List Proc) → count q (modify k f ps) ≡ count q ps
    unfolding count modify
    count-modify [] = refl
    count-modify (x ∷ ps) = ground (arith, count-modify ps, same x)

module _ (q : ℤ) (f : Proc → Proc) (same : (p : Proc) → (f p).pid ≡ p.pid) where
  pub find-map : (ps : List Proc) → find q (map f ps) ≡ Option.map f (find q ps)
  unfolding find
  find-map [] = refl
  find-map (x ∷ ps) = ground (arith, find-map ps, same x)

  pub count-map : (ps : List Proc) → count q (map f ps) ≡ count q ps
  unfolding count
  count-map [] = refl
  count-map (x ∷ ps) = ground (arith, count-map ps, same x)

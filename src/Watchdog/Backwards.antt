-- ===== src/Watchdog/Backwards.antt =====
-- The walk over a slot's list from its tail: it meets each node once, and ends at the head.
use system_memory_lmkd.Base.{
  ◌+◌, ◌≤◌, ◌≡◌, ◌∙◌, refl, sym, Option, none, some, List, [], ◌∷◌, ◌++◌, All, length,
  length-append, arith, inl, inr, Bool-cases,
}
use system_memory_lmkd.Base.Int.{ℤ, ◌==ℤ◌, ==ℤ_iff}
use system_memory_lmkd.Registry.Chain.{occurrences, last}
use system_memory_lmkd.Watchdog.{backwards, Position, at_head, node, prev_among}

occurrences-append :
    (q : ℤ) (xs ys : List ℤ) → occurrences q (xs ++ ys) ≡ occurrences q xs + occurrences q ys
unfolding occurrences
occurrences-append q [] ys = omega arith
occurrences-append q (x ∷ xs) ys = omega (arith, occurrences-append q xs ys)

pub occurrences-backwards : (q : ℤ) (xs : List ℤ) → occurrences q (backwards xs) ≡ occurrences q xs
unfolding occurrences backwards
occurrences-backwards q [] = refl
occurrences-backwards q (x ∷ xs) =
    omega (arith, occurrences-append q (backwards xs) (x ∷ []), occurrences-backwards q xs)

pub length-backwards : (xs : List ℤ) → length (backwards xs) ≡ length xs
unfolding backwards
length-backwards [] = refl
length-backwards (x ∷ xs) =
    omega (arith, length-append (backwards xs) (x ∷ []), length-backwards xs)

-- The first node of a walk.
abbrev pub first : List ℤ → Option ℤ
first [] = none
first (x ∷ xs) = some x

first-append : (x y : ℤ) (xs ys : List ℤ) → first ((xs ++ x ∷ []) ++ ys) ≡ first (xs ++ x ∷ [])
first-append x y [] ys = refl
first-append x y (z ∷ xs) ys = refl

pub last-backwards : (xs : List ℤ) → last xs ≡ first (backwards xs)
unfolding last backwards
last-backwards [] = refl
last-backwards (x ∷ []) = refl
last-backwards (x ∷ y ∷ ys) =
    last-backwards (y ∷ ys) ∙ sym (first-append y x (backwards ys) (x ∷ []))

-- What stands behind a node, with the nodes behind it.
abbrev pub next_of : List ℤ → Position
next_of [] = at_head
next_of (y ∷ ys) = node y

pub prev_among-append :
    (pid : ℤ) (tried rest : List ℤ)
    → occurrences pid tried ≡ 0
    → prev_among pid (tried ++ pid ∷ rest) ≡ next_of rest
unfolding prev_among occurrences
prev_among-append pid [] [] e = ground (arith, ==ℤ_iff pid pid)
prev_among-append pid [] (y ∷ ys) e = ground (arith, ==ℤ_iff pid pid)
prev_among-append pid (x ∷ []) rest e = ground (arith, e, prev_among-append pid [] rest)
prev_among-append pid (x ∷ y ∷ ys) rest e = ground (arith, e, prev_among-append pid (y ∷ ys) rest)

pub All-occurs : (P : ℤ → Type 0) (q : ℤ) (xs : List ℤ) → All P xs → 1 ≤ occurrences q xs → P q
unfolding occurrences
All-occurs P q [] a h = absurd (omega (arith, h))
All-occurs P q (x ∷ xs) (px, a) h = elim (Bool-cases (x ==ℤ q)) [
  | inl e ↦ rw (sym ((==ℤ_iff x q).0 e)) px
  | inr e ↦ All-occurs P q xs a (ground (arith, e, h))
]

pub occurrences-within :
    (q : ℤ) (xs ys : List ℤ) → occurrences q (xs ++ q ∷ ys) ≤ 1 → occurrences q xs ≡ 0
unfolding occurrences
occurrences-within q xs ys h = ground (arith, h, occurrences-append q xs (q ∷ ys), ==ℤ_iff q q)

pub occurs-within : (q : ℤ) (xs ys : List ℤ) → 1 ≤ occurrences q (xs ++ q ∷ ys)
unfolding occurrences
occurs-within q xs ys = ground (arith, occurrences-append q xs (q ∷ ys), ==ℤ_iff q q)

-- ===== src/Procfs/Names.antt =====
-- The place of a name among the fields of a file.
use system_memory_lmkd.Base.{
  ℕ, ◌+◌, ◌≤◌, ◌≡◌, refl, sym, ap, ◌∙◌, true, Option, none, some, List, [], ◌∷◌, ◌==◌, arith,
  update, Bool-cases, Option-cases, inl, inr, if◌then◌else◌, ==_iff,
}
use system_memory_lmkd.Base.Int.{ℤ}
use system_memory_lmkd.Cstring.{Bytes, same_text, same_text-eq}
use system_memory_lmkd.Procfs.{find_field, find_from}

-- A line stores its number, scaled, at the place of its name.
abbrev pub store_at : Option ℕ → ℤ → (ℕ → ℤ) → ℕ → ℤ
store_at none v fields = fields
store_at (some i) v fields = update fields i v

find_from-above :
    (i j : ℕ) (nm : Bytes) (names : List Bytes) → find_from i nm names ≡ some j → i ≤ j
unfolding find_from
find_from-above i j nm [] h = ground (arith, h)
find_from-above i j nm (f ∷ fs) h = elim (Bool-cases (same_text nm f)) [
  | inl e ↦ ground (arith, e, h)
  | inr e ↦ omega (arith, find_from-above (i + 1) j nm fs (rw e at h))
]

-- Two names at the same place are one.
find_from-one :
    (i j : ℕ) (a b : Bytes) (names : List Bytes)
    → find_from i a names ≡ some j
    → find_from i b names ≡ some j
    → a ≡ b
unfolding find_from
find_from-one i j a b [] h k = ground (arith, h)
find_from-one i j a b (f ∷ fs) h k = elim (Bool-cases (same_text a f)) [
  | inl e ↦ elim (Bool-cases (same_text b f)) [
    | inl g ↦ same_text-eq a f e ∙ sym (same_text-eq b f g)
    | inr g ↦
        let late = find_from-above (i + 1) j b fs (rw g at k) in absurd (ground (arith, late, e, h))
  ]
  | inr e ↦ elim (Bool-cases (same_text b f)) [
    | inl g ↦
        let late = find_from-above (i + 1) j a fs (rw e at h) in absurd (ground (arith, late, g, k))
    | inr g ↦ find_from-one (i + 1) j a b fs (rw e at h) (rw g at k)
  ]
]

same_text_refl : (a : Bytes) → same_text a a ≡ true
unfolding same_text
same_text_refl [] = refl
same_text_refl (c ∷ cs) = ground (arith, same_text_refl cs)

module _ (names : List Bytes) (key : Bytes) (i : ℕ) (place : find_field key names ≡ some i) where
  pub store_at-named :
      (nm : Bytes) (v : ℤ) (fields : ℕ → ℤ)
      → store_at (find_field nm names) v fields i ≡ (if same_text nm key then v else fields i)
  unfolding find_field
  store_at-named nm v fields = elim (Bool-cases (same_text nm key)) [
    | inl e ↦ rw (same_text-eq nm key e, same_text_refl key, place) (ground arith)
    | inr e ↦ elim (Option-cases (find_field nm names)) [
      | inl none_there ↦ rw (none_there, e) refl
      | inr (j, found) ↦ elim (Bool-cases (i == j)) [
        | inl q ↦
            let there : find_from 0 nm names ≡ some i = found ∙ ap some (sym ((==_iff i j).0 q)) in
            let one = find_from-one 0 i nm key names there place in
            let named : same_text nm key ≡ true = rw (← one) (same_text_refl nm) in
            absurd (ground (arith, e, named))
        | inr q ↦ rw (found, e) (ground (arith, q))
      ]
    ]
  ]

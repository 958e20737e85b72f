-- ===== src/Procfs/Zoneinfo/Protection.antt =====
-- The largest protection of a zone, which is added to its watermarks.
use system_memory_lmkd.Base.{
  ℕ, zero, suc, ◌+◌, ◌<◌, ◌≤◌, ◌≡◌, refl, Option, none, some, arith, ◌⊎◌, if◌then◌else◌, update,
  Bool-cases, inl, inr,
}
use system_memory_lmkd.Base.Int.{ℤ, pos, ◌≤ℤ◌, ◌<?◌}
use system_memory_lmkd.Cstring.{Bytes, strtok}
use system_memory_lmkd.Procfs.{codes}
use system_memory_lmkd.Procfs.Zoneinfo.{Zone, protect, zone_value, zoneinfo_parse_protection}

-- `max` is the largest of the values and 0, and if it is not 0 one of the first `i` values is equal.
pub record IsLargest (protection : ℕ → ℤ) (i : ℕ) (max : ℤ) : Type 0 where
  pub positive : pos 0 ≤ℤ max
  pub bound : (j : ℕ) → protection j ≤ℤ max
  pub reached : (max ≡ pos 0) ⊎ ((j : ℕ) × (j < i) × (protection j ≡ max))

-- A later value is another one.
reached-update :
    (p : ℕ → ℤ) (i : ℕ) (max v : ℤ)
    → (max ≡ pos 0) ⊎ ((j : ℕ) × (j < i) × (p j ≡ max))
    → (max ≡ pos 0) ⊎ ((j : ℕ) × (j < i + 1) × (update p i v j ≡ max))
reached-update p i max v (inl z) = inl z
reached-update p i max v (inr (j, l, q)) = inr (j, omega arith, ground (arith, q))

IsLargest-update :
    (p : ℕ → ℤ) (i : ℕ) (max v : ℤ)
    → IsLargest p i max
    → IsLargest (update p i v) (i + 1) (if max <? v then v else max)
IsLargest-update p i max v h = elim (Bool-cases (max <? v)) [
  | inl e ↦ rw e (record {
    positive = ground (arith, h.positive);
    bound = λ j. ground (arith, h.bound j);
    reached = inr (i, omega arith, ground arith);
  })
  | inr e ↦ rw e (record {
    positive = h.positive;
    bound = λ j. ground (arith, h.bound j);
    reached = reached-update p i max v h.reached;
  })
]

within :
    (p : ℕ → ℤ) (i : ℕ) (max : ℤ)
    → (max ≡ pos 0) ⊎ ((j : ℕ) × (j < i) × (p j ≡ max))
    → i ≤ 6
    → (max ≡ pos 0) ⊎ ((j : ℕ) × (j < 6) × (p j ≡ max))
within p i max (inl z) h = inl z
within p i max (inr (j, l, q)) h = inr (j, omega arith, q)

protect-IsLargest :
    (rounds i : ℕ) (max : ℤ) (token : Option (Bytes × Bytes)) (zone : Zone)
    → IsLargest zone.protection i max
    → i + rounds ≡ 6
    → IsLargest
        (protect rounds i max token zone).protection
        6
        (protect rounds i max token zone).max_protection
unfolding protect
protect-IsLargest zero i max token zone h e = let k : i ≡ 6 = omega (arith, e) in rw k at h
protect-IsLargest (suc rounds) i max none zone h e = record {
  positive = h.positive;
  bound = h.bound;
  reached = within zone.protection i max h.reached (omega (arith, e));
}
protect-IsLargest (suc rounds) i max (some (token, rest)) zone h e =
    let v = zone_value token in
    protect-IsLargest rounds (i + 1) (if max <? v then v else max) (strtok (codes "), ") rest)
      (record zone { protection = update zone.protection i v })
      (IsLargest-update zone.protection i max v h) (omega (arith, e))

-- A zone whose protections are 0, as they are before its line is parsed, gets with the line the
-- largest of the values that are stored as its `max_protection`: it is at least 0 and at least each
-- value, and it is 0 or equal to one of the six.
pub zoneinfo_parse_protection-IsLargest :
    (buf : Bytes) (zone : Zone)
    → ((j : ℕ) → zone.protection j ≡ pos 0)
    → IsLargest
        (zoneinfo_parse_protection buf zone).protection
        6
        (zoneinfo_parse_protection buf zone).max_protection
unfolding zoneinfo_parse_protection
zoneinfo_parse_protection-IsLargest buf zone h =
    protect-IsLargest 6 0 (pos 0) (strtok (codes "(), ") buf) zone
      (record { positive = omega arith; bound = λ j. rw (h j) (omega arith); reached = inl refl })
      (omega arith)

-- ===== src/Killcnt/History.antt =====
-- The kill counters against the list of the kills made, newest first.
use system_memory_lmkd.Base.{
  ℕ, zero, suc, ◌+◌, ◌%◌, ◌^◌, ◌≤◌, ◌<◌, ◌≡◌, refl, some, List, [], ◌∷◌, ◌==◌, leb, ◌&&◌,
  if◌then◌else◌, length, All, arith,
}
use system_memory_lmkd.Base.Int.{ℤ, pos, negsuc, ◌≤ℤ◌, ◌<ℤ◌, ◌≤?◌}
use system_memory_lmkd.Killcnt.{
  Killcnt, init, inc_cell, inc_killcnt, cell_of, sum_slots, get_killcnt, slot_count,
}
use system_memory_lmkd.Registry.Hash.{adj_to_slot, IsScore}

-- The counters after these kills.
unfoldable pub counted : List ℤ → Killcnt
counted [] = init
counted (a ∷ h) = inc_killcnt (counted h) a

-- How many kills were made at the score of a slot.
unfoldable pub kills_at : ℕ → List ℤ → ℕ
kills_at s [] = 0
kills_at s (a ∷ h) = (if adj_to_slot a == s then 1 else 0) + kills_at s h

-- How many different scores were killed at.
unfoldable pub distinct : List ℤ → ℕ
distinct [] = 0
distinct (a ∷ h) = (if kills_at (adj_to_slot a) h == 0 then 1 else 0) + distinct h

-- How many kills were made at scores from `lo` to `hi`.
unfoldable pub kills_between : ℤ → ℤ → List ℤ → ℕ
kills_between lo hi [] = 0
kills_between lo hi (a ∷ h) = (if lo ≤? a && a ≤? hi then 1 else 0) + kills_between lo hi h

kills_at-le : (s : ℕ) (h : List ℤ) → kills_at s h ≤ length h
unfolding kills_at
kills_at-le s [] = omega arith
kills_at-le s (a ∷ h) = ground (arith, kills_at-le s h)

record Counts (h : List ℤ) (k : Killcnt) : Type 0 where
  free : k.free_idx ≡ distinct h
  unseen : (s : ℕ) → kills_at s h ≡ 0 → k.idx s ≡ 255
  seen :
      (s : ℕ)
      → 0 < kills_at s h
      → (k.idx s < distinct h) × (k.cells (k.idx s) ≡ kills_at s h % 2 ^ 16)
  apart : (s t : ℕ) → 0 < kills_at s h → 0 < kills_at t h → k.idx s ≡ k.idx t → s ≡ t

init-Counts : Counts [] init
unfolding init kills_at distinct
init-Counts = record {
  free = refl;
  unseen = λ s e. refl;
  seen = λ s h. absurd (omega arith);
  apart = λ s t h k e. absurd (omega arith);
}

module _ (h : List ℤ) (a : ℤ) (k : Killcnt) (v : Counts h k) (room : distinct (a ∷ h) ≤ 32) where
  inc-Counts : Counts (a ∷ h) (inc_killcnt k a)
  unfolding inc_killcnt kills_at distinct
  inc-Counts = record {
    free = ground (arith, v.free, v.unseen (adj_to_slot a), v.seen (adj_to_slot a));
    unseen =
        λ s e. ground (arith, v.free, v.unseen s, v.unseen (adj_to_slot a), v.seen (adj_to_slot a));
    seen = λ s e. ground (
      arith,
      v.free,
      v.unseen (adj_to_slot a),
      v.seen (adj_to_slot a),
      v.unseen s,
      v.seen s,
      v.apart s (adj_to_slot a),
    );
    apart = λ s t p q e. ground (
      arith,
      v.free,
      v.unseen (adj_to_slot a),
      v.seen (adj_to_slot a),
      v.seen s,
      v.seen t,
      v.apart s t,
      v.apart s (adj_to_slot a),
      v.apart (adj_to_slot a) t,
    );
  }

distinct_mono : (a : ℤ) (h : List ℤ) → distinct h ≤ distinct (a ∷ h)
unfolding distinct
distinct_mono a h = omega arith

counted-Counts : (h : List ℤ) → distinct h ≤ 32 → Counts h (counted h)
unfolding counted
counted-Counts [] d = init-Counts
counted-Counts (a ∷ h) d =
    inc-Counts h a (counted h) (counted-Counts h (omega (arith, distinct_mono a h))) d

cell_of-counted :
    (h : List ℤ)
    → distinct h ≤ 32
    → length h < 2 ^ 16
    → (s : ℕ) → cell_of (counted h) s ≡ kills_at s h
unfolding cell_of
cell_of-counted h d l s =
    let v = counted-Counts h d in ground (arith, v.unseen s, v.seen s, kills_at-le s h)

-- The kills in the slots from `lo` to `hi`.
slots_between : ℕ → ℕ → List ℤ → ℕ
slots_between lo hi [] = 0
slots_between lo hi (a ∷ h) =
    (if leb lo (adj_to_slot a) && leb (adj_to_slot a) hi then 1 else 0) + slots_between lo hi h

slots_between-step :
    (lo hi : ℕ) (h : List ℤ)
    → lo ≤ hi
    → slots_between lo hi h ≡ kills_at lo h + slots_between (lo + 1) hi h
unfolding slots_between kills_at
slots_between-step lo hi [] p = refl
slots_between-step lo hi (a ∷ h) p = ground (arith, slots_between-step lo hi h p)

slots_between-empty : (lo hi : ℕ) (h : List ℤ) → hi < lo → slots_between lo hi h ≡ 0
unfolding slots_between
slots_between-empty lo hi [] p = refl
slots_between-empty lo hi (a ∷ h) p = ground (arith, slots_between-empty lo hi h p)

slots_between-above :
    (lo hi : ℕ) (h : List ℤ) → All IsScore h → slot_count ≤ lo → slots_between lo hi h ≡ 0
unfolding slots_between
slots_between-above lo hi [] v p = refl
slots_between-above lo hi (a ∷ h) (s, v) p = ground (arith, slots_between-above lo hi h v p)

slots_between-eq :
    (lo hi : ℤ) (h : List ℤ)
    → All IsScore h
    → negsuc 999 ≤ℤ lo
    → lo ≤ℤ hi
    → slots_between (adj_to_slot lo) (adj_to_slot hi) h ≡ kills_between lo hi h
unfolding slots_between kills_between
slots_between-eq lo hi [] v p q = refl
slots_between-eq lo hi (a ∷ h) (s, v) p q = ground (arith, slots_between-eq lo hi h v p q)

sum_slots-eq :
    (fuel : ℕ) (h : List ℤ) (slot hi acc : ℕ)
    → distinct h ≤ 32
    → length h < 2 ^ 16
    → All IsScore h
    → slot_count ≤ slot + fuel
    → sum_slots fuel (counted h) slot hi acc ≡ acc + slots_between slot hi h
unfolding sum_slots
sum_slots-eq zero h slot hi acc d l v p =
    omega (arith, slots_between-above slot hi h v (omega arith))
sum_slots-eq (suc fuel) h slot hi acc d l v p = ground (
  arith,
  cell_of-counted h d l slot,
  slots_between-step slot hi h,
  slots_between-empty slot hi h,
  slots_between-above slot hi h v,
  sum_slots-eq fuel h (slot + 1) hi (acc + cell_of (counted h) slot) d l v,
)

-- Over a history of fewer than 2 ^ 16 kills at no more than 32 different scores, a query for a range of
-- scores within the slots returns the number of kills made in that range.
pub get_killcnt-counted :
    (h : List ℤ) (lo hi : ℤ)
    → All IsScore h
    → distinct h ≤ 32
    → length h < 2 ^ 16
    → negsuc 999 ≤ℤ lo
    → lo ≤ℤ pos 1000
    → lo ≤ℤ hi
    → get_killcnt (counted h) lo hi ≡ some (pos (kills_between lo hi h))
unfolding get_killcnt
get_killcnt-counted h lo hi v d l a b c = ground (
  arith,
  slots_between-eq lo hi h v a c,
  sum_slots-eq slot_count h (adj_to_slot lo) (adj_to_slot hi) 0 d l v (omega arith),
)

inc_cell-total : (k : Killcnt) (s : ℕ) → (inc_cell k s).total ≡ k.total
unfolding inc_cell
inc_cell-total k s = ground arith

total-counted : (h : List ℤ) → (counted h).total ≡ length h % 2 ^ 32
unfolding counted init inc_killcnt
total-counted [] = refl
total-counted (a ∷ h) = omega (arith, total-counted h, inc_cell-total (counted h) (adj_to_slot a))

-- A query from above the highest score returns the number of all kills, however many scores they
-- were at, while that number fits an `int`.
pub get_killcnt-total :
    (h : List ℤ) (lo hi : ℤ)
    → pos 1000 <ℤ lo
    → lo ≤ℤ hi
    → length h < 2 ^ 31
    → get_killcnt (counted h) lo hi ≡ some (pos (length h))
unfolding get_killcnt
get_killcnt-total h lo hi a b l = ground (arith, total-counted h)

full-cell :
    (h : List ℤ) (a : ℤ)
    → distinct h ≡ 32
    → kills_at (adj_to_slot a) h ≡ 0
    → cell_of (counted (a ∷ h)) (adj_to_slot a) ≡ 0
unfolding counted cell_of inc_killcnt
full-cell h a d new =
    let v = counted-Counts h (omega arith) in ground (arith, v.free, v.unseen (adj_to_slot a))

sum_slots-past :
    (fuel : ℕ) (k : Killcnt) (slot hi acc : ℕ) → hi < slot → sum_slots fuel k slot hi acc ≡ acc
unfolding sum_slots
sum_slots-past zero k slot hi acc h = refl
sum_slots-past (suc fuel) k slot hi acc h = ground arith

sum_slots-one :
    (fuel : ℕ) (k : Killcnt) (slot acc : ℕ)
    → 0 < fuel
    → slot < slot_count
    → sum_slots fuel k slot slot acc ≡ acc + cell_of k slot
unfolding sum_slots
sum_slots-one zero k slot acc f h = absurd (omega arith)
sum_slots-one (suc fuel) k slot acc f h =
    ground (arith, sum_slots-past fuel k (slot + 1) slot (acc + cell_of k slot))

full-inc_cell :
    (h : List ℤ) (a : ℤ)
    → distinct h ≡ 32
    → kills_at (adj_to_slot a) h ≡ 0
    → inc_cell (counted h) (adj_to_slot a) ≡ counted h
unfolding inc_cell
full-inc_cell h a d new =
    let v = counted-Counts h (omega arith) in ground (arith, v.free, v.unseen (adj_to_slot a))

sum_slots-counts :
    (fuel : ℕ) (k : Killcnt) (n slot hi acc : ℕ)
    → sum_slots fuel (record k { total = n }) slot hi acc ≡ sum_slots fuel k slot hi acc
unfolding sum_slots cell_of
sum_slots-counts zero k n slot hi acc = refl
sum_slots-counts (suc fuel) k n slot hi acc =
    ground (arith, sum_slots-counts fuel k n (slot + 1) hi (acc + cell_of k slot))

full-query :
    (h : List ℤ) (a lo hi : ℤ)
    → distinct h ≡ 32
    → kills_at (adj_to_slot a) h ≡ 0
    → lo ≤ℤ pos 1000
    → get_killcnt (counted (a ∷ h)) lo hi ≡ get_killcnt (counted h) lo hi
unfolding get_killcnt counted inc_killcnt
full-query h a lo hi d new p = rw (full-inc_cell h a d new) (
    ground (
      arith,
      sum_slots-counts slot_count (counted h) (((counted h).total + 1) % 2 ^ 32) (adj_to_slot lo)
          (adj_to_slot hi) 0,
    ))

-- Once 32 scores have a counter, a kill at a further score is counted in the total only: every query
-- for a range of scores returns what it returned before the kill, the query for its own score 0, and
-- the query for all kills one more than were made before, so that the counters no longer add up to
-- the total.
pub get_killcnt-full :
    (h : List ℤ) (a lo hi : ℤ)
    → IsScore a
    → distinct h ≡ 32
    → kills_at (adj_to_slot a) h ≡ 0
    → length h + 1 < 2 ^ 31
    → lo ≤ℤ pos 1000
    → (get_killcnt (counted (a ∷ h)) lo hi ≡ get_killcnt (counted h) lo hi)
      × (get_killcnt (counted (a ∷ h)) a a ≡ some (pos 0))
      × (get_killcnt (counted (a ∷ h)) (pos 1001) (pos 1001) ≡ some (pos (length h + 1)))
unfolding get_killcnt
get_killcnt-full h a lo hi s d new l p = (
  full-query h a lo hi d new p,
  ground (
    arith,
    sum_slots-one slot_count (counted (a ∷ h)) (adj_to_slot a) 0 (omega arith) (ground arith),
    full-cell h a d new,
  ),
  ground (arith, total-counted (a ∷ h)),
)

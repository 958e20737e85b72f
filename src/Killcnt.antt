-- ===== src/Killcnt.antt =====
-- The kill counters of lmkd.cpp: `killcnt_idx`, `killcnt`, `killcnt_free_idx` and `killcnt_total`
-- with `inc_killcnt` and `get_killcnt`. A score's slot holds the index of its counter.
pub mod History
use system_memory_lmkd.Base.{
  ℕ, zero, suc, ◌+◌, ◌%◌, ◌^◌, Option, none, some, ◌==◌, ltb, leb, ◌&&◌, if◌then◌else◌, update,
}
use system_memory_lmkd.Base.Int.{ℤ, pos, negsuc, ◌<?◌, of_word}
use system_memory_lmkd.Registry.Hash.{adj_to_slot}

-- MAX_DISTINCT_OOM_ADJ, KILLCNT_INVALID_IDX and ADJTOSLOT_COUNT
abbrev pub max_distinct_oom_adj : ℕ
max_distinct_oom_adj = 32

abbrev pub invalid_idx : ℕ
invalid_idx = 255

abbrev pub slot_count : ℕ
slot_count = 2001

pub record Killcnt : Type 0 where
  pub idx : ℕ → ℕ
  pub cells : ℕ → ℕ
  pub free_idx : ℕ
  pub total : ℕ

unfoldable pub init : Killcnt
init = record { idx = λ s. invalid_idx; cells = λ i. 0; free_idx = 0; total = 0 }

-- The branches of `inc_killcnt` before the total is counted. A counter has 16 bits.
unfoldable pub inc_cell : Killcnt → ℕ → Killcnt
inc_cell k slot =
    if k.idx slot == invalid_idx
    then (if ltb k.free_idx max_distinct_oom_adj
        then record k {
          idx = update k.idx slot k.free_idx;
          cells = update k.cells k.free_idx 1;
          free_idx = k.free_idx + 1;
        }
        else k)
    else record k { cells = update k.cells (k.idx slot) ((k.cells (k.idx slot) + 1) % 2 ^ 16) }

unfoldable pub inc_killcnt : Killcnt → ℤ → Killcnt
unfolding inc_cell
inc_killcnt k oomadj =
    let k' = inc_cell k (adj_to_slot oomadj) in record k' { total = (k'.total + 1) % 2 ^ 32 }

unfoldable pub cell_of : Killcnt → ℕ → ℕ
cell_of k slot = if k.idx slot == invalid_idx then 0 else k.cells (k.idx slot)

-- The loop of `get_killcnt` from one slot on. Score and slot grow together; at most `slot_count`
-- rounds are made, since the slot is below that.
unfoldable pub sum_slots : ℕ → Killcnt → ℕ → ℕ → ℕ → ℕ
unfolding cell_of
sum_slots zero k slot max_slot acc = acc
sum_slots (suc fuel) k slot max_slot acc =
    let rest = sum_slots fuel k (slot + 1) max_slot (acc + cell_of k slot) in
    if leb slot max_slot && ltb slot slot_count then rest else acc

-- `none` is a read in front of `killcnt_idx`, at a negative slot.
unfoldable pub get_killcnt : Killcnt → ℤ → ℤ → Option ℤ
get_killcnt k min_oomadj max_oomadj =
    if max_oomadj <? min_oomadj
    then some (pos 0)
    else if pos 1000 <? min_oomadj
    then some (of_word k.total)
    else if min_oomadj <? negsuc 999
    then none
    else some (pos (sum_slots slot_count k (adj_to_slot min_oomadj) (adj_to_slot max_oomadj) 0))

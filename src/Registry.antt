-- ===== src/Registry.antt =====
-- The table of registered processes: `struct proc`, the hash chains of `pidhash` and the lists of
-- `procadjslot_list` in lmkd.cpp. A chain is the list of its records, newest first. A slot list is
-- the list of the pids of its nodes from `head->next` on; a node is found again by its pid, which
-- names one record. An `int` is an integer, and `pid_hashfn` reads its 32 bits.
pub mod Chain
pub mod Hash
pub mod Invariant
use system_memory_lmkd.Base.{
  ℕ, ◌+◌, ◌-◌, ◌/◌, ◌≡◌, Bool, true, false, ◌&&◌, not, Option, none, some, List, [], ◌∷◌, map,
  if◌then◌else◌, update,
}
use system_memory_lmkd.Base.Int.{ℤ, pos, negsuc, ◌==ℤ◌, ◌<?◌}
use Chain.{Proc, find, remove, modify, erase, last}
use Hash.{pid_hashfn, adj_to_slot}

pub record Registry : Type 0 where
  pub pidhash : ℕ → List Proc
  pub slots : ℕ → List ℤ

-- After `init`: every chain is empty, and every slot's head points at itself.
unfoldable pub empty : Registry
empty = record { pidhash = λ i. []; slots = λ s. [] }

unfoldable pub pid_lookup : Registry → ℤ → Option Proc
pid_lookup r pid = find pid (r.pidhash (pid_hashfn pid))

-- The new node goes behind the head.
unfoldable pub proc_slot : Registry → Proc → Registry
proc_slot r p =
    let s = adj_to_slot p.oomadj in record r { slots = update r.slots s (p.pid ∷ r.slots s) }

-- The node is taken out of the list that it stands in, which is that of its score.
unfoldable pub proc_unslot : Registry → Proc → Registry
proc_unslot r p =
    let s = adj_to_slot p.oomadj in record r { slots = update r.slots s (erase p.pid (r.slots s)) }

unfoldable pub proc_insert : Registry → Proc → Registry
proc_insert r p =
    let h = pid_hashfn p.pid in
    proc_slot (record r { pidhash = update r.pidhash h (p ∷ r.pidhash h) }) p

-- A write through the pointer that `pid_lookup` returned.
unfoldable pub proc_write : Registry → ℤ → (Proc → Proc) → Registry
proc_write r pid f =
    let h = pid_hashfn pid in record r { pidhash = update r.pidhash h (modify pid f (r.pidhash h)) }

-- The record and its node go; the caller closes the descriptor in the result, unless the process
-- that it stands for is still waited for.
unfoldable pub unlink : Registry → Proc → Registry
unlink r p =
    let h = pid_hashfn p.pid in
    proc_unslot (record r { pidhash = update r.pidhash h (remove p.pid (r.pidhash h)) }) p

pub record Removal : Type 0 where
  pub registry : Registry
  pub result : ℤ
  pub closed : Option ℤ

-- `procp->pidfd >= 0 && procp->pidfd != last_kill_pid_or_fd`
unfoldable pub closes : ℤ → ℤ → Option ℤ
closes last_kill fd = if not (fd <? pos 0) && not (fd ==ℤ last_kill) then some fd else none

unfoldable pub pid_remove : ℤ → Registry → ℤ → Removal
pid_remove last_kill r pid = elim (pid_lookup r pid) [
  | none ↦ record { registry = r; result = negsuc 0; closed = none }
  | some p ↦ record { registry = unlink r p; result = pos 0; closed = closes last_kill p.pidfd }
]

unfoldable pub pid_invalidate : Registry → ℤ → Registry
pid_invalidate r pid = elim (pid_lookup r pid) [
  | none ↦ r
  | some p ↦ proc_write r pid (λ q. record q { valid = false })
]

-- The record may be changed by its registrant, or by anybody once the registrant is gone.
unfoldable pub may_claim : Proc → ℤ → Bool
may_claim p pid = if p.reg_pid ==ℤ pid then true else p.reg_pid ==ℤ pos 0

-- `claim_record`: the new owner is written when the old one is gone.
unfoldable pub claim : Proc → ℤ → Proc
claim p pid =
    if p.reg_pid ==ℤ pid then p else if p.reg_pid ==ℤ pos 0 then record p { reg_pid = pid } else p

unfoldable pub unclaim : ℤ → Proc → Proc
unclaim pid p = if p.reg_pid ==ℤ pid then record p { reg_pid = pos 0 } else p

-- All the chains are walked, and the records of the registrant lose their owner.
unfoldable pub remove_claims : Registry → ℤ → Registry
remove_claims r pid = record r { pidhash = λ i. map (unclaim pid) (r.pidhash i) }

unfoldable pub proc_adj_tail : Registry → ℤ → Option ℤ
proc_adj_tail r oomadj = last (r.slots (adj_to_slot oomadj))

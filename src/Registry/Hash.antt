-- ===== src/Registry/Hash.antt =====
-- The two indices of a record: `pid_hashfn` and `ADJTOSLOT` of lmkd.cpp.
use Prim.Native.Nat.{bit_and, bit_xor, digits, min, bit_and-bitwise}
use system_memory_lmkd.Base.{ℕ, zero, suc, ◌+◌, ◌-◌, ◌/◌, ◌≤◌, ◌<◌, ◌≡◌, arith}
use system_memory_lmkd.Base.Int.{ℤ, pos, negsuc, to_word, ◌≤ℤ◌}

-- The ten bits kept lie below bit 18, so the sign that `>>` copies in is not seen.
unfoldable pub pid_hashfn : ℤ → ℕ
pid_hashfn x = let w = to_word x in bit_and (bit_xor (w / 256) w) 1023

-- `adj + 1000`; below -1000 the source leaves its array, and no caller passes such a score.
abbrev pub adj_to_slot : ℤ → ℕ
adj_to_slot (pos n) = n + 1000
adj_to_slot (negsuc n) = 999 - n

-- OOM_SCORE_ADJ_MIN and OOM_SCORE_ADJ_MAX
abbrev pub IsScore : ℤ → Type 0
IsScore a = (negsuc 999 ≤ℤ a) × (a ≤ℤ pos 1000)

pub adj_to_slot_injective :
    (a b : ℤ) → IsScore a → IsScore b → adj_to_slot a ≡ adj_to_slot b → a ≡ b
adj_to_slot_injective a b ha hb e = ground arith

-- A common digit is at most the second number's.
digits-le : (n a b : ℕ) → digits (λ b. zero) min n a b ≤ b
digits-le zero a b = omega arith
digits-le (suc n) zero b = omega arith
digits-le (suc n) (suc a) b = omega (arith, digits-le n (suc a / 2) (b / 2))

bit_and-le : (a b : ℕ) → bit_and a b ≤ b
bit_and-le a b = omega (arith, bit_and-bitwise a b, digits-le a a b)

pub pid_hashfn-lt : (x : ℤ) → pid_hashfn x < 1024
unfolding pid_hashfn
pid_hashfn-lt x = omega (arith, bit_and-le (bit_xor (to_word x / 256) (to_word x)) 1023)

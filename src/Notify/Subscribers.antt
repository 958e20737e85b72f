-- ===== src/Notify/Subscribers.antt =====
-- Who is told of a kill, how often, and what.
use Prim.Native.Nat.{bit_and, digits, min, bit_and-bitwise}
use system_memory_lmkd.Base.{
  refl, Bool, not, ◌/◌, ◌%◌, ℕ, zero, suc, ◌+◌, ◌≡◌, ◌∙◌, true, false, Option, some, List, [], ◌∷◌,
  arith, ◌==◌, ltb, leb, ◌&&◌, if◌then◌else◌, All, map, Bool-cases, inl, inr,
}
use system_memory_lmkd.Base.Int.{pos, ◌≤?◌, ℤ}
use system_memory_lmkd.Control.{event_bit, DataSock, max_data_conn}
use system_memory_lmkd.Killreport.{
  Network, KillStat, MemoryStat, lmkd_pack_set_kill_occurred, pack_string,
}
use system_memory_lmkd.Killreport.Layout.{sent}
use system_memory_lmkd.Killreport.RoundTrip.{
  read_report, told, reported, FitsKill, FitsMemory, read-pack,
}
use system_memory_lmkd.Notify.{
  async_event_stat, is_subscribed, subscribers, Notice, words, octets, broadcast,
  stats_write_lmk_kill_occurred,
}

-- How many packets a connection gets.
pub packets : ℕ → List (ℕ × Notice) → ℕ
packets j [] = 0
packets j ((i, n) ∷ ns) = (if i == j then 1 else 0) + packets j ns

-- A packet that reads back as the report.
abbrev pub Tells : KillStat → Option MemoryStat → ℕ × Notice → Type 0
Tells kill mem (i, words ws) = ⊥
Tells kill mem (i, octets cs) = read_report cs ≡ some (told kill mem, 0 ∷ [])

packets-subscribers :
    (event : ℤ) (socks : ℕ → DataSock) (n : Notice) (j i rounds : ℕ)
    → packets j (map (λ k. (k, n)) (subscribers event socks i rounds))
      ≡ (if leb i j && ltb j (i + rounds) && is_subscribed event (socks j) then 1 else 0)
unfolding packets subscribers
packets-subscribers event socks n j i zero = ground arith
packets-subscribers event socks n j i (suc rounds) =
    elim (Bool-cases (is_subscribed event (socks i))) [
      | inl e ↦ rw e (ground (arith, packets-subscribers event socks n j (i + 1) rounds))
      | inr e ↦ rw e (ground (arith, packets-subscribers event socks n j (i + 1) rounds))
    ]

common_digits-zero : (n a : ℕ) → digits (λ b. zero) min n a 0 ≡ 0
common_digits-zero zero a = refl
common_digits-zero (suc n) zero = refl
common_digits-zero (suc n) (suc a) = omega (arith, common_digits-zero n (suc a / 2))

second_bit : (m : ℕ) → (bit_and m 2 == 0) ≡ not (m / 2 % 2 == 1)
second_bit zero = refl
second_bit (suc zero) = refl
second_bit (suc (suc n)) =
    let low = common_digits-zero n (suc (suc n) / 2 / 2) in
    ground (arith, bit_and-bitwise (suc (suc n)) 2, low)

-- A connection that is open, with the second bit of its mask set.
abbrev pub wants_reports : DataSock → Bool
wants_reports c = (pos 0 ≤? c.sock) && c.async_event_mask / 2 % 2 == 1

is_subscribed-stat : (c : DataSock) → is_subscribed async_event_stat c ≡ wants_reports c
unfolding is_subscribed event_bit
is_subscribed-stat c = rw (second_bit c.async_event_mask) (ground arith)

packed_index :
    (net : Network) (buffer : ℕ → ℕ) (kill : KillStat) (mem : Option MemoryStat)
    → ((lmkd_pack_set_kill_occurred net true buffer kill mem).index == 0) ≡ false
unfolding lmkd_pack_set_kill_occurred pack_string
packed_index net buffer kill mem = ground arith

told-each :
    (kill : KillStat) (mem : Option MemoryStat) (n : Notice) (is : List ℕ)
    → Tells kill mem (0, n)
    → All (Tells kill mem) (map (λ k. (k, n)) is)
told-each kill mem n [] h = tt
told-each kill mem (octets cs) (i ∷ is) h = (h, told-each kill mem (octets cs) is h)
told-each kill mem (words ws) (i ∷ is) h = absurd h

-- While the reports are enabled, each of the three connections gets one packet of a kill if it is open
-- and the second bit of its mask, which stands for the reports, is set, and none otherwise; no other
-- index gets any, and every packet reads back as the report of this kill. The fields have the width of their types, and the two amounts of
-- memory fit into an `int`.
pub stats_write-reaches :
    (net : Network) (buffer : ℕ → ℕ) (socks : ℕ → DataSock) (kill : KillStat)
    (mem : Option MemoryStat) (j : ℕ)
    → FitsKill kill
    → FitsMemory (reported mem)
    → (packets j (stats_write_lmk_kill_occurred net true buffer socks kill mem)
        ≡ (if ltb j 3 && wants_reports (socks j) then 1 else 0))
      × All (Tells kill mem) (stats_write_lmk_kill_occurred net true buffer socks kill mem)
unfolding stats_write_lmk_kill_occurred broadcast
stats_write-reaches net buffer socks kill mem j fk fm =
    let p = lmkd_pack_set_kill_occurred net true buffer kill mem in
    let some_index : (p.index == 0) ≡ false = packed_index net buffer kill mem in
    rw some_index (
      packets-subscribers async_event_stat socks (octets (sent p)) j 0 max_data_conn
          ∙ ground (arith, is_subscribed-stat (socks j)),
      told-each kill mem (octets (sent p)) (subscribers async_event_stat socks 0 max_data_conn)
          (read-pack net buffer kill mem fk fm),
    )

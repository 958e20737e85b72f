-- ===== src/Killreport/Bounds.antt =====
-- The packet has room for the report.
use Prim.Native.Nat.{min}
use system_memory_lmkd.Base.{
  ℕ, ◌+◌, ◌*◌, ◌≤◌, Bool, false, ◌≡◌, refl, ◌∙◌, Option, none, some, List, [], ◌∷◌, arith, ◌==◌,
  true, length,
}
use system_memory_lmkd.Base.Int.{ℤ, pos, to_word, to_word64, to_word-lt, to_word64-lt}
use system_memory_lmkd.Packet.{cmd_code, stat_kill_occurred}
use system_memory_lmkd.Cstring.{Bytes}
use system_memory_lmkd.Killreport.{
  Network, MemoryStat, KillStat, Packet, big_endian, write, pack_int32, pack_int64, pack_string,
  strncpy, pack_int32s, pack_int64s, memory_values, kill_values, lmkd_pack_set_kill_occurred,
}
use system_memory_lmkd.Killreport.Layout.{length-strncpy, write-behind}

module _ (net : Network) (j : ℕ) where
  int32s-behind :
      (p : Packet) (vs : List ℤ)
      → p.index + 4 * length vs ≤ j
      → (pack_int32s net p vs).bytes j ≡ p.bytes j
  unfolding pack_int32s pack_int32
  int32s-behind p [] h = refl
  int32s-behind p (v ∷ vs) h =
      int32s-behind (pack_int32 net p v) vs (omega arith)
      ∙ rw (net.htonl_lem (to_word v) (to_word-lt v))
          (write-behind p.bytes p.index (big_endian 4 (to_word v)) j (omega arith))

  int64s-behind :
      (p : Packet) (vs : List ℤ)
      → p.index + 8 * length vs ≤ j
      → (pack_int64s net p vs).bytes j ≡ p.bytes j
  unfolding pack_int64s pack_int64
  int64s-behind p [] h = refl
  int64s-behind p (v ∷ vs) h =
      int64s-behind (pack_int64 net p v) vs (omega arith)
      ∙ rw (net.htonq_lem (to_word64 v) (to_word64-lt v))
          (write-behind p.bytes p.index (big_endian 8 (to_word64 v)) j (omega arith))

  string-behind :
      (p : Packet) (cs : Bytes) → p.index + 130 ≤ j → (pack_string net p cs).bytes j ≡ p.bytes j
  unfolding pack_string
  string-behind p cs h =
      let len = min (length cs) 127 in
      let b = write p.bytes p.index (big_endian 2 len) in
      let ne : (j == (p.index + 2 + 127)) ≡ false = ground arith in
      rw (net.htons_lem len (omega arith), ne)
        (write-behind b (p.index + 2) (strncpy 127 cs) j (omega (arith, length-strncpy 127 cs))
          ∙ write-behind p.bytes p.index (big_endian 2 len) j (omega arith))

module _ (net : Network) where
  int32s-index : (p : Packet) (vs : List ℤ) → (pack_int32s net p vs).index ≡ p.index + 4 * length vs
  unfolding pack_int32s pack_int32
  int32s-index p [] = omega arith
  int32s-index p (v ∷ vs) = omega (arith, int32s-index (pack_int32 net p v) vs)

  int64s-index : (p : Packet) (vs : List ℤ) → (pack_int64s net p vs).index ≡ p.index + 8 * length vs
  unfolding pack_int64s pack_int64
  int64s-index p [] = omega arith
  int64s-index p (v ∷ vs) = omega (arith, int64s-index (pack_int64 net p v) vs)

  length-memory : (mem : Option MemoryStat) → length (memory_values mem) ≡ 6
  unfolding memory_values
  length-memory none = refl
  length-memory (some m) = refl

  index-values :
      (p : Packet) (kill : KillStat) (mem : Option MemoryStat)
      → (pack_int32s net (pack_int64s net p (memory_values mem)) (kill_values kill)).index
        ≡ p.index + 80
  unfolding kill_values
  index-values p kill mem = omega (
    arith,
    int32s-index (pack_int64s net p (memory_values mem)) (kill_values kill),
    int64s-index p (memory_values mem),
    length-memory mem,
  )

  bytes-values :
      (p : Packet) (kill : KillStat) (mem : Option MemoryStat) (j : ℕ)
      → p.index + 80 ≤ j
      → (pack_int32s net (pack_int64s net p (memory_values mem)) (kill_values kill)).bytes j
        ≡ p.bytes j
  unfolding kill_values
  bytes-values p kill mem j h =
      int32s-behind net j (pack_int64s net p (memory_values mem)) (kill_values kill)
        (omega (arith, int64s-index p (memory_values mem), length-memory mem))
      ∙ int64s-behind net j p (memory_values mem) (omega (arith, length-memory mem))

  -- Of the 222 bytes of the packet no more than 214 are sent, and none behind them is written,
  -- whatever the length of the name.
  pub pack-bounds :
      (enabled : Bool) (buffer : ℕ → ℕ) (kill : KillStat) (mem : Option MemoryStat) (j : ℕ)
      → 214 ≤ j
      → ((lmkd_pack_set_kill_occurred net enabled buffer kill mem).index ≤ 214)
        × ((lmkd_pack_set_kill_occurred net enabled buffer kill mem).bytes j ≡ buffer j)
  unfolding lmkd_pack_set_kill_occurred pack_string pack_int32s pack_int32
  pack-bounds false buffer kill mem j h = (omega arith, refl)
  pack-bounds true buffer kill mem j h =
      let start : Packet = record { bytes = buffer; index = 0 } in
      let header = pack_int32 net start (pos (cmd_code stat_kill_occurred)) in
      let body = pack_int32s net (pack_int64s net header (memory_values mem)) (kill_values kill) in
      (
        omega (arith, index-values header kill mem),
        string-behind net j body kill.taskname (omega (arith, index-values header kill mem))
            ∙ (bytes-values header kill mem j (omega arith)
                ∙ int32s-behind net j start (pos (cmd_code stat_kill_occurred) ∷ []) (omega arith)),
      )

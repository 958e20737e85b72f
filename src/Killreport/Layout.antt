-- ===== src/Killreport/Layout.antt =====
-- What the packet holds up to its index, and how far it is written.
use Prim.Native.Nat.{min}
use mathlib.Core.List.{append_assoc, append-nil}
use system_memory_lmkd.Base.{
  ℕ, zero, suc, ◌+◌, ◌/◌, ◌%◌, ◌≤◌, ◌≡◌, refl, ◌∙◌, ap, sym, true, Option, List, [], ◌∷◌, ◌++◌,
  arith, update, length, length-append, take,
}
use system_memory_lmkd.Base.Int.{ℤ, pos, to_word, to_word64, to_word-lt, to_word64-lt}
use system_memory_lmkd.Packet.{cmd_code}
use system_memory_lmkd.Cstring.{Bytes}
use system_memory_lmkd.Killreport.{
  Network, MemoryStat, KillStat, Packet, big_endian, write, strncpy, pack_int32, pack_int64,
  pack_string, pack_int32s, pack_int64s, memory_values, kill_values, lmkd_pack_set_kill_occurred,
}

-- The first bytes of an array.
unfoldable pub first : (ℕ → ℕ) → ℕ → Bytes
first b zero = []
first b (suc n) = first b n ++ b n ∷ []

-- The bytes that are sent.
abbrev pub sent : Packet → Bytes
sent p = first p.bytes p.index

first-update : (b : ℕ → ℕ) (i v n : ℕ) → n ≤ i → first (update b i v) n ≡ first b n
unfolding first
first-update b i v zero h = refl
first-update b i v (suc n) h = ground (arith, first-update b i v n)

-- What lies behind the bytes written stays, and so does what lies in front of them.
pub write-behind :
    (b : ℕ → ℕ) (i : ℕ) (cs : Bytes) (j : ℕ) → i + length cs ≤ j → write b i cs j ≡ b j
unfolding write
write-behind b i [] j h = refl
write-behind b i (c ∷ cs) j h = ground (arith, write-behind (update b i c) (i + 1) cs j)

first-below : (b : ℕ → ℕ) (i : ℕ) (cs : Bytes) (n : ℕ) → n ≤ i → first (write b i cs) n ≡ first b n
unfolding write
first-below b i [] n h = refl
first-below b i (c ∷ cs) n h =
    first-below (update b i c) (i + 1) cs n (omega arith) ∙ first-update b i c n h

first-extend : (b : ℕ → ℕ) (i c : ℕ) → first (update b i c) (i + 1) ≡ first b i ++ c ∷ []
unfolding first
first-extend b i c =
    let e : i + 1 ≡ suc i = omega arith in
    let own : update b i c i ≡ c = ground arith in
    rw (e, first, first-update b i c i (omega arith), own)

-- The first `k` bytes written stand behind what was there.
pub first-write :
    (b : ℕ → ℕ) (i : ℕ) (cs : Bytes) (k : ℕ)
    → k ≤ length cs
    → first (write b i cs) (i + k) ≡ first b i ++ take k cs
unfolding first write
first-write b i cs zero h =
    let e : i + 0 ≡ i = omega arith in
    rw (e, append-nil (first b i)) (first-below b i cs i (omega arith))
first-write b i [] (suc k) h = absurd (omega arith)
first-write b i (c ∷ cs) (suc k) h =
    let e : i + suc k ≡ i + 1 + k = omega arith in
    rw (e, write, first-write (update b i c) (i + 1) cs k (omega arith), first-extend b i c)
      (append_assoc (first b i) (c ∷ []) (take k cs))

write-append :
    (b : ℕ → ℕ) (i : ℕ) (cs : Bytes) (c : ℕ)
    → update (write b i cs) (i + length cs) c ≡ write b i (cs ++ c ∷ [])
unfolding write
write-append b i [] c = let e : i + 0 ≡ i = omega arith in rw (e, write)
write-append b i (d ∷ cs) c =
    let e : i + suc (length cs) ≡ i + 1 + length cs = omega arith in
    rw (e, write) (write-append (update b i d) (i + 1) cs c)

pub length-strncpy : (n : ℕ) (cs : Bytes) → length (strncpy n cs) ≡ n
unfolding strncpy
length-strncpy zero cs = refl
length-strncpy (suc n) [] = ap suc (length-strncpy n [])
length-strncpy (suc n) (c ∷ cs) = ap suc (length-strncpy n cs)

-- The text with one zero behind it.
strncpy-take :
    (n : ℕ) (cs : Bytes)
    → take (min (length cs) n + 1) (strncpy n cs ++ 0 ∷ []) ≡ take n cs ++ 0 ∷ []
unfolding strncpy
strncpy-take zero cs = let e : min (length cs) 0 + 1 ≡ 1 = omega arith in rw e
strncpy-take (suc n) [] = let e : min 0 (suc n) + 1 ≡ 1 = omega arith in rw e
strncpy-take (suc n) (c ∷ cs) =
    let e : min (suc (length cs)) (suc n) + 1 ≡ suc (min (length cs) n + 1) = omega arith in
    rw e (ap (λ t. c ∷ t) (strncpy-take n cs))

pub length-big_endian : (n w : ℕ) → length (big_endian n w) ≡ n
length-big_endian zero w = refl
length-big_endian (suc n) w =
    omega (
      arith,
      length-append (big_endian n (w / 256)) ((w % 256) ∷ []),
      length-big_endian n (w / 256),
    )

-- The bytes of numbers in a row.
unfoldable pub words32 : List ℤ → Bytes
words32 [] = []
words32 (v ∷ vs) = big_endian 4 (to_word v) ++ words32 vs

unfoldable pub words64 : List ℤ → Bytes
words64 [] = []
words64 (v ∷ vs) = big_endian 8 (to_word64 v) ++ words64 vs

-- The length of a text in two bytes, the text and a zero.
unfoldable pub text : Bytes → Bytes
text cs = big_endian 2 (min (length cs) 127) ++ take 127 cs ++ 0 ∷ []

module _ (net : Network) where
  sent-int32 : (p : Packet) (v : ℤ) → sent (pack_int32 net p v) ≡ sent p ++ big_endian 4 (to_word v)
  unfolding pack_int32
  sent-int32 p v =
      rw (net.htonl_lem (to_word v) (to_word-lt v))
        (first-write p.bytes p.index (big_endian 4 (to_word v)) 4 (omega arith))

  sent-int64 :
      (p : Packet) (v : ℤ) → sent (pack_int64 net p v) ≡ sent p ++ big_endian 8 (to_word64 v)
  unfolding pack_int64
  sent-int64 p v =
      rw (net.htonq_lem (to_word64 v) (to_word64-lt v))
        (first-write p.bytes p.index (big_endian 8 (to_word64 v)) 8 (omega arith))

  sent-string : (p : Packet) (cs : Bytes) → sent (pack_string net p cs) ≡ sent p ++ text cs
  unfolding pack_string text
  sent-string p cs =
      let len = min (length cs) 127 in
      let b = write p.bytes p.index (big_endian 2 len) in
      let padded = strncpy 127 cs ++ 0 ∷ [] in
      let e : p.index + 2 + len + 1 ≡ p.index + 2 + (len + 1) = omega arith in
      let fits : len + 1 ≤ length padded =
        omega (arith, length-append (strncpy 127 cs) (0 ∷ []), length-strncpy 127 cs) in
      let last : p.index + 2 + 127 ≡ p.index + 2 + length (strncpy 127 cs) =
        omega (arith, length-strncpy 127 cs) in
      rw (net.htons_lem len (omega arith), last, write-append b (p.index + 2) (strncpy 127 cs) 0, e)
        (first-write b (p.index + 2) padded (len + 1) fits
          ∙ (rw
              (strncpy-take 127 cs, first-write p.bytes p.index (big_endian 2 len) 2 (omega arith))
              (append_assoc (sent p) (big_endian 2 len) (take 127 cs ++ 0 ∷ []))))

  sent-int32s : (p : Packet) (vs : List ℤ) → sent (pack_int32s net p vs) ≡ sent p ++ words32 vs
  unfolding pack_int32s words32
  sent-int32s p [] = sym (append-nil (sent p))
  sent-int32s p (v ∷ vs) =
      rw (sent-int32s (pack_int32 net p v) vs, sent-int32 p v)
        (append_assoc (sent p) (big_endian 4 (to_word v)) (words32 vs))

  sent-int64s : (p : Packet) (vs : List ℤ) → sent (pack_int64s net p vs) ≡ sent p ++ words64 vs
  unfolding pack_int64s words64
  sent-int64s p [] = sym (append-nil (sent p))
  sent-int64s p (v ∷ vs) =
      rw (sent-int64s (pack_int64 net p v) vs, sent-int64 p v)
        (append_assoc (sent p) (big_endian 8 (to_word64 v)) (words64 vs))

  -- The bytes that are sent do not depend on what the buffer held.
  pub sent-pack :
      (b : ℕ → ℕ) (kill : KillStat) (mem : Option MemoryStat)
      → sent (lmkd_pack_set_kill_occurred net true b kill mem)
        ≡ big_endian 4 8
          ++ (words64 (memory_values mem) ++ (words32 (kill_values kill) ++ text kill.taskname))
  unfolding lmkd_pack_set_kill_occurred cmd_code first
  sent-pack b kill mem =
      let start : Packet = record { bytes = b; index = 0 } in
      let header = pack_int32 net start (pos 8) in
      let body = pack_int64s net header (memory_values mem) in
      sent-string (pack_int32s net body (kill_values kill)) kill.taskname
      ∙ (simp (
        sent-int32s body (kill_values kill),
        sent-int64s header (memory_values mem),
        sent-int32 start (pos 8),
        append_assoc,
      ))

-- ===== src/Killreport/Reader.antt =====
-- A reader of numbers and texts, as `DataInput` of Java reads: the most significant byte first, and a
-- text behind its length. It gets back what was written that way.
use mathlib.Core.List.{foldl, append_assoc}
use Prim.Native.Nat.{min}
use native.Mathlib.Nat.{pow-succ'}
use system_memory_lmkd.Base.{
  ℕ, zero, suc, ◌+◌, ◌*◌, ◌/◌, ◌%◌, ◌^◌, ◌<◌, ◌≡◌, refl, ◌∙◌, ap, Option, none, some, List, [], ◌∷◌,
  ◌++◌, arith, length, take, All,
}
use system_memory_lmkd.Base.Int.{
  ℤ, to_word, to_word64, to_word-lt, to_word64-lt, of_word, of_word64, of_word-to_word,
  of_word64-to_word64, IsInt32, IsInt64,
}
use system_memory_lmkd.Cstring.{Bytes}
use system_memory_lmkd.Killreport.{big_endian}
use system_memory_lmkd.Killreport.Layout.{words32, words64, text, length-big_endian}

-- The number that bytes stand for, behind the number `n`.
abbrev value : ℕ → Bytes → ℕ
value = foldl (λ n c. n * 256 + c)

-- A number of so many bytes, and the rest.
read_bytes : ℕ → ℕ → Bytes → Option (ℕ × Bytes)
read_bytes zero n cs = some (n, cs)
read_bytes (suc k) n [] = none
read_bytes (suc k) n (c ∷ cs) = read_bytes k (n * 256 + c) cs

infixl 5 ◌>>=◌
abbrev pub ◌>>=◌ {ℓ κ} : {A : Type ℓ} {B : Type κ} → Option A → (A → Option B) → Option B
none >>= f = none
some a >>= f = f a

pub read_int32 : Bytes → Option (ℤ × Bytes)
read_int32 cs = read_bytes 4 0 cs >>= λ r. some (of_word r.0, r.1)

read_int64 : Bytes → Option (ℤ × Bytes)
read_int64 cs = read_bytes 8 0 cs >>= λ r. some (of_word64 r.0, r.1)

pub read_int32s : ℕ → Bytes → Option (List ℤ × Bytes)
read_int32s zero cs = some ([], cs)
read_int32s (suc k) cs = read_int32 cs >>= λ r. read_int32s k r.1 >>= λ s. some (r.0 ∷ s.0, s.1)

pub read_int64s : ℕ → Bytes → Option (List ℤ × Bytes)
read_int64s zero cs = some ([], cs)
read_int64s (suc k) cs = read_int64 cs >>= λ r. read_int64s k r.1 >>= λ s. some (r.0 ∷ s.0, s.1)

-- `readUTF`, of a text of ASCII characters.
read_chars : ℕ → Bytes → Option (Bytes × Bytes)
read_chars zero cs = some ([], cs)
read_chars (suc k) [] = none
read_chars (suc k) (c ∷ cs) = read_chars k cs >>= λ r. some (c ∷ r.0, r.1)

pub read_utf : Bytes → Option (Bytes × Bytes)
read_utf cs = read_bytes 2 0 cs >>= λ r. read_chars r.0 r.1

value-snoc : (n : ℕ) (cs : Bytes) (c : ℕ) → value n (cs ++ c ∷ []) ≡ value n cs * 256 + c
value-snoc n [] c = refl
value-snoc n (d ∷ cs) c = value-snoc (n * 256 + d) cs c

next_lt : {w : ℕ} (k : ℕ) → w < 256 ^ suc k → w / 256 < 256 ^ k
next_lt k h = omega (arith, pow-succ' 256 k)

value-big_endian : (k w : ℕ) → w < 256 ^ k → value 0 (big_endian k w) ≡ w
value-big_endian zero w h = omega arith
value-big_endian (suc k) w h = omega (
  arith,
  value-snoc 0 (big_endian k (w / 256)) (w % 256),
  value-big_endian k (w / 256) (next_lt k h),
)

read-value :
    (cs rest : Bytes) (n : ℕ) → read_bytes (length cs) n (cs ++ rest) ≡ some (value n cs, rest)
unfolding read_bytes
read-value [] rest n = refl
read-value (c ∷ cs) rest n = read-value cs rest (n * 256 + c)

read-big_endian :
    (k w : ℕ) (rest : Bytes)
    → w < 256 ^ k
    → read_bytes k 0 (big_endian k w ++ rest) ≡ some (w, rest)
read-big_endian k w rest h =
    let r = read-value (big_endian k w) rest 0 in
    rw (length-big_endian k w, value-big_endian k w h) at r

pub read-int32 :
    (v : ℤ) (rest : Bytes)
    → IsInt32 v
    → read_int32 (big_endian 4 (to_word v) ++ rest) ≡ some (v, rest)
unfolding read_int32
read-int32 v rest h =
    ap (λ (o : Option (ℕ × Bytes)). o >>= λ r. some (of_word r.0, r.1))
      (read-big_endian 4 (to_word v) rest (to_word-lt v))
    ∙ ap (λ x. some (x, rest)) (of_word-to_word v h)

read-int64 :
    (v : ℤ) (rest : Bytes)
    → IsInt64 v
    → read_int64 (big_endian 8 (to_word64 v) ++ rest) ≡ some (v, rest)
unfolding read_int64
read-int64 v rest h =
    ap (λ (o : Option (ℕ × Bytes)). o >>= λ r. some (of_word64 r.0, r.1))
      (read-big_endian 8 (to_word64 v) rest (to_word64-lt v))
    ∙ ap (λ x. some (x, rest)) (of_word64-to_word64 v h)

pub read-words32 :
    (vs : List ℤ) (rest : Bytes)
    → All IsInt32 vs
    → read_int32s (length vs) (words32 vs ++ rest) ≡ some (vs, rest)
unfolding read_int32s words32
read-words32 [] rest h = refl
read-words32 (v ∷ vs) rest h = rw (
  append_assoc (big_endian 4 (to_word v)) (words32 vs) rest,
  read-int32 v (words32 vs ++ rest) h.0,
  read-words32 vs rest h.1,
)

pub read-words64 :
    (vs : List ℤ) (rest : Bytes)
    → All IsInt64 vs
    → read_int64s (length vs) (words64 vs ++ rest) ≡ some (vs, rest)
unfolding read_int64s words64
read-words64 [] rest h = refl
read-words64 (v ∷ vs) rest h = rw (
  append_assoc (big_endian 8 (to_word64 v)) (words64 vs) rest,
  read-int64 v (words64 vs ++ rest) h.0,
  read-words64 vs rest h.1,
)

read-chars :
    (n : ℕ) (cs rest : Bytes)
    → read_chars (min (length cs) n) (take n cs ++ rest) ≡ some (take n cs, rest)
unfolding read_chars
read-chars zero cs rest = let e : min (length cs) 0 ≡ 0 = omega arith in rw e
read-chars (suc n) [] rest = let e : min 0 (suc n) ≡ 0 = omega arith in rw e
read-chars (suc n) (c ∷ cs) rest =
    let e : min (suc (length cs)) (suc n) ≡ suc (min (length cs) n) = omega arith in
    rw (e, read-chars n cs rest)

pub read-text : (cs : Bytes) → read_utf (text cs) ≡ some (take 127 cs, 0 ∷ [])
unfolding read_utf text
read-text cs =
    ap (λ (o : Option (ℕ × Bytes)). o >>= λ r. read_chars r.0 r.1)
      (read-big_endian 2 (min (length cs) 127) (take 127 cs ++ 0 ∷ []) (omega arith))
    ∙ read-chars 127 cs (0 ∷ [])

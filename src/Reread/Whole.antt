-- ===== src/Reread/Whole.antt =====
-- The whole of a file is read into the buffer, however the system splits it into reads.
use native.Mathlib.Nat.{pow-succ', mul_assoc}
use system_memory_lmkd.Base.{
  ℕ, zero, suc, ◌+◌, ◌-◌, ◌*◌, ◌^◌, ◌≤◌, ◌<◌, ◌≡◌, refl, Bool, true, false, some, List, [], ◌∷◌,
  arith, ◌==◌, ltb, if◌then◌else◌, Bool-cases, inl, inr, length, update,
}
use system_memory_lmkd.Reread.{
  Pread, Memory, store, Size, bytes, add_read, read_from, read_all, Reader, Answers, Text, text,
  after_read, read_doubling, reread_file,
}

doubled :
    {n : ℕ} (fuel b : ℕ) → 2 ^ suc fuel ≡ 2 * 2 ^ fuel → n < b * 2 ^ suc fuel → n < b * 2 * 2 ^ fuel
doubled fuel b e h = rw (mul_assoc b 2 (2 ^ fuel), ← e) h

-- So many bytes of a file from an offset on.
abbrev pub slice : (ℕ → ℕ) → ℕ → ℕ → List ℕ
slice content offset zero = []
slice content offset (suc r) = content offset ∷ slice content (offset + 1) r

-- A file of `n` bytes: a read in front of its end gives some of its bytes, a read at the end none.
pub record IsFile (n : ℕ) (content : ℕ → ℕ) (pread : Pread) : Type 0 where
  pub inside :
      (offset max : ℕ)
      → 0 < max
      → offset < n
      → (r : ℕ) × (pread offset max ≡ some (slice content offset (suc r)))
        × (suc r ≤ max)
        × (offset + suc r ≤ n)
  pub at_end : (offset max : ℕ) → 0 < max → n ≤ offset → pread offset max ≡ some []

-- The first bytes of the memory are those of the file.
abbrev pub Holds : (ℕ → ℕ) → ℕ → Memory → Type 0
Holds content k mem = (i : ℕ) → i < k → mem i ≡ content i

-- The buffer, which has not shrunk, holds the file with a zero behind it, inside of its size.
pub record IsRead (n : ℕ) (content : ℕ → ℕ) (s : Reader) (r : Reader × Text) : Type 0 where
  pub result : r.1 ≡ text
  pub whole : Holds content n r.0.buf
  pub ended : r.0.buf n ≡ 0
  pub room : n + 1 < r.0.buf_size
  pub grown : s.buf_size ≤ r.0.buf_size

length-slice : (content : ℕ → ℕ) (offset r : ℕ) → length (slice content offset r) ≡ r
length-slice content offset zero = refl
length-slice content offset (suc r) = omega (arith, length-slice content (offset + 1) r)

store-Holds :
    (content : ℕ → ℕ) (mem : Memory) (offset r : ℕ)
    → Holds content offset mem
    → Holds content (offset + r) (store mem offset (slice content offset r))
unfolding store
store-Holds content mem offset zero h = λ i l. h i (omega (arith, l))
store-Holds content mem offset (suc r) h =
    let one : Holds content (offset + 1) (update mem offset (content offset)) = λ i l.
      elim (Bool-cases (i == offset)) [
        | inl e ↦ ground (arith, e)
        | inr e ↦ ground (arith, e, h i (ground (arith, e, l)))
      ] in
    let rest = store-Holds content (update mem offset (content offset)) (offset + 1) r one in
    λ i l. rest i (omega (arith, l))

-- What a read of the file leaves.
record Filled (content : ℕ → ℕ) (k : ℕ) (r : Size) : Type 0 where
  memory : Memory
  result : r ≡ bytes k memory
  holds : Holds content k memory

module _ (n : ℕ) (content : ℕ → ℕ) (pread : Pread) (file : IsFile n content pread) where
  -- As many bytes as fit, at their places.
  read_from-Filled :
      (fuel : ℕ) (mem : Memory) (offset max_len : ℕ)
      → max_len ≤ fuel
      → offset ≤ n
      → Holds content offset mem
      → Filled content
          (if ltb (offset + max_len) n then offset + max_len else n)
          (read_from fuel pread mem offset offset max_len offset)
  unfolding read_from add_read
  read_from-Filled zero mem offset max_len h k m =
      let size : (if ltb (offset + max_len) n then offset + max_len else n) ≡ offset =
        ground arith in
      rw size (record { memory = mem; result = ground arith; holds = m })
  read_from-Filled (suc fuel) mem offset max_len h k m = elim (Bool-cases (max_len == 0)) [
    | inl e ↦
        let size : (if ltb (offset + max_len) n then offset + max_len else n) ≡ offset =
          ground arith in
        rw (size, e) (record { memory = mem; result = refl; holds = m })
    | inr e ↦ elim (Bool-cases (ltb offset n)) [
      | inl l ↦
          let (r, p, small, fits) = file.inside offset max_len (ground arith) (ground arith) in
          let whole : offset + suc r + (max_len - suc r) ≡ offset + max_len = omega arith in
          let rest =
            read_from-Filled fuel (store mem offset (slice content offset (suc r))) (offset + suc r)
              (max_len - suc r) (omega arith) (omega arith)
              (store-Holds content mem offset (suc r) m) in
          rw (e, p, length-slice content (offset + 1) r) (rw whole at rest)
      | inr l ↦
          let size : (if ltb (offset + max_len) n then offset + max_len else n) ≡ offset =
            ground arith in
          rw (size, e, file.at_end offset max_len (ground arith) (ground arith))
            (record { memory = mem; result = refl; holds = m })
    ]
  ]

  read_all-Filled :
      (mem : Memory) (max_len : ℕ)
      → Filled content (if ltb max_len n then max_len else n) (read_all pread mem 0 max_len)
  unfolding read_all
  read_all-Filled mem max_len =
      let sum : 0 + max_len ≡ max_len = omega arith in
      rw sum at (
        read_from-Filled max_len mem 0 max_len (omega arith) (omega arith)
          (λ i l. absurd (omega (arith, l))))

  IsRead-if :
      (s : Reader) (b : Bool) {x y : Reader × Text}
      → IsRead n content s x
      → IsRead n content s y
      → IsRead n content s (if b then x else y)
  IsRead-if s true h k = h
  IsRead-if s false h k = k

  IsRead-then :
      (s : Reader) (b : Bool) {x : Reader × Text} (y : Reader × Text)
      → b ≡ true
      → IsRead n content s x
      → IsRead n content s (if b then x else y)
  IsRead-then s true y e h = h
  IsRead-then s false y e h = cc

  module _ (a : Answers) (works : (size : ℕ) → a.realloc_works size ≡ true) where
    -- A file that leaves room in the buffer.
    fitting-IsRead :
        (fuel : ℕ) (s : Reader)
        → n + 1 < s.buf_size
        → IsRead n content s (read_doubling (suc fuel) pread a s)
    unfolding read_doubling after_read
    fitting-IsRead fuel s h =
        let fits : ltb (s.buf_size - 1) n ≡ false = ground arith in
        let room : ltb n (s.buf_size - 1) ≡ true = ground arith in
        let filled = rw fits at (read_all-Filled s.buf (s.buf_size - 1)) in
        rw (filled.result, room)
          (record {
            result = refl;
            whole = λ i l. ground (arith, l, filled.holds i l);
            ended = ground arith;
            room = h;
            grown = omega arith;
          })

    doubling-whole :
        (fuel : ℕ) (s : Reader)
        → n + 1 < s.buf_size * 2 ^ fuel
        → IsRead n content s (read_doubling (suc fuel) pread a s)
    unfolding read_doubling after_read
    doubling-whole zero s h = fitting-IsRead zero s (omega (arith, h))
    doubling-whole (suc fuel) s h = elim (Bool-cases (ltb (n + 1) s.buf_size)) [
      | inl e ↦ fitting-IsRead (suc fuel) s (ground (arith, e))
      | inr e ↦
          let most = if ltb (s.buf_size - 1) n then s.buf_size - 1 else n in
          let full : ltb most (s.buf_size - 1) ≡ false = ground arith in
          let filled = read_all-Filled s.buf (s.buf_size - 1) in
          let t : Reader = record s { buf = filled.memory; buf_size = s.buf_size * 2 } in
          let r = doubling-whole fuel t (doubled fuel s.buf_size (pow-succ' 2 fuel) h) in
          rw (filled.result, full, works (s.buf_size * 2))
            (record {
              result = r.result;
              whole = r.whole;
              ended = r.ended;
              room = r.room;
              grown = omega (arith, r.grown);
            })
    ]

    -- When the system gives what is asked of it and the file stays as it is meanwhile, the buffer holds
    -- the whole file in the end, byte by byte, in however many parts it was read, with a zero behind
    -- it that is inside of the buffer's size; the buffer never shrinks. The number of doublings is
    -- bounded by the fuel once the buffer, doubled so often, exceeds the file by two bytes.
    pub reread_file-whole :
        (fuel : ℕ) (s : Reader)
        → a.malloc_works ≡ true
        → a.open_works ≡ true
        → n + 1 < s.buf_size * 2 ^ fuel
        → IsRead n content s (reread_file (suc fuel) pread a s)
    unfolding reread_file
    reread_file-whole fuel s m o h =
        let opened : Reader = record s { allocated = true; is_open = true } in
        let r = doubling-whole fuel opened h in
        let again : IsRead n content s (read_doubling (suc fuel) pread a opened) = record {
          result = r.result;
          whole = r.whole;
          ended = r.ended;
          room = r.room;
          grown = r.grown;
        } in
        IsRead-if s s.is_open (doubling-whole fuel s h) (
          IsRead-if s s.allocated (IsRead-then s a.open_works _ o again)
            (IsRead-then s a.malloc_works _ m (IsRead-then s a.open_works _ o again)))

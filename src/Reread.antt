-- ===== src/Reread.antt =====
-- Reading a file of /proc whole: `read_all` and `reread_file` of lmkd.cpp, with the buffer that all
-- callers share. The memory is a function of the index from the start of the buffer.
pub mod Whole
use system_memory_lmkd.Base.{
  ℕ, zero, suc, ◌+◌, ◌-◌, ◌*◌, Bool, true, false, Option, none, some, List, [], ◌∷◌, ◌==◌, ltb,
  length, update, if◌then◌else◌,
}

-- The bytes that `pread` gives at an offset, up to a number of them; `none` is -1.
abbrev pub Pread : Type 0
Pread = ℕ → ℕ → Option (List ℕ)

abbrev pub Memory : Type 0
Memory = ℕ → ℕ

-- What `pread` writes from a place on.
unfoldable pub store : Memory → ℕ → List ℕ → Memory
store mem buf [] = mem
store mem buf (c ∷ cs) = store (update mem buf c) (buf + 1) cs

-- The result and the memory; `failed` is -1.
pub data Size : Type 0 where
  failed : Memory → Size
  unfinished : Size
  bytes : ℕ → Memory → Size

-- `pread` with its result, which is the number of its bytes: 0 ends the loop. The arguments behind the
-- memory are `buf`, `offset`, `max_len` and `ret`.
unfoldable pub add_read :
    (Memory → ℕ → ℕ → ℕ → ℕ → Size) → Memory → ℕ → ℕ → ℕ → ℕ → Option (List ℕ) → Size
add_read again mem buf offset max_len ret none = failed mem
add_read again mem buf offset max_len ret (some []) = bytes ret mem
add_read again mem buf offset max_len ret (some (c ∷ cs)) =
    let r = length (c ∷ cs) in
    again (store mem buf (c ∷ cs)) (buf + r) (offset + r) (max_len - r) (ret + r)

unfoldable pub read_from : ℕ → Pread → Memory → ℕ → ℕ → ℕ → ℕ → Size
read_from zero pread mem buf offset max_len ret = if max_len == 0 then bytes ret mem else unfinished
read_from (suc fuel) pread mem buf offset max_len ret =
    let next = add_read (read_from fuel pread) mem buf offset max_len ret (pread offset max_len) in
    if max_len == 0 then bytes ret mem else next

-- Each round but the last reads a byte at least.
unfoldable pub read_all : Pread → Memory → ℕ → ℕ → Size
read_all pread mem buf max_len = read_from max_len pread mem buf 0 max_len 0

-- The static variables with what the buffer holds, and whether the file's descriptor is not -1.
pub record Reader : Type 0 where
  pub buf : Memory
  pub buf_size : ℕ
  pub allocated : Bool
  pub is_open : Bool

-- What the system answers: `malloc`, `open`, and `realloc` to a size.
pub record Answers : Type 0 where
  pub malloc_works : Bool
  pub open_works : Bool
  pub realloc_works : ℕ → Bool

-- `text` is the buffer, `no_text` a null pointer.
pub data Text : Type 0 where
  no_text out_of_fuel text : Text

unfoldable pub after_read : (Reader → Reader × Text) → Answers → Reader → Size → Reader × Text
after_read again a s (failed mem) = (record s { buf = mem; is_open = false }, no_text)
after_read again a s unfinished = (s, out_of_fuel)
after_read again a s (bytes size mem) =
    let grown = again (record s { buf = mem; buf_size = s.buf_size * 2 }) in
    if ltb size (s.buf_size - 1)
    then (record s { buf = update mem size 0 }, text)
    else if a.realloc_works (s.buf_size * 2)
    then grown
    else (record s { buf = mem }, no_text)

-- The loop that doubles the buffer until the file leaves room in it.
unfoldable pub read_doubling : ℕ → Pread → Answers → Reader → Reader × Text
read_doubling zero pread a s = (s, out_of_fuel)
read_doubling (suc fuel) pread a s =
    after_read (read_doubling fuel pread a) a s (read_all pread s.buf 0 (s.buf_size - 1))

unfoldable pub reread_file : ℕ → Pread → Answers → Reader → Reader × Text
reread_file fuel pread a s =
    let opened = record s { allocated = true; is_open = true } in
    if s.is_open
    then read_doubling fuel pread a s
    else if s.allocated
    then if a.open_works then read_doubling fuel pread a opened else (s, no_text)
    else if a.malloc_works
    then if a.open_works
      then read_doubling fuel pread a opened
      else (record s { allocated = true }, no_text)
    else (s, no_text)

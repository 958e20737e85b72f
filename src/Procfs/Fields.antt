-- ===== src/Procfs/Fields.antt =====
-- The parsers of /proc/meminfo and /proc/vmstat on files in the format of the kernel: lines of a name,
-- spaces, a decimal number and perhaps a unit.
use mathlib.Core.Option
use mathlib.Core.List.{append-nil}
use system_memory_lmkd.Base.{
  if◌then◌else◌, ℕ, zero, suc, ◌<◌, ◌≡◌, refl, ap, ◌∙◌, Bool, false, Option, none, some, List, [],
  ◌∷◌, ◌++◌, arith, All, length, length-append, map,
}
use system_memory_lmkd.Base.Int.{ℤ, pos, ◌/ℤ◌}
use system_memory_lmkd.Cstring.{same_text, Bytes, among, strtok, signed}
use system_memory_lmkd.Cstring.Numbers.{IsDigit, decimal_value, strtoll-decimal}
use system_memory_lmkd.Cstring.Tokens.{Lacks, strtok-append, strtok-last, strtok-skips, strtok-nil}
use system_memory_lmkd.Procfs.Names.{store_at, store_at-named}
use system_memory_lmkd.Procfs.{
  codes, find_from, find_field, match_field, parse_int64, found_match, two_words, store_match,
  parse_line, lines_of, parse_lines, parse_file, meminfo_of, vmstat_of, meminfo_parse, vmstat_parse,
  meminfo_parse_line, vmstat_parse_line, meminfo_field_names, vmstat_field_names,
}

-- The bytes of a line: the first of the name and the others, how many spaces follow beyond one, the
-- digits likewise, and what stands behind them.
pub record Entry : Type 0 where
  pub initial : ℕ
  pub letters : Bytes
  pub spaces : ℕ
  pub digit : ℕ
  pub digits : Bytes
  pub unit : Bytes

abbrev pub name : Entry → Bytes
name e = e.initial ∷ e.letters

abbrev pub amount : Entry → ℤ
amount e = signed false (decimal_value 0 (e.digit ∷ e.digits))

-- A unit is set off by a space.
abbrev pub IsUnit : Bytes → Type 0
IsUnit [] = Unit
IsUnit (c ∷ cs) = c ≡ 32

abbrev IsPlain : ℕ → Type 0
IsPlain c = (among (32 ∷ []) c ≡ false) × (among (10 ∷ []) c ≡ false)

pub record IsEntry (e : Entry) : Type 0 where
  pub name_plain : All IsPlain (e.initial ∷ e.letters)
  pub all_digits : All IsDigit (e.digit ∷ e.digits)
  pub set_off : IsUnit e.unit
  pub one_line : Lacks (among (10 ∷ [])) e.unit

abbrev pub padded : ℕ → Bytes → Bytes
padded zero cs = cs
padded (suc n) cs = 32 ∷ padded n cs

-- The line behind its first byte.
abbrev pub tail_of : Entry → Bytes
tail_of e = e.letters ++ 32 ∷ padded e.spaces (e.digit ∷ (e.digits ++ e.unit))

abbrev pub line : Entry → Bytes
line e = e.initial ∷ tail_of e

abbrev pub text : List Entry → Bytes
text [] = []
text (e ∷ es) = line e ++ 10 ∷ text es

abbrev pub stored : List Bytes → (ℤ → ℤ) → List Entry → (ℕ → ℤ) → ℕ → ℤ
stored names scale [] fields = fields
stored names scale (e ∷ es) fields =
    stored names scale es (store_at (find_field (name e) names) (scale (amount e)) fields)

plain-space : (cs : Bytes) → All IsPlain cs → Lacks (among (32 ∷ [])) cs
plain-space [] h = tt
plain-space (c ∷ cs) h = (h.0.0, plain-space cs h.1)

plain-newline : (cs : Bytes) → All IsPlain cs → Lacks (among (10 ∷ [])) cs
plain-newline [] h = tt
plain-newline (c ∷ cs) h = (h.0.1, plain-newline cs h.1)

digits-IsPlain : (ds : Bytes) → All IsDigit ds → All IsPlain ds
digits-IsPlain [] h = tt
digits-IsPlain (d ∷ ds) h =
    let wide : IsPlain d = (ground (arith, h.0), ground (arith, h.0)) in
    (wide, digits-IsPlain ds h.1)

Lacks-append :
    (test : ℕ → Bool) (cs ds : Bytes) → Lacks test cs → Lacks test ds → Lacks test (cs ++ ds)
Lacks-append test [] ds h k = k
Lacks-append test (c ∷ cs) ds h k = (h.0, Lacks-append test cs ds h.1 k)

Lacks-padded :
    (n : ℕ) (cs : Bytes) → Lacks (among (10 ∷ [])) cs → Lacks (among (10 ∷ [])) (padded n cs)
Lacks-padded zero cs h = h
Lacks-padded (suc n) cs h = (refl, Lacks-padded n cs h)

line-Lacks : (e : Entry) → IsEntry e → Lacks (among (10 ∷ [])) (line e)
line-Lacks e h =
    Lacks-append (among (10 ∷ [])) (e.initial ∷ e.letters)
      (32 ∷ padded e.spaces (e.digit ∷ (e.digits ++ e.unit)))
      (plain-newline (e.initial ∷ e.letters) h.name_plain)
      (
        refl,
        Lacks-padded e.spaces (e.digit ∷ (e.digits ++ e.unit)) (
            Lacks-append (among (10 ∷ [])) (e.digit ∷ e.digits) e.unit
              (plain-newline (e.digit ∷ e.digits)
                (digits-IsPlain (e.digit ∷ e.digits) h.all_digits))
              h.one_line),
      )

-- The tokens of a text are its lines.
lines-text :
    (fuel : ℕ) (es : List Entry)
    → length (text es) < fuel
    → All IsEntry es
    → lines_of fuel (text es) ≡ map line es
unfolding lines_of
lines-text zero es l h = absurd (omega arith)
lines-text (suc fuel) [] l h = rw (strtok-nil (10 ∷ []), lines_of)
lines-text (suc fuel) (e ∷ es) l h =
    let lacks = line-Lacks e h.0 in
    let left : length (text es) < fuel = omega (arith, length-append (line e) (10 ∷ text es)) in
    rw (strtok-append (10 ∷ []) e.initial (tail_of e) lacks 10 (text es) refl, lines_of)
      (ap (λ ls. line e ∷ ls) (lines-text fuel es left h.1))

strtok-padded : (n : ℕ) (cs : Bytes) → strtok (32 ∷ []) (padded n cs) ≡ strtok (32 ∷ []) cs
strtok-padded zero cs = refl
strtok-padded (suc n) cs = strtok-skips (32 ∷ []) 32 (padded n cs) refl ∙ strtok-padded n cs

-- The number ends in front of the unit.
abbrev behind_number : Bytes → Bytes
behind_number [] = []
behind_number (c ∷ cs) = cs

strtok-number :
    (d : ℕ) (ds unit : Bytes)
    → All IsDigit (d ∷ ds)
    → IsUnit unit
    → strtok (32 ∷ []) (d ∷ (ds ++ unit)) ≡ some (d ∷ ds, behind_number unit)
strtok-number d ds [] h u =
    rw (append-nil ds)
      (strtok-last (32 ∷ []) d ds (plain-space (d ∷ ds) (digits-IsPlain (d ∷ ds) h)))
strtok-number d ds (c ∷ cs) h u =
    rw u
      (strtok-append (32 ∷ []) d ds (plain-space (d ∷ ds) (digits-IsPlain (d ∷ ds) h)) 32 cs refl)

two_words-line : (e : Entry) → IsEntry e → two_words (line e) ≡ some (name e, e.digit ∷ e.digits)
unfolding two_words
two_words-line e h =
    let rest = padded e.spaces (e.digit ∷ (e.digits ++ e.unit)) in
    rw (
      strtok-append (32 ∷ []) e.initial e.letters (plain-space (name e) h.name_plain) 32 rest refl,
      strtok-padded e.spaces (e.digit ∷ (e.digits ++ e.unit)),
      strtok-number e.digit e.digits e.unit h.all_digits h.set_off,
      two_words,
    )

parse_int64-digits :
    (d : ℕ) (ds : Bytes)
    → All IsDigit (d ∷ ds)
    → parse_int64 (d ∷ ds) ≡ some (signed false (decimal_value 0 (d ∷ ds)))
unfolding parse_int64
parse_int64-digits d ds h = let r = strtoll-decimal d ds [] h tt in rw (append-nil ds) at r

module _ (names : List Bytes) (scale : ℤ → ℤ) where
  store_found :
      (o : Option ℕ) (v : ℤ) (fields : ℕ → ℤ)
      → store_match scale fields (found_match o (some v)) ≡ some (store_at o (scale v) fields)
  unfolding store_match found_match
  store_found none v fields = refl
  store_found (some i) v fields = refl

  parse-line :
      (e : Entry) (fields : ℕ → ℤ)
      → IsEntry e
      → parse_line names scale (line e) fields
        ≡ some (store_at (find_field (name e) names) (scale (amount e)) fields)
  unfolding parse_line match_field
  parse-line e fields h =
      rw (two_words-line e h, parse_line, parse_int64-digits e.digit e.digits h.all_digits)
        (store_found (find_field (name e) names) (amount e) fields)

  parse-lines :
      (es : List Entry) (fields : ℕ → ℤ)
      → All IsEntry es
      → parse_lines (parse_line names scale) (map line es) fields
        ≡ some (stored names scale es fields)
  unfolding parse_lines
  parse-lines [] fields h = refl
  parse-lines (e ∷ es) fields h =
      rw (parse-line e fields h.0, parse_lines)
        (parse-lines es (store_at (find_field (name e) names) (scale (amount e)) fields) h.1)

  parse-file :
      (es : List Entry)
      → All IsEntry es
      → parse_file (parse_line names scale) (some (text es))
        ≡ some (stored names scale es (λ i. pos 0))
  unfolding parse_file
  parse-file es h =
      rw (lines-text (suc (length (text es))) es (omega arith) h) (parse-lines es (λ i. pos 0) h)

-- The number of the last line of this name, scaled, and `v` when there is none.
abbrev pub latest : (ℤ → ℤ) → Bytes → List Entry → ℤ → ℤ
latest scale key [] v = v
latest scale key (e ∷ es) v =
    latest scale key es (if same_text (name e) key then scale (amount e) else v)

module _ (names : List Bytes) (scale : ℤ → ℤ) (key : Bytes) (i : ℕ)
    (place : find_field key names ≡ some i) where
  stored-latest :
      (es : List Entry) (fields : ℕ → ℤ)
      → stored names scale es fields i ≡ latest scale key es (fields i)
  stored-latest [] fields = refl
  stored-latest (e ∷ es) fields =
      stored-latest es (store_at (find_field (name e) names) (scale (amount e)) fields)
      ∙ ap (latest scale key es)
          (store_at-named names key i place (name e) (scale (amount e)) fields)

-- The pages that a file of meminfo says of a name.
abbrev pub pages_of : ℕ → List Entry → Bytes → ℤ
pages_of page_k es key = latest (λ v. v /ℤ pos page_k) key es (pos 0)

-- A file of meminfo in the kernel's format is parsed: each amount is the number of the last line of
-- its name, divided by the size of a page in kB, and 0 when there is none; lines of other names are
-- passed over.
pub meminfo_parse-text :
    (page_k : ℕ) (es : List Entry)
    → All IsEntry es
    → meminfo_parse page_k (some (text es))
      ≡ some (record {
        nr_free_pages = pages_of page_k es (codes "MemFree:");
        cached = pages_of page_k es (codes "Cached:");
        swap_cached = pages_of page_k es (codes "SwapCached:");
        buffers = pages_of page_k es (codes "Buffers:");
        shmem = pages_of page_k es (codes "Shmem:");
        unevictable = pages_of page_k es (codes "Unevictable:");
        total_swap = pages_of page_k es (codes "SwapTotal:");
        free_swap = pages_of page_k es (codes "SwapFree:");
        active_anon = pages_of page_k es (codes "Active(anon):");
        inactive_anon = pages_of page_k es (codes "Inactive(anon):");
        inactive_file = pages_of page_k es (codes "Inactive(file):");
        cma_free = pages_of page_k es (codes "CmaFree:");
      })
unfolding meminfo_parse meminfo_parse_line meminfo_of meminfo_field_names find_field find_from
    same_text
meminfo_parse-text page_k es h =
    let scale : ℤ → ℤ = λ v. v /ℤ pos page_k in
    let at : (key : Bytes) (i : ℕ)
        → find_field key meminfo_field_names ≡ some i
        → stored meminfo_field_names scale es (λ i. pos 0) i ≡ pages_of page_k es key =
      λ key i place. stored-latest meminfo_field_names scale key i place es (λ i. pos 0) in
    ap (Option.map meminfo_of) (parse-file meminfo_field_names scale es h) ∙ (λ t. some (record {
      nr_free_pages = at (codes "MemFree:") 0 refl t;
      cached = at (codes "Cached:") 1 refl t;
      swap_cached = at (codes "SwapCached:") 2 refl t;
      buffers = at (codes "Buffers:") 3 refl t;
      shmem = at (codes "Shmem:") 4 refl t;
      unevictable = at (codes "Unevictable:") 5 refl t;
      total_swap = at (codes "SwapTotal:") 6 refl t;
      free_swap = at (codes "SwapFree:") 7 refl t;
      active_anon = at (codes "Active(anon):") 8 refl t;
      inactive_anon = at (codes "Inactive(anon):") 9 refl t;
      inactive_file = at (codes "Inactive(file):") 11 refl t;
      cma_free = at (codes "CmaFree:") 18 refl t;
    }))

-- A file of vmstat in the kernel's format is parsed: each line whose name is a field's stores its
-- number to that field, and the others are passed over.
pub vmstat_parse-text :
    (es : List Entry)
    → All IsEntry es
    → vmstat_parse (some (text es))
      ≡ some (vmstat_of (stored vmstat_field_names (λ v. v) es (λ i. pos 0)))
unfolding vmstat_parse vmstat_parse_line
vmstat_parse-text es h = ap (Option.map vmstat_of) (parse-file vmstat_field_names (λ v. v) es h)

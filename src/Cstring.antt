-- ===== src/Cstring.antt =====
-- The C library's functions on strings, as the daemon uses them. A string is the list of its bytes in
-- front of the terminating zero.
pub mod Numbers
pub mod Scans
pub mod Tokens
use system_memory_lmkd.Base.{
  ℕ, zero, suc, ◌+◌, ◌-◌, ◌*◌, ◌^◌, ◌≡◌, refl, Bool, true, false, ◌&&◌, ◌||◌, Option, none, some,
  List, [], ◌∷◌, arith, ltb, leb, ◌==◌, ==_iff, if◌then◌else◌,
}
use system_memory_lmkd.Base.Int.{ℤ, pos, negsuc}

abbrev pub Bytes : Type 0
Bytes = List ℕ

-- `strcmp(a, b) == 0`
unfoldable pub same_text : Bytes → Bytes → Bool
same_text [] [] = true
same_text [] (d ∷ ds) = false
same_text (c ∷ cs) [] = false
same_text (c ∷ cs) (d ∷ ds) = c == d && same_text cs ds

pub same_text-eq : (a b : Bytes) → same_text a b ≡ true → a ≡ b
unfolding same_text
same_text-eq [] [] h = refl
same_text-eq [] (d ∷ ds) h = ground arith
same_text-eq (c ∷ cs) [] h = ground arith
same_text-eq (c ∷ cs) (d ∷ ds) h = ground (arith, same_text-eq cs ds, ==_iff c d)

-- Without the first bytes that pass the test.
unfoldable pub skip : (ℕ → Bool) → Bytes → Bytes
skip test [] = []
skip test (c ∷ cs) = if test c then skip test cs else c ∷ cs

-- The bytes in front of the first that passes the test.
unfoldable pub until : (ℕ → Bool) → Bytes → Bytes
until test [] = []
until test (c ∷ cs) = if test c then [] else c ∷ until test cs

-- The bytes behind that one.
unfoldable pub behind : (ℕ → Bool) → Bytes → Bytes
behind test [] = []
behind test (c ∷ cs) = if test c then cs else behind test cs

abbrev pub among : Bytes → ℕ → Bool
among [] c = false
among (d ∷ ds) c = c == d || among ds c

-- The next token, and what the saved pointer points at. A null pointer is `none`.
token_of : Bytes → Bytes → Option (Bytes × Bytes)
token_of delimiters [] = none
token_of delimiters (c ∷ cs) =
    some (until (among delimiters) (c ∷ cs), behind (among delimiters) (c ∷ cs))

unfoldable pub strtok : Bytes → Bytes → Option (Bytes × Bytes)
unfolding token_of
strtok delimiters cs = token_of delimiters (skip (among delimiters) cs)

-- `isspace`
abbrev pub is_space : ℕ → Bool
is_space c = c == 32 || (leb 9 c && leb c 13)

-- The value of a digit; 36 stands for what is none.
abbrev pub digit_of : ℕ → ℕ
digit_of c =
    if leb 48 c && leb c 57
    then c - 48
    else if leb 97 c && leb c 122
    then c - 87
    else if leb 65 c && leb c 90
    then c - 55
    else 36

-- The number that the digits in front spell behind `n`.
unfoldable pub digits_value : ℕ → ℕ → Bytes → ℕ
digits_value base n [] = n
digits_value base n (c ∷ cs) =
    if ltb (digit_of c) base then digits_value base (n * base + digit_of c) cs else n

starts_with_digit : ℕ → Bytes → Bool
starts_with_digit base [] = false
starts_with_digit base (c ∷ cs) = ltb (digit_of c) base

-- A `long long` stops at its limits.
abbrev pub int64_max : ℕ
int64_max = 2 ^ 63 - 1

abbrev pub signed : Bool → ℕ → ℤ
signed true n =
    if ltb int64_max n then negsuc int64_max else if n == 0 then pos 0 else negsuc (n - 1)
signed false n = if ltb int64_max n then pos int64_max else pos n

-- With base 0 a prefix gives the base.
is_hex : Bytes → Bool
is_hex (z ∷ x ∷ c ∷ cs) = z == 48 && (x == 120 || x == 88) && ltb (digit_of c) 16
is_hex other = false

number : ℕ → Bool → Bytes → Option ℤ
number base negative cs =
    if starts_with_digit base cs then some (signed negative (digits_value base 0 cs)) else none

based : ℕ → Bool → Bytes → Option ℤ
unfolding is_hex number
based base negative [] = none
based base negative (c ∷ cs) =
    if base == 0
    then if is_hex (c ∷ cs)
      then number 16 negative (skip (λ d. d == 120 || d == 88) cs)
      else if c == 48
      then number 8 negative (c ∷ cs)
      else number 10 negative (c ∷ cs)
    else number base negative (c ∷ cs)

with_sign : ℕ → Bytes → Option ℤ
unfolding based
with_sign base [] = none
with_sign base (c ∷ cs) =
    if c == 45
    then based base true cs
    else if c == 43
    then based base false cs
    else based base false (c ∷ cs)

-- `strtoll`; `none` means that no number is found, so that the end pointer stays at the start.
unfoldable pub strtoll : ℕ → Bytes → Option ℤ
unfolding with_sign starts_with_digit
strtoll base cs = with_sign base (skip is_space cs)

unsigned : Bytes → Bytes
unsigned [] = []
unsigned (c ∷ cs) = if c == 45 || c == 43 then cs else c ∷ cs

-- "%d" of `sscanf`, which skips spaces: the number, and what follows it.
unfoldable pub scan_int : Bytes → Option (ℤ × Bytes)
unfolding unsigned
scan_int cs = elim (strtoll 10 cs) [
  | none ↦ none
  | some v ↦ some (v, skip (λ c. ltb (digit_of c) 10) (unsigned (skip is_space cs)))
]

word_of : Bytes → Option (Bytes × Bytes)
word_of [] = none
word_of (c ∷ cs) =
    some (until is_space (c ∷ cs), skip (λ d. if is_space d then false else true) (c ∷ cs))

-- "%s": the word behind spaces, and what follows it.
unfoldable pub scan_word : Bytes → Option (Bytes × Bytes)
unfolding word_of
scan_word cs = word_of (skip is_space cs)

-- `strcmp(a, b) < 0`
unfoldable pub text_lt : Bytes → Bytes → Bool
text_lt [] [] = false
text_lt [] (d ∷ ds) = true
text_lt (c ∷ cs) [] = false
text_lt (c ∷ cs) (d ∷ ds) = if c == d then text_lt cs ds else ltb c d

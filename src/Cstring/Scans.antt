-- ===== src/Cstring/Scans.antt =====
-- The conversions of `sscanf` on a text whose parts are set off by spaces.
use system_memory_lmkd.Base.{
  ℕ, ◌≤◌, ◌≡◌, refl, ap, true, false, none, some, [], ◌∷◌, ◌++◌, arith, ltb, ◌==◌, if◌then◌else◌,
  All,
}
use system_memory_lmkd.Cstring.{
  Bytes, skip, until, is_space, digit_of, strtoll, with_sign, based, number, starts_with_digit,
  signed, unsigned, scan_int, scan_word, word_of,
}
use system_memory_lmkd.Cstring.Numbers.{IsDigit, decimal_value, strtoll-decimal}

-- No byte is a space.
abbrev pub IsWord : Bytes → Type 0
IsWord cs = All (λ c. is_space c ≡ false) cs

skip-digits :
    (ds rest : Bytes)
    → All IsDigit ds
    → skip (λ c. ltb (digit_of c) 10) (ds ++ 32 ∷ rest) ≡ 32 ∷ rest
unfolding skip
skip-digits [] rest h = refl
skip-digits (d ∷ ds) rest h =
    let e : ltb (digit_of d) 10 ≡ true = ground (arith, h.0) in rw e (skip-digits ds rest h.1)

pub scan_int-decimal :
    (d : ℕ) (ds rest : Bytes)
    → All IsDigit (d ∷ ds)
    → scan_int (d ∷ (ds ++ 32 ∷ rest)) ≡ some (signed false (decimal_value 0 (d ∷ ds)), 32 ∷ rest)
unfolding scan_int unsigned skip
scan_int-decimal d ds rest h =
    let solid : is_space d ≡ false = ground (arith, h.0) in
    let unsigned_digit : (d == 45) ≡ false = ground (arith, h.0) in
    let unsigned_digit' : (d == 43) ≡ false = ground (arith, h.0) in
    rw
      (
        strtoll-decimal d ds (32 ∷ rest) h refl,
        scan_int,
        solid,
        skip,
        unsigned_digit,
        unsigned_digit',
      )
      (ap (λ r. some (signed false (decimal_value 0 (d ∷ ds)), r)) (skip-digits (d ∷ ds) rest h))

until-word : (cs rest : Bytes) → IsWord cs → until is_space (cs ++ 32 ∷ rest) ≡ cs
unfolding until
until-word [] rest h = refl
until-word (c ∷ cs) rest h = rw h.0 (ap (λ t. c ∷ t) (until-word cs rest h.1))

skip-word :
    (cs rest : Bytes)
    → IsWord cs
    → skip (λ d. if is_space d then false else true) (cs ++ 32 ∷ rest) ≡ 32 ∷ rest
unfolding skip
skip-word [] rest h = refl
skip-word (c ∷ cs) rest h = rw h.0 (skip-word cs rest h.1)

pub scan_word-word :
    (c : ℕ) (cs rest : Bytes)
    → IsWord (c ∷ cs)
    → scan_word (32 ∷ c ∷ (cs ++ 32 ∷ rest)) ≡ some (c ∷ cs, 32 ∷ rest)
unfolding scan_word word_of skip
scan_word-word c cs rest h = rw (h.0, skip, until-word (c ∷ cs) rest h, skip-word (c ∷ cs) rest h)

strtoll-letter : (c : ℕ) (rest : Bytes) → 65 ≤ c → strtoll 10 (32 ∷ c ∷ rest) ≡ none
unfolding strtoll skip with_sign based number starts_with_digit
strtoll-letter c rest h =
    let solid : is_space c ≡ false = ground arith in
    let minus : (c == 45) ≡ false = ground arith in
    let plus : (c == 43) ≡ false = ground arith in
    let letter : ltb (digit_of c) 10 ≡ false = ground arith in rw (solid, skip, minus, plus, letter)

-- A letter is no number.
pub scan_int-letter : (c : ℕ) (rest : Bytes) → 65 ≤ c → scan_int (32 ∷ c ∷ rest) ≡ none
unfolding scan_int
scan_int-letter c rest h = rw (strtoll-letter c rest h, scan_int)

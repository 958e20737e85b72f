-- ===== src/Cstring/Numbers.antt =====
-- `strtoll` on decimal digits.
use mathlib.Core.List.{foldl}
use system_memory_lmkd.Base.{
  ℕ, ◌+◌, ◌-◌, ◌*◌, ◌≤◌, ◌≡◌, refl, true, false, some, [], ◌∷◌, ◌++◌, arith, ltb, ◌==◌, All,
}
use system_memory_lmkd.Cstring.{
  Bytes, skip, digits_value, digit_of, is_space, starts_with_digit, signed, number, based,
  with_sign, strtoll,
}

abbrev pub IsDigit : ℕ → Type 0
IsDigit c = (48 ≤ c) × (c ≤ 57)

-- The number that digits spell behind `n`.
abbrev pub decimal_value : ℕ → Bytes → ℕ
decimal_value = foldl (λ n c. n * 10 + (c - 48))

-- What follows the digits is none.
abbrev pub EndsDigits : Bytes → Type 0
EndsDigits [] = Unit
EndsDigits (c ∷ cs) = ltb (digit_of c) 10 ≡ false

digit_of-lem : (c : ℕ) → IsDigit c → digit_of c ≡ c - 48
digit_of-lem c h = ground arith

digits_value-decimal :
    (ds rest : Bytes) (n : ℕ)
    → All IsDigit ds
    → EndsDigits rest
    → digits_value 10 n (ds ++ rest) ≡ decimal_value n ds
unfolding digits_value
digits_value-decimal [] [] n h e = refl
digits_value-decimal [] (c ∷ cs) n h e = rw e refl
digits_value-decimal (d ∷ ds) rest n h e =
    let small : ltb (d - 48) 10 ≡ true = ground (arith, h.0) in
    rw (digit_of-lem d h.0, small) (digits_value-decimal ds rest (n * 10 + (d - 48)) h.1 e)

-- Digits with anything else behind them are read as their number.
pub strtoll-decimal :
    (d : ℕ) (ds rest : Bytes)
    → All IsDigit (d ∷ ds)
    → EndsDigits rest
    → strtoll 10 (d ∷ (ds ++ rest)) ≡ some (signed false (decimal_value 0 (d ∷ ds)))
unfolding strtoll skip with_sign based number starts_with_digit
strtoll-decimal d ds rest h e =
    let solid : is_space d ≡ false = ground (arith, h.0) in
    let unsigned : (d == 45) ≡ false = ground (arith, h.0) in
    let unsigned' : (d == 43) ≡ false = ground (arith, h.0) in
    let small : ltb (digit_of d) 10 ≡ true = ground (arith, h.0) in
    rw (solid, skip, unsigned, unsigned', small, digits_value-decimal (d ∷ ds) rest 0 h e)

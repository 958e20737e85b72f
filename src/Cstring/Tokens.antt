-- ===== src/Cstring/Tokens.antt =====
-- `strtok_r` on a text that is put together from tokens.
use system_memory_lmkd.Base.{ℕ, ◌≡◌, refl, ap, Bool, true, false, none, some, [], ◌∷◌, ◌++◌, All}
use system_memory_lmkd.Cstring.{Bytes, skip, until, behind, among, token_of, strtok}

-- None of the bytes passes the test.
abbrev pub Lacks : (ℕ → Bool) → Bytes → Type 0
Lacks test cs = All (λ c. test c ≡ false) cs

until-Lacks : (test : ℕ → Bool) (cs : Bytes) → Lacks test cs → until test cs ≡ cs
unfolding until
until-Lacks test [] h = refl
until-Lacks test (c ∷ cs) h = rw h.0 (ap (λ t. c ∷ t) (until-Lacks test cs h.1))

behind-Lacks : (test : ℕ → Bool) (cs : Bytes) → Lacks test cs → behind test cs ≡ []
unfolding behind
behind-Lacks test [] h = refl
behind-Lacks test (c ∷ cs) h = rw h.0 (behind-Lacks test cs h.1)

until-append :
    (test : ℕ → Bool) (cs : Bytes) (d : ℕ) (rest : Bytes)
    → Lacks test cs
    → test d ≡ true
    → until test (cs ++ d ∷ rest) ≡ cs
unfolding until
until-append test [] d rest h e = rw e
until-append test (c ∷ cs) d rest h e = rw h.0 (ap (λ t. c ∷ t) (until-append test cs d rest h.1 e))

behind-append :
    (test : ℕ → Bool) (cs : Bytes) (d : ℕ) (rest : Bytes)
    → Lacks test cs
    → test d ≡ true
    → behind test (cs ++ d ∷ rest) ≡ rest
unfolding behind
behind-append test [] d rest h e = rw e
behind-append test (c ∷ cs) d rest h e = rw h.0 (behind-append test cs d rest h.1 e)

-- A token with a delimiter behind it, and a token at the end.
module _ (delimiters : Bytes) (c : ℕ) (cs : Bytes) (h : Lacks (among delimiters) (c ∷ cs)) where
  pub strtok-append :
      (d : ℕ) (rest : Bytes)
      → among delimiters d ≡ true
      → strtok delimiters ((c ∷ cs) ++ d ∷ rest) ≡ some (c ∷ cs, rest)
  unfolding strtok token_of skip
  strtok-append d rest e = rw (
    h.0,
    skip,
    until-append (among delimiters) (c ∷ cs) d rest h e,
    behind-append (among delimiters) (c ∷ cs) d rest h e,
  )

  pub strtok-last : strtok delimiters (c ∷ cs) ≡ some (c ∷ cs, [])
  unfolding strtok token_of skip
  strtok-last = rw (
    h.0,
    skip,
    until-Lacks (among delimiters) (c ∷ cs) h,
    behind-Lacks (among delimiters) (c ∷ cs) h,
  )

-- Delimiters in front are skipped.
pub strtok-skips :
    (delimiters : Bytes) (d : ℕ) (cs : Bytes)
    → among delimiters d ≡ true
    → strtok delimiters (d ∷ cs) ≡ strtok delimiters cs
unfolding strtok skip
strtok-skips delimiters d cs e = rw e

pub strtok-nil : (delimiters : Bytes) → strtok delimiters [] ≡ none
unfolding strtok token_of skip
strtok-nil delimiters = refl

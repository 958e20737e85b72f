-- ===== src/Procfs/Status.antt =====
-- The search for a tag of /proc/<pid>/status: its loop against a walk over the lines.
use system_memory_lmkd.Base.{
  inl, inr, Bool-cases, ℕ, zero, suc, ◌<◌, ◌≡◌, refl, sym, ap, ◌∙◌, Bool, true, false, ◌&&◌, Option,
  none, some, [], ◌∷◌, arith, ◌==◌, if◌then◌else◌, length,
}
use system_memory_lmkd.Base.Int.{ℤ}
use system_memory_lmkd.Cstring.{Bytes, skip, is_space, strtoll}
use system_memory_lmkd.Procfs.{
  begins, parse_int64, drop, strstr, next_place, resume, find_tag, tag_value, parse_status_tag,
}

-- From the first line on that begins with the tag; `front` says whether the text is at a line's front.
unfoldable pub tagged : Bytes → Bool → Bytes → Option Bytes
tagged tag front [] = none
tagged tag front (c ∷ cs) =
    if front && begins tag (c ∷ cs) then some (c ∷ cs) else tagged tag (c == 10) cs

-- What an occurrence says of the line looked for, in a text of `n` bytes.
abbrev Tells : Bytes → ℕ → Option Bytes → Option (Bool × Bytes) → Type 0
Tells tag n line none = line ≡ none
Tells tag n line (some (true, found)) = line ≡ some found
Tells tag n line (some (false, found)) =
    (line ≡ tagged tag (next_place found).0 (next_place found).1)
    × (length (next_place found).1 < n)

Tells-suc :
    (tag : Bytes) (n : ℕ) (line : Option Bytes) (o : Option (Bool × Bytes))
    → Tells tag n line o
    → Tells tag (suc n) line o
Tells-suc tag n line none h = h
Tells-suc tag n line (some (true, found)) h = h
Tells-suc tag n line (some (false, found)) h = (h.0, omega arith)

step-Tells :
    (tag : Bytes) (front b : Bool) (c : ℕ) (cs : Bytes)
    → Tells tag (length cs) (tagged tag (c == 10) cs) (strstr tag (c == 10) cs)
    → Tells tag
        (suc (length cs))
        (if front && b then some (c ∷ cs) else tagged tag (c == 10) cs)
        (if b then some (front, c ∷ cs) else strstr tag (c == 10) cs)
unfolding next_place
step-Tells tag true true c cs h = refl
step-Tells tag false true c cs h = (refl, omega arith)
step-Tells tag true false c cs h = Tells-suc tag _ _ _ h
step-Tells tag false false c cs h = Tells-suc tag _ _ _ h

begins-nil : (t : ℕ) (ts : Bytes) → begins (t ∷ ts) [] ≡ false
unfolding begins
begins-nil t ts = refl

strstr-Tells :
    (t : ℕ) (ts : Bytes) (front : Bool) (cs : Bytes)
    → Tells (t ∷ ts) (length cs) (tagged (t ∷ ts) front cs) (strstr (t ∷ ts) front cs)
unfolding tagged strstr
strstr-Tells t ts front [] = rw (begins-nil t ts) refl
strstr-Tells t ts front (c ∷ cs) =
    step-Tells (t ∷ ts) front (begins (t ∷ ts) (c ∷ cs)) c cs (strstr-Tells t ts (c == 10) cs)

resume-tagged :
    (tag : Bytes) (n : ℕ) (line : Option Bytes) (again : Bool → Bytes → Option Bytes)
    (o : Option (Bool × Bytes))
    → Tells tag n line o
    → ((front : Bool) (cs : Bytes) → length cs < n → again front cs ≡ tagged tag front cs)
    → resume again o ≡ line
unfolding resume
resume-tagged tag n line again none h ih = sym h
resume-tagged tag n line again (some (true, found)) h ih = sym h
resume-tagged tag n line again (some (false, found)) h ih =
    ih (next_place found).0 (next_place found).1 h.1 ∙ sym h.0

-- The loop finds the line; each round goes on behind the last occurrence.
find_tag-tagged :
    (fuel t : ℕ) (ts : Bytes) (front : Bool) (cs : Bytes)
    → length cs < fuel
    → find_tag fuel (t ∷ ts) front cs ≡ tagged (t ∷ ts) front cs
unfolding find_tag
find_tag-tagged zero t ts front cs h = absurd (omega arith)
find_tag-tagged (suc fuel) t ts front cs h =
    resume-tagged (t ∷ ts) (length cs) (tagged (t ∷ ts) front cs) (find_tag fuel (t ∷ ts))
      (strstr (t ∷ ts) front cs) (strstr-Tells t ts front cs)
      (λ f ds lt. find_tag-tagged fuel t ts f ds (omega arith))

-- What stands behind a tag at the front of a text.
unfoldable pub without : Bytes → Bytes → Option Bytes
without [] cs = some cs
without (t ∷ ts) [] = none
without (t ∷ ts) (c ∷ cs) = let rest = without ts cs in if t == c then rest else none

or_else : Option Bytes → Option Bytes → Option Bytes
or_else none later = later
or_else (some found) later = some found

-- What stands behind the tag on the first line that begins with it; `front` says whether the text is
-- at a line's front.
unfoldable pub behind_tag : Bytes → Bool → Bytes → Option Bytes
unfolding or_else
behind_tag tag front [] = none
behind_tag tag front (c ∷ cs) =
    let later = behind_tag tag (c == 10) cs in
    if front then or_else (without tag (c ∷ cs)) later else later

-- The number that `strtoll` finds there.
abbrev pub number : Option Bytes → Option ℤ
number none = none
number (some rest) = strtoll 10 rest

without-begins :
    (tag cs : Bytes) → begins tag cs ≡ true → without tag cs ≡ some (drop (length tag) cs)
unfolding without begins drop
without-begins [] cs h = refl
without-begins (t ∷ ts) [] h = ground (arith, h)
without-begins (t ∷ ts) (c ∷ cs) h = ground (arith, h, without-begins ts cs)

without-none : (tag cs : Bytes) → begins tag cs ≡ false → without tag cs ≡ none
unfolding without begins
without-none [] cs h = ground (arith, h)
without-none (t ∷ ts) [] h = refl
without-none (t ∷ ts) (c ∷ cs) h = ground (arith, h, without-none ts cs)

skip-blanks : (cs : Bytes) → skip is_space (skip (λ c. c == 32) cs) ≡ skip is_space cs
unfolding skip
skip-blanks [] = refl
skip-blanks (c ∷ cs) = ground (arith, skip-blanks cs)

number-blanks : (cs : Bytes) → parse_int64 (skip (λ c. c == 32) cs) ≡ strtoll 10 cs
unfolding parse_int64 strtoll
number-blanks cs = rw (skip-blanks cs) refl

value-behind :
    (tag : Bytes) (front : Bool) (cs : Bytes)
    → tag_value tag (tagged tag front cs) ≡ number (behind_tag tag front cs)
unfolding tag_value tagged behind_tag or_else
value-behind tag front [] = refl
value-behind tag false (c ∷ cs) = value-behind tag (c == 10) cs
value-behind tag true (c ∷ cs) = elim (Bool-cases (begins tag (c ∷ cs))) [
  | inl e ↦ rw (e, without-begins tag (c ∷ cs) e) (number-blanks (drop (length tag) (c ∷ cs)))
  | inr e ↦ rw (e, without-none tag (c ∷ cs) e) (value-behind tag (c == 10) cs)
]

-- The loop over the occurrences of a tag ends, and its result is the number that `strtoll` finds
-- behind the tag on the first line of the buffer that begins with the tag; occurrences inside of
-- lines are passed over. Without such a line, or without a number there, it fails.
pub parse_status_tag-tagged :
    (buf : Bytes) (t : ℕ) (ts : Bytes)
    → parse_status_tag buf (t ∷ ts) ≡ number (behind_tag (t ∷ ts) true buf)
unfolding parse_status_tag
parse_status_tag-tagged buf t ts =
    ap (tag_value (t ∷ ts)) (find_tag-tagged (suc (length buf)) t ts true buf (omega arith))
    ∙ value-behind (t ∷ ts) true buf

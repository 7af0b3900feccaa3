-- ===== src/Session/Numbers.antt =====
-- src/session.rs, `parse_forth_int`, with `from_str_radix` of i64 as it is documented: a sign, then at
-- least one digit, and an error on overflow. A token is the list of its characters.
pub mod RoundTrip
use mf.Prelude.{
  ℕ, zero, suc, ◌+◌, ◌-◌, ◌*◌, ◌==◌, ltb, leb, ◌&&◌, ◌||◌, Bool, true, false, List, [], ◌∷◌, Option,
  none, some, if◌then◌else◌, min, max,
}
use mf.Prelude.Int.{ℤ, pos, negsuc}

-- `char::to_digit`, without a radix.
unfoldable pub to_digit : ℕ → Option ℕ
to_digit c =
    if leb 48 c && leb c 57
    then some (c - 48)
    else if leb 97 c && leb c 122
    then some (c - 97 + 10)
    else if leb 65 c && leb c 90
    then some (c - 65 + 10)
    else none

-- One digit more behind a magnitude, at most `limit`.
unfoldable pub next_digit : ℕ → ℕ → ℕ → ℕ → Option ℕ
unfolding to_digit
next_digit radix limit acc c = elim (to_digit c) [
  | none ↦ none
  | some d ↦ if ltb d radix && leb (acc * radix + d) limit then some (acc * radix + d) else none
]

unfoldable pub from_digits : ℕ → ℕ → ℕ → List ℕ → Option ℕ
from_digits radix limit acc [] = some acc
from_digits radix limit acc (c ∷ digits) = elim (next_digit radix limit acc c) [
  | none ↦ none
  | some next ↦ from_digits radix limit next digits
]

-- 2 ^ 63
abbrev pub i64_half : ℕ
i64_half = 9223372036854775808

abbrev pub negated : ℕ → ℤ
negated zero = pos zero
negated (suc n) = negsuc n

abbrev pub is_nil : List ℕ → Bool
is_nil [] = true
is_nil (c ∷ cs) = false

abbrev pub map_some : (ℕ → ℤ) → Option ℕ → Option ℤ
map_some f none = none
map_some f (some n) = some (f n)

-- A sign alone is an error.
unfoldable pub from_str_radix : List ℕ → ℕ → Option ℤ
unfolding from_digits
from_str_radix [] radix = none
from_str_radix (c ∷ cs) radix =
    if c == 45 && is_nil cs || c == 43 && is_nil cs
    then none
    else if c == 45
    then map_some negated (from_digits radix i64_half 0 cs)
    else if c == 43
    then map_some pos (from_digits radix (i64_half - 1) 0 cs)
    else map_some pos (from_digits radix (i64_half - 1) 0 (c ∷ cs))

-- The least i64 is its own negation.
abbrev pub wrapping_neg : ℤ → ℤ
wrapping_neg (pos n) = negated n
wrapping_neg (negsuc n) = if suc n == i64_half then negsuc n else pos (suc n)

-- The radix that a prefix names, and the characters behind it.
unfoldable pub radix_of : ℕ → List ℕ → ℕ × List ℕ
radix_of base [] = (min (max base 2) 36, [])
radix_of base (c ∷ []) =
    if c == 36 then (16, []) else if c == 37 then (2, []) else (min (max base 2) 36, c ∷ [])
radix_of base (c ∷ d ∷ cs) =
    if c == 48 && (d == 120 || d == 88)
    then (16, cs)
    else if c == 36
    then (16, d ∷ cs)
    else if c == 48 && (d == 98 || d == 66)
    then (2, cs)
    else if c == 37
    then (2, d ∷ cs)
    else if c == 48 && d == 111
    then (8, cs)
    else (min (max base 2) 36, c ∷ d ∷ cs)

abbrev pub strip_minus : List ℕ → Bool × List ℕ
strip_minus [] = (false, [])
strip_minus (c ∷ cs) = if c == 45 then (true, cs) else (false, c ∷ cs)

abbrev pub map_int : (ℤ → ℤ) → Option ℤ → Option ℤ
map_int f none = none
map_int f (some z) = some (f z)

unfoldable pub parse_forth_int : List ℕ → ℕ → Option ℤ
unfolding from_str_radix radix_of
parse_forth_int tok base =
    let (neg, rest) = strip_minus tok in
    let (radix, digits) = radix_of base rest in
    if is_nil digits
    then none
    else (let mag = from_str_radix digits radix in if neg then map_int wrapping_neg mag else mag)

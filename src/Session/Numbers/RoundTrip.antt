-- ===== src/Session/Numbers/RoundTrip.antt =====
-- Numbers written in a base are read back by `parse_forth_int` of src/session.rs.
use native.Mathlib.Nat.{mod-lt, div-lt_self, div-add-mod'}
use mathlib.Core.Option.{some-injective}
use mf.Prelude.{
  ℕ, zero, suc, ◌+◌, ◌-◌, ◌*◌, ◌/◌, ◌%◌, ◌<◌, ◌≤◌, ◌≡◌, refl, ap, ◌∙◌, arith, ◌==◌, ltb, leb, true,
  false, List, [], ◌∷◌, ◌++◌, Option, none, some, if◌then◌else◌, min, max, Bool-cases, Option-cases,
  inl, inr, ◌⊎◌, ltb→lt, ltb→le, lt→ltb,
}
use mf.Prelude.Int.{pos}
use mf.Session.Numbers.{
  to_digit, next_digit, from_digits, i64_half, negated, map_some, from_str_radix, radix_of,
  parse_forth_int,
}

le→leb : (a b : ℕ) → a ≤ b → leb a b ≡ true
le→leb a b h = ground arith

abbrev pub digit_char : ℕ → ℕ
digit_char d = if ltb d 10 then 48 + d else 87 + d

-- The digits of a number; its own size is fuel enough.
unfoldable pub to_digits : ℕ → ℕ → ℕ → List ℕ
to_digits zero radix n = []
to_digits (suc fuel) radix n = elim (ltb n radix) [
  | true ↦ digit_char n ∷ []
  | false ↦ to_digits fuel radix (n / radix) ++ (digit_char (n % radix) ∷ [])
]

abbrev pub spelled_number : ℕ → ℕ → List ℕ
spelled_number radix n = to_digits (n + 1) radix n

to_digit-digit_char : (d : ℕ) → d < 36 → to_digit (digit_char d) ≡ some d
unfolding to_digit
to_digit-digit_char d h = elim (Bool-cases (ltb d 10)) [
  | inl t ↦
      let k = ltb→lt d 10 t in
      let a : leb 48 (48 + d) ≡ true = ground arith in
      let c : leb (48 + d) 57 ≡ true = ground arith in
      let e : 48 + d - 48 ≡ d = omega arith in rw (t, a, c, e) refl
  | inr f ↦
      let k = ltb→le d 10 f in
      let a : leb 48 (87 + d) ≡ true = ground arith in
      let b : leb (87 + d) 57 ≡ false = ground arith in
      let c : leb 97 (87 + d) ≡ true = ground arith in
      let g : leb (87 + d) 122 ≡ true = ground arith in
      let e : 87 + d - 97 + 10 ≡ d = omega arith in rw (f, a, b, c, g, e) refl
]

next_digit-digit_char :
    (radix limit acc d : ℕ)
    → radix ≤ 36
    → d < radix
    → acc * radix + d ≤ limit
    → next_digit radix limit acc (digit_char d) ≡ some (acc * radix + d)
unfolding next_digit
next_digit-digit_char radix limit acc d r h k =
    rw
      (
        to_digit-digit_char d (omega arith),
        next_digit,
        lt→ltb d radix h,
        le→leb (acc * radix + d) limit k,
      )
      refl

none_read : (m : ℕ) → ¬ (none ≡ some m)
none_read m q = cc

last_one : (o : Option ℕ) → elim o as (λ x. Option ℕ) [ none ↦ none | some a ↦ some a ] ≡ o
last_one none = refl
last_one (some a) = refl

from_digits_last :
    (radix limit : ℕ) (cs : List ℕ) (acc m c : ℕ)
    → from_digits radix limit acc cs ≡ some m
    → from_digits radix limit acc (cs ++ (c ∷ [])) ≡ next_digit radix limit m c
unfolding from_digits
from_digits_last radix limit [] acc m c h =
    rw (some-injective acc m h) (last_one (next_digit radix limit m c))
from_digits_last radix limit (x ∷ cs) acc m c h =
    elim (Option-cases (next_digit radix limit acc x)) [
      | inl e ↦ absurd (none_read m (rw (e, from_digits) at h))
      | inr (g, e) ↦
          rw (e, from_digits) (from_digits_last radix limit cs g m c (rw (e, from_digits) at h))
    ]

-- What the first character of a number can be.
abbrev pub IsLead : ℕ → Type 0
IsLead c = (d : ℕ) × (0 < d) × (d < 36) × (c ≡ digit_char d)

quotient_pos : (n radix : ℕ) → 2 ≤ radix → radix ≤ n → 0 < n / radix
quotient_pos n radix r k = elim (Bool-cases (ltb 0 (n / radix))) [
  | inl t ↦ ltb→lt 0 (n / radix) t
  | inr f ↦
      let z : n / radix ≡ 0 = omega (arith, ltb→le 0 (n / radix) f) in
      let e : 0 * radix + n % radix ≡ n = rw z at (div-add-mod' n radix) in
      let m : n % radix < radix = mod-lt n (omega arith) in absurd (omega (arith, e, m, k))
]

first_digit :
    (fuel radix n : ℕ)
    → 2 ≤ radix
    → radix ≤ 36
    → 0 < n
    → n < fuel
    → (c : ℕ) × (rest : List ℕ) × (to_digits fuel radix n ≡ c ∷ rest) × IsLead c
unfolding to_digits
first_digit zero radix n r q p h = absurd (omega (arith, h))
first_digit (suc fuel) radix n r q p h = elim (Bool-cases (ltb n radix)) [
  | inl t ↦
      (digit_char n, [], rw (t, to_digits) refl, (n, p, omega (arith, ltb→lt n radix t), refl))
  | inr f ↦
      let k = ltb→le n radix f in
      let u : n / radix < n = div-lt_self p (omega arith) in
      let s : n / radix < fuel = omega (arith, h, u) in
      let (c, rest, e, i) = first_digit fuel radix (n / radix) r q (quotient_pos n radix r k) s in
      (c, rest ++ (digit_char (n % radix) ∷ []), rw (f, to_digits, e) refl, i)
]

from_digits-to_digits :
    (fuel radix limit n : ℕ)
    → 2 ≤ radix
    → radix ≤ 36
    → n ≤ limit
    → n < fuel
    → from_digits radix limit 0 (to_digits fuel radix n) ≡ some n
unfolding to_digits from_digits
from_digits-to_digits zero radix limit n r q l h = absurd (omega (arith, h))
from_digits-to_digits (suc fuel) radix limit n r q l h = elim (Bool-cases (ltb n radix)) [
  | inl t ↦
      let z : 0 * radix + n ≡ n = omega arith in
      rw (t, to_digits)
        (last_one (next_digit radix limit 0 (digit_char n))
          ∙ next_digit-digit_char radix limit 0 n q (ltb→lt n radix t) (omega arith)
          ∙ ap some z)
  | inr f ↦
      let k = ltb→le n radix f in
      let p : 0 < n = omega arith in
      let w = quotient_pos n radix r k in
      let d = div-add-mod' n radix in
      let s : n / radix < n = div-lt_self p (omega arith) in
      let ih =
        from_digits-to_digits fuel radix limit (n / radix) r q (omega (arith, s, l))
          (omega (arith, s, h)) in
      let m : n % radix < radix = mod-lt n (omega arith) in
      rw (f, to_digits)
        (from_digits_last radix limit (to_digits fuel radix (n / radix)) 0 (n / radix)
            (digit_char (n % radix)) ih
          ∙ next_digit-digit_char radix limit (n / radix) (n % radix) q m (rw d l)
          ∙ ap some d)
]

above : (c k : ℕ) → k < c → (c == k) ≡ false
above c k h = ground arith

digit_char_low : (d : ℕ) → 48 ≤ digit_char d
digit_char_low d = elim (Bool-cases (ltb d 10)) [
  | inl t ↦ rw t (omega arith)
  | inr f ↦ rw f (omega arith)
]

digit_char_pos : (d : ℕ) → 0 < d → 48 < digit_char d
digit_char_pos d h = elim (Bool-cases (ltb d 10)) [
  | inl t ↦ rw t (omega arith)
  | inr f ↦ rw f (omega arith)
]

-- What a number can start with: no zero before other digits.
abbrev IsNumber : List ℕ → Type 0
IsNumber cs = (c : ℕ) × (rest : List ℕ) × (cs ≡ c ∷ rest) × (48 ≤ c) × ((rest ≡ []) ⊎ (48 < c))

spelled-IsNumber : (radix n : ℕ) → 2 ≤ radix → radix ≤ 36 → IsNumber (spelled_number radix n)
unfolding to_digits
spelled-IsNumber radix zero r q =
    (48, [], rw (lt→ltb 0 radix (omega arith), to_digits) refl, omega arith, inl refl)
spelled-IsNumber radix (suc n) r q =
    let (c, rest, e, (d, p, l, i)) =
      first_digit (suc n + 1) radix (suc n) r q (omega arith) (omega arith) in
    (c, rest, e, rw i (digit_char_low d), inr (rw i (digit_char_pos d p)))

radix_of_number :
    (base : ℕ) (cs : List ℕ) → 2 ≤ base → base ≤ 36 → IsNumber cs → radix_of base cs ≡ (base, cs)
unfolding radix_of
radix_of_number base cs r q (c, [], e, l, s) =
    let m : min (max base 2) 36 ≡ base = omega arith in
    rw (e, radix_of, above c 36 (omega arith), above c 37 (omega arith), m) refl
radix_of_number base cs r q (c, x ∷ rest, e, l, inl s) = absurd (cc s)
radix_of_number base cs r q (c, x ∷ rest, e, l, inr s) =
    let m : min (max base 2) 36 ≡ base = omega arith in
    rw (e, radix_of, above c 36 (omega arith), above c 37 (omega arith), above c 48 s, m) refl

from_str_radix_number :
    (radix n : ℕ) (cs : List ℕ)
    → IsNumber cs
    → from_digits radix (i64_half - 1) 0 cs ≡ some n
    → from_str_radix cs radix ≡ some (pos n)
unfolding from_str_radix
from_str_radix_number radix n cs (c, rest, e, l, s) h =
    rw (e, from_str_radix, above c 45 (omega arith), above c 43 (omega arith))
      (ap (map_some pos) (rw e at h))

parse_number :
    (base n c : ℕ) (rest : List ℕ)
    → 48 ≤ c
    → radix_of base (c ∷ rest) ≡ (base, c ∷ rest)
    → from_str_radix (c ∷ rest) base ≡ some (pos n)
    → (parse_forth_int (c ∷ rest) base ≡ some (pos n))
      × (parse_forth_int (45 ∷ c ∷ rest) base ≡ some (negated n))
unfolding parse_forth_int
parse_number base n c rest l k g = (rw (above c 45 (omega arith), k, g) refl, rw (k, g) refl)

-- A number in the radix, with what the prefixes of that radix are.
spelled_magnitude :
    (radix n : ℕ)
    → 2 ≤ radix
    → radix ≤ 36
    → n < i64_half
    → from_str_radix (spelled_number radix n) radix ≡ some (pos n)
spelled_magnitude radix n r q h =
    from_str_radix_number radix n (spelled_number radix n) (spelled-IsNumber radix n r q)
      (from_digits-to_digits (n + 1) radix (i64_half - 1) n r q (omega arith) (omega arith))

-- A prefix that leaves the digits to be read in its radix.
prefix_read :
    (prefix : List ℕ → List ℕ) (base radix n : ℕ)
    → 2 ≤ radix
    → radix ≤ 36
    → n < i64_half
    → ((c : ℕ) (cs : List ℕ)
        → parse_forth_int (prefix (c ∷ cs)) base ≡ from_str_radix (c ∷ cs) radix)
    → parse_forth_int (prefix (spelled_number radix n)) base ≡ some (pos n)
prefix_read prefix base radix n r q h p =
    let (c, rest, e, l, s) = spelled-IsNumber radix n r q in
    let g = spelled_magnitude radix n r q h in rw e (p c rest ∙ (rw e at g))

-- A number below 2 ^ 63 after the prefix of its radix is read in that radix, whatever the base.
parse_forth_int-prefixes :
    (base n : ℕ)
    → n < i64_half
    → (parse_forth_int (48 ∷ 120 ∷ spelled_number 16 n) base ≡ some (pos n))
      × (parse_forth_int (36 ∷ spelled_number 16 n) base ≡ some (pos n))
      × (parse_forth_int (48 ∷ 98 ∷ spelled_number 2 n) base ≡ some (pos n))
      × (parse_forth_int (37 ∷ spelled_number 2 n) base ≡ some (pos n))
      × (parse_forth_int (48 ∷ 111 ∷ spelled_number 8 n) base ≡ some (pos n))
unfolding parse_forth_int radix_of
parse_forth_int-prefixes base n h = (
  prefix_read (λ ds. 48 ∷ 120 ∷ ds) base 16 n (omega arith) (omega arith) h (λ c cs. refl),
  prefix_read (λ ds. 36 ∷ ds) base 16 n (omega arith) (omega arith) h (λ c cs. refl),
  prefix_read (λ ds. 48 ∷ 98 ∷ ds) base 2 n (omega arith) (omega arith) h (λ c cs. refl),
  prefix_read (λ ds. 37 ∷ ds) base 2 n (omega arith) (omega arith) h (λ c cs. refl),
  prefix_read (λ ds. 48 ∷ 111 ∷ ds) base 8 n (omega arith) (omega arith) h (λ c cs. refl),
)

-- A number below 2 ^ 63 that is written in a base from 2 to 36 is read back in that base, and with a
-- minus sign before it as its negation. In base 16 after `0x` or `$`, in base 2 after `0b` or `%`
-- and in base 8 after `0o` it is read back whatever the base is.
pub parse_forth_int-spelled_number :
    (base n : ℕ)
    → 2 ≤ base
    → base ≤ 36
    → n < i64_half
    → (parse_forth_int (spelled_number base n) base ≡ some (pos n))
      × (parse_forth_int (45 ∷ spelled_number base n) base ≡ some (negated n))
      × (parse_forth_int (48 ∷ 120 ∷ spelled_number 16 n) base ≡ some (pos n))
      × (parse_forth_int (36 ∷ spelled_number 16 n) base ≡ some (pos n))
      × (parse_forth_int (48 ∷ 98 ∷ spelled_number 2 n) base ≡ some (pos n))
      × (parse_forth_int (37 ∷ spelled_number 2 n) base ≡ some (pos n))
      × (parse_forth_int (48 ∷ 111 ∷ spelled_number 8 n) base ≡ some (pos n))
unfolding parse_forth_int
parse_forth_int-spelled_number base n r q h =
    let number = spelled-IsNumber base n r q in
    let g = spelled_magnitude base n r q h in
    let k = radix_of_number base (spelled_number base n) r q number in
    let (c, rest, e, l, s) = number in
    let (plain, minus) = parse_number base n c rest l (rw e at k) (rw e at g) in
    let (hex, dollar, binary, percent, octal) = parse_forth_int-prefixes base n h in
    (rw e plain, rw e minus, hex, dollar, binary, percent, octal)

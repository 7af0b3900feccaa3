-- ===== src/Session/Scan/Escapes.antt =====
-- Strings written with escapes are read back by `scan_escaped` of src/session.rs.
use mf.Prelude.{
  ℕ, zero, suc, ◌+◌, ◌<◌, ◌≤◌, ◌≡◌, refl, sym, ap, ◌∙◌, arith, ◌==◌, false, ◌||◌, List, [], ◌∷◌,
  ◌++◌, append-nil, append_assoc, length, length-append, get_elem?, some, if◌then◌else◌, Bool-cases,
  inl, inr, ==→eq,
}
use mf.Session.Patches.{get_middle}
use mf.Session.Scan.{escape, escape_at, escaped_loop, skip_space, scan_escaped}

-- A byte in a string: quotes, backslashes and newlines are escaped.
abbrev pub spelled_byte : ℕ → List ℕ
spelled_byte c =
    if c == 34
    then 92 ∷ 34 ∷ []
    else if c == 92
    then 92 ∷ 92 ∷ []
    else if c == 10
    then 92 ∷ 110 ∷ []
    else c ∷ []

unfoldable pub spelled : List ℕ → List ℕ
spelled [] = []
spelled (c ∷ bs) = spelled_byte c ++ spelled bs

byte_spelled : (c : ℕ) → 1 ≤ length (spelled_byte c)
byte_spelled c = elim (Bool-cases (c == 34)) [
  | inl q ↦ rw q (omega arith)
  | inr q ↦ elim (Bool-cases (c == 92)) [
    | inl s ↦ rw (q, s) (omega arith)
    | inr s ↦ elim (Bool-cases (c == 10)) [
      | inl n ↦ rw (q, s, n) (omega arith)
      | inr n ↦ rw (q, s, n) (omega arith)
    ]
  ]
]

spelled_longer : (bs : List ℕ) → length bs ≤ length (spelled bs)
unfolding spelled
spelled_longer [] = omega arith
spelled_longer (c ∷ bs) =
    omega (arith, length-append (spelled_byte c) (spelled bs), byte_spelled c, spelled_longer bs)

-- A round on an escape that takes one character.
escape_round :
    (fuel e : ℕ) (pre tail out : List ℕ)
    → (e == 120 || e == 88) ≡ false
    → escaped_loop (suc fuel) (pre ++ (92 ∷ e ∷ tail)) (length pre) out
      ≡ escaped_loop fuel (pre ++ (92 ∷ e ∷ tail)) (length pre + 2) (out ++ escape e)
unfolding escaped_loop escape_at
escape_round fuel e pre tail out x =
    let b = pre ++ (92 ∷ e ∷ tail) in
    let g : get_elem? b (length pre) ≡ some 92 = get_middle pre 92 (e ∷ tail) in
    let k : get_elem? b (length pre + 1) ≡ some e =
      ap (λ p. get_elem? p (length pre + 1)) (sym (append_assoc pre (92 ∷ []) (e ∷ tail)))
      ∙ ap (get_elem? (pre ++ (92 ∷ []) ++ (e ∷ tail))) (sym (length-append pre (92 ∷ [])))
      ∙ get_middle (pre ++ (92 ∷ [])) e tail in
    let t : length pre + 1 + 1 ≡ length pre + 2 = omega arith in rw (g, escaped_loop, k, x, t) refl

plain_round :
    (fuel c : ℕ) (pre tail out : List ℕ)
    → (c == 34) ≡ false
    → (c == 92) ≡ false
    → escaped_loop (suc fuel) (pre ++ (c ∷ tail)) (length pre) out
      ≡ escaped_loop fuel (pre ++ (c ∷ tail)) (length pre + 1) (out ++ (c ∷ []))
unfolding escaped_loop
plain_round fuel c pre tail out q s = rw (get_middle pre c tail, escaped_loop, q, s) refl

-- A round reads one byte of the string.
byte_round :
    (fuel c : ℕ) (pre tail out : List ℕ)
    → escaped_loop (suc fuel) (pre ++ (spelled_byte c ++ tail)) (length pre) out
      ≡ escaped_loop fuel
          (pre ++ (spelled_byte c ++ tail))
          (length pre + length (spelled_byte c))
          (out ++ (c ∷ []))
unfolding escape
byte_round fuel c pre tail out = elim (Bool-cases (c == 34)) [
  | inl q ↦ rw (q, ==→eq c 34 q) (escape_round fuel 34 pre tail out refl)
  | inr q ↦ elim (Bool-cases (c == 92)) [
    | inl s ↦ rw (q, s, ==→eq c 92 s) (escape_round fuel 92 pre tail out refl)
    | inr s ↦ elim (Bool-cases (c == 10)) [
      | inl n ↦ rw (q, s, n, ==→eq c 10 n) (escape_round fuel 110 pre tail out refl)
      | inr n ↦ rw (q, s, n) (plain_round fuel c pre tail out q s)
    ]
  ]
]

loop-spelled :
    (bs pre rest out : List ℕ) (fuel : ℕ)
    → length bs < fuel
    → escaped_loop fuel (pre ++ (spelled bs ++ (34 ∷ rest))) (length pre) out
      ≡ (some (out ++ bs), length pre + length (spelled bs) + 1)
unfolding spelled escaped_loop
loop-spelled bs pre rest out zero h = absurd (omega (arith, h))
loop-spelled [] pre rest out (suc fuel) h =
    let z : length pre + 0 + 1 ≡ length pre + 1 = omega arith in
    rw (get_middle pre 34 rest, escaped_loop, append-nil out, z) refl
loop-spelled (c ∷ bs) pre rest out (suc fuel) h =
    let ws = spelled_byte c in
    let tail = spelled bs ++ (34 ∷ rest) in
    let a : ws ++ spelled bs ++ (34 ∷ rest) ≡ ws ++ tail =
      append_assoc ws (spelled bs) (34 ∷ rest) in
    let ih = loop-spelled bs (pre ++ ws) rest (out ++ (c ∷ [])) fuel (omega (arith, h)) in
    rw
      (
        a,
        byte_round fuel c pre tail out,
        ← append_assoc pre ws tail,
        ← length-append pre ws,
        ih,
        append_assoc out (c ∷ []) bs,
        length-append pre ws,
        length-append ws (spelled bs),
      )
      (ap (λ p. (some (out ++ (c ∷ bs)), p)) (omega arith))

-- A string written after a space with its quotes, backslashes and newlines escaped, and then a
-- quote, is read back by scan_escaped, which leaves the cursor behind the quote, whatever stands
-- before the space and behind the quote.
pub scan_escaped-spelled :
    (bs pre rest : List ℕ)
    → scan_escaped (pre ++ (32 ∷ (spelled bs ++ (34 ∷ rest)))) (length pre)
      ≡ (some bs, length pre + length (spelled bs) + 2)
unfolding scan_escaped skip_space
scan_escaped-spelled bs pre rest =
    let tail = spelled bs ++ (34 ∷ rest) in
    let b = pre ++ (32 ∷ tail) in
    let l : length (pre ++ (32 ∷ [])) ≡ length pre + 1 = length-append pre (32 ∷ []) in
    let s : skip_space b (length pre) ≡ length pre + 1 =
      rw (get_middle pre 32 tail, skip_space) refl in
    let m = spelled_longer bs in
    let c = pre ++ (32 ∷ []) ++ tail in
    let f : length bs < length c + 1 = grind (arith, length-append) in
    let r = loop-spelled bs (pre ++ (32 ∷ [])) rest [] (length c + 1) f in
    rw (s, ← l, ← append_assoc pre (32 ∷ []) tail, r, l) (ap (λ p. (some bs, p)) (omega arith))

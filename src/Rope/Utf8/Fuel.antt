-- ===== src/Rope/Utf8/Fuel.antt =====
-- The fuel of the decoder is enough.
use mf.Prelude.{
  ℕ, zero, suc, ◌≤◌, ◌≡◌, refl, ap, arith, List, [], ◌∷◌, length, drop, true, false, if◌then◌else◌,
  Bool,
}
use mf.Rope.Utf8.{
  newline_step, two_byte, three_byte, four_byte, decode_step, decode_loop, is_continuation,
}

choose : (b : Bool) (x y : ℕ × ℕ) → 1 ≤ x.1 → 1 ≤ y.1 → 1 ≤ (if b then x else y).1
choose true x y h k = h
choose false x y h k = k

newline_step-advances : (bytes : List ℕ) → 1 ≤ (newline_step bytes).1
unfolding newline_step
newline_step-advances [] = omega arith
newline_step-advances (b ∷ bytes) = ground arith

two_byte-advances : (byte : ℕ) (bytes : List ℕ) → 1 ≤ (two_byte byte bytes).1
unfolding two_byte
two_byte-advances byte [] = omega arith
two_byte-advances byte (b1 ∷ bytes) = choose (is_continuation b1) _ _ (omega arith) (omega arith)

three_byte-advances : (byte : ℕ) (bytes : List ℕ) → 1 ≤ (three_byte byte bytes).1
unfolding three_byte
three_byte-advances byte (b1 ∷ b2 ∷ bytes) = ground arith
three_byte-advances byte bytes = omega arith

four_byte-advances : (byte : ℕ) (bytes : List ℕ) → 1 ≤ (four_byte byte bytes).1
unfolding four_byte
four_byte-advances byte (b1 ∷ b2 ∷ b3 ∷ bytes) = ground arith
four_byte-advances byte bytes = omega arith

-- A step takes the byte at least.
decode_step-advances : (byte : ℕ) (bytes : List ℕ) → 1 ≤ (decode_step byte bytes).1
unfolding decode_step
decode_step-advances byte bytes =
    let n = newline_step-advances bytes in
    let two = two_byte-advances byte bytes in
    let three = three_byte-advances byte bytes in
    let four = four_byte-advances byte bytes in ground arith

length-drop-le : (n : ℕ) (xs : List ℕ) → length (drop n xs) ≤ length xs
length-drop-le zero xs = omega arith
length-drop-le (suc n) [] = omega arith
length-drop-le (suc n) (x ∷ xs) = omega (arith, length-drop-le n xs)

length-drop_one : (n : ℕ) (x : ℕ) (xs : List ℕ) → 1 ≤ n → length (drop n (x ∷ xs)) ≤ length xs
length-drop_one zero x xs h = absurd (omega arith)
length-drop_one (suc n) x xs h = length-drop-le n xs

-- Any two amounts of fuel that reach the number of bytes decode the same.
pub decode_loop_enough :
    (f g : ℕ) (bytes : List ℕ)
    → length bytes ≤ f
    → length bytes ≤ g
    → decode_loop f bytes ≡ decode_loop g bytes
unfolding decode_loop
decode_loop_enough zero zero [] h k = refl
decode_loop_enough zero (suc g) [] h k = refl
decode_loop_enough (suc f) zero [] h k = refl
decode_loop_enough (suc f) (suc g) [] h k = refl
decode_loop_enough zero g (b ∷ bytes) h k = absurd (omega arith)
decode_loop_enough (suc f) zero (b ∷ bytes) h k = absurd (omega arith)
decode_loop_enough (suc f) (suc g) (b ∷ bytes) h k =
    let r = decode_step b bytes in
    let n = length-drop_one r.1 b bytes (decode_step-advances b bytes) in
    ap (r.0 ∷◌)
      (decode_loop_enough f g (drop r.1 (b ∷ bytes)) (omega (arith, n)) (omega (arith, n)))

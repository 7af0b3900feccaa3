-- ===== src/Rope/Utf8/Decode.antt =====
-- The decoder at the bytes of one character.
use mf.Prelude.{
  ℕ, suc, ◌+◌, ◌*◌, ◌/◌, ◌%◌, ◌<◌, ◌≤◌, ◌==◌, ◌&&◌, ◌≡◌, ◌≢◌, ◌⊎◌, refl, ap, ◌∙◌, arith, false,
  List, [], ◌∷◌, ◌++◌, length, bit_and, ltb, Bool-cases, inl, inr, ltb→lt, ltb→le, lt→ltb, le→ltb,
}
use mf.Rope.Utf8.{
  two_byte, three_byte, four_byte, decode_step, encode_char, skip_bom, char_from_u32, to_char,
}
use mf.Rope.Utf8.Masks.{
  mask_e0, mask_f0, mask_f8, continuation_lem, low_continuation, low5, low4, low3, join2, join3,
  join4,
}

-- What a `char` is: a code point that is no surrogate.
abbrev pub IsChar : ℕ → Type 0
IsChar c = (c < 0xD800) ⊎ ((0xE000 ≤ c) × (c < 0x110000))

not_return : (b : ℕ) → 14 ≤ b → (b == 0x0D) ≡ false
not_return b h = ground arith

one : (c : ℕ) (rest : List ℕ) → c ≢ 0x0D → c < 0x80 → decode_step c rest ≡ (c, 1)
unfolding decode_step
one c rest n h = let f : (c == 0x0D) ≡ false = ground arith in rw (f, lt→ltb c 0x80 h) refl

two :
    (q r : ℕ) (rest : List ℕ)
    → q < 32
    → r < 64
    → decode_step (0xC0 + q) ((0x80 + r) ∷ rest) ≡ (q * 64 + r, 2)
unfolding decode_step two_byte
two q r rest h k =
    let b = 0xC0 + q in
    let m : bit_and b 0xE0 ≡ 0xC0 = mask_e0 b (omega arith) ∙ omega arith in
    rw
      (
        not_return b (omega arith),
        le→ltb b 0x80 (omega arith),
        m,
        continuation_lem r k,
        low5 q h,
        low_continuation r k,
        join2 q r h k,
      )
      refl

three :
    (p q r : ℕ) (rest : List ℕ)
    → p < 16
    → q < 64
    → r < 64
    → decode_step (0xE0 + p) ((0x80 + q) ∷ (0x80 + r) ∷ rest) ≡ (p * 4096 + q * 64 + r, 3)
unfolding decode_step three_byte
three p q r rest h k l =
    let b = 0xE0 + p in
    let m : bit_and b 0xE0 ≡ 0xE0 = mask_e0 b (omega arith) ∙ omega arith in
    let n : bit_and b 0xF0 ≡ 0xE0 = mask_f0 b (omega arith) ∙ omega arith in
    rw
      (
        not_return b (omega arith),
        le→ltb b 0x80 (omega arith),
        m,
        n,
        continuation_lem q k,
        continuation_lem r l,
        low4 p h,
        low_continuation q k,
        low_continuation r l,
        join3 p q r h k l,
      )
      refl

four :
    (o p q r : ℕ) (rest : List ℕ)
    → o < 8
    → p < 64
    → q < 64
    → r < 64
    → decode_step (0xF0 + o) ((0x80 + p) ∷ (0x80 + q) ∷ (0x80 + r) ∷ rest)
      ≡ (o * 262144 + p * 4096 + q * 64 + r, 4)
unfolding decode_step four_byte
four o p q r rest h i k l =
    let b = 0xF0 + o in
    let m : bit_and b 0xE0 ≡ 0xE0 = mask_e0 b (omega arith) ∙ omega arith in
    let n : bit_and b 0xF0 ≡ 0xF0 = mask_f0 b (omega arith) ∙ omega arith in
    let s : bit_and b 0xF8 ≡ 0xF0 = mask_f8 b (omega arith) ∙ omega arith in
    rw
      (
        not_return b (omega arith),
        le→ltb b 0x80 (omega arith),
        m,
        n,
        s,
        continuation_lem p i,
        continuation_lem q k,
        continuation_lem r l,
        low3 o h,
        low_continuation p i,
        low_continuation q k,
        low_continuation r l,
        join4 o p q r h i k l,
      )
      refl

-- The bytes of a character, and what the decoder reads in them.
pub record Coded (c : ℕ) : Type 0 where
  pub first : ℕ
  pub others : List ℕ
  pub bytes : encode_char c ≡ first ∷ others
  pub decoded :
      c ≢ 0x0D → (rest : List ℕ) → decode_step first (others ++ rest) ≡ (c, suc (length others))
  pub no_newline : c ≢ 0x0A → first ≢ 0x0A
  -- Only U+FEFF has the bytes of the byte order mark.
  pub unmarked :
      c ≢ 0xFEFF → (rest : List ℕ) → skip_bom (first ∷ others ++ rest) ≡ first ∷ others ++ rest

skip_bom_other : (b : ℕ) (bytes : List ℕ) → b ≢ 0xEF → skip_bom (b ∷ bytes) ≡ b ∷ bytes
unfolding skip_bom
skip_bom_other b [] n = refl
skip_bom_other b (b1 ∷ []) n = refl
skip_bom_other b (b1 ∷ b2 ∷ bytes) n = let f : (b == 0xEF) ≡ false = ground arith in rw f refl

skip_bom_three :
    (p q r : ℕ) (rest : List ℕ)
    → p * 4096 + q * 64 + r ≢ 0xFEFF
    → q < 64
    → r < 64
    → skip_bom ((0xE0 + p) ∷ (0x80 + q) ∷ (0x80 + r) ∷ rest)
      ≡ (0xE0 + p) ∷ (0x80 + q) ∷ (0x80 + r) ∷ rest
unfolding skip_bom
skip_bom_three p q r rest n k l =
    let f : ((0xE0 + p == 0xEF) && (0x80 + q == 0xBB) && (0x80 + r == 0xBF)) ≡ false =
      ground arith in
    rw f refl

pub encode_char-Coded : (c : ℕ) → IsChar c → Coded c
unfolding encode_char
encode_char-Coded c v = elim (Bool-cases (ltb c 0x80)) [
  | inl t ↦
      let h = ltb→lt c 0x80 t in
      record {
        first = c;
        others = [];
        bytes = rw t refl;
        decoded = λ n rest. one c rest n h;
        no_newline = λ n. omega (arith, n);
        unmarked = λ n rest. skip_bom_other c rest (omega arith);
      }
  | inr f ↦ elim (Bool-cases (ltb c 0x800)) [
    | inl t ↦
        let h = ltb→lt c 0x800 t in
        let e : c / 64 * 64 + c % 64 ≡ c = omega arith in
        record {
          first = 0xC0 + c / 64;
          others = (0x80 + c % 64) ∷ [];
          bytes = rw (f, t) refl;
          decoded =
              λ n rest. two (c / 64) (c % 64) rest (omega arith) (omega arith) ∙ ap (λ x. (x, 2)) e;
          no_newline = λ n. omega (arith, n);
          unmarked =
              λ n rest. skip_bom_other (0xC0 + c / 64) ((0x80 + c % 64) ∷ rest) (omega arith);
        }
    | inr g ↦ elim (Bool-cases (ltb c 0x10000)) [
      | inl t ↦
          let h = ltb→lt c 0x10000 t in
          let p = c / 4096 in
          let q = c / 64 % 64 in
          let e : p * 4096 + q * 64 + c % 64 ≡ c = omega arith in
          record {
            first = 0xE0 + p;
            others = (0x80 + q) ∷ (0x80 + c % 64) ∷ [];
            bytes = rw (f, g, t) refl;
            decoded = λ n rest.
                three p q (c % 64) rest (omega arith) (omega arith) (omega arith)
                ∙ ap (λ x. (x, 3)) e;
            no_newline = λ n. omega arith;
            unmarked = λ n rest.
                skip_bom_three p q (c % 64) rest (omega (arith, n, e)) (omega arith) (omega arith);
          }
      | inr k ↦
          let h = ltb→le c 0x10000 k in
          let o = c / 262144 in
          let p = c / 4096 % 64 in
          let q = c / 64 % 64 in
          let e : o * 262144 + p * 4096 + q * 64 + c % 64 ≡ c = omega arith in
          let small : o < 8 = ground arith in
          record {
            first = 0xF0 + o;
            others = (0x80 + p) ∷ (0x80 + q) ∷ (0x80 + c % 64) ∷ [];
            bytes = rw (f, g, k) refl;
            decoded = λ n rest.
                four o p q (c % 64) rest small (omega arith) (omega arith) (omega arith)
                ∙ ap (λ x. (x, 4)) e;
            no_newline = λ n. omega arith;
            unmarked = λ n rest.
                skip_bom_other (0xF0 + o) ((0x80 + p) ∷ (0x80 + q) ∷ (0x80 + c % 64) ∷ rest)
                  (omega arith);
          }
    ]
  ]
]

-- What `codepoints_to_utf8` puts into a string is a character, and a character stays as it is.
pub to_char-IsChar : (cp : ℕ) → IsChar (to_char cp)
unfolding to_char char_from_u32
to_char-IsChar cp = ground arith

pub to_char_lem : (c : ℕ) → IsChar c → to_char c ≡ c
unfolding to_char char_from_u32
to_char_lem c h = ground arith

-- ===== src/Rope/Utf8/RoundTrip.antt =====
-- Decoding the bytes of a string.
use native.Mathlib.Nat.{le_refl}
use mf.Prelude.{
  ℕ, zero, suc, ◌≤◌, ◌==◌, ◌&&◌, ◌≡◌, ◌≢◌, refl, sym, ap, ap₂, ◌∙◌, arith, Bool, true, false, List,
  [], ◌∷◌, ◌++◌, All, length, length-append, drop, if◌then◌else◌, Bool-cases, inl, inr, ==→eq,
  ==→ne,
}
use mf.Rope.Utf8.{
  newline_step, decode_step, decode_loop, as_bytes, skip_bom, utf8_to_codepoints,
  codepoints_to_utf8,
}
use mf.Rope.Utf8.Decode.{IsChar, Coded, encode_char-Coded, to_char_lem}

-- A carriage return, with or without the newline behind it, is a newline. The flag says that the
-- character before was a carriage return.
unfoldable pub newlines : Bool → List ℕ → List ℕ
newlines after [] = []
newlines after (c ∷ s) =
    if after && (c == 0x0A)
    then newlines false s
    else if c == 0x0D
    then 0x0A ∷ newlines true s
    else c ∷ newlines false s

-- A byte order mark in front goes.
abbrev pub skip_mark : List ℕ → List ℕ
skip_mark [] = []
skip_mark (c ∷ s) = if c == 0xFEFF then s else c ∷ s

drop-length : (xs ys : List ℕ) → drop (length xs) (xs ++ ys) ≡ ys
drop-length [] ys = refl
drop-length (x ∷ xs) ys = drop-length xs ys

as_bytes-cons :
    (c : ℕ) (s : List ℕ) (k : Coded c) → as_bytes (c ∷ s) ≡ k.first ∷ k.others ++ as_bytes s
unfolding as_bytes
as_bytes-cons c s k = rw k.bytes refl

newlines-plain : (c : ℕ) (s : List ℕ) → c ≢ 0x0D → newlines false (c ∷ s) ≡ c ∷ newlines false s
unfolding newlines
newlines-plain c s n = let f : (c == 0x0D) ≡ false = ground arith in rw f refl

newlines-after : (c : ℕ) (s : List ℕ) → c ≢ 0x0A → newlines true (c ∷ s) ≡ newlines false (c ∷ s)
unfolding newlines
newlines-after c s n = let f : (c == 0x0A) ≡ false = ground arith in rw f refl

decode_loop-step :
    (f b cp n : ℕ) (bytes : List ℕ)
    → decode_step b bytes ≡ (cp, n)
    → decode_loop (suc f) (b ∷ bytes) ≡ cp ∷ decode_loop f (drop n (b ∷ bytes))
unfolding decode_loop
decode_loop-step f b cp n bytes e = rw e refl

return_step : (b : ℕ) (bytes : List ℕ) → b ≢ 0x0A → decode_step 0x0D (b ∷ bytes) ≡ (0x0A, 1)
unfolding decode_step newline_step
return_step b bytes n = let f : (b == 0x0A) ≡ false = ground arith in rw f refl

plain_lem :
    (c f : ℕ) (s out : List ℕ)
    → IsChar c
    → c ≢ 0x0D
    → length (as_bytes (c ∷ s)) ≤ f
    → ((g : ℕ) → length (as_bytes s) ≤ g → decode_loop g (as_bytes s) ≡ out)
    → decode_loop f (as_bytes (c ∷ s)) ≡ c ∷ out
plain_lem c zero s out v n h ih =
    let k = encode_char-Coded c v in
    let e = ap length (as_bytes-cons c s k) in absurd (omega (arith, h, e))
plain_lem c (suc f) s out v n h ih =
    let k = encode_char-Coded c v in
    let e = ap length (as_bytes-cons c s k) in
    let l = length-append k.others (as_bytes s) in
    rw (as_bytes-cons c s k) (
      decode_loop-step f k.first c (suc (length k.others)) (k.others ++ as_bytes s)
        (k.decoded n (as_bytes s))
      ∙ ap (c ∷◌)
          (ap (decode_loop f) (drop-length k.others (as_bytes s)) ∙ ih f (omega (arith, h, e, l))))

abbrev Decodes : List ℕ → Type 0
Decodes s = (g : ℕ) → length (as_bytes s) ≤ g → decode_loop g (as_bytes s) ≡ newlines false s

return_end :
    (f : ℕ) → length (as_bytes (0x0D ∷ [])) ≤ f → decode_loop f (as_bytes (0x0D ∷ [])) ≡ 0x0A ∷ []
unfolding as_bytes decode_loop decode_step newline_step
return_end zero h = absurd (omega arith)
return_end (suc zero) h = refl
return_end (suc (suc f)) h = refl

-- A carriage return in front of another character.
return_newline :
    (f : ℕ) (s : List ℕ)
    → length (as_bytes (0x0D ∷ 0x0A ∷ s)) ≤ f
    → Decodes s
    → decode_loop f (as_bytes (0x0D ∷ 0x0A ∷ s)) ≡ 0x0A ∷ newlines false s
unfolding as_bytes decode_loop decode_step newline_step
return_newline zero s h ih = absurd (omega arith)
return_newline (suc f) s h ih = ap (0x0A ∷◌) (ih f (omega arith))

as_bytes-return :
    (r : List ℕ) (g : ℕ) → decode_loop g (as_bytes (0x0D ∷ r)) ≡ decode_loop g (0x0D ∷ as_bytes r)
unfolding as_bytes
as_bytes-return r g = refl

length-return :
    (r : List ℕ) (g : ℕ) → length (as_bytes (0x0D ∷ r)) ≤ suc g → length (as_bytes r) ≤ g
unfolding as_bytes
length-return r g h = omega arith

none_left : (g : ℕ) → decode_loop g (as_bytes []) ≡ []
unfolding as_bytes decode_loop
none_left zero = refl
none_left (suc g) = refl

return_plain :
    (f d : ℕ) (s : List ℕ)
    → IsChar d
    → d ≢ 0x0A
    → length (as_bytes (0x0D ∷ d ∷ s)) ≤ f
    → Decodes (d ∷ s)
    → decode_loop f (as_bytes (0x0D ∷ d ∷ s)) ≡ 0x0A ∷ newlines false (d ∷ s)
return_plain zero d s v n h ih =
    let e = ap length (as_bytes-cons 0x0D (d ∷ s) (encode_char-Coded 0x0D (inl (omega arith)))) in
    absurd (omega (arith, h, e))
return_plain (suc f) d s v n h ih =
    let k = encode_char-Coded d v in
    let e = as_bytes-cons d s k in
    let step =
      decode_loop-step f 0x0D 0x0A 1 (k.first ∷ k.others ++ as_bytes s)
        (return_step k.first (k.others ++ as_bytes s) (k.no_newline n)) in
    as_bytes-return (d ∷ s) (suc f)
    ∙ ap (λ x. decode_loop (suc f) (0x0D ∷ x)) e
    ∙ step
    ∙ ap (0x0A ∷◌) (ap (decode_loop f) (sym e) ∙ ih f (length-return (d ∷ s) f h))

decode_loop-as_bytes : (s : List ℕ) → All IsChar s → Decodes s
unfolding newlines
decode_loop-as_bytes [] v g h = none_left g
decode_loop-as_bytes (c ∷ []) (vc, vs) g h = elim (Bool-cases (c == 0x0D)) [
  | inl t ↦ let e = ==→eq c 0x0D t in rw e (return_end g (rw e at h))
  | inr f ↦ rw f (plain_lem c g [] [] vc (==→ne c 0x0D f) h (decode_loop-as_bytes [] vs))
]
decode_loop-as_bytes (c ∷ d ∷ s) (vc, (vd, vs)) g h = elim (Bool-cases (c == 0x0D)) [
  | inr f ↦ rw f (
      plain_lem c g (d ∷ s) (newlines false (d ∷ s)) vc (==→ne c 0x0D f) h
        (decode_loop-as_bytes (d ∷ s) (vd, vs)))
  | inl t ↦
      let e = ==→eq c 0x0D t in
      elim (Bool-cases (d == 0x0A)) [
        | inl u ↦
            let e' = ==→eq d 0x0A u in
            rw (e, e') (return_newline g s (rw (e, e') at h) (decode_loop-as_bytes s vs))
        | inr f ↦
            let n = ==→ne d 0x0A f in
            rw (e, f) (return_plain g d s vd n (rw e at h) (decode_loop-as_bytes (d ∷ s) (vd, vs)))
      ]
]

skip_bom-as_bytes : (s : List ℕ) → All IsChar s → skip_bom (as_bytes s) ≡ as_bytes (skip_mark s)
unfolding skip_bom as_bytes
skip_bom-as_bytes [] v = refl
skip_bom-as_bytes (c ∷ s) (vc, vs) = elim (Bool-cases (c == 0xFEFF)) [
  | inl t ↦ let e = ==→eq c 0xFEFF t in rw e refl
  | inr f ↦
      let k = encode_char-Coded c vc in
      rw f (
        ap skip_bom (as_bytes-cons c s k)
        ∙ k.unmarked (==→ne c 0xFEFF f) (as_bytes s)
        ∙ sym (as_bytes-cons c s k))
]

skip_mark-IsChar : (s : List ℕ) → All IsChar s → All IsChar (skip_mark s)
skip_mark-IsChar [] v = tt
skip_mark-IsChar (c ∷ s) v = elim (Bool-cases (c == 0xFEFF)) [ inl t ↦ rw t v.1 | inr f ↦ rw f v ]

-- Decoding the bytes of a string of characters gives the string without a byte order mark in front,
-- with each carriage return, and a newline that follows it, as one newline.
pub utf8_to_codepoints-as_bytes :
    (s : List ℕ) → All IsChar s → utf8_to_codepoints (as_bytes s) ≡ newlines false (skip_mark s)
unfolding utf8_to_codepoints
utf8_to_codepoints-as_bytes s v =
    rw (skip_bom-as_bytes s v)
      (decode_loop-as_bytes (skip_mark s) (skip_mark-IsChar s v) _ (le_refl _))

-- A text that goes through a string and back as it is: characters, no carriage return, and no byte
-- order mark in front.
abbrev pub IsPlain : List ℕ → Type 0
IsPlain t = All IsChar t × All (λ c. c ≢ 0x0D) t × (skip_mark t ≡ t)

pub codepoints_to_utf8-IsChar : (t : List ℕ) → All IsChar t → codepoints_to_utf8 t ≡ t
unfolding codepoints_to_utf8
codepoints_to_utf8-IsChar [] v = refl
codepoints_to_utf8-IsChar (c ∷ t) (vc, vt) =
    ap₂ (◌∷◌) (to_char_lem c vc) (codepoints_to_utf8-IsChar t vt)

newlines_nil : newlines false [] ≡ []
unfolding newlines
newlines_nil = refl

newlines_none : (t : List ℕ) → All (λ c. c ≢ 0x0D) t → newlines false t ≡ t
newlines_none [] h = newlines_nil
newlines_none (c ∷ t) (n, h) = newlines-plain c t n ∙ ap (c ∷◌) (newlines_none t h)

-- Characters without a carriage return, and without a byte order mark in front, come back as they
-- are from encoding and decoding.
pub utf8_to_codepoints-codepoints_to_utf8 :
    (t : List ℕ) → IsPlain t → utf8_to_codepoints (as_bytes (codepoints_to_utf8 t)) ≡ t
utf8_to_codepoints-codepoints_to_utf8 t (v, n, m) =
    rw (codepoints_to_utf8-IsChar t v)
      (utf8_to_codepoints-as_bytes t v ∙ ap (newlines false) m ∙ newlines_none t n)

-- ===== src/Syntax/Spans.antt =====
-- The spans of a line in src/fsyntax.rs.
use mf.Prelude.{
  ℕ, zero, suc, ◌≤◌, ◌≡◌, ◌≢◌, refl, ap, ◌∙◌, arith, Bool, true, false, not, List, [], ◌∷◌, ◌++◌,
  append_assoc, append-nil, length, All, Bool-cases, inl, inr, ◌⊎◌, length-append, ◌==◌,
}
use mathlib.Core.Path.{subst}
use mf.Prelude.Words.{is_whitespace}
use mf.Syntax.{
  Tag, normal, comment, run_of, through, push, Start, to_end, plain, up_to, start_of, spans_of,
  highlight,
}

-- The text of the spans.
abbrev pub text_of : List (List ℕ × Tag) → List ℕ
text_of [] = []
text_of ((s, t) ∷ spans) = s ++ text_of spans

-- The spans of a text: all of it, in order, and none is empty.
abbrev pub Covers : List (List ℕ × Tag) → List ℕ → Type 0
Covers spans line = (text_of spans ≡ line) × All (λ span. span.0 ≢ []) spans

run_of-append : (p : ℕ → Bool) (s : List ℕ) → (run_of p s).0 ++ (run_of p s).1 ≡ s
unfolding run_of
run_of-append p [] = refl
run_of-append p (c ∷ s) = elim (Bool-cases (p c)) [
  | inl t ↦ rw t (ap (λ r. c ∷ r) (run_of-append p s))
  | inr f ↦ rw f refl
]

through-append : (close : ℕ) (s : List ℕ) → (through close s).0 ++ (through close s).1 ≡ s
unfolding through
through-append close [] = refl
through-append close (c ∷ s) = elim (Bool-cases (c == close)) [
  | inl t ↦ rw t refl
  | inr f ↦ rw f (ap (λ r. c ∷ r) (through-append close s))
]

length-run_of : (p : ℕ → Bool) (s : List ℕ) → length (run_of p s).1 ≤ length s
length-run_of p s =
    omega (arith, length-append (run_of p s).0 (run_of p s).1, ap length (run_of-append p s))

length-through : (close : ℕ) (s : List ℕ) → length (through close s).1 ≤ length s
length-through close s = omega (
  arith,
  length-append (through close s).0 (through close s).1,
  ap length (through-append close s),
)

Covers-push :
    (s : List ℕ) (t : Tag) (spans : List (List ℕ × Tag)) (rest : List ℕ)
    → Covers spans rest
    → Covers (push s t spans) (s ++ rest)
Covers-push [] t spans rest h = h
Covers-push (c ∷ s) t spans rest (e, full) =
    (ap (λ r. c ∷ s ++ r) e, ((λ (q : c ∷ s ≡ []). cc), full))

-- A run that is not empty.
length-run_of_start :
    (p : ℕ → Bool) (c : ℕ) (s : List ℕ) → p c ≡ true → length (run_of p (c ∷ s)).1 ≤ length s
unfolding run_of
length-run_of_start p c s h = rw h (length-run_of p s)

-- Where the parts in front of the rest make the text.
Covers-push_eq :
    (s : List ℕ) (t : Tag) (spans : List (List ℕ × Tag)) (rest line : List ℕ)
    → s ++ rest ≡ line
    → Covers spans rest
    → Covers (push s t spans) line
Covers-push_eq s t spans rest line e h =
    subst (Covers (push s t spans)) e (Covers-push s t spans rest h)

Start-cases :
    (st : Start)
    → (st ≡ to_end) ⊎ ((st ≡ plain) ⊎ ((close : ℕ) × (tag : Tag) × (st ≡ up_to close tag)))
Start-cases to_end = inl refl
Start-cases plain = inr (inl refl)
Start-cases (up_to close tag) = inr (inr (close, tag, refl))

abbrev is_word : ℕ → Bool
is_word d = not (is_whitespace d)

spans_of-Covers :
    (fuel : ℕ) (name_next : Bool) (chars : List ℕ)
    → length chars ≤ fuel
    → Covers (spans_of fuel name_next chars) chars
unfolding spans_of
spans_of-Covers zero name_next [] h = (refl, tt)
spans_of-Covers zero name_next (c ∷ s) h = absurd (omega arith)
spans_of-Covers (suc fuel) name_next [] h = (refl, tt)
spans_of-Covers (suc fuel) name_next (c ∷ s) h = elim (Bool-cases (is_whitespace c)) [
  | inl t ↦
      let ih = λ (b : Bool) (rest : List ℕ) (short : length rest ≤ length s).
        spans_of-Covers fuel b rest (omega arith) in
      rw (t, spans_of)
        (Covers-push_eq _ normal _ _ _ (run_of-append is_whitespace (c ∷ s))
          (ih name_next _ (length-run_of_start is_whitespace c s t)))
  | inr f ↦
      let ih = λ (b : Bool) (rest : List ℕ) (short : length rest ≤ length s).
        spans_of-Covers fuel b rest (omega arith) in
      let (word, rest) = run_of is_word (c ∷ s) in
      let short : length rest ≤ length s = length-run_of_start is_word c s (rw f refl) in
      let whole : word ++ rest ≡ c ∷ s = run_of-append is_word (c ∷ s) in
      elim (Start-cases (start_of word)) [
        | inl e ↦
            rw (f, e, spans_of)
              (Covers-push_eq (c ∷ s) comment [] [] _ (append-nil (c ∷ s)) (refl, tt))
        | inr (inl e) ↦ rw (f, e, spans_of) (Covers-push_eq word _ _ rest _ whole (ih _ rest short))
        | inr (inr (close, tag, e)) ↦
            let (part, after) = through close rest in
            let parts =
              append_assoc word part after
              ∙ ap (λ r. word ++ r) (through-append close rest)
              ∙ whole in
            rw (f, e, spans_of)
              (Covers-push_eq (word ++ part) tag _ after _ parts
                (ih name_next after (omega (arith, length-through close rest))))
      ]
]

-- The spans of any line put together are the line, and none of them is empty.
pub highlight-Covers : (line : List ℕ) → Covers (highlight line) line
unfolding highlight
highlight-Covers line = spans_of-Covers (length line) false line (omega arith)

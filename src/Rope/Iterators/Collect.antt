-- ===== src/Rope/Iterators/Collect.antt =====
-- What the iterator over code points gives, from the first to the last.
use mf.Prelude.{
  ℕ, zero, suc, ◌+◌, ◌≤◌, ◌≡◌, refl, ap, ◌∙◌, sym, arith, List, [], ◌∷◌, none, some, length,
  get_elem?, drop, drop_all, Option-cases, inl, inr,
}
use mathlib.Core.Option.{some-injective}
use mf.Rope.Buffer.{RopeBuffer, char_at}
use mf.Rope.Buffer.Edits.{IsValid, text}
use mf.Rope.Buffer.Reads.{char_at_lem}
use mf.Rope.Iterators.{Chars, chars, next_char}

-- `Iterator::collect`, at most so many times `next`.
unfoldable pub collect : ℕ → Chars → List ℕ
unfolding next_char
collect zero it = []
collect (suc fuel) it = elim (next_char it) [
  | none ↦ []
  | some (cp, after) ↦ cp ∷ collect fuel after
]

some≢none : (x : ℕ) → ¬ (some x ≡ none)
some≢none x q = cc

get_elem?-past : (xs : List ℕ) (i : ℕ) → get_elem? xs i ≡ none → length xs ≤ i
get_elem?-past [] i h = omega arith
get_elem?-past (x ∷ xs) zero h = absurd (some≢none x (h))
get_elem?-past (x ∷ xs) (suc i) h = omega (arith, get_elem?-past xs i h)

drop-get_elem? : (xs : List ℕ) (i x : ℕ) → get_elem? xs i ≡ some x → drop i xs ≡ x ∷ drop (i + 1) xs
drop-get_elem? [] i x h = absurd (some≢none x (sym h))
drop-get_elem? (y ∷ xs) zero x h = rw (some-injective y x h) refl
drop-get_elem? (y ∷ xs) (suc i) x h =
    let e : suc i + 1 ≡ suc (i + 1) = omega arith in rw e (drop-get_elem? xs i x h)

abbrev at_char : RopeBuffer → ℕ → Chars
at_char b i = record { rope = b; at_pos = i }

ends : (b : RopeBuffer) (i : ℕ) → char_at b i ≡ none → next_char (at_char b i) ≡ none
unfolding next_char
ends b i e = rw (e, next_char) refl

steps :
    (b : RopeBuffer) (i cp : ℕ)
    → char_at b i ≡ some cp
    → next_char (at_char b i) ≡ some (cp, at_char b (i + 1))
unfolding next_char
steps b i cp e = rw (e, next_char) refl

-- Enough steps from a position give the rest of the text.
collect_from :
    (b : RopeBuffer) (fuel i : ℕ)
    → IsValid b
    → length (text b) ≤ i + fuel
    → collect fuel (at_char b i) ≡ drop i (text b)
unfolding collect
collect_from b zero i v h = sym (drop_all i (text b) (omega arith))
collect_from b (suc fuel) i v h = elim (Option-cases (get_elem? (text b) i)) [
  | inl e ↦
      rw (ends b i (char_at_lem b i v ∙ e), collect)
        (sym (drop_all i (text b) (get_elem?-past (text b) i e)))
  | inr (cp, e) ↦
      rw (steps b i cp (char_at_lem b i v ∙ e), collect)
        (ap (cp ∷◌) (collect_from b fuel (i + 1) v (omega arith))
          ∙ sym (drop-get_elem? (text b) i cp e))
]

-- Over a well-formed buffer the iterator gives the text, in as many steps as it is long or more.
pub collect-chars :
    (b : RopeBuffer) (fuel : ℕ)
    → IsValid b
    → length (text b) ≤ fuel
    → collect fuel (chars b) ≡ text b
collect-chars b fuel v h = collect_from b fuel 0 v (omega arith)

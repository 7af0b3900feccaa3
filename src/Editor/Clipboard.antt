-- ===== src/Editor/Clipboard.antt =====
-- The clipboard of src/editor.rs: what is cut can be pasted back.
use mf.Prelude.{
  ℕ, zero, suc, ◌+◌, ◌-◌, ◌≤◌, ◌==◌, ◌≡◌, refl, sym, ap, ap₂, ◌∙◌, arith, List, [], ◌∷◌, ◌++◌,
  Option, none, some, length, length-append, length-take, min, max, take, drop, Bool-cases,
  Option-cases, List-cases, inl, inr, All, take-append-drop,
}
use mathlib.Core.Option.{some-injective}
use mf.Rope.Buffer.{delete, slice}
use mf.Rope.Buffer.Edits
use mf.Rope.Buffer.Edits.{IsValid, text-delete, len-length}
use mf.Rope.Buffer.Reads.{slice_lem}
use mf.Rope.Utf8.{codepoints_to_utf8}
use mf.Rope.Utf8.Decode.{IsChar}
use mf.Rope.Utf8.RoundTrip.{codepoints_to_utf8-IsChar}
use mf.Editor.{Editor, nothing, selection, selected_text, delete_selection}
use mf.Editor.History.{checkpoint, coalesces}
use mf.Editor.Edit.{put, put_all, copy, cut, paste}
use mf.Editor.Caret.{none≢range, Holds, text-insert_char}
use mf.Editor.Undo.{contents}

take_inserted :
    (t s : List ℕ) (q c : ℕ)
    → q ≤ length t
    → take (q + 1) (take q t ++ c ∷ drop q t) ++ (s ++ drop (q + 1) (take q t ++ c ∷ drop q t))
      ≡ take q t ++ c ∷ (s ++ drop q t)
take_inserted t s zero c h = refl
take_inserted [] s (suc q) c h = absurd (omega arith)
take_inserted (x ∷ t) s (suc q) c h =
    let e : suc q + 1 ≡ suc (q + 1) = omega arith in
    rw e (ap (λ r. x ∷ r) (take_inserted t s q c (omega arith)))

-- The text put in stands at the caret, and the caret behind it.
put_all-contents :
    (ed : Editor) (s : List ℕ)
    → Holds ed.rope ed.caret
    → contents (put_all ed s) ≡ take ed.caret (contents ed) ++ (s ++ drop ed.caret (contents ed))
unfolding put_all
put_all-contents ed [] h = sym (take-append-drop ed.caret (contents ed))
put_all-contents ed (c ∷ s) h =
    let (holds, e) = text-insert_char ed.rope ed.caret c h in
    put_all-contents (put ed c) s holds ∙ rw e (take_inserted (contents ed) s ed.caret c h.1)

-- A checkpoint leaves what the clipboard works on.
abbrev Same : Editor → Editor → Type 0
Same after ed =
    (after.rope ≡ ed.rope)
    × (after.caret ≡ ed.caret)
    × (selection after ≡ selection ed)
    × (after.clip ≡ ed.clip)

checkpoint-Same : (ed : Editor) → Same (checkpoint ed nothing) ed
unfolding checkpoint selection
checkpoint-Same ed = elim (Bool-cases (coalesces ed.last nothing)) [
  | inl t ↦ rw t (refl, refl, refl, refl)
  | inr f ↦ rw f (refl, refl, refl, refl)
]

paste_lem :
    (ed : Editor)
    → Holds ed.rope ed.caret
    → selection ed ≡ none
    → contents (paste ed) ≡ take ed.caret (contents ed) ++ (ed.clip ++ drop ed.caret (contents ed))
unfolding paste delete_selection
paste_lem ed h n = elim (List-cases ed.clip) [
  | inl e ↦ rw (e, paste) (sym (take-append-drop ed.caret (contents ed)))
  | inr (c, s, e) ↦
      let marked = checkpoint ed nothing in
      let (r, p, k, l) = checkpoint-Same ed in
      let none_left : (delete_selection marked).0 ≡ marked = rw (k ∙ n, delete_selection) refl in
      let there : Holds marked.rope marked.caret = rw (r, p) h in
      rw (e, paste)
        (ap (λ (d : Editor). contents (put_all d (c ∷ s))) none_left
          ∙ put_all-contents marked (c ∷ s) there
          ∙ ap₂ (λ b q. take q (Edits.text b) ++ (c ∷ (s ++ drop q (Edits.text b)))) r p)
]

copy_lem :
    (ed : Editor) (s e : ℕ)
    → selection ed ≡ some (s, e)
    → let after = copy ed in
      (after.rope ≡ ed.rope)
      × (selection after ≡ some (s, e))
      × (after.clip ≡ codepoints_to_utf8 (slice ed.rope s e))
unfolding copy selected_text selection
copy_lem ed s e h = rw (h, copy, selected_text) (refl, h, refl)

cut_lem :
    (ed : Editor) (s e : ℕ)
    → selection ed ≡ some (s, e)
    → let after = cut ed in
      (after.rope ≡ delete ed.rope s (e - s))
      × (after.caret ≡ s)
      × (after.anchor ≡ none)
      × (after.clip ≡ codepoints_to_utf8 (slice ed.rope s e))
unfolding cut delete_selection
cut_lem ed s e h =
    let (r, k, l) = copy_lem ed s e h in
    let (r', p', k', l') = checkpoint-Same (copy ed) in
    let marked = checkpoint (copy ed) nothing in
    rw (h, cut)
      (rw (k' ∙ k, delete_selection) (ap (λ b. delete b s (e - s)) (r' ∙ r), refl, refl, l' ∙ l))

selection-none : (ed : Editor) → ed.anchor ≡ none → selection ed ≡ none
unfolding selection
selection-none ed a = rw (a, selection) refl

All-drop-take : (t : List ℕ) (s e : ℕ) → All IsChar t → All IsChar (drop s (take e t))
All-drop-take t zero zero h = tt
All-drop-take [] zero (suc e) h = tt
All-drop-take (c ∷ t) zero (suc e) h = (h.0, All-drop-take t 0 e h.1)
All-drop-take t (suc s) zero h = tt
All-drop-take [] (suc s) (suc e) h = tt
All-drop-take (c ∷ t) (suc s) (suc e) h = All-drop-take t s e h.1

-- The two ends of a cut, and the part cut out between them.
cut_parts :
    (t : List ℕ) (s d : ℕ)
    → s ≤ length t
    → let rest = take s t ++ drop (s + d) t in
      take s rest ++ (drop s (take (s + d) t) ++ drop s rest) ≡ t
cut_parts t zero d h = take-append-drop (0 + d) t
cut_parts [] (suc s) d h = absurd (omega arith)
cut_parts (c ∷ t) (suc s) d h =
    let e : suc s + d ≡ suc (s + d) = omega arith in
    rw e (ap (λ r. c ∷ r) (cut_parts t s d (omega arith)))

range-le : (p q s e : ℕ) → ◌≡◌ {A = Option (ℕ × ℕ)} (some (min p q, max p q)) (some (s, e)) → s ≤ e
range-le p q s e h =
    let same = some-injective _ _ h in omega (arith, ap (λ r. r.0) same, ap (λ r. r.1) same)

selection-le : (ed : Editor) (s e : ℕ) → selection ed ≡ some (s, e) → s ≤ e
unfolding selection
selection-le ed s e h = elim (Option-cases ed.anchor) [
  | inl n ↦ absurd (none≢range _ (sym (selection-none ed n) ∙ h))
  | inr (a, q) ↦ elim (Bool-cases (a == ed.caret)) [
    | inl t ↦ absurd (none≢range _ (rw (q, t, selection) at h))
    | inr f ↦ range-le a ed.caret s e (rw (q, f, selection) at h)
  ]
]

-- Pasting what was just cut gives back the text. What was selected lies in the text of a well-formed
-- buffer, and the text is one of characters.
pub paste-cut :
    (ed : Editor) (s e : ℕ)
    → IsValid ed.rope
    → selection ed ≡ some (s, e)
    → e ≤ length (contents ed)
    → All IsChar (contents ed)
    → contents (paste (cut ed)) ≡ contents ed
paste-cut ed s e v h n chars =
    let k = selection-le ed s e h in
    let (r, p, a, l) = cut_lem ed s e h in
    let t = contents ed in
    let d : s + (e - s) ≡ e = omega (arith, k) in
    let (w, f) = text-delete ed.rope s (e - s) v in
    let f : Edits.text (delete ed.rope s (e - s)) ≡ take s t ++ drop e t = rw d at f in
    let whole = rw d at (cut_parts t s (e - s) (omega (arith, k))) in
    let clip : (cut ed).clip ≡ drop s (take e t) =
      l ∙ rw (slice_lem ed.rope s e v) (codepoints_to_utf8-IsChar _ (All-drop-take t s e chars)) in
    let holds : Holds (cut ed).rope (cut ed).caret =
      rw (r, p)
        (w, omega (arith, k, ap length f, length-append (take s t) (drop e t), length-take s t)) in
    paste_lem (cut ed) holds (selection-none (cut ed) a) ∙ rw (clip, p, r) (rw f whole)

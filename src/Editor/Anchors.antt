-- ===== src/Editor/Anchors.antt =====
-- What the anchor of src/editor.rs does to typing, where it meets the caret.
use mf.Prelude.{
  ℕ, zero, suc, ◌+◌, ◌-◌, ◌<◌, ◌≤◌, ◌≡◌, refl, sym, ap, ap₂, ◌∙◌, arith, true, List, [], ◌∷◌, ◌++◌,
  none, some, length, take, drop, Bool-cases, inl, inr, lt→ltb,
}
use mathlib.Core.Path.{subst}
use mf.Rope.Buffer
use mf.Rope.Buffer.{delete, len}
use mf.Rope.Buffer.Edits
use mf.Rope.Buffer.Edits.{IsValid, text-delete, len-length}
use mf.Editor.{Editor, inserted, selection, delete_selection}
use mf.Editor.History.{checkpoint, coalesces}
use mf.Editor.Edit.{type_as, insert_char}
use mf.Editor.Motion.{pre_move, move_left, move_right}
use mf.Editor.Caret.{Holds, text-insert_char}
use mf.Editor.Undo.{contents}

-- The selection starts where the caret is.
abbrev pub Meets : Editor → Type 0
Meets ed = Holds ed.rope ed.caret × (ed.anchor ≡ some ed.caret)

-- A checkpoint leaves text, caret and anchor.
checkpoint-keeps :
    (ed : Editor)
    → ((checkpoint ed inserted).rope ≡ ed.rope)
      × ((checkpoint ed inserted).caret ≡ ed.caret)
      × ((checkpoint ed inserted).anchor ≡ ed.anchor)
unfolding checkpoint
checkpoint-keeps ed = elim (Bool-cases (coalesces ed.last inserted)) [
  | inl t ↦ rw t (refl, refl, refl)
  | inr f ↦ rw f (refl, refl, refl)
]

selection-Meets : (ed : Editor) → ed.anchor ≡ some ed.caret → selection ed ≡ none
unfolding selection
selection-Meets ed e = rw (e, selection) (ground arith)

delete_selection-none : (ed : Editor) → selection ed ≡ none → (delete_selection ed).0 ≡ ed
unfolding delete_selection
delete_selection-none ed e = rw (e, delete_selection) refl

-- Typing where nothing is selected.
insert_char-Meets :
    (ed : Editor) (c : ℕ)
    → Meets ed
    → let after = insert_char ed c in
      (after.rope ≡ Buffer.insert_char ed.rope ed.caret c)
      × (after.caret ≡ ed.caret + 1)
      × (after.anchor ≡ some ed.caret)
unfolding insert_char type_as
insert_char-Meets ed c (holds, e) =
    let (r, p, a) = checkpoint-keeps ed in
    let marked = checkpoint ed inserted in
    let n = selection-Meets marked (a ∙ e ∙ ap some (sym p)) in
    rw (delete_selection-none marked n)
      (ap₂ (λ b q. Buffer.insert_char b q c) r p, ap (λ q. q + 1) p, a ∙ e)

-- Deleting what was inserted.
text-delete_inserted :
    (t : List ℕ) (q c : ℕ)
    → q ≤ length t
    → take q (take q t ++ c ∷ drop q t) ++ drop (q + 1) (take q t ++ c ∷ drop q t) ≡ t
text-delete_inserted t zero c h = refl
text-delete_inserted [] (suc q) c h = absurd (omega arith)
text-delete_inserted (x ∷ t) (suc q) c h =
    let e : suc q + 1 ≡ suc (q + 1) = omega arith in
    rw e (ap (λ r. x ∷ r) (text-delete_inserted t q c (omega arith)))

selection_char :
    (ed : Editor) (q : ℕ) → ed.anchor ≡ some q → ed.caret ≡ q + 1 → selection ed ≡ some (q, q + 1)
unfolding selection
selection_char ed q a c = rw (a, c, selection) (ground arith)

delete_selection-char :
    (ed : Editor) (q : ℕ)
    → selection ed ≡ some (q, q + 1)
    → ((delete_selection ed).0.rope ≡ delete ed.rope q 1) × ((delete_selection ed).0.caret ≡ q)
unfolding delete_selection
delete_selection-char ed q e =
    let one : q + 1 - q ≡ 1 = omega arith in rw (e, delete_selection) (rw one refl, refl)

-- Typing where the character before the caret is selected.
insert_char-selected :
    (ed : Editor) (q d : ℕ)
    → ed.anchor ≡ some q
    → ed.caret ≡ q + 1
    → (insert_char ed d).rope ≡ Buffer.insert_char (delete ed.rope q 1) q d
unfolding insert_char type_as
insert_char-selected ed q d a c =
    let (r, p, k) = checkpoint-keeps ed in
    let marked = checkpoint ed inserted in
    let (s, t) = delete_selection-char marked q (selection_char marked q (k ∙ a) (p ∙ c)) in
    ap₂ (λ b at_pos. Buffer.insert_char b at_pos d) (s ∙ ap (λ b. delete b q 1) r) t

-- With an anchor at the caret the character typed there is selected, and the next one typed takes its place.
insert_char-insert_char :
    (ed : Editor) (c d : ℕ)
    → Meets ed
    → (selection (insert_char ed c) ≡ some (ed.caret, ed.caret + 1))
      × (contents (insert_char (insert_char ed c) d)
          ≡ take ed.caret (contents ed) ++ d ∷ drop ed.caret (contents ed))
insert_char-insert_char ed c d m =
    let q = ed.caret in
    let t = contents ed in
    let first = insert_char ed c in
    let (r, p, a) = insert_char-Meets ed c m in
    let (inserted_at, e) = text-insert_char ed.rope q c m.0 in
    let b = Buffer.insert_char ed.rope q c in
    let (v, f) = text-delete b q 1 inserted_at.0 in
    let same : Edits.text (delete b q 1) ≡ t = f ∙ rw e (text-delete_inserted t q c m.0.1) in
    (
      selection_char first q a p,
      ap Edits.text
            (insert_char-selected first q d a p ∙ ap (λ o. Buffer.insert_char (delete o q 1) q d) r)
          ∙ (text-insert_char (delete b q 1) q d (v, omega (arith, m.0.1, ap length same))).1
          ∙ rw same refl,
    )

move_left_lem :
    (ed : Editor)
    → ed.anchor ≡ none
    → let after = move_left ed true in
      (after.rope ≡ ed.rope) × (after.caret ≡ ed.caret - 1) × (after.anchor ≡ some ed.caret)
unfolding move_left pre_move
move_left_lem ed a = rw (a, pre_move) (refl, refl, refl)

move_right_lem :
    (ed : Editor) (q : ℕ)
    → ed.anchor ≡ some q
    → ed.caret < len ed.rope
    → let after = move_right ed true in
      (after.rope ≡ ed.rope) × (after.caret ≡ ed.caret + 1) × (after.anchor ≡ some q)
unfolding move_right pre_move
move_right_lem ed q a h = rw (a, pre_move) (rw (lt→ltb ed.caret (len ed.rope) h) (refl, refl, a))

-- Shift+Left and Shift+Right put the anchor at the caret.
pub move_right-move_left-Meets :
    (ed : Editor)
    → Holds ed.rope ed.caret
    → ed.anchor ≡ none
    → 0 < ed.caret
    → let after = move_right (move_left ed true) true in
      (after.rope ≡ ed.rope) × (after.caret ≡ ed.caret) × (after.anchor ≡ some ed.caret)
move_right-move_left-Meets ed (v, h) a p =
    let (r, c, k) = move_left_lem ed a in
    let inside : (move_left ed true).caret < len ed.rope = omega (arith, c, len-length ed.rope v) in
    let (r', c', k') =
      move_right_lem (move_left ed true) ed.caret k
        (subst (λ b. (move_left ed true).caret < len b) (sym r) inside) in
    (r' ∙ r, omega (arith, c', c), k')

-- After Shift+Left and Shift+Right nothing is selected, the character typed then is selected, and
-- the one typed after it takes its place, so that the first is lost. There was no anchor, the buffer
-- is well formed, and the caret lies in the text and not at 0.
pub insert_char-move_right :
    (ed : Editor) (c d : ℕ)
    → Holds ed.rope ed.caret
    → ed.anchor ≡ none
    → 0 < ed.caret
    → let shifted = move_right (move_left ed true) true in
      (selection shifted ≡ none)
      × (selection (insert_char shifted c) ≡ some (ed.caret, ed.caret + 1))
      × (contents (insert_char (insert_char shifted c) d)
          ≡ take ed.caret (contents ed) ++ d ∷ drop ed.caret (contents ed))
insert_char-move_right ed c d holds a p =
    let shifted = move_right (move_left ed true) true in
    let (r, at_pos, k) = move_right-move_left-Meets ed holds a p in
    let meets = k ∙ ap some (sym at_pos) in
    let there : Holds shifted.rope shifted.caret = rw (r, at_pos) holds in
    let (first, both) = insert_char-insert_char shifted c d (there, meets) in
    (
      selection-Meets shifted meets,
      first ∙ ap (λ q. some (q, q + 1)) at_pos,
      both ∙ ap₂ (λ b q. take q (Edits.text b) ++ d ∷ drop q (Edits.text b)) r at_pos,
    )

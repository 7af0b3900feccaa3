-- ===== src/Editor/Undo.antt =====
-- What undo and redo of src/editor.rs give back.
use mf.Prelude.{
  ℕ, suc, ◌-◌, ◌≡◌, ◌≢◌, refl, ap, ◌∙◌, arith, true, false, List, [], ◌∷◌, length, take, min, ltb,
  Bool-cases, Option-cases, List-cases, inl, inr, ltb→lt,
}
use mf.Rope.Buffer.{len}
use mf.Rope.Buffer.Edits
use mf.Rope.Buffer.Edits.{IsValid, len-length}
use mf.Rope.Buffer.Reads.{to_slice-text}
use mf.Rope.Utf8.{as_bytes, to_utf8}
use mf.Rope.Utf8.RoundTrip.{IsPlain, utf8_to_codepoints-codepoints_to_utf8}
use mf.Editor.{Last, nothing, inserted, deleted, Editor, text, selection, delete_selection, rope_of}
use mf.Editor.History.{checkpoint, coalesces, forget_oldest, undo, redo, undo_max}
use mf.Editor.Edit.{type_as, insert_char, insert_str, newline, backspace, delete_forward}
use mf.Editor.Forth.{format}
use mf.Editor.Caret.{Holds, text-from_utf8, from_utf8-IsValid}

-- The characters of the buffer.
abbrev pub contents : Editor → List ℕ
contents ed = Edits.text ed.rope

-- A well-formed editor with a text that survives the strings of undo.
abbrev pub IsUndoable : Editor → Type 0
IsUndoable ed = Holds ed.rope ed.caret × IsPlain (contents ed)

-- The text and the caret of one editor are those of another.
abbrev pub Restores : Editor → Editor → Type 0
Restores after ed = (contents after ≡ contents ed) × (after.caret ≡ ed.caret)

pub text-rope_of : (ed : Editor) → IsUndoable ed → Edits.text (rope_of (text ed)) ≡ contents ed
unfolding to_utf8
text-rope_of ed (holds, plain) =
    text-from_utf8 (as_bytes (text ed))
    ∙ rw (to_slice-text ed.rope holds.0) (utf8_to_codepoints-codepoints_to_utf8 (contents ed) plain)

caret-rope_of : (ed : Editor) → IsUndoable ed → min ed.caret (len (rope_of (text ed))) ≡ ed.caret
caret-rope_of ed (holds, plain) = omega (
  arith,
  holds.1,
  len-length (rope_of (text ed)) (from_utf8-IsValid (as_bytes (text ed))),
  ap length (text-rope_of ed (holds, plain)),
)

-- The last step to undo is a snapshot of `ed`.
abbrev pub Recorded : Editor → Editor → Type 0
Recorded ed after = (us : List (List ℕ × ℕ)) × (after.undos ≡ (text ed, ed.caret) ∷ us)

pub undo-Recorded :
    (ed after : Editor)
    → IsUndoable ed
    → Recorded ed after
    → Restores (undo after).0 ed × ((undo after).1 ≡ true)
unfolding undo
undo-Recorded ed after u (us, e) = rw (e, undo) ((text-rope_of ed u, caret-rope_of ed u), refl)

-- Where there is a step to undo, undo and then redo give back the text and the caret, as many steps
-- to undo as before, and the same steps to redo. The editor is well formed, and its text is one that
-- strings keep as it is.
pub redo-undo :
    (ed : Editor)
    → IsUndoable ed
    → ed.undos ≢ []
    → Restores (redo (undo ed).0).0 ed
      × ((redo (undo ed).0).1 ≡ true)
      × (length (redo (undo ed).0).0.undos ≡ length ed.undos)
      × ((redo (undo ed).0).0.redos ≡ ed.redos)
unfolding undo redo
redo-undo ed u n = elim (List-cases ed.undos) [
  | inl e ↦ absurd (n e)
  | inr (snapshot, us, e) ↦ rw (e, undo) ((text-rope_of ed u, caret-rope_of ed u), refl, refl, refl)
]

forget_oldest-cons :
    (x : List ℕ × ℕ) (us : List (List ℕ × ℕ))
    → (vs : List (List ℕ × ℕ)) × (forget_oldest (x ∷ us) ≡ x ∷ vs)
unfolding forget_oldest
forget_oldest-cons x us = elim (Bool-cases (ltb undo_max (length (x ∷ us)))) [
  | inr f ↦ (us, rw f refl)
  | inl t ↦
      let n : length (x ∷ us) - 1 ≡ suc (length us - 1) =
        omega (arith, ltb→lt undo_max (length (x ∷ us)) t) in
      (take (length us - 1) us, rw (t, n) refl)
]

checkpoint-Recorded :
    (ed : Editor) (kind : Last) → coalesces ed.last kind ≡ false → Recorded ed (checkpoint ed kind)
unfolding checkpoint
checkpoint-Recorded ed kind f =
    let (vs, e) = forget_oldest-cons (text ed, ed.caret) ed.undos in (vs, rw f e)

-- Deleting what is selected leaves the history.
delete_selection-undos :
    (ed : Editor)
    → ((delete_selection ed).0.undos ≡ ed.undos) × ((delete_selection ed).0.last ≡ ed.last)
unfolding delete_selection
delete_selection-undos ed = elim (Option-cases (selection ed)) [
  | inl e ↦ rw (e, delete_selection) (refl, refl)
  | inr (r, e) ↦ rw (e, delete_selection) (refl, refl)
]

cleared-Recorded :
    (ed : Editor) (kind : Last)
    → coalesces ed.last kind ≡ false
    → Recorded ed (delete_selection (checkpoint ed kind)).0
cleared-Recorded ed kind f =
    let (us, e) = checkpoint-Recorded ed kind f in
    (us, (delete_selection-undos (checkpoint ed kind)).0 ∙ e)

type_as-Recorded :
    (kind : Last) (ed : Editor) (c : ℕ)
    → coalesces ed.last kind ≡ false
    → Recorded ed (type_as kind ed c)
unfolding type_as
type_as-Recorded kind ed c f = cleared-Recorded ed kind f

backspace-Recorded : (ed : Editor) → coalesces ed.last deleted ≡ false → Recorded ed (backspace ed)
unfolding backspace
backspace-Recorded ed f =
    let cleared = (delete_selection (checkpoint ed deleted)).0 in
    elim (Bool-cases (delete_selection (checkpoint ed deleted)).1) [
      | inl t ↦ rw t (cleared-Recorded ed deleted f)
      | inr g ↦ elim (Bool-cases (ltb 0 cleared.caret)) [
        | inl t ↦ rw (g, t) (cleared-Recorded ed deleted f)
        | inr h ↦ rw (g, h) (cleared-Recorded ed deleted f)
      ]
    ]

delete_forward-Recorded :
    (ed : Editor) → coalesces ed.last deleted ≡ false → Recorded ed (delete_forward ed)
unfolding delete_forward
delete_forward-Recorded ed f =
    let cleared = (delete_selection (checkpoint ed deleted)).0 in
    elim (Bool-cases (delete_selection (checkpoint ed deleted)).1) [
      | inl t ↦ rw t (cleared-Recorded ed deleted f)
      | inr g ↦ elim (Bool-cases (ltb cleared.caret (len cleared.rope))) [
        | inl t ↦ rw (g, t) (cleared-Recorded ed deleted f)
        | inr h ↦ rw (g, h) (cleared-Recorded ed deleted f)
      ]
    ]

-- The edits that are one step each where they do not join the step before, with their kind.
pub data Change : Type 0 where
  typed : ℕ → Change
  new_line erased_back erased_forward formatted : Change

abbrev pub kind_of : Change → Last
kind_of (typed c) = inserted
kind_of new_line = nothing
kind_of erased_back = deleted
kind_of erased_forward = deleted
kind_of formatted = nothing

unfoldable pub change : Change → Editor → Editor
unfolding insert_char newline backspace delete_forward format
change (typed c) ed = insert_char ed c
change new_line ed = newline ed
change erased_back ed = backspace ed
change erased_forward ed = delete_forward ed
change formatted ed = format ed

change-Recorded :
    (ch : Change) (ed : Editor)
    → coalesces ed.last (kind_of ch) ≡ false
    → Recorded ed (change ch ed)
unfolding change
change-Recorded (typed c) ed f = type_as-Recorded inserted ed c f
change-Recorded new_line ed f = type_as-Recorded nothing ed 0x0A f
change-Recorded erased_back ed f = backspace-Recorded ed f
change-Recorded erased_forward ed f = delete_forward-Recorded ed f
change-Recorded formatted ed f = checkpoint-Recorded ed nothing f

-- Typing a character, a new line, erasing to either side or formatting, and then undo, gives back
-- the text and the caret, where the edit does not join the step before it. The editor is well
-- formed, and its text is one that strings keep as it is.
pub undo-change :
    (ch : Change) (ed : Editor)
    → IsUndoable ed
    → coalesces ed.last (kind_of ch) ≡ false
    → Restores (undo (change ch ed)).0 ed × ((undo (change ch ed)).1 ≡ true)
undo-change ch ed u f = undo-Recorded ed (change ch ed) u (change-Recorded ch ed f)

-- Further typing joins the step.
joined :
    (ed : Editor) (c : ℕ)
    → ed.last ≡ inserted
    → ((insert_char ed c).undos ≡ ed.undos) × ((insert_char ed c).last ≡ inserted)
unfolding insert_char checkpoint coalesces
joined ed c e = let (u, l) = delete_selection-undos (record ed { last = inserted }) in rw e (u, l)

insert_str-undos :
    (s : List ℕ) (ed : Editor) → ed.last ≡ inserted → (insert_str ed s).undos ≡ ed.undos
unfolding insert_str
insert_str-undos [] ed e = refl
insert_str-undos (c ∷ s) ed e =
    let (u, l) = joined ed c e in insert_str-undos s (insert_char ed c) l ∙ u

typed-last :
    (ed : Editor) (c : ℕ) → coalesces ed.last inserted ≡ false → (insert_char ed c).last ≡ inserted
unfolding insert_char checkpoint
typed-last ed c f =
    let marked = checkpoint ed inserted in (delete_selection-undos marked).1 ∙ rw f refl

-- A string of at least one character that is typed, with what was selected replaced, is taken back
-- by one undo, where it does not join the step before it. The editor is well formed, and its text is
-- one that strings keep as it is.
pub undo-insert_str :
    (ed : Editor) (c : ℕ) (s : List ℕ)
    → IsUndoable ed
    → coalesces ed.last inserted ≡ false
    → Restores (undo (insert_str ed (c ∷ s))).0 ed × ((undo (insert_str ed (c ∷ s))).1 ≡ true)
unfolding insert_str change
undo-insert_str ed c s u f =
    let (us, e) = change-Recorded (typed c) ed f in
    undo-Recorded ed (insert_str ed (c ∷ s)) u
      (us, insert_str-undos s (insert_char ed c) (typed-last ed c f) ∙ e)

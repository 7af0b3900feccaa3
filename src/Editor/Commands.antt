-- ===== src/Editor/Commands.antt =====
-- What holds of the editor of src/editor.rs between two commands, and that the edits keep it.
use mf.Prelude.{
  ℕ, ◌+◌, ◌-◌, ◌≤◌, ◌==◌, ◌≡◌, ◌≢◌, ◌⊎◌, refl, ap, arith, true, List, [], ◌∷◌, length, length-take,
  min, max, ltb, Bool-cases, Option-cases, List-cases, inl, inr, ltb→le,
}
use mf.Rope.Buffer.{len}
use mf.Rope.Utf8.{as_bytes}
use mf.Editor.{
  Last, nothing, inserted, deleted, Editor, text, selection, selected_text, delete_selection,
  rope_of,
}
use mf.Editor.History.{checkpoint, coalesces, forget_oldest, undo, redo}
use mf.Editor.Edit.{
  copy, cut, put, put_all, paste, type_as, insert_char, insert_str, backspace, delete_forward,
}
use mf.Editor.Caret.{Holds, from_utf8-IsValid, min_len-Holds, text-insert_char, delete-Holds}

-- At most 500 steps can be undone or redone, and a step that the next edit may join has none to redo.
abbrev pub IsHistory : Editor → Type 0
IsHistory ed = (length ed.undos + length ed.redos ≤ 500) × ((ed.last ≡ nothing) ⊎ (ed.redos ≡ []))

abbrev pub IsEditor : Editor → Type 0
IsEditor ed = Holds ed.rope ed.caret × IsHistory ed

length-forget_oldest : (us : List (List ℕ × ℕ)) → length us ≤ 501 → length (forget_oldest us) ≤ 500
unfolding forget_oldest
length-forget_oldest us h = elim (Bool-cases (ltb 500 (length us))) [
  | inl t ↦ rw t (omega (arith, length-take (length us - 1) us))
  | inr f ↦ rw f (ltb→le 500 (length us) f)
]

coalesces-nothing : (last kind : Last) → coalesces last kind ≡ true → last ≢ nothing
unfolding coalesces
coalesces-nothing last kind h = ground arith

pub checkpoint-IsEditor : (ed : Editor) (kind : Last) → IsEditor ed → IsEditor (checkpoint ed kind)
unfolding checkpoint
checkpoint-IsEditor ed kind (holds, (total, open_step)) =
    elim (Bool-cases (coalesces ed.last kind)) [
      | inl t ↦ rw t (
        holds,
        (
          total,
          elim open_step [
            | inl none_open ↦ absurd (coalesces-nothing ed.last kind t none_open)
            | inr empty ↦ inr empty
          ],
        ),
      )
      | inr f ↦ rw f (
        holds,
        (
          omega
              (arith, length-forget_oldest ((text ed, ed.caret) ∷ ed.undos) (omega (arith, total))),
          inr refl,
        ),
      )
    ]

pub delete_selection-IsEditor : (ed : Editor) → IsEditor ed → IsEditor (delete_selection ed).0
unfolding delete_selection selection
delete_selection-IsEditor ed (holds, history) = elim (Option-cases ed.anchor) [
  | inl e ↦ rw (e, selection, delete_selection) (holds, history)
  | inr (a, e) ↦ elim (Bool-cases (a == ed.caret)) [
    | inl t ↦ rw (e, t, selection, delete_selection) (holds, history)
    | inr f ↦
        let s = min a ed.caret in
        rw (e, f, selection, delete_selection)
          (delete-Holds ed.rope s (max a ed.caret - s) (holds.0, omega (arith, holds.1)), history)
  ]
]

put-IsEditor : (ed : Editor) (c : ℕ) → IsEditor ed → IsEditor (put ed c)
put-IsEditor ed c (holds, history) = ((text-insert_char ed.rope ed.caret c holds).0, history)

put_all-IsEditor : (ed : Editor) (s : List ℕ) → IsEditor ed → IsEditor (put_all ed s)
unfolding put_all
put_all-IsEditor ed [] v = v
put_all-IsEditor ed (c ∷ s) v = put_all-IsEditor (put ed c) s (put-IsEditor ed c v)

-- A checkpoint, and what was selected goes.
cleared-IsEditor :
    (ed : Editor) (kind : Last) → IsEditor ed → IsEditor (delete_selection (checkpoint ed kind)).0
cleared-IsEditor ed kind v =
    delete_selection-IsEditor (checkpoint ed kind) (checkpoint-IsEditor ed kind v)

pub type_as-IsEditor :
    (kind : Last) (ed : Editor) (c : ℕ) → IsEditor ed → IsEditor (type_as kind ed c)
unfolding type_as
type_as-IsEditor kind ed c v =
    put-IsEditor (delete_selection (checkpoint ed kind)).0 c (cleared-IsEditor ed kind v)

pub insert_str-IsEditor : (ed : Editor) (s : List ℕ) → IsEditor ed → IsEditor (insert_str ed s)
unfolding insert_str insert_char
insert_str-IsEditor ed [] v = v
insert_str-IsEditor ed (c ∷ s) v =
    insert_str-IsEditor (insert_char ed c) s (type_as-IsEditor inserted ed c v)

pub copy-IsEditor : (ed : Editor) → IsEditor ed → IsEditor (copy ed)
unfolding copy
copy-IsEditor ed v = elim (Option-cases (selected_text ed)) [
  | inl e ↦ rw (e, copy) v
  | inr (t, e) ↦ rw (e, copy) v
]

pub cut-IsEditor : (ed : Editor) → IsEditor ed → IsEditor (cut ed)
unfolding cut
cut-IsEditor ed v = elim (Option-cases (selection ed)) [
  | inl e ↦ rw (e, cut) v
  | inr (r, e) ↦ rw (e, cut) (cleared-IsEditor (copy ed) nothing (copy-IsEditor ed v))
]

pub paste-IsEditor : (ed : Editor) → IsEditor ed → IsEditor (paste ed)
unfolding paste
paste-IsEditor ed v = elim (List-cases ed.clip) [
  | inl e ↦ rw (e, paste) v
  | inr (c, s, e) ↦ rw (e, paste) (put_all-IsEditor _ (c ∷ s) (cleared-IsEditor ed nothing v))
]

pub backspace-IsEditor : (ed : Editor) → IsEditor ed → IsEditor (backspace ed)
unfolding backspace
backspace-IsEditor ed v =
    let cleared = (delete_selection (checkpoint ed deleted)).0 in
    let (holds, history) = cleared-IsEditor ed deleted v in
    elim (Bool-cases (delete_selection (checkpoint ed deleted)).1) [
      | inl t ↦ rw t (holds, history)
      | inr f ↦ elim (Bool-cases (ltb 0 cleared.caret)) [
        | inl t ↦
            rw (f, t)
              (
                delete-Holds cleared.rope (cleared.caret - 1) 1 (holds.0, omega (arith, holds.1)),
                history,
              )
        | inr g ↦ rw (f, g) (holds, history)
      ]
    ]

pub delete_forward-IsEditor : (ed : Editor) → IsEditor ed → IsEditor (delete_forward ed)
unfolding delete_forward
delete_forward-IsEditor ed v =
    let cleared = (delete_selection (checkpoint ed deleted)).0 in
    let (holds, history) = cleared-IsEditor ed deleted v in
    elim (Bool-cases (delete_selection (checkpoint ed deleted)).1) [
      | inl t ↦ rw t (holds, history)
      | inr f ↦ elim (Bool-cases (ltb cleared.caret (len cleared.rope))) [
        | inl t ↦ rw (f, t) (delete-Holds cleared.rope cleared.caret 1 holds, history)
        | inr g ↦ rw (f, g) (holds, history)
      ]
    ]

pub restore-Holds : (s : List ℕ) (caret : ℕ) → Holds (rope_of s) (min caret (len (rope_of s)))
restore-Holds s caret = min_len-Holds (rope_of s) caret (from_utf8-IsValid (as_bytes s))

pub undo-IsEditor : (ed : Editor) → IsEditor ed → IsEditor (undo ed).0
unfolding undo
undo-IsEditor ed (holds, (total, open_step)) = elim (List-cases ed.undos) [
  | inl e ↦ rw (e, undo) (holds, (total, open_step))
  | inr (snapshot, us, e) ↦
      rw (e, undo)
        (restore-Holds snapshot.0 snapshot.1, (omega (arith, total, ap length e), inl refl))
]

pub redo-IsEditor : (ed : Editor) → IsEditor ed → IsEditor (redo ed).0
unfolding redo
redo-IsEditor ed (holds, (total, open_step)) = elim (List-cases ed.redos) [
  | inl e ↦ rw (e, redo) (holds, (total, open_step))
  | inr (snapshot, rs, e) ↦
      rw (e, redo)
        (restore-Holds snapshot.0 snapshot.1, (omega (arith, total, ap length e), inl refl))
]

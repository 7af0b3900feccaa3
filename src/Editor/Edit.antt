-- ===== src/Editor/Edit.antt =====
-- src/editor.rs: the clipboard and the edits.
use mf.Prelude.{ℕ, ◌+◌, ◌-◌, ltb, true, List, [], ◌∷◌, none, some, if◌then◌else◌}
use mf.Rope.Buffer
use mf.Rope.Buffer.{len}
use mf.Editor.{
  Last, nothing, inserted, deleted, Editor, selection, selected_text, delete_selection, sync_goal,
}
use mf.Editor.History.{checkpoint}

abbrev pub clipboard : Editor → List ℕ
clipboard ed = ed.clip

unfoldable pub copy : Editor → Editor
unfolding selected_text
copy ed = elim (selected_text ed) [ none ↦ ed | some t ↦ record ed { clip = t } ]

unfoldable pub cut : Editor → Editor
unfolding copy checkpoint
cut ed = elim (selection ed) [
  | none ↦ ed
  | some range ↦ (delete_selection (checkpoint (copy ed) nothing)).0
]

-- A character at the caret.
abbrev pub put : Editor → ℕ → Editor
put ed c = record ed { rope = Buffer.insert_char ed.rope ed.caret c; caret = ed.caret + 1 }

-- The loop of `paste`.
unfoldable pub put_all : Editor → List ℕ → Editor
put_all ed [] = ed
put_all ed (c ∷ s) = put_all (put ed c) s

unfoldable pub paste : Editor → Editor
unfolding checkpoint delete_selection put_all
paste ed = elim ed.clip [
  | [] ↦ ed
  | c ∷ s ↦
      let cleared = (delete_selection (checkpoint ed nothing)).0 in
      sync_goal (record (put_all cleared (c ∷ s)) { dirty = true })
]

-- A typed character, as one of a kind of edits.
unfoldable pub type_as : Last → Editor → ℕ → Editor
unfolding checkpoint delete_selection
type_as kind ed c = record (sync_goal (put (delete_selection (checkpoint ed kind)).0 c)) {
  dirty = true;
}

unfoldable pub insert_char : Editor → ℕ → Editor
unfolding type_as
insert_char ed c = type_as inserted ed c

unfoldable pub insert_str : Editor → List ℕ → Editor
unfolding insert_char
insert_str ed [] = ed
insert_str ed (c ∷ s) = insert_str (insert_char ed c) s

unfoldable pub newline : Editor → Editor
unfolding type_as
newline ed = type_as nothing ed 0x0A

unfoldable pub backspace : Editor → Editor
unfolding checkpoint delete_selection
backspace ed =
    let marked = checkpoint ed deleted in
    let (cleared, done) = delete_selection marked in
    if done
    then cleared
    else if ltb 0 cleared.caret
    then record (sync_goal (record cleared {
      rope = Buffer.delete cleared.rope (cleared.caret - 1) 1;
      caret = cleared.caret - 1;
    })) { dirty = true }
    else cleared

unfoldable pub delete_forward : Editor → Editor
unfolding checkpoint delete_selection
delete_forward ed =
    let marked = checkpoint ed deleted in
    let (cleared, done) = delete_selection marked in
    if done
    then cleared
    else if ltb cleared.caret (len cleared.rope)
    then record cleared { rope = Buffer.delete cleared.rope cleared.caret 1; dirty = true }
    else cleared

-- ===== src/Tests/Editors.antt =====
-- Editors with a few characters.
use mf.Prelude.{
  ℕ, ◌-◌, ◌≡◌, ◌≢◌, refl, sym, ap, arith, Bool, true, false, inl, inr, List, [], ◌∷◌, ◌++◌, Option,
  none, some, length, take, drop, All, if◌then◌else◌,
}
use mathlib.Core.Path.{subst}
use mf.Rope.Buffer.{from_slice}
use mf.Rope.Buffer.Edits
use mf.Rope.Buffer.Edits.{text-from_slice}
use mf.Rope.Lines.{line_end}
use mf.Rope.Utf8.{utf8_to_codepoints, as_bytes, codepoints_to_utf8}
use mf.Rope.Utf8.Decode.{IsChar}
use mf.Rope.Utf8.RoundTrip.{
  newlines, skip_mark, utf8_to_codepoints-as_bytes, IsPlain, utf8_to_codepoints-codepoints_to_utf8,
}
use mf.Editor.{Editor, new, cursor, selection}
use mf.Editor.History.{coalesces, undo, redo}
use mf.Editor.Edit.{insert_char, insert_str, cut, paste}
use mf.Editor.Motion.{move_left, move_right, end}
use mf.Editor.Caret.{Holds}
use mf.Editor.Commands.{IsEditor}
use mf.Editor.Undo.{
  contents, IsUndoable, Restores, erased_back, change, redo-undo, undo-change, undo-insert_str,
}
use mf.Editor.Ends.{is_empty_line, end_lem}
use mf.Editor.Anchors.{insert_char-move_right}
use mf.Editor.Clipboard.{paste-cut}
use mf.Editor.Sessions
use mf.Editor.Sessions.{run, run-IsEditor}
use mf.Syntax.{highlight}
use mf.Syntax.Spans.{Covers, highlight-Covers}

abbrev no_read : List ℕ → Option (List ℕ)
no_read path = none

abbrev all_written : List ℕ → List ℕ → Bool
all_written path s = true

-- "a", a newline, a newline and "b"
abbrev sample_text : List ℕ
sample_text = 97 ∷ 10 ∷ 10 ∷ 98 ∷ []

-- The caret stands in the empty line.
abbrev sample : Editor
sample = record new { rope = from_slice sample_text; caret = 2 }

sample_text-IsPlain : IsPlain sample_text
sample_text-IsPlain = (
  (inl (omega arith), (inl (omega arith), (inl (omega arith), (inl (omega arith), tt)))),
  (omega arith, (omega arith, (omega arith, (omega arith, tt)))),
  refl,
)

contents-sample : contents sample ≡ sample_text
contents-sample = (text-from_slice sample_text).1

sample-Holds : Holds sample.rope sample.caret
sample-Holds = ((text-from_slice sample_text).0, omega (arith, ap length contents-sample))

sample-IsUndoable : IsUndoable sample
sample-IsUndoable = (sample-Holds, subst IsPlain (sym contents-sample) sample_text-IsPlain)

sample-IsEditor : IsEditor sample
sample-IsEditor = (sample-Holds, (omega arith, inl refl))

abbrev session : List Sessions.Command
session =
    Sessions.Command.insert_str (97 ∷ 10 ∷ [])
    ∷ Sessions.Command.undo
    ∷ Sessions.Command.newline
    ∷ []

run-IsEditor_example : IsEditor (run no_read all_written session new)
run-IsEditor_example = run-IsEditor no_read all_written session

undo-change_example :
    Restores (undo (change erased_back sample)).0 sample
    × ((undo (change erased_back sample)).1 ≡ true)
undo-change_example = undo-change erased_back sample sample-IsUndoable (unfold coalesces in refl)

undo-insert_str_example :
    Restores (undo (insert_str sample (99 ∷ 100 ∷ []))).0 sample
    × ((undo (insert_str sample (99 ∷ 100 ∷ []))).1 ≡ true)
undo-insert_str_example =
    undo-insert_str sample 99 (100 ∷ []) sample-IsUndoable (unfold coalesces in refl)

-- One step to undo.
abbrev stepped : Editor
stepped = record sample { undos = (97 ∷ [], 1) ∷ [] }

stepped-undos : stepped.undos ≢ []
stepped-undos e = cc

redo-undo_example :
    Restores (redo (undo stepped).0).0 stepped
    × ((redo (undo stepped).0).1 ≡ true)
    × (length (redo (undo stepped).0).0.undos ≡ length stepped.undos)
    × ((redo (undo stepped).0).0.redos ≡ stepped.redos)
redo-undo_example = redo-undo stepped sample-IsUndoable stepped-undos

utf8_to_codepoints-as_bytes_example :
    utf8_to_codepoints (as_bytes (0xFEFF ∷ 13 ∷ 10 ∷ []))
    ≡ newlines false (skip_mark (0xFEFF ∷ 13 ∷ 10 ∷ []))
utf8_to_codepoints-as_bytes_example =
    utf8_to_codepoints-as_bytes (0xFEFF ∷ 13 ∷ 10 ∷ [])
      (inr (omega arith), (inl (omega arith), (inl (omega arith), tt)))

utf8_to_codepoints-codepoints_to_utf8_example :
    utf8_to_codepoints (as_bytes (codepoints_to_utf8 sample_text)) ≡ sample_text
utf8_to_codepoints-codepoints_to_utf8_example =
    utf8_to_codepoints-codepoints_to_utf8 sample_text sample_text-IsPlain

end_lem_example : (end sample false).caret ≡ (
    if is_empty_line (Edits.text sample.rope) (cursor sample).0
    then line_end (Edits.text sample.rope) (cursor sample).0 - 1
    else line_end (Edits.text sample.rope) (cursor sample).0)
end_lem_example = end_lem sample false sample-IsEditor

insert_char-move_right_example :
    let shifted = move_right (move_left sample true) true in
    (selection shifted ≡ none)
    × (selection (insert_char shifted 99) ≡ some (2, 3))
    × (contents (insert_char (insert_char shifted 99) 100)
        ≡ take 2 (contents sample) ++ 100 ∷ drop 2 (contents sample))
insert_char-move_right_example =
    insert_char-move_right sample 99 100 sample-Holds refl (omega arith)

-- The newline behind the caret is selected.
abbrev selected : Editor
selected = record sample { anchor = some 3 }

paste-cut_example : contents (paste (cut selected)) ≡ contents selected
paste-cut_example =
    paste-cut selected 2 3 (sample-Holds.0) (unfold selection in refl)
      (omega (arith, ap length contents-sample))
      (subst (All IsChar) (sym contents-sample) sample_text-IsPlain.0)

highlight-Covers_example : Covers (highlight (58 ∷ 32 ∷ 97 ∷ [])) (58 ∷ 32 ∷ 97 ∷ [])
highlight-Covers_example = highlight-Covers (58 ∷ 32 ∷ 97 ∷ [])

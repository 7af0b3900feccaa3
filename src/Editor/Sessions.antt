-- ===== src/Editor/Sessions.antt =====
-- Sessions of commands of src/editor.rs.
use mf.Prelude.{
  ℕ, refl, arith, Bool, List, [], ◌∷◌, Option, some, Bool-cases, Option-cases, inl, inr,
}
use mf.Prelude.Int.{ℤ}
use mf.Rope.Utf8.{as_bytes}
use mf.Rope.Buffer.Edits.{len-length}
use mf.Editor.{Editor, nothing, inserted, new, text, rope_of}
use mf.Editor.History
use mf.Editor.Edit
use mf.Editor.Motion
use mf.Editor.Files
use mf.Editor.Forth.{format_forth}
use mf.Editor.History.{checkpoint}
use mf.Editor.Caret.{Holds, from_utf8-IsValid}
use mf.Editor.Commands.{
  IsEditor, checkpoint-IsEditor, undo-IsEditor, redo-IsEditor, type_as-IsEditor,
  insert_str-IsEditor, copy-IsEditor, cut-IsEditor, paste-IsEditor, backspace-IsEditor,
  delete_forward-IsEditor, restore-Holds,
}
use mf.Editor.Moves.{
  move_left-IsEditor, move_right-IsEditor, move_up-IsEditor, move_down-IsEditor, home-IsEditor,
  end-IsEditor, set_caret_rowcol-IsEditor, extend_to_rowcol-IsEditor, scroll-IsEditor,
  ensure_visible-IsEditor,
}

-- The public methods that change the editor.
pub data Command : Type 0 where
  insert_char : ℕ → Command
  insert_str : List ℕ → Command
  newline backspace delete_forward copy cut paste undo redo select_all clear_selection format
        new_file save :
      Command
  move_left move_right move_up move_down home end : Bool → Command
  set_caret_rowcol extend_to_rowcol : ℕ → ℕ → Command
  scroll : ℤ → Command
  ensure_visible : ℕ → Command
  set_text load save_as : List ℕ → Command

module _ (read : List ℕ → Option (List ℕ)) (write : List ℕ → List ℕ → Bool) where
  unfoldable pub step : Command → Editor → Editor
  step (insert_char c) ed = Edit.insert_char ed c
  step (insert_str s) ed = Edit.insert_str ed s
  step newline ed = Edit.newline ed
  step backspace ed = Edit.backspace ed
  step delete_forward ed = Edit.delete_forward ed
  step copy ed = Edit.copy ed
  step cut ed = Edit.cut ed
  step paste ed = Edit.paste ed
  step undo ed = (History.undo ed).0
  step redo ed = (History.redo ed).0
  step select_all ed = mf.Editor.select_all ed
  step clear_selection ed = mf.Editor.clear_selection ed
  step format ed = mf.Editor.Forth.format ed
  step new_file ed = Files.new_file ed
  step save ed = (Files.save read write ed).0
  step (move_left extend) ed = Motion.move_left ed extend
  step (move_right extend) ed = Motion.move_right ed extend
  step (move_up extend) ed = Motion.move_up ed extend
  step (move_down extend) ed = Motion.move_down ed extend
  step (home extend) ed = Motion.home ed extend
  step (end extend) ed = Motion.end ed extend
  step (set_caret_rowcol row col) ed = Motion.set_caret_rowcol ed row col
  step (extend_to_rowcol row col) ed = Motion.extend_to_rowcol ed row col
  step (scroll delta) ed = Motion.scroll ed delta
  step (ensure_visible rows) ed = Motion.ensure_visible ed rows
  step (set_text s) ed = mf.Editor.set_text ed s
  step (load path) ed = (Files.load read write ed path).0
  step (save_as path) ed = (Files.save_as read write ed path).0

  unfoldable pub run : List Command → Editor → Editor
  unfolding step
  run [] ed = ed
  run (c ∷ cs) ed = run cs (step c ed)

  set_text-IsEditor : (ed : Editor) (s : List ℕ) → IsEditor (mf.Editor.set_text ed s)
  set_text-IsEditor ed s = (restore-Holds s ed.caret, (omega arith, inl refl))

  -- A new text with the caret in front.
  opened-IsEditor : (ed : Editor) (s : List ℕ) → Holds (rope_of s) 0
  opened-IsEditor ed s = (from_utf8-IsValid (as_bytes s), omega arith)

  new_file-IsEditor : (ed : Editor) → IsEditor (Files.new_file ed)
  unfolding Files.new_file
  new_file-IsEditor ed = (opened-IsEditor ed [], (omega arith, inl refl))

  load-IsEditor :
      (ed : Editor) (path : List ℕ) → IsEditor ed → IsEditor (Files.load read write ed path).0
  unfolding Files.load
  load-IsEditor ed path v = elim (Option-cases (read path)) [
    | inl e ↦ rw (e, Files.load) v
    | inr (s, e) ↦ rw (e, Files.load) (opened-IsEditor ed s, (omega arith, inl refl))
  ]

  save-IsEditor : (ed : Editor) → IsEditor ed → IsEditor (Files.save read write ed).0
  unfolding Files.save
  save-IsEditor ed v = elim (Option-cases ed.path) [
    | inl e ↦ rw (e, Files.save) v
    | inr (p, e) ↦ elim (Bool-cases (write p (text ed))) [
      | inl t ↦ rw (e, t, Files.save) v
      | inr f ↦ rw (e, f, Files.save) v
    ]
  ]

  format-IsEditor : (ed : Editor) → IsEditor ed → IsEditor (mf.Editor.Forth.format ed)
  unfolding mf.Editor.Forth.format
  format-IsEditor ed v =
      let marked = checkpoint ed nothing in
      let history = (checkpoint-IsEditor ed nothing v).1 in
      (restore-Holds (format_forth (text marked)) marked.caret, history)

  step-IsEditor : (c : Command) (ed : Editor) → IsEditor ed → IsEditor (step c ed)
  unfolding step Edit.insert_char Edit.newline Files.save_as
  step-IsEditor (insert_char c) ed v = type_as-IsEditor inserted ed c v
  step-IsEditor (insert_str s) ed v = insert_str-IsEditor ed s v
  step-IsEditor newline ed v = type_as-IsEditor nothing ed 0x0A v
  step-IsEditor backspace ed v = backspace-IsEditor ed v
  step-IsEditor delete_forward ed v = delete_forward-IsEditor ed v
  step-IsEditor copy ed v = copy-IsEditor ed v
  step-IsEditor cut ed v = cut-IsEditor ed v
  step-IsEditor paste ed v = paste-IsEditor ed v
  step-IsEditor undo ed v = undo-IsEditor ed v
  step-IsEditor redo ed v = redo-IsEditor ed v
  step-IsEditor select_all ed (holds, history) =
      ((holds.0, omega (arith, len-length ed.rope holds.0)), history)
  step-IsEditor clear_selection ed v = v
  step-IsEditor format ed v = format-IsEditor ed v
  step-IsEditor new_file ed v = new_file-IsEditor ed
  step-IsEditor save ed v = save-IsEditor ed v
  step-IsEditor (move_left extend) ed v = move_left-IsEditor ed extend v
  step-IsEditor (move_right extend) ed v = move_right-IsEditor ed extend v
  step-IsEditor (move_up extend) ed v = move_up-IsEditor ed extend v
  step-IsEditor (move_down extend) ed v = move_down-IsEditor ed extend v
  step-IsEditor (home extend) ed v = home-IsEditor ed extend v
  step-IsEditor (end extend) ed v = end-IsEditor ed extend v
  step-IsEditor (set_caret_rowcol row col) ed v = set_caret_rowcol-IsEditor ed row col v
  step-IsEditor (extend_to_rowcol row col) ed v = extend_to_rowcol-IsEditor ed row col v
  step-IsEditor (scroll delta) ed v = scroll-IsEditor ed delta v
  step-IsEditor (ensure_visible rows) ed v = ensure_visible-IsEditor ed rows v
  step-IsEditor (set_text s) ed v = set_text-IsEditor ed s
  step-IsEditor (load path) ed v = load-IsEditor ed path v
  step-IsEditor (save_as path) ed v = save-IsEditor (record ed { path = some path }) v

  run-IsEditor_from : (cs : List Command) (ed : Editor) → IsEditor ed → IsEditor (run cs ed)
  unfolding run
  run-IsEditor_from [] ed v = v
  run-IsEditor_from (c ∷ cs) ed v = run-IsEditor_from cs (step c ed) (step-IsEditor c ed v)

  -- After any commands to a new editor the buffer is well formed, the caret lies in the text, undo
  -- and redo hold at most 500 steps together, and where the last edit can be joined by the next
  -- there is no step to redo. Files read and write in any way.
  pub run-IsEditor : (cs : List Command) → IsEditor (run cs new)
  run-IsEditor cs = run-IsEditor_from cs new ((inr refl, omega arith), (omega arith, inl refl))

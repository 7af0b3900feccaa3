-- ===== src/Editor.antt =====
-- The workspace editor, src/editor.rs: a caret, a selection, a clipboard and undo over a rope buffer.
-- A method on `&mut self` returns the new editor. A `String` is the list of its characters, a vector that
-- is used as a stack stands with its last element first, and a path is its text.
pub mod History
pub mod Edit
pub mod Motion
pub mod Files
pub mod Forth
pub mod Caret
pub mod Commands
pub mod Moves
pub mod Sessions
pub mod Undo
pub mod Ends
pub mod Anchors
pub mod Clipboard
use mf.Prelude.{
  ℕ, ◌+◌, ◌-◌, ◌==◌, ltb, min, max, Bool, true, false, not, List, [], ◌∷◌, Option, none, some,
  if◌then◌else◌,
}
use mf.Rope.Buffer
use mf.Rope.Buffer.{RopeBuffer, len, slice, get_line, delete, offset_to_line_col}
use mf.Rope.Utf8.{as_bytes, from_utf8, to_utf8, codepoints_to_utf8}

pub data Last : Type 0 where
  nothing inserted deleted : Last

pub record Editor : Type 0 where
  pub rope : RopeBuffer
  pub caret : ℕ
  -- The fixed end of the selection.
  pub anchor : Option ℕ
  pub goal_col : ℕ
  pub clip : List ℕ
  pub undos : List (List ℕ × ℕ)
  pub redos : List (List ℕ × ℕ)
  pub last : Last
  pub top : ℕ
  pub path : Option (List ℕ)
  pub dirty : Bool

abbrev pub new : Editor
new = record {
  rope = Buffer.new;
  caret = 0;
  anchor = none;
  goal_col = 0;
  clip = [];
  undos = [];
  redos = [];
  last = nothing;
  top = 0;
  path = none;
  dirty = false;
}

-- The string of the whole buffer.
abbrev pub text : Editor → List ℕ
text ed = to_utf8 ed.rope

abbrev pub line_count : Editor → ℕ
line_count ed = Buffer.line_count ed.rope

abbrev pub line : Editor → ℕ → List ℕ
line ed row = codepoints_to_utf8 (get_line ed.rope row)

abbrev pub cursor : Editor → ℕ × ℕ
cursor ed = offset_to_line_col ed.rope ed.caret

abbrev pub offset_rowcol : Editor → ℕ → ℕ × ℕ
offset_rowcol ed off = offset_to_line_col ed.rope off

-- `RopeBuffer::from_utf8(s.as_bytes())`
abbrev pub rope_of : List ℕ → RopeBuffer
rope_of s = from_utf8 (as_bytes s)

abbrev pub set_text : Editor → List ℕ → Editor
set_text ed s = record ed {
  rope = rope_of s;
  caret = min ed.caret (len (rope_of s));
  anchor = none;
  undos = [];
  redos = [];
  last = nothing;
}

-- The start and the end of the selection, if it is not empty.
unfoldable pub selection : Editor → Option (ℕ × ℕ)
selection ed = elim ed.anchor [
  | none ↦ none
  | some a ↦ if a == ed.caret then none else some (min a ed.caret, max a ed.caret)
]

unfoldable pub selected_text : Editor → Option (List ℕ)
unfolding selection
selected_text ed = elim (selection ed) [
  | none ↦ none
  | some (s, e) ↦ some (codepoints_to_utf8 (slice ed.rope s e))
]

abbrev pub select_all : Editor → Editor
select_all ed = record ed { anchor = some 0; caret = len ed.rope }

abbrev pub clear_selection : Editor → Editor
clear_selection ed = record ed { anchor = none }

-- The editor, and whether there was a selection.
unfoldable pub delete_selection : Editor → Editor × Bool
unfolding selection
delete_selection ed = elim (selection ed) [
  | none ↦ (ed, false)
  | some (s, e) ↦
      (record ed { rope = delete ed.rope s (e - s); caret = s; anchor = none; dirty = true }, true)
]

abbrev pub sync_goal : Editor → Editor
sync_goal ed = record ed { goal_col = (cursor ed).1 }

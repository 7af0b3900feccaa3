-- ===== src/Editor/History.antt =====
-- src/editor.rs: checkpoints, undo and redo.
use mf.Prelude.{
  ℕ, none, ◌-◌, ltb, min, Bool, true, false, List, [], ◌∷◌, length, take, if◌then◌else◌,
}
use mf.Rope.Buffer.{len}
use mf.Editor.{Last, nothing, inserted, deleted, Editor, text, rope_of}

-- A run of insertions, or of deletions, is one step.
unfoldable pub coalesces : Last → Last → Bool
coalesces inserted inserted = true
coalesces deleted deleted = true
coalesces last kind = false

abbrev pub undo_max : ℕ
undo_max = 500

-- `if self.undo.len() > 500 { self.undo.remove(0) }`: the oldest one goes.
unfoldable pub forget_oldest : List (List ℕ × ℕ) → List (List ℕ × ℕ)
forget_oldest undos = if ltb undo_max (length undos) then take (length undos - 1) undos else undos

unfoldable pub checkpoint : Editor → Last → Editor
unfolding coalesces forget_oldest
checkpoint ed kind = if coalesces ed.last kind then record ed { last = kind } else record ed {
  undos = forget_oldest ((text ed, ed.caret) ∷ ed.undos);
  redos = [];
  last = kind;
}

-- The buffer of a snapshot.
abbrev pub restore : Editor → List ℕ × ℕ → Editor
restore ed snapshot = record ed {
  rope = rope_of snapshot.0;
  caret = min snapshot.1 (len (rope_of snapshot.0));
  anchor = none;
  last = nothing;
  dirty = true;
}

unfoldable pub undo : Editor → Editor × Bool
undo ed = elim ed.undos [
  | [] ↦ (ed, false)
  | snapshot ∷ undos ↦
      (restore (record ed { undos = undos; redos = (text ed, ed.caret) ∷ ed.redos }) snapshot, true)
]

unfoldable pub redo : Editor → Editor × Bool
redo ed = elim ed.redos [
  | [] ↦ (ed, false)
  | snapshot ∷ redos ↦
      (restore (record ed { redos = redos; undos = (text ed, ed.caret) ∷ ed.undos }) snapshot, true)
]

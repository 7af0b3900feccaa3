-- ===== src/Editor/Files.antt =====
-- src/editor.rs: files. The file system is two parameters: what reading a path gives, as the string
-- that `from_utf8_lossy` makes of it, and whether a write succeeds.
use mf.Prelude.{ℕ, Bool, true, false, List, [], Option, none, some, if◌then◌else◌}
use mf.Editor.{Editor, set_text, text}

unfoldable pub new_file : Editor → Editor
new_file ed = record (set_text ed []) { caret = 0; top = 0; path = none; dirty = false }

module _ (read : List ℕ → Option (List ℕ)) (write : List ℕ → List ℕ → Bool) where
  -- The editor, and whether the call succeeds.
  unfoldable pub load : Editor → List ℕ → Editor × Bool
  load ed path = elim (read path) [
    | none ↦ (ed, false)
    | some s ↦
        (record (set_text ed s) { caret = 0; top = 0; path = some path; dirty = false }, true)
  ]

  unfoldable pub save : Editor → Editor × Bool
  save ed = elim ed.path [
    | none ↦ (ed, false)
    | some path ↦ if write path (text ed) then (record ed { dirty = false }, true) else (ed, false)
  ]

  unfoldable pub save_as : Editor → List ℕ → Editor × Bool
  unfolding save
  save_as ed path = save (record ed { path = some path })

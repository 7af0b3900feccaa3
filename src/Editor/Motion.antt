-- ===== src/Editor/Motion.antt =====
-- src/editor.rs: moving the caret and the visible window.
use mf.Prelude.{
  ℕ, ◌+◌, ◌-◌, ◌==◌, ltb, leb, min, ◌&&◌, Bool, true, false, Option, none, some, if◌then◌else◌,
}
use mf.Prelude.Int.{ℤ, pos_part, neg_part}
use mf.Rope.Buffer
use mf.Rope.Buffer.{len, char_at, line_range, line_col_to_offset}
use mf.Editor.{nothing, Editor, cursor, sync_goal}

unfoldable pub is_newline : Option ℕ → Bool
is_newline none = false
is_newline (some c) = c == 0x0A

-- With `extend` the selection grows from where it starts.
unfoldable pub pre_move : Editor → Bool → Editor
pre_move ed false = record ed { anchor = none; last = nothing }
pre_move ed true = elim ed.anchor [
  | none ↦ record ed { anchor = some ed.caret; last = nothing }
  | some a ↦ record ed { last = nothing }
]

unfoldable pub move_left : Editor → Bool → Editor
unfolding pre_move
move_left ed extend =
    let held = pre_move ed extend in sync_goal (record held { caret = held.caret - 1 })

unfoldable pub move_right : Editor → Bool → Editor
unfolding pre_move
move_right ed extend =
    let held = pre_move ed extend in
    sync_goal
      (if ltb held.caret (len held.rope) then record held { caret = held.caret + 1 } else held)

unfoldable pub move_up : Editor → Bool → Editor
unfolding pre_move
move_up ed extend =
    let held = pre_move ed extend in
    let row = (cursor held).0 in
    if ltb 0 row
    then record held { caret = line_col_to_offset held.rope (row - 1) held.goal_col }
    else held

unfoldable pub move_down : Editor → Bool → Editor
unfolding pre_move
move_down ed extend =
    let held = pre_move ed extend in
    let row = (cursor held).0 in
    if ltb (row + 1) (Buffer.line_count held.rope)
    then record held { caret = line_col_to_offset held.rope (row + 1) held.goal_col }
    else held

unfoldable pub home : Editor → Bool → Editor
unfolding pre_move
home ed extend =
    let held = pre_move ed extend in
    sync_goal (elim (line_range held.rope (cursor held).0) [
      | none ↦ held
      | some (start, end) ↦ record held { caret = start }
    ])

-- Where `end` puts the caret, given the end of the line.
unfoldable pub end_caret : Editor → ℕ → ℕ
unfolding is_newline
end_caret ed end = if is_newline (char_at ed.rope (end - 1)) && ltb 0 end then end - 1 else end

unfoldable pub end : Editor → Bool → Editor
unfolding pre_move end_caret
end ed extend =
    let held = pre_move ed extend in
    sync_goal (elim (line_range held.rope (cursor held).0) [
      | none ↦ held
      | some (start, last) ↦ record held { caret = end_caret held last }
    ])

abbrev pub clamp_row : Editor → ℕ → ℕ
clamp_row ed row = min row (Buffer.line_count ed.rope - 1)

unfoldable pub set_caret_rowcol : Editor → ℕ → ℕ → Editor
set_caret_rowcol ed row col = sync_goal (record ed {
  caret = line_col_to_offset ed.rope (clamp_row ed row) col;
  anchor = none;
  last = nothing;
})

unfoldable pub extend_to_rowcol : Editor → ℕ → ℕ → Editor
unfolding pre_move
extend_to_rowcol ed row col =
    let held = pre_move ed true in
    sync_goal (record held { caret = line_col_to_offset held.rope (clamp_row held row) col })

-- `(top as i32 + delta).clamp(0, max)`, for fewer than 2 ^ 31 lines.
unfoldable pub scroll : Editor → ℤ → Editor
scroll ed delta = record ed {
  top = min (ed.top + pos_part delta - neg_part delta) (Buffer.line_count ed.rope - 1);
}

unfoldable pub ensure_visible : Editor → ℕ → Editor
ensure_visible ed rows =
    let row = (cursor ed).0 in
    if ltb row ed.top
    then record ed { top = row }
    else if ltb 0 rows && leb (ed.top + rows) row
    then record ed { top = row + 1 - rows }
    else ed

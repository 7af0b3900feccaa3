-- ===== src/Editor/Moves.antt =====
-- Moving keeps the editor well formed.
use mf.Prelude.{
  ℕ, ◌+◌, ◌-◌, ◌<◌, ◌≤◌, ◌&&◌, ◌≡◌, refl, arith, Bool, true, false, length, min, ltb, Bool-cases,
  Option-cases, inl, inr, ltb→lt, leb,
}
use mf.Prelude.Int.{ℤ}
use mf.Rope.Lines.{count_newlines-take-le}
use mf.Rope.Buffer
use mf.Rope.Buffer.{len, char_at, line_range, line_col_to_offset}
use mf.Rope.Buffer.Edits
use mf.Rope.Buffer.Edits.{IsValid, len-length}
use mf.Rope.Buffer.Positions.{offset_to_line_col_lem}
use mf.Editor.{Editor, cursor}
use mf.Editor.Motion.{
  is_newline, pre_move, move_left, move_right, move_up, move_down, home, end, end_caret, clamp_row,
  set_caret_rowcol, extend_to_rowcol, scroll, ensure_visible,
}
use mf.Editor.Caret.{line_col_to_offset-Holds, line_range-Holds, line_count_lem}
use mf.Editor.Commands.{IsEditor}

-- What `pre_move` leaves.
abbrev pub Held : Editor → Editor → Type 0
Held ed held = (held.rope ≡ ed.rope) × (held.caret ≡ ed.caret) × IsEditor held

pub pre_move-Held : (ed : Editor) (extend : Bool) → IsEditor ed → Held ed (pre_move ed extend)
unfolding pre_move
pre_move-Held ed false (holds, (total, step)) = (refl, refl, (holds, (total, inl refl)))
pre_move-Held ed true (holds, (total, step)) = elim (Option-cases ed.anchor) [
  | inl e ↦ rw (e, pre_move) (refl, refl, (holds, (total, inl refl)))
  | inr (a, e) ↦ rw (e, pre_move) (refl, refl, (holds, (total, inl refl)))
]

-- The caret is in a row of the buffer.
pub cursor_row : (ed : Editor) → IsValid ed.rope → (cursor ed).0 < Buffer.line_count ed.rope
cursor_row ed v =
    let t = Edits.text ed.rope in
    let at_pos = min ed.caret (length t) in
    rw (offset_to_line_col_lem ed.rope ed.caret v)
      (omega (arith, line_count_lem ed.rope v, count_newlines-take-le t at_pos))

at_row-IsEditor :
    (ed : Editor) (row col : ℕ)
    → IsEditor ed
    → row < Buffer.line_count ed.rope
    → IsEditor (record ed { caret = line_col_to_offset ed.rope row col })
at_row-IsEditor ed row col (holds, history) h =
    (line_col_to_offset-Holds ed.rope row col holds.0 h, history)

pub move_left-IsEditor :
    (ed : Editor) (extend : Bool) → IsEditor ed → IsEditor (move_left ed extend)
unfolding move_left
move_left-IsEditor ed extend v =
    let (r, c, (holds, history)) = pre_move-Held ed extend v in
    ((holds.0, omega (arith, holds.1)), history)

pub move_right-IsEditor :
    (ed : Editor) (extend : Bool) → IsEditor ed → IsEditor (move_right ed extend)
unfolding move_right
move_right-IsEditor ed extend v =
    let held = pre_move ed extend in
    let (r, c, (holds, history)) = pre_move-Held ed extend v in
    elim (Bool-cases (ltb held.caret (len held.rope))) [
      | inl t ↦ rw t (
        (holds.0, omega (arith, ltb→lt held.caret (len held.rope) t, len-length held.rope holds.0)),
        history,
      )
      | inr f ↦ rw f (holds, history)
    ]

pub move_up-IsEditor : (ed : Editor) (extend : Bool) → IsEditor ed → IsEditor (move_up ed extend)
unfolding move_up
move_up-IsEditor ed extend v =
    let held = pre_move ed extend in
    let (r, c, h) = pre_move-Held ed extend v in
    elim (Bool-cases (ltb 0 (cursor held).0)) [
      | inl t ↦ rw t (
          at_row-IsEditor held ((cursor held).0 - 1) held.goal_col h
            (omega (arith, cursor_row held h.0.0)))
      | inr f ↦ rw f h
    ]

pub move_down-IsEditor :
    (ed : Editor) (extend : Bool) → IsEditor ed → IsEditor (move_down ed extend)
unfolding move_down
move_down-IsEditor ed extend v =
    let held = pre_move ed extend in
    let (r, c, h) = pre_move-Held ed extend v in
    elim (Bool-cases (ltb ((cursor held).0 + 1) (Buffer.line_count held.rope))) [
      | inl t ↦ rw t (at_row-IsEditor held ((cursor held).0 + 1) held.goal_col h (ltb→lt _ _ t))
      | inr f ↦ rw f h
    ]

pub home-IsEditor : (ed : Editor) (extend : Bool) → IsEditor ed → IsEditor (home ed extend)
unfolding home
home-IsEditor ed extend v =
    let held = pre_move ed extend in
    let (r, c, (holds, history)) = pre_move-Held ed extend v in
    elim (Option-cases (line_range held.rope (cursor held).0)) [
      | inl e ↦ rw e (holds, history)
      | inr ((s, f), e) ↦
          rw e ((line_range-Holds held.rope (cursor held).0 s f holds.0 e).0, history)
    ]

end_caret-le : (ed : Editor) (last : ℕ) → end_caret ed last ≤ last
unfolding end_caret
end_caret-le ed last = elim (Bool-cases (is_newline (char_at ed.rope (last - 1)) && ltb 0 last)) [
  | inl t ↦ rw t (omega arith)
  | inr f ↦ rw f (omega arith)
]

pub end-IsEditor : (ed : Editor) (extend : Bool) → IsEditor ed → IsEditor (end ed extend)
unfolding end
end-IsEditor ed extend v =
    let held = pre_move ed extend in
    let (r, c, (holds, history)) = pre_move-Held ed extend v in
    elim (Option-cases (line_range held.rope (cursor held).0)) [
      | inl e ↦ rw e (holds, history)
      | inr ((s, f), e) ↦
          let h = (line_range-Holds held.rope (cursor held).0 s f holds.0 e).1 in
          rw e ((holds.0, omega (arith, h.1, end_caret-le held f)), history)
    ]

clamp_row_lem :
    (ed : Editor) (row : ℕ) → IsValid ed.rope → clamp_row ed row < Buffer.line_count ed.rope
clamp_row_lem ed row v = omega (arith, line_count_lem ed.rope v)

pub set_caret_rowcol-IsEditor :
    (ed : Editor) (row col : ℕ) → IsEditor ed → IsEditor (set_caret_rowcol ed row col)
unfolding set_caret_rowcol
set_caret_rowcol-IsEditor ed row col (holds, (total, step)) = (
  line_col_to_offset-Holds ed.rope (clamp_row ed row) col holds.0 (clamp_row_lem ed row holds.0),
  (total, inl refl),
)

pub extend_to_rowcol-IsEditor :
    (ed : Editor) (row col : ℕ) → IsEditor ed → IsEditor (extend_to_rowcol ed row col)
unfolding extend_to_rowcol
extend_to_rowcol-IsEditor ed row col v =
    let held = pre_move ed true in
    let (r, c, h) = pre_move-Held ed true v in
    at_row-IsEditor held (clamp_row held row) col h (clamp_row_lem held row h.0.0)

pub scroll-IsEditor : (ed : Editor) (delta : ℤ) → IsEditor ed → IsEditor (scroll ed delta)
unfolding scroll
scroll-IsEditor ed delta v = v

pub ensure_visible-IsEditor :
    (ed : Editor) (rows : ℕ) → IsEditor ed → IsEditor (ensure_visible ed rows)
unfolding ensure_visible
ensure_visible-IsEditor ed rows v = elim (Bool-cases (ltb (cursor ed).0 ed.top)) [
  | inl t ↦ rw t v
  | inr f ↦ elim (Bool-cases (ltb 0 rows && leb (ed.top + rows) (cursor ed).0)) [
    | inl t ↦ rw (f, t) v
    | inr g ↦ rw (f, g) v
  ]
]

-- ===== src/Editor/Ends.antt =====
-- Where `end` of src/editor.rs puts the caret.
use mf.Prelude.{
  ℕ, zero, suc, ◌+◌, ◌-◌, ◌<◌, ◌≤◌, ◌==◌, ◌&&◌, ◌≡◌, refl, ◌∙◌, arith, Bool, true, false, List, [],
  ◌∷◌, some, ltb, leb, get_elem?, if◌then◌else◌,
}
use mf.Rope.Node.{count_newlines}
use mf.Rope.Lines.{line_begin, line_end, line_begin-le-line_end, line_begin-suc}
use mf.Rope.Buffer.{line_range}
use mf.Rope.Buffer.Edits
use mf.Rope.Buffer.Edits.{IsValid}
use mf.Rope.Buffer.Reads.{char_at_lem, line_range_lem}
use mf.Editor.{Editor, cursor}
use mf.Editor.Motion.{is_newline, pre_move, end, end_caret}
use mf.Editor.Caret.{line_count_lem}
use mf.Editor.Commands.{IsEditor}
use mf.Editor.Moves.{pre_move-Held, cursor_row}

-- A line that is not the last ends at a newline.
get_elem?-line_end :
    (buf : List ℕ) (i : ℕ)
    → i < count_newlines buf
    → is_newline (get_elem? buf (line_end buf i)) ≡ true
unfolding line_end count_newlines is_newline
get_elem?-line_end [] i h = absurd (omega arith)
get_elem?-line_end (cp ∷ buf) zero h = ground (arith, get_elem?-line_end buf 0)
get_elem?-line_end (cp ∷ buf) (suc i) h =
    ground (arith, get_elem?-line_end buf i, get_elem?-line_end buf (suc i))

-- No newline stands in a line.
get_elem?-in_line :
    (buf : List ℕ) (i p : ℕ)
    → line_begin buf i ≤ p
    → p < line_end buf i
    → is_newline (get_elem? buf p) ≡ false
unfolding line_begin line_end is_newline
get_elem?-in_line [] i p h k = absurd (omega arith)
get_elem?-in_line (cp ∷ buf) zero zero h k = ground arith
get_elem?-in_line (cp ∷ buf) zero (suc p) h k = ground (arith, get_elem?-in_line buf 0 p)
get_elem?-in_line (cp ∷ buf) (suc i) zero h k = absurd (omega arith)
get_elem?-in_line (cp ∷ buf) (suc i) (suc p) h k =
    ground (arith, get_elem?-in_line buf i p, get_elem?-in_line buf (suc i) p)

-- An empty line that is not the first.
abbrev pub is_empty_line : List ℕ → ℕ → Bool
is_empty_line t row = line_begin t row == line_end t row && ltb 0 row

line_begin_first : (t : List ℕ) → line_begin t 0 ≡ 0
unfolding line_begin
line_begin_first t = refl

end_caret_lem :
    (ed : Editor) (row : ℕ)
    → IsValid ed.rope
    → row ≤ count_newlines (Edits.text ed.rope)
    → let t = Edits.text ed.rope in
      end_caret ed (line_end t row)
      ≡ (if is_empty_line t row then line_end t row - 1 else line_end t row)
unfolding end_caret
end_caret_lem ed zero v h =
    let t = Edits.text ed.rope in
    rw (char_at_lem ed.rope (line_end t 0 - 1) v)
      (ground (arith, get_elem?-in_line t 0 (line_end t 0 - 1), line_begin_first t))
end_caret_lem ed (suc row) v h =
    let t = Edits.text ed.rope in
    rw (char_at_lem ed.rope (line_end t (suc row) - 1) v) (
      ground (
        arith,
        get_elem?-in_line t (suc row) (line_end t (suc row) - 1),
        get_elem?-line_end t row,
        line_begin-suc t row,
        line_begin-le-line_end t (suc row),
      ))

held_end :
    (held : Editor)
    → IsEditor held
    → (pre : Editor) → pre.rope ≡ held.rope
    → pre.caret ≡ held.caret
    → line_range pre.rope (cursor pre).0
      ≡ some (
        line_begin (Edits.text held.rope) (cursor held).0,
        line_end (Edits.text held.rope) (cursor held).0,
      )
held_end held ((v, h), history) pre r c =
    let row = (cursor held).0 in
    let n : row < count_newlines (Edits.text held.rope) + 1 =
      omega (arith, cursor_row held v, line_count_lem held.rope v) in
    let inside : leb (count_newlines (Edits.text held.rope) + 1) row ≡ false = ground arith in
    rw (r, c) (line_range_lem held.rope row v ∙ rw inside refl)

-- In a well-formed editor, `end` puts the caret at the end of its line, before the newline; but on
-- an empty line that is not the first it puts it one place before that, at the end of the line
-- above.
pub end_lem :
    (ed : Editor) (extend : Bool)
    → IsEditor ed
    → let t = Edits.text ed.rope in
      let row = (cursor ed).0 in
      (end ed extend).caret ≡ (if is_empty_line t row then line_end t row - 1 else line_end t row)
unfolding end
end_lem ed extend v =
    let held = pre_move ed extend in
    let (r, c, w) = pre_move-Held ed extend v in
    let row = (cursor ed).0 in
    let n : row ≤ count_newlines (Edits.text ed.rope) =
      omega (arith, cursor_row ed v.0.0, line_count_lem ed.rope v.0.0) in
    rw (held_end ed v held r c, r) (end_caret_lem ed row v.0.0 n)

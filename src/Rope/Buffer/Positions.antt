-- ===== src/Rope/Buffer/Positions.antt =====
-- Offsets and (line, column) pairs.
use mf.Prelude.{
  ℕ, zero, suc, ◌+◌, ◌-◌, ◌≤◌, ◌≡◌, refl, arith, ◌∙◌, length, take, leb, min, false, ◌==◌,
}
use mf.Rope.Node.{count_newlines}
use mf.Rope.Shape.{IsRope-IsCached}
use mf.Rope.Lines.{line_begin, line_end, line_of_position, count_newlines-take-le}
use mf.Rope.Query.Laws.{count_newlines_before_lem}
use mf.Rope.Buffer.{RopeBuffer, len, offset_to_line_col, line_col_to_offset, start_or_zero}
use mf.Rope.Buffer.Edits.{text, IsValid, len-length}
use mf.Rope.Buffer.Reads.{line_range_lem, line_start_lem, range_start_lem}

start_or_zero_lem :
    (b : RopeBuffer) (nl : ℕ)
    → IsValid b
    → nl ≤ count_newlines (text b)
    → start_or_zero b.root nl ≡ line_begin (text b) nl
unfolding line_begin
start_or_zero_lem b zero v h = refl
start_or_zero_lem b (suc nl) v h =
    let t : (suc nl == 0) ≡ false = ground arith in
    let p : suc nl - 1 ≡ nl = omega arith in rw (t, p, range_start_lem b (suc nl) v h)

-- In a well-formed buffer, the line of an offset is the number of newlines before it, and the column
-- its distance from the start of that line; an offset past the end counts as the end.
pub offset_to_line_col_lem :
    (b : RopeBuffer) (offset : ℕ)
    → IsValid b
    → let at_pos = min offset (length (text b)) in
      let line = count_newlines (take at_pos (text b)) in
      offset_to_line_col b offset ≡ (line, at_pos - line_begin (text b) line)
unfolding offset_to_line_col
offset_to_line_col_lem b offset v =
    let p = min offset (length (text b)) in
    rw (len-length b v, count_newlines_before_lem b.root p (IsRope-IsCached b.root v))
      (rw (
        start_or_zero_lem b (count_newlines (take p (text b))) v
          (count_newlines-take-le (text b) p)))

-- In a well-formed buffer, a line and a column that is in the line give the start of the line and
-- the column together; a column past the end of the line counts as the end. The line is one of the
-- buffer.
pub line_col_to_offset_lem :
    (b : RopeBuffer) (line col : ℕ)
    → IsValid b
    → line ≤ count_newlines (text b)
    → line_col_to_offset b line col
      ≡ line_begin (text b) line + min col (line_end (text b) line - line_begin (text b) line)
unfolding line_col_to_offset
line_col_to_offset_lem b line col v h =
    let inside : leb (count_newlines (text b) + 1) line ≡ false = ground arith in
    rw (line_range_lem b line v, line_col_to_offset, inside) (rw (line_start_lem b line v, inside))

-- In a well-formed buffer, going to the line and column of an offset that is not past the end gives
-- the offset back.
pub line_col_to_offset-offset_to_line_col :
    (b : RopeBuffer) (offset : ℕ)
    → IsValid b
    → offset ≤ len b
    → let at_line = offset_to_line_col b offset in line_col_to_offset b at_line.0 at_line.1 ≡ offset
line_col_to_offset-offset_to_line_col b offset v h =
    let n = len-length b v in
    let p = min offset (length (text b)) in
    let line = count_newlines (take p (text b)) in
    let (lo, hi) = line_of_position (text b) p line (omega arith) refl in
    rw (offset_to_line_col_lem b offset v) (
      line_col_to_offset_lem b line (p - line_begin (text b) line) v
        (count_newlines-take-le (text b) p)
      ∙ omega arith)

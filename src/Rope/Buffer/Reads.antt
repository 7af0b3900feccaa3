-- ===== src/Rope/Buffer/Reads.antt =====
-- What the reads of a buffer give: elements, slices and lines of its text.
use mf.Prelude.{
  ℕ, zero, suc, ◌+◌, ◌≤◌, ◌<◌, ◌≡◌, refl, sym, arith, ◌∙◌, ap, take, drop, ltb, leb, if◌then◌else◌,
  Bool-cases, inl, inr, some, none, get_elem?, min, drop_all, take_all, take-min_length,
  get_elem?-none, leb→le, leb→lt, ltb→lt, ltb→le, length-take, lt→ltb, true, false,
}
use mf.Rope.Node.{count_newlines}
use mf.Rope.Shape.{IsRope-IsCached, newline_count-count_newlines}
use mf.Rope.Lines.{split_lines, line_begin, line_end, line_begin-suc, line_end_last, drop-take_line}
use mf.Rope.Query.{nth_newline_pos, nth_newline_pos_raw}
use mf.Rope.Query.Laws.{char_at_node_lem, collect_range_lem, nth_newline_pos_raw_lem}
use mf.Rope.Buffer.{
  RopeBuffer, len, char_at, slice, to_slice, newline_count, line_count, line_start, line_range,
  get_line, range_start,
}
use mf.Rope.Buffer.Edits.{text, IsValid, len-length}

-- The newline count that a well-formed buffer keeps is the number of newlines of its text.
pub newline_count_lem : (b : RopeBuffer) → IsValid b → newline_count b ≡ count_newlines (text b)
newline_count_lem b v = newline_count-count_newlines b.root (IsRope-IsCached b.root v)

-- `char_at` of a well-formed buffer is the element at the position, and `none` past the end.
pub char_at_lem : (b : RopeBuffer) (i : ℕ) → IsValid b → char_at b i ≡ get_elem? (text b) i
unfolding char_at
char_at_lem b i v = elim (Bool-cases (leb (len b) i)) [
  | inl past ↦
      rw past
        (sym (get_elem?-none (text b) i (omega (arith, len-length b v, leb→le (len b) i past))))
  | inr inside ↦ rw inside (char_at_node_lem b.root i (IsRope-IsCached b.root v))
]

-- `slice` of a well-formed buffer is the part of the text between two positions, empty where they
-- are out of order.
pub slice_lem : (b : RopeBuffer) (s e : ℕ) → IsValid b → slice b s e ≡ drop s (take e (text b))
unfolding slice
slice_lem b s e v =
    let n = len-length b v in
    let part = take e (text b) in
    elim (Bool-cases (leb (min e (len b)) (min s (len b)))) [
      | inl z ↦ rw z (
          sym (
            drop_all s part
              (omega (arith, length-take e (text b), leb→le (min e (len b)) (min s (len b)) z))))
      | inr lt ↦
          let l = leb→lt (min e (len b)) (min s (len b)) lt in
          let m : min s (len b) ≡ s = omega arith in
          rw
            (
              lt,
              collect_range_lem b.root (min s (len b)) (min e (len b)) (IsRope-IsCached b.root v),
              m,
              n,
            )
            (ap (drop s) (take-min_length e (text b)))
    ]

pub to_slice-text : (b : RopeBuffer) → IsValid b → to_slice b ≡ text b
unfolding to_slice
to_slice-text b v =
    slice_lem b 0 (len b) v ∙ take_all (len b) (text b) (omega (arith, len-length b v))

raw_newline :
    (b : RopeBuffer) (n : ℕ)
    → IsValid b
    → n < count_newlines (text b)
    → nth_newline_pos_raw b.root n ≡ some (line_end (text b) n)
raw_newline b n v h =
    let t : ltb n (count_newlines (text b)) ≡ true = lt→ltb n (count_newlines (text b)) h in
    nth_newline_pos_raw_lem b.root n (IsRope-IsCached b.root v) ∙ rw t

pub range_start_lem :
    (b : RopeBuffer) (line : ℕ)
    → IsValid b
    → line ≤ count_newlines (text b)
    → range_start b.root line ≡ some (line_begin (text b) line)
unfolding nth_newline_pos line_begin
range_start_lem b zero v h = refl
range_start_lem b (suc line) v h =
    rw (raw_newline b line v h, nth_newline_pos)
      (ap some (omega (arith, line_begin-suc (text b) line h)))

-- `line_range` of a well-formed buffer is the start and the end of the line, and `none` past the
-- last line.
pub line_range_lem :
    (b : RopeBuffer) (line : ℕ)
    → IsValid b
    → line_range b line ≡ (
        if leb (count_newlines (text b) + 1) line
        then none
        else some (line_begin (text b) line, line_end (text b) line))
unfolding line_range
line_range_lem b line v =
    let n : count_newlines (text b) + 1 ≡ line_count b = omega (arith, newline_count_lem b v) in
    rw n (elim (Bool-cases (leb (line_count b) line)) [
      | inl past ↦ rw past
      | inr inside ↦
          let lt = leb→lt (line_count b) line inside in
          rw (inside, range_start_lem b line v (omega arith))
            (elim (Bool-cases (ltb (line + 1) (line_count b))) [
              | inl t ↦
                  rw (t, raw_newline b line v (omega (arith, ltb→lt (line + 1) (line_count b) t)))
              | inr f ↦
                  let last : line ≡ count_newlines (text b) =
                    omega (arith, ltb→le (line + 1) (line_count b) f) in
                  rw (f, len-length b v, line_end_last (text b) line last)
            ])
    ])

-- `line_start` of a well-formed buffer is the start of the line, and `none` past the last line.
pub line_start_lem :
    (b : RopeBuffer) (line : ℕ)
    → IsValid b
    → line_start b line
      ≡ (if leb (count_newlines (text b) + 1) line then none else some (line_begin (text b) line))
unfolding line_start line_begin
line_start_lem b zero v = ground arith
line_start_lem b (suc line) v =
    let n : count_newlines (text b) + 1 ≡ line_count b = omega (arith, newline_count_lem b v) in
    rw n (elim (Bool-cases (leb (line_count b) (suc line))) [
      | inl past ↦ rw past
      | inr inside ↦
          let lt = leb→lt (line_count b) (suc line) inside in
          rw (inside, range_start_lem b (suc line) v (omega arith))
    ])

-- `get_line` of a line of a well-formed buffer is the element with that index of the text split at
-- its newlines.
pub get_line_lem :
    (b : RopeBuffer) (line : ℕ)
    → IsValid b
    → line < line_count b
    → get_elem? (split_lines (text b)) line ≡ some (get_line b line)
unfolding get_line
get_line_lem b line v h =
    let n = newline_count_lem b v in
    let inside : leb (count_newlines (text b) + 1) line ≡ false = ground arith in
    rw
      (
        line_range_lem b line v,
        get_line,
        inside,
        slice_lem b (line_begin (text b) line) (line_end (text b) line) v,
      )
      (drop-take_line (text b) line (omega arith))

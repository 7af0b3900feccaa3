-- ===== src/Rope/Buffer.antt =====
-- The public type of src/rope_buffer.rs, `RopeBuffer`. A `&mut self` method returns the new buffer.
pub mod Edits
pub mod Reads
pub mod Positions
use mf.Prelude.{
  ℕ, zero, suc, ◌+◌, ◌-◌, Bool, Option, none, some, List, [], ◌∷◌, ◌==◌, leb, ltb, min,
  if◌then◌else◌, ◌||◌,
}
use mf.Rope.Node
use mf.Rope.Node.{Node, text_len, empty_leaf}
use mf.Rope.Split.{insert_node, delete_range}
use mf.Rope.Query.{
  char_at_node, collect_range, count_newlines_before, nth_newline_pos_raw, nth_newline_pos,
}
use mf.Rope.Build.{build_rope_from_slice}

pub record RopeBuffer : Type 0 where
  pub root : Node

abbrev pub new : RopeBuffer
new = record { root = empty_leaf }

unfoldable pub from_slice : List ℕ → RopeBuffer
from_slice text = record { root = build_rope_from_slice text }

abbrev pub len : RopeBuffer → ℕ
len b = text_len b.root

abbrev pub is_empty : RopeBuffer → Bool
is_empty b = len b == 0

abbrev pub newline_count : RopeBuffer → ℕ
newline_count b = Node.newline_count b.root

abbrev pub line_count : RopeBuffer → ℕ
line_count b = newline_count b + 1

abbrev pub height : RopeBuffer → ℕ
height b = Node.height b.root

-- The outer option is the method's own; `char_at_node` does not panic here (`char_at_lem`).
unfoldable pub char_at : RopeBuffer → ℕ → Option ℕ
char_at b at_pos = if leb (len b) at_pos then none else char_at_node b.root at_pos

unfoldable pub insert : RopeBuffer → ℕ → List ℕ → RopeBuffer
insert b at_pos [] = b
insert b at_pos (cp ∷ text) = record {
  root = insert_node b.root at_pos (build_rope_from_slice (cp ∷ text));
}

unfoldable pub insert_char : RopeBuffer → ℕ → ℕ → RopeBuffer
unfolding insert
insert_char b at_pos cp = insert b at_pos (cp ∷ [])

unfoldable pub delete : RopeBuffer → ℕ → ℕ → RopeBuffer
delete b at_pos count =
    if count == 0 || leb (len b) at_pos
    then b
    else record { root = delete_range b.root at_pos (min count (len b - at_pos)) }

unfoldable pub replace : RopeBuffer → ℕ → ℕ → List ℕ → RopeBuffer
replace b at_pos count text = insert (delete b at_pos count) at_pos text

unfoldable pub line_start : RopeBuffer → ℕ → Option ℕ
line_start b zero = some 0
line_start b (suc line) =
    if leb (line_count b) (suc line) then none else nth_newline_pos b.root line

-- The start of a line that is not past the end; the `?` of `line_range`.
abbrev pub range_start : Node → ℕ → Option ℕ
range_start root zero = some 0
range_start root (suc line) = nth_newline_pos root line

unfoldable pub line_range : RopeBuffer → ℕ → Option (ℕ × ℕ)
line_range b line = if leb (line_count b) line then none else elim (range_start b.root line) [
  | none ↦ none
  | some start ↦ some (
    start,
    (if ltb (line + 1) (line_count b)
        then elim (nth_newline_pos_raw b.root line) [ none ↦ len b | some p ↦ p ]
        else len b),
  )
]

unfoldable pub slice : RopeBuffer → ℕ → ℕ → List ℕ
slice b start end =
    let s = min start (len b) in
    let e = min end (len b) in if leb e s then [] else collect_range b.root s e

unfoldable pub get_line : RopeBuffer → ℕ → List ℕ
get_line b line = elim (line_range b line) [ none ↦ [] | some (s, e) ↦ slice b s e ]

unfoldable pub to_slice : RopeBuffer → List ℕ
to_slice b = slice b 0 (len b)

-- The start of the line after `nl` newlines, 0 where it is not found.
abbrev pub start_or_zero : Node → ℕ → ℕ
start_or_zero root nl =
    if nl == 0 then 0 else elim (nth_newline_pos root (nl - 1)) [ none ↦ 0 | some p ↦ p ]

unfoldable pub offset_to_line_col : RopeBuffer → ℕ → ℕ × ℕ
offset_to_line_col b offset =
    let at_pos = min offset (len b) in
    let nl = count_newlines_before b.root at_pos in (nl, at_pos - start_or_zero b.root nl)

unfoldable pub line_col_to_offset : RopeBuffer → ℕ → ℕ → ℕ
line_col_to_offset b line col =
    let start : ℕ = elim (line_start b line) [ none ↦ len b | some p ↦ p ] in
    elim (line_range b line) [ none ↦ start | some (s, e) ↦ start + min col (e - s) ]

-- ===== src/Editor/Caret.antt =====
-- The caret of src/editor.rs stays in the text.
use mf.Prelude.{
  ℕ, ◌+◌, ◌<◌, ◌≤◌, ◌≡◌, sym, ap, ◌∙◌, arith, List, [], ◌∷◌, ◌++◌, none, some, length,
  length-append, length-take, length-drop, take, drop, min, leb, Bool-cases, inl, inr,
}
use mathlib.Core.Option.{some-injective}
use mf.Rope.Node.{count_newlines}
use mf.Rope.Lines.{line_begin-le-line_end, line_end-le}
use mf.Rope.Buffer
use mf.Rope.Buffer.{
  RopeBuffer, len, insert_char, delete, line_range, line_col_to_offset, offset_to_line_col,
}
use mf.Rope.Buffer.Edits
use mf.Rope.Buffer.Edits.{IsValid, len-length, text-insert, text-delete, text-from_slice}
use mf.Rope.Buffer.Reads.{line_range_lem, newline_count_lem}
use mf.Rope.Buffer.Positions.{line_col_to_offset_lem}
use mf.Rope.Utf8.{from_utf8, utf8_to_codepoints}

-- A buffer and a place in its text.
abbrev pub Holds : RopeBuffer → ℕ → Type 0
Holds b at_pos = IsValid b × (at_pos ≤ length (Edits.text b))

pub from_utf8-IsValid : (utf8 : List ℕ) → IsValid (from_utf8 utf8)
unfolding from_utf8
from_utf8-IsValid utf8 = (text-from_slice (utf8_to_codepoints utf8)).0

pub text-from_utf8 : (utf8 : List ℕ) → Edits.text (from_utf8 utf8) ≡ utf8_to_codepoints utf8
unfolding from_utf8
text-from_utf8 utf8 = (text-from_slice (utf8_to_codepoints utf8)).1

pub min_len-Holds : (b : RopeBuffer) (at_pos : ℕ) → IsValid b → Holds b (min at_pos (len b))
min_len-Holds b at_pos v = (v, omega (arith, len-length b v))

-- One character more, with the caret behind it.
pub text-insert_char :
    (b : RopeBuffer) (at_pos c : ℕ)
    → Holds b at_pos
    → Holds (insert_char b at_pos c) (at_pos + 1)
      × (Edits.text (insert_char b at_pos c)
          ≡ take at_pos (Edits.text b) ++ c ∷ drop at_pos (Edits.text b))
unfolding insert_char
text-insert_char b at_pos c (v, h) =
    let (v', e) = text-insert b at_pos (c ∷ []) v in
    let t = Edits.text b in
    let l = length-append (take at_pos t) (c ∷ drop at_pos t) in
    ((v', omega (arith, ap length e, l, length-take at_pos t, length-drop at_pos t)), e)

pub delete-Holds :
    (b : RopeBuffer) (at_pos count : ℕ) → Holds b at_pos → Holds (delete b at_pos count) at_pos
delete-Holds b at_pos count (v, h) =
    let (v', e) = text-delete b at_pos count v in
    let t = Edits.text b in
    let l = length-append (take at_pos t) (drop (at_pos + count) t) in
    (v', omega (arith, ap length e, l, length-take at_pos t))

pub line_count_lem :
    (b : RopeBuffer) → IsValid b → Buffer.line_count b ≡ count_newlines (Edits.text b) + 1
line_count_lem b v = omega (arith, newline_count_lem b v)

-- A row of the buffer and any column.
pub line_col_to_offset-Holds :
    (b : RopeBuffer) (line col : ℕ)
    → IsValid b
    → line < Buffer.line_count b
    → Holds b (line_col_to_offset b line col)
line_col_to_offset-Holds b line col v h =
    let t = Edits.text b in
    (
      v,
      omega (
        arith,
        line_col_to_offset_lem b line col v (omega (arith, line_count_lem b v)),
        line_begin-le-line_end t line,
        line_end-le t line,
      ),
    )

pub none≢range : (r : ℕ × ℕ) → ¬ (none ≡ some r)
none≢range r q = cc

pub line_range-Holds :
    (b : RopeBuffer) (line start end : ℕ)
    → IsValid b
    → line_range b line ≡ some (start, end)
    → Holds b start × Holds b end
line_range-Holds b line start end v e =
    let t = Edits.text b in
    elim (Bool-cases (leb (count_newlines t + 1) line)) [
      | inl past ↦ absurd (none≢range _ (rw past at (sym (line_range_lem b line v) ∙ e)))
      | inr inside ↦
          let same = some-injective _ _ (rw inside at (sym (line_range_lem b line v) ∙ e)) in
          let s = ap (λ r. r.0) same in
          let f = ap (λ r. r.1) same in
          (
            (v, omega (arith, s, line_begin-le-line_end t line, line_end-le t line)),
            (v, omega (arith, f, line_end-le t line)),
          )
    ]

-- ===== src/Rope/Iterators.antt =====
-- The iterators of src/rope_buffer.rs over code points and lines.
pub mod Collect
use mf.Prelude.{
  ℕ, zero, suc, ◌+◌, ◌≤◌, ◌≡◌, refl, ap, ap₂, ◌∙◌, sym, arith, List, [], ◌∷◌, Option, none, some,
  length, leb, if◌then◌else◌, get_elem?, drop,
}
use mf.Rope.Buffer.{RopeBuffer, char_at, line_count, get_line, len}

pub record Chars : Type 0 where
  pub rope : RopeBuffer
  pub at_pos : ℕ

-- `RopeBuffer::chars`
abbrev pub chars : RopeBuffer → Chars
chars b = record { rope = b; at_pos = 0 }

unfoldable pub next_char : Chars → Option (ℕ × Chars)
next_char it = elim (char_at it.rope it.at_pos) [
  | none ↦ none
  | some cp ↦ some (cp, record it { at_pos = it.at_pos + 1 })
]

pub record Lines : Type 0 where
  pub rope : RopeBuffer
  pub line : ℕ

-- `RopeBuffer::lines`
abbrev pub lines : RopeBuffer → Lines
lines b = record { rope = b; line = 0 }

unfoldable pub next_line : Lines → Option (List ℕ × Lines)
next_line it =
    if leb (line_count it.rope) it.line
    then none
    else some (get_line it.rope it.line, record it { line = it.line + 1 })

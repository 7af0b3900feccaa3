-- ===== src/Editor/Forth.antt =====
-- The formatter of src/editor.rs: each line is indented by its structural depth, and white space
-- between words is one space.
use mathlib.Core.List.{reverse}
use mf.Prelude.{
  ℕ, zero, suc, none, ◌+◌, ◌-◌, ◌==◌, min, Bool, true, false, not, ◌||◌, List, [], ◌∷◌, ◌++◌,
  if◌then◌else◌,
}
use mf.Prelude.Int.{ℤ, pos, negsuc, pos_part}
use mf.Prelude.Words.{codes, same_text, is_one_of, is_whitespace}
use mf.Rope.Buffer.{len}
use mf.Rope.Lines.{split_lines}
use mf.Editor.{Editor, nothing, text, rope_of}
use mf.Editor.History.{checkpoint}

unfoldable pub opens : List ℕ → Bool
opens w = is_one_of w (":" ∷ "if" ∷ "begin" ∷ "do" ∷ "?do" ∷ "case" ∷ "of" ∷ "[if]" ∷ [])

unfoldable pub closes : List ℕ → Bool
closes w = is_one_of w (
    ";" ∷ "then" ∷ "loop" ∷ "+loop" ∷ "repeat" ∷ "until" ∷ "again" ∷ "endcase" ∷ "endof" ∷ "[then]"
    ∷ [])

unfoldable pub dedent_line : List ℕ → Bool
dedent_line w = is_one_of w ("else" ∷ "while" ∷ "of" ∷ "endof" ∷ "[else]" ∷ [])

-- `str::trim`
abbrev pub trim_start : List ℕ → List ℕ
trim_start [] = []
trim_start (c ∷ s) = if is_whitespace c then trim_start s else c ∷ s

abbrev pub trim : List ℕ → List ℕ
trim s = reverse (trim_start (reverse (trim_start s)))

-- A character in front of the words of `s`: it starts a word, or belongs to the one in front.
abbrev pub add_to_word : ℕ → List ℕ → List (List ℕ) → List (List ℕ)
add_to_word c [] words = (c ∷ []) ∷ words
add_to_word c (d ∷ s) [] = (c ∷ []) ∷ []
add_to_word c (d ∷ s) (w ∷ words) =
    if is_whitespace d then (c ∷ []) ∷ w ∷ words else (c ∷ w) ∷ words

-- `str::split_whitespace`
unfoldable pub split_whitespace : List ℕ → List (List ℕ)
split_whitespace [] = []
split_whitespace (c ∷ s) =
    let words = split_whitespace s in if is_whitespace c then words else add_to_word c s words

-- `words.join(" ")`
unfoldable pub join : List (List ℕ) → List ℕ
join [] = []
join (w ∷ []) = w
join (w ∷ v ∷ words) = w ++ 0x20 ∷ join (v ∷ words)

abbrev pub indent : ℕ → List ℕ
indent zero = []
indent (suc n) = 0x20 ∷ 0x20 ∷ indent n

-- `w.ends_with(')')`
abbrev pub ends_paren : List ℕ → Bool
ends_paren [] = false
ends_paren (c ∷ []) = c == b')'
ends_paren (c ∷ d ∷ w) = ends_paren (d ∷ w)

-- An i32, one up and one down.
abbrev pub deeper : ℤ → ℤ
deeper (pos n) = pos (n + 1)
deeper (negsuc zero) = pos 0
deeper (negsuc (suc n)) = negsuc n

abbrev pub shallower : ℤ → ℤ
shallower (pos zero) = negsuc 0
shallower (pos (suc n)) = pos n
shallower (negsuc n) = negsuc (n + 1)

-- The `match` on a word outside a comment, but for the two that start one.
abbrev pub depth_after : ℤ → List ℕ → ℤ
depth_after depth w = if opens w then deeper depth else if closes w then shallower depth else depth

-- The loop over the words of a line, with `in_comment`.
unfoldable pub scan : ℤ → Bool → List (List ℕ) → ℤ
unfolding opens closes
scan depth in_comment [] = depth
scan depth true (w ∷ words) = scan depth (not (ends_paren w)) words
scan depth false (w ∷ words) =
    let comment = same_text w (codes "(") in
    let rest = scan (if comment then depth else depth_after depth w) comment words in
    if same_text w (codes "\\") then depth else rest

-- The line, and the depth behind it.
unfoldable pub format_line : ℕ → List ℕ → List ℕ × ℕ
unfolding split_whitespace join dedent_line closes scan
format_line depth raw = elim (split_whitespace (trim raw)) [
  | [] ↦ ([], depth)
  | first ∷ words ↦ (
    indent (if closes first || dedent_line first then depth - 1 else depth) ++ join (first ∷ words),
    pos_part (scan (pos depth) false (first ∷ words)),
  )
]

unfoldable pub format_lines : ℕ → List (List ℕ) → List ℕ
unfolding format_line
format_lines depth [] = []
format_lines depth (raw ∷ raws) =
    let (line, after) = format_line depth raw in line ++ 0x0A ∷ format_lines after raws

-- `if out.ends_with('\n') { out.pop(); }`
abbrev pub pop_newline : List ℕ → List ℕ
pop_newline [] = []
pop_newline (c ∷ []) = if c == 0x0A then [] else c ∷ []
pop_newline (c ∷ d ∷ s) = c ∷ pop_newline (d ∷ s)

unfoldable pub format_forth : List ℕ → List ℕ
unfolding format_lines
format_forth src = pop_newline (format_lines 0 (split_lines src))

unfoldable pub format : Editor → Editor
unfolding checkpoint format_forth
format ed =
    let marked = checkpoint ed nothing in
    let rope = rope_of (format_forth (text marked)) in
    record marked { rope = rope; caret = min marked.caret (len rope); anchor = none; dirty = true }

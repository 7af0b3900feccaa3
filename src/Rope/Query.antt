-- ===== src/Rope/Query.antt =====
-- Reading a rope (src/rope_buffer.rs, "char lookup + range collect" and "newline navigation").
pub mod Laws
use mf.Prelude.{
  ℕ, zero, suc, ◌+◌, ◌-◌, Option, none, some, List, [], ◌∷◌, ◌++◌, ◌==◌, length, get_elem?,
  if◌then◌else◌, leb, ltb, take, drop, min,
}
use mf.Rope.Node.{Node, leaf, branch, newline_count, count_newlines, newline}

-- `buf[pos]` panics out of bounds, which is `none` here.
unfoldable pub char_at_node : Node → ℕ → Option ℕ
char_at_node (leaf buf n) pos = get_elem? buf pos
char_at_node (branch l r left_len total_len total_newlines h) pos =
    if ltb pos left_len then char_at_node l pos else char_at_node r (pos - left_len)

-- `&buf[s..e]` for s ≤ e ≤ len.
abbrev pub slice_of : List ℕ → ℕ → ℕ → List ℕ
slice_of buf s e = drop s (take e buf)

-- What `collect_range` appends to `out`.
unfoldable pub collect_range : Node → ℕ → ℕ → List ℕ
collect_range (leaf buf n) start end =
    if leb end start then [] else slice_of buf (min start (length buf)) (min end (length buf))
collect_range (branch l r left_len total_len total_newlines h) start end =
    let from_left = collect_range l start (min end left_len) in
    let from_right = collect_range r (start - left_len) (end - left_len) in
    if leb end start
    then []
    else (if ltb start left_len then from_left else [])
      ++ (if ltb left_len end then from_right else [])

-- How many newlines appear at offsets below `pos`.
unfoldable pub count_newlines_before : Node → ℕ → ℕ
count_newlines_before (leaf buf n) pos =
    if pos == 0 then 0 else count_newlines (take (min pos (length buf)) buf)
count_newlines_before (branch l r left_len total_len total_newlines h) pos =
    let below = count_newlines_before l pos in
    let above = count_newlines_before r (pos - left_len) in
    if pos == 0 then 0 else if leb pos left_len then below else newline_count l + above

-- The loop over `buf.iter().enumerate()`, at index `i` with `count` newlines seen.
unfoldable pub scan_newlines : List ℕ → ℕ → ℕ → ℕ → Option ℕ
scan_newlines [] i count n = none
scan_newlines (cp ∷ buf) i count n =
    let found = scan_newlines buf (i + 1) (count + 1) n in
    let rest = scan_newlines buf (i + 1) count n in
    if cp == newline then (if count == n then some i else found) else rest

-- The offset of the `n`th newline itself.
unfoldable pub nth_newline_pos_raw : Node → ℕ → Option ℕ
nth_newline_pos_raw (leaf buf k) n = scan_newlines buf 0 0 n
nth_newline_pos_raw (branch l r left_len total_len total_newlines h) n =
    let on_left = nth_newline_pos_raw l n in
    let on_right = nth_newline_pos_raw r (n - newline_count l) in
    if ltb n (newline_count l)
    then on_left
    else elim on_right [ none ↦ none | some right_pos ↦ some (left_len + right_pos) ]

-- The offset just after it.
unfoldable pub nth_newline_pos : Node → ℕ → Option ℕ
nth_newline_pos node n = elim (nth_newline_pos_raw node n) [ none ↦ none | some p ↦ some (p + 1) ]

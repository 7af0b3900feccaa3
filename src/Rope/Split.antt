-- ===== src/Rope/Split.antt =====
-- Splitting a rope, and the edits built from split and join (src/rope_buffer.rs, `split_node`,
-- `insert_node`, `delete_range`).
use mf.Prelude.{ℕ, ◌-◌, ◌==◌, length, if◌then◌else◌, leb, ltb, take, drop}
use mf.Rope.Node.{Node, leaf, branch, new_leaf, empty_leaf}
use mf.Rope.Join.{join_nodes}

unfoldable pub split_node : Node → ℕ → Node × Node
split_node (leaf buf n) cut =
    if cut == 0
    then (empty_leaf, leaf buf n)
    else if leb (length buf) cut
    then (leaf buf n, empty_leaf)
    else (new_leaf (take cut buf), new_leaf (drop cut buf))
split_node (branch left right left_len total_len total_newlines h) cut =
    let below = split_node left cut in
    let above = split_node right (cut - left_len) in
    if cut == 0
    then (empty_leaf, branch left right left_len total_len total_newlines h)
    else if leb total_len cut
    then (branch left right left_len total_len total_newlines h, empty_leaf)
    else if cut == left_len
    then (left, right)
    else if ltb cut left_len
    then (below.0, join_nodes below.1 right)
    else (join_nodes left above.0, above.1)

unfoldable pub insert_node : Node → ℕ → Node → Node
insert_node root cut insertion =
    let (l, r) = split_node root cut in join_nodes (join_nodes l insertion) r

unfoldable pub delete_range : Node → ℕ → ℕ → Node
delete_range root cut count =
    let (before, rest) = split_node root cut in
    let (deleted, after) = split_node rest count in join_nodes before after

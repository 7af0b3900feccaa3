-- ===== src/Rope/Join.antt =====
-- Joining, splitting and balancing (src/rope_buffer.rs, "split / join / insert / delete" and "AVL
-- balancing"). `take_children` of a leaf panics; a leaf has height 0, so its callers never reach
-- that arm, and here they match on the branch.
use mf.Prelude.{ℕ, ◌+◌, ◌-◌, Option, ◌++◌, ◌==◌, length, if◌then◌else◌, leb, ltb, none, some}
use mf.Prelude.Int.{ℤ, pos, negsuc, sub_ℕ, ltb_ℤ}
use mf.Rope.Node.{Node, leaf, branch, text_len, height, new_leaf, new_branch, leaf_max}

abbrev pub balance_factor : Node → ℤ
balance_factor (leaf buf n) = pos 0
balance_factor (branch l r left_len total_len total_newlines h) = sub_ℕ (height l) (height r)

unfoldable pub rotate_right : Node → Node
rotate_right (leaf buf n) = leaf buf n
rotate_right (branch (leaf buf n) node_r ll tl tn h) = new_branch (leaf buf n) node_r
rotate_right (branch (branch ll lr a b c d) node_r e f g h) = new_branch ll (new_branch lr node_r)

unfoldable pub rotate_left : Node → Node
rotate_left (leaf buf n) = leaf buf n
rotate_left (branch node_l (leaf buf n) ll tl tn h) = new_branch node_l (leaf buf n)
rotate_left (branch node_l (branch rl rr a b c d) e f g h) = new_branch (new_branch node_l rl) rr

unfoldable pub balance : Node → Node
balance (leaf buf n) = leaf buf n
balance (branch left right left_len total_len total_newlines h) =
    let bf = sub_ℕ (height left) (height right) in
    if ltb_ℤ (pos 1) bf
    then if ltb_ℤ (balance_factor left) (pos 0)
      then rotate_right (new_branch (rotate_left left) right)
      else rotate_right (new_branch left right)
    else if ltb_ℤ bf (negsuc 0)
    then if ltb_ℤ (pos 0) (balance_factor right)
      then rotate_left (new_branch left (rotate_right right))
      else rotate_left (new_branch left right)
    else branch left right left_len total_len total_newlines h

-- "Merge two small leaves into one."
abbrev pub merge_leaves : Node → Node → Option Node
merge_leaves (leaf lbuf ln) (leaf rbuf rn) =
    if leb (length lbuf + length rbuf) leaf_max then some (new_leaf (lbuf ++ rbuf)) else none
merge_leaves (leaf lbuf ln) (branch rl rr a b c d) = none
merge_leaves (branch ll lr a b c d) right = none

abbrev pub abs_diff : ℕ → ℕ → ℕ
abs_diff a b = (a - b) + (b - a)

-- The tests of `join_nodes`, given what its two recursive arms make.
unfoldable pub join_step : Node → Node → Node → Node → Node
join_step left right left_taller right_taller =
    if text_len left == 0
    then right
    else if text_len right == 0
    then left
    else elim (merge_leaves left right) [
      | some merged ↦ merged
      | none ↦
          if leb (abs_diff (height left) (height right)) 1
          then new_branch left right
          else if ltb (height right) (height left)
          then left_taller
          else right_taller
    ]

-- The arm of the taller side exists where that side is a branch; a leaf is never the taller one.
unfoldable pub join_nodes : Node → Node → Node
join_nodes (leaf lb ln) (leaf rb rn) = join_step (leaf lb ln) (leaf rb rn) (leaf lb ln) (leaf rb rn)
join_nodes (leaf lb ln) (branch rl rr e f g h) =
    let right_taller = balance (new_branch (join_nodes (leaf lb ln) rl) rr) in
    join_step (leaf lb ln) (branch rl rr e f g h) (leaf lb ln) right_taller
join_nodes (branch ll lr a b c d) (leaf rb rn) =
    let left_taller = balance (new_branch ll (join_nodes lr (leaf rb rn))) in
    join_step (branch ll lr a b c d) (leaf rb rn) left_taller (leaf rb rn)
join_nodes (branch ll lr a b c d) (branch rl rr e f g h) =
    let left_taller = balance (new_branch ll (join_nodes lr (branch rl rr e f g h))) in
    let right_taller = balance (new_branch (join_nodes (branch ll lr a b c d) rl) rr) in
    join_step (branch ll lr a b c d) (branch rl rr e f g h) left_taller right_taller

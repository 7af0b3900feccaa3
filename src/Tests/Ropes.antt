-- ===== src/Tests/Ropes.antt =====
-- Ropes of a few characters.
use mf.Prelude.{
  ℕ, zero, suc, ap, ◌≤◌, ◌≡◌, refl, arith, inl, List, [], ◌∷◌, some, length, get_elem?,
}
use mf.Rope.Node.{Node, leaf, branch, leaf_max, text_len, height}
use mf.Rope.Join.{join_nodes}
use mf.Rope.Split.{split_node}
use mf.Rope.Shape.{to_list, IsAvl, IsAvlRope}
use mf.Rope.Concat.{to_list-join_nodes}
use mf.Rope.Cut.{Cuts, split_node_lem}
use mf.Rope.Avl.{join_nodes-IsAvlRope, split_node-IsAvlRope}
use mf.Rope.Build.{build_rope_from_slice}
use mf.Rope.Build.Height.{build_rope_from_slice_unbalanced}
use mf.Rope.Buffer.{
  RopeBuffer, insert, delete, replace, get_line, offset_to_line_col, line_col_to_offset,
}
use mf.Rope.Utf8.{decode_loop}
use mf.Rope.Utf8.Fuel.{decode_loop_enough}
use mf.Rope.Lines.{split_lines}
use mf.Rope.Buffer.Edits.{IsValid, text, text-insert, text-delete, text-replace, height-replace}
use mf.Rope.Buffer.Reads.{get_line_lem}
use mf.Rope.Buffer.Positions.{line_col_to_offset-offset_to_line_col}

-- "a\n" and "b"
abbrev left_leaf : Node
left_leaf = leaf (97 ∷ 10 ∷ []) 1

abbrev right_leaf : Node
right_leaf = leaf (98 ∷ []) 0

abbrev two_leaves : Node
two_leaves = branch left_leaf right_leaf 2 3 1 1

abbrev sample : RopeBuffer
sample = record { root = two_leaves }

left_leaf-IsAvl : IsAvl left_leaf
unfolding mf.Rope.Node.count_newlines
left_leaf-IsAvl = (refl, omega arith, omega arith)

right_leaf-IsAvl : IsAvl right_leaf
unfolding mf.Rope.Node.count_newlines
right_leaf-IsAvl = (refl, omega arith, omega arith)

sample-IsAvl : IsAvl two_leaves
sample-IsAvl = (left_leaf-IsAvl, right_leaf-IsAvl, refl, refl, refl, refl, omega arith, omega arith)

sample-IsValid : IsValid sample
sample-IsValid = inl (left_leaf-IsAvl, right_leaf-IsAvl, refl, refl, refl, refl)

text-insert_example :
    IsValid (insert sample 1 (99 ∷ []))
    × (text (insert sample 1 (99 ∷ [])) ≡ 97 ∷ 99 ∷ 10 ∷ 98 ∷ [])
text-insert_example = text-insert sample 1 (99 ∷ []) sample-IsValid

text-delete_example : IsValid (delete sample 1 1) × (text (delete sample 1 1) ≡ 97 ∷ 98 ∷ [])
text-delete_example = text-delete sample 1 1 sample-IsValid

text-replace_example :
    IsValid (replace sample 1 1 (99 ∷ []))
    × (text (replace sample 1 1 (99 ∷ [])) ≡ 97 ∷ 99 ∷ 98 ∷ [])
text-replace_example = text-replace sample 1 1 (99 ∷ []) sample-IsValid

split_node_lem_example : Cuts two_leaves 1 (split_node two_leaves 1)
split_node_lem_example = split_node_lem two_leaves 1 sample-IsValid

to_list-join_nodes_example : to_list (join_nodes left_leaf two_leaves) ≡ 97 ∷ 10 ∷ 97 ∷ 10 ∷ 98 ∷ []
to_list-join_nodes_example =
    to_list-join_nodes left_leaf two_leaves (inl left_leaf-IsAvl) sample-IsValid

join_nodes-IsAvlRope_example : IsAvlRope (join_nodes left_leaf two_leaves)
join_nodes-IsAvlRope_example =
    join_nodes-IsAvlRope left_leaf two_leaves (inl left_leaf-IsAvl) (inl sample-IsAvl)

split_node-IsAvlRope_example :
    IsAvlRope (split_node two_leaves 1).0 × IsAvlRope (split_node two_leaves 1).1
split_node-IsAvlRope_example = split_node-IsAvlRope two_leaves 1 (inl sample-IsAvl)

height-replace_example : height (replace sample 1 1 (99 ∷ [])).root ≤ 3
height-replace_example =
    height-replace sample 1 1 1 (99 ∷ []) (inl sample-IsAvl) (omega arith)
      (rw (text-replace_example.1) (omega arith))

unfoldable replicate : ℕ → ℕ → List ℕ
replicate zero x = []
replicate (suc n) x = x ∷ replicate n x

length-replicate : (n x : ℕ) → length (replicate n x) ≡ n
unfolding replicate
length-replicate zero x = refl
length-replicate (suc n) x = ap suc (length-replicate n x)

-- Five chunks, the last of one character.
build_rope_from_slice_unbalanced_example : ¬ (IsAvlRope (build_rope_from_slice (replicate 8193 97)))
build_rope_from_slice_unbalanced_example =
    build_rope_from_slice_unbalanced (replicate 8193 97) (omega (arith, length-replicate 8193 97))
      (omega (arith, length-replicate 8193 97))

get_line_lem_example : get_elem? (split_lines (97 ∷ 10 ∷ 98 ∷ [])) 1 ≡ some (get_line sample 1)
get_line_lem_example = get_line_lem sample 1 sample-IsValid (omega arith)

round_trip_example :
    line_col_to_offset sample (offset_to_line_col sample 2).0 (offset_to_line_col sample 2).1 ≡ 2
round_trip_example = line_col_to_offset-offset_to_line_col sample 2 sample-IsValid (omega arith)

decode_loop_enough_example : decode_loop 9 (0xC3 ∷ 0xA9 ∷ []) ≡ decode_loop 2 (0xC3 ∷ 0xA9 ∷ [])
decode_loop_enough_example = decode_loop_enough 9 2 (0xC3 ∷ 0xA9 ∷ []) (omega arith) (omega arith)

-- ===== src/Rope/Node.antt =====
-- The nodes of the rope (src/rope_buffer.rs, "Node"): a tree whose leaves hold code points and whose
-- nodes cache counts. Boxes and moves leave no trace, so a function that consumes a node is pure.
-- `usize` is a plain number: no length reaches 2 ^ 64.
use mf.Prelude.{ℕ, ◌+◌, List, [], ◌∷◌, ◌==◌, max, length, if◌then◌else◌}

-- `LEAF_MAX`
abbrev pub leaf_max : ℕ
leaf_max = 2048

-- `NEWLINE`
abbrev pub newline : ℕ
newline = 0x0a

pub data Node : Type 0 where
  -- buf, newline_count
  leaf : List ℕ → ℕ → Node
  -- left, right, left_len, total_len, total_newlines, height
  branch : Node → Node → ℕ → ℕ → ℕ → ℕ → Node

unfoldable pub count_newlines : List ℕ → ℕ
count_newlines [] = 0
count_newlines (cp ∷ buf) = (if cp == newline then 1 else 0) + count_newlines buf

abbrev pub text_len : Node → ℕ
text_len (leaf buf n) = length buf
text_len (branch l r left_len total_len total_newlines h) = total_len

abbrev pub newline_count : Node → ℕ
newline_count (leaf buf n) = n
newline_count (branch l r left_len total_len total_newlines h) = total_newlines

abbrev pub height : Node → ℕ
height (leaf buf n) = 0
height (branch l r left_len total_len total_newlines h) = h

-- `Node::leaf`, `Node::empty_leaf` and `Node::branch` compute what the node caches.
abbrev pub new_leaf : List ℕ → Node
new_leaf buf = leaf buf (count_newlines buf)

abbrev pub empty_leaf : Node
empty_leaf = new_leaf []

abbrev pub new_branch : Node → Node → Node
new_branch l r =
    branch l r (text_len l) (text_len l + text_len r) (newline_count l + newline_count r)
      (1 + max (height l) (height r))

-- ===== src/Rope/Build.antt =====
-- Building a rope from a slice (src/rope_buffer.rs, `build_rope_from_slice`): one leaf for each chunk
-- of `LEAF_MAX`, merged pairwise until one root remains. The `while` loop runs on fuel: a round with a
-- first node and n further ones leaves at most n / 2 further ones, so n rounds are enough, and
-- `to_list-build_rope_from_slice` shows that nothing is left over.
pub mod Laws
pub mod Height
use mf.Prelude.{ℕ, zero, suc, ◌+◌, ◌-◌, ◌*◌, ◌/◌, List, [], ◌∷◌, ◌==◌, length, if◌then◌else◌, min}
use mf.Rope.Node.{Node, leaf_max, new_leaf, empty_leaf, new_branch}
use mf.Rope.Query.{slice_of}

-- `text.len().div_ceil(LEAF_MAX)`
abbrev pub chunk_count : List ℕ → ℕ
chunk_count text = (length text + (leaf_max - 1)) / leaf_max

-- The leaf of chunk `i`: `text[start..end]`.
unfoldable pub chunk_leaf : List ℕ → ℕ → Node
chunk_leaf text i =
    let start = i * leaf_max in
    new_leaf (slice_of text start (min (start + leaf_max) (length text)))

-- The leaves of `count` chunks from chunk `i` on.
unfoldable pub chunk_leaves : List ℕ → ℕ → ℕ → List Node
unfolding chunk_leaf
chunk_leaves text i zero = []
chunk_leaves text i (suc count) = chunk_leaf text i ∷ chunk_leaves text (i + 1) count

-- One round of the `while` loop.
unfoldable pub merge_pairs : List Node → List Node
merge_pairs [] = []
merge_pairs (l ∷ []) = l ∷ []
merge_pairs (l ∷ r ∷ nodes) = new_branch l r ∷ merge_pairs nodes

-- The loop on a list with a first node, which `nodes.pop()` gives back once it is alone.
unfoldable pub merge_rounds : ℕ → Node → List Node → Node
unfolding merge_pairs
merge_rounds fuel node [] = node
merge_rounds zero node (next ∷ nodes) = node
merge_rounds (suc fuel) node (next ∷ nodes) =
    merge_rounds fuel (new_branch node next) (merge_pairs nodes)

unfoldable pub build_rope_from_slice : List ℕ → Node
unfolding chunk_leaves merge_rounds
build_rope_from_slice [] = empty_leaf
build_rope_from_slice (cp ∷ text) =
    let chunks = chunk_count (cp ∷ text) in
    if chunks == 1
    then new_leaf (cp ∷ text)
    else merge_rounds chunks (chunk_leaf (cp ∷ text) 0) (chunk_leaves (cp ∷ text) 1 (chunks - 1))

-- ===== src/Rope/Shape.antt =====
-- What a rope stands for, and when its nodes are well formed.
use mf.Prelude.{
  ℕ, ◌+◌, ◌≤◌, ◌<◌, ◌≡◌, ◌⊎◌, inl, inr, List, ◌++◌, max, arith, length, length-append, [], ◌∷◌,
  refl,
}
use mf.Rope.Node.{
  Node, leaf, branch, text_len, newline_count, height, count_newlines, leaf_max, empty_leaf,
}

-- The code points in order, which is what the tree stands for.
abbrev pub to_list : Node → List ℕ
to_list (leaf buf n) = buf
to_list (branch l r left_len total_len total_newlines h) = to_list l ++ to_list r

-- Every node caches what its subtrees hold.
abbrev pub IsCached : Node → Type 0
IsCached (leaf buf n) = n ≡ count_newlines buf
IsCached (branch l r left_len total_len total_newlines h) =
    IsCached l
    × IsCached r
    × (left_len ≡ text_len l)
    × (total_len ≡ text_len l + text_len r)
    × (total_newlines ≡ newline_count l + newline_count r)

-- A tree with no empty leaf, no leaf above `LEAF_MAX`, and exact caches.
abbrev pub IsTree : Node → Type 0
IsTree (leaf buf n) = (n ≡ count_newlines buf) × (0 < length buf) × (length buf ≤ leaf_max)
IsTree (branch l r left_len total_len total_newlines h) =
    IsTree l
    × IsTree r
    × (left_len ≡ text_len l)
    × (total_len ≡ text_len l + text_len r)
    × (total_newlines ≡ newline_count l + newline_count r)
    × (h ≡ 1 + max (height l) (height r))

-- Such a tree with the AVL balance at every branch.
abbrev pub IsAvl : Node → Type 0
IsAvl (leaf buf n) = IsTree (leaf buf n)
IsAvl (branch l r left_len total_len total_newlines h) =
    IsAvl l
    × IsAvl r
    × (left_len ≡ text_len l)
    × (total_len ≡ text_len l + text_len r)
    × (total_newlines ≡ newline_count l + newline_count r)
    × (h ≡ 1 + max (height l) (height r))
    × (height l ≤ 1 + height r)
    × (height r ≤ 1 + height l)

pub IsAvl-IsTree : (t : Node) → IsAvl t → IsTree t
IsAvl-IsTree (leaf buf n) v = v
IsAvl-IsTree (branch l r ll tl tn h) v =
    (IsAvl-IsTree l v.0, IsAvl-IsTree r v.1, v.2, v.3, v.4, v.5)

-- What stands at the root: such a tree, or the empty leaf.
abbrev pub IsRope : Node → Type 0
IsRope node = IsTree node ⊎ (node ≡ empty_leaf)

abbrev pub IsAvlRope : Node → Type 0
IsAvlRope node = IsAvl node ⊎ (node ≡ empty_leaf)

pub IsAvlRope-IsRope : (t : Node) → IsAvlRope t → IsRope t
IsAvlRope-IsRope t (inl v) = inl (IsAvl-IsTree t v)
IsAvlRope-IsRope t (inr e) = inr e

pub count_newlines-append :
    (xs ys : List ℕ) → count_newlines (xs ++ ys) ≡ count_newlines xs + count_newlines ys
unfolding count_newlines
count_newlines-append [] ys = omega arith
count_newlines-append (x ∷ xs) ys = omega (arith, count_newlines-append xs ys)

pub IsTree-IsCached : (t : Node) → IsTree t → IsCached t
IsTree-IsCached (leaf buf n) v = v.0
IsTree-IsCached (branch l r ll tl tn h) v =
    (IsTree-IsCached l v.0, IsTree-IsCached r v.1, v.2, v.3, v.4)

pub IsRope-IsCached : (t : Node) → IsRope t → IsCached t
IsRope-IsCached t (inl v) = IsTree-IsCached t v
IsRope-IsCached t (inr e) = rw e refl

pub text_len-length : (t : Node) → IsCached t → text_len t ≡ length (to_list t)
text_len-length (leaf buf n) v = refl
text_len-length (branch l r ll tl tn h) v =
    omega
      (arith, text_len-length l v.0, text_len-length r v.1, length-append (to_list l) (to_list r))

pub newline_count-count_newlines :
    (t : Node) → IsCached t → newline_count t ≡ count_newlines (to_list t)
newline_count-count_newlines (leaf buf n) v = v
newline_count-count_newlines (branch l r ll tl tn h) v = omega (
  arith,
  newline_count-count_newlines l v.0,
  newline_count-count_newlines r v.1,
  count_newlines-append (to_list l) (to_list r),
)

pub text_len_pos : (t : Node) → IsTree t → 0 < text_len t
text_len_pos (leaf buf n) v = v.1
text_len_pos (branch l r ll tl tn h) v = omega (arith, text_len_pos l v.0)

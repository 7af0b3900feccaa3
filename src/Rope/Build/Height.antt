-- ===== src/Rope/Build/Height.antt =====
-- The shape of a built rope: its height is logarithmic, up to four chunks it is an AVL tree, and at
-- five chunks it is not.
use native.Mathlib.Nat.{pow-suc}
use mf.Prelude.{
  ℕ, zero, suc, ◌+◌, ◌-◌, ◌*◌, ◌^◌, ◌≤◌, ◌<◌, ◌≡◌, refl, arith, List, [], ◌∷◌, length, All, inl,
  inr, Bool-cases, ◌==◌,
}
use mf.Rope.Node.{Node, leaf_max, new_branch, height}
use mf.Rope.Shape.{IsAvl, IsAvlRope, IsTree}
use mf.Rope.Build.{
  chunk_count, chunk_leaf, chunk_leaves, merge_pairs, merge_rounds, build_rope_from_slice,
}
use mf.Rope.Build.Laws.{build_rope_from_slice-IsRope}

AtMost : ℕ → Node → Type 0
AtMost b node = height node ≤ b

length-merge_pairs_half : (nodes : List Node) → 2 * length (merge_pairs nodes) ≤ length nodes + 1
unfolding merge_pairs
length-merge_pairs_half [] = omega arith
length-merge_pairs_half (l ∷ []) = omega arith
length-merge_pairs_half (l ∷ r ∷ nodes) = omega (arith, length-merge_pairs_half nodes)

merge_pairs-AtMost :
    (b : ℕ) (nodes : List Node) → All (AtMost b) nodes → All (AtMost (suc b)) (merge_pairs nodes)
unfolding merge_pairs AtMost
merge_pairs-AtMost b [] h = tt
merge_pairs-AtMost b (l ∷ []) h = (omega arith, tt)
merge_pairs-AtMost b (l ∷ r ∷ nodes) (hl, (hr, hs)) = (omega arith, merge_pairs-AtMost b nodes hs)

-- Each round halves the row and adds a level.
merge_rounds-height :
    (fuel k b : ℕ) (node : Node) (nodes : List Node)
    → suc (length nodes) ≤ 2 ^ k
    → AtMost b node
    → All (AtMost b) nodes
    → height (merge_rounds fuel node nodes) ≤ b + k
unfolding merge_rounds AtMost
merge_rounds-height fuel k b node [] h p ps = omega arith
merge_rounds-height zero k b node (next ∷ nodes) h p ps = omega arith
merge_rounds-height (suc fuel) zero b node (next ∷ nodes) h p ps = absurd (omega arith)
merge_rounds-height (suc fuel) (suc k) b node (next ∷ nodes) h p (pn, ps) = omega (
  arith,
  merge_rounds-height fuel k (suc b) (new_branch node next) (merge_pairs nodes)
      (omega (arith, pow-suc 2 k, length-merge_pairs_half nodes)) (omega arith)
      (merge_pairs-AtMost b nodes ps),
)

chunk_leaves-AtMost : (text : List ℕ) (i count : ℕ) → All (AtMost 0) (chunk_leaves text i count)
unfolding chunk_leaves AtMost
chunk_leaves-AtMost text i zero = tt
chunk_leaves-AtMost text i (suc count) = (omega arith, chunk_leaves-AtMost text (i + 1) count)

length-chunk_leaves : (text : List ℕ) (i count : ℕ) → length (chunk_leaves text i count) ≡ count
unfolding chunk_leaves
length-chunk_leaves text i zero = refl
length-chunk_leaves text i (suc count) = omega (arith, length-chunk_leaves text (i + 1) count)

-- A slice of at most 2 ^ k chunks builds a rope of height at most k.
pub height-build_rope_from_slice :
    (text : List ℕ) (k : ℕ) → chunk_count text ≤ 2 ^ k → height (build_rope_from_slice text) ≤ k
unfolding build_rope_from_slice chunk_leaf AtMost
height-build_rope_from_slice [] k h = omega arith
height-build_rope_from_slice (cp ∷ text) k h = elim (Bool-cases (chunk_count (cp ∷ text) == 1)) [
  | inl one ↦ rw one (omega arith)
  | inr more ↦ rw more (
      let n = chunk_count (cp ∷ text) in
      omega (
        arith,
        merge_rounds-height n k 0 (chunk_leaf (cp ∷ text) 0) (chunk_leaves (cp ∷ text) 1 (n - 1))
            (omega (arith, length-chunk_leaves (cp ∷ text) 1 (n - 1))) (omega arith)
            (chunk_leaves-AtMost (cp ∷ text) 1 (n - 1)),
      ))
]

-- The rope that the rounds make of the leaves of `chunks` chunks.
abbrev merged : List ℕ → ℕ → Node
merged text chunks = merge_rounds chunks (chunk_leaf text 0) (chunk_leaves text 1 (chunks - 1))

merged-IsAvl :
    (text : List ℕ) (chunks : ℕ)
    → chunks ≤ 4
    → IsTree (merged text chunks)
    → IsAvl (merged text chunks)
unfolding merge_rounds chunk_leaves
merged-IsAvl text zero h v = v
merged-IsAvl text (suc zero) h v = v
merged-IsAvl text (suc (suc zero)) h v =
    (v.0, v.1, refl, refl, refl, refl, omega arith, omega arith)
merged-IsAvl text (suc (suc (suc zero))) h v =
    let p = v.0 in
    (
      (p.0, p.1, refl, refl, refl, refl, omega arith, omega arith),
      v.1,
      refl,
      refl,
      refl,
      refl,
      omega arith,
      omega arith,
    )
merged-IsAvl text (suc (suc (suc (suc zero)))) h v =
    let p = v.0 in
    let q = v.1 in
    (
      (p.0, p.1, refl, refl, refl, refl, omega arith, omega arith),
      (q.0, q.1, refl, refl, refl, refl, omega arith, omega arith),
      refl,
      refl,
      refl,
      refl,
      omega arith,
      omega arith,
    )
merged-IsAvl text (suc (suc (suc (suc (suc n))))) h v = absurd (omega arith)

-- A slice of at most four chunks builds an AVL tree, or the empty leaf.
pub build_rope_from_slice-IsAvlRope :
    (text : List ℕ) → length text ≤ 4 * leaf_max → IsAvlRope (build_rope_from_slice text)
unfolding build_rope_from_slice merged-IsAvl
build_rope_from_slice-IsAvlRope [] h = inr refl
build_rope_from_slice-IsAvlRope (cp ∷ text) h = elim (build_rope_from_slice-IsRope (cp ∷ text)) [
  | inr e ↦ inr e
  | inl v ↦ elim (Bool-cases (chunk_count (cp ∷ text) == 1)) [
    | inl one ↦ rw one (inl (rw one at v))
    | inr more ↦
        rw more
          (inl (merged-IsAvl (cp ∷ text) (chunk_count (cp ∷ text)) (omega arith) (rw more at v)))
  ]
]

merged_five : (text : List ℕ) → ¬ (IsAvlRope (merged text 5))
unfolding merge_rounds chunk_leaves
merged_five text (inl v) = absurd (omega (arith, v.6))
merged_five text (inr e) = cc

-- A slice of five chunks builds a rope that is no AVL tree, and not the empty leaf.
pub build_rope_from_slice_unbalanced :
    (text : List ℕ)
    → 4 * leaf_max < length text
    → length text ≤ 5 * leaf_max
    → ¬ (IsAvlRope (build_rope_from_slice text))
unfolding build_rope_from_slice
build_rope_from_slice_unbalanced [] lo hi v = absurd (omega arith)
build_rope_from_slice_unbalanced (cp ∷ text) lo hi v =
    let five : chunk_count (cp ∷ text) ≡ 5 = omega arith in merged_five (cp ∷ text) (rw five at v)

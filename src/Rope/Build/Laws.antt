-- ===== src/Rope/Build/Laws.antt =====
-- `build_rope_from_slice` gives a well-formed rope that holds the slice.
use mf.Prelude.{
  ℕ, zero, suc, ◌+◌, ◌-◌, ◌*◌, ◌≤◌, ◌<◌, ◌≡◌, refl, sym, arith, List, [], ◌∷◌, ◌++◌, append_assoc,
  ◌∙◌, ap, ap₂, length, All, inl, inr, Bool-cases, ◌==◌, min, drop, take, drop-take-append,
  take-min_length, length-take, length-drop, ==→eq, drop_all, append-nil,
}
use mf.Rope.Node.{Node, leaf_max, new_branch}
use mf.Rope.Shape.{to_list, IsTree, IsRope}
use mf.Rope.Concat.{new_branch-IsTree}
use mf.Rope.Build.{
  chunk_count, chunk_leaf, chunk_leaves, merge_pairs, merge_rounds, build_rope_from_slice,
}

-- The text of a row of nodes.
abbrev texts : List Node → List ℕ
texts [] = []
texts (node ∷ nodes) = to_list node ++ texts nodes

texts-merge_pairs : (nodes : List Node) → texts (merge_pairs nodes) ≡ texts nodes
unfolding merge_pairs
texts-merge_pairs [] = refl
texts-merge_pairs (l ∷ []) = refl
texts-merge_pairs (l ∷ r ∷ nodes) =
    append_assoc (to_list l) (to_list r) _
    ∙ ap (λ t. to_list l ++ (to_list r ++ t)) (texts-merge_pairs nodes)

pub length-merge_pairs : (nodes : List Node) → length (merge_pairs nodes) ≤ length nodes
unfolding merge_pairs
length-merge_pairs [] = omega arith
length-merge_pairs (l ∷ []) = omega arith
length-merge_pairs (l ∷ r ∷ nodes) = omega (arith, length-merge_pairs nodes)

merge_pairs-IsTree : (nodes : List Node) → All IsTree nodes → All IsTree (merge_pairs nodes)
unfolding merge_pairs
merge_pairs-IsTree [] v = tt
merge_pairs-IsTree (l ∷ []) v = v
merge_pairs-IsTree (l ∷ r ∷ nodes) (vl, (vr, vs)) =
    (new_branch-IsTree l r vl vr, merge_pairs-IsTree nodes vs)

-- With a round for each further node, all texts are in the result.
merge_rounds_lem :
    (fuel : ℕ) (node : Node) (nodes : List Node)
    → length nodes ≤ fuel
    → IsTree node
    → All IsTree nodes
    → IsTree (merge_rounds fuel node nodes)
      × (to_list (merge_rounds fuel node nodes) ≡ to_list node ++ texts nodes)
unfolding merge_rounds
merge_rounds_lem zero node [] h v vs = (v, sym (append-nil (to_list node)))
merge_rounds_lem (suc fuel) node [] h v vs = (v, sym (append-nil (to_list node)))
merge_rounds_lem zero node (next ∷ nodes) h v vs = absurd (omega arith)
merge_rounds_lem (suc fuel) node (next ∷ nodes) h v (vn, vs) =
    let (w, text) =
      merge_rounds_lem fuel (new_branch node next) (merge_pairs nodes)
        (omega (arith, length-merge_pairs nodes)) (new_branch-IsTree node next v vn)
        (merge_pairs-IsTree nodes vs) in
    (
      w,
      text
          ∙ append_assoc (to_list node) (to_list next) (texts (merge_pairs nodes))
          ∙ ap (λ t. to_list node ++ (to_list next ++ t)) (texts-merge_pairs nodes),
    )

to_list-chunk_leaf :
    (text : List ℕ) (i : ℕ)
    → to_list (chunk_leaf text i) ≡ drop (i * leaf_max) (take (i * leaf_max + leaf_max) text)
unfolding chunk_leaf
to_list-chunk_leaf text i =
    ap (drop (i * leaf_max)) (take-min_length (i * leaf_max + leaf_max) text)

chunk_leaf-IsTree :
    (text : List ℕ) (i : ℕ) → i * leaf_max < length text → IsTree (chunk_leaf text i)
unfolding chunk_leaf
chunk_leaf-IsTree text i h =
    let stop = min (i * leaf_max + leaf_max) (length text) in
    let size = length-drop (i * leaf_max) (take stop text) in
    (refl, omega (arith, size, length-take stop text), omega (arith, size, length-take stop text))

chunk_leaves_lem :
    (text : List ℕ) (i count : ℕ)
    → length text ≤ (i + count) * leaf_max
    → (i + count) * leaf_max < length text + leaf_max
    → All IsTree (chunk_leaves text i count)
      × (texts (chunk_leaves text i count) ≡ drop (i * leaf_max) text)
unfolding chunk_leaves
chunk_leaves_lem text i zero h k = (tt, sym (drop_all (i * leaf_max) text (omega arith)))
chunk_leaves_lem text i (suc count) h k =
    let (vs, rest) = chunk_leaves_lem text (i + 1) count (omega arith) (omega arith) in
    let next : (i + 1) * leaf_max ≡ i * leaf_max + leaf_max = omega arith in
    (
      (chunk_leaf-IsTree text i (omega arith), vs),
      ap₂ ◌++◌ (to_list-chunk_leaf text i) (rest ∙ ap (λ (n : ℕ). drop n text) next)
          ∙ drop-take-append (i * leaf_max) leaf_max text,
    )

length-chunk_leaves : (text : List ℕ) (i count : ℕ) → length (chunk_leaves text i count) ≡ count
unfolding chunk_leaves
length-chunk_leaves text i zero = refl
length-chunk_leaves text i (suc count) = ap suc (length-chunk_leaves text (i + 1) count)

rounds_lem :
    (text : List ℕ) (m : ℕ)
    → length text ≤ (0 + suc m) * leaf_max
    → (0 + suc m) * leaf_max < length text + leaf_max
    → IsTree (merge_rounds (suc m) (chunk_leaf text 0) (chunk_leaves text 1 m))
      × (to_list (merge_rounds (suc m) (chunk_leaf text 0) (chunk_leaves text 1 m)) ≡ text)
unfolding chunk_leaves
rounds_lem text m h k =
    let ((v, vs), all) = chunk_leaves_lem text 0 (suc m) h k in
    let (w, t) =
      merge_rounds_lem (suc m) (chunk_leaf text 0) (chunk_leaves text 1 m)
        (omega (arith, length-chunk_leaves text 1 m)) v vs in
    (w, t ∙ all)

rounds_at :
    (text : List ℕ) (chunks : ℕ)
    → 0 < chunks
    → length text ≤ chunks * leaf_max
    → chunks * leaf_max < length text + leaf_max
    → IsTree (merge_rounds chunks (chunk_leaf text 0) (chunk_leaves text 1 (chunks - 1)))
      × (to_list (merge_rounds chunks (chunk_leaf text 0) (chunk_leaves text 1 (chunks - 1)))
          ≡ text)
rounds_at text zero pos h k = absurd (omega arith)
rounds_at text (suc m) pos h k =
    let e : suc m - 1 ≡ m = omega arith in rw e (rounds_lem text m (omega arith) (omega arith))

build_lem :
    (text : List ℕ)
    → IsRope (build_rope_from_slice text) × (to_list (build_rope_from_slice text) ≡ text)
unfolding build_rope_from_slice
build_lem [] = (inr refl, refl)
build_lem (cp ∷ text) = elim (Bool-cases (chunk_count (cp ∷ text) == 1)) [
  | inl one ↦
      let n = ==→eq (chunk_count (cp ∷ text)) 1 one in
      rw one (inl (refl, omega arith, omega arith), refl)
  | inr more ↦
      let (w, t) =
        rounds_at (cp ∷ text) (chunk_count (cp ∷ text)) (omega arith) (omega arith) (omega arith) in
      rw more (inl w, t)
]

pub build_rope_from_slice-IsRope : (text : List ℕ) → IsRope (build_rope_from_slice text)
build_rope_from_slice-IsRope text = (build_lem text).0

pub to_list-build_rope_from_slice : (text : List ℕ) → to_list (build_rope_from_slice text) ≡ text
to_list-build_rope_from_slice text = (build_lem text).1

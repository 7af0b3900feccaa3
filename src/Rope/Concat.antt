-- ===== src/Rope/Concat.antt =====
-- `join_nodes` is concatenation: it keeps the text and the caches of any two ropes.
use mf.Prelude.{
  ℕ, ◌+◌, ◌≤◌, ◌<◌, ◌≡◌, refl, sym, arith, ◌++◌, append_assoc, ltb, leb, inl, inr, Bool-cases, ◌∙◌,
  ap, ◌==◌, some, length, length-append, leb→le, append-nil, false, true, Option-cases,
}
use mf.Rope.Node.{Node, leaf, branch, text_len, height, new_branch, new_leaf, leaf_max, empty_leaf}
use mf.Rope.Join.{join_nodes, join_step, merge_leaves, abs_diff, balance, rotate_left, rotate_right}
use mf.Rope.Shape.{to_list, IsTree, IsRope, text_len_pos}

pub new_branch-IsTree : (l r : Node) → IsTree l → IsTree r → IsTree (new_branch l r)
new_branch-IsTree l r vl vr = (vl, vr, refl, refl, refl, refl)

rotate_right-IsTree : (t : Node) → IsTree t → IsTree (rotate_right t)
unfolding rotate_right
rotate_right-IsTree (leaf b n) v = v
rotate_right-IsTree (branch (leaf b n) r e f g h) v = new_branch-IsTree (leaf b n) r v.0 v.1
rotate_right-IsTree (branch (branch x y a c d i) r e f g h) v =
    new_branch-IsTree x (new_branch y r) v.0.0 (new_branch-IsTree y r v.0.1 v.1)

rotate_left-IsTree : (t : Node) → IsTree t → IsTree (rotate_left t)
unfolding rotate_left
rotate_left-IsTree (leaf b n) v = v
rotate_left-IsTree (branch l (leaf b n) e f g h) v = new_branch-IsTree l (leaf b n) v.0 v.1
rotate_left-IsTree (branch l (branch x y a c d i) e f g h) v =
    new_branch-IsTree (new_branch l x) y (new_branch-IsTree l x v.0 v.1.0) v.1.1

balance-IsTree : (t : Node) → IsTree t → IsTree (balance t)
unfolding balance
balance-IsTree (leaf b n) v = v
balance-IsTree (branch l r a c d h) v = ground (
  arith,
  rotate_right-IsTree (new_branch (rotate_left l) r)
      (new_branch-IsTree (rotate_left l) r (rotate_left-IsTree l v.0) v.1),
  rotate_right-IsTree (new_branch l r) (new_branch-IsTree l r v.0 v.1),
  rotate_left-IsTree (new_branch l (rotate_right r))
      (new_branch-IsTree l (rotate_right r) v.0 (rotate_right-IsTree r v.1)),
  rotate_left-IsTree (new_branch l r) (new_branch-IsTree l r v.0 v.1),
)

to_list-rotate_right : (t : Node) → to_list (rotate_right t) ≡ to_list t
unfolding rotate_right
to_list-rotate_right (leaf b n) = refl
to_list-rotate_right (branch (leaf b n) r e f g h) = refl
to_list-rotate_right (branch (branch x y a c d i) r e f g h) =
    sym (append_assoc (to_list x) (to_list y) (to_list r))

to_list-rotate_left : (t : Node) → to_list (rotate_left t) ≡ to_list t
unfolding rotate_left
to_list-rotate_left (leaf b n) = refl
to_list-rotate_left (branch l (leaf b n) e f g h) = refl
to_list-rotate_left (branch l (branch x y a c d i) e f g h) =
    append_assoc (to_list l) (to_list x) (to_list y)

to_list-balance : (t : Node) → to_list (balance t) ≡ to_list t
unfolding balance
to_list-balance (leaf b n) = refl
to_list-balance (branch l r a c d h) = ground (
  arith,
  to_list-rotate_right (new_branch (rotate_left l) r),
  to_list-rotate_right (new_branch l r),
  to_list-rotate_left (new_branch l (rotate_right r)),
  to_list-rotate_left (new_branch l r),
  to_list-rotate_left l,
  to_list-rotate_right r,
)

not_zero : (n : ℕ) → 0 < n → (n == 0) ≡ false
not_zero n h = ground arith

-- A merged leaf holds both texts.
pub merge_leaves_lem :
    (l r m : Node)
    → IsTree l
    → IsTree r
    → merge_leaves l r ≡ some m
    → IsTree m
      × (to_list m ≡ to_list l ++ to_list r)
      × (height l ≡ 0)
      × (height r ≡ 0)
      × (height m ≡ 0)
merge_leaves_lem (leaf a n) (leaf b k) m vl vr e =
    elim (Bool-cases (leb (length a + length b) leaf_max)) [
      | inl fits ↦
          let p : m ≡ new_leaf (a ++ b) = ground arith in
          let bound = leb→le (length a + length b) leaf_max fits in
          rw p (
            (refl, omega (arith, length-append a b), omega (arith, length-append a b)),
            refl,
            refl,
            refl,
            refl,
          )
      | inr not_fits ↦ ground arith
    ]
merge_leaves_lem (leaf a n) (branch x y c d e f) m vl vr p = cc
merge_leaves_lem (branch x y c d e f) r m vl vr p = cc

close : (a b : ℕ) → leb (abs_diff a b) 1 ≡ true → (a ≤ 1 + b) × (b ≤ 1 + a)
close a b h = ground arith

far_left : (a b : ℕ) → leb (abs_diff a b) 1 ≡ false → ltb b a ≡ true → 2 + b ≤ a
far_left a b h k = ground arith

far_right : (a b : ℕ) → leb (abs_diff a b) 1 ≡ false → ltb b a ≡ false → 2 + a ≤ b
far_right a b h k = ground arith

-- Whatever holds of each arm at the heights that lead to it holds of the result.
pub join_step_cases :
    (P : Node → Type 0) (l r left_taller right_taller : Node)
    → 0 < text_len l
    → 0 < text_len r
    → ((m : Node) → merge_leaves l r ≡ some m → P m)
    → (height l ≤ 1 + height r → height r ≤ 1 + height l → P (new_branch l r))
    → (2 + height r ≤ height l → P left_taller)
    → (2 + height l ≤ height r → P right_taller)
    → P (join_step l r left_taller right_taller)
unfolding join_step
join_step_cases P l r tl tr pl pr merged level on_left on_right =
    rw (not_zero (text_len l) pl, not_zero (text_len r) pr)
      (elim (Option-cases (merge_leaves l r)) [
        | inr (m, e) ↦ rw e (merged m e)
        | inl e ↦ rw e (elim (Bool-cases (leb (abs_diff (height l) (height r)) 1)) [
          | inl c ↦ let (p, q) = close (height l) (height r) c in rw c (level p q)
          | inr c ↦ elim (Bool-cases (ltb (height r) (height l))) [
            | inl d ↦ rw (c, d) (on_left (far_left (height l) (height r) c d))
            | inr d ↦ rw (c, d) (on_right (far_right (height l) (height r) c d))
          ]
        ])
      ])

-- A tree that holds both texts.
abbrev Joins : Node → Node → Node → Type 0
Joins l r t = IsTree t × (to_list t ≡ to_list l ++ to_list r)

join_step-Joins :
    (l r tl tr : Node)
    → IsTree l
    → IsTree r
    → (2 + height r ≤ height l → Joins l r tl)
    → (2 + height l ≤ height r → Joins l r tr)
    → Joins l r (join_step l r tl tr)
join_step-Joins l r tl tr vl vr on_left on_right =
    join_step_cases (Joins l r) l r tl tr (text_len_pos l vl) (text_len_pos r vr)
      (λ m e. let q = merge_leaves_lem l r m vl vr e in (q.0, q.1))
      (λ p q. (new_branch-IsTree l r vl vr, refl)) on_left on_right

left_arm :
    (ll lr r j : Node)
    → IsTree ll
    → Joins lr r j
    → IsTree (balance (new_branch ll j))
      × (to_list (balance (new_branch ll j)) ≡ (to_list ll ++ to_list lr) ++ to_list r)
left_arm ll lr r j vl (vj, text) = (
  balance-IsTree (new_branch ll j) (new_branch-IsTree ll j vl vj),
  to_list-balance (new_branch ll j)
      ∙ ap (to_list ll ++◌) text
      ∙ sym (append_assoc (to_list ll) (to_list lr) (to_list r)),
)

right_arm :
    (l rl rr j : Node)
    → IsTree rr
    → Joins l rl j
    → IsTree (balance (new_branch j rr))
      × (to_list (balance (new_branch j rr)) ≡ to_list l ++ (to_list rl ++ to_list rr))
right_arm l rl rr j vr (vj, text) = (
  balance-IsTree (new_branch j rr) (new_branch-IsTree j rr vj vr),
  to_list-balance (new_branch j rr)
      ∙ ap (λ t. t ++ to_list rr) text
      ∙ append_assoc (to_list l) (to_list rl) (to_list rr),
)

join_nodes-Joins : (l r : Node) → IsTree l → IsTree r → Joins l r (join_nodes l r)
unfolding join_nodes
join_nodes-Joins (leaf lb ln) (leaf rb rn) vl vr =
    join_step-Joins (leaf lb ln) (leaf rb rn) (leaf lb ln) (leaf rb rn) vl vr
      (λ far. absurd (omega arith)) (λ far. absurd (omega arith))
join_nodes-Joins (leaf lb ln) (branch rl rr e f g h) vl vr =
    join_step-Joins (leaf lb ln) (branch rl rr e f g h) _ _ vl vr (λ far. absurd (omega arith))
      (λ far. right_arm (leaf lb ln) rl rr _ vr.1 (join_nodes-Joins (leaf lb ln) rl vl vr.0))
join_nodes-Joins (branch ll lr a b c d) (leaf rb rn) vl vr =
    join_step-Joins (branch ll lr a b c d) (leaf rb rn) _ _ vl vr
      (λ far. left_arm ll lr (leaf rb rn) _ vl.0 (join_nodes-Joins lr (leaf rb rn) vl.1 vr))
      (λ far. absurd (omega arith))
join_nodes-Joins (branch ll lr a b c d) (branch rl rr e f g h) vl vr =
    let left = branch ll lr a b c d in
    let right = branch rl rr e f g h in
    join_step-Joins left right _ _ vl vr
      (λ far. left_arm ll lr right _ vl.0 (join_nodes-Joins lr (branch rl rr e f g h) vl.1 vr))
      (λ far. right_arm left rl rr _ vr.1 (join_nodes-Joins (branch ll lr a b c d) rl vl vr.0))

pub join_nodes_empty : (r : Node) → join_nodes empty_leaf r ≡ r
unfolding join_nodes join_step
join_nodes_empty (leaf b n) = refl
join_nodes_empty (branch l r a b c h) = refl

pub join_nodes-empty_leaf : (l : Node) → IsTree l → join_nodes l empty_leaf ≡ l
unfolding join_nodes join_step
join_nodes-empty_leaf (leaf b n) v = rw (not_zero (length b) v.1)
join_nodes-empty_leaf (branch l r a b c h) v = rw (not_zero b (text_len_pos (branch l r a b c h) v))

pub join_nodes-IsTree : (l r : Node) → IsTree l → IsTree r → IsTree (join_nodes l r)
join_nodes-IsTree l r vl vr = (join_nodes-Joins l r vl vr).0

-- Joining keeps ropes well formed, an empty one included.
pub join_nodes-IsRope : (l r : Node) → IsRope l → IsRope r → IsRope (join_nodes l r)
join_nodes-IsRope l r (inl vl) (inl vr) = inl (join_nodes-IsTree l r vl vr)
join_nodes-IsRope l r (inr el) vr = rw (el, join_nodes_empty r) vr
join_nodes-IsRope l r (inl vl) (inr er) = rw (er, join_nodes-empty_leaf l vl) (inl vl)

-- `join_nodes` concatenates the texts of two well-formed ropes.
pub to_list-join_nodes :
    (l r : Node) → IsRope l → IsRope r → to_list (join_nodes l r) ≡ to_list l ++ to_list r
to_list-join_nodes l r (inl vl) (inl vr) = (join_nodes-Joins l r vl vr).1
to_list-join_nodes l r (inr el) vr = rw (el, join_nodes_empty r)
to_list-join_nodes l r (inl vl) (inr er) =
    rw (er, join_nodes-empty_leaf l vl) (sym (append-nil (to_list l)))

-- ===== src/Rope/Avl.antt =====
-- Between AVL trees `join_nodes` makes an AVL tree, at most one level above the higher one.
use native.Mathlib.Nat.{pow-suc}
use mf.Prelude.{
  ℕ, zero, suc, ◌+◌, ◌-◌, ◌*◌, ◌^◌, ◌≤◌, ◌≡◌, refl, arith, inl, inr, true, false, Bool-cases, ◌==◌,
  leb, ltb, length, ==→ne, leb→lt, leb→le, ◌<◌,
}
use mf.Rope.Node.{Node, leaf, branch, height, new_branch, text_len}
use mf.Rope.Join.{join_nodes, join_step, balance}
use mf.Rope.Shape.{IsTree, IsAvl, IsAvlRope, IsAvl-IsTree, text_len_pos}
use mf.Rope.Balance.{IsJoin, new_branch-IsAvl, balance-IsJoin, height-balance}
use mf.Rope.Split.{split_node, insert_node, delete_range}
use mf.Rope.Cut.{cut_leaf-IsTree}
use mf.Rope.Concat.{join_step_cases, merge_leaves_lem, join_nodes_empty, join_nodes-empty_leaf}

flat-IsAvl : (m : Node) → IsTree m → height m ≡ 0 → IsAvl m
flat-IsAvl (leaf b n) v e = v
flat-IsAvl (branch l r a b c h) v e = absurd (omega arith)

join_step-IsJoin :
    (l r tl tr : Node)
    → IsAvl l
    → IsAvl r
    → (2 + height r ≤ height l → IsJoin l r tl)
    → (2 + height l ≤ height r → IsJoin l r tr)
    → IsJoin l r (join_step l r tl tr)
join_step-IsJoin l r tl tr vl vr on_left on_right =
    let wl = IsAvl-IsTree l vl in
    let wr = IsAvl-IsTree r vr in
    join_step_cases (IsJoin l r) l r tl tr (text_len_pos l wl) (text_len_pos r wr)
      (λ m e.
        let q = merge_leaves_lem l r m wl wr e in (flat-IsAvl m q.0 q.4, omega arith, omega arith))
      (λ p q. (new_branch-IsAvl l r vl vr p q, omega arith, omega arith)) on_left on_right

left_arm :
    (ll lr r j : Node) (a b c h : ℕ)
    → IsAvl (branch ll lr a b c h)
    → IsAvl r
    → 2 + height r ≤ h
    → IsJoin lr r j
    → IsJoin (branch ll lr a b c h) r (balance (new_branch ll j))
left_arm ll lr r j a b c h vl vr far (vj, low, high) =
    let (v, lo, hi) = balance-IsJoin ll j vl.0 vj (omega arith) (omega arith) in
    (v, omega (arith, height-balance ll j), omega arith)

right_arm :
    (l rl rr j : Node) (a b c h : ℕ)
    → IsAvl l
    → IsAvl (branch rl rr a b c h)
    → 2 + height l ≤ h
    → IsJoin l rl j
    → IsJoin l (branch rl rr a b c h) (balance (new_branch j rr))
right_arm l rl rr j a b c h vl vr far (vj, low, high) =
    let (v, lo, hi) = balance-IsJoin j rr vj vr.1 (omega arith) (omega arith) in
    (v, omega (arith, height-balance j rr), omega arith)

-- The heights in which `join_nodes` may recurse make its arms well-formed joins.
pub join_nodes-IsJoin : (l r : Node) → IsAvl l → IsAvl r → IsJoin l r (join_nodes l r)
unfolding join_nodes
join_nodes-IsJoin (leaf lb ln) (leaf rb rn) vl vr =
    join_step-IsJoin (leaf lb ln) (leaf rb rn) (leaf lb ln) (leaf rb rn) vl vr
      (λ far. absurd (omega arith)) (λ far. absurd (omega arith))
join_nodes-IsJoin (leaf lb ln) (branch rl rr e f g h) vl vr =
    join_step-IsJoin (leaf lb ln) (branch rl rr e f g h) _ _ vl vr (λ far. absurd (omega arith))
      (λ far.
        right_arm (leaf lb ln) rl rr _ e f g h vl vr far
          (join_nodes-IsJoin (leaf lb ln) rl vl vr.0))
join_nodes-IsJoin (branch ll lr a b c d) (leaf rb rn) vl vr =
    join_step-IsJoin (branch ll lr a b c d) (leaf rb rn) _ _ vl vr
      (λ far.
        left_arm ll lr (leaf rb rn) _ a b c d vl vr far (join_nodes-IsJoin lr (leaf rb rn) vl.1 vr))
      (λ far. absurd (omega arith))
join_nodes-IsJoin (branch ll lr a b c d) (branch rl rr e f g h) vl vr =
    join_step-IsJoin (branch ll lr a b c d) (branch rl rr e f g h) _ _ vl vr
      (λ far.
        left_arm ll lr (branch rl rr e f g h) _ a b c d vl vr far
          (join_nodes-IsJoin lr (branch rl rr e f g h) vl.1 vr))
      (λ far.
        right_arm (branch ll lr a b c d) rl rr _ e f g h vl vr far
          (join_nodes-IsJoin (branch ll lr a b c d) rl vl vr.0))

-- `join_nodes` of two ropes that are AVL trees, or empty, is one.
pub join_nodes-IsAvlRope : (l r : Node) → IsAvlRope l → IsAvlRope r → IsAvlRope (join_nodes l r)
join_nodes-IsAvlRope l r (inl vl) (inl vr) = inl (join_nodes-IsJoin l r vl vr).0
join_nodes-IsAvlRope l r (inr el) vr = rw (el, join_nodes_empty r) vr
join_nodes-IsAvlRope l r (inl vl) (inr er) =
    rw (er, join_nodes-empty_leaf l (IsAvl-IsTree l vl)) (inl vl)

-- An AVL tree of height at least 2 k holds at least 2 ^ k code points.
two_pow-le-text_len : (t : Node) (k : ℕ) → IsAvl t → 2 * k ≤ height t → 2 ^ k ≤ text_len t
two_pow-le-text_len (leaf b n) zero v h = v.1
two_pow-le-text_len (leaf b n) (suc k) v h = absurd (omega arith)
two_pow-le-text_len (branch l r a b c d) zero v h =
    omega (arith, text_len_pos (branch l r a b c d) (IsAvl-IsTree (branch l r a b c d) v))
two_pow-le-text_len (branch l r a b c d) (suc k) v h = omega (
  arith,
  pow-suc 2 k,
  two_pow-le-text_len l k v.0 (omega arith),
  two_pow-le-text_len r k v.1 (omega arith),
)

split_node-IsAvlRope_tree :
    (t : Node) (cut : ℕ) → IsAvl t → IsAvlRope (split_node t cut).0 × IsAvlRope (split_node t cut).1
unfolding split_node
split_node-IsAvlRope_tree (leaf buf n) cut v = elim (Bool-cases (cut == 0)) [
  | inl z ↦ rw z (inr refl, inl v)
  | inr nz ↦ elim (Bool-cases (leb (length buf) cut)) [
    | inl past ↦ rw (nz, past) (inl v, inr refl)
    | inr inside ↦
        let (p, q) =
          cut_leaf-IsTree buf cut v.2 (==→ne cut 0 nz) (leb→lt (length buf) cut inside) in
        rw (nz, inside) (inl p, inl q)
  ]
]
split_node-IsAvlRope_tree (branch l r a b c h) cut v = elim (Bool-cases (cut == 0)) [
  | inl z ↦ rw z (inr refl, inl v)
  | inr nz ↦ elim (Bool-cases (leb b cut)) [
    | inl past ↦ rw (nz, past) (inl v, inr refl)
    | inr inside ↦ elim (Bool-cases (cut == a)) [
      | inl e ↦ rw (nz, inside, e) (inl v.0, inl v.1)
      | inr ne ↦ elim (Bool-cases (ltb cut a)) [
        | inl lt ↦
            let (p, q) = split_node-IsAvlRope_tree l cut v.0 in
            rw (nz, inside, ne, lt) (p, join_nodes-IsAvlRope (split_node l cut).1 r q (inl v.1))
        | inr ge ↦
            let (p, q) = split_node-IsAvlRope_tree r (cut - a) v.1 in
            rw (nz, inside, ne, ge)
              (join_nodes-IsAvlRope l (split_node r (cut - a)).0 (inl v.0) p, q)
      ]
    ]
  ]
]

-- Splitting a rope that is an AVL tree, or empty, at any position gives two such ropes.
pub split_node-IsAvlRope :
    (t : Node) (cut : ℕ)
    → IsAvlRope t
    → IsAvlRope (split_node t cut).0 × IsAvlRope (split_node t cut).1
unfolding split_node
split_node-IsAvlRope t cut (inl v) = split_node-IsAvlRope_tree t cut v
split_node-IsAvlRope t zero (inr e) = rw e (inr refl, inr refl)
split_node-IsAvlRope t (suc cut) (inr e) =
    let z : (suc cut == 0) ≡ false = ground arith in
    let u : leb 0 (suc cut) ≡ true = ground arith in rw (e, z, u) (inr refl, inr refl)

pub insert_node-IsAvlRope :
    (root insertion : Node) (at_pos : ℕ)
    → IsAvlRope root
    → IsAvlRope insertion
    → IsAvlRope (insert_node root at_pos insertion)
unfolding insert_node
insert_node-IsAvlRope root ins at_pos v vi =
    let (p, q) = split_node-IsAvlRope root at_pos v in
    join_nodes-IsAvlRope _ _ (join_nodes-IsAvlRope _ ins p vi) q

pub delete_range-IsAvlRope :
    (root : Node) (at_pos count : ℕ) → IsAvlRope root → IsAvlRope (delete_range root at_pos count)
unfolding delete_range
delete_range-IsAvlRope root at_pos count v =
    let (p, q) = split_node-IsAvlRope root at_pos v in
    let (p', q') = split_node-IsAvlRope (split_node root at_pos).1 count q in
    join_nodes-IsAvlRope _ _ p q'

-- The height of a rope of fewer than `2 ^ (k + 1)` code points.
pub height-IsAvlRope :
    (t : Node) (k : ℕ) → IsAvlRope t → text_len t < 2 ^ suc k → height t ≤ 2 * k + 1
height-IsAvlRope t k (inr e) h = rw e (omega arith)
height-IsAvlRope t k (inl v) h = elim (Bool-cases (leb (2 * suc k) (height t))) [
  | inl high ↦
      absurd (omega (arith, two_pow-le-text_len t (suc k) v (leb→le (2 * suc k) (height t) high)))
  | inr low ↦ omega (arith, leb→lt (2 * suc k) (height t) low)
]

-- ===== src/Rope/Cut.antt =====
-- `split_node` is `take` and `drop`, and both parts are well formed; so are the edits made of it.
use mf.Prelude.{
  ℕ, zero, ◌+◌, ◌-◌, ◌≤◌, ◌<◌, ◌≡◌, refl, sym, arith, ◌++◌, append_assoc, ltb, leb, suc, inl, inr,
  Bool-cases, ◌∙◌, ap, ◌==◌, length, leb→le, leb→lt, ltb→lt, ltb→le, ==→eq, ==→ne, false, true,
  take, drop, length-take, length-drop, take_all, drop_all, take-append_le, take-append_ge,
  drop-append_le, drop-append_ge, drop-drop, ap₂, List, ◌≢◌,
}
use mf.Rope.Node.{Node, leaf, branch, new_leaf, empty_leaf, leaf_max}
use mf.Rope.Join.{join_nodes}
use mf.Rope.Split.{split_node, insert_node, delete_range}
use mf.Rope.Shape.{to_list, IsTree, IsRope, text_len-length, IsTree-IsCached}
use mf.Rope.Concat.{join_nodes-IsRope, to_list-join_nodes}

-- Two well-formed ropes that hold the text before and after a position.
abbrev pub Cuts : Node → ℕ → Node × Node → Type 0
Cuts t cut parts =
    IsRope parts.0
    × IsRope parts.1
    × (to_list parts.0 ≡ take cut (to_list t))
    × (to_list parts.1 ≡ drop cut (to_list t))

Cuts-start : (t : Node) (cut : ℕ) → IsRope t → cut ≡ 0 → Cuts t cut (empty_leaf, t)
Cuts-start t cut v e = rw e (inr refl, v, refl, refl)

Cuts-end : (t : Node) (cut : ℕ) → IsRope t → length (to_list t) ≤ cut → Cuts t cut (t, empty_leaf)
Cuts-end t cut v h =
    (v, inr refl, sym (take_all cut (to_list t) h), sym (drop_all cut (to_list t) h))

module _ (l r : Node) (cut : ℕ) where
  abbrev both_texts : List ℕ
  both_texts = to_list l ++ to_list r

  Cuts-middle :
      IsTree l
      → IsTree r
      → cut ≡ length (to_list l)
      → IsRope l × IsRope r × (to_list l ≡ take cut both_texts) × (to_list r ≡ drop cut both_texts)
  Cuts-middle vl vr e = (
    inl vl,
    inl vr,
    sym (
        take-append_le cut (to_list l) (to_list r) (omega arith)
        ∙ take_all cut (to_list l) (omega arith)),
    sym (
        drop-append_le cut (to_list l) (to_list r) (omega arith)
        ∙ ap (λ t. t ++ to_list r) (drop_all cut (to_list l) (omega arith))),
  )

  Cuts-left :
      (parts : Node × Node)
      → IsTree r
      → cut ≤ length (to_list l)
      → Cuts l cut parts
      → IsRope parts.0
        × IsRope (join_nodes parts.1 r)
        × (to_list parts.0 ≡ take cut both_texts)
        × (to_list (join_nodes parts.1 r) ≡ drop cut both_texts)
  Cuts-left parts vr h (v0, v1, t0, t1) = (
    v0,
    join_nodes-IsRope parts.1 r v1 (inl vr),
    t0 ∙ sym (take-append_le cut (to_list l) (to_list r) h),
    to_list-join_nodes parts.1 r v1 (inl vr)
        ∙ ap (λ t. t ++ to_list r) t1
        ∙ sym (drop-append_le cut (to_list l) (to_list r) h),
  )

  Cuts-right :
      (parts : Node × Node)
      → IsTree l
      → length (to_list l) ≤ cut
      → Cuts r (cut - length (to_list l)) parts
      → IsRope (join_nodes l parts.0)
        × IsRope parts.1
        × (to_list (join_nodes l parts.0) ≡ take cut both_texts)
        × (to_list parts.1 ≡ drop cut both_texts)
  Cuts-right parts vl h (v0, v1, t0, t1) = (
    join_nodes-IsRope l parts.0 (inl vl) v0,
    v1,
    to_list-join_nodes l parts.0 (inl vl) v0
        ∙ ap (to_list l ++◌) t0
        ∙ sym (take-append_ge cut (to_list l) (to_list r) h),
    t1 ∙ sym (drop-append_ge cut (to_list l) (to_list r) h),
  )

-- Both parts of a leaf that is cut inside are leaves of the right size.
pub cut_leaf-IsTree :
    (buf : List ℕ) (cut : ℕ)
    → length buf ≤ leaf_max
    → cut ≢ 0
    → cut < length buf
    → IsTree (new_leaf (take cut buf)) × IsTree (new_leaf (drop cut buf))
cut_leaf-IsTree buf cut fits nz lt = (
  (refl, omega (arith, length-take cut buf), omega (arith, length-take cut buf)),
  (refl, omega (arith, length-drop cut buf), omega (arith, length-drop cut buf)),
)

split_node-Cuts : (t : Node) (cut : ℕ) → IsTree t → Cuts t cut (split_node t cut)
unfolding split_node
split_node-Cuts (leaf buf n) cut v = elim (Bool-cases (cut == 0)) [
  | inl z ↦ rw z (Cuts-start (leaf buf n) cut (inl v) (==→eq cut 0 z))
  | inr nz ↦ elim (Bool-cases (leb (length buf) cut)) [
    | inl past ↦ rw (nz, past) (Cuts-end (leaf buf n) cut (inl v) (leb→le (length buf) cut past))
    | inr inside ↦
        let (p, q) =
          cut_leaf-IsTree buf cut v.2 (==→ne cut 0 nz) (leb→lt (length buf) cut inside) in
        rw (nz, inside) (inl p, inl q, refl, refl)
  ]
]
split_node-Cuts (branch l r a b c h) cut v =
    let whole = branch l r a b c h in
    let la : a ≡ length (to_list l) = omega (arith, text_len-length l (IsTree-IsCached l v.0)) in
    elim (Bool-cases (cut == 0)) [
      | inl z ↦ rw z (Cuts-start whole cut (inl v) (==→eq cut 0 z))
      | inr nz ↦ elim (Bool-cases (leb b cut)) [
        | inl past ↦
            rw (nz, past)
              (Cuts-end whole cut (inl v)
                (omega (arith, text_len-length whole (IsTree-IsCached whole v), leb→le b cut past)))
        | inr inside ↦ elim (Bool-cases (cut == a)) [
          | inl e ↦ rw (nz, inside, e) (Cuts-middle l r cut v.0 v.1 (==→eq cut a e ∙ la))
          | inr ne ↦ elim (Bool-cases (ltb cut a)) [
            | inl lt ↦
                rw (nz, inside, ne, lt)
                  (Cuts-left l r cut _ v.1 (omega (arith, ltb→lt cut a lt))
                    (split_node-Cuts l cut v.0))
            | inr ge ↦
                rw (nz, inside, ne, ge)
                  (Cuts-right l r cut _ v.0 (omega (arith, ltb→le cut a ge))
                    (rw (← la) (split_node-Cuts r (cut - a) v.1)))
          ]
        ]
      ]
    ]

split_node-empty_leaf : (cut : ℕ) → Cuts empty_leaf cut (split_node empty_leaf cut)
unfolding split_node
split_node-empty_leaf zero = (inr refl, inr refl, refl, refl)
split_node-empty_leaf (suc cut) =
    let t : (suc cut == 0) ≡ false = ground arith in
    let u : leb 0 (suc cut) ≡ true = ground arith in rw (t, u) (inr refl, inr refl, refl, refl)

-- `split_node` cuts a well-formed rope at any position into two well-formed ropes that hold the text
-- before and after it.
pub split_node_lem : (t : Node) (cut : ℕ) → IsRope t → Cuts t cut (split_node t cut)
split_node_lem t cut (inl v) = split_node-Cuts t cut v
split_node_lem t cut (inr e) = rw e (split_node-empty_leaf cut)

pub insert_node_lem :
    (root insertion : Node) (at_pos : ℕ)
    → IsRope root
    → IsRope insertion
    → IsRope (insert_node root at_pos insertion)
      × (to_list (insert_node root at_pos insertion)
          ≡ take at_pos (to_list root) ++ (to_list insertion ++ drop at_pos (to_list root)))
unfolding insert_node
insert_node_lem root ins at_pos v vi =
    let (v0, v1, t0, t1) = split_node_lem root at_pos v in
    let (l, r) = split_node root at_pos in
    let vj = join_nodes-IsRope l ins v0 vi in
    (
      join_nodes-IsRope (join_nodes l ins) r vj v1,
      to_list-join_nodes (join_nodes l ins) r vj v1
          ∙ ap (λ t. t ++ to_list r) (to_list-join_nodes l ins v0 vi)
          ∙ append_assoc (to_list l) (to_list ins) (to_list r)
          ∙ ap₂ (λ s t. s ++ (to_list ins ++ t)) t0 t1,
    )

pub delete_range_lem :
    (root : Node) (at_pos count : ℕ)
    → IsRope root
    → IsRope (delete_range root at_pos count)
      × (to_list (delete_range root at_pos count)
          ≡ take at_pos (to_list root) ++ drop (at_pos + count) (to_list root))
unfolding delete_range
delete_range_lem root at_pos count v =
    let (v0, v1, t0, t1) = split_node_lem root at_pos v in
    let (before, rest) = split_node root at_pos in
    let (w0, w1, u0, u1) = split_node_lem rest count v1 in
    let (deleted, after) = split_node rest count in
    (
      join_nodes-IsRope before after v0 w1,
      to_list-join_nodes before after v0 w1
          ∙ ap₂ ◌++◌ t0 (u1 ∙ ap (drop count) t1 ∙ drop-drop count at_pos (to_list root)),
    )

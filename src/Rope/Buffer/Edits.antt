-- ===== src/Rope/Buffer/Edits.antt =====
-- What the edits of a buffer do to its text, and that they keep it well formed.
use mf.Prelude.{
  ℕ, zero, suc, ◌+◌, ◌-◌, ◌^◌, ◌≤◌, ◌<◌, ◌≡◌, refl, sym, arith, List, [], ◌∷◌, ◌++◌, append-nil,
  ◌∙◌, ap, ap₂, length, take, drop, take-append-drop, take_all, drop_all, Bool-cases, inl, inr,
  ◌==◌, leb, min, ◌*◌, ==→eq, leb→le, leb→lt,
}
use mf.Rope.Node.{leaf_max, height}
use mf.Rope.Shape.{to_list, IsRope, IsAvlRope, text_len-length, IsRope-IsCached, IsAvlRope-IsRope}
use mf.Rope.Cut.{insert_node_lem, delete_range_lem}
use mf.Rope.Avl.{height-IsAvlRope, insert_node-IsAvlRope, delete_range-IsAvlRope}
use mf.Rope.Build.Laws.{build_rope_from_slice-IsRope, to_list-build_rope_from_slice}
use mf.Rope.Build.Height.{build_rope_from_slice-IsAvlRope}
use mf.Rope.Buffer.{RopeBuffer, from_slice, len, insert, delete, replace}

-- The text that a buffer stands for.
abbrev pub text : RopeBuffer → List ℕ
text b = to_list b.root

abbrev pub IsValid : RopeBuffer → Type 0
IsValid b = IsRope b.root

pub len-length : (b : RopeBuffer) → IsValid b → len b ≡ length (text b)
len-length b v = text_len-length b.root (IsRope-IsCached b.root v)

-- A buffer made from a slice is well formed and holds it.
pub text-from_slice : (t : List ℕ) → IsValid (from_slice t) × (text (from_slice t) ≡ t)
unfolding from_slice
text-from_slice t = (build_rope_from_slice-IsRope t, to_list-build_rope_from_slice t)

-- `insert` into a well-formed buffer keeps it well formed, and puts the new text at the position, or
-- at the end where the position is past it.
pub text-insert :
    (b : RopeBuffer) (at_pos : ℕ) (t : List ℕ)
    → IsValid b
    → IsValid (insert b at_pos t)
      × (text (insert b at_pos t) ≡ take at_pos (text b) ++ (t ++ drop at_pos (text b)))
unfolding insert
text-insert b at_pos [] v = (v, sym (take-append-drop at_pos (text b)))
text-insert b at_pos (cp ∷ t) v =
    let (w, e) = insert_node_lem b.root _ at_pos v (build_rope_from_slice-IsRope (cp ∷ t)) in
    (w, rw to_list-build_rope_from_slice at e)

cons≢nil : (y : ℕ) (ys : List ℕ) → ¬ (y ∷ ys ≡ [])
cons≢nil y ys e = cc

drop_clamped :
    (xs : List ℕ) (p c n : ℕ) → n ≡ length xs → drop (p + min c (n - p)) xs ≡ drop (p + c) xs
drop_clamped xs p c n e = elim (Bool-cases (leb c (n - p))) [
  | inl le ↦ let m : min c (n - p) ≡ c = omega (arith, leb→le c (n - p) le) in rw m
  | inr gt ↦
      let h = leb→lt c (n - p) gt in
      drop_all (p + min c (n - p)) xs (omega arith) ∙ sym (drop_all (p + c) xs (omega arith))
]

-- Cutting again at the same position gives the same two parts.
take-take_append :
    (xs ys : List ℕ) (p : ℕ)
    → (length xs < p → ys ≡ [])
    → (take p (take p xs ++ ys) ≡ take p xs) × (drop p (take p xs ++ ys) ≡ ys)
take-take_append [] [] zero h = (refl, refl)
take-take_append [] [] (suc p) h = (refl, refl)
take-take_append [] (y ∷ ys) zero h = (refl, refl)
take-take_append [] (y ∷ ys) (suc p) h = absurd (cons≢nil y ys (h (omega arith)))
take-take_append (x ∷ xs) ys zero h = (refl, refl)
take-take_append (x ∷ xs) ys (suc p) h =
    let (a, b) = take-take_append xs ys p (λ lt. h (omega arith)) in (ap (x ∷◌) a, b)

-- `delete` keeps a well-formed buffer well formed, and removes the part of the range that lies in
-- the text.
pub text-delete :
    (b : RopeBuffer) (at_pos count : ℕ)
    → IsValid b
    → IsValid (delete b at_pos count)
      × (text (delete b at_pos count) ≡ take at_pos (text b) ++ drop (at_pos + count) (text b))
unfolding delete
text-delete b at_pos count v = elim (Bool-cases (count == 0)) [
  | inl z ↦
      let e : at_pos + count ≡ at_pos = omega (arith, ==→eq count 0 z) in
      rw (z, e) (v, sym (take-append-drop at_pos (text b)))
  | inr nz ↦ elim (Bool-cases (leb (len b) at_pos)) [
    | inl past ↦
        let h : length (text b) ≤ at_pos =
          omega (arith, leb→le (len b) at_pos past, len-length b v) in
        rw (nz, past)
          (
            v,
            sym (
                ap₂ ◌++◌ (take_all at_pos (text b) h)
                  (drop_all (at_pos + count) (text b) (omega arith))
                ∙ append-nil (text b)),
          )
    | inr inside ↦
        rw (nz, inside)
          (let (w, e) = delete_range_lem b.root at_pos (min count (len b - at_pos)) v in
            (
              w,
              e
                  ∙ ap (take at_pos (text b) ++◌)
                      (drop_clamped (text b) at_pos count (len b) (len-length b v)),
            ))
  ]
]

-- `replace` keeps a well-formed buffer well formed, and puts the new text in place of the part of
-- the range that lies in the text.
pub text-replace :
    (b : RopeBuffer) (at_pos count : ℕ) (t : List ℕ)
    → IsValid b
    → IsValid (replace b at_pos count t)
      × (text (replace b at_pos count t)
          ≡ take at_pos (text b) ++ (t ++ drop (at_pos + count) (text b)))
unfolding replace
text-replace b at_pos count t v =
    let (vd, td) = text-delete b at_pos count v in
    let (vi, ti) = text-insert (delete b at_pos count) at_pos t vd in
    let rest = drop (at_pos + count) (text b) in
    let (a, d) =
      take-take_append (text b) rest at_pos
        (λ lt. drop_all (at_pos + count) (text b) (omega arith)) in
    (vi, ti ∙ rw td (ap₂ (λ x y. x ++ (t ++ y)) a d))

-- `insert` of at most four chunks into a rope that is an AVL tree, or empty, gives such a rope.
pub insert-IsAvlRope :
    (b : RopeBuffer) (at_pos : ℕ) (t : List ℕ)
    → IsAvlRope b.root
    → length t ≤ 4 * leaf_max
    → IsAvlRope (insert b at_pos t).root
unfolding insert
insert-IsAvlRope b at_pos [] v h = v
insert-IsAvlRope b at_pos (cp ∷ t) v h =
    insert_node-IsAvlRope b.root _ at_pos v (build_rope_from_slice-IsAvlRope (cp ∷ t) h)

-- `delete` from a rope that is an AVL tree, or empty, gives such a rope.
pub delete-IsAvlRope :
    (b : RopeBuffer) (at_pos count : ℕ) → IsAvlRope b.root → IsAvlRope (delete b at_pos count).root
unfolding delete
delete-IsAvlRope b at_pos count v =
    ground (arith, delete_range-IsAvlRope b.root at_pos (min count (len b - at_pos)) v)

-- `replace` by at most four chunks in a rope that is an AVL tree, or empty, gives such a rope.
pub replace-IsAvlRope :
    (b : RopeBuffer) (at_pos count : ℕ) (t : List ℕ)
    → IsAvlRope b.root
    → length t ≤ 4 * leaf_max
    → IsAvlRope (replace b at_pos count t).root
unfolding replace
replace-IsAvlRope b at_pos count t v h =
    insert-IsAvlRope (delete b at_pos count) at_pos t (delete-IsAvlRope b at_pos count v) h

-- Where replace puts at most four chunks into a rope that is an AVL tree, or empty, and the text is
-- shorter than 2 ^ (k + 1) afterwards, the tree is at most 2 k + 1 high.
pub height-replace :
    (b : RopeBuffer) (at_pos count k : ℕ) (t : List ℕ)
    → IsAvlRope b.root
    → length t ≤ 4 * leaf_max
    → length (text (replace b at_pos count t)) < 2 ^ suc k
    → height (replace b at_pos count t).root ≤ 2 * k + 1
height-replace b at_pos count k t v h short =
    let avl = replace-IsAvlRope b at_pos count t v h in
    let cached = IsRope-IsCached _ (IsAvlRope-IsRope _ avl) in
    height-IsAvlRope (replace b at_pos count t).root k avl
      (rw (text_len-length (replace b at_pos count t).root cached) short)

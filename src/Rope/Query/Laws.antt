-- ===== src/Rope/Query/Laws.antt =====
-- Each query of the tree is the query of the text that it holds.
use mf.Prelude.{
  ℕ, ◌+◌, ◌-◌, ◌≤◌, ◌≡◌, refl, sym, arith, List, [], ◌∷◌, ◌++◌, ◌==◌, ◌∙◌, ap, length, take, drop,
  if◌then◌else◌, Bool-cases, inl, inr, ltb, leb, some, none, get_elem?, min, ltb→lt, ltb→le, leb→le,
  leb→lt, get_elem?-append_lt, get_elem?-append_ge, drop_all, take-append_le, take-append_ge,
  slice-append, ==→eq, length-take, ap₂, take-min_length,
}
use mf.Rope.Node.{Node, leaf, branch, count_newlines}
use mf.Rope.Shape.{
  to_list, IsCached, text_len-length, newline_count-count_newlines, count_newlines-append,
}
use mf.Rope.Lines.{line_end, line_end-append}
use mf.Rope.Query.{
  char_at_node, collect_range, count_newlines_before, scan_newlines, nth_newline_pos_raw,
}

pub char_at_node_lem : (t : Node) (i : ℕ) → IsCached t → char_at_node t i ≡ get_elem? (to_list t) i
unfolding char_at_node
char_at_node_lem (leaf buf n) i v = refl
char_at_node_lem (branch l r a b c h) i v =
    let la : a ≡ length (to_list l) = omega (arith, text_len-length l v.0) in
    elim (Bool-cases (ltb i a)) [
      | inl t ↦ rw t (
          char_at_node_lem l i v.0
          ∙ sym (get_elem?-append_lt (to_list l) (to_list r) i (omega (arith, ltb→lt i a t))))
      | inr f ↦ rw f (
          char_at_node_lem r (i - a) v.1
          ∙ ap (λ (k : ℕ). get_elem? (to_list r) (i - k)) la
          ∙ sym (get_elem?-append_ge (to_list l) (to_list r) i (omega (arith, ltb→le i a f))))
    ]

pub count_newlines_before_lem :
    (t : Node) (p : ℕ)
    → IsCached t
    → count_newlines_before t p ≡ count_newlines (take p (to_list t))
unfolding count_newlines_before
count_newlines_before_lem (leaf buf n) p v = elim (Bool-cases (p == 0)) [
  | inl z ↦ rw (z, ==→eq p 0 z) (unfold count_newlines in refl)
  | inr nz ↦ rw nz (ap count_newlines (take-min_length p buf))
]
count_newlines_before_lem (branch l r a b c h) p v =
    let la : a ≡ length (to_list l) = omega (arith, text_len-length l v.0) in
    elim (Bool-cases (p == 0)) [
      | inl z ↦ rw (z, ==→eq p 0 z) (unfold count_newlines in refl)
      | inr nz ↦ elim (Bool-cases (leb p a)) [
        | inl le ↦
            rw (nz, le)
              (count_newlines_before_lem l p v.0
                ∙ ap count_newlines
                    (sym (take-append_le p (to_list l) (to_list r) (omega (arith, leb→le p a le)))))
        | inr gt ↦
            rw (nz, gt, la, take-append_ge p (to_list l) (to_list r) (omega (arith, leb→lt p a gt)))
              (omega (
                arith,
                newline_count-count_newlines l v.0,
                count_newlines_before_lem r (p - length (to_list l)) v.1,
                count_newlines-append (to_list l) (take (p - length (to_list l)) (to_list r)),
              ))
      ]
    ]

drop-min_length :
    (s e : ℕ) (buf : List ℕ) → drop (min s (length buf)) (take e buf) ≡ drop s (take e buf)
drop-min_length s e buf = elim (Bool-cases (leb s (length buf))) [
  | inl le ↦ let m : min s (length buf) ≡ s = omega (arith, leb→le s (length buf) le) in rw m
  | inr gt ↦
      let lt = leb→lt s (length buf) gt in
      drop_all (min s (length buf)) (take e buf) (omega (arith, length-take e buf))
      ∙ sym (drop_all s (take e buf) (omega (arith, length-take e buf)))
]

-- The two guarded parts of a range are the slices of the two subtrees.
left_part :
    (l : Node) (s e a : ℕ)
    → a ≡ length (to_list l)
    → collect_range l s (min e a) ≡ drop s (take (min e a) (to_list l))
    → (if ltb s a then collect_range l s (min e a) else []) ≡ drop s (take e (to_list l))
left_part l s e a la ih = elim (Bool-cases (ltb s a)) [
  | inl t ↦ rw (t, ih, la) (ap (drop s) (take-min_length e (to_list l)))
  | inr f ↦ rw f (
      sym
        (drop_all s (take e (to_list l)) (omega (arith, length-take e (to_list l), ltb→le s a f))))
]

right_part :
    (r : Node) (s e a n : ℕ)
    → a ≡ n
    → collect_range r (s - a) (e - a) ≡ drop (s - a) (take (e - a) (to_list r))
    → (if ltb a e then collect_range r (s - a) (e - a) else [])
      ≡ drop (s - n) (take (e - n) (to_list r))
right_part r s e a n la ih = elim (Bool-cases (ltb a e)) [
  | inl t ↦ rw (t, ih, la)
  | inr f ↦ rw f (
      sym (
        drop_all (s - n) (take (e - n) (to_list r))
          (omega (arith, length-take (e - n) (to_list r), ltb→le a e f))))
]

pub collect_range_lem :
    (t : Node) (s e : ℕ) → IsCached t → collect_range t s e ≡ drop s (take e (to_list t))
unfolding collect_range
collect_range_lem (leaf buf n) s e v = elim (Bool-cases (leb e s)) [
  | inl z ↦ rw z (sym (drop_all s (take e buf) (omega (arith, leb→le e s z, length-take e buf))))
  | inr lt ↦ rw (lt, take-min_length e buf) (drop-min_length s e buf)
]
collect_range_lem (branch l r a b c h) s e v =
    let la : a ≡ length (to_list l) = omega (arith, text_len-length l v.0) in
    elim (Bool-cases (leb e s)) [
      | inl z ↦
          let whole = to_list l ++ to_list r in
          rw z (sym (drop_all s (take e whole) (omega (arith, leb→le e s z, length-take e whole))))
      | inr lt ↦
          rw (lt, slice-append s e (to_list l) (to_list r))
            (ap₂ ◌++◌ (left_part l s e a la (collect_range_lem l s (min e a) v.0)) (
              right_part r s e a (length (to_list l)) la (collect_range_lem r (s - a) (e - a) v.1)))
    ]

scan_newlines_lem :
    (buf : List ℕ) (i count n : ℕ)
    → count ≤ n
    → scan_newlines buf i count n
      ≡ (if ltb n (count + count_newlines buf) then some (i + line_end buf (n - count)) else none)
unfolding scan_newlines line_end count_newlines
scan_newlines_lem [] i count n h = ground arith
scan_newlines_lem (cp ∷ buf) i count n h =
    ground
      (arith, scan_newlines_lem buf (i + 1) (count + 1) n, scan_newlines_lem buf (i + 1) count n)

pub nth_newline_pos_raw_lem :
    (t : Node) (n : ℕ)
    → IsCached t
    → nth_newline_pos_raw t n
      ≡ (if ltb n (count_newlines (to_list t)) then some (line_end (to_list t) n) else none)
unfolding nth_newline_pos_raw
nth_newline_pos_raw_lem (leaf buf k) n v =
    let e : 0 + count_newlines buf ≡ count_newlines buf = omega arith in
    let d : n - 0 ≡ n = omega arith in
    let z : 0 + line_end buf n ≡ line_end buf n = omega arith in
    rw (scan_newlines_lem buf 0 0 n (omega arith), e, d, z)
nth_newline_pos_raw_lem (branch l r a b c h) n v =
    let la : a ≡ length (to_list l) = omega (arith, text_len-length l v.0) in
    let cl = newline_count-count_newlines l v.0 in
    let ca = count_newlines-append (to_list l) (to_list r) in
    rw (cl, line_end-append (to_list l) (to_list r) n)
      (elim (Bool-cases (ltb n (count_newlines (to_list l)))) [
        | inl t ↦ rw (t, nth_newline_pos_raw_lem l n v.0, t) (ground arith)
        | inr f ↦
            rw (f, nth_newline_pos_raw_lem r (n - count_newlines (to_list l)) v.1) (ground arith)
      ])

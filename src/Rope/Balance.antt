-- ===== src/Rope/Balance.antt =====
-- `balance` restores the AVL balance where two heights differ by at most two.
use mf.Prelude.{
  ℕ, ◌+◌, ◌≤◌, ◌<◌, ◌≡◌, refl, max, arith, if◌then◌else◌, ltb, inl, inr, Bool-cases, ap, false,
  true, leb, leb→le, leb→lt, ◌⊎◌,
}
use mf.Prelude.Int.{ltb_ℤ, sub_ℕ, pos, negsuc}
use mf.Rope.Node.{Node, leaf, branch, height, new_branch}
use mf.Rope.Join.{balance, rotate_left, rotate_right, balance_factor}
use mf.Rope.Shape.{IsAvl}

pub new_branch-IsAvl :
    (l r : Node)
    → IsAvl l
    → IsAvl r
    → height l ≤ 1 + height r
    → height r ≤ 1 + height l
    → IsAvl (new_branch l r)
new_branch-IsAvl l r vl vr p q = (vl, vr, refl, refl, refl, refl, p, q)

-- The joined tree is well formed, and at most one level higher than the higher part.
abbrev pub IsJoin : Node → Node → Node → Type 0
IsJoin l r t =
    IsAvl t × (max (height l) (height r) ≤ height t) × (height t ≤ 1 + max (height l) (height r))

not_left : (a b : ℕ) → a ≤ 1 + b → ltb_ℤ (pos 1) (sub_ℕ a b) ≡ false
not_left a b h = ground arith

not_right : (a b : ℕ) → b ≤ 1 + a → ltb_ℤ (sub_ℕ a b) (negsuc 0) ≡ false
not_right a b h = ground arith

-- The sign of a balance factor is the order of the two heights.
lt_of_neg : (a b : ℕ) → ltb_ℤ (sub_ℕ a b) (pos 0) ≡ true → a < b
lt_of_neg a b h = ground arith

le_of_nonneg : (a b : ℕ) → ltb_ℤ (sub_ℕ a b) (pos 0) ≡ false → b ≤ a
le_of_nonneg a b h = ground arith

lt_of_pos : (a b : ℕ) → ltb_ℤ (pos 0) (sub_ℕ a b) ≡ true → b < a
lt_of_pos a b h = ground arith

le_of_nonpos : (a b : ℕ) → ltb_ℤ (pos 0) (sub_ℕ a b) ≡ false → a ≤ b
le_of_nonpos a b h = ground arith

-- Which arm `balance` takes, by the two heights.
balance_left :
    (l r : Node)
    → height l ≡ 2 + height r
    → balance (new_branch l r) ≡ (
        if ltb_ℤ (balance_factor l) (pos 0)
        then rotate_right (new_branch (rotate_left l) r)
        else rotate_right (new_branch l r))
unfolding balance
balance_left l r e = ground arith

balance_right :
    (l r : Node)
    → height r ≡ 2 + height l
    → balance (new_branch l r) ≡ (
        if ltb_ℤ (pos 0) (balance_factor r)
        then rotate_left (new_branch l (rotate_right r))
        else rotate_left (new_branch l r))
unfolding balance
balance_right l r e = ground arith

balance_level :
    (l r : Node)
    → height l ≤ 1 + height r
    → height r ≤ 1 + height l
    → balance (new_branch l r) ≡ new_branch l r
unfolding balance
balance_level l r p q =
    rw (not_left (height l) (height r) p, not_right (height l) (height r) q) refl

left_heavy :
    (l r : Node)
    → IsAvl l
    → IsAvl r
    → height l ≡ 2 + height r
    → IsJoin l r (balance (new_branch l r))
unfolding rotate_left rotate_right
left_heavy (leaf b n) r vl vr e = absurd (omega arith)
left_heavy (branch ll (leaf b n) a c d h) r vl vr e =
    let t : ltb_ℤ (sub_ℕ (height ll) 0) (pos 0) ≡ false = ground arith in
    rw (balance_left (branch ll (leaf b n) a c d h) r e, t)
      (
        new_branch-IsAvl ll (new_branch (leaf b n) r) vl.0
            (new_branch-IsAvl (leaf b n) r vl.1 vr (omega arith) (omega arith)) (omega arith)
            (omega arith),
        omega arith,
        omega arith,
      )
left_heavy (branch ll (branch x y e f g i) a c d h) r vl vr eq =
    elim (Bool-cases (ltb_ℤ (sub_ℕ (height ll) i) (pos 0))) [
      | inl t ↦
          rw (balance_left (branch ll (branch x y e f g i) a c d h) r eq, t)
            (let lt : height ll < i = lt_of_neg (height ll) i t in
              (
                new_branch-IsAvl (new_branch ll x) (new_branch y r)
                    (new_branch-IsAvl ll x vl.0 vl.1.0 (omega arith) (omega arith))
                    (new_branch-IsAvl y r vl.1.1 vr (omega arith) (omega arith)) (omega arith)
                    (omega arith),
                omega arith,
                omega arith,
              ))
      | inr t ↦
          rw (balance_left (branch ll (branch x y e f g i) a c d h) r eq, t)
            (let le : i ≤ height ll = le_of_nonneg (height ll) i t in
              (
                new_branch-IsAvl ll (new_branch (branch x y e f g i) r) vl.0
                    (new_branch-IsAvl (branch x y e f g i) r vl.1 vr (omega arith) (omega arith))
                    (omega arith) (omega arith),
                omega arith,
                omega arith,
              ))
    ]

right_heavy :
    (l r : Node)
    → IsAvl l
    → IsAvl r
    → height r ≡ 2 + height l
    → IsJoin l r (balance (new_branch l r))
unfolding rotate_left rotate_right
right_heavy l (leaf b n) vl vr e = absurd (omega arith)
right_heavy l (branch (leaf b n) rr a c d h) vl vr e =
    let t : ltb_ℤ (pos 0) (sub_ℕ 0 (height rr)) ≡ false = ground arith in
    rw (balance_right l (branch (leaf b n) rr a c d h) e, t)
      (
        new_branch-IsAvl (new_branch l (leaf b n)) rr
            (new_branch-IsAvl l (leaf b n) vl vr.0 (omega arith) (omega arith)) vr.1 (omega arith)
            (omega arith),
        omega arith,
        omega arith,
      )
right_heavy l (branch (branch x y e f g i) rr a c d h) vl vr eq =
    elim (Bool-cases (ltb_ℤ (pos 0) (sub_ℕ i (height rr)))) [
      | inl t ↦
          rw (balance_right l (branch (branch x y e f g i) rr a c d h) eq, t)
            (let lt : height rr < i = lt_of_pos i (height rr) t in
              (
                new_branch-IsAvl (new_branch l x) (new_branch y rr)
                    (new_branch-IsAvl l x vl vr.0.0 (omega arith) (omega arith))
                    (new_branch-IsAvl y rr vr.0.1 vr.1 (omega arith) (omega arith)) (omega arith)
                    (omega arith),
                omega arith,
                omega arith,
              ))
      | inr t ↦
          rw (balance_right l (branch (branch x y e f g i) rr a c d h) eq, t)
            (let le : i ≤ height rr = le_of_nonpos i (height rr) t in
              (
                new_branch-IsAvl (new_branch l (branch x y e f g i)) rr
                    (new_branch-IsAvl l (branch x y e f g i) vl vr.0 (omega arith) (omega arith))
                    vr.1 (omega arith) (omega arith),
                omega arith,
                omega arith,
              ))
    ]

pub balance-IsJoin :
    (l r : Node)
    → IsAvl l
    → IsAvl r
    → height l ≤ 2 + height r
    → height r ≤ 2 + height l
    → IsJoin l r (balance (new_branch l r))
balance-IsJoin l r vl vr p q = elim (Bool-cases (ltb (1 + height r) (height l))) [
  | inl t ↦ left_heavy l r vl vr (ground arith)
  | inr t ↦ elim (Bool-cases (ltb (1 + height l) (height r))) [
    | inl u ↦ right_heavy l r vl vr (ground arith)
    | inr u ↦
        let a : height l ≤ 1 + height r = ground arith in
        let b : height r ≤ 1 + height l = ground arith in
        rw (balance_level l r a b) (new_branch-IsAvl l r vl vr a b, omega arith, omega arith)
  ]
]

-- Where no rotation is needed the branch stands, one level above its higher part.
pub height-balance :
    (l r : Node)
    → (height (balance (new_branch l r)) ≡ 1 + max (height l) (height r))
      ⊎ ((2 + height l ≤ height r) ⊎ (2 + height r ≤ height l))
height-balance l r = elim (Bool-cases (leb (height l) (1 + height r))) [
  | inr p ↦ inr (inr (omega (arith, leb→lt (height l) (1 + height r) p)))
  | inl p ↦ elim (Bool-cases (leb (height r) (1 + height l))) [
    | inr q ↦ inr (inl (omega (arith, leb→lt (height r) (1 + height l) q)))
    | inl q ↦ inl (
        ap height (
          balance_level l r (leb→le (height l) (1 + height r) p)
            (leb→le (height r) (1 + height l) q)))
  ]
]

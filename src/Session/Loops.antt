-- ===== src/Session/Loops.antt =====
-- The control-flow stack of src/session.rs while the innermost loop gets branches to patch.
use mf.Prelude.{
  ℕ, ◌≡◌, refl, ap, List, [], ◌∷◌, ◌++◌, append-nil, append_assoc, Bool, true, false, some,
}
use mf.Session.Def.{Cf}
use mf.Session.Control.{push_leave}
use mf.Session.Layout.{Test, flag, fused}
use mf.Session.Patches.{test_cf}

unfoldable pub has_do : List Cf → Bool
has_do [] = false
has_do (Cf.do_loop t fwds ∷ cf) = true
has_do (c ∷ cf) = has_do cf

-- The innermost loop gets the branches.
unfoldable pub add_leaves : List ℕ → List Cf → List Cf
add_leaves ls [] = []
add_leaves ls (Cf.do_loop t fwds ∷ cf) = Cf.do_loop t (fwds ++ ls) ∷ cf
add_leaves ls (c ∷ cf) = c ∷ add_leaves ls cf

pub add_leaves-nil : (cf : List Cf) → add_leaves [] cf ≡ cf
unfolding add_leaves
add_leaves-nil [] = refl
add_leaves-nil (Cf.do_loop t fwds ∷ cf) = ap (λ f. Cf.do_loop t f ∷ cf) (append-nil fwds)
add_leaves-nil (Cf.fwd_cbz i ∷ cf) = ap (Cf.fwd_cbz i ∷◌) (add_leaves-nil cf)
add_leaves-nil (Cf.fwd_bcond i ∷ cf) = ap (Cf.fwd_bcond i ∷◌) (add_leaves-nil cf)
add_leaves-nil (Cf.fwd_b i ∷ cf) = ap (Cf.fwd_b i ∷◌) (add_leaves-nil cf)
add_leaves-nil (Cf.begin i ∷ cf) = ap (Cf.begin i ∷◌) (add_leaves-nil cf)
add_leaves-nil (Cf.case ∷ cf) = ap (Cf.case ∷◌) (add_leaves-nil cf)

pub add_leaves-append :
    (ls ls' : List ℕ) (cf : List Cf) → add_leaves ls' (add_leaves ls cf) ≡ add_leaves (ls ++ ls') cf
unfolding add_leaves
add_leaves-append ls ls' [] = refl
add_leaves-append ls ls' (Cf.do_loop t fwds ∷ cf) =
    ap (λ f. Cf.do_loop t f ∷ cf) (append_assoc fwds ls ls')
add_leaves-append ls ls' (Cf.fwd_cbz i ∷ cf) = ap (Cf.fwd_cbz i ∷◌) (add_leaves-append ls ls' cf)
add_leaves-append ls ls' (Cf.fwd_bcond i ∷ cf) =
    ap (Cf.fwd_bcond i ∷◌) (add_leaves-append ls ls' cf)
add_leaves-append ls ls' (Cf.fwd_b i ∷ cf) = ap (Cf.fwd_b i ∷◌) (add_leaves-append ls ls' cf)
add_leaves-append ls ls' (Cf.begin i ∷ cf) = ap (Cf.begin i ∷◌) (add_leaves-append ls ls' cf)
add_leaves-append ls ls' (Cf.case ∷ cf) = ap (Cf.case ∷◌) (add_leaves-append ls ls' cf)

pub has_do-add_leaves : (ls : List ℕ) (cf : List Cf) → has_do (add_leaves ls cf) ≡ has_do cf
unfolding add_leaves has_do
has_do-add_leaves ls [] = refl
has_do-add_leaves ls (Cf.do_loop t fwds ∷ cf) = refl
has_do-add_leaves ls (Cf.fwd_cbz i ∷ cf) = has_do-add_leaves ls cf
has_do-add_leaves ls (Cf.fwd_bcond i ∷ cf) = has_do-add_leaves ls cf
has_do-add_leaves ls (Cf.fwd_b i ∷ cf) = has_do-add_leaves ls cf
has_do-add_leaves ls (Cf.begin i ∷ cf) = has_do-add_leaves ls cf
has_do-add_leaves ls (Cf.case ∷ cf) = has_do-add_leaves ls cf

pub push_leave_lem :
    (i : ℕ) (cf : List Cf) → has_do cf ≡ true → push_leave i cf ≡ some (add_leaves (i ∷ []) cf)
unfolding add_leaves has_do push_leave
push_leave_lem i [] h = absurd (cc h)
push_leave_lem i (Cf.do_loop t fwds ∷ cf) h = refl
push_leave_lem i (Cf.fwd_cbz j ∷ cf) h = rw (push_leave_lem i cf h) refl
push_leave_lem i (Cf.fwd_bcond j ∷ cf) h = rw (push_leave_lem i cf h) refl
push_leave_lem i (Cf.fwd_b j ∷ cf) h = rw (push_leave_lem i cf h) refl
push_leave_lem i (Cf.begin j ∷ cf) h = rw (push_leave_lem i cf h) refl
push_leave_lem i (Cf.case ∷ cf) h = rw (push_leave_lem i cf h) refl

-- The branch of a test is above the loop.
pub add_leaves-test_cf :
    (ls : List ℕ) (t : Test) (i : ℕ) (cf : List Cf)
    → add_leaves ls (test_cf t i ∷ cf) ≡ test_cf t i ∷ add_leaves ls cf
unfolding add_leaves
add_leaves-test_cf ls flag i cf = refl
add_leaves-test_cf ls (fused c) i cf = refl

pub has_do-test_cf : (t : Test) (i : ℕ) (cf : List Cf) → has_do (test_cf t i ∷ cf) ≡ has_do cf
unfolding has_do
has_do-test_cf flag i cf = refl
has_do-test_cf (fused c) i cf = refl

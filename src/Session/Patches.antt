-- ===== src/Session/Patches.antt =====
-- What the patches of src/session.rs do to a word in the middle of a body.
use mf.Prelude.{
  ℕ, ◌+◌, ◌-◌, ◌<◌, ◌≤◌, ◌≡◌, refl, sym, ap, ◌∙◌, arith, List, [], ◌∷◌, ◌++◌, append_assoc, length,
  length-append, get_elem?, set, Option, some, true, false, bit_and, bit_xor, leb, Bool-cases, inl,
  inr, leb→le, leb→lt,
}
use mf.Prelude.Int.{ℤ, pos, sub_ℕ}
use mf.Word.Fields.{and_mask4}
use mf.Aenc.Conditions.{al}
use mf.Aenc.Transfer.{b, bcond, cbz}
use mf.Aenc.Emit.{patch_bcond, patch_cbz, patch_b, scratch}
use mf.Aenc.Branches.{bcond_fields}
use mf.Opt.Tok.{Cmp}
use mf.Opt.Fused.{fused_cmp}
use mf.Session.Def.{Result, ok, bail, panic, and_then, or_panic, Cf}
use mf.Session.Control.{patch_test, patch_fwd, patch_all}
use mf.Session.Layout.{Test, flag, fused, test_branch}

module _ {ℓ} {A : Type ℓ} where
  pub get_middle :
      (pre : List A) (x : A) (post : List A) → get_elem? (pre ++ (x ∷ post)) (length pre) ≡ some x
  get_middle [] x post = refl
  get_middle (y ∷ pre) x post = get_middle pre x post

  pub set_middle :
      (pre : List A) (x y : A) (post : List A)
      → set (pre ++ (x ∷ post)) (length pre) y ≡ pre ++ (y ∷ post)
  set_middle [] x y post = refl
  set_middle (z ∷ pre) x y post = ap (z ∷◌) (set_middle pre x y post)

le→leb : (a b : ℕ) → a ≤ b → leb a b ≡ true
le→leb a b h = ground arith

lt→leb : (a b : ℕ) → b < a → leb a b ≡ false
lt→leb a b h = ground arith

-- The distance to a place ahead, and to one before.
pub sub_ahead : (n d : ℕ) → sub_ℕ (n + d) n ≡ pos d
sub_ahead n d =
    let e : n + d - n ≡ d = omega arith in
    let h : leb n (n + d) ≡ true = le→leb n (n + d) (omega arith) in rw (h, e) refl

pub sub_back : (n d : ℕ) → sub_ℕ n (n + d) ≡ sub_ℕ 0 d
sub_back n d =
    let e : n + d - n - 1 ≡ d - 0 - 1 = omega arith in
    let z : n - (n + d) ≡ 0 = omega arith in
    elim (Bool-cases (leb d 0)) [
      | inl t ↦
          let k = leb→le d 0 t in
          let h : leb (n + d) n ≡ true = le→leb (n + d) n (omega arith) in
          let o : 0 - d ≡ 0 = omega arith in rw (h, t, z, o) refl
      | inr f ↦
          let k = leb→lt d 0 f in
          let h : leb (n + d) n ≡ false = lt→leb (n + d) n (omega arith) in rw (h, f, e) refl
    ]

pub patch_cbz_at :
    (pre : List ℕ) (old : ℕ) (post : List ℕ) (target : ℕ)
    → patch_cbz (pre ++ (old ∷ post)) (length pre) target
      ≡ some (pre ++ (cbz scratch (sub_ℕ target (length pre)) ∷ post))
unfolding patch_cbz
patch_cbz_at pre old post target =
    rw (get_middle pre old post, patch_cbz) (ap some (set_middle pre old _ post))

pub patch_bcond_at :
    (pre : List ℕ) (old : ℕ) (post : List ℕ) (target : ℕ)
    → patch_bcond (pre ++ (old ∷ post)) (length pre) target
      ≡ some (pre ++ (bcond (bit_and old 0xF) (sub_ℕ target (length pre)) ∷ post))
unfolding patch_bcond
patch_bcond_at pre old post target =
    rw (get_middle pre old post, patch_bcond) (ap some (set_middle pre old _ post))

pub patch_b_at :
    (pre : List ℕ) (old : ℕ) (post : List ℕ) (target : ℕ)
    → patch_b (pre ++ (old ∷ post)) (length pre) target
      ≡ some (pre ++ (b (sub_ℕ target (length pre)) ∷ post))
unfolding patch_b
patch_b_at pre old post target =
    rw (get_middle pre old post, patch_b) (ap some (set_middle pre old _ post))

-- A condition is read back from its branch.
condition-bcond : (c : ℕ) (off : ℤ) → c < 16 → bit_and (bcond c off) 0xF ≡ c
condition-bcond c off h =
    let (a, f, o) = bcond_fields c off in rw (and_mask4 (bcond c off)) (omega (arith, f, h))

pub leave_condition : bit_and (bcond al (pos 0)) 0xF ≡ al
leave_condition = condition-bcond al (pos 0) (omega arith)

pub skip_condition : bit_and (bcond 0 (pos 0)) 0xF ≡ 0
skip_condition = condition-bcond 0 (pos 0) (omega arith)

abbrev pub inverse : Cmp → ℕ
unfolding fused_cmp
inverse c = bit_xor (fused_cmp c []).1 1

inverse_bound : (c : Cmp) → inverse c < 16
unfolding fused_cmp
inverse_bound Cmp.zeq = omega arith
inverse_bound Cmp.zne = omega arith
inverse_bound Cmp.zlt = omega arith
inverse_bound Cmp.zgt = omega arith
inverse_bound Cmp.eq = omega arith
inverse_bound Cmp.ne = omega arith
inverse_bound Cmp.lt = omega arith
inverse_bound Cmp.gt = omega arith
inverse_bound Cmp.le = omega arith
inverse_bound Cmp.ge = omega arith
inverse_bound Cmp.ult = omega arith
inverse_bound Cmp.ugt = omega arith

pub inverse_condition : (c : Cmp) → bit_and (bcond (inverse c) (pos 0)) 0xF ≡ inverse c
inverse_condition c = condition-bcond (inverse c) (pos 0) (inverse_bound c)

abbrev pub test_cf : Test → ℕ → Cf
test_cf flag i = Cf.fwd_cbz i
test_cf (fused c) i = Cf.fwd_bcond i

pub patch_test_at :
    (t : Test) (pre post : List ℕ) (target : ℕ)
    → patch_test (test_cf t (length pre)) (pre ++ (test_branch t (pos 0) ∷ post)) target
      ≡ ok (pre ++ (test_branch t (sub_ℕ target (length pre)) ∷ post))
unfolding fused_cmp
patch_test_at flag pre post target = rw (patch_cbz_at pre (cbz scratch (pos 0)) post target) refl
patch_test_at (fused c) pre post target =
    rw (patch_bcond_at pre (bcond (inverse c) (pos 0)) post target, inverse_condition c) refl

pub patch_fwd_at :
    (t : Test) (pre post : List ℕ) (target : ℕ)
    → patch_fwd (test_cf t (length pre)) (pre ++ (test_branch t (pos 0) ∷ post)) target
      ≡ ok (pre ++ (test_branch t (sub_ℕ target (length pre)) ∷ post))
patch_fwd_at flag pre post target = patch_test_at flag pre post target
patch_fwd_at (fused c) pre post target = patch_test_at (fused c) pre post target

and_then_assoc :
    {A B C : Type 0} (r : Result A) (f : A → Result B) (g : B → Result C)
    → and_then (and_then r f) g ≡ and_then r (λ a. and_then (f a) g)
and_then_assoc (ok a) f g = refl
and_then_assoc bail f g = refl
and_then_assoc panic f g = refl

module _ (patch : List ℕ → ℕ → ℕ → Option (List ℕ)) (target : ℕ) where
  pub patch_all-append :
      (ls ls' : List ℕ) (body : List ℕ)
      → patch_all patch (ls ++ ls') target body
        ≡ and_then (patch_all patch ls target body) (patch_all patch ls' target)
  unfolding patch_all
  patch_all-append [] ls' body = refl
  patch_all-append (i ∷ ls) ls' body =
      ap (and_then (or_panic (patch body i target))) (λ i. λ a. patch_all-append ls ls' a i)
      ∙ sym (and_then_assoc (or_panic (patch body i target)) (patch_all patch ls target) _)

  -- Wherever `from` stands from the place `n` on, the patches at `ls` make it `to`.
  abbrev pub Patched : List ℕ → ℕ → List ℕ → List ℕ → Type 0
  Patched ls n from to =
      (pre post : List ℕ)
      → length pre ≡ n
      → patch_all patch ls target (pre ++ (from ++ post)) ≡ ok (pre ++ (to ++ post))

  pub turns_nothing : (n : ℕ) (ws : List ℕ) → Patched [] n ws ws
  unfolding patch_all
  turns_nothing n ws pre post h = refl

  pub turns_front :
      (ls : List ℕ) (n : ℕ) (ws from to : List ℕ)
      → Patched ls (n + length ws) from to
      → Patched ls n (ws ++ from) (ws ++ to)
  turns_front ls n ws from to t pre post h =
      let e = length-append pre ws in
      let q = t (pre ++ ws) post (omega (arith, e, h)) in
      rw
        (
          append_assoc ws from post,
          append_assoc ws to post,
          ← append_assoc pre ws (from ++ post),
          ← append_assoc pre ws (to ++ post),
        )
        q

  pub turns-append :
      (ls ls' : List ℕ) (n m : ℕ) (from to from' to' : List ℕ)
      → Patched ls n from to
      → length to ≡ m
      → Patched ls' (n + m) from' to'
      → Patched (ls ++ ls') n (from ++ from') (to ++ to')
  turns-append ls ls' n m from to from' to' t e u pre post h =
      let q = t pre (from' ++ post) h in
      let r = u (pre ++ to) post (omega (arith, length-append pre to, e, h)) in
      rw
        (
          append_assoc from from' post,
          append_assoc to to' post,
          patch_all-append ls ls',
          q,
          ← append_assoc pre to (from' ++ post),
          ← append_assoc pre to (to' ++ post),
        )
        r

  pub turns_back :
      (ls : List ℕ) (n : ℕ) (from to ws : List ℕ)
      → Patched ls n from to
      → Patched ls n (from ++ ws) (to ++ ws)
  turns_back ls n from to ws t pre post h =
      rw (append_assoc from ws post, append_assoc to ws post) (t pre (ws ++ post) h)

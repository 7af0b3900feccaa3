-- ===== src/Opt/Sound/Identities.antt =====
-- The equations between words on which the arms of `reduce` rest.
use native.Mathlib.Nat.{div-add-mod, add-mul-mod_self_left}
use mf.Prelude.{ℕ, ◌+◌, ◌*◌, ◌/◌, ◌%◌, true, ◌≡◌, sym, ◌∙◌, ap, arith, ==→eq}
use mf.Word.{IsWord, all_ones, word_mod}
use mf.Word.Bits.{and_assoc, or_assoc, xor_assoc, and-zero, or-zero, xor-zero, and_ones, or_ones}
use mf.Opt.Tok.{Bin}
use mf.Opt.Eval.{bin_eval}
use mf.Opt.Reduce.{is_identity, is_absorbing, chained}

-- The identities of `is_identity`, on words.
pub bin_eval_identity :
    (op : Bin) (k x : ℕ) → is_identity op k ≡ true → IsWord x → bin_eval op x k ≡ x
unfolding bin_eval is_identity
bin_eval_identity Bin.add k x e h = rw (==→eq k 0 e) (omega arith)
bin_eval_identity Bin.sub k x e h = rw (==→eq k 0 e) (omega arith)
bin_eval_identity Bin.mul k x e h = rw (==→eq k 1 e) (omega arith)
bin_eval_identity Bin.and k x e h = rw (==→eq k all_ones e) (and_ones 64 x h)
bin_eval_identity Bin.or k x e h = rw (==→eq k 0 e) (or-zero x)
bin_eval_identity Bin.xor k x e h = rw (==→eq k 0 e) (xor-zero x)

-- The constants of `is_absorbing`.
pub bin_eval_absorbing :
    (op : Bin) (k x : ℕ) → is_absorbing op k ≡ true → IsWord x → bin_eval op x k ≡ k
unfolding bin_eval is_absorbing
bin_eval_absorbing Bin.add k x e h = cc
bin_eval_absorbing Bin.sub k x e h = cc
bin_eval_absorbing Bin.mul k x e h = rw (==→eq k 0 e) (omega arith)
bin_eval_absorbing Bin.and k x e h = rw (==→eq k 0 e) (and-zero x)
bin_eval_absorbing Bin.or k x e h = rw (==→eq k all_ones e) (or_ones 64 x h)
bin_eval_absorbing Bin.xor k x e h = cc

mod-mul-mod : (m y b : ℕ) → y % m * b % m ≡ y * b % m
mod-mul-mod m y b =
    let split : y * b ≡ y % m * b + m * (y / m * b) =
      omega (arith, ap (λ (t : ℕ). t * b) (div-add-mod y m)) in
    sym (ap (λ (t : ℕ). t % m) split ∙ add-mul-mod_self_left (y % m * b) m (y / m * b))

wrapping_mul_assoc : (m x a b : ℕ) → x * a % m * b % m ≡ x * (a * b % m) % m
wrapping_mul_assoc m x a b =
    let swap : x * (a * b % m) ≡ a * b % m * x = omega arith in
    let regroup : x * a * b ≡ a * b * x = omega arith in
    mod-mul-mod m (x * a) b
    ∙ ap (λ (t : ℕ). t % m) regroup
    ∙ sym (mod-mul-mod m (a * b) x)
    ∙ ap (λ (t : ℕ). t % m) (sym swap)

-- Two immediates of one operator are one.
pub bin_eval-chained :
    (op : Bin) (x k1 k : ℕ)
    → IsWord k1
    → IsWord k
    → bin_eval op (bin_eval op x k1) k ≡ bin_eval op x (chained op k1 k)
unfolding bin_eval chained
bin_eval-chained Bin.add x a b h k = omega arith
bin_eval-chained Bin.sub x a b h k = omega arith
bin_eval-chained Bin.mul x a b h k = wrapping_mul_assoc word_mod x a b
bin_eval-chained Bin.and x a b h k = and_assoc x a b
bin_eval-chained Bin.or x a b h k = or_assoc x a b
bin_eval-chained Bin.xor x a b h k = xor_assoc x a b

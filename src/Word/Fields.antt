-- ===== src/Word/Fields.antt =====
-- Fields of an instruction word: `|` on fields that do not meet is a sum, `&` with a mask a remainder.
use native.Mathlib.Nat.{pow-suc}
use mf.Prelude.{
  ℕ, zero, suc, ◌+◌, ◌-◌, ◌*◌, ◌/◌, ◌%◌, ◌^◌, ◌<◌, ◌≡◌, refl, sym, ap, ap₂, ◌∙◌, arith, bit_and,
  bit_or,
}
use mf.Word.Bits.{and_step, or_step, or-zero, and-zero}

-- One digit more.
doubled : (k a : ℕ) → a * 2 ^ suc k ≡ (a * 2 ^ k) * 2
doubled k a = rw (pow-suc 2 k) (grind arith)

pub or_disjoint : (k a b : ℕ) → b < 2 ^ k → bit_or (a * 2 ^ k) b ≡ a * 2 ^ k + b
or_disjoint zero a b h = let e : b ≡ 0 = omega arith in rw (e, or-zero (a * 2 ^ 0)) (omega arith)
or_disjoint (suc k) a b h =
    let x = a * 2 ^ k in
    let half : x * 2 / 2 ≡ x = omega arith in
    let ih = or_disjoint k a (b / 2) (omega (arith, h, pow-suc 2 k)) in
    rw (doubled k a) (omega (arith, or_step (x * 2) b, ap (λ y. bit_or y (b / 2)) half, ih))

pub and_mask_split : (k q r : ℕ) → r < 2 ^ k → bit_and (q * 2 ^ k + r) (2 ^ k - 1) ≡ r
and_mask_split zero q r h = let e : r ≡ 0 = omega arith in rw (e, and-zero (q * 2 ^ 0 + 0)) refl
and_mask_split (suc k) q r h =
    let x = q * 2 ^ k in
    let ih = and_mask_split k q (r / 2) (omega (arith, h, pow-suc 2 k)) in
    let p = pow-suc 2 k in
    let half : (x * 2 + r) / 2 ≡ x + r / 2 = omega arith in
    let mask : (2 ^ suc k - 1) / 2 ≡ 2 ^ k - 1 = omega (arith, p) in
    rw (doubled k q)
      (omega (arith, and_step (x * 2 + r) (2 ^ suc k - 1), ap₂ bit_and half mask, ih, p, h))

-- The masks of src/aenc.rs.
pub and_mask5 : (a : ℕ) → bit_and a 0x1F ≡ a % 32
and_mask5 a =
    let e : a / 32 * 32 + a % 32 ≡ a = omega arith in
    ap (λ x. bit_and x 0x1F) (sym e) ∙ and_mask_split 5 (a / 32) (a % 32) (omega arith)

pub and_mask4 : (a : ℕ) → bit_and a 0xF ≡ a % 16
and_mask4 a =
    let e : a / 16 * 16 + a % 16 ≡ a = omega arith in
    ap (λ x. bit_and x 0xF) (sym e) ∙ and_mask_split 4 (a / 16) (a % 16) (omega arith)

pub and_mask19 : (a : ℕ) → bit_and a 0x7FFFF ≡ a % 524288
and_mask19 a =
    let e : a / 524288 * 524288 + a % 524288 ≡ a = omega arith in
    ap (λ x. bit_and x 0x7FFFF) (sym e) ∙ and_mask_split 19 (a / 524288) (a % 524288) (omega arith)

pub and_mask26 : (a : ℕ) → bit_and a 0x03FF_FFFF ≡ a % 67108864
and_mask26 a =
    let e : a / 67108864 * 67108864 + a % 67108864 ≡ a = omega arith in
    ap (λ x. bit_and x 0x03FF_FFFF) (sym e)
    ∙ and_mask_split 26 (a / 67108864) (a % 67108864) (omega arith)

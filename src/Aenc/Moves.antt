-- ===== src/Aenc/Moves.antt =====
-- What the processor does with the moves that `load_imm64` of src/aenc.rs puts out.
use mf.Prelude.{
  ℕ, ◌+◌, ◌-◌, ◌*◌, ◌/◌, ◌%◌, ◌^◌, ◌<◌, ◌==◌, ◌≡◌, refl, ap, ==_self, ◌∙◌, arith, List, [], ◌∷◌,
  ◌++◌, Option, some, none, if◌then◌else◌, bit_and, bit_or, length, drop,
}
use mf.Word.{IsWord}
use mf.Word.Fields.{or_disjoint, and_mask5}
use mf.Aenc.Fields.{shl32}
use mf.Aenc.Transfer.{movz, movk}
use mf.Aenc.Emit.{load_imm64}

-- What a move of 16 bits does to a 64-bit register: the operation 0x1A5 (`movz`) clears the rest of the
-- register, 0x1E5 (`movk`) keeps it. `none` is any other operation.
unfoldable pub effect : ℕ → ℕ → ℕ → ℕ → Option ℕ
effect operation hw imm x =
    let bits = 2 ^ (16 * hw) in
    if operation == 0x1A5
    then some (imm * bits)
    else if operation == 0x1E5
    then some (x - x / bits % 65536 * bits + imm * bits)
    else none

-- The A64 encoding of such a move: from the top, nine bits of operation, two of position, sixteen of
-- immediate and five of register; `none` is another register.
abbrev pub move : ℕ → ℕ → ℕ → Option ℕ
move rd word x =
    if word % 32 == rd
    then effect (word / 8388608) (word / 2097152 % 4) (word / 32 % 65536) x
    else none

abbrev pub moves : ℕ → List ℕ → ℕ → Option ℕ
moves rd [] x = some x
moves rd (word ∷ words) x = elim (move rd word x) [ none ↦ none | some y ↦ moves rd words y ]

-- The fields of such a word do not meet.
wide_fields :
    (op hw imm rd : ℕ)
    → op < 512
    → hw < 4
    → imm < 65536
    → bit_or (bit_or (bit_or (op * 8388608) (shl32 hw 21)) (shl32 imm 5)) (bit_and rd 0x1F)
      ≡ op * 8388608 + hw * 2097152 + imm * 32 + rd % 32
wide_fields op hw imm rd h1 h2 h3 =
    let a : shl32 hw 21 ≡ hw * 2097152 = omega arith in
    let b : shl32 imm 5 ≡ imm * 32 = omega arith in
    let x = op * 8388608 + hw * 2097152 in
    let y = x + imm * 32 in
    let p : bit_or (op * 8388608) (hw * 2097152) ≡ x =
      or_disjoint 23 op (hw * 2097152) (omega arith) in
    let ex : (op * 4 + hw) * 2097152 ≡ x = omega arith in
    let q : bit_or x (imm * 32) ≡ y =
      rw (← ex) (or_disjoint 21 (op * 4 + hw) (imm * 32) (omega arith)) in
    let ey : (op * 262144 + hw * 65536 + imm) * 32 ≡ y = omega arith in
    let r : bit_or y (rd % 32) ≡ y + rd % 32 =
      rw (← ey) (or_disjoint 5 (op * 262144 + hw * 65536 + imm) (rd % 32) (omega arith)) in
    rw (a, b, p, q, and_mask5 rd, r) (omega arith)

move_fields :
    (rd op hw imm x word : ℕ)
    → rd < 32
    → op < 512
    → hw < 4
    → imm < 65536
    → word ≡ op * 8388608 + hw * 2097152 + imm * 32 + rd % 32
    → move rd word x ≡ effect op hw imm x
move_fields rd op hw imm x word h h1 h2 h3 e =
    let r : word % 32 ≡ rd = omega (arith, e) in
    let o : word / 8388608 ≡ op = omega (arith, e) in
    let w : word / 2097152 % 4 ≡ hw = omega (arith, e) in
    let i : word / 32 % 65536 ≡ imm = omega (arith, e) in rw (r, o, w, i, ==_self rd) refl

move-movz :
    (rd imm x : ℕ) → rd < 32 → imm < 65536 → move rd (movz rd imm 0) x ≡ effect 0x1A5 0 imm x
unfolding movz
move-movz rd imm x h k =
    move_fields rd 0x1A5 0 imm x (movz rd imm 0) h (omega arith) (omega arith) k
      (wide_fields 0x1A5 0 imm rd (omega arith) (omega arith) k)

move-movk :
    (rd imm hw x : ℕ)
    → rd < 32
    → hw < 4
    → imm < 65536
    → move rd (movk rd imm (16 * hw)) x ≡ effect 0x1E5 hw imm x
unfolding movk
move-movk rd imm hw x h g k =
    let s : 16 * hw / 16 ≡ hw = omega arith in
    move_fields rd 0x1E5 hw imm x (movk rd imm (16 * hw)) h (omega arith) g k
      (rw s (wide_fields 0x1E5 hw imm rd (omega arith) g k))

drop-length : (out ys : List ℕ) → drop (length out) (out ++ ys) ≡ ys
drop-length [] ys = refl
drop-length (x ∷ out) ys = drop-length out ys

moves-drop :
    (rd : ℕ) (out words : List ℕ) (x : ℕ)
    → moves rd (drop (length out) (out ++ words)) x ≡ moves rd words x
moves-drop rd out words x = ap (λ ws. moves rd ws x) (drop-length out words)

moves-one :
    (rd word x y : ℕ) (words : List ℕ)
    → move rd word x ≡ some y
    → moves rd (word ∷ words) x ≡ moves rd words y
moves-one rd word x y words e = rw (e, moves) refl

-- The words that `load_imm64` puts behind `out`, run as moves, leave its value in the register,
-- whatever the register held before. The register is one of 32, the value a 64-bit word.
pub moves-load_imm64 :
    (rd val x : ℕ) (out : List ℕ)
    → rd < 32
    → IsWord val
    → moves rd (drop (length out) (load_imm64 rd val out)) x ≡ some val
unfolding load_imm64 effect
moves-load_imm64 rd val x out h k =
    let a = val % 65536 in
    let b = val / 65536 % 65536 in
    let c = val / 4294967296 % 65536 in
    let d = val / 281474976710656 % 65536 in
    let y1 = a in
    let y2 = y1 - y1 / 65536 % 65536 * 65536 + b * 65536 in
    let y3 = y2 - y2 / 4294967296 % 65536 * 4294967296 + c * 4294967296 in
    let y4 = y3 - y3 / 281474976710656 % 65536 * 281474976710656 + d * 281474976710656 in
    let e1 : y1 * 1 ≡ y1 = omega arith in
    let e2 : y2 ≡ a + b * 65536 = omega arith in
    let e3 : y3 ≡ a + b * 65536 + c * 4294967296 = omega (arith, e2) in
    let e4 : y4 ≡ val = omega (arith, e3) in
    let s1 : move rd (movz rd a 0) x ≡ some y1 = move-movz rd a x h (omega arith) ∙ ap some e1 in
    let s2 : move rd (movk rd b 16) y1 ≡ some y2 =
      move-movk rd b 1 y1 h (omega arith) (omega arith) in
    let s3 : move rd (movk rd c 32) y2 ≡ some y3 =
      move-movk rd c 2 y2 h (omega arith) (omega arith) in
    let s4 : move rd (movk rd d 48) y3 ≡ some y4 =
      move-movk rd d 3 y3 h (omega arith) (omega arith) in
    moves-drop rd out _ x
    ∙ moves-one rd (movz rd a 0) x y1 (movk rd b 16 ∷ movk rd c 32 ∷ movk rd d 48 ∷ []) s1
    ∙ moves-one rd (movk rd b 16) y1 y2 (movk rd c 32 ∷ movk rd d 48 ∷ []) s2
    ∙ moves-one rd (movk rd c 32) y2 y3 (movk rd d 48 ∷ []) s3
    ∙ moves-one rd (movk rd d 48) y3 y4 [] s4
    ∙ ap some e4

-- ===== src/Tests/Code.antt =====
-- Instruction words, and a run of tokens.
use mf.Prelude.{
  ℕ, ◌/◌, ◌%◌, ◌≡◌, refl, sym, arith, Bool, true, false, not, List, [], ◌∷◌, Option, some, none,
  All, drop, ap, if◌then◌else◌, ◌==◌, bit_xor, ◌-◌, Bool-cases, ==→eq, ==→ne, inl, inr,
}
use mf.Prelude.Int.{negsuc}
use mf.Word.{IsWord}
use mf.Aenc.Emit.{load_imm64, patch_bcond}
use mf.Aenc.Moves.{moves, moves-load_imm64}
use mf.Aenc.Branches.{branch_offset, patch_bcond_lem}
use mf.Opt.Tok.{Bin, Stk, FCmp, Tok}
use mf.Opt.Metrics.{default, rewrites}
use mf.Opt.Reduce.{reduce, reduce_loop, reduce_tok, reduce_stk, is_absorbing}
use mf.Opt.Eval.{bin_eval, fcmp_negate}
use mf.Word.Bits.{xor_step}
use mf.Opt.Machine.{Host, Stack, run, exec, IsTok}
use mf.Opt.Sound.Run.{run-reduce}
use mf.Opt.Sound.Twice.{reduce_twice}
use mf.Session.Inline.{InlineWords, Stands, find_word, expand_inline, run-expand_inline}
use mathlib.Core.Option.{some-injective}

moves-load_imm64_example :
    moves 3 (drop 1 (load_imm64 3 0x1234_5678_9ABC_DEF0 (0 ∷ []))) 7 ≡ some 0x1234_5678_9ABC_DEF0
moves-load_imm64_example =
    moves-load_imm64 3 0x1234_5678_9ABC_DEF0 7 (0 ∷ []) (omega arith) (omega arith)

-- A `b.eq` at place 1, patched to place 0.
patch_bcond_lem_example :
    (word : ℕ) × (patch_bcond (0 ∷ 0x5400_0000 ∷ []) 1 0 ≡ some (0 ∷ word ∷ []))
    × (word / 16777216 ≡ 0x54)
    × (word % 32 ≡ 0)
    × (branch_offset word ≡ negsuc 0)
patch_bcond_lem_example =
    patch_bcond_lem (0 ∷ 0x5400_0000 ∷ []) 1 0 0x5400_0000 refl (omega arith) (omega arith)

-- A host with no other words. Its world is what an even condition finds; an odd one finds the opposite.
abbrev parity : ℕ → Bool → Bool
parity c w = if c % 2 == 0 then w else not w

abbrev found : FCmp → Bool → Bool
found (FCmp.bin c) w = parity c w
found (FCmp.zero c) w = parity c w

not-not : (w : Bool) → not (not w) ≡ w
not-not true = refl
not-not false = refl

parity-negate : (c : ℕ) (w : Bool) → parity (bit_xor c 1) w ≡ not (parity c w)
parity-negate c w =
    let x : bit_xor c 1 % 2 ≡ 1 - c % 2 = omega (arith, xor_step c 1) in
    elim (Bool-cases (c % 2 == 0)) [
      | inl t ↦ let e : c % 2 ≡ 0 = ==→eq (c % 2) 0 t in rw (x, e) refl
      | inr f ↦
          let n = ==→ne (c % 2) 0 f in
          let e : c % 2 ≡ 1 = omega (arith, n) in rw (x, e) (sym (not-not w))
    ]

found-negate : (c : FCmp) (w : Bool) → found (fcmp_negate c) w ≡ not (found c w)
unfolding fcmp_negate
found-negate (FCmp.bin c) w = parity-negate c w
found-negate (FCmp.zero c) w = parity-negate c w

abbrev opposite : Option (Bool × Bool) → Option (Bool × Bool)
opposite none = none
opposite (some (t, w)) = some (not t, w)

abbrev answer : FCmp → Bool → Option (Bool × Bool)
answer c w = some (found c w, w)

compare_negated_lem :
    (c : FCmp) (w : Bool) (s : Bool × Bool)
    → answer c w ≡ some s
    → answer (fcmp_negate c) w ≡ some (not s.0, s.1)
compare_negated_lem c w s e = rw (found-negate c w) (ap opposite e)

none≢machine : (s : Stack × Bool) → ¬ (none ≡ some s)
none≢machine s q = cc

none_performed : (s : Stack × Bool) → none ≡ some s → All IsWord s.0
none_performed s e = absurd (none≢machine s e)

abbrev small_host : Host
small_host = record {
  World = Bool;
  perform = λ t st w. none;
  perform_words = λ t st st' w w' h e. none_performed (st', w') e;
  compare_floats = λ c w. answer c w;
  compare_negated = λ c w w' t h e. compare_negated_lem c w (t, w') e;
}

-- `3 2 * 0 +`
abbrev toks : List Tok
toks = Tok.lit 3 ∷ Tok.lit 2 ∷ Tok.bin Bin.mul ∷ Tok.lit 0 ∷ Tok.bin Bin.add ∷ []

toks-IsTok : All IsTok toks
toks-IsTok = (omega arith, (omega arith, (tt, (omega arith, (tt, tt)))))

run-toks : run small_host toks ([], true) ≡ some (6 ∷ [], true)
unfolding run exec bin_eval
run-toks = refl

run-reduce_example : run small_host (reduce toks default).0 ([], true) ≡ some (6 ∷ [], true)
run-reduce_example =
    run-reduce small_host toks default ([], true) (6 ∷ [], true) toks-IsTok tt run-toks

nothing_counted : rewrites (reduce (Tok.lit 3 ∷ Tok.stk Stk.dup ∷ []) default).1 ≡ rewrites default
unfolding reduce reduce_loop reduce_tok reduce_stk
nothing_counted = refl

zero-IsAbsorbing : is_absorbing Bin.mul 0 ≡ true
unfolding is_absorbing
zero-IsAbsorbing = refl

reduce_twice_example :
    ((reduce (Tok.stk Stk.dup ∷ Tok.lit 0 ∷ Tok.bin Bin.mul ∷ []) default).0
      ≡ Tok.stk Stk.dup ∷ Tok.stk Stk.drop ∷ Tok.lit 0 ∷ [])
    × ((reduce (Tok.stk Stk.dup ∷ Tok.stk Stk.drop ∷ Tok.lit 0 ∷ []) default).0 ≡ Tok.lit 0 ∷ [])
reduce_twice_example = reduce_twice Bin.mul 0 default default zero-IsAbsorbing

-- A host whose only words push 5.
abbrev calls : Tok → Stack → Bool → Option (Stack × Bool)
calls (Tok.call xt) st w = some (5 ∷ st, w)
calls t st w = none

calls_words :
    (t : Tok) (st : Stack) (w : Bool) (s : Stack × Bool)
    → All IsWord st
    → calls t st w ≡ some s
    → All IsWord s.0
calls_words (Tok.call xt) st w s h e =
    rw (← ap (λ r. r.0) (some-injective (5 ∷ st, w) s e)) (omega arith, h)
calls_words t st w s h e = none_performed s e

abbrev calling_host : Host
calling_host = record {
  World = Bool;
  perform = λ t st w. calls t st w;
  perform_words = λ t st st' w w' h e. calls_words t st w (st', w') h e;
  compare_floats = λ c w. answer c w;
  compare_negated = λ c w w' t h e. compare_negated_lem c w (t, w') e;
}

abbrev five : InlineWords
five = (4096, Tok.lit 5 ∷ []) ∷ []

none≢toks : (ts : List Tok) → ¬ (none ≡ some ts)
none≢toks ts q = cc

five-Stands : Stands calling_host five
unfolding run exec find_word
five-Stands xt ts s h = elim (Bool-cases (xt == 4096)) [
  | inl t ↦ rw (← some-injective (Tok.lit 5 ∷ []) ts (rw (t, find_word) at h)) refl
  | inr f ↦ absurd (none≢toks ts (rw (f, find_word) at h))
]

run-expand_inline_example :
    run calling_host
      (expand_inline five (Tok.call 4096 ∷ Tok.stk Stk.dup ∷ Tok.bin Bin.mul ∷ []))
      ([], true)
    ≡ run calling_host (Tok.call 4096 ∷ Tok.stk Stk.dup ∷ Tok.bin Bin.mul ∷ []) ([], true)
run-expand_inline_example =
    run-expand_inline calling_host five (Tok.call 4096 ∷ Tok.stk Stk.dup ∷ Tok.bin Bin.mul ∷ [])
      ([], true) five-Stands

-- ===== src/Session/Commit.antt =====
-- src/session.rs, `commit_body`: the end of a colon definition. The pending run is lowered, a call in tail
-- position becomes a jump, the `exit`s are patched to one epilogue, and the body goes to the code arena.
-- `lower` of src/opt.rs for the pins at hand is a parameter, since Opt/Lower leaves out a part of it.
use mf.Prelude.{
  ℕ, ◌*◌, leb, List, [], ◌∷◌, ◌++◌, length, Bool, true, false, not, ◌&&◌, Option, none, some,
  if◌then◌else◌,
}
use mf.Aenc.Transfer.{add_imm}
use mf.Aenc.Emit.{emit_unnest, emit_unnest_ret, emit_tail_call, emit_nest, patch_b}
use mf.Arena.Store.{Memory}
use mf.Arena.{CodeArena, contains, commit, next_addr}
use mf.Opt.Tok.{Tok}
use mf.Opt.Metrics.{default}
use mf.Opt.Reduce.{reduce}
use mf.Session.Def.{Result, ok, bail, and_then, or_panic, ColonDef}
use mf.Session.Control.{patch_all}
use mf.Session.Inline.{InlineWords, inlinable_toks, expand_inline}

abbrev pub inline_max : ℕ
inline_max = 16

abbrev is_nil {ℓ} : {A : Type ℓ} → List A → Bool
is_nil [] = true
is_nil (x ∷ xs) = false

-- The arena, what it holds, the words to inline, and the class whose method is compiled.
pub record Compiler : Type 0 where
  pub code : CodeArena
  pub memory : Memory
  pub inline_words : InlineWords
  pub method_class : Option (List ℕ)

-- A new definition after `:`.
unfoldable pub open_colon : List ℕ → Compiler → ColonDef
open_colon name c = record {
  name = name;
  body = emit_nest [];
  cf = [];
  toks = [];
  locals = [];
  local_floats = [];
  self_xt = next_addr c.code;
  exits = [];
  inline_toks = some [];
}

-- The last token, where it is a call of a word in the arena, and the tokens before it.
unfoldable pub tail_call : CodeArena → List Tok → List Tok × Option ℕ
tail_call code [] = ([], none)
tail_call code (Tok.call xt ∷ []) =
    if contains code xt then ([], some xt) else (Tok.call xt ∷ [], none)
tail_call code (t ∷ toks) = let (rest, tail) = tail_call code toks in (t ∷ rest, tail)

-- The frame of the locals is dropped.
abbrev pub drop_frame : List (List ℕ) → List ℕ → List ℕ
drop_frame [] body = body
drop_frame (l ∷ locals) body = body ++ (add_imm 21 21 (length (l ∷ locals) * 8) ∷ [])

-- The jump to the callee, after the return address of the caller is restored.
unfoldable pub tail_path : List (List ℕ) → Option ℕ → List ℕ → List ℕ
tail_path locals none body = body
tail_path locals (some xt) body = emit_tail_call xt (emit_unnest (drop_frame locals body))

-- The epilogue, where the body can run to its end or to an `exit`.
unfoldable pub with_epilogue : List (List ℕ) → Option ℕ → List ℕ → List ℕ → Result (List ℕ)
with_epilogue locals (some xt) [] body = ok body
with_epilogue locals tail exits body =
    patch_all patch_b exits (length body) (emit_unnest_ret (drop_frame locals body))

unfoldable pub finish_body : Option ℕ → ColonDef → Result (List ℕ)
unfolding tail_path with_epilogue
finish_body tail def = elim def.cf [
  | [] ↦ with_epilogue def.locals tail def.exits (tail_path def.locals tail def.body)
  | c ∷ cf ↦ bail
]

-- The tokens kept for inlining: with the call in the tail, and with the frame closed.
abbrev pub closed_toks : Option ℕ → ColonDef → Option (List Tok)
closed_toks tail def = elim def.inline_toks [
  | none ↦ none
  | some toks ↦
      let called : List Tok = elim tail [ none ↦ toks | some xt ↦ toks ++ (Tok.call xt ∷ []) ] in
      some (
        if is_nil def.locals then called else called ++ (Tok.close_locals (length def.locals) ∷ []))
]

abbrev pub is_none {ℓ} : {A : Type ℓ} → Option A → Bool
is_none none = true
is_none (some a) = false

-- A small straight-line word is kept for its callers.
unfoldable pub keep_inline : ℕ → Option (List Tok) → ColonDef → Compiler → InlineWords
keep_inline xt none def c = c.inline_words
keep_inline xt (some toks) def c =
    let expanded = expand_inline c.inline_words toks in
    if not (is_nil def.name)
      && is_none c.method_class
      && leb (length toks) inline_max
      && inlinable_toks toks
      && leb (length expanded) inline_max
    then (xt, expanded) ∷ c.inline_words
    else c.inline_words

-- The finished words go to the arena; no room is an error.
unfoldable pub commit_words : Option ℕ → ColonDef → Compiler → List ℕ → Result (ℕ × Compiler)
commit_words tail def c body = elim (commit c.code c.memory body) [
  | none ↦ bail
  | some (xt, code, memory) ↦ ok (
    xt,
    record c {
      code = code;
      memory = memory;
      inline_words = keep_inline xt (closed_toks tail def) def c;
    },
  )
]

module _ (lower : List Tok → List ℕ → Option (List ℕ)) where
  -- The counters and the trace are left out.
  unfoldable pub flush_toks : ColonDef → Result ColonDef
  flush_toks def =
      if is_nil def.toks
      then ok def
      else (let reduced = (reduce def.toks default).0 in
          and_then (or_panic (lower reduced def.body)) (λ body. ok (record def {
            body = body;
            toks = [];
            inline_toks = elim def.inline_toks [ none ↦ none | some acc ↦ some (acc ++ reduced) ];
          })))

  unfoldable pub commit_body : ColonDef → Compiler → Result (ℕ × Compiler)
  unfolding flush_toks finish_body commit_words
  commit_body pending c =
      let (toks, tail) = tail_call c.code pending.toks in
      and_then (flush_toks (record pending { toks = toks }))
        (λ def. and_then (finish_body tail def) (commit_words tail def c))

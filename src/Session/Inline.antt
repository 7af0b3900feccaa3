-- ===== src/Session/Inline.antt =====
-- src/session.rs, `inlinable_toks` and `expand_inline`: small words whose tokens stand for their calls.
-- The map from code addresses to tokens is a list of pairs, the newest first.
use mf.Prelude.{
  ℕ, ◌≡◌, refl, ◌∙◌, List, [], ◌∷◌, ◌++◌, Bool, true, false, Option, none, some, ◌==◌,
  if◌then◌else◌, ◌&&◌,
}
use mf.Prelude.{Option-cases, inl, inr}
use mf.Opt.Tok.{Tok}
use mf.Opt.Machine.{Host, Machine, run, exec, and_then}
use mf.Opt.Sound.Run.{run-append}

abbrev pub InlineWords : Type 0
InlineWords = List (ℕ × List Tok)

unfoldable pub find_word : ℕ → InlineWords → Option (List Tok)
find_word xt [] = none
find_word xt ((key, toks) ∷ words) = if xt == key then some toks else find_word xt words

abbrev pub is_inlinable : Tok → Bool
is_inlinable (Tok.ivar_fetch n) = false
is_inlinable (Tok.ivar_store n) = false
is_inlinable Tok.self_push = false
is_inlinable t = true

unfoldable pub inlinable_toks : List Tok → Bool
inlinable_toks [] = true
inlinable_toks (t ∷ toks) = is_inlinable t && inlinable_toks toks

-- The tokens of a word in place of its call.
abbrev pub expand_tok : InlineWords → Tok → List Tok
expand_tok words (Tok.call xt) = elim (find_word xt words) [
  | none ↦ Tok.call xt ∷ []
  | some inner ↦ inner
]
expand_tok words t = t ∷ []

unfoldable pub expand_inline : InlineWords → List Tok → List Tok
expand_inline words [] = []
expand_inline words (t ∷ toks) = expand_tok words t ++ expand_inline words toks

module _ (host : Host) where
  -- The tokens kept for a word do what a call of it does.
  abbrev pub Stands : InlineWords → Type 0
  Stands words =
      (xt : ℕ) (toks : List Tok) (s : Machine host)
      → find_word xt words ≡ some toks
      → run host toks s ≡ exec host (Tok.call xt) s

  and_then-some : (o : Option (Machine host)) → and_then host o some ≡ o
  and_then-some none = refl
  and_then-some (some u) = refl

  run-expand_tok :
      (words : InlineWords) (t : Tok) (s : Machine host)
      → Stands words
      → run host (expand_tok words t) s ≡ exec host t s
  unfolding run
  run-expand_tok words (Tok.call xt) s st = elim (Option-cases (find_word xt words)) [
    | inl e ↦ rw (e, run) (and_then-some (exec host (Tok.call xt) s))
    | inr (toks, e) ↦ rw (e, run) (st xt toks s e)
  ]
  run-expand_tok words t s st = and_then-some (exec host t s)

  -- A run of tokens in which the kept words are written out for their calls does what the run does,
  -- from every stack and world, for every host on which the tokens kept for a word do what a call of
  -- it does.
  pub run-expand_inline :
      (words : InlineWords) (toks : List Tok) (s : Machine host)
      → Stands words
      → run host (expand_inline words toks) s ≡ run host toks s
  unfolding run expand_inline
  run-expand_inline words [] s st = refl
  run-expand_inline words (t ∷ toks) s st =
      run-append host (expand_tok words t) (expand_inline words toks) s
      ∙ rw (run-expand_tok words t s st)
          (λ i. and_then host (exec host t s) (λ u. run-expand_inline words toks u st i))

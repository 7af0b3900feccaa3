-- ===== src/Session/Marker/Stale.antt =====
-- Code addresses and the words kept for inlining after a marker of src/session.rs has run.
use mf.Prelude.{
  ℕ, zero, suc, ◌+◌, ◌*◌, ◌/◌, ◌%◌, ◌≡◌, refl, sym, ap, ap₂, ◌∙◌, List, length, Option, none, some,
  ltb, Bool-cases, inl, inr, ◌==◌, not, ◌&&◌,
}
use mathlib.Core.Option.{some-injective}
use mf.Arena.{start, next_addr, checkpoint, reset_to, commit}
use mf.Session.Def.{Result, ok, ColonDef}
use mf.Session.Inline.{find_word}
use mf.Session.Commit.{Compiler, closed_toks, keep_inline, commit_words}
use mf.Session.Marker.{
  Marker, Session, snapshot, unlink, unlink_all, rollback_overlay, reset_code, run_marker,
  publish_constant, constant_words,
}

abbrev to_option {ℓ} : {A : Type ℓ} → Result A → Option A
to_option (ok a) = some a
to_option r = none

none≢result : (r : ℕ × Compiler) → ¬ (none ≡ some r)
none≢result r q = cc

-- What a successful commit gives.
commit_words_ok :
    (tail : Option ℕ) (def : ColonDef) (c c' : Compiler) (body : List ℕ) (xt : ℕ)
    → commit_words tail def c body ≡ ok (xt, c')
    → (next_addr c.code ≡ xt)
      × (keep_inline xt (closed_toks tail def) def c ≡ c'.inline_words)
      × (c.code.region ≡ c'.code.region)
unfolding commit_words commit next_addr
commit_words_ok tail def c c' body xt e =
    elim (Bool-cases (ltb c.code.cap (start c.code + length body * 4))) [
      | inl t ↦ absurd (none≢result (xt, c') (ap to_option (rw (t, commit_words) at e)))
      | inr f ↦
          let same = some-injective _ _ (ap to_option (rw (f, commit_words) at e)) in
          let a = ap (λ r. r.0) same in
          (
            a,
            ap (λ x. keep_inline x (closed_toks tail def) def c) (sym a)
                ∙ ap (λ r. r.1.inline_words) same,
            ap (λ r. r.1.code.region) same,
          )
    ]

none≢published : (r : ℕ × Compiler) → ¬ (none ≡ some r)
none≢published r q = cc

publish_constant_ok :
    (value addr : ℕ) (c c' : Compiler)
    → publish_constant value c ≡ some (addr, c')
    → (start c.code + length (constant_words value) * 4 ≡ c'.code.cursor)
      × (c.code.region ≡ c'.code.region)
      × (c.inline_words ≡ c'.inline_words)
unfolding publish_constant commit
publish_constant_ok value addr c c' e =
    elim (Bool-cases (ltb c.code.cap (start c.code + length (constant_words value) * 4))) [
      | inl t ↦ absurd (none≢published (addr, c') (rw (t, publish_constant) at e))
      | inr f ↦
          let same = some-injective _ _ (rw (f, publish_constant) at e) in
          (
            ap (λ r. r.1.code.cursor) same,
            ap (λ r. r.1.code.region) same,
            ap (λ r. r.1.inline_words) same,
          )
    ]

-- A word without tokens for inlining.
kept_words :
    (xt : ℕ) (tail : Option ℕ) (def : ColonDef) (c : Compiler)
    → def.inline_toks ≡ none
    → keep_inline xt (closed_toks tail def) def c ≡ c.inline_words
unfolding keep_inline
kept_words xt tail def c h = rw (h, closed_toks) refl

module _ {A : Type 0} where
  unlink_compiler : (node : ℕ) (s : Session A) → (unlink node s).compiler ≡ s.compiler
  unfolding unlink
  unlink_compiler node s =
      elim (Bool-cases
        (s.cells (s.cells (node + 24) + s.cells (node + 32) % 4294967296 % 512 * 8) == node)) [
          | inl t ↦ rw (t, unlink) refl
          | inr f ↦ rw (f, unlink) refl
        ]

  unlink_all_compiler :
      (fuel node t : ℕ) (s : Session A) → (unlink_all fuel node t s).compiler ≡ s.compiler
  unfolding unlink_all unlink
  unlink_all_compiler zero node t s = refl
  unlink_all_compiler (suc fuel) node t s = elim (Bool-cases (not (node == 0) && ltb node t)) [
    | inl e ↦
        rw (e, unlink_all) (unlink_all_compiler fuel _ t (unlink node s) ∙ unlink_compiler node s)
    | inr e ↦ rw (e, unlink_all) refl
  ]

  run_marker_compiler :
      (fuel : ℕ) (m : Marker A) (s : Session A)
      → (run_marker fuel m s).compiler ≡ reset_code m.code_cursor s.compiler
  unfolding run_marker rollback_overlay
  run_marker_compiler fuel m s = ap (reset_code m.code_cursor) (unlink_all_compiler fuel _ _ s)

  -- A marker is made, a word is committed, the marker is run and made again, and a word that keeps
  -- no tokens for inlining is committed. Where the four steps succeed, the second word gets the
  -- address of the first, and find_word gives for its address the tokens kept for the first.
  pub find_word-run_marker :
      (fuel : ℕ) (s s' : Session A) (c0 c1 c2 c3 : Compiler) (tail tail' : Option ℕ)
      (def def' : ColonDef) (body body' : List ℕ) (addr addr' xt xt' : ℕ)
      → publish_constant 0 s.compiler ≡ some (addr, c0)
      → commit_words tail def c0 body ≡ ok (xt, c1)
      → publish_constant 0 (run_marker fuel (snapshot s) (record s' { compiler = c1 })).compiler
        ≡ some (addr', c2)
      → commit_words tail' def' c2 body' ≡ ok (xt', c3)
      → def'.inline_toks ≡ none
      → (xt' ≡ xt) × (find_word xt' c3.inline_words ≡ find_word xt c1.inline_words)
  unfolding snapshot reset_code reset_to checkpoint next_addr
  find_word-run_marker fuel s s' c0 c1 c2 c3 tail tail' def def' body body' addr addr' xt xt' p e p'
        e' h =
      let m = run_marker_compiler fuel (snapshot s) (record s' { compiler = c1 }) in
      let (u, r0, i0) = publish_constant_ok 0 addr s.compiler c0 p in
      let (a, w, r) = commit_words_ok tail def c0 c1 body xt e in
      let (u', r2, i2) = publish_constant_ok 0 addr' _ c2 (rw m at p') in
      let (a', w', r3) = commit_words_ok tail' def' c2 c3 body' xt' e' in
      let cursors : c2.code.cursor ≡ c0.code.cursor = sym u' ∙ u in
      let regions : c2.code.region ≡ c0.code.region = sym r2 ∙ sym r in
      let same : xt' ≡ xt = sym a' ∙ ap₂ (λ x y. x + (y + 15) / 16 * 16) regions cursors ∙ a in
      let words : c3.inline_words ≡ c1.inline_words =
        sym w' ∙ kept_words xt' tail' def' c2 h ∙ sym i2 in
      (same, ap₂ find_word same words)

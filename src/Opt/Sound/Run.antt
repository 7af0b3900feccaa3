-- ===== src/Opt/Sound/Run.antt =====
-- `reduce` keeps what a token run does.
use mf.Prelude.{List, [], ◌∷◌, ◌++◌, some, All, ◌≡◌, refl, Option-cases, inl, inr, length, ◌+◌}
use mathlib.Core.List.{reverse, reverse-cons}
use mf.Opt.Tok.{Tok}
use mf.Opt.Metrics.{Metrics}
use mf.Opt.Reduce.{reduce_tok, reduce_loop, reduce}
use mf.Opt.Machine.{Host, Machine, exec, run, run_back, and_then, IsTok}
use mf.Opt.Sound.Words.{Valid}
use mf.Opt.Sound.Rules.{none≢some}
use mf.Opt.Sound.Arms.{reduce_tok-Keeps}

module _ (host : Host) where
  pub run-append :
      (xs ys : List Tok) (s : Machine host)
      → run host (xs ++ ys) s ≡ and_then host (run host xs s) (run host ys)
  unfolding run
  run-append [] ys s = refl
  run-append (t ∷ xs) ys s = elim (Option-cases (exec host t s)) [
    | inl e ↦ rw e
    | inr (u, e) ↦ rw e (run-append xs ys u)
  ]

  run-one : (t : Tok) (s : Machine host) → run host (t ∷ []) s ≡ exec host t s
  unfolding run
  run-one t s = elim (Option-cases (exec host t s)) [ inl e ↦ rw e | inr (u, e) ↦ rw e ]

  run-reverse : (out : List Tok) (s : Machine host) → run host (reverse out) s ≡ run_back host out s
  unfolding run run_back
  run-reverse [] s = refl
  run-reverse (t ∷ out) s =
      rw (reverse-cons t out, run-append (reverse out) (t ∷ []) s, run-reverse out s)
        (elim (Option-cases (run_back host out s)) [
          | inl e ↦ rw e
          | inr (u, e) ↦ rw e (run-one t u)
        ])

  after :
      (t : Tok) (out : List Tok) (u v x : Machine host)
      → run_back host out u ≡ some v
      → exec host t v ≡ some x
      → run_back host (t ∷ out) u ≡ some x
  unfolding run_back
  after t out u v x p e = rw p e

  -- The tokens put out do what those put out before and those that come do.
  reduce_loop_lem :
      (toks out : List Tok) (m : Metrics) (u v s : Machine host)
      → All IsTok toks
      → All IsTok out
      → Valid host u
      → run_back host out u ≡ some v
      → run host toks v ≡ some s
      → run_back host (reduce_loop toks out m).0 u ≡ some s
  unfolding reduce_loop run
  reduce_loop_lem [] out m u v s ht ho hu p q = (rw q at p)
  reduce_loop_lem (t ∷ toks) out m u v s (ht, hts) ho hu p q = elim (Option-cases (exec host t v)) [
    | inl e ↦ absurd (none≢some host s (rw e at q))
    | inr (x, e) ↦
        let k = reduce_tok-Keeps host t out m ht ho in
        let a : run_back host (t ∷ out) u ≡ some x = after t out u v x p e in
        reduce_loop_lem toks (reduce_tok t out m).0 (reduce_tok t out m).1 u x s hts k.0 hu
          (k.1 u x hu a) (rw e at q)
  ]

  -- Where a run of tokens of the source's types succeeds from a stack of words, the run that
  -- `reduce` puts out, from any counters, ends in the same stack and the same world, for every host.
  pub run-reduce :
      (toks : List Tok) (m : Metrics) (s s' : Machine host)
      → All IsTok toks
      → Valid host s
      → run host toks s ≡ some s'
      → run host (reduce toks m).0 s ≡ some s'
  unfolding reduce run_back
  run-reduce toks m s s' h v e =
      let start = record m { toks_in = m.toks_in + length toks } in
      rw (run-reverse (reduce_loop toks [] start).0 s)
        (reduce_loop_lem toks [] start s s s' h tt v refl e)

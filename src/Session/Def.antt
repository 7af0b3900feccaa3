-- ===== src/Session/Def.antt =====
-- The pending colon definition of src/session.rs, its control-flow stack and its results. A vector is a
-- list in its own order, but the control-flow stack has its last entry first.
use mf.Prelude.{ℕ, Bool, List, Option, some, none}
use mf.Opt.Tok.{Tok}

-- A result of the source's `Result`: `bail` is an error, and `panic` what the source panics on.
pub data Result {ℓ} (A : Type ℓ) : Type ℓ where
  ok : A → Result A
  bail panic : Result A

abbrev pub and_then {ℓ κ} : {A : Type ℓ} {B : Type κ} → Result A → (A → Result B) → Result B
and_then (ok a) f = f a
and_then bail f = bail
and_then panic f = panic

-- A place outside the body panics.
abbrev pub or_panic {ℓ} : {A : Type ℓ} → Option A → Result A
or_panic (some a) = ok a
or_panic none = panic

-- `ok_or_else` with an error.
abbrev pub or_bail {ℓ} : {A : Type ℓ} → Option A → Result A
or_bail (some a) = ok a
or_bail none = bail

pub data Cf : Type 0 where
  fwd_cbz fwd_bcond fwd_b begin : ℕ → Cf
  -- The top of the body, and the forward branches to patch.
  do_loop : ℕ → List ℕ → Cf
  case : Cf

pub record ColonDef : Type 0 where
  pub name : List ℕ
  pub body : List ℕ
  pub cf : List Cf
  pub toks : List Tok
  -- Names as their bytes.
  pub locals : List (List ℕ)
  pub local_floats : List Bool
  -- The address that the body will stand at.
  pub self_xt : ℕ
  pub exits : List ℕ
  pub inline_toks : Option (List Tok)

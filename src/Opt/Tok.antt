-- ===== src/Opt/Tok.antt =====
-- The tokens of src/opt.rs: the operator enums and `Tok`. A literal is the pattern of its i64.
use mf.Prelude.{ℕ}

-- and, or, xor, add, sub, mul on two cells
pub data Bin : Type 0 where
  add sub mul and or xor : Bin

pub data Stk : Type 0 where
  dup drop swap over nip : Stk
  -- ( a b c -- b c a ), ( a b c -- c a b ), ( a b -- b a b )
  rot minus_rot tuck : Stk

pub data Cmp : Type 0 where
  eq ne lt gt le ge ult ugt zeq zne zlt zgt : Cmp

pub data Mem : Type 0 where
  fetch store cfetch cstore : Mem

pub data Sh : Type 0 where
  lsl lsr asr : Sh

pub data FBin : Type 0 where
  add sub mul div : FBin

pub data FUn : Type 0 where
  neg sqrt abs floor round trunc : FUn

-- Each holds the condition of its `csetm`.
pub data FCmp : Type 0 where
  bin zero : ℕ → FCmp

pub data Sel : Type 0 where
  min max umin umax : Sel

pub data Tok : Type 0 where
  lit : ℕ → Tok
  bin : Bin → Tok
  imm_bin : Bin → ℕ → Tok
  dup_bin : Bin → Tok
  shift : Sh → Tok
  imm_shift : Sh → ℕ → Tok
  dup_shift_bin : Bin → Sh → ℕ → Tok
  stk : Stk → Tok
  cmp : Cmp → Tok
  sel : Sel → Tok
  mem : Mem → Tok
  local_fetch local_store local_ffetch local_fstore : ℕ → Tok
  -- total, inputs, float_mask
  open_locals : ℕ → ℕ → ℕ → Tok
  close_locals : ℕ → Tok
  ivar_fetch ivar_store : ℕ → Tok
  self_push : Tok
  pick_n roll_n : ℕ → Tok
  flit : ℕ → Tok
  fbin : FBin → Tok
  fun : FUn → Tok
  fstk : Stk → Tok
  ffetch fstore : Tok
  fcmp : FCmp → Tok
  loop_idx : ℕ → Tok
  call : ℕ → Tok

-- ===== src/Session/Pins/Frame.antt =====
-- What the processor does with the loads and stores around a pinned loop of src/session.rs.
use mf.Prelude.{
  ℕ, ◌+◌, ◌*◌, ◌/◌, ◌%◌, ◌<◌, ◌==◌, ◌≡◌, refl, ◌∙◌, arith, List, [], ◌∷◌, ◌++◌, Option, some, none,
  if◌then◌else◌, bit_and, bit_or, ltb, lt→ltb, ◌&&◌,
}
use mf.Word.Fields.{or_disjoint, and_mask5}
use mf.Word.Bits.{and_ones}
use mf.Aenc.Fields.{shl32}
use mf.Aenc.Transfer.{ldr_off, str_off}
use mf.Aenc.Float.{fldr_off, fstr_off}
use mf.Session.Pins.{PinMap, fpin_loads, ipin_loads, fpin_stores, ipin_stores}

-- The registers and the frame; register 21 holds the address of the first local.
pub record Frame : Type 0 where
  pub registers : ℕ → ℕ
  pub floats : ℕ → ℕ
  pub locals : ℕ → ℕ

abbrev set : ℕ → ℕ → (ℕ → ℕ) → ℕ → ℕ
set i v cells j = if j == i then v else cells j

-- A load or a store of a cell of the frame: the operations 0x3E5 and 0x3E4 are of an integer register
-- below the frame pointer, 0x3F5 and 0x3F4 of a floating-point register. `none` is any other.
unfoldable pub access : ℕ → ℕ → ℕ → Frame → Option Frame
access operation i r m =
    if (operation == 0x3E5) && ltb r 21
    then some (record m { registers = set r (m.locals i) m.registers })
    else if (operation == 0x3E4) && ltb r 21
    then some (record m { locals = set i (m.registers r) m.locals })
    else if operation == 0x3F5
    then some (record m { floats = set r (m.locals i) m.floats })
    else if operation == 0x3F4
    then some (record m { locals = set i (m.floats r) m.locals })
    else none

-- The A64 encoding of a load or a store at an offset: from the top, ten bits of operation, twelve of
-- offset in cells, five of base and five of register; `none` is another base.
abbrev pub transfer : ℕ → Frame → Option Frame
transfer word m =
    if word / 32 % 32 == 21
    then access (word / 4194304) (word / 1024 % 4096) (word % 32) m
    else none

abbrev pub transfers : List ℕ → Frame → Option Frame
transfers [] m = some m
transfers (word ∷ words) m = elim (transfer word m) [ none ↦ none | some m' ↦ transfers words m' ]

-- Each register gets what its local holds, one after the other.
abbrev pub filled : PinMap → (ℕ → ℕ) → (ℕ → ℕ) → ℕ → ℕ
filled [] locals registers = registers
filled ((i, r) ∷ pins) locals registers = filled pins locals (set r (locals i) registers)

-- Each local gets what its register holds, one after the other.
abbrev pub written_back : PinMap → (ℕ → ℕ) → (ℕ → ℕ) → ℕ → ℕ
written_back [] registers locals = locals
written_back ((i, r) ∷ pins) registers locals =
    written_back pins registers (set i (registers r) locals)

-- Locals within reach of an offset, and registers below a bound.
abbrev pub IsWithin : ℕ → PinMap → Type 0
IsWithin bound [] = Unit
IsWithin bound ((i, r) ∷ pins) = (i < 4096) × (r < bound) × IsWithin bound pins

offset_fields :
    (op i r : ℕ)
    → op < 1024
    → i < 4096
    → r < 32
    → bit_or
        (bit_or (bit_or (op * 4194304) (shl32 i 10)) (shl32 (bit_and 21 0x1F) 5))
        (bit_and r 0x1F)
      ≡ op * 4194304 + i * 1024 + 672 + r
offset_fields op i r h1 h2 h3 =
    let a : shl32 i 10 ≡ i * 1024 = omega arith in
    let m : r % 32 ≡ r = omega arith in
    let x = op * 4194304 + i * 1024 in
    let y = x + 672 in
    let p : bit_or (op * 4194304) (i * 1024) ≡ x = or_disjoint 22 op (i * 1024) (omega arith) in
    let ex : (op * 4096 + i) * 1024 ≡ x = omega arith in
    let q : bit_or x 672 ≡ y = rw (← ex) (or_disjoint 10 (op * 4096 + i) 672 (omega arith)) in
    let ey : (op * 131072 + i * 32 + 21) * 32 ≡ y = omega arith in
    let s : bit_or y r ≡ y + r =
      rw (← ey) (or_disjoint 5 (op * 131072 + i * 32 + 21) r (omega arith)) in
    rw (a, p, and_mask5 r, m, q, s) refl

transfer_fields :
    (op i r word : ℕ) (m : Frame)
    → i < 4096
    → r < 32
    → word ≡ op * 4194304 + i * 1024 + 672 + r
    → transfer word m ≡ access op i r m
transfer_fields op i r word m h1 h2 e =
    let b : word / 32 % 32 ≡ 21 = omega (arith, e) in
    let o : word / 4194304 ≡ op = omega (arith, e) in
    let d : word / 1024 % 4096 ≡ i = omega (arith, e) in
    let t : word % 32 ≡ r = omega (arith, e) in rw (b, o, d, t) refl

offset_mask : (i : ℕ) → i < 4096 → bit_and (i * 8 / 8) 0xFFF ≡ i
offset_mask i h = let e : i * 8 / 8 ≡ i = omega arith in rw e (and_ones 12 i h)

module _ (i r : ℕ) (m : Frame) (near : i < 4096) where
  transfer-ldr_off :
      r < 21
      → transfer (ldr_off r 21 (i * 8)) m
        ≡ some (record m { registers = set r (m.locals i) m.registers })
  unfolding ldr_off access
  transfer-ldr_off h =
      transfer_fields 0x3E5 i r (ldr_off r 21 (i * 8)) m near (omega (arith, h))
        (rw (offset_mask i near) (offset_fields 0x3E5 i r (omega arith) near (omega (arith, h))))
      ∙ rw (lt→ltb r 21 h) refl

  transfer-str_off :
      r < 21
      → transfer (str_off r 21 (i * 8)) m
        ≡ some (record m { locals = set i (m.registers r) m.locals })
  unfolding str_off access
  transfer-str_off h =
      transfer_fields 0x3E4 i r (str_off r 21 (i * 8)) m near (omega (arith, h))
        (rw (offset_mask i near) (offset_fields 0x3E4 i r (omega arith) near (omega (arith, h))))
      ∙ rw (lt→ltb r 21 h) refl

  transfer-fldr_off :
      r < 32
      → transfer (fldr_off r 21 (i * 8)) m
        ≡ some (record m { floats = set r (m.locals i) m.floats })
  unfolding fldr_off access
  transfer-fldr_off h =
      let e : i * 8 / 8 ≡ i = omega arith in
      transfer_fields 0x3F5 i r (fldr_off r 21 (i * 8)) m near h
        (rw e (offset_fields 0x3F5 i r (omega arith) near h))

  transfer-fstr_off :
      r < 32
      → transfer (fstr_off r 21 (i * 8)) m
        ≡ some (record m { locals = set i (m.floats r) m.locals })
  unfolding fstr_off access
  transfer-fstr_off h =
      let e : i * 8 / 8 ≡ i = omega arith in
      transfer_fields 0x3F4 i r (fstr_off r 21 (i * 8)) m near h
        (rw e (offset_fields 0x3F4 i r (omega arith) near h))

transfers_step :
    (word : ℕ) (words : List ℕ) (m m' : Frame)
    → transfer word m ≡ some m'
    → transfers (word ∷ words) m ≡ transfers words m'
transfers_step word words m m' e = rw (e, transfers) refl

-- Loads of the pinned locals, and what follows them.
ipin_loads_lem :
    (ip : PinMap) (m : Frame)
    → IsWithin 21 ip
    → transfers (ipin_loads ip) m ≡ some (record m { registers = filled ip m.locals m.registers })
ipin_loads_lem [] m w = refl
ipin_loads_lem ((i, r) ∷ ip) m w =
    transfers_step _ (ipin_loads ip) m _ (transfer-ldr_off i r m w.0 w.1) ∙ ipin_loads_lem ip _ w.2

ipin_stores_lem :
    (ip : PinMap) (m : Frame)
    → IsWithin 21 ip
    → transfers (ipin_stores ip) m
      ≡ some (record m { locals = written_back ip m.registers m.locals })
ipin_stores_lem [] m w = refl
ipin_stores_lem ((i, r) ∷ ip) m w =
    transfers_step _ (ipin_stores ip) m _ (transfer-str_off i r m w.0 w.1)
    ∙ ipin_stores_lem ip _ w.2

pub transfers_loads :
    (fp ip : PinMap) (m : Frame)
    → IsWithin 32 fp
    → IsWithin 21 ip
    → transfers (fpin_loads fp ++ ipin_loads ip) m
      ≡ some (record m {
        registers = filled ip m.locals m.registers;
        floats = filled fp m.locals m.floats;
      })
transfers_loads [] ip m v w = ipin_loads_lem ip m w
transfers_loads ((i, d) ∷ fp) ip m v w =
    transfers_step _ (fpin_loads fp ++ ipin_loads ip) m _ (transfer-fldr_off i d m v.0 v.1)
    ∙ transfers_loads fp ip _ v.2 w

pub transfers_stores :
    (fp ip : PinMap) (m : Frame)
    → IsWithin 32 fp
    → IsWithin 21 ip
    → transfers (fpin_stores fp ++ ipin_stores ip) m
      ≡ some (record m { locals = written_back ip m.registers (written_back fp m.floats m.locals) })
transfers_stores [] ip m v w = ipin_stores_lem ip m w
transfers_stores ((i, d) ∷ fp) ip m v w =
    transfers_step _ (fpin_stores fp ++ ipin_stores ip) m _ (transfer-fstr_off i d m v.0 v.1)
    ∙ transfers_stores fp ip _ v.2 w

-- ===== src/Session/Pins.antt =====
-- src/session.rs, `compile_control` and `compile_control_fused` around a loop whose locals are pinned to
-- registers: loads before the loop, stores behind it. A map of pins is the list of its pairs, a local and
-- its register, in the order in which they are drained.
pub mod Inline
pub mod Nest
pub mod Loop
pub mod Frame
use mf.Prelude.{
  ℕ, zero, suc, ◌+◌, ◌-◌, ◌*◌, List, [], ◌∷◌, ◌++◌, Bool, true, false, not, ◌&&◌, ◌||◌, Option,
  none, some, if◌then◌else◌,
}
use mf.Prelude.Int.{ℤ, pos, negsuc}
use mf.Aenc.Transfer.{ldr_off, str_off}
use mf.Aenc.Float.{fldr_off, fstr_off}
use mf.Opt.Tok.{Cmp, Tok}
use mf.Session.Def.{Result, ok, and_then, ColonDef}
use mf.Session.Control.{Control, control, control_fused}
use mf.Session.Layout.{Item}

abbrev pub PinMap : Type 0
PinMap = List (ℕ × ℕ)

pub record Pins : Type 0 where
  pub active_fpins : PinMap
  pub active_ipins : PinMap
  -- The loops inside the pinned one; -1 is no pinned loop.
  pub pin_nest : ℤ
  pub pending_pins : Option (PinMap × PinMap)

abbrev pub increment : ℤ → ℤ
increment (pos n) = pos (suc n)
increment (negsuc zero) = pos 0
increment (negsuc (suc n)) = negsuc n

abbrev pub any_pins : PinMap → PinMap → Bool
any_pins (p ∷ fp) ip = true
any_pins [] (p ∷ ip) = true
any_pins [] [] = false

abbrev pub is_active : Pins → Bool
is_active pins = any_pins pins.active_fpins pins.active_ipins

-- Each pinned local is loaded from its place in the frame.
abbrev pub fpin_loads : PinMap → List ℕ
fpin_loads [] = []
fpin_loads ((i, d) ∷ pins) = fldr_off d 21 (i * 8) ∷ fpin_loads pins

abbrev pub ipin_loads : PinMap → List ℕ
ipin_loads [] = []
ipin_loads ((i, r) ∷ pins) = ldr_off r 21 (i * 8) ∷ ipin_loads pins

-- And stored there.
abbrev pub fpin_stores : PinMap → List ℕ
fpin_stores [] = []
fpin_stores ((i, d) ∷ pins) = fstr_off d 21 (i * 8) ∷ fpin_stores pins

abbrev pub ipin_stores : PinMap → List ℕ
ipin_stores [] = []
ipin_stores ((i, r) ∷ pins) = str_off r 21 (i * 8) ∷ ipin_stores pins

abbrev pub opens_loop : Control → Bool
opens_loop Control.begin_word = true
opens_loop Control.do_word = true
opens_loop Control.qdo_word = true
opens_loop w = false

abbrev pub closes_loop : Control → Bool
closes_loop Control.until_word = true
closes_loop Control.repeat_word = true
closes_loop Control.loop_word = true
closes_loop Control.plus_loop_word = true
closes_loop w = false

-- The preamble.
unfoldable pub enter_pins : Control → ColonDef → Pins → ColonDef × Pins
enter_pins w def pins =
    if opens_loop w
    then elim pins.pending_pins [
      | some (fp, ip) ↦ (
        record def { body = def.body ++ fpin_loads fp ++ ipin_loads ip },
        record pins { active_fpins = fp; active_ipins = ip; pin_nest = pos 0; pending_pins = none },
      )
      | none ↦
          if is_active pins
          then (def, record pins { pin_nest = increment pins.pin_nest })
          else (def, pins)
    ]
    else (def, pins)

-- The epilogue at the end of the pinned loop.
abbrev pub spill_pins : ColonDef → Pins → ColonDef × Pins
spill_pins def pins = (
  record def { body = def.body ++ fpin_stores pins.active_fpins ++ ipin_stores pins.active_ipins },
  record pins { active_fpins = []; active_ipins = []; pin_nest = negsuc 0 },
)

unfoldable pub leave_pins : Control → ColonDef → Pins → ColonDef × Pins
leave_pins w def pins =
    if is_active pins && closes_loop w
    then elim pins.pin_nest [
      | pos (suc n) ↦ (def, record pins { pin_nest = pos n })
      | n ↦ spill_pins def pins
    ]
    else (def, pins)

unfoldable pub disable_inline : ColonDef → ColonDef
disable_inline def = record def { inline_toks = none }

unfoldable pub compile_control : Control → ColonDef → Pins → Result (ColonDef × Pins)
unfolding disable_inline
compile_control w def pins =
    let (entered, active) = enter_pins w (disable_inline def) pins in
    and_then (control w entered) (λ d. ok (leave_pins w d active))

-- No preamble and no epilogue.
unfoldable pub compile_control_fused : Control → Cmp → ColonDef → Pins → Result (ColonDef × Pins)
unfolding disable_inline
compile_control_fused w c def pins =
    and_then (control_fused w c (disable_inline def)) (λ d. ok (d, pins))

unfoldable pub pinned_item : Item → ColonDef × Pins → Result (ColonDef × Pins)
unfolding compile_control compile_control_fused
pinned_item (Item.flushed ws) (def, pins) = ok (record def { body = def.body ++ ws }, pins)
pinned_item (Item.word w) (def, pins) = compile_control w def pins
pinned_item (Item.fused_word w c) (def, pins) = compile_control_fused w c def pins

unfoldable pub pinned : List Item → ColonDef × Pins → Result (ColonDef × Pins)
pinned [] s = ok s
pinned (i ∷ is) s = and_then (pinned_item i s) (pinned is)

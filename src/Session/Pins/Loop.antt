-- ===== src/Session/Pins/Loop.antt =====
-- A pinned loop of src/session.rs as a whole.
use mf.Prelude.{
  ℕ, ◌+◌, ◌≡◌, refl, sym, ap, ◌∙◌, arith, List, [], ◌∷◌, ◌++◌, append_assoc, append-nil, length,
  Bool, true, false, none, some,
}
use mf.Prelude.Int.{negsuc}
use mf.Opt.Tok.{Cmp}
use mf.Session.Def.{Result, ok, and_then, ColonDef}
use mf.Session.Control.{Control, control}
use mf.Session.Layout.{
  Block, until, while, counted, flag, fused, Item, test_item, items, leaves_loop, do_word,
  loop_word,
}
use mf.Session.Steps.{compile_item, compile, compile-append, and_then_step}
use mf.Session.Compile.{LeavesIn, after, compile-items}
use mf.Session.Pins.{
  PinMap, Pins, any_pins, opens_loop, closes_loop, enter_pins, leave_pins, spill_pins,
  disable_inline, compile_control, pinned_item, pinned, fpin_loads, ipin_loads, fpin_stores,
  ipin_stores,
}
use mf.Session.Pins.Frame.{
  Frame, IsWithin, transfers, filled, written_back, transfers_loads, transfers_stores,
}
use mf.Session.Pins.Inline.{set_inline, kept, control_inline}
use mf.Session.Pins.Nest.{
  track, region, with_pins, go_on, pinned-track, unclosed, tracks, track_while,
}

-- No pinned loop yet, and pins chosen for the next one.
abbrev pub chosen : PinMap → PinMap → Pins
chosen fp ip = record {
  active_fpins = [];
  active_ipins = [];
  pin_nest = negsuc 0;
  pending_pins = some (fp, ip);
}

-- No pin is active, and none is chosen.
abbrev pub no_pins : Pins
no_pins = record { active_fpins = []; active_ipins = []; pin_nest = negsuc 0; pending_pins = none }

abbrev pub loaded : PinMap → PinMap → ColonDef → ColonDef
loaded fp ip def = record def { body = def.body ++ fpin_loads fp ++ ipin_loads ip }

pinned-append :
    (is js : List Item) (s : ColonDef × Pins)
    → pinned (is ++ js) s ≡ and_then (pinned is s) (pinned js)
unfolding pinned
pinned-append [] js s = refl
pinned-append (i ∷ is) js s =
    and_then_step (pinned (is ++ js)) (pinned is) (pinned js) (pinned_item i s)
      (pinned-append is js)

abbrev spilled : PinMap → PinMap → ColonDef → Result (ColonDef × Pins)
spilled fp ip d = ok (spill_pins (set_inline none d) (region fp ip 0))

module _ (fp ip : PinMap) (active : any_pins fp ip ≡ true) where
  enter_chosen :
      (w : Control) (def : ColonDef)
      → opens_loop w ≡ true
      → enter_pins w def (chosen fp ip) ≡ (loaded fp ip def, region fp ip 0)
  unfolding enter_pins
  enter_chosen w def h = rw (h, enter_pins) refl

  leave_opened :
      (w : Control) (d : ColonDef)
      → opens_loop w ≡ true
      → leave_pins w d (region fp ip 0) ≡ (d, region fp ip 0)
  unfolding leave_pins
  leave_opened Control.begin_word d h = rw active refl
  leave_opened Control.do_word d h = rw active refl
  leave_opened Control.qdo_word d h = rw active refl
  leave_opened w d h = absurd (cc h)

  enter_closing :
      (w : Control) (def : ColonDef)
      → closes_loop w ≡ true
      → enter_pins w def (region fp ip 0) ≡ (def, region fp ip 0)
  unfolding enter_pins
  enter_closing Control.until_word d h = refl
  enter_closing Control.repeat_word d h = refl
  enter_closing Control.loop_word d h = refl
  enter_closing Control.plus_loop_word d h = refl
  enter_closing w d h = absurd (cc h)

  leave_closed :
      (w : Control) (d : ColonDef)
      → closes_loop w ≡ true
      → leave_pins w d (region fp ip 0) ≡ spill_pins d (region fp ip 0)
  unfolding leave_pins
  leave_closed w d h = rw (active, h, leave_pins) refl

  open_pinned :
      (w : Control) (def : ColonDef)
      → opens_loop w ≡ true
      → compile_control w def (chosen fp ip)
        ≡ and_then (control w (loaded fp ip def)) (with_pins (region fp ip 0))
  unfolding compile_control disable_inline
  open_pinned w def h =
      rw (enter_chosen w (set_inline none def) h, control_inline none w (loaded fp ip def))
        (sym (
          and_then_step (with_pins (region fp ip 0)) (kept none)
            (λ d. ok (leave_pins w d (region fp ip 0))) (control w (loaded fp ip def))
            (λ a. ap ok (sym (leave_opened w (set_inline none a) h)))))

  close_pinned :
      (w : Control) (def : ColonDef)
      → closes_loop w ≡ true
      → compile_control w (set_inline none def) (region fp ip 0)
        ≡ and_then (control w def) (spilled fp ip)
  unfolding compile_control disable_inline
  close_pinned w def h =
      rw (enter_closing w (set_inline none def) h, control_inline none w def)
        (sym (
          and_then_step (spilled fp ip) (kept none) (λ d. ok (leave_pins w d (region fp ip 0)))
            (control w def) (λ a. ap ok (sym (leave_closed w (set_inline none a) h)))))

  pinned_loop :
      (o c : Control) (mid : List Item) (def : ColonDef)
      → opens_loop o ≡ true
      → closes_loop c ≡ true
      → track mid 0 ≡ some 0
      → pinned (Item.word o ∷ (mid ++ (Item.word c ∷ []))) (def, chosen fp ip)
        ≡ and_then
            (compile (Item.word o ∷ (mid ++ (Item.word c ∷ []))) (loaded fp ip def))
            (spilled fp ip)
  unfolding pinned pinned_item compile compile_item
  pinned_loop o c mid def ho hc t = rw (open_pinned o def ho) (
      go_on (with_pins (region fp ip 0)) (pinned (mid ++ (Item.word c ∷ [])))
        (compile (mid ++ (Item.word c ∷ []))) (spilled fp ip) (control o (loaded fp ip def))
        (λ a.
          pinned-append mid (Item.word c ∷ []) (set_inline none a, region fp ip 0)
          ∙ rw (pinned-track fp ip active mid 0 0 a t, compile-append mid (Item.word c ∷ []) a)
              (go_on (with_pins (region fp ip 0)) (pinned (Item.word c ∷ []))
                (compile (Item.word c ∷ [])) (spilled fp ip) (compile mid a)
                (λ d.
                  rw (close_pinned c d hc)
                    (go_on (spilled fp ip) ok ok (spilled fp ip) (control c d) (λ u. refl))))))

  -- A pinned loop that ends in a flag, or that counts, with no loop inside that ends in a comparison.
  abbrev pub IsPinnable : Block → Type 0
  IsPinnable (until p flag) = unclosed p ≡ 0
  IsPinnable (while p t q) = unclosed p + unclosed q ≡ 0
  IsPinnable (counted q s p) = unclosed p ≡ 0
  IsPinnable p = ⊥

  -- The definition after a loop, with the stores behind it.
  abbrev pub after_pinned : Block → ℕ → ℕ → ℕ → ColonDef → ColonDef
  after_pinned p n k e def =
      let looped = set_inline none (after p n k e (loaded fp ip def)) in
      record looped { body = looped.body ++ fpin_stores fp ++ ipin_stores ip }

  track_mid : (p : Block) → unclosed p ≡ 0 → track (items p) 0 ≡ some 0
  unfolding track
  track_mid p h =
      ap (λ is. track is 0) (sym (append-nil (items p)))
      ∙ tracks p [] 0
      ∙ ap some (omega (arith, h))

  opens-do_word : (q : Bool) → opens_loop (do_word q) ≡ true
  opens-do_word true = refl
  opens-do_word false = refl

  closes-loop_word : (s : Bool) → closes_loop (loop_word s) ≡ true
  closes-loop_word true = refl
  closes-loop_word false = refl

  pinned_block :
      (p : Block) (def : ColonDef)
      → IsPinnable p
      → pinned (items p) (def, chosen fp ip)
        ≡ and_then (compile (items p) (loaded fp ip def)) (spilled fp ip)
  unfolding items track
  pinned_block (until p flag) def i =
      pinned_loop Control.begin_word Control.until_word (items p) def refl refl (track_mid p i)
  pinned_block (while p t q) def i =
      let hp : unclosed p ≡ 0 = omega (arith, i) in
      let hq : unclosed q ≡ 0 = omega (arith, i) in
      let mid = items p ++ (test_item Control.while_word t ∷ items q) in
      let m : track mid 0 ≡ some 0 =
        tracks p (test_item Control.while_word t ∷ items q) 0
        ∙ track_while t (items q) (unclosed p + 0)
        ∙ ap (track (items q)) (omega (arith, hp))
        ∙ track_mid q hq in
      rw
        (← append_assoc (items p) (test_item Control.while_word t ∷ items q)
          (Item.word Control.repeat_word ∷ []))
        (pinned_loop Control.begin_word Control.repeat_word mid def refl refl m)
  pinned_block (counted q s p) def i =
      pinned_loop (do_word q) (loop_word s) (items p) def (opens-do_word q) (closes-loop_word s)
        (track_mid p i)
  pinned_block p def i = absurd i

  -- A loop with pins chosen for it compiles to its loads, the loop as without pins, and its stores,
  -- and afterwards no pin is active. As the processor reads their words, the loads fill each pinned
  -- register from the place of its local in the frame, and the stores write each one back there;
  -- they change nothing else. The loop is closed by `until` on a flag, by `repeat`, `loop` or
  -- `+loop`; no `until` that is fused with a comparison stands inside; each `leave` in the open has
  -- a loop around it; at least one local is pinned; each pinned local is below 4096, each integer
  -- register below the frame pointer, register 21, and each floating-point one below 32.
  pub pinned-items :
      (p : Block) (n k e : ℕ) (def : ColonDef) (m m' : Frame)
      → IsPinnable p
      → length (loaded fp ip def).body ≡ n
      → LeavesIn p def.cf
      → IsWithin 32 fp
      → IsWithin 21 ip
      → (pinned (items p) (def, chosen fp ip) ≡ ok (after_pinned p n k e def, no_pins))
        × (transfers (fpin_loads fp ++ ipin_loads ip) m
            ≡ some (record m {
              registers = filled ip m.locals m.registers;
              floats = filled fp m.locals m.floats;
            }))
        × (transfers (fpin_stores fp ++ ipin_stores ip) m'
            ≡ some (record m' {
              locals = written_back ip m'.registers (written_back fp m'.floats m'.locals);
            }))
  pinned-items p n k e def m m' i h l wf wi = (
    pinned_block p def i ∙ rw (compile-items p n k e (loaded fp ip def) h l) refl,
    transfers_loads fp ip m wf wi,
    transfers_stores fp ip m' wf wi,
  )

  -- A loop with pins chosen for it that is closed by `until` fused with a comparison compiles to a
  -- load of each pinned local and the loop, without a store, and its pins stay active, one level
  -- deeper for each fused `until` inside. Each `leave` in the open has a loop around it, and at
  -- least one local is pinned.
  pub pinned_fused-items :
      (p : Block) (c : Cmp) (n k e : ℕ) (def : ColonDef)
      → length (loaded fp ip def).body ≡ n
      → LeavesIn p def.cf
      → pinned (items (until p (fused c))) (def, chosen fp ip)
        ≡ ok (
          set_inline none (after (until p (fused c)) n k e (loaded fp ip def)),
          region fp ip (unclosed p),
        )
  unfolding pinned pinned_item compile compile_item items track leaves_loop
  pinned_fused-items p c n k e def h l =
      let rest = items p ++ (Item.fused_word Control.until_word c ∷ []) in
      let t : track rest 0 ≡ some (unclosed p) =
        tracks p (Item.fused_word Control.until_word c ∷ []) 0 ∙ ap some (omega arith) in
      let q = compile-items (until p (fused c)) n k e (loaded fp ip def) h l in
      rw (open_pinned Control.begin_word def refl) (
        go_on (with_pins (region fp ip 0)) (pinned rest) (compile rest)
          (with_pins (region fp ip (unclosed p))) (control Control.begin_word (loaded fp ip def))
          (λ a. pinned-track fp ip active rest 0 (unclosed p) a t)
        ∙ ap (λ r. and_then r (with_pins (region fp ip (unclosed p)))) q)

-- ===== src/Session/Pins/Nest.antt =====
-- Inside a pinned loop of src/session.rs the control-flow words only count the loops.
use mf.Prelude.{
  ℕ, zero, suc, ◌+◌, ◌≡◌, refl, sym, ap, ◌∙◌, arith, List, [], ◌∷◌, ◌++◌, Bool, true, false, Option,
  none, some, append_assoc, if◌then◌else◌, Option-cases, inl, inr,
}
use mathlib.Core.Option.{some-injective}
use mf.Prelude.Int.{pos}
use mf.Session.Def.{Result, ok, bail, panic, and_then, ColonDef}
use mf.Session.Control.{Control, control, control_fused}
use mf.Session.Layout.{
  Block, run, seq, if_then, if_else, until, while, counted, leave, unloop, exit, Test, flag, fused,
  Item, test_item, items, do_word, loop_word,
}
use mf.Session.Steps.{compile_item, compile, and_then_step}
use mf.Session.Pins.{
  PinMap, Pins, any_pins, opens_loop, enter_pins, leave_pins, disable_inline, compile_control,
  compile_control_fused, pinned_item, pinned,
}
use mf.Session.Pins.Inline.{set_inline, kept, control_inline, control_fused_inline}

-- The nesting after a word; `none` is the end of the pinned loop.
abbrev pub step : Control → ℕ → Option ℕ
step Control.begin_word j = some (suc j)
step Control.do_word j = some (suc j)
step Control.qdo_word j = some (suc j)
step Control.until_word zero = none
step Control.until_word (suc j) = some j
step Control.repeat_word zero = none
step Control.repeat_word (suc j) = some j
step Control.loop_word zero = none
step Control.loop_word (suc j) = some j
step Control.plus_loop_word zero = none
step Control.plus_loop_word (suc j) = some j
step w j = some j

unfoldable pub track : List Item → ℕ → Option ℕ
track [] j = some j
track (Item.flushed ws ∷ is) j = track is j
track (Item.word w ∷ is) j = elim (step w j) [ none ↦ none | some k ↦ track is k ]
track (Item.fused_word w c ∷ is) j = track is j

-- The pins inside the pinned loop, at a depth.
abbrev pub region : PinMap → PinMap → ℕ → Pins
region fp ip j = record {
  active_fpins = fp;
  active_ipins = ip;
  pin_nest = pos j;
  pending_pins = none;
}

-- Two ways to go on that agree.
pub go_on :
    {A B C D : Type 0} (f : A → Result B) (h : B → Result D) (g : A → Result C) (p : C → Result D)
    (r : Result A)
    → ((a : A) → and_then (f a) h ≡ and_then (g a) p)
    → and_then (and_then r f) h ≡ and_then (and_then r g) p
go_on f h g p (ok a) e = e a
go_on f h g p bail e = refl
go_on f h g p panic e = refl

pub none_tracked : (k : ℕ) → ¬ (none ≡ some k)
none_tracked k q = cc

abbrev pub with_pins : Pins → ColonDef → Result (ColonDef × Pins)
with_pins pins d = ok (set_inline none d, pins)

abbrev pub entered : Control → ℕ → ℕ
entered w j = if opens_loop w then suc j else j

module _ (fp ip : PinMap) (active : any_pins fp ip ≡ true) where
  pub enter_region :
      (w : Control) (j : ℕ) (def : ColonDef)
      → enter_pins w def (region fp ip j) ≡ (def, region fp ip (entered w j))
  unfolding enter_pins
  enter_region Control.begin_word j def = rw active refl
  enter_region Control.do_word j def = rw active refl
  enter_region Control.qdo_word j def = rw active refl
  enter_region w j def = refl

  pub leave_region :
      (w : Control) (j k : ℕ) (def : ColonDef)
      → step w j ≡ some k
      → leave_pins w def (region fp ip (entered w j)) ≡ (def, region fp ip k)
  unfolding leave_pins
  leave_region Control.until_word zero k def h = absurd (cc h)
  leave_region Control.until_word (suc j) k def h = rw (active, some-injective j k h) refl
  leave_region Control.repeat_word zero k def h = absurd (cc h)
  leave_region Control.repeat_word (suc j) k def h = rw (active, some-injective j k h) refl
  leave_region Control.loop_word zero k def h = absurd (cc h)
  leave_region Control.loop_word (suc j) k def h = rw (active, some-injective j k h) refl
  leave_region Control.plus_loop_word zero k def h = absurd (cc h)
  leave_region Control.plus_loop_word (suc j) k def h = rw (active, some-injective j k h) refl
  leave_region Control.begin_word j k def h = rw (active, some-injective (suc j) k h) refl
  leave_region Control.do_word j k def h = rw (active, some-injective (suc j) k h) refl
  leave_region Control.qdo_word j k def h = rw (active, some-injective (suc j) k h) refl
  leave_region w j k def h = rw (active, some-injective j k h) refl

  pub control-step :
      (w : Control) (j k : ℕ) (def : ColonDef)
      → step w j ≡ some k
      → compile_control w (set_inline none def) (region fp ip j)
        ≡ and_then (control w def) (with_pins (region fp ip k))
  unfolding compile_control disable_inline
  control-step w j k def h =
      rw (enter_region w j (set_inline none def), control_inline none w def)
        (sym (
          and_then_step (with_pins (region fp ip k)) (kept none)
            (λ d. ok (leave_pins w d (region fp ip (entered w j)))) (control w def)
            (λ a. ap ok (sym (leave_region w j k (set_inline none a) h)))))

  pub fused_step :
      (w : Control) (c : _) (j : ℕ) (def : ColonDef)
      → compile_control_fused w c (set_inline none def) (region fp ip j)
        ≡ and_then (control_fused w c def) (with_pins (region fp ip j))
  unfolding compile_control_fused disable_inline
  fused_step w c j def = rw (control_fused_inline none w c def) (
      sym (
        and_then_step (with_pins (region fp ip j)) (kept none) (λ d. ok (d, region fp ip j))
          (control_fused w c def) (λ a. refl)))

  -- A list of words that stays inside the pinned loop.
  pub pinned-track :
      (is : List Item) (j k : ℕ) (def : ColonDef)
      → track is j ≡ some k
      → pinned is (set_inline none def, region fp ip j)
        ≡ and_then (compile is def) (with_pins (region fp ip k))
  unfolding pinned pinned_item compile compile_item track
  pinned-track [] j k def h = rw (some-injective j k h) refl
  pinned-track (Item.flushed ws ∷ is) j k def h = pinned-track is j k _ h
  pinned-track (Item.word w ∷ is) j k def h = elim (Option-cases (step w j)) [
    | inl e ↦ absurd (none_tracked k (rw (e, track) at h))
    | inr (i, e) ↦ rw (control-step w j i def e) (
        go_on (with_pins (region fp ip i)) (pinned is) (compile is) (with_pins (region fp ip k))
          (control w def) (λ a. pinned-track is i k a (rw (e, track) at h)))
  ]
  pinned-track (Item.fused_word w c ∷ is) j k def h = rw (fused_step w c j def) (
      go_on (with_pins (region fp ip j)) (pinned is) (compile is) (with_pins (region fp ip k))
        (control_fused w c def) (λ a. pinned-track is j k a h))

pub track-append :
    (is js : List Item) (j k : ℕ) → track is j ≡ some k → track (is ++ js) j ≡ track js k
unfolding track
track-append [] js j k h = ap (track js) (some-injective j k h)
track-append (Item.flushed ws ∷ is) js j k h = track-append is js j k h
track-append (Item.word w ∷ is) js j k h = elim (Option-cases (step w j)) [
  | inl e ↦ absurd (none_tracked k (rw (e, track) at h))
  | inr (i, e) ↦ rw (e, track) (track-append is js i k (rw (e, track) at h))
]
track-append (Item.fused_word w c ∷ is) js j k h = track-append is js j k h

-- The loops of a block that end in a comparison and `until`: their nesting is not taken back.
unfoldable pub unclosed : Block → ℕ
unclosed (run ws) = 0
unclosed (seq p q) = unclosed p + unclosed q
unclosed (if_then t p) = unclosed p
unclosed (if_else t p q) = unclosed p + unclosed q
unclosed (until p flag) = unclosed p
unclosed (until p (fused c)) = suc (unclosed p)
unclosed (while p t q) = unclosed p + unclosed q
unclosed (counted q s p) = unclosed p
unclosed leave = 0
unclosed unloop = 0
unclosed exit = 0

abbrev pub Tracks : Block → Type 0
Tracks p = (js : List Item) (j : ℕ) → track (items p ++ js) j ≡ track js (unclosed p + j)

pub part :
    (p : Block) (rest js : List Item) (j k : ℕ)
    → Tracks p
    → unclosed p + j ≡ k
    → track (items p ++ rest ++ js) j ≡ track (rest ++ js) k
part p rest js j k t e =
    ap (λ is. track is j) (append_assoc (items p) rest js)
    ∙ t (rest ++ js) j
    ∙ ap (track (rest ++ js)) e

track_if :
    (t : Test) (is : List Item) (j : ℕ) → track (test_item Control.if_word t ∷ is) j ≡ track is j
unfolding track
track_if flag is j = refl
track_if (fused c) is j = refl

pub track_while :
    (t : Test) (is : List Item) (j : ℕ) → track (test_item Control.while_word t ∷ is) j ≡ track is j
unfolding track
track_while flag is j = refl
track_while (fused c) is j = refl

track_do :
    (q : Bool) (is : List Item) (j : ℕ) → track (Item.word (do_word q) ∷ is) j ≡ track is (suc j)
unfolding track
track_do true is j = refl
track_do false is j = refl

track_loop :
    (s : Bool) (is : List Item) (j : ℕ) → track (Item.word (loop_word s) ∷ is) (suc j) ≡ track is j
unfolding track
track_loop true is j = refl
track_loop false is j = refl

pub tracks : (p : Block) → Tracks p
unfolding track items unclosed
tracks (run ws) js j = ap (track js) (omega arith)
tracks (seq p q) js j =
    part p (items q) js j (unclosed p + j) (tracks p) refl
    ∙ tracks q js (unclosed p + j)
    ∙ ap (track js) (omega arith)
tracks (if_then t p) js j = track_if t _ j ∙ part p _ js j (unclosed p + j) (tracks p) refl
tracks (if_else t p q) js j =
    track_if t _ j
    ∙ part p _ js j (unclosed p + j) (tracks p) refl
    ∙ part q (Item.word Control.then_word ∷ []) js (unclosed p + j) (unclosed p + unclosed q + j)
        (tracks q) (omega arith)
tracks (until p flag) js j =
    part p (Item.word Control.until_word ∷ []) js (suc j) (suc (unclosed p + j)) (tracks p)
      (omega arith)
tracks (until p (fused c)) js j =
    part p _ js (suc j) (suc (unclosed p) + j) (tracks p) (omega arith)
tracks (while p t q) js j =
    part p _ js (suc j) (suc (unclosed p + j)) (tracks p) (omega arith)
    ∙ track_while t _ _
    ∙ part q (Item.word Control.repeat_word ∷ []) js (suc (unclosed p + j))
        (suc (unclosed p + unclosed q + j)) (tracks q) (omega arith)
tracks (counted q s p) js j =
    track_do q (items p ++ (Item.word (loop_word s) ∷ []) ++ js) j
    ∙ part p (Item.word (loop_word s) ∷ []) js (suc j) (suc (unclosed p + j)) (tracks p)
        (omega arith)
    ∙ track_loop s js (unclosed p + j)
tracks leave js j = ap (track js) (omega arith)
tracks unloop js j = ap (track js) (omega arith)
tracks exit js j = ap (track js) (omega arith)

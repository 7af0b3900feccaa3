-- ===== src/Session/Compile.antt =====
-- The compiler of src/session.rs over structured code: the words of a block in the source become its layout.
use mf.Prelude.{
  ℕ, suc, ◌+◌, ◌≡◌, refl, sym, ap, ◌∙◌, arith, List, [], ◌∷◌, ◌++◌, append-nil, append_assoc,
  length, length-append, Bool, true, false, ◌||◌,
}
use mf.Prelude.Int.{pos}
use mf.Aenc.Transfer.{b}
use mf.Aenc.Emit.{emit_leave, emit_unloop}
use mf.Session.Def.{ok, Cf, ColonDef}
use mf.Session.Control.{
  Control, control, compile_begin, compile_leave, compile_unloop, compile_exit,
}
use mf.Session.Layout.{
  Test, Block, run, seq, if_then, if_else, until, while, counted, leave, unloop, exit, Item,
  test_item, do_word, loop_word, items, leaves_loop, test_words, test_branch, test_size, step_size,
  do_words, do_size, size, leaves, exits, layout, leave_branch, leave_hole, exit_hole,
}
use mf.Session.Patches.{test_cf}
use mf.Session.Structure.{length-layout, length-do_words, turns_leaves}
use mf.Session.Loops.{
  has_do, add_leaves, add_leaves-nil, add_leaves-append, has_do-add_leaves, push_leave_lem,
  add_leaves-test_cf, has_do-test_cf,
}
use mf.Session.Steps.{
  compile_item, compile, compile-append, open_if, open_while, until_lem, then_lem, else_lem,
  endif_lem, repeat_lem,
}
use mf.Session.Counted.{skip_place, do_lem, loop_lem}

-- One item more, and one list of items more.
then_item :
    (i : Item) (is : List Item) (def def' def'' : ColonDef)
    → compile_item i def ≡ ok def'
    → compile is def' ≡ ok def''
    → compile (i ∷ is) def ≡ ok def''
unfolding compile
then_item i is def def' def'' h k = rw h k

then_items :
    (is js : List Item) (def def' def'' : ColonDef)
    → compile is def ≡ ok def'
    → compile js def' ≡ ok def''
    → compile (is ++ js) def ≡ ok def''
then_items is js def def' def'' h k = compile-append is js def ∙ rw h k

last_item :
    (i : Item) (def def' : ColonDef) → compile_item i def ≡ ok def' → compile (i ∷ []) def ≡ ok def'
unfolding compile
last_item i def def' h = rw h refl

-- The definition after a block that stands at `n`.
abbrev pub after : Block → ℕ → ℕ → ℕ → ColonDef → ColonDef
after p n k e def = record def {
  body = def.body ++ layout leave_hole exit_hole k e p;
  cf = add_leaves (leaves p n) def.cf;
  exits = def.exits ++ exits p n;
}

-- Each `leave` stands in a loop.
abbrev pub LeavesIn : Block → List Cf → Type 0
LeavesIn p cf = leaves_loop p ≡ true → has_do cf ≡ true

abbrev pub IsCompiled : Block → Type 0
IsCompiled p =
    (n k e : ℕ) (def : ColonDef)
    → length def.body ≡ n
    → LeavesIn p def.cf
    → compile (items p) def ≡ ok (after p n k e def)

module _ (p q : Block) (cf : List Cf)
    (l : leaves_loop p || leaves_loop q ≡ true → has_do cf ≡ true) where
  left_in : LeavesIn p cf
  left_in t = l (rw t refl)

  or_true : (x : Bool) → x || true ≡ true
  or_true true = refl
  or_true false = refl

  -- The second part is compiled after the first one.
  right_in : (ls : List ℕ) → LeavesIn q (add_leaves ls cf)
  right_in ls t = has_do-add_leaves ls cf ∙ l (rw t (or_true (leaves_loop p)))

length-after :
    (p : Block) (n m k e : ℕ) (def : ColonDef)
    → length def.body ≡ n
    → n + size p ≡ m
    → length (after p n k e def).body ≡ m
length-after p n m k e def h g =
    let l = length-layout leave_hole exit_hole k e p in grind (arith, length-append)

compiles_seq : (p q : Block) → IsCompiled p → IsCompiled q → IsCompiled (seq p q)
unfolding items layout leaves exits leaves_loop
compiles_seq p q cp cq n k e def h l =
    let k' = size q + k in
    let e' = size q + e in
    let mid = after p n k' e' def in
    then_items (items p) (items q) def mid (after (seq p q) n k e def)
      (cp n k' e' def h (left_in p q def.cf l))
      (cq (n + size p) k e mid (length-after p n (n + size p) k' e' def h refl)
          (right_in p q def.cf l (leaves p n))
        ∙ rw
            (
              append_assoc def.body (layout leave_hole exit_hole k' e' p),
              add_leaves-append (leaves p n) (leaves q (n + size p)) def.cf,
              append_assoc def.exits (exits p n),
            )
            refl)

-- The definition after a test that stands at `n`.
abbrev open_def : Test → ℕ → ColonDef → ColonDef
open_def t n def = record def {
  body = def.body ++ (test_words t ++ (test_branch t (pos 0) ∷ []));
  cf = test_cf t (n + test_size t) ∷ def.cf;
}

length-open_def :
    (t : Test) (n : ℕ) (def : ColonDef)
    → length def.body ≡ n
    → length (open_def t n def).body ≡ n + suc (test_size t)
length-open_def t n def h = grind (arith, length-append)

if_item :
    (t : Test) (n : ℕ) (def : ColonDef)
    → length def.body ≡ n
    → compile_item (test_item Control.if_word t) def ≡ ok (open_def t n def)
if_item t n def h = rw (← h) (open_if t def)

open_in :
    (t : Test) (n : ℕ) (p : Block) (cf : List Cf) → LeavesIn p cf → LeavesIn p (test_cf t n ∷ cf)
open_in t n p cf l u = has_do-test_cf t n cf ∙ l u

compiles_if_then : (t : Test) (p : Block) → IsCompiled p → IsCompiled (if_then t p)
unfolding items layout leaves exits leaves_loop
compiles_if_then t p cp n k e def h l =
    let m = n + suc (test_size t) in
    let opened = open_def t n def in
    let mid = after p m k e opened in
    let done = after (if_then t p) n k e def in
    then_item (test_item Control.if_word t) _ def opened done (if_item t n def h) (
      then_items (items p) _ opened mid done
        (cp m k e opened (length-open_def t n def h) (open_in t (n + test_size t) p def.cf l))
        (last_item (Item.word Control.then_word) mid done (
          rw (add_leaves-test_cf (leaves p m) t (n + test_size t) def.cf) (
            then_lem t (record def { exits = def.exits ++ exits p m }) def.body
              (layout leave_hole exit_hole k e p) (n + test_size t) (size p)
              (add_leaves (leaves p m) def.cf) (ap (◌+ test_size t) h)
              (length-layout leave_hole exit_hole k e p)))))

-- Where one more part comes behind an open one.
behind_shape :
    (pre ws : List ℕ) (w : ℕ) (ls rs : List ℕ)
    → pre ++ (ws ++ (w ∷ (ls ++ rs))) ≡ pre ++ (ws ++ (w ∷ ls)) ++ rs
behind_shape pre ws w ls rs =
    ap (pre ++◌) (sym (append_assoc ws (w ∷ ls) rs)) ∙ sym (append_assoc pre (ws ++ (w ∷ ls)) rs)

compiles_if_else :
    (t : Test) (p q : Block) → IsCompiled p → IsCompiled q → IsCompiled (if_else t p q)
unfolding items layout leaves exits leaves_loop add_leaves has_do
compiles_if_else t p q cp cq n k e def h l =
    let m = n + suc (test_size t) in
    let k' = suc (size q) + k in
    let e' = suc (size q) + e in
    let lp = layout leave_hole exit_hole k' e' p in
    let opened = open_def t n def in
    let mid = after p m k' e' opened in
    let cf = add_leaves (leaves p m) def.cf in
    let jump = m + size p in
    let branch = test_branch t (pos (suc (suc (size p)))) in
    let turned = record mid {
      body = def.body ++ (test_words t ++ (branch ∷ (lp ++ (b (pos 0) ∷ []))));
      cf = Cf.fwd_b jump ∷ cf;
    } in
    let last = after q (m + suc (size p)) k e turned in
    let done = after (if_else t p q) n k e def in
    let lq = layout leave_hole exit_hole k e q in
    let front = def.body ++ (test_words t ++ (branch ∷ lp)) in
    then_item (test_item Control.if_word t) _ def opened done (if_item t n def h) (
      then_items (items p) _ opened mid done
        (cp m k' e' opened (length-open_def t n def h)
          (open_in t (n + test_size t) p def.cf (left_in p q def.cf l)))
        (then_item (Item.word Control.else_word) _ mid turned done
          (rw (add_leaves-test_cf (leaves p m) t (n + test_size t) def.cf) (
            else_lem t mid def.body lp (n + test_size t) jump (size p) cf (ap (◌+ test_size t) h)
              (length-layout leave_hole exit_hole k' e' p) (omega arith)))
          (then_items (items q) _ turned last done
            (cq (m + suc (size p)) k e turned
              (let z = length-layout leave_hole exit_hole k' e' p in grind (arith, length-append))
              (right_in p q def.cf l (leaves p m)))
            (last_item (Item.word Control.then_word) last done (
              rw
                (
                  behind_shape def.body (test_words t) branch lp (b (pos 0) ∷ []),
                  append_assoc front (b (pos 0) ∷ []) lq,
                  behind_shape def.body (test_words t) branch lp (b (pos (suc (size q))) ∷ lq),
                  add_leaves-append (leaves p m) (leaves q (m + suc (size p))) def.cf,
                  append_assoc def.exits (exits p m),
                )
                (endif_lem
                  (record last { exits = def.exits ++ (exits p m ++ exits q (m + suc (size p))) })
                  front lq jump (size q) _
                  (let z = length-layout leave_hole exit_hole k' e' p in
                    grind (arith, length-append))
                  (length-layout leave_hole exit_hole k e q)))))))

begin_item :
    (n : ℕ) (def : ColonDef)
    → length def.body ≡ n
    → compile_item (Item.word Control.begin_word) def ≡ ok (record def { cf = Cf.begin n ∷ def.cf })
unfolding compile_item control compile_begin
begin_item n def h = rw h refl

compiles_until : (p : Block) (t : Test) → IsCompiled p → IsCompiled (until p t)
unfolding items layout leaves exits leaves_loop add_leaves has_do
compiles_until p t cp n k e def h l =
    let k' = test_size t + 1 + k in
    let e' = test_size t + 1 + e in
    let begun = record def { cf = Cf.begin n ∷ def.cf } in
    let mid = after p n k' e' begun in
    let done = after (until p t) n k e def in
    let lp = layout leave_hole exit_hole k' e' p in
    then_item (Item.word Control.begin_word) _ def begun done (begin_item n def h) (
      then_items (items p) _ begun mid done (cp n k' e' begun h l) (
        last_item (test_item Control.until_word t) mid done (
          until_lem t mid (add_leaves (leaves p n) def.cf) n (size p)
            (sym (length-after p n (n + size p) k' e' begun h refl))
          ∙ rw (append_assoc def.body lp) refl)))

compiles_while :
    (p : Block) (t : Test) (q : Block) → IsCompiled p → IsCompiled q → IsCompiled (while p t q)
unfolding items layout leaves exits leaves_loop add_leaves has_do
compiles_while p t q cp cq n k e def h l =
    let tail = test_size t + suc (size q + 1) in
    let at = n + size p in
    let m = at + suc (test_size t) in
    let lp = layout leave_hole exit_hole (tail + k) (tail + e) p in
    let lq = layout leave_hole exit_hole (1 + k) (1 + e) q in
    let begun = record def { cf = Cf.begin n ∷ def.cf } in
    let mid = after p n (tail + k) (tail + e) begun in
    let opened = open_def t at mid in
    let last = after q m (1 + k) (1 + e) opened in
    let done = after (while p t q) n k e def in
    let g = length-after p n at (tail + k) (tail + e) begun h refl in
    then_item (Item.word Control.begin_word) _ def begun done (begin_item n def h) (
      then_items (items p) _ begun mid done
        (cp n (tail + k) (tail + e) begun h (left_in p q def.cf l))
        (then_item (test_item Control.while_word t) _ mid opened done
          (open_while t mid ∙ if_item t at mid g)
          (then_items (items q) _ opened last done
            (cq m (1 + k) (1 + e) opened (length-open_def t at mid g)
              (open_in t (at + test_size t) q mid.cf (right_in p q def.cf l (leaves p n))))
            (last_item (Item.word Control.repeat_word) last done (
              rw (add_leaves-test_cf (leaves q m) t (at + test_size t) mid.cf) (
                repeat_lem t last (def.body ++ lp) lq (at + test_size t) (size q) n
                  (size p + (test_size t + suc (size q)))
                  (add_leaves (leaves q m) (add_leaves (leaves p n) def.cf)) (ap (◌+ test_size t) g)
                  (length-layout leave_hole exit_hole (1 + k) (1 + e) q) (omega arith)
                ∙ rw
                    (
                      append_assoc def.body lp,
                      add_leaves-append (leaves p n) (leaves q m) def.cf,
                      append_assoc def.exits (exits p n),
                    )
                    refl))))))

compiles_counted : (q s : Bool) (p : Block) → IsCompiled p → IsCompiled (counted q s p)
unfolding items layout leaves exits leaves_loop add_leaves has_do
compiles_counted q s p cp n k e def h l =
    let m = n + do_size q in
    let k' = suc (step_size s) in
    let e' = step_size s + 2 + e in
    let begun = record def {
      body = def.body ++ do_words q (pos 0);
      cf = Cf.do_loop m (skip_place q n) ∷ def.cf;
    } in
    let mid = after p m k' e' begun in
    let done = after (counted q s p) n k e def in
    let g : length begun.body ≡ m =
      let z = length-do_words q (pos 0) in grind (arith, length-append) in
    then_item (Item.word (do_word q)) _ def begun done (do_lem q def n h) (
      then_items (items p) _ begun mid done (cp m k' e' begun g (λ u. refl)) (
        last_item (Item.word (loop_word s)) mid done (
          loop_lem q s mid def.body (layout leave_hole exit_hole k' e' p)
            (layout leave_branch exit_hole k' e' p) n (size p) (leaves p m) def.cf h
            (length-layout leave_hole exit_hole k' e' p)
            (length-layout leave_branch exit_hole k' e' p)
            (turns_leaves exit_hole (m + size p + k') p m k' e' refl)
          ∙ rw (add_leaves-nil def.cf) refl)))

compiles_leave : IsCompiled leave
unfolding compile items compile_item control compile_leave emit_leave layout leaves exits
    leaves_loop
compiles_leave n k e def h l =
    rw (push_leave_lem (length def.body) def.cf (l refl), compile_leave, h, append-nil def.exits)
      refl

compiles_unloop : IsCompiled unloop
unfolding compile items compile_item control compile_unloop emit_unloop layout leaves exits
compiles_unloop n k e def h l = rw (add_leaves-nil def.cf, append-nil def.exits) refl

compiles_exit : IsCompiled exit
unfolding compile items compile_item control compile_exit layout leaves exits
compiles_exit n k e def h l = rw (add_leaves-nil def.cf, h) refl

compiles_run : (ws : List ℕ) → IsCompiled (run ws)
unfolding compile items compile_item layout leaves exits
compiles_run ws n k e def h l = rw (add_leaves-nil def.cf, append-nil def.exits) refl

-- The words of a block of structured code, read one by one, put the layout of the block behind the
-- body: each test, jump and loop branch at its distance. `leave` and `exit` in the open are branches
-- of offset 0, and their places are noted at the innermost loop around and with the exits. The rest
-- of the control-flow stack is as before. Each `leave` in the open has a loop around it.
pub compile-items : (p : Block) → IsCompiled p
compile-items (run ws) = compiles_run ws
compile-items (seq p q) = compiles_seq p q (compile-items p) (compile-items q)
compile-items (if_then t p) = compiles_if_then t p (compile-items p)
compile-items (if_else t p q) = compiles_if_else t p q (compile-items p) (compile-items q)
compile-items (until p t) = compiles_until p t (compile-items p)
compile-items (while p t q) = compiles_while p t q (compile-items p) (compile-items q)
compile-items (counted q s p) = compiles_counted q s p (compile-items p)
compile-items leave = compiles_leave
compile-items unloop = compiles_unloop
compile-items exit = compiles_exit

-- ===== src/Lexer/Rounds/Layout.antt =====
-- The first step of a round of tokenize in src/lexer.cpp: handleIndentation.
use visuall.Base.{
  ℕ, [], ◌∷◌, ◌≡◌, refl, Bool, Bytes, List, ◌||◌, arith, false, ◌+◌, ◌++◌, true, Bool-cases, length,
  ◌==◌, ◌*◌, if◌then◌else◌, ◌≤◌, inl, ==_iff, ltb, inr, codes, ◌<◌,
}
use visuall.Lexer.Rounds.Invariant.{Inv, Attempted, going, refused, thrown, Attempted-if}
use visuall.Lexer.Rounds.Steps.{
  Inv-weaken, Inv-move, Inv-indent, Inv-dedents, pop_above-Pops, Inv-at_line_start,
}
use visuall.Lexer.Rounds.Scanning.{scan-Attempted}
use visuall.Lexer.Cursor.{Cursor, Pos, cursor, peek, is_at_end, step_over}
use visuall.Lexer.Indentation.{
  leading_tabs, handle_indentation, change_level, Tabs, Layout, pop_above, top,
}
use visuall.Lexer.Tokenize.{after_layout, Lexer}
use visuall.Lexer.Span.{Span, Span-refl, Span-cons}
use visuall.Lexer.Token.{Token, indent}
use visuall.Lexer.Run.{Run, done, LexError, spaces_in_indentation, throw}
use visuall.Lexer.Words.{make_token}
use visuall.Lexer.Landing.Kinds.{is_thrown}

-- The tabs are counted, and consumed.
record Tabbed (a : Cursor) (t : Tabs) : Type 0 where
  span : Span a t.behind
  counted : t.count + length t.behind.rest ≡ length a.rest

leading_tabs-Tabbed : (cs : Bytes) (p : Pos) → Tabbed (cursor cs p) (leading_tabs cs p)
unfolding leading_tabs
leading_tabs-Tabbed [] p = record { span = Span-refl; counted = omega arith }
leading_tabs-Tabbed (c ∷ cs) p = elim (Bool-cases (c == b'\t')) [
  | inl e ↦ rw e (record {
    span = Span-cons (leading_tabs-Tabbed cs (step_over c p)).span;
    counted = omega (arith, (leading_tabs-Tabbed cs (step_over c p)).counted);
  })
  | inr e ↦ rw e (record { span = Span-refl; counted = omega arith })
]

-- How the routine may end, for a state at `s` before it.
pub data Outcomes (source : Bytes) (s : Lexer) (stack : List ℕ) (tokens : List Token)
    : Run (Unit {0}) → Type 0 where
  goes :
      {u : Unit {0}} {c : Cursor}
      → Inv source 0 (record s { cur = c; indent_stack = stack; tokens = tokens })
      → length c.rest ≤ length s.cur.rest
      → Outcomes source s stack tokens (done u c)
  refuses :
      {e : LexError} {c : Cursor}
      → e.message ≡ spaces_in_indentation
      → Inv source 0 (record s { cur = c; indent_stack = stack; tokens = tokens })
      → peek c ≡ b' '
      → length c.rest ≤ length s.cur.rest
      → Outcomes source s stack tokens (throw e c)
  breaks :
      {e : LexError} {c : Cursor}
      → is_thrown e.message ≡ true
      → Inv source 1 (record s { cur = c; indent_stack = stack; tokens = tokens })
      → length c.rest < length s.cur.rest
      → Outcomes source s stack tokens (throw e c)

pub data Lays (source : Bytes) (s : Lexer) (l : Layout) : Type 0 where
  lays : Outcomes source s l.stack (l.emitted ++ s.tokens) l.outcome → Lays source s l

Lays-if :
    {source : Bytes} {s : Lexer} (b : Bool) {x y : Layout}
    → (b ≡ true → Lays source s x)
    → (b ≡ false → Lays source s y)
    → Lays source s (if b then x else y)
Lays-if true hx hy = hx refl
Lays-if false hx hy = hy refl

change_level-Lays :
    {source : Bytes} (n : ℕ) (s : Lexer) (start : Pos) (c : Cursor)
    → Inv source 0 s
    → Span s.cur c
    → n + length c.rest ≡ length s.cur.rest
    → Lays source s (change_level n s.indent_stack start c)
unfolding change_level
change_level-Lays n s start c i sp h =
    let st = s.indent_stack in
    let p = pop_above n start st in
    let moved = Inv-move n i sp (omega arith) in
    Lays-if (ltb (top st) n)
      (λ deeper.
        let t = make_token indent (codes "<INDENT>") start in
        let two = Inv-weaken 2 (ground arith) moved in
        lays (goes (Inv-indent {k = 0} n t refl (ground arith) two) (omega arith)))
      (λ _.
        Lays-if (ltb n (top st))
          (λ shallower. elim (Bool-cases (top p.left == n)) [
            | inl e ↦
                lays (
                  rw e
                    (goes (Inv-weaken 0 (omega arith) (Inv-dedents n start moved)) (omega arith)))
            | inr e ↦ lays (
                rw e (
                  let pos : 0 < n = ground (arith, (pop_above-Pops n start st i.levels).lowered) in
                  breaks refl (Inv-weaken 1 (omega arith) (Inv-dedents n start moved))
                    (omega arith)))
          ])
          (λ _. lays (goes (Inv-weaken 0 (omega arith) moved) (omega arith))))

pub handle_indentation-Lays :
    {source : Bytes} (s : Lexer)
    → Inv source 0 s
    → Lays source s (handle_indentation s.indent_stack s.cur)
unfolding handle_indentation
handle_indentation-Lays s i =
    let t = leading_tabs s.cur.rest s.cur.at in
    let h = leading_tabs-Tabbed s.cur.rest s.cur.at in
    let moved = Inv-weaken 0 (omega arith) (Inv-move 0 i h.span (omega (arith, h.counted))) in
    Lays-if (peek t.behind == b' ')
      (λ e. lays (refuses refl moved ((==_iff _ _).0 e) (omega (arith, h.counted))))
      (λ _.
        Lays-if (is_at_end t.behind || peek t.behind == b'\n' || peek t.behind == b'#')
          (λ _. lays (goes moved (omega (arith, h.counted))))
          (λ _. change_level-Lays t.count s s.cur.at t.behind i h.span h.counted))

or-false : (a b : Bool) → (a || b) ≡ false → a ≡ false
or-false a b h = ground arith

pub after_layout-Attempted :
    {source : Bytes} {stack : List ℕ} {tokens : List Token} {r : Run (Unit {0})} (s : Lexer)
    → Outcomes source s stack tokens r
    → Attempted source
        (2 * length s.cur.rest + 1)
        (after_layout (record s { at_line_start = false; indent_stack = stack; tokens = tokens }) r)
unfolding after_layout
after_layout-Attempted {stack = stack} {tokens = tokens} s (goes {c = c} i le) =
    let s' = record s { cur = c; at_line_start = false; indent_stack = stack; tokens = tokens } in
    Attempted-if (is_at_end c || peek c == b'\n')
      (λ _. going (Inv-at_line_start false i) (omega arith))
      (λ h.
        scan-Attempted s' (Inv-at_line_start false i) (or-false _ (peek c == b'\n') h) refl
          (omega arith))
after_layout-Attempted s (refuses m i p le) = refused m (Inv-at_line_start false i) p (omega arith)
after_layout-Attempted s (breaks m i lt) = thrown m (Inv-at_line_start false i) (omega arith)

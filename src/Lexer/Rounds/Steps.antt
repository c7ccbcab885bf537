-- ===== src/Lexer/Rounds/Steps.antt =====
-- The single changes that a round of tokenize in src/lexer.cpp is made of, and the invariant.
use visuall.Base.{
  ℕ, ◌+◌, ◌*◌, ◌≤◌, ◌<◌, ◌≡◌, refl, false, List, [], ◌∷◌, ◌++◌, arith, Bytes, length, inl, inr, All,
  Bool-cases, String, ltb, Bool,
}
use visuall.Lexer.Token.{Token}
use visuall.Lexer.Cursor.{Cursor}
use visuall.Lexer.Run.{LexError}
use visuall.Lexer.Span.{Span, Span-trans}
use visuall.Lexer.Tokenize.{Lexer, emit, record_error, or_first}
use visuall.Lexer.Landing.Kinds.{
  ordinary, failed, kind, is_opens, is_closes, is_failed, is_ends, count, opens, closes,
}
use visuall.Lexer.Landing.Operators.{Reports}
use visuall.Lexer.Rounds.Invariant.{Inv, Nested, Levels, is_unexpected}
use visuall.Lexer.Indentation.{Popped, pop_above, top}
use visuall.Lexer.Cursor.{Pos}

Levels-length : (st : List ℕ) → Levels st → 0 < length st
Levels-length [] h = absurd h
Levels-length (t ∷ st) h = omega arith

Levels-cons : (n : ℕ) (st : List ℕ) → Levels st → top st < n → Levels (n ∷ st)
unfolding top
Levels-cons n [] h lt = absurd h
Levels-cons n (t ∷ st) h lt = (lt, h)

-- What the loop of DEDENTs leaves.
pub record Pops (n : ℕ) (st : List ℕ) (p : Popped) : Type 0 where
  levels : Levels p.left
  pub lowered : top p.left ≤ n
  closing : All (λ t. kind t.type ≡ closes) p.dedents
  counted : length p.dedents + length p.left ≡ length st

pub pop_above-Pops :
    (n : ℕ) (start : Pos) (st : List ℕ) → Levels st → Pops n st (pop_above n start st)
unfolding pop_above top
pop_above-Pops n start [] h = absurd h
pop_above-Pops n start (t ∷ []) h = elim (Bool-cases (ltb n t)) [
  | inl e ↦ absurd (ground arith)
  | inr e ↦
      rw e (record { levels = h; lowered = ground arith; closing = tt; counted = omega arith })
]
pop_above-Pops n start (t ∷ u ∷ st) h =
    let ih = pop_above-Pops n start (u ∷ st) h.1 in
    elim (Bool-cases (ltb n t)) [
      | inl e ↦ rw e (record {
        levels = ih.levels;
        lowered = ih.lowered;
        closing = (refl, ih.closing);
        counted = omega (arith, ih.counted);
      })
      | inr e ↦
          rw e (record { levels = h; lowered = ground arith; closing = tt; counted = omega arith })
    ]

-- A run of DEDENTs in front of a stream.
pub record Closing (ds ts : List Token) : Type 0 where
  pub opened : count is_opens (ds ++ ts) ≡ count is_opens ts
  pub closed : count is_closes (ds ++ ts) ≡ length ds + count is_closes ts
  pub failed_same : count is_failed (ds ++ ts) ≡ count is_failed ts
  pub ended : count is_ends (ds ++ ts) ≡ count is_ends ts
  pub length_is : length (ds ++ ts) ≡ length ds + length ts

pub Closing-All : (ds ts : List Token) → All (λ t. kind t.type ≡ closes) ds → Closing ds ts
Closing-All [] ts h = omega arith
Closing-All (d ∷ ds) ts h =
    let ih = Closing-All ds ts h.1 in
    record {
      opened = rw h.0 (omega (arith, ih.opened));
      closed = rw h.0 (omega (arith, ih.closed));
      failed_same = rw h.0 (omega (arith, ih.failed_same));
      ended = rw h.0 (omega (arith, ih.ended));
      length_is = omega (arith, ih.length_is);
    }

pub Nested-closing :
    (ds ts : List Token)
    → All (λ t. kind t.type ≡ closes) ds
    → count is_closes (ds ++ ts) ≤ count is_opens (ds ++ ts)
    → Nested ts
    → Nested (ds ++ ts)
Nested-closing [] ts h le nested = nested
Nested-closing (d ∷ ds) ts h le nested =
    let le' : 1 + count is_closes (ds ++ ts) ≤ 0 + count is_opens (ds ++ ts) = rw h.0 at le in
    (le, Nested-closing ds ts h.1 (omega arith) nested)

module _ {source : Bytes} where
  pub Inv-weaken : {k : ℕ} (n : ℕ) {s : Lexer} → n ≤ k → Inv source k s → Inv source n s
  Inv-weaken n h i = record {
    placed = i.placed;
    levels = i.levels;
    balanced = i.balanced;
    nested = i.nested;
    unended = i.unended;
    reported = i.reported;
    oldest = i.oldest;
    budget = omega (arith, i.budget);
  }

  -- Bytes that are consumed leave room for two tokens each.
  pub Inv-move :
      {k : ℕ} (n : ℕ) {s : Lexer} {c : Cursor}
      → Inv source k s
      → Span s.cur c
      → n + length c.rest ≤ length s.cur.rest
      → Inv source (2 * n + k) (record s { cur = c })
  Inv-move n i sp h = record {
    placed = Span-trans i.placed sp;
    levels = i.levels;
    balanced = i.balanced;
    nested = i.nested;
    unended = i.unended;
    reported = i.reported;
    oldest = i.oldest;
    budget = omega (arith, i.budget);
  }

  Inv-nested :
      {k : ℕ} {s : Lexer} → Inv source k s → count is_closes s.tokens ≤ count is_opens s.tokens
  Inv-nested {s = s} i = omega (arith, i.balanced, Levels-length s.indent_stack i.levels)

  -- A token of the stream's content.
  pub Inv-token :
      {k : ℕ} {s : Lexer} (t : Token)
      → kind t.type ≡ ordinary
      → Inv source (k + 1) s
      → Inv source k (emit t s)
  Inv-token t h i = record {
    placed = i.placed;
    levels = i.levels;
    balanced = rw h (omega (arith, i.balanced));
    nested = (rw h (omega (arith, Inv-nested i)), i.nested);
    unended = rw h (omega (arith, i.unended));
    reported = rw h (omega (arith, i.reported));
    oldest = i.oldest;
    budget = omega (arith, i.budget);
  }

  -- The ERROR token of an operator, with its report.
  pub Inv-report :
      {k : ℕ} {s : Lexer} (c : ℕ) (t : Token) (rs : List LexError)
      → kind t.type ≡ failed
      → Reports c rs
      → Inv source (k + 1) s
      → Inv source k (record s { tokens = t ∷ s.tokens; errors = rs ++ s.errors })
  Inv-report c t rs h (line, column, e) i = rw e (record {
    placed = i.placed;
    levels = i.levels;
    balanced = rw h (omega (arith, i.balanced));
    nested = (rw h (omega (arith, Inv-nested i)), i.nested);
    unended = rw h (omega (arith, i.unended));
    reported = rw h (omega (arith, i.reported));
    oldest = ground (arith, i.oldest);
    budget = omega (arith, i.budget);
  })

  -- The ERROR token of a thrown error, in a handler.
  pub Inv-record_error :
      {k : ℕ} {s : Lexer} (e : LexError) (lexeme : String)
      → is_unexpected e.message ≡ false
      → Inv source (k + 1) s
      → Inv source k (record_error e lexeme s)
  unfolding or_first
  Inv-record_error e lexeme h i = record {
    placed = i.placed;
    levels = i.levels;
    balanced = omega (arith, i.balanced);
    nested = (omega (arith, Inv-nested i), i.nested);
    unended = omega (arith, i.unended);
    reported = omega (arith, i.reported);
    oldest = ground (arith, i.oldest);
    budget = omega (arith, i.budget);
  }

  -- An INDENT, for a deeper level.
  pub Inv-indent :
      {k : ℕ} {s : Lexer} (n : ℕ) (t : Token)
      → kind t.type ≡ opens
      → top s.indent_stack < n
      → Inv source (k + 2) s
      → Inv source k (record s { indent_stack = n ∷ s.indent_stack; tokens = t ∷ s.tokens })
  Inv-indent {s = s} n t h lt i = record {
    placed = i.placed;
    levels = Levels-cons n s.indent_stack i.levels lt;
    balanced = rw h (omega (arith, i.balanced));
    nested = (rw h (omega (arith, Inv-nested i)), i.nested);
    unended = rw h (omega (arith, i.unended));
    reported = rw h (omega (arith, i.reported));
    oldest = i.oldest;
    budget = omega (arith, i.budget);
  }

  -- The DEDENTs for a shallower one.
  pub Inv-dedents :
      {k : ℕ} {s : Lexer} (n : ℕ) (start : Pos)
      → Inv source k s
      → let p = pop_above n start s.indent_stack in
        Inv source k (record s { indent_stack = p.left; tokens = p.dedents ++ s.tokens })
  Inv-dedents {s = s} n start i =
      let p = pop_above n start s.indent_stack in
      let h = pop_above-Pops n start s.indent_stack i.levels in
      let c = Closing-All p.dedents s.tokens h.closing in
      let some_left = Levels-length p.left h.levels in
      record {
        placed = i.placed;
        levels = h.levels;
        balanced = omega (arith, i.balanced, c.opened, c.closed, h.counted);
        nested =
            Nested-closing p.dedents s.tokens h.closing
              (omega (arith, i.balanced, c.opened, c.closed, h.counted, some_left)) i.nested;
        unended = omega (arith, i.unended, c.ended);
        reported = omega (arith, i.reported, c.failed_same);
        oldest = i.oldest;
        budget = omega (arith, i.budget, c.length_is, h.counted);
      }

  -- The flag is no part of the invariant.
  pub Inv-at_line_start :
      {k : ℕ} {s : Lexer} (b : Bool)
      → Inv source k s
      → Inv source k (record s { at_line_start = b })
  Inv-at_line_start b i = record {
    placed = i.placed;
    levels = i.levels;
    balanced = i.balanced;
    nested = i.nested;
    unended = i.unended;
    reported = i.reported;
    oldest = i.oldest;
    budget = i.budget;
  }

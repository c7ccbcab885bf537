-- ===== src/Lexer/Stream.antt =====
-- The stream of tokens and the errors that tokenize of src/lexer.cpp ends with.
use visuall.Base.{
  ℕ, [], ◌∷◌, ◌≡◌, refl, Bytes, List, ◌++◌, arith, All, suc, reverse, ap, length, codes, ◌+◌,
  All-append, length-append, zero, reverse-cons, Option, ◌∙◌, ◌≢◌, leb, ◌*◌, some, true, none, ◌≤◌,
  reverse-append, sym, reverse-reverse, subst,
}
use visuall.Lexer.Rounds.Invariant.{Inv, Levels, Nested}
use visuall.Lexer.Rounds.Steps.{Closing-All, Nested-closing}
use visuall.Lexer.Rounds.Progress.{run-Inv}
use visuall.Lexer.Tokenize.{
  flush_dedents, Lexer, outcome, tokenize, finish, stuck, aborted, all_tokens, returned,
}
use visuall.Lexer.Landing.Kinds.{
  Kind, count, kind, is_opens, is_closes, closes, is_ends, count-append,
}
use visuall.Lexer.Cursor.{Pos}
use visuall.Lexer.Token.{Token, dedent, end_of_file}
use visuall.Lexer.Words.{make_token}
use visuall.Lexer.Indentation.{normalize_indentation}
use visuall.Lexer.Run.{LexError}

-- What the end of the file adds.
pub record Flushes (st : List ℕ) (ds : List Token) : Type 0 where
  pub closing : All (λ t. kind t.type ≡ closes) ds
  pub counted : length ds + 1 ≡ length st

pub flush_dedents-Flushes : (p : Pos) (st : List ℕ) → Levels st → Flushes st (flush_dedents p st)
unfolding flush_dedents
flush_dedents-Flushes p [] h = absurd h
flush_dedents-Flushes p (zero ∷ []) h = record { closing = tt; counted = refl }
flush_dedents-Flushes p (zero ∷ u ∷ st) h = absurd (omega arith)
flush_dedents-Flushes p (suc n ∷ []) h = absurd (omega arith)
flush_dedents-Flushes p (suc n ∷ u ∷ st) h =
    let ih = flush_dedents-Flushes p (u ∷ st) h.1 in
    let last = make_token dedent (codes "<DEDENT>") p ∷ [] in
    let ds = flush_dedents p (u ∷ st) in
    record {
      closing = All-append (λ t. kind t.type ≡ closes) ds last ih.closing (refl, tt);
      counted = omega (arith, ih.counted, length-append ds last);
    }

pub count-reverse : (w : Kind → ℕ) (ts : List Token) → count w (reverse ts) ≡ count w ts
count-reverse w [] = refl
count-reverse w (t ∷ ts) =
    ap (count w) (reverse-cons t ts)
    ∙ count-append w (reverse ts) (t ∷ [])
    ∙ omega (arith, count-reverse w ts)

-- The tokens of the whole stream before the END_OF_FILE, newest first.
record Balanced (ts : List Token) : Type 0 where
  nested : Nested ts
  even : count is_opens ts ≡ count is_closes ts
  unended : count is_ends ts ≡ 0

body-Balanced :
    {source : Bytes} {k : ℕ} (s : Lexer)
    → Inv source k s
    → Balanced (flush_dedents s.cur.at s.indent_stack ++ s.tokens)
body-Balanced s i =
    let ds = flush_dedents s.cur.at s.indent_stack in
    let f = flush_dedents-Flushes s.cur.at s.indent_stack i.levels in
    let c = Closing-All ds s.tokens f.closing in
    record {
      nested =
          Nested-closing ds s.tokens f.closing
            (omega (arith, c.opened, c.closed, f.counted, i.balanced)) i.nested;
      even = omega (arith, c.opened, c.closed, f.counted, i.balanced);
      unended = omega (arith, c.ended, i.unended);
    }

-- The state behind the loop decides the outcome.
pub tokenize-run :
    (text : Bytes)
    → (s : Lexer) × Inv (normalize_indentation text) 0 s × (tokenize text ≡ outcome s.first_error s)
unfolding tokenize finish
tokenize-run text =
    let source = normalize_indentation text in
    let (s, r, i, e) = run-Inv source in
    let fits : leb (length s.tokens) (length source * 2 + 1) ≡ true = ground (arith, i.budget) in
    (s, i, rw (r, finish) (rw fits refl))

outcome_ends : (o : Option LexError) (s : Lexer) → (outcome o s ≢ stuck) × (outcome o s ≢ aborted)
unfolding outcome
outcome_ends none s = (ground arith, ground arith)
outcome_ends (some e) s = (ground arith, ground arith)

-- tokenize ends on every text, within two rounds for each byte of the normalised source and two
-- more, and its assertion on the number of tokens never fails.
pub tokenize_ends : (text : Bytes) → (tokenize text ≢ stuck) × (tokenize text ≢ aborted)
tokenize_ends text = let (s, i, e) = tokenize-run text in rw e (outcome_ends s.first_error s)

-- Inversion of a returned stream.
pub record Returned (text : Bytes) (ts : List Token) (es : List LexError) : Type 0 where
  pub last : Lexer
  pub kept : Inv (normalize_indentation text) 0 last
  pub quiet : last.first_error ≡ none
  pub tokens_are : ts ≡ all_tokens last
  pub errors_are : es ≡ reverse last.errors

outcome_returned :
    (o : Option LexError) (s : Lexer) {ts : List Token} {es : List LexError}
    → outcome o s ≡ returned ts es
    → (o ≡ none) × (ts ≡ all_tokens s) × (es ≡ reverse s.errors)
unfolding outcome
outcome_returned none s h = (refl, cc, cc)
outcome_returned (some e) s h = cc

pub returned_inv :
    (text : Bytes) {ts : List Token} {es : List LexError}
    → tokenize text ≡ returned ts es
    → Returned text ts es
returned_inv text h =
    let (s, i, e) = tokenize-run text in
    let (q, t, r) = outcome_returned s.first_error s (sym e ∙ h) in
    record { last = s; kept = i; quiet = q; tokens_are = t; errors_are = r }

-- The stream, oldest first: the balanced body, and an END_OF_FILE behind it.
all_tokens-body :
    (s : Lexer)
    → all_tokens s
      ≡ reverse (flush_dedents s.cur.at s.indent_stack ++ s.tokens)
        ++ (make_token end_of_file [] s.cur.at ∷ [])
unfolding all_tokens
all_tokens-body s = reverse-cons _ (flush_dedents s.cur.at s.indent_stack ++ s.tokens)

Nested-part : (xs ys : List Token) → Nested (xs ++ ys) → count is_closes ys ≤ count is_opens ys
Nested-part [] [] h = omega arith
Nested-part [] (y ∷ ys) h = h.0
Nested-part (x ∷ xs) ys h = Nested-part xs ys h.1

whole-Balanced :
    (s : Lexer) {ts : List Token}
    → Balanced (flush_dedents s.cur.at s.indent_stack ++ s.tokens)
    → ts ≡ all_tokens s
    → Nested (reverse ts) × (count is_opens ts ≡ count is_closes ts)
whole-Balanced s {ts} b e =
    let body = flush_dedents s.cur.at s.indent_stack ++ s.tokens in
    let eof = make_token end_of_file [] s.cur.at in
    let newest : reverse ts ≡ eof ∷ body =
      ap reverse e ∙ unfold all_tokens in reverse-reverse (eof ∷ body) in
    (
      subst Nested (sym newest) (omega (arith, b.even), b.nested),
      sym (count-reverse is_opens ts)
          ∙ ap (count is_opens) newest
          ∙ omega (arith, b.even)
          ∙ ap (count is_closes) (sym newest)
          ∙ count-reverse is_closes ts,
    )

-- In a returned stream as many blocks begin as end: INDENT and DEDENT tokens are equally many.
pub tokenize-blocks :
    (text : Bytes) {ts : List Token} {es : List LexError}
    → tokenize text ≡ returned ts es
    → count is_opens ts ≡ count is_closes ts
tokenize-blocks text h =
    let r = returned_inv text h in
    (whole-Balanced r.last (body-Balanced r.last r.kept) r.tokens_are).1

-- No part at the front of a returned stream has more DEDENT than INDENT tokens.
pub tokenize-nesting :
    (text : Bytes) {ts : List Token} {es : List LexError} (front back : List Token)
    → tokenize text ≡ returned ts es
    → ts ≡ front ++ back
    → count is_closes front ≤ count is_opens front
tokenize-nesting text {ts} front back h split =
    let r = returned_inv text h in
    let nested = (whole-Balanced r.last (body-Balanced r.last r.kept) r.tokens_are).0 in
    let turned : reverse ts ≡ reverse back ++ reverse front =
      ap reverse split ∙ reverse-append front back in
    let part = Nested-part (reverse back) (reverse front) (subst Nested turned nested) in
    omega (arith, part, count-reverse is_closes front, count-reverse is_opens front)

-- A returned stream ends with an END_OF_FILE token, and holds no other.
pub tokenize-end_of_file :
    (text : Bytes) {ts : List Token} {es : List LexError}
    → tokenize text ≡ returned ts es
    → (body : List Token) × (eof : Token) × (ts ≡ body ++ (eof ∷ []))
      × (eof.type ≡ end_of_file)
      × (count is_ends body ≡ 0)
tokenize-end_of_file text h =
    let r = returned_inv text h in
    let s = r.last in
    let body = flush_dedents s.cur.at s.indent_stack ++ s.tokens in
    (
      reverse body,
      make_token end_of_file [] s.cur.at,
      r.tokens_are ∙ all_tokens-body s,
      refl,
      count-reverse is_ends body ∙ (body-Balanced s r.kept).unended,
    )

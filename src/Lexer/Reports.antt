-- ===== src/Lexer/Reports.antt =====
-- The errors that tokenize of src/lexer.cpp records, and which of them it throws again.
use visuall.Base.{
  [], ◌∷◌, ◌≡◌, refl, sym, List, Bytes, Option, ◌++◌, ◌∙◌, reverse, none, Bool-cases, some,
  if◌then◌else◌, ap, inl, reverse-cons, length, inr, length-append, arith,
}
use visuall.Lexer.Rounds.Invariant.{oldest_thrown, or_thrown, is_unexpected}
use visuall.Lexer.Stream.{tokenize-run, returned_inv, flush_dedents-Flushes, count-reverse}
use visuall.Lexer.Tokenize.{Outcome, outcome, flush_dedents, all_tokens}
use visuall.Lexer.Landing.Kinds.{count}
use visuall.Lexer.Tokenize.{Outcome, tokenize, returned, Lexer, rethrown, aborted, stuck}
use visuall.Lexer.Token.{Token, end_of_file}
use visuall.Lexer.Run.{LexError}
use visuall.Lexer.Landing.Kinds.{is_failed}
use visuall.Lexer.Words.{make_token}
use visuall.Lexer.Rounds.Steps.{Closing-All}

-- Of errors with the oldest first, the first that is no report of an unexpected character.
abbrev pub first_thrown : List LexError → Option LexError
first_thrown [] = none
first_thrown (e ∷ es) = if is_unexpected e.message then first_thrown es else some e

first_thrown-snoc :
    (es : List LexError) (e : LexError)
    → first_thrown (es ++ (e ∷ [])) ≡ or_thrown (first_thrown es) e
first_thrown-snoc [] e = refl
first_thrown-snoc (d ∷ es) e = elim (Bool-cases (is_unexpected d.message)) [
  | inl h ↦ rw h (first_thrown-snoc es e)
  | inr h ↦ rw h refl
]

first_thrown-reverse : (es : List LexError) → first_thrown (reverse es) ≡ oldest_thrown es
first_thrown-reverse [] = refl
first_thrown-reverse (e ∷ es) =
    ap first_thrown (reverse-cons e es)
    ∙ first_thrown-snoc (reverse es) e
    ∙ ap (λ o. or_thrown o e) (first_thrown-reverse es)

-- The list that `errors()` gives behind either outcome, and what is thrown.
abbrev pub reports : Outcome → List LexError
reports (returned ts es) = es
reports (rethrown e es) = es
reports aborted = []
reports stuck = []

abbrev pub exception : Outcome → Option LexError
exception (returned ts es) = none
exception (rethrown e es) = some e
exception aborted = none
exception stuck = none

pub outcome_reports :
    (o : Option LexError) (s : Lexer)
    → (exception (outcome o s) ≡ o) × (reports (outcome o s) ≡ reverse s.errors)
unfolding outcome
outcome_reports none s = (refl, refl)
outcome_reports (some e) s = (refl, refl)

-- tokenize throws exactly the oldest recorded error that is no unexpected character, and returns
-- where there is none.
pub exception-tokenize :
    (text : Bytes) → exception (tokenize text) ≡ first_thrown (reports (tokenize text))
exception-tokenize text =
    let (s, i, e) = tokenize-run text in
    let (x, r) = outcome_reports s.first_error s in
    rw e (x ∙ i.oldest ∙ sym (first_thrown-reverse s.errors) ∙ ap first_thrown (sym r))

length-reverse {ℓ} : {A : Type ℓ} (xs : List A) → length (reverse xs) ≡ length xs
length-reverse [] = refl
length-reverse (x ∷ xs) =
    ap length (reverse-cons x xs)
    ∙ length-append (reverse xs) (x ∷ [])
    ∙ omega (arith, length-reverse xs)

-- A returned stream has as many ERROR tokens as there are recorded errors.
pub count-is_failed :
    (text : Bytes) {ts : List Token} {es : List LexError}
    → tokenize text ≡ returned ts es
    → count is_failed ts ≡ length es
count-is_failed text {ts} {es} h =
    let r = returned_inv text h in
    let s = r.last in
    let ds = flush_dedents s.cur.at s.indent_stack in
    let eof = make_token end_of_file [] s.cur.at in
    let c =
      Closing-All ds s.tokens
        (flush_dedents-Flushes s.cur.at s.indent_stack r.kept.levels).closing in
    let whole : ts ≡ reverse (eof ∷ (ds ++ s.tokens)) = r.tokens_are ∙ unfold all_tokens in refl in
    ap (count is_failed) whole
    ∙ count-reverse is_failed (eof ∷ (ds ++ s.tokens))
    ∙ omega (arith, c.failed_same, r.kept.reported)
    ∙ sym (length-reverse s.errors)
    ∙ ap length (sym r.errors_are)

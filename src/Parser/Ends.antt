-- ===== src/Parser/Ends.antt =====
-- Whole expressions, statements and files in src/parser.cpp, and the tokens that they leave.
use visuall.Base.{
  refl, ℕ, suc, Bytes, List, ◌≢◌, ◌≡◌, arith, ◌<◌, ◌⊎◌, inl, inr, Bool-cases, true, length, Option,
  ◌∷◌, ◌||◌, [], some, false, ap, ◌∙◌, zero, ◌++◌,
}
use visuall.Parser.Progress.{Ok, Good, some_token, left, returns, fails, lexes, faults}
use visuall.Parser.Monad.{
  newlines_skipped, current_in, is_type, Reply, State, out_of_fuel, is_at_end, P, ParseError,
}
use visuall.Parser.Expressions.{Stod, Entry, expression_entry}
use visuall.Parser.Program.{
  synchronize_in, parse_pattern_here, parse_expression_here, parse_statement_here, synchronize,
  parse, result, new_parser, unfinished, rounds, handled, Parsed,
}
use visuall.Ast.Expr.{Expr}
use visuall.Lexer.Token.{Token, TokenType}
use visuall.Parser.Progress.Levels.{parse_null_coalesce-ok, parse_at-ok}
use visuall.Parser.Levels.{parse_at}
use visuall.Parser.Progress.Statements.{statement_at-ok}
use visuall.Parser.Progress.Tokens.{advance-left, newlines_skipped-fewer}
use visuall.Ast.Stmt.{Stmt}

module _ (stod : Bytes → Stod) (embedded : Bytes → Reply Expr)
    (returned : (t : Bytes) → embedded t ≢ out_of_fuel) where
  -- Where the parser of the text inside an f-string returns on every text, an expression, as each
  -- operand behind an operator, is read on fuel for the tokens that are left: a value is returned
  -- with a token less at least, an error leaves no more tokens than there were, and the fuel does
  -- not run out.
  pub parse_at-Good :
      (f : ℕ) (e : Entry) (s : State)
      → left s < f
      → Good some_token s (parse_at stod embedded f e s)
  parse_at-Good f e s l = (parse_at-ok stod embedded returned f e).at s l

  expression-ok : (n : ℕ) → Ok n some_token (parse_expression_here stod embedded)
  unfolding parse_expression_here
  expression-ok n = record {
    at = λ s l. parse_at-Good (suc (left s)) expression_entry s (omega arith);
  }

  pattern-ok : (n : ℕ) → Ok n some_token (parse_pattern_here stod embedded)
  unfolding parse_pattern_here
  pattern-ok n = record {
    at = λ s l.
        (parse_null_coalesce-ok stod embedded (parse_at stod embedded (left s)) returned
            (parse_at-ok stod embedded returned (left s))).at
          s (omega arith);
  }

  -- Where the parser of the text inside an f-string returns on every text, a statement, with all the
  -- statements of its blocks, is read on fuel for the tokens that are left: it is returned with a
  -- token less at least, an error leaves no more tokens than there were, and the fuel does not run
  -- out.
  pub parse_statement-Good : (s : State) → Good some_token s (parse_statement_here stod embedded s)
  unfolding parse_statement_here
  parse_statement-Good s =
      (statement_at-ok _ _ expression-ok pattern-ok (suc (left s))).at s (omega arith)

newlines-at_end :
    (s : State) (ts : List Token)
    → is_type TokenType.end_of_file (current_in ts) ≡ true
    → newlines_skipped s ts ≡ s
unfolding newlines_skipped is_type current_in
newlines-at_end s [] h = refl
newlines-at_end s (t ∷ ts) h = elim (Bool-cases (is_type TokenType.newline t)) [
  | inl e ↦ ground (arith, e, h)
  | inr e ↦ rw e refl
]

-- Behind `synchronize` the parser is at the end, or it has fewer tokens.
synchronize_in-Fewer :
    (p : Option Token) (ts : List Token)
    → (is_at_end (synchronize_in (record { previous = p; rest = ts }) ts) ≡ true)
      ⊎ (left (synchronize_in (record { previous = p; rest = ts }) ts) < length ts)
unfolding synchronize_in current_in is_type
synchronize_in-Fewer p [] = inl refl
synchronize_in-Fewer p (t ∷ ts) = elim (Bool-cases (is_type TokenType.end_of_file t)) [
  | inl h ↦ rw h (inl h)
  | inr h ↦ rw h (elim (Bool-cases (is_type TokenType.newline t || is_type TokenType.dedent t)) [
    | inl k ↦ rw k (inr (omega arith))
    | inr k ↦
        rw k (elim (synchronize_in-Fewer (some t) ts) [
          | inl e ↦ inl e
          | inr e ↦ inr (omega (arith, e))
        ])
  ])
]

-- The state behind a statement that failed: at the end, or with fewer tokens than before.
recovered-Fewer :
    (s : State)
    → (is_at_end (newlines_skipped (synchronize s) (synchronize s).rest) ≡ true)
      ⊎ (left (newlines_skipped (synchronize s) (synchronize s).rest) < left s)
unfolding synchronize
recovered-Fewer s = elim (synchronize_in-Fewer s.previous s.rest) [
  | inl e ↦ inl (
      ap is_at_end (newlines-at_end (synchronize_in s s.rest) (synchronize_in s s.rest).rest e) ∙ e)
  | inr e ↦
      let k =
        newlines_skipped-fewer (synchronize_in s s.rest) (synchronize_in s s.rest).rest
          (omega arith) in
      inr (omega (arith, e, k))
]

result_ends : (ss : List Stmt) (es : List ParseError) → result ss es ≢ unfinished
unfolding result
result_ends ss [] = ground arith
result_ends ss (e ∷ es) = ground arith

fewer :
    {n : ℕ} (s : State)
    → (is_at_end s ≡ true) ⊎ (left s < suc n)
    → is_at_end s ≡ false
    → (left s < suc n) × (0 < left s)
fewer s (inl h) e = ground (arith, h, e)
fewer s (inr h) e = let k = advance-left s e in omega (arith, h, k)

handled_ends :
    (again : List Stmt → List ParseError → State → Parsed) {n : ℕ}
    → ((ss : List Stmt) (es : List ParseError) (s : State)
        → (is_at_end s ≡ true) ⊎ (left s < n)
        → 0 < n
        → again ss es s ≢ unfinished)
    → (ss : List Stmt) (es : List ParseError) (s : State) (r : Reply Stmt) → Good some_token s r
    → (left s < suc n) × (0 < left s)
    → handled again ss es r ≢ unfinished
unfolding handled
handled_ends again h ss es s _ (returns st s' k) l =
    let f = newlines_skipped-fewer s' s'.rest (omega arith) in
    h (ss ++ (st ∷ [])) es (newlines_skipped s' s'.rest) (inr (omega (arith, f, k, l)))
      (omega (arith, l))
handled_ends again h ss es s _ (fails e s' k) l =
    h ss (es ++ (e ∷ [])) (newlines_skipped (synchronize s') (synchronize s').rest)
      (elim (recovered-Fewer s') [ inl h ↦ inl h | inr h ↦ inr (omega (arith, h, k, l)) ])
      (omega (arith, l))
handled_ends again h ss es s _ (lexes e) l = ground arith
handled_ends again h ss es s _ faults l = ground arith

module _ (statement : P Stmt) (good : (s : State) → Good some_token s (statement s)) where
  rounds_end :
      (n : ℕ) (ss : List Stmt) (es : List ParseError) (s : State)
      → (is_at_end s ≡ true) ⊎ (left s < n)
      → 0 < n
      → rounds statement n ss es s ≢ unfinished
  unfolding rounds
  rounds_end zero ss es s h l = let absurd : ⊥ = omega (arith, l) in elim absurd [ ]
  rounds_end (suc n) ss es s h l = elim (Bool-cases (is_at_end s)) [
    | inl e ↦ rw e (result_ends ss es)
    | inr e ↦ rw e (
        handled_ends (rounds statement n) (rounds_end n) ss es s (statement s) (good s)
          (fewer s h e))
  ]

-- parse ends on every list of tokens, within a round for each token and one more, where the parser
-- of the text inside an f-string returns on every text: behind an error, synchronize passes a token
-- at least or reaches the end.
pub parse_ends :
    (stod : Bytes → Stod) (embedded : Bytes → Reply Expr)
    → ((t : Bytes) → embedded t ≢ out_of_fuel)
    → (ts : List Token) → parse stod embedded ts ≢ unfinished
unfolding parse new_parser
parse_ends stod embedded returned ts =
    let f = newlines_skipped-fewer (new_parser ts) ts (omega arith) in
    rounds_end (parse_statement_here stod embedded) (parse_statement-Good stod embedded returned)
      (suc (length ts)) [] [] (newlines_skipped (new_parser ts) ts) (inr (omega (arith, f)))
      (omega arith)

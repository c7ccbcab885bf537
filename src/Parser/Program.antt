-- ===== src/Parser/Program.antt =====
-- parse, synchronize and the parser of an f-string's parts in src/parser.cpp: the whole of a file.
use visuall.Base.{ℕ, zero, suc, [], ◌∷◌, ◌++◌, List, Bytes, length, if◌then◌else◌, ◌||◌, none, some}
use visuall.Ast.Expr.{Expr}
use visuall.Ast.Stmt.{Stmt}
use visuall.Lexer.Run.{LexError}
use visuall.Lexer.Tokenize.{tokenize, Outcome, returned, rethrown, aborted}
use visuall.Lexer.Token.{TokenType, Token}
use visuall.Parser.Monad.{
  P, State, Reply, ok, fail, lex_fail, fault, out_of_fuel, is_type, is_at_end, current_in,
  ParseError, newlines_skipped,
}
use visuall.Parser.Expressions.{Stod, expression_entry}
use visuall.Parser.Levels.{parse_at, parse_null_coalesce}
use visuall.Parser.Statements.{statement_at}

-- The state of a new parser.
unfoldable pub new_parser : List Token → State
new_parser ts = record { previous = none; rest = ts }

unfoldable pub synchronize_in : State → List Token → State
unfolding is_type
synchronize_in s [] = s
synchronize_in s (t ∷ ts) =
    let behind : State = record { previous = some t; rest = ts } in
    let further = synchronize_in behind ts in
    if is_type TokenType.end_of_file t
    then s
    else if is_type TokenType.newline t || is_type TokenType.dedent t
    then behind
    else further

unfoldable pub synchronize : State → State
unfolding synchronize_in
synchronize s = synchronize_in s s.rest

-- How `parse` ends: with the statements, by throwing the first of the recorded errors, by a
-- LexError of the text inside an f-string, which no handler catches, or by undefined behaviour.
-- `unfinished` has no counterpart in the program.
pub data Parsed : Type 0 where
  program : List Stmt → Parsed
  rejected : ParseError → List ParseError → Parsed
  lexical : LexError → Parsed
  undefined unfinished : Parsed

-- `if (!errors_.empty()) throw errors_.front();`.
unfoldable pub result : List Stmt → List ParseError → Parsed
result ss [] = program ss
result ss (e ∷ es) = rejected e (e ∷ es)

-- What a round does with the reply of `parseStatement`.
unfoldable pub handled :
    (List Stmt → List ParseError → State → Parsed)
    → List Stmt
    → List ParseError
    → Reply Stmt
    → Parsed
unfolding newlines_skipped synchronize
handled again ss es (ok st s) = again (ss ++ (st ∷ [])) es (newlines_skipped s s.rest)
handled again ss es (fail e s) =
    again ss (es ++ (e ∷ [])) (newlines_skipped (synchronize s) (synchronize s).rest)
handled again ss es (lex_fail e) = lexical e
handled again ss es fault = undefined
handled again ss es out_of_fuel = unfinished

-- The loop, on fuel: a round for each token is enough.
unfoldable pub rounds : P Stmt → ℕ → List Stmt → List ParseError → State → Parsed
unfolding is_type current_in handled result
rounds statement zero ss es s = unfinished
rounds statement (suc n) ss es s =
    if is_at_end s then result ss es else handled (rounds statement n) ss es (statement s)

module _ (stod : Bytes → Stod) (embedded : Bytes → Reply Expr) where
  -- parseExpression and parseNullCoalesce, with fuel that is enough.
  unfoldable pub parse_expression_here : P Expr
  unfolding parse_at
  parse_expression_here s = parse_at stod embedded (suc (length s.rest)) expression_entry s

  unfoldable pub parse_pattern_here : P Expr
  unfolding parse_at parse_null_coalesce
  parse_pattern_here s =
      parse_null_coalesce stod embedded (parse_at stod embedded (length s.rest)) s

  unfoldable pub parse_statement_here : P Stmt
  unfolding statement_at parse_expression_here parse_pattern_here
  parse_statement_here s =
      statement_at parse_expression_here parse_pattern_here (suc (length s.rest)) s

  unfoldable pub parse : List Token → Parsed
  unfolding rounds parse_statement_here newlines_skipped new_parser
  parse ts =
      rounds parse_statement_here (suc (length ts)) [] [] (newlines_skipped (new_parser ts) ts)

-- The parser of the text between braces in an f-string, on the outcome of its lexer.
unfoldable pub parse_tokens : (Bytes → Stod) → (Bytes → Reply Expr) → Outcome → Reply Expr
unfolding parse_expression_here new_parser
parse_tokens stod embedded (returned ts es) = parse_expression_here stod embedded (new_parser ts)
parse_tokens stod embedded (rethrown e es) = lex_fail e
parse_tokens stod embedded aborted = fault
parse_tokens stod embedded Outcome.stuck = out_of_fuel

-- F-strings within f-strings, on fuel: the depth to which they are nested.
unfoldable pub embedded_at : (Bytes → Stod) → ℕ → Bytes → Reply Expr
unfolding parse_tokens tokenize
embedded_at stod zero text = out_of_fuel
embedded_at stod (suc d) text = parse_tokens stod (embedded_at stod d) (tokenize text)

-- ===== src/Parser/Blocks.antt =====
-- The statements of src/parser.cpp that hold blocks. `statement` stands for parseStatement and
-- `pattern` for parseNullCoalesce.
use visuall.Base.{
  [], ◌∷◌, ◌++◌, List, Bool, Bytes, Option, none, some, codes, ◌||◌, ◌&&◌, not, String,
}
use visuall.Ast.Expr.{Expr}
use visuall.Ast.Stmt.{Stmt, Stmts, stmts, branches, catches, cases}
use visuall.Lexer.Token.{TokenType, bytes_eq}
use visuall.Parser.Monad.{
  P, State, ◌>>=◌, ◌>>◌, pure, check, current, expect, if_match, if_token, branch, while_match,
  while_test, match_any, skip_newlines, is_at_end, skip,
}

-- `for_stmt` has all the variables where there are more than one.
unfoldable pub all_variables : Bytes → List Bytes → List Bytes
all_variables v [] = []
all_variables v (w ∷ ws) = v ∷ w ∷ ws

unfoldable pub catch_variable : P Bytes
catch_variable =
    branch
      (λ s.
        check TokenType.kw_as s
        || (check TokenType.identifier s && bytes_eq (current s).lexeme (codes "as")))
      (do skip; t ← expect TokenType.identifier "Expected variable name after 'as'"; pure t.lexeme)
      (pure [])

-- The type and the variable of a `catch`.
unfoldable pub catch_head : P (Bytes × Bytes)
catch_head =
    if_token TokenType.identifier (λ t. do v ← catch_variable; pure (t.lexeme, v)) (pure ([], []))

abbrev pub in_block : State → Bool
in_block s = not (check TokenType.dedent s) && not (is_at_end s)

unfoldable pub block_start : String → String → P (Unit {0})
block_start newline_message indent_message = do
  expect TokenType.newline newline_message
  skip_newlines
  expect TokenType.indent indent_message
  skip_newlines

module _ (expression pattern : P Expr) (statement : P Stmt) where
  unfoldable pub block_body : List Stmt → P (List Stmt)
  block_body =
      while_test in_block (λ body. do s ← statement; skip_newlines; pure (body ++ (s ∷ [])))

  unfoldable pub parse_block : P (List Stmt)
  parse_block =
      if_match TokenType.ellipsis (do match_any TokenType.newline; pure (Stmt.pass_stmt ∷ []))
        (do
          block_start "Expected newline before indented block" "Expected indented block"
          body ← block_body []
          expect TokenType.dedent "Expected end of indented block"
          pure body)

  -- A block behind a colon.
  unfoldable pub suite : String → P (List Stmt)
  suite message = do expect TokenType.colon message; parse_block

  -- A block behind a keyword, where it is there.
  unfoldable pub optional_suite : TokenType → String → P (List Stmt)
  optional_suite type message = if_match type (suite message) (pure [])

  unfoldable pub elsif_branch : List (Expr × Stmts) → P (List (Expr × Stmts))
  elsif_branch bs = do
    cond ← expression
    body ← suite "Expected ':' after elsif condition"
    skip_newlines
    pure (bs ++ ((cond, stmts body) ∷ []))

  -- Behind `if`.
  unfoldable pub if_stmt : P Stmt
  if_stmt = do
    cond ← expression
    then_body ← suite "Expected ':' after if condition"
    skip_newlines
    elsifs ← while_match TokenType.kw_elsif elsif_branch []
    else_body ← optional_suite TokenType.kw_else "Expected ':' after else"
    pure (Stmt.if_stmt cond (stmts then_body) (branches elsifs) (stmts else_body))

  -- The variables of a `for`: the first, and those behind commas.
  unfoldable pub loop_variables : P (Bytes × List Bytes)
  loop_variables = do
    v ← expect TokenType.identifier "Expected loop variable"
    vs ←
        while_match TokenType.comma
          (λ ns. do
            t ← expect TokenType.identifier "Expected identifier in for-loop variable list"
            pure (ns ++ (t.lexeme ∷ [])))
          []
    pure (v.lexeme, vs)

  -- Behind `for`.
  unfoldable pub for_stmt : P Stmt
  for_stmt = do
    vs ← loop_variables
    expect TokenType.kw_in "Expected 'in' in for loop"
    iterable ← expression
    body ← suite "Expected ':' after for header"
    else_body ← optional_suite TokenType.kw_else "Expected ':' after 'else'"
    pure (Stmt.for_stmt vs.0 (all_variables vs.0 vs.1) iterable (stmts body) (stmts else_body))

  -- Behind `while`.
  unfoldable pub while_stmt : P Stmt
  while_stmt = do
    cond ← expression
    body ← suite "Expected ':' after while condition"
    else_body ← optional_suite TokenType.kw_else "Expected ':' after 'else'"
    pure (Stmt.while_stmt cond (stmts body) (stmts else_body))

  unfoldable pub catch_clause : List (Bytes × Bytes × Stmts) → P (List (Bytes × Bytes × Stmts))
  catch_clause cs = do
    head ← catch_head
    body ← suite "Expected ':' after catch"
    skip_newlines
    pure (cs ++ ((head.0, head.1, stmts body) ∷ []))

  -- Behind `try`.
  unfoldable pub try_stmt : P Stmt
  try_stmt = do
    body ← suite "Expected ':' after try"
    skip_newlines
    cs ← while_match TokenType.kw_catch catch_clause []
    finally_body ← optional_suite TokenType.kw_finally "Expected ':' after finally"
    pure (Stmt.try_stmt (stmts body) (catches cs) (stmts finally_body))

  -- The name behind `as`, where it is there.
  unfoldable pub as_name : P Bytes
  as_name =
      if_match TokenType.kw_as
        (do
          t ← expect TokenType.identifier "Expected variable name after 'as' in with statement"
          pure t.lexeme)
        (pure [])

  -- Behind `with`.
  unfoldable pub with_stmt : P Stmt
  with_stmt = do
    e ← expression
    name ← as_name
    body ← suite "Expected ':' after with expression"
    pure (Stmt.with_stmt e name (stmts body))

  -- The pattern of a `case`; `_` has none.
  unfoldable pub case_pattern : P (Option Expr)
  case_pattern =
      branch (λ s. check TokenType.identifier s && bytes_eq (current s).lexeme (codes "_"))
        (do skip; pure none) (do e ← pattern; pure (some e))

  unfoldable pub match_case :
      List (Option Expr × Option Expr × Stmts) → P (List (Option Expr × Option Expr × Stmts))
  match_case cs = do
    expect TokenType.kw_case "Expected 'case' in match body"
    p ← case_pattern
    guard ← if_match TokenType.kw_if (do e ← expression; pure (some e)) (pure none)
    body ← suite "Expected ':' after case pattern"
    skip_newlines
    pure (cs ++ ((p, guard, stmts body) ∷ []))

  -- Behind `match`.
  unfoldable pub match_stmt : P Stmt
  match_stmt = do
    subject ← expression
    expect TokenType.colon "Expected ':' after match expression"
    block_start "Expected newline after match:" "Expected indented block for match"
    cs ← while_test in_block match_case []
    expect TokenType.dedent "Expected end of match block"
    pure (Stmt.match_stmt subject (cases cs))

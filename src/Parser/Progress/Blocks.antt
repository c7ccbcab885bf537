-- ===== src/Parser/Progress/Blocks.antt =====
-- The statements of src/parser.cpp that hold blocks, and the tokens that they consume.
use visuall.Base.{ℕ, Bytes, List, String, Option}
use visuall.Parser.Progress.{Ok, any, some_token, seq, strict, pure-ok, branch-ok, P, TokenType}
use visuall.Parser.Progress.Tokens.{expect-ok, skip_newlines-ok, skip-ok}
use visuall.Parser.Blocks.{
  if_stmt, for_stmt, while_stmt, try_stmt, with_stmt, match_stmt, catch_variable, catch_head,
  block_start, parse_block, elsif_branch, catch_clause, loop_variables, match_case, as_name,
  block_body, suite, optional_suite, case_pattern,
}
use visuall.Parser.Progress.Loops.{token-ok, matches-ok, while_test-ok, match_any-ok}
use visuall.Ast.Expr.{Expr}
use visuall.Ast.Stmt.{Stmt, Stmts}

catch_variable-ok : {n : ℕ} → Ok n any catch_variable
unfolding catch_variable
catch_variable-ok =
    branch-ok _ (seq skip-ok (λ _. seq (expect-ok _ _) (λ t. pure-ok _))) (pure-ok _)

catch_head-ok : {n : ℕ} → Ok n any catch_head
unfolding catch_head
catch_head-ok = token-ok _ (λ t. seq catch_variable-ok (λ v. pure-ok _)) (pure-ok _)

block_start-ok : {n : ℕ} (a b : String) → Ok n some_token (block_start a b)
unfolding block_start
block_start-ok a b =
    strict (expect-ok _ _)
      (λ _. seq skip_newlines-ok (λ _. seq (expect-ok _ _) (λ _. skip_newlines-ok)))

module _ (expression pattern : P Expr) (statement : P Stmt) {n : ℕ}
    (expression-ok : Ok n some_token expression) (pattern-ok : Ok n some_token pattern)
    (statement-ok : Ok n some_token statement) where
  block_body-ok : (body : List Stmt) → Ok n any (block_body expression pattern statement body)
  unfolding block_body
  block_body-ok =
      while_test-ok _ (λ body. strict statement-ok (λ s. seq skip_newlines-ok (λ _. pure-ok _)))

  pub parse_block-ok : Ok n any (parse_block expression pattern statement)
  unfolding parse_block
  parse_block-ok =
      token-ok _ (λ _. seq (match_any-ok _) (λ _. pure-ok _))
        (seq (block_start-ok _ _)
          (λ _. seq (block_body-ok _) (λ body. seq (expect-ok _ _) (λ _. pure-ok _))))

  suite-ok : (message : String) → Ok n any (suite expression pattern statement message)
  unfolding suite
  suite-ok message = seq (expect-ok _ _) (λ _. parse_block-ok)

  optional_suite-ok :
      (type : TokenType) (message : String)
      → Ok n any (optional_suite expression pattern statement type message)
  unfolding optional_suite
  optional_suite-ok type message = token-ok _ (λ _. suite-ok _) (pure-ok _)

  elsif_branch-ok :
      (bs : List (Expr × Stmts)) → Ok n any (elsif_branch expression pattern statement bs)
  unfolding elsif_branch
  elsif_branch-ok bs =
      seq expression-ok (λ cond. seq (suite-ok _) (λ body. seq skip_newlines-ok (λ _. pure-ok _)))

  pub if_stmt-ok : Ok n any (if_stmt expression pattern statement)
  unfolding if_stmt
  if_stmt-ok = seq expression-ok (λ cond. seq (suite-ok _) (λ then_body. seq skip_newlines-ok (λ _.
      seq (matches-ok _ elsif_branch-ok _)
        (λ elsifs. seq (optional_suite-ok _ _) (λ else_body. pure-ok _)))))

  loop_variables-ok : Ok n any (loop_variables expression pattern statement)
  unfolding loop_variables
  loop_variables-ok =
      seq (expect-ok _ _)
        (λ v. seq (matches-ok _ (λ ns. seq (expect-ok _ _) (λ t. pure-ok _)) _) (λ vs. pure-ok _))

  pub for_stmt-ok : Ok n any (for_stmt expression pattern statement)
  unfolding for_stmt
  for_stmt-ok = seq loop_variables-ok (λ vs. seq (expect-ok _ _) (λ _.
      seq expression-ok (λ iterable.
        seq (suite-ok _) (λ body. seq (optional_suite-ok _ _) (λ else_body. pure-ok _)))))

  pub while_stmt-ok : Ok n any (while_stmt expression pattern statement)
  unfolding while_stmt
  while_stmt-ok =
      seq expression-ok
        (λ cond. seq (suite-ok _) (λ body. seq (optional_suite-ok _ _) (λ else_body. pure-ok _)))

  catch_clause-ok :
      (cs : List (Bytes × Bytes × Stmts)) → Ok n any (catch_clause expression pattern statement cs)
  unfolding catch_clause
  catch_clause-ok cs =
      seq catch_head-ok (λ head. seq (suite-ok _) (λ body. seq skip_newlines-ok (λ _. pure-ok _)))

  pub try_stmt-ok : Ok n any (try_stmt expression pattern statement)
  unfolding try_stmt
  try_stmt-ok = seq (suite-ok _) (λ body. seq skip_newlines-ok (λ _.
      seq (matches-ok _ catch_clause-ok _)
        (λ cs. seq (optional_suite-ok _ _) (λ finally_body. pure-ok _))))

  as_name-ok : Ok n any (as_name expression pattern statement)
  unfolding as_name
  as_name-ok = token-ok _ (λ _. seq (expect-ok _ _) (λ t. pure-ok _)) (pure-ok _)

  pub with_stmt-ok : Ok n any (with_stmt expression pattern statement)
  unfolding with_stmt
  with_stmt-ok =
      seq expression-ok (λ e. seq as_name-ok (λ name. seq (suite-ok _) (λ body. pure-ok _)))

  case_pattern-ok : Ok n any (case_pattern expression pattern statement)
  unfolding case_pattern
  case_pattern-ok = branch-ok _ (seq skip-ok (λ _. pure-ok _)) (seq pattern-ok (λ e. pure-ok _))

  match_case-ok :
      (cs : List (Option Expr × Option Expr × Stmts))
      → Ok n some_token (match_case expression pattern statement cs)
  unfolding match_case
  match_case-ok cs = strict (expect-ok _ _) (λ _. seq case_pattern-ok (λ p.
      seq (token-ok _ (λ _. seq expression-ok (λ e. pure-ok _)) (pure-ok _))
        (λ guard. seq (suite-ok _) (λ body. seq skip_newlines-ok (λ _. pure-ok _)))))

  pub match_stmt-ok : Ok n any (match_stmt expression pattern statement)
  unfolding match_stmt
  match_stmt-ok = seq expression-ok (λ subject. seq (expect-ok _ _) (λ _.
      seq (block_start-ok _ _)
        (λ _. seq (while_test-ok _ match_case-ok _) (λ cs. seq (expect-ok _ _) (λ _. pure-ok _)))))

-- ===== src/Parser/Statements.antt =====
-- parseStatement and parseDecorated of src/parser.cpp.
use visuall.Base.{ℕ, zero, suc, [], ◌∷◌, ◌++◌, List}
use visuall.Ast.Expr.{Expr}
use visuall.Ast.Stmt.{Stmt}
use visuall.Lexer.Token.{TokenType}
use visuall.Parser.Monad.{
  P, ◌>>=◌, ◌>>◌, pure, check, if_match, branch, while_match, match_any, skip_newlines, error,
  out_of_fuel,
}
use visuall.Parser.Headers.{enum_def}
use visuall.Parser.Definitions.{func_def, init_def, class_def, interface_def}
use visuall.Parser.Blocks.{
  parse_block, if_stmt, for_stmt, while_stmt, try_stmt, with_stmt, match_stmt,
}
use visuall.Parser.Simple.{
  yield_stmt, go_stmt, return_stmt, throw_stmt, assert_stmt, del_stmt, import_stmt,
  from_import_stmt, const_decl, expression_statement,
}

module _ (expression pattern : P Expr) (statement : P Stmt) where
  abbrev block : P (List Stmt)
  block = parse_block expression pattern statement

  unfoldable pub decorator : List Expr → P (List Expr)
  decorator ds = do
    e ← expression
    match_any TokenType.newline
    skip_newlines
    pure (ds ++ (e ∷ []))

  unfoldable pub decorated : P Stmt
  decorated = do
    ds ← while_match TokenType.at decorator []
    if_match TokenType.kw_define (func_def expression block ds)
        (error "Expected 'define' after decorator(s)")

  -- The statements from `import` on, and those that begin with an expression.
  unfoldable pub plain_statement : P Stmt
  plain_statement = if_match TokenType.kw_import import_stmt (
      if_match TokenType.kw_from from_import_stmt (
        if_match TokenType.kw_break (pure Stmt.break_stmt) (
          if_match TokenType.kw_continue (pure Stmt.continue_stmt) (
            if_match TokenType.kw_const (const_decl expression) (
              branch (check TokenType.at) decorated (
                if_match TokenType.ellipsis (pure Stmt.pass_stmt)
                  (expression_statement expression)))))))

  unfoldable pub keyword_statement : P Stmt
  keyword_statement = if_match TokenType.kw_if (if_stmt expression pattern statement) (
      if_match TokenType.kw_for (for_stmt expression pattern statement) (
        if_match TokenType.kw_while (while_stmt expression pattern statement) (
          if_match TokenType.kw_return (return_stmt expression) (
            if_match TokenType.kw_try (try_stmt expression pattern statement) (
              if_match TokenType.kw_throw (throw_stmt expression) (
                if_match TokenType.kw_assert (assert_stmt expression) (
                  if_match TokenType.kw_del (del_stmt expression) (
                    if_match TokenType.kw_with (with_stmt expression pattern statement) (
                      if_match TokenType.kw_match (match_stmt expression pattern statement)
                        plain_statement)))))))))

  -- The dispatch on the type of the token at hand.
  unfoldable pub parse_statement : P Stmt
  parse_statement = do
    skip_newlines
    if_match TokenType.kw_define (func_def expression block []) (
        if_match TokenType.kw_init (init_def expression block) (
          if_match TokenType.kw_class (class_def expression block) (
            if_match TokenType.kw_interface (interface_def expression block) (
              if_match TokenType.kw_enum enum_def (
                if_match TokenType.kw_yield (yield_stmt expression)
                  (if_match TokenType.kw_go (go_stmt expression) keyword_statement))))))

-- The knot, on fuel.
unfoldable pub statement_at : P Expr → P Expr → ℕ → P Stmt
statement_at expression pattern zero s = out_of_fuel
statement_at expression pattern (suc f) s =
    parse_statement expression pattern (statement_at expression pattern f) s

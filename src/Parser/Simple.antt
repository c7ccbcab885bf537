-- ===== src/Parser/Simple.antt =====
-- The statements of src/parser.cpp that hold no block, expression statements and assignments among
-- them.
use visuall.Base.{[], ◌∷◌, ◌++◌, Bytes, Option, none, some, codes, ◌||◌}
use visuall.Ast.Expr.{Expr, BinOp, no_exprs, identifier, call_expr, go_expr, binary_expr}
use visuall.Ast.Clone.{clone_expr}
use visuall.Ast.Stmt.{Stmt}
use visuall.Lexer.Token.{TokenType}
use visuall.Parser.Monad.{
  P, ◌>>=◌, ◌>>◌, pure, check, expect, if_match, branch, while_match, is_at_end, if_op, error,
  current, is_type,
}
use visuall.Parser.Headers.{identifiers}
use visuall.Parser.Types.{type_annotation}

unfoldable pub aug_ops : TokenType → Option BinOp
aug_ops TokenType.plus_eq = some BinOp.add
aug_ops TokenType.minus_eq = some BinOp.sub
aug_ops TokenType.star_eq = some BinOp.mul
aug_ops TokenType.slash_eq = some BinOp.div
aug_ops TokenType.double_slash_eq = some BinOp.int_div
aug_ops TokenType.percent_eq = some BinOp.mod_op
aug_ops TokenType.double_star_eq = some BinOp.pow
aug_ops TokenType.amp_eq = some BinOp.bit_and
aug_ops TokenType.pipe_eq = some BinOp.bit_or
aug_ops TokenType.caret_eq = some BinOp.bit_xor
aug_ops TokenType.lshift_eq = some BinOp.shl
aug_ops TokenType.rshift_eq = some BinOp.shr
aug_ops _ = none

-- Behind `import`.
unfoldable pub import_stmt : P Stmt
import_stmt = do
  t ← expect TokenType.identifier "Expected module name"
  name ←
      while_match TokenType.dot
        (λ n. do
          t' ← expect TokenType.identifier "Expected module name after '.'"
          pure (n ++ codes "." ++ t'.lexeme))
        t.lexeme
  pure (Stmt.import_stmt name)

-- Behind `from`.
unfoldable pub from_import_stmt : P Stmt
from_import_stmt = do
  t ← expect TokenType.identifier "Expected module name"
  expect TokenType.kw_import "Expected 'import' after module name"
  names ← identifiers "Expected import name" "Expected import name"
  pure (Stmt.from_import_stmt t.lexeme names)

unfoldable pub go_of : Expr → Expr
go_of (call_expr f args types) = go_expr f args
go_of e = go_expr e no_exprs

unfoldable pub identifier_of : Expr → Option Bytes
identifier_of (identifier n) = some n
identifier_of _ = none

module _ (expression : P Expr) where
  -- The value of `return` and `yield`.
  unfoldable pub optional_value : P (Option Expr)
  optional_value =
      branch
        (λ s.
          check TokenType.newline s || check TokenType.end_of_file s || check TokenType.dedent s)
        (pure none) (do e ← expression; pure (some e))

  unfoldable pub return_stmt : P Stmt
  return_stmt = do val ← optional_value; pure (Stmt.return_stmt val)

  unfoldable pub yield_stmt : P Stmt
  yield_stmt = do val ← optional_value; pure (Stmt.yield_stmt val)

  unfoldable pub throw_stmt : P Stmt
  throw_stmt =
      branch
        (λ s.
          is_type TokenType.newline (current s)
          || is_type TokenType.dedent (current s)
          || is_at_end s)
        (pure (Stmt.throw_stmt none)) (do e ← expression; pure (Stmt.throw_stmt (some e)))

  unfoldable pub assert_stmt : P Stmt
  assert_stmt = do
    cond ← expression
    msg ← if_match TokenType.comma (do e ← expression; pure (some e)) (pure none)
    pure (Stmt.assert_stmt cond msg)

  unfoldable pub del_stmt : P Stmt
  del_stmt = do e ← expression; pure (Stmt.del_stmt e)

  unfoldable pub go_stmt : P Stmt
  go_stmt = do e ← expression; pure (Stmt.expr_stmt (go_of e))

  unfoldable pub const_decl : P Stmt
  const_decl = do
    name ← expect TokenType.identifier "Expected constant name"
    ann ← if_match TokenType.colon type_annotation (pure [])
    expect TokenType.assign "Expected '=' in const declaration"
    value ← expression
    pure (Stmt.const_stmt name.lexeme value ann)

  -- Behind the first `=` of `target = …`: the last expression is the value, those before it are
  -- further targets.
  unfoldable pub assignment : Expr → P Stmt
  assignment target = do
    e ← expression
    chained ←
        while_match TokenType.assign
          (λ (extras, value). do e' ← expression; pure (extras ++ (value ∷ []), e')) ([], e)
    pure (Stmt.assign_stmt target chained.1 chained.0 [])

  unfoldable pub assigned : Expr → P Stmt
  assigned e =
      if_op aug_ops
        (λ op. do
          rhs ← expression
          pure (Stmt.assign_stmt e (binary_expr op (clone_expr e) rhs) [] []))
        (if_match TokenType.assign (assignment e) (pure (Stmt.expr_stmt e)))

  -- Behind the first comma of `a, b = …`.
  unfoldable pub unpacking : Option Bytes → P Stmt
  unpacking none = error "Expected identifier in unpacking target"
  unpacking (some name) = do
    names ←
        identifiers "Expected identifier in unpacking target"
          "Expected identifier in unpacking target"
    expect TokenType.assign "Expected '=' after unpacking targets"
    value ← expression
    pure (Stmt.tuple_unpack_stmt (name ∷ names) value)

  unfoldable pub untyped : Expr → P Stmt
  untyped e = if_match TokenType.comma (unpacking (identifier_of e)) (assigned e)

  -- `: Type = value` behind an identifier. A type without a value is read and dropped.
  unfoldable pub declared : Expr → Option Bytes → P Stmt
  declared e none = untyped e
  declared e (some name) =
      if_match TokenType.colon
        (do
          ann ← type_annotation
          if_match TokenType.assign (do value ← expression; pure (Stmt.assign_stmt e value [] ann))
              (untyped e))
        (untyped e)

  unfoldable pub expression_statement : P Stmt
  expression_statement = do
    e ← expression
    if_match TokenType.kw_send (do val ← expression; pure (Stmt.chan_send_stmt e val))
        (declared e (identifier_of e))

-- ===== src/Parser/Levels.antt =====
-- The levels of expressions in src/parser.cpp, from parsePower up to parseExpression.
use visuall.Base.{[], ◌∷◌, ◌++◌, List, Bytes, ℕ, suc, zero}
use visuall.Ast.Expr.{Expr, BinOp, UnaryOp}
use visuall.Lexer.Token.{TokenType}
use visuall.Parser.Monad.{
  P, Reply, ◌>>=◌, ◌>>◌, pure, expect, if_match, loop, if_two, fault, out_of_fuel, if_op,
}
use visuall.Parser.Expressions.{
  Entry, expression_entry, or_entry, not_entry, unary_entry, Stod, left_assoc, chain, if_comparison,
  or_ops, and_ops, null_coalesce_ops, shift_ops, add_sub_ops, bit_and_ops, bit_or_ops, bit_xor_ops,
  comparison_ops, mul_div_ops,
}
use visuall.Parser.Primary.{parse_postfix}

-- A dereference of a null pointer.
unfoldable pub faulted {ℓ} : {A : Type ℓ} → P A
faulted s = fault

module _ (stod : Bytes → Stod) (embedded : Bytes → Reply Expr) (self : Entry → P Expr) where
  unfoldable pub parse_power : P Expr
  parse_power = do
    base ← parse_postfix stod embedded self
    if_match TokenType.double_star
        (do e ← self unary_entry; pure (Expr.binary_expr BinOp.pow base e)) (pure base)

  unfoldable pub parse_unary : P Expr
  parse_unary =
      if_match TokenType.minus (do e ← self unary_entry; pure (Expr.unary_expr UnaryOp.neg e))
        (if_match TokenType.tilde
          (do e ← self unary_entry; pure (Expr.unary_expr UnaryOp.bit_not e))
          (if_match TokenType.kw_send (do e ← self unary_entry; pure (Expr.chan_recv_expr e))
            parse_power))

  unfoldable pub parse_mul_div : P Expr
  parse_mul_div = left_assoc mul_div_ops parse_unary

  unfoldable pub parse_add_sub : P Expr
  parse_add_sub = left_assoc add_sub_ops parse_mul_div

  unfoldable pub one_comparison :
      (List (BinOp × Expr) → P (List (BinOp × Expr)))
      → List (BinOp × Expr)
      → BinOp
      → P (List (BinOp × Expr))
  one_comparison again ops op = do e ← parse_add_sub; again (ops ++ ((op, e) ∷ []))

  -- The operators and operands behind the first.
  unfoldable pub comparisons : List (BinOp × Expr) → P (List (BinOp × Expr))
  comparisons = loop (λ again ops.
      if_comparison (one_comparison again ops)
        (if_op comparison_ops (one_comparison again ops) (pure ops)))

  unfoldable pub parse_comparison : P Expr
  parse_comparison = do first ← parse_add_sub; ops ← comparisons []; pure (chain first ops)

  unfoldable pub parse_shift : P Expr
  parse_shift = left_assoc shift_ops parse_comparison

  unfoldable pub parse_bit_and : P Expr
  parse_bit_and = left_assoc bit_and_ops parse_shift

  unfoldable pub parse_bit_xor : P Expr
  parse_bit_xor = left_assoc bit_xor_ops parse_bit_and

  unfoldable pub parse_bit_or : P Expr
  parse_bit_or = left_assoc bit_or_ops parse_bit_xor

  unfoldable pub parse_not : P Expr
  parse_not =
      if_match TokenType.kw_not (do e ← self not_entry; pure (Expr.unary_expr UnaryOp.not_op e))
        parse_bit_or

  unfoldable pub parse_and : P Expr
  parse_and = left_assoc and_ops parse_not

  unfoldable pub parse_or : P Expr
  parse_or = left_assoc or_ops parse_and

  unfoldable pub parse_null_coalesce : P Expr
  parse_null_coalesce = left_assoc null_coalesce_ops parse_or

  -- Once the parts are read, the position of the node is taken from `cond`, which has been moved
  -- into the node and is null.
  unfoldable pub parse_ternary : P Expr
  parse_ternary = do
    e ← parse_null_coalesce
    if_match TokenType.kw_if
        (do
          cond ← parse_null_coalesce
          expect TokenType.kw_else "Expected 'else' in ternary expression"
          alt ← parse_null_coalesce
          faulted)
        (pure e)

  -- A lambda and a walrus are told from other expressions by their first two tokens.
  unfoldable pub parse_expression : P Expr
  parse_expression =
      if_two TokenType.identifier TokenType.arrow
        (λ t. do body ← self expression_entry; pure (Expr.lambda_expr (t.lexeme ∷ []) body []))
        (if_two TokenType.identifier TokenType.walrus
          (λ t. do val ← self expression_entry; pure (Expr.walrus_expr t.lexeme val)) parse_ternary)

  -- The routine that an entry names.
  unfoldable pub parse_entry : Entry → P Expr
  parse_entry expression_entry = parse_expression
  parse_entry or_entry = parse_or
  parse_entry not_entry = parse_not
  parse_entry unary_entry = parse_unary

-- The knot, on fuel.
unfoldable pub parse_at : (Bytes → Stod) → (Bytes → Reply Expr) → ℕ → Entry → P Expr
parse_at stod embedded zero entry s = out_of_fuel
parse_at stod embedded (suc f) entry s =
    parse_entry stod embedded (parse_at stod embedded f) entry s

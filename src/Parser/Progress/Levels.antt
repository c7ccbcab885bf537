-- ===== src/Parser/Progress/Levels.antt =====
-- The levels of expressions in src/parser.cpp, and the tokens that they consume.
use visuall.Base.{ℕ, zero, suc, Bytes, List, ◌≢◌, arith, ◌<◌, Option}
use visuall.Ast.Expr.{Expr, BinOp}
use visuall.Parser.Progress.{
  Ok, Ok-mono, any, some_token, seq, behind, pure-ok, TokenType, Reply, out_of_fuel, P, faults,
}
use visuall.Parser.Progress.Tokens.{if_token-ok, if_two-ok, if_op-ok, expect-ok}
use visuall.Parser.Progress.Loops.{loop-ok, token-ok, Ok-zero}
use visuall.Parser.Progress.Primary.{parse_postfix-ok}
use visuall.Parser.Expressions.{
  Stod, more_operands, left_assoc, Entry, if_comparison, expression_entry, or_entry, not_entry,
  unary_entry,
}
use visuall.Parser.Levels.{
  parse_at, comparisons, faulted, parse_add_sub, one_comparison, parse_power, parse_expression,
  parse_entry, parse_unary, parse_not, parse_bit_or, parse_comparison, parse_null_coalesce,
  parse_ternary, parse_or, parse_bit_xor, parse_and, parse_mul_div, parse_bit_and, parse_shift,
}

more_operands-ok :
    {n : ℕ} (table : TokenType → Option BinOp) {operand : P Expr}
    → Ok (suc n) some_token operand
    → (e : Expr) → Ok n any (more_operands table operand e)
unfolding more_operands
more_operands-ok table o = loop-ok _ (λ m l k h left.
    if_op-ok table (λ op. seq (Ok-mono (omega (arith, l)) o) (λ right. h _)) (pure-ok _))

left_assoc-ok :
    {n : ℕ} (table : TokenType → Option BinOp) {operand : P Expr}
    → Ok (suc n) some_token operand
    → Ok (suc n) some_token (left_assoc table operand)
unfolding left_assoc
left_assoc-ok table o = behind o (λ left. more_operands-ok table o left)

module _ (stod : Bytes → Stod) (embedded : Bytes → Reply Expr) (self : Entry → P Expr) {n : ℕ}
    (returned : (t : Bytes) → embedded t ≢ out_of_fuel)
    (self-ok : (e : Entry) → Ok n some_token (self e)) where
  parse_power-ok : Ok (suc n) some_token (parse_power stod embedded self)
  unfolding parse_power
  parse_power-ok =
      behind (parse_postfix-ok stod embedded self returned self-ok)
        (λ base. token-ok _ (λ _. seq (self-ok _) (λ e. pure-ok _)) (pure-ok _))

  parse_unary-ok : Ok (suc n) some_token (parse_unary stod embedded self)
  unfolding parse_unary
  parse_unary-ok =
      if_token-ok _ (λ _. seq (self-ok _) (λ e. pure-ok _))
        (if_token-ok _ (λ _. seq (self-ok _) (λ e. pure-ok _))
          (if_token-ok _ (λ _. seq (self-ok _) (λ e. pure-ok _)) parse_power-ok))

  parse_add_sub-ok : Ok (suc n) some_token (parse_add_sub stod embedded self)
  unfolding parse_add_sub parse_mul_div
  parse_add_sub-ok = left_assoc-ok _ (left_assoc-ok _ parse_unary-ok)

  one_comparison-ok :
      {m : ℕ} {again : List (BinOp × Expr) → P (List (BinOp × Expr))}
      → m < n
      → ((ops : List (BinOp × Expr)) → Ok m any (again ops))
      → (ops : List (BinOp × Expr)) (op : BinOp)
      → Ok m any (one_comparison stod embedded self again ops op)
  unfolding one_comparison
  one_comparison-ok l h ops op = seq (Ok-mono (omega (arith, l)) parse_add_sub-ok) (λ e. h _)

  comparisons-ok : (ops : List (BinOp × Expr)) → Ok n any (comparisons stod embedded self ops)
  unfolding comparisons if_comparison
  comparisons-ok = loop-ok _ (λ m l k h ops.
      if_two-ok _ _ (λ _. one_comparison-ok l h ops _)
        (if_op-ok _ (λ op. one_comparison-ok l h ops op) (pure-ok _)))

  parse_comparison-ok : Ok (suc n) some_token (parse_comparison stod embedded self)
  unfolding parse_comparison
  parse_comparison-ok = behind parse_add_sub-ok (λ first. seq (comparisons-ok _) (λ ops. pure-ok _))

  parse_bit_or-ok : Ok (suc n) some_token (parse_bit_or stod embedded self)
  unfolding parse_bit_or parse_bit_xor parse_bit_and parse_shift
  parse_bit_or-ok =
      left_assoc-ok _ (left_assoc-ok _ (left_assoc-ok _ (left_assoc-ok _ parse_comparison-ok)))

  parse_not-ok : Ok (suc n) some_token (parse_not stod embedded self)
  unfolding parse_not
  parse_not-ok = if_token-ok _ (λ _. seq (self-ok _) (λ e. pure-ok _)) parse_bit_or-ok

  parse_or-ok : Ok (suc n) some_token (parse_or stod embedded self)
  unfolding parse_or parse_and
  parse_or-ok = left_assoc-ok _ (left_assoc-ok _ parse_not-ok)

  pub parse_null_coalesce-ok : Ok (suc n) some_token (parse_null_coalesce stod embedded self)
  unfolding parse_null_coalesce
  parse_null_coalesce-ok = left_assoc-ok _ parse_or-ok

  faulted-ok : {A : Type 0} → Ok n any (faulted {A = A})
  unfolding faulted
  faulted-ok = record { at = λ s l. faults }

  parse_ternary-ok : Ok (suc n) some_token (parse_ternary stod embedded self)
  unfolding parse_ternary
  parse_ternary-ok = behind parse_null_coalesce-ok (λ e.
      token-ok _
        (λ _. seq (Ok-mono (omega arith) parse_null_coalesce-ok) (λ cond.
          seq (expect-ok _ _)
            (λ _. seq (Ok-mono (omega arith) parse_null_coalesce-ok) (λ alt. faulted-ok))))
        (pure-ok _))

  parse_expression-ok : Ok (suc n) some_token (parse_expression stod embedded self)
  unfolding parse_expression
  parse_expression-ok =
      if_two-ok _ _ (λ t. seq (self-ok _) (λ body. pure-ok _))
        (if_two-ok _ _ (λ t. seq (self-ok _) (λ val. pure-ok _)) parse_ternary-ok)

  parse_entry-ok : (e : Entry) → Ok (suc n) some_token (parse_entry stod embedded self e)
  unfolding parse_entry
  parse_entry-ok expression_entry = parse_expression-ok
  parse_entry-ok or_entry = parse_or-ok
  parse_entry-ok not_entry = parse_not-ok
  parse_entry-ok unary_entry = parse_unary-ok

module _ (stod : Bytes → Stod) (embedded : Bytes → Reply Expr)
    (returned : (t : Bytes) → embedded t ≢ out_of_fuel) where
  pub parse_at-ok : (f : ℕ) (e : Entry) → Ok f some_token (parse_at stod embedded f e)
  unfolding parse_at
  parse_at-ok zero e = Ok-zero
  parse_at-ok (suc f) e = record {
    at = λ s l.
        (parse_entry-ok stod embedded (parse_at stod embedded f) returned (parse_at-ok f) e).at s l;
  }

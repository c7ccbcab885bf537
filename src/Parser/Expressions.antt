-- ===== src/Parser/Expressions.antt =====
-- The expression routines of src/parser.cpp, one for each level of precedence. A routine that an
-- outer level comes back to behind a token is called through `self`; the knot is in Parser.Levels.
use visuall.Base.{
  [], ◌∷◌, ◌++◌, List, Bytes, none, some, Option, String, if◌then◌else◌, ◌&&◌, not, leb,
}
use visuall.Ast.Expr.{Expr, BinOp}
use visuall.Lexer.Token.{TokenType, Token}
use visuall.Parser.Monad.{P, State, ◌>>=◌, pure, is_type, if_two, loop, fail, if_op, text}
use visuall.Ast.Clone.{clone_expr}
use visuall.Lexer.Cursor.{first, is_digit}
use visuall.Packages.Versions.{extract_digits}

-- The routines that are called behind a token: parseExpression, parseOr, parseNot and parseUnary.
pub data Entry : Type 0 where
  expression_entry or_entry not_entry unary_entry : Entry

-- What `std::stod` does with a text.
pub data Stod : Type 0 where
  converted out_of_range invalid_argument : Stod

unfoldable pub or_ops : TokenType → Option BinOp
or_ops TokenType.kw_or = some BinOp.or_op
or_ops _ = none

unfoldable pub and_ops : TokenType → Option BinOp
and_ops TokenType.kw_and = some BinOp.and_op
and_ops _ = none

unfoldable pub null_coalesce_ops : TokenType → Option BinOp
null_coalesce_ops TokenType.double_question = some BinOp.null_coalesce
null_coalesce_ops _ = none

unfoldable pub bit_or_ops : TokenType → Option BinOp
bit_or_ops TokenType.pipe = some BinOp.bit_or
bit_or_ops _ = none

unfoldable pub bit_xor_ops : TokenType → Option BinOp
bit_xor_ops TokenType.caret = some BinOp.bit_xor
bit_xor_ops _ = none

unfoldable pub bit_and_ops : TokenType → Option BinOp
bit_and_ops TokenType.amp = some BinOp.bit_and
bit_and_ops _ = none

unfoldable pub shift_ops : TokenType → Option BinOp
shift_ops TokenType.lshift = some BinOp.shl
shift_ops TokenType.rshift = some BinOp.shr
shift_ops _ = none

unfoldable pub add_sub_ops : TokenType → Option BinOp
add_sub_ops TokenType.plus = some BinOp.add
add_sub_ops TokenType.minus = some BinOp.sub
add_sub_ops _ = none

unfoldable pub mul_div_ops : TokenType → Option BinOp
mul_div_ops TokenType.star = some BinOp.mul
mul_div_ops TokenType.slash = some BinOp.div
mul_div_ops TokenType.double_slash = some BinOp.int_div
mul_div_ops TokenType.percent = some BinOp.mod_op
mul_div_ops _ = none

unfoldable pub comparison_ops : TokenType → Option BinOp
comparison_ops TokenType.eq = some BinOp.eq
comparison_ops TokenType.neq = some BinOp.neq
comparison_ops TokenType.lt = some BinOp.lt
comparison_ops TokenType.gt = some BinOp.gt
comparison_ops TokenType.lte = some BinOp.lte
comparison_ops TokenType.gte = some BinOp.gte
comparison_ops TokenType.kw_in = some BinOp.in_op
comparison_ops _ = none

-- A level of binary operators: an operand of the next level, and while an operator of this level
-- follows, one more, with the tree so far as the left side.
unfoldable pub more_operands : (TokenType → Option BinOp) → P Expr → Expr → P Expr
more_operands table operand = loop (λ again left.
    if_op table (λ op. do right ← operand; again (Expr.binary_expr op left right)) (pure left))

unfoldable pub left_assoc : (TokenType → Option BinOp) → P Expr → P Expr
left_assoc table operand = do left ← operand; more_operands table operand left

-- The chain of a comparison: the operands behind the first, each with its operator. All but the
-- last are copied to the right side of their own comparison.
unfoldable pub chain_from : Expr → Expr → List (BinOp × Expr) → Expr
chain_from result left [] = result
chain_from result left ((op, right) ∷ []) =
    Expr.binary_expr BinOp.and_op result (Expr.binary_expr op left right)
chain_from result left ((op, right) ∷ next ∷ rest) =
    chain_from (Expr.binary_expr BinOp.and_op result (Expr.binary_expr op left (clone_expr right)))
      right (next ∷ rest)

unfoldable pub chain : Expr → List (BinOp × Expr) → Expr
chain first [] = first
chain first ((op, right) ∷ []) = Expr.binary_expr op first right
chain first ((op, right) ∷ next ∷ rest) =
    chain_from (Expr.binary_expr op first (clone_expr right)) right (next ∷ rest)

-- `not in`, or an operator of one token.
unfoldable pub if_comparison {ℓ} : {A : Type ℓ} → (BinOp → P A) → P A → P A
if_comparison x y = if_two TokenType.kw_not TokenType.kw_in (λ _. x BinOp.not_in) y

unfoldable pub generic_names : List Bytes → List Token → Option (List Bytes × State)
generic_names names (a ∷ b ∷ ts) =
    let more = generic_names (names ++ (b.lexeme ∷ [])) ts in
    if is_type TokenType.comma a && is_type TokenType.identifier b
    then more
    else if is_type TokenType.gt a && is_type TokenType.lparen b
    then some (names, record { previous = some b; rest = ts })
    else none
generic_names names _ = none

-- `<T1, T2>(`, with the state behind it.
unfoldable pub generic_call : List Token → Option (List Bytes × State)
generic_call (a ∷ b ∷ ts) =
    if is_type TokenType.lt a && is_type TokenType.identifier b
    then generic_names (b.lexeme ∷ []) ts
    else none
generic_call _ = none

unfoldable pub if_generic_call {ℓ} : {A : Type ℓ} → (List Bytes → P A) → P A → P A
if_generic_call x y s = elim (generic_call s.rest) [ none ↦ y s | some (names, s') ↦ x names s' ]

unfoldable pub throw_at {ℓ} : {A : Type ℓ} → Token → String → P A
throw_at t message s = fail (record { message = text message; line = t.line; column = t.column }) s

-- `std::stoll` on a lexeme that begins with a digit, or is none.
unfoldable pub int_literal_of : Token → P Expr
int_literal_of t =
    if not (is_digit (first t.lexeme))
    then throw_at t "Invalid integer literal"
    else if leb (extract_digits 0 t.lexeme).value 0x7FFFFFFFFFFFFFFF
    then pure (Expr.int_literal (extract_digits 0 t.lexeme).value)
    else throw_at t "Integer literal is too large"

unfoldable pub float_literal_of : Stod → Token → P Expr
float_literal_of converted t = pure (Expr.float_literal t.lexeme)
float_literal_of out_of_range t = throw_at t "Float literal is too large"
float_literal_of invalid_argument t = throw_at t "Invalid float literal"

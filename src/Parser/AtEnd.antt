-- ===== src/Parser/AtEnd.antt =====
-- The routines of src/parser.cpp for expressions, `return`, `yield` and `throw`, at the end of the
-- file.
use visuall.Base.{
  refl, ℕ, suc, ◌≡◌, Bytes, arith, none, some, Option, true, false, Bool, List, length, ◌||◌, ◌∷◌,
}
use visuall.Ast.Expr.{Expr, BinOp}
use visuall.Ast.Stmt.{Stmt}
use visuall.Lexer.Token.{TokenType, Token}
use visuall.Parser.Monad.{
  P, State, Reply, ok, fail, got, check, current, if_token, if_two, and_then, ◌>>=◌, pure,
  is_at_end, is_type, advance, advance_in, skip_newlines, newlines_skipped, current_in, branch,
  error_with,
}
use visuall.Parser.Levels.{
  parse_at, parse_entry, parse_expression, parse_ternary, parse_null_coalesce, parse_or, parse_and,
  parse_not, parse_bit_or, parse_bit_xor, parse_bit_and, parse_shift, parse_comparison,
  parse_add_sub, parse_mul_div, parse_unary, parse_power,
}
use visuall.Parser.Primary.{parse_primary, parse_postfix}
use visuall.Parser.Expressions.{Stod, Entry, expression_entry, left_assoc}
use visuall.Parser.Statements.{statement_at, parse_statement, keyword_statement}
use visuall.Parser.Program.{parse_expression_here, parse_statement_here}
use visuall.Parser.Simple.{optional_value, return_stmt, yield_stmt, throw_stmt}

-- The ParseError of a token that no expression begins with.
abbrev pub unexpected : {A : Type 0} → State → Reply A
unexpected s =
    fail
      (record {
        message = got (current s).lexeme;
        line = (current s).line;
        column = (current s).column;
      })
      s

or_true : (a b : Bool) → (a || b || true) ≡ true
or_true a b = ground arith

module _ (s : State) (ended : is_at_end s ≡ true) where
  check-at_end : (type : TokenType) → check type s ≡ false
  unfolding check
  check-at_end type = rw ended refl

  -- A routine that ends in that error.
  record Falls {A : Type 0} (p : P A) : Type 0 where
    at : p s ≡ unexpected s

  if_token-Falls :
      {A : Type 0} (type : TokenType) (x : Token → P A) {y : P A}
      → Falls y
      → Falls (if_token type x y)
  unfolding if_token
  if_token-Falls type x h = record { at = rw (check-at_end type) h.at }

  if_two-Falls :
      {A : Type 0} (type type' : TokenType) (x : Token → P A) {y : P A}
      → Falls y
      → Falls (if_two type type' x y)
  unfolding if_two
  if_two-Falls type type' x h = record { at = rw (check-at_end type) h.at }

  behind-Falls : {A B : Type 0} {p : P A} (k : A → P B) → Falls p → Falls (p >>= k)
  unfolding ◌>>=◌ and_then
  behind-Falls k h = record { at = rw (h.at, and_then) refl }

  left_assoc-Falls :
      (table : TokenType → Option BinOp) {p : P Expr} → Falls p → Falls (left_assoc table p)
  unfolding left_assoc
  left_assoc-Falls table h = behind-Falls _ h

  module _ (stod : Bytes → Stod) (embedded : Bytes → Reply Expr) (self : Entry → P Expr) where
    parse_primary-Falls : Falls (parse_primary stod embedded self)
    unfolding parse_primary error_with
    parse_primary-Falls = if_token-Falls TokenType.int_literal _ (
        if_token-Falls TokenType.float_literal _ (
          if_token-Falls TokenType.string_literal _ (
            if_token-Falls TokenType.fstring_literal _ (
              if_token-Falls TokenType.bool_literal _ (
                if_token-Falls TokenType.null_literal _ (
                  if_token-Falls TokenType.star _ (
                    if_token-Falls TokenType.double_star _ (
                      if_token-Falls TokenType.kw_this _ (
                        if_token-Falls TokenType.kw_super _ (
                          if_token-Falls TokenType.identifier _ (
                            if_token-Falls TokenType.lparen _ (
                              if_token-Falls TokenType.lbracket _ (
                                if_token-Falls TokenType.lbrace _
                                  (record { at = refl }))))))))))))))

    parse_unary-Falls : Falls (parse_unary stod embedded self)
    unfolding parse_unary parse_power parse_postfix
    parse_unary-Falls = if_token-Falls TokenType.minus _ (
        if_token-Falls TokenType.tilde _ (
          if_token-Falls TokenType.kw_send _ (behind-Falls _ (behind-Falls _ parse_primary-Falls))))

    parse_comparison-Falls : Falls (parse_comparison stod embedded self)
    unfolding parse_comparison parse_add_sub parse_mul_div
    parse_comparison-Falls =
        behind-Falls _ (left_assoc-Falls _ (left_assoc-Falls _ parse_unary-Falls))

    parse_not-Falls : Falls (parse_not stod embedded self)
    unfolding parse_not parse_bit_or parse_bit_xor parse_bit_and parse_shift
    parse_not-Falls = if_token-Falls TokenType.kw_not _ (
        left_assoc-Falls _
          (left_assoc-Falls _ (left_assoc-Falls _ (left_assoc-Falls _ parse_comparison-Falls))))

    parse_expression-Falls : Falls (parse_expression stod embedded self)
    unfolding parse_expression parse_ternary parse_null_coalesce parse_or parse_and
    parse_expression-Falls = if_two-Falls TokenType.identifier TokenType.arrow _ (
        if_two-Falls TokenType.identifier TokenType.walrus _ (
          behind-Falls _
            (left_assoc-Falls _ (left_assoc-Falls _ (left_assoc-Falls _ parse_not-Falls)))))

  parse_at-Falls :
      (stod : Bytes → Stod) (embedded : Bytes → Reply Expr) (f : ℕ)
      → Falls (parse_at stod embedded (suc f) expression_entry)
  unfolding parse_at parse_entry
  parse_at-Falls stod embedded f = parse_expression-Falls stod embedded (parse_at stod embedded f)

  optional_value-Falls : {p : P Expr} → Falls p → Falls (optional_value p)
  unfolding optional_value branch
  optional_value-Falls h = record {
    at = rw (check-at_end TokenType.newline) (
        rw (check-at_end TokenType.end_of_file)
          (rw (check-at_end TokenType.dedent) (behind-Falls _ h).at));
  }

  return_stmt-Falls : {p : P Expr} → Falls p → Falls (return_stmt p)
  unfolding return_stmt
  return_stmt-Falls h = behind-Falls _ (optional_value-Falls h)

  yield_stmt-Falls : {p : P Expr} → Falls p → Falls (yield_stmt p)
  unfolding yield_stmt
  yield_stmt-Falls h = behind-Falls _ (optional_value-Falls h)

  throw_stmt-bare : (p : P Expr) → throw_stmt p s ≡ ok (Stmt.throw_stmt none) s
  unfolding throw_stmt branch pure
  throw_stmt-bare p = rw ended (
      rw (or_true (is_type TokenType.newline (current s)) (is_type TokenType.dedent (current s)))
        refl)

  here-Falls :
      (stod : Bytes → Stod) (embedded : Bytes → Reply Expr)
      → Falls (parse_expression_here stod embedded)
  unfolding parse_expression_here
  here-Falls stod embedded = record { at = (parse_at-Falls stod embedded (length s.rest)).at }

-- A keyword with some tokens behind it, and the state once it has been consumed.
abbrev pub keyword : TokenType → Token → Token
keyword type t = record t { type = type }

abbrev pub before : TokenType → Token → Option Token → List Token → State
before type t previous ts = record { previous = previous; rest = keyword type t ∷ ts }

abbrev pub behind : TokenType → Token → List Token → State
behind type t ts = record { previous = some (keyword type t); rest = ts }

module _ (stod : Bytes → Stod) (embedded : Bytes → Reply Expr) (t : Token) (previous : Option Token)
    (ts : List Token) where
  abbrev statement : TokenType → Reply Stmt
  statement type = parse_statement_here stod embedded (before type t previous ts)

  -- Where nothing but the end of the file follows the keyword, the statements `return` and `yield`
  -- end in the ParseError at the token behind the keyword that quotes its lexeme, with the keyword
  -- consumed; the statement `throw` is read, without a value.
  pub bare_statement-at_end :
      is_type TokenType.end_of_file (current_in ts) ≡ true
      → (statement TokenType.kw_return ≡ unexpected (behind TokenType.kw_return t ts))
        × (statement TokenType.kw_yield ≡ unexpected (behind TokenType.kw_yield t ts))
        × (statement TokenType.kw_throw
            ≡ ok (Stmt.throw_stmt none) (behind TokenType.kw_throw t ts))
  unfolding parse_statement_here statement_at parse_statement keyword_statement if_token check
      advance advance_in skip_newlines newlines_skipped ◌>>=◌ and_then current_in is_type
  bare_statement-at_end h = (
    (return_stmt-Falls (behind TokenType.kw_return t ts) h (here-Falls _ h stod embedded)).at,
    (yield_stmt-Falls (behind TokenType.kw_yield t ts) h (here-Falls _ h stod embedded)).at,
    throw_stmt-bare (behind TokenType.kw_throw t ts) h (parse_expression_here stod embedded),
  )

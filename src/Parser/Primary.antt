-- ===== src/Parser/Primary.antt =====
-- parsePrimary and parsePostfix of src/parser.cpp.
use visuall.Base.{[], ◌∷◌, ◌++◌, List, Bool, Bytes, ◌||◌, none, some, Option, codes, String}
use visuall.Ast.Expr.{Expr, exprs, entries, opt_expr}
use visuall.Lexer.Token.{TokenType, bytes_eq}
use visuall.Parser.Monad.{
  P, State, Reply, ◌>>=◌, ◌>>◌, pure, check, expect, if_token, if_match, branch, loop, while_match,
  error, error_with, got,
}
use visuall.Parser.Expressions.{
  Entry, expression_entry, or_entry, unary_entry, Stod, if_generic_call, int_literal_of,
  float_literal_of,
}
use visuall.Parser.FStrings.{fstring_of}

module _ (stod : Bytes → Stod) (embedded : Bytes → Reply Expr) (self : Entry → P Expr) where
  -- `do { push_back(parseExpression()); } while (match(COMMA));`.
  unfoldable pub expression_list : P (List Expr)
  expression_list = do
    e ← self expression_entry
    while_match TokenType.comma (λ es. do e' ← self expression_entry; pure (es ++ (e' ∷ [])))
        (e ∷ [])

  -- The arguments behind a `(`, and the `)`.
  unfoldable pub arguments : P (List Expr)
  arguments = do
    args ← branch (check TokenType.rparen) (pure []) expression_list
    expect TokenType.rparen "Expected ')' after arguments"
    pure args

  -- An expression, unless a token of a kind follows that ends the part.
  unfoldable pub optional_expression : (State → Bool) → P (Option Expr)
  optional_expression ends = branch ends (pure none) (do e ← self expression_entry; pure (some e))

  -- A `,` behind an element, and the next element unless the closing bracket follows.
  unfoldable pub more_elements : TokenType → List Expr → P (List Expr)
  more_elements close = loop (λ again es.
      if_match TokenType.comma
        (branch (check close) (pure es) (do e ← self expression_entry; again (es ++ (e ∷ []))))
        (pure es))

  unfoldable pub dict_entry : P (Expr × Expr)
  dict_entry = do
    key ← self expression_entry
    expect TokenType.colon "Expected ':' in dict entry"
    val ← self expression_entry
    pure (key, val)

  unfoldable pub more_dict_entries : List (Expr × Expr) → P (List (Expr × Expr))
  more_dict_entries = loop (λ again es.
      if_match TokenType.comma
        (branch (check TokenType.rbrace) (pure es) (do e ← dict_entry; again (es ++ (e ∷ []))))
        (pure es))

  -- `if cond` of a comprehension, where it is there.
  unfoldable pub comprehension_condition : P (Option Expr)
  comprehension_condition =
      if_match TokenType.kw_if (do c ← self or_entry; pure (some c)) (pure none)

  -- `var in iter if cond`, and the closing bracket; the `for` has been consumed.
  unfoldable pub comprehension : TokenType → String → P (Bytes × Expr × Option Expr)
  comprehension close message = do
    var ← expect TokenType.identifier "Expected loop variable in comprehension"
    expect TokenType.kw_in "Expected 'in' in comprehension"
    iterable ← self or_entry
    condition ← comprehension_condition
    expect close message
    pure (var.lexeme, iterable, condition)

  -- Behind `(`.
  unfoldable pub paren_of : P Expr
  paren_of = if_match TokenType.rparen (pure (Expr.tuple_expr (exprs []))) (do
    first ← self expression_entry
    if_match TokenType.comma
        (do
          rest ← branch (check TokenType.rparen) (pure []) expression_list
          expect TokenType.rparen "Expected ')' to close tuple"
          pure (Expr.tuple_expr (exprs (first ∷ rest))))
        (do expect TokenType.rparen "Expected ')'"; pure first))

  -- Behind `[`.
  unfoldable pub list_of : P Expr
  list_of = if_match TokenType.rbracket (pure (Expr.list_expr (exprs []))) (do
    first ← self expression_entry
    if_match TokenType.kw_for
        (do
          (var, iterable, condition) ←
              comprehension TokenType.rbracket "Expected ']' after list comprehension"
          pure (Expr.list_comprehension first var iterable (opt_expr condition)))
        (do
          elements ← more_elements TokenType.rbracket (first ∷ [])
          expect TokenType.rbracket "Expected ']'"
          pure (Expr.list_expr (exprs elements))))

  -- Behind `{`.
  unfoldable pub dict_of : P Expr
  dict_of = if_match TokenType.rbrace (pure (Expr.dict_expr (entries []))) (do
    (key, val) ← dict_entry
    if_match TokenType.kw_for
        (do
          (var, iterable, condition) ←
              comprehension TokenType.rbrace "Expected '}' after dict comprehension"
          pure (Expr.dict_comprehension key val var iterable (opt_expr condition)))
        (do
          es ← more_dict_entries ((key, val) ∷ [])
          expect TokenType.rbrace "Expected '}'"
          pure (Expr.dict_expr (entries es))))

  unfoldable pub parse_primary : P Expr
  parse_primary = if_token TokenType.int_literal int_literal_of (
      if_token TokenType.float_literal (λ t. float_literal_of (stod t.lexeme) t)
        (if_token TokenType.string_literal (λ t. pure (Expr.string_literal t.lexeme))
          (if_token TokenType.fstring_literal (λ t. fstring_of embedded t.lexeme)
            (if_token TokenType.bool_literal
              (λ t. pure (Expr.bool_literal (bytes_eq t.lexeme (codes "true"))))
              (if_match TokenType.null_literal (pure Expr.null_literal) (
                if_match TokenType.star (do e ← self unary_entry; pure (Expr.spread_expr e))
                  (if_match TokenType.double_star
                    (do e ← self unary_entry; pure (Expr.dict_spread_expr e))
                    (if_match TokenType.kw_this (pure Expr.this_expr) (
                      if_match TokenType.kw_super (pure Expr.super_expr) (
                        if_token TokenType.identifier (λ t. pure (Expr.identifier t.lexeme))
                          (if_match TokenType.lparen paren_of (
                            if_match TokenType.lbracket list_of (
                              if_match TokenType.lbrace dict_of
                                (error_with (λ t. got t.lexeme)))))))))))))))

  unfoldable pub member_name : P Bytes
  member_name =
      if_match TokenType.kw_init (pure (codes "init"))
        (do t ← expect TokenType.identifier "Expected member name"; pure t.lexeme)

  abbrev slice_ends : State → Bool
  slice_ends s = check TokenType.colon s || check TokenType.rbracket s

  unfoldable pub index_of : Expr → Option Expr → P Expr
  index_of e none = error "Expected expression in index"
  index_of e (some i) = do
    expect TokenType.rbracket "Expected ']' after index"
    pure (Expr.index_expr e i)

  -- Behind `[`: an index, or a slice.
  unfoldable pub subscript : Expr → P Expr
  subscript e = do
    start ← optional_expression slice_ends
    if_match TokenType.colon
        (do
          stop ← optional_expression slice_ends
          step ←
              if_match TokenType.colon (optional_expression (check TokenType.rbracket)) (pure none)
          expect TokenType.rbracket "Expected ']' after slice"
          pure (Expr.slice_expr e (opt_expr start) (opt_expr stop) (opt_expr step)))
        (index_of e start)

  unfoldable pub more_postfix : Expr → P Expr
  more_postfix = loop (λ again e.
      if_match TokenType.lparen (do args ← arguments; again (Expr.call_expr e (exprs args) []))
        (if_match TokenType.dot (do m ← member_name; again (Expr.member_expr e m))
          (if_generic_call
            (λ types. do args ← arguments; again (Expr.call_expr e (exprs args) types))
            (if_match TokenType.lbracket (do e' ← subscript e; again e') (pure e)))))

  unfoldable pub parse_postfix : P Expr
  parse_postfix = do e ← parse_primary; more_postfix e

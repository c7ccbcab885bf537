-- ===== src/Parser/Params.antt =====
-- Parameter lists of src/parser.cpp.
use visuall.Base.{[], ◌∷◌, ◌++◌, List, Bool, none, some, false, true}
use visuall.Ast.Expr.{Expr}
use visuall.Ast.Stmt.{Param}
use visuall.Lexer.Token.{TokenType}
use visuall.Parser.Monad.{P, ◌>>=◌, ◌>>◌, pure, check, expect, if_match, branch, loop, error}
use visuall.Parser.Types.{type_annotation}

module _ (expression : P Expr) where
  unfoldable pub named_param : P Param
  named_param =
      if_match TokenType.double_star
        (do
          t ← expect TokenType.identifier "Expected parameter name after '**'"
          pure (record {
            name = t.lexeme;
            type_annotation = [];
            default_value = none;
            is_variadic = false;
            is_kwargs = true;
          }))
        (if_match TokenType.star
          (do
            t ← expect TokenType.identifier "Expected parameter name after '*'"
            pure (record {
              name = t.lexeme;
              type_annotation = [];
              default_value = none;
              is_variadic = true;
              is_kwargs = false;
            }))
          (do
            t ← expect TokenType.identifier "Expected parameter name"
            pure (record {
              name = t.lexeme;
              type_annotation = [];
              default_value = none;
              is_variadic = false;
              is_kwargs = false;
            })))

  unfoldable pub param : P Param
  param = do
    p ← named_param
    ann ← if_match TokenType.colon type_annotation (pure [])
    val ← if_match TokenType.assign (do e ← expression; pure (some e)) (pure none)
    pure (record {
      name = p.name;
      type_annotation = ann;
      default_value = val;
      is_variadic = p.is_variadic;
      is_kwargs = p.is_kwargs;
    })

  unfoldable pub more_params : List Param × Bool → P (List Param × Bool)
  more_params = loop (λ again ps.
      if_match TokenType.ellipsis
        (branch (check TokenType.rparen) (pure (ps.0, true))
          (error "C variadic '...' must be the last parameter in the list"))
        (do
          p ← param
          if_match TokenType.comma (again (ps.0 ++ (p ∷ []), false))
              (pure (ps.0 ++ (p ∷ []), false))))

  -- The parameters, and whether `...` ends them.
  unfoldable pub parse_param_list : P (List Param × Bool)
  parse_param_list = do
    expect TokenType.lparen "Expected '(' for parameter list"
    ps ← branch (check TokenType.rparen) (pure ([], false)) (more_params ([], false))
    expect TokenType.rparen "Expected ')' after parameters"
    pure ps

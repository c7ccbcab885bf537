-- ===== src/Parser/Definitions.antt =====
-- The functions, constructors, classes and interfaces of src/parser.cpp. `block` stands for
-- parseBlock.
use visuall.Base.{[], ◌∷◌, ◌++◌, List, if◌then◌else◌, ◌&&◌, not, String, false}
use visuall.Ast.Expr.{Expr}
use visuall.Ast.Stmt.{Stmt, MethodSignature, stmts}
use visuall.Lexer.Token.{TokenType}
use visuall.Parser.Monad.{
  P, ◌>>=◌, ◌>>◌, pure, check, expect, if_match, while_test, match_any, skip_newlines, is_at_end,
}
use visuall.Parser.Headers.{
  extern_of, type_params, base_classes, return_annotation, implemented, base_of,
}
use visuall.Parser.Params.{parse_param_list}

module _ (expression : P Expr) (block : P (List Stmt)) where
  -- `...`, where a colon is there.
  unfoldable pub extern_body : P (Unit {0})
  extern_body =
      if_match TokenType.colon
        (do
          expect TokenType.ellipsis "Expected '...' body for extern function"
          match_any TokenType.newline)
        (pure tt)

  unfoldable pub body_behind_colon : String → P (List Stmt)
  body_behind_colon message = do expect TokenType.colon message; block

  -- Behind `define`.
  unfoldable pub func_def : List Expr → P Stmt
  func_def decorators = do
    name ← expect TokenType.identifier "Expected function name"
    types ← type_params
    ps ← parse_param_list expression
    ret ← return_annotation
    body ←
        (if (extern_of decorators (false, [])).0
          then (do extern_body; pure [])
          else body_behind_colon "Expected ':' after function signature")
    pure (
        Stmt.func_def
          (record {
            name = name.lexeme;
            type_params = types.0;
            type_param_bounds = types.1;
            params = ps.0;
            return_type = ret;
            decorators = decorators;
            is_extern = (extern_of decorators (false, [])).0;
            extern_lib_name = (extern_of decorators (false, [])).1;
            is_variadic_c_func = ps.1;
          })
          (stmts body))

  -- Behind `init`.
  unfoldable pub init_def : P Stmt
  init_def = do
    ps ← parse_param_list expression
    body ← body_behind_colon "Expected ':' after init signature"
    pure (Stmt.init_def ps.0 (stmts body))

  -- Behind `class`.
  unfoldable pub class_def : P Stmt
  class_def = do
    name ← expect TokenType.identifier "Expected class name"
    types ← type_params
    bases ← base_classes
    interfaces ← implemented
    body ← body_behind_colon "Expected ':' after class header"
    pure (
        Stmt.class_def
          (record {
            name = name.lexeme;
            base_class = (base_of bases).0;
            extra_bases = (base_of bases).1;
            interfaces = interfaces;
            type_params = types.0;
            type_param_bounds = types.1;
          })
          (stmts body))

  unfoldable pub method_signature : List MethodSignature → P (List MethodSignature)
  method_signature ms = do
    expect TokenType.kw_define "Expected method declaration in interface"
    name ← expect TokenType.identifier "Expected method name"
    ps ← parse_param_list expression
    ret ← return_annotation
    match_any TokenType.newline
    skip_newlines
    pure (ms ++ (record { name = name.lexeme; params = ps.0; return_type = ret } ∷ []))

  -- Behind `interface`.
  unfoldable pub interface_def : P Stmt
  interface_def = do
    name ← expect TokenType.identifier "Expected interface name"
    expect TokenType.colon "Expected ':' after interface name"
    expect TokenType.newline "Expected newline before indented block"
    skip_newlines
    expect TokenType.indent "Expected indented block"
    skip_newlines
    methods ←
        while_test (λ s. not (check TokenType.dedent s) && not (is_at_end s)) method_signature []
    expect TokenType.dedent "Expected end of interface block"
    pure (Stmt.interface_def name.lexeme methods)

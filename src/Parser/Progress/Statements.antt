-- ===== src/Parser/Progress/Statements.antt =====
-- Definitions and statements in src/parser.cpp, and the tokens that they consume.
use visuall.Base.{
  ℕ, zero, suc, Bytes, List, arith, Bool, Option, [], String, some, if◌then◌else◌, true, none,
  false,
}
use visuall.Parser.Progress.{
  Ok, Ok-mono, any, some_token, less, seq, strict, behind, pure-ok, branch-ok, error-ok, P,
}
use visuall.Parser.Progress.Tokens.{if_token-ok, expect-ok, skip_newlines-ok}
use visuall.Parser.Progress.Loops.{
  token-ok, matches-ok, while_test-ok, match_any-ok, op-ok, Ok-zero, while_match-ok,
}
use visuall.Parser.Definitions.{
  func_def, init_def, class_def, interface_def, body_behind_colon, extern_body, method_signature,
}
use visuall.Parser.Simple.{
  yield_stmt, go_stmt, return_stmt, throw_stmt, assert_stmt, del_stmt, import_stmt,
  from_import_stmt, const_decl, expression_statement, untyped, unpacking, declared, optional_value,
  assignment, assigned,
}
use visuall.Parser.Progress.Headers.{
  identifiers-ok, type_params-ok, parse_param_list-ok, return_annotation-ok, base_classes-ok,
  implemented-ok, enum_def-ok,
}
use visuall.Ast.Expr.{Expr}
use visuall.Parser.Statements.{
  statement_at, parse_statement, decorator, plain_statement, decorated, keyword_statement,
}
use visuall.Parser.Progress.Types.{type_annotation-ok}
use visuall.Ast.Stmt.{Stmt, MethodSignature}
use visuall.Parser.Blocks.{parse_block}
use visuall.Parser.Progress.Blocks.{
  parse_block-ok, if_stmt-ok, for_stmt-ok, while_stmt-ok, try_stmt-ok, with_stmt-ok, match_stmt-ok,
}

module _ (expression : P Expr) (block : P (List Stmt)) {n : ℕ}
    (expression-ok : Ok n some_token expression) (block-ok : Ok n any block) where
  extern_body-ok : Ok n any (extern_body expression block)
  unfolding extern_body
  extern_body-ok = token-ok _ (λ _. seq (expect-ok _ _) (λ _. match_any-ok _)) (pure-ok _)

  body_behind_colon-ok : (message : String) → Ok n any (body_behind_colon expression block message)
  unfolding body_behind_colon
  body_behind_colon-ok message = seq (expect-ok _ _) (λ _. block-ok)

  either-ok :
      {A : Type 0} (b : Bool) {x y : P A} → Ok n any x → Ok n any y → Ok n any (if b then x else y)
  either-ok true o o' = o
  either-ok false o o' = o'

  pub func_def-ok : (decorators : List Expr) → Ok n any (func_def expression block decorators)
  unfolding func_def
  func_def-ok decorators = seq (expect-ok _ _) (λ name. seq type_params-ok (λ types.
      seq (parse_param_list-ok expression expression-ok) (λ ps. seq return_annotation-ok (λ ret.
        seq (either-ok _ (seq extern_body-ok (λ _. pure-ok _)) (body_behind_colon-ok _))
          (λ body. pure-ok _)))))

  pub init_def-ok : Ok n any (init_def expression block)
  unfolding init_def
  init_def-ok =
      seq (parse_param_list-ok expression expression-ok)
        (λ ps. seq (body_behind_colon-ok _) (λ body. pure-ok _))

  pub class_def-ok : Ok n any (class_def expression block)
  unfolding class_def
  class_def-ok = seq (expect-ok _ _) (λ name. seq type_params-ok (λ types.
      seq base_classes-ok (λ bases.
        seq implemented-ok (λ interfaces. seq (body_behind_colon-ok _) (λ body. pure-ok _)))))

  method_signature-ok :
      (ms : List MethodSignature) → Ok n some_token (method_signature expression block ms)
  unfolding method_signature
  method_signature-ok ms = strict (expect-ok _ _) (λ _. seq (expect-ok _ _) (λ name.
      seq (parse_param_list-ok expression expression-ok) (λ ps.
        seq return_annotation-ok
          (λ ret. seq (match_any-ok _) (λ _. seq skip_newlines-ok (λ _. pure-ok _))))))

  pub interface_def-ok : Ok n any (interface_def expression block)
  unfolding interface_def
  interface_def-ok = seq (expect-ok _ _) (λ name. seq (expect-ok _ _) (λ _.
      seq (expect-ok _ _) (λ _. seq skip_newlines-ok (λ _. seq (expect-ok _ _) (λ _.
        seq skip_newlines-ok (λ _.
          seq (while_test-ok _ method_signature-ok _)
            (λ methods. seq (expect-ok _ _) (λ _. pure-ok _))))))))

import_stmt-ok : {n : ℕ} → Ok n any import_stmt
unfolding import_stmt
import_stmt-ok =
    seq (expect-ok _ _)
      (λ t. seq (matches-ok _ (λ m. seq (expect-ok _ _) (λ t'. pure-ok _)) _) (λ name. pure-ok _))

from_import_stmt-ok : {n : ℕ} → Ok n any from_import_stmt
unfolding from_import_stmt
from_import_stmt-ok =
    seq (expect-ok _ _)
      (λ t. seq (expect-ok _ _) (λ _. seq (identifiers-ok _ _) (λ names. pure-ok _)))

module _ (expression : P Expr) {n : ℕ} (expression-ok : Ok n some_token expression) where
  optional_value-ok : Ok n any (optional_value expression)
  unfolding optional_value
  optional_value-ok = branch-ok _ (pure-ok _) (seq expression-ok (λ e. pure-ok _))

  return_stmt-ok : Ok n any (return_stmt expression)
  unfolding return_stmt
  return_stmt-ok = seq optional_value-ok (λ val. pure-ok _)

  yield_stmt-ok : Ok n any (yield_stmt expression)
  unfolding yield_stmt
  yield_stmt-ok = seq optional_value-ok (λ val. pure-ok _)

  throw_stmt-ok : Ok n any (throw_stmt expression)
  unfolding throw_stmt
  throw_stmt-ok = branch-ok _ (pure-ok _) (seq expression-ok (λ e. pure-ok _))

  assert_stmt-ok : Ok n any (assert_stmt expression)
  unfolding assert_stmt
  assert_stmt-ok = seq expression-ok (λ cond.
      seq (token-ok _ (λ _. seq expression-ok (λ e. pure-ok _)) (pure-ok _)) (λ msg. pure-ok _))

  del_stmt-ok : Ok n any (del_stmt expression)
  unfolding del_stmt
  del_stmt-ok = seq expression-ok (λ e. pure-ok _)

  go_stmt-ok : Ok n any (go_stmt expression)
  unfolding go_stmt
  go_stmt-ok = seq expression-ok (λ e. pure-ok _)

  const_decl-ok : Ok n any (const_decl expression)
  unfolding const_decl
  const_decl-ok = seq (expect-ok _ _) (λ name.
      seq (token-ok _ (λ _. less type_annotation-ok) (pure-ok _))
        (λ ann. seq (expect-ok _ _) (λ _. seq expression-ok (λ value. pure-ok _))))

  assignment-ok : (e : Expr) → Ok n any (assignment expression e)
  unfolding assignment
  assignment-ok e = seq expression-ok (λ value.
      seq (matches-ok _ (λ (extras, v). seq expression-ok (λ e'. pure-ok _)) _)
        (λ chained. pure-ok _))

  assigned-ok : (e : Expr) → Ok n any (assigned expression e)
  unfolding assigned
  assigned-ok e =
      op-ok _ (λ op. seq expression-ok (λ rhs. pure-ok _))
        (token-ok _ (λ _. assignment-ok e) (pure-ok _))

  unpacking-ok : (o : Option Bytes) → Ok n any (unpacking expression o)
  unfolding unpacking
  unpacking-ok none = error-ok _
  unpacking-ok (some name) =
      seq (identifiers-ok _ _)
        (λ names. seq (expect-ok _ _) (λ _. seq expression-ok (λ value. pure-ok _)))

  untyped-ok : (e : Expr) → Ok n any (untyped expression e)
  unfolding untyped
  untyped-ok e = token-ok _ (λ _. unpacking-ok _) (assigned-ok e)

  declared-ok : (e : Expr) (o : Option Bytes) → Ok n any (declared expression e o)
  unfolding declared
  declared-ok e none = untyped-ok e
  declared-ok e (some name) =
      token-ok _
        (λ _.
          seq type_annotation-ok
            (λ ann. token-ok _ (λ _. seq expression-ok (λ value. pure-ok _)) (untyped-ok e)))
        (untyped-ok e)

expression_statement-ok :
    (expression : P Expr) {n : ℕ}
    → Ok (suc n) some_token expression
    → Ok (suc n) some_token (expression_statement expression)
unfolding expression_statement
expression_statement-ok expression o = behind o (λ e.
    token-ok _ (λ _. seq (Ok-mono (omega arith) o) (λ val. pure-ok _))
      (declared-ok expression (Ok-mono (omega arith) o) e _))

module _ (expression pattern : P Expr) (statement : P Stmt) {n : ℕ}
    (expression-ok : Ok (suc n) some_token expression) (pattern-ok : Ok n some_token pattern)
    (statement-ok : Ok n some_token statement) where
  expression-behind : Ok n some_token expression
  expression-behind = Ok-mono (omega arith) expression-ok

  decorator-ok : (ds : List Expr) → Ok n any (decorator expression pattern statement ds)
  unfolding decorator
  decorator-ok ds =
      seq expression-behind (λ e. seq (match_any-ok _) (λ _. seq skip_newlines-ok (λ _. pure-ok _)))

  here-ok : Ok n any (parse_block expression pattern statement)
  here-ok = parse_block-ok expression pattern statement expression-behind pattern-ok statement-ok

  decorated-ok : Ok (suc n) some_token (decorated expression pattern statement)
  unfolding decorated
  decorated-ok = seq (while_match-ok _ decorator-ok _) (λ ds.
      if_token-ok _ (λ _. func_def-ok expression _ expression-behind here-ok ds) (error-ok _))

  plain_statement-ok : Ok (suc n) some_token (plain_statement expression pattern statement)
  unfolding plain_statement
  plain_statement-ok =
      if_token-ok _ (λ _. import_stmt-ok)
        (if_token-ok _ (λ _. from_import_stmt-ok)
          (if_token-ok _ (λ _. pure-ok _)
            (if_token-ok _ (λ _. pure-ok _)
              (if_token-ok _ (λ _. const_decl-ok expression expression-behind)
                (branch-ok _ decorated-ok (
                  if_token-ok _ (λ _. pure-ok _)
                    (expression_statement-ok expression expression-ok)))))))

  keyword_statement-ok : Ok (suc n) some_token (keyword_statement expression pattern statement)
  unfolding keyword_statement
  keyword_statement-ok =
      if_token-ok _
        (λ _. if_stmt-ok expression pattern statement expression-behind pattern-ok statement-ok)
        (if_token-ok _
          (λ _. for_stmt-ok expression pattern statement expression-behind pattern-ok statement-ok)
          (if_token-ok _
            (λ _.
              while_stmt-ok expression pattern statement expression-behind pattern-ok statement-ok)
            (if_token-ok _ (λ _. return_stmt-ok expression expression-behind)
              (if_token-ok _
                (λ _.
                  try_stmt-ok expression pattern statement expression-behind pattern-ok
                    statement-ok)
                (if_token-ok _ (λ _. throw_stmt-ok expression expression-behind)
                  (if_token-ok _ (λ _. assert_stmt-ok expression expression-behind)
                    (if_token-ok _ (λ _. del_stmt-ok expression expression-behind)
                      (if_token-ok _
                        (λ _.
                          with_stmt-ok expression pattern statement expression-behind pattern-ok
                            statement-ok)
                        (if_token-ok _
                          (λ _.
                            match_stmt-ok expression pattern statement expression-behind pattern-ok
                              statement-ok)
                          plain_statement-ok)))))))))

  parse_statement-ok : Ok (suc n) some_token (parse_statement expression pattern statement)
  unfolding parse_statement
  parse_statement-ok = seq skip_newlines-ok (λ _.
      if_token-ok _ (λ _. func_def-ok expression _ expression-behind here-ok [])
        (if_token-ok _ (λ _. init_def-ok expression _ expression-behind here-ok)
          (if_token-ok _ (λ _. class_def-ok expression _ expression-behind here-ok)
            (if_token-ok _ (λ _. interface_def-ok expression _ expression-behind here-ok)
              (if_token-ok _ (λ _. enum_def-ok)
                (if_token-ok _ (λ _. yield_stmt-ok expression expression-behind)
                  (if_token-ok _ (λ _. go_stmt-ok expression expression-behind)
                    keyword_statement-ok)))))))

module _ (expression pattern : P Expr) (expression-ok : (n : ℕ) → Ok n some_token expression)
    (pattern-ok : (n : ℕ) → Ok n some_token pattern) where
  pub statement_at-ok : (f : ℕ) → Ok f some_token (statement_at expression pattern f)
  unfolding statement_at
  statement_at-ok zero = Ok-zero
  statement_at-ok (suc f) = record {
    at = λ s l.
        (parse_statement-ok expression pattern (statement_at expression pattern f)
            (expression-ok (suc f)) (pattern-ok f) (statement_at-ok f)).at
          s l;
  }

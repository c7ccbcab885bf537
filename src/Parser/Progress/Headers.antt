-- ===== src/Parser/Progress/Headers.antt =====
-- The headers of definitions, enums and parameter lists in src/parser.cpp, and the tokens that they
-- consume.
use visuall.Base.{ℕ, Bytes, List, arith, String, Bool}
use visuall.Parser.Progress.{
  Ok, Ok-mono, any, some_token, less, seq, strict, behind, pure-ok, branch-ok, error-ok, P,
}
use visuall.Parser.Progress.Tokens.{if_token-ok, expect-ok, skip_newlines-ok}
use visuall.Parser.Progress.Loops.{token-ok, matches-ok, loop-ok}
use visuall.Parser.Progress.Types.{type_annotation-ok}
use visuall.Parser.Headers.{
  enum_def, base_classes, identifiers, implemented, type_params, type_param, more_bases,
  enum_members, return_annotation, TypeParams,
}
use visuall.Ast.Expr.{Expr}
use visuall.Parser.Params.{more_params, param, named_param, parse_param_list}
use visuall.Ast.Stmt.{Param}

pub identifiers-ok :
    {n : ℕ} (first_message message : String) → Ok n some_token (identifiers first_message message)
unfolding identifiers
identifiers-ok first_message message =
    strict (expect-ok _ _) (λ t. matches-ok _ (λ ns. seq (expect-ok _ _) (λ t'. pure-ok _)) _)

type_param-ok : {n : ℕ} (ps : TypeParams) → Ok n any (type_param ps)
unfolding type_param
type_param-ok (names, bounds) =
    seq (expect-ok _ _) (λ t. token-ok _ (λ _. seq (expect-ok _ _) (λ b. pure-ok _)) (pure-ok _))

pub type_params-ok : {n : ℕ} → Ok n any type_params
unfolding type_params
type_params-ok =
    token-ok _
      (λ _. seq (type_param-ok _) (λ ps.
        seq (matches-ok _ (λ ps'. type_param-ok ps') _)
          (λ ps'. seq (expect-ok _ _) (λ _. pure-ok _))))
      (pure-ok _)

pub return_annotation-ok : {n : ℕ} → Ok n any return_annotation
unfolding return_annotation
return_annotation-ok = token-ok _ (λ _. less type_annotation-ok) (pure-ok _)

enum_members-ok : {n : ℕ} (ms : List Bytes) → Ok n any (enum_members ms)
unfolding enum_members
enum_members-ok = loop-ok _ (λ m l k h ms. branch-ok _ (pure-ok _) (
    seq skip_newlines-ok (λ _.
      branch-ok _ (pure-ok _) (behind (expect-ok _ _) (λ t. seq skip_newlines-ok (λ _. h _))))))

pub enum_def-ok : {n : ℕ} → Ok n any enum_def
unfolding enum_def
enum_def-ok = seq (expect-ok _ _) (λ name. seq (expect-ok _ _) (λ _. seq (expect-ok _ _) (λ _.
    seq (expect-ok _ _)
      (λ _. seq (enum_members-ok _) (λ members. seq (expect-ok _ _) (λ _. pure-ok _))))))

more_bases-ok : {n : ℕ} (bs : List Bytes) → Ok n any (more_bases bs)
unfolding more_bases
more_bases-ok = loop-ok _ (λ m l k h bs.
    if_token-ok _ (λ _. branch-ok _ (pure-ok _) (seq (expect-ok _ _) (λ t. h _))) (pure-ok _))

pub base_classes-ok : {n : ℕ} → Ok n any base_classes
unfolding base_classes
base_classes-ok =
    token-ok _ (λ _. less (identifiers-ok _ _))
      (token-ok _
        (λ _.
          seq (branch-ok _ (pure-ok _) (seq (expect-ok _ _) (λ t. more_bases-ok _)))
            (λ bs. seq (expect-ok _ _) (λ _. pure-ok _)))
        (pure-ok _))

pub implemented-ok : {n : ℕ} → Ok n any implemented
unfolding implemented
implemented-ok = token-ok _ (λ _. less (identifiers-ok _ _)) (pure-ok _)

module _ (expression : P Expr) {n : ℕ} (expression-ok : Ok n some_token expression) where
  named_param-ok : Ok n some_token (named_param expression)
  unfolding named_param
  named_param-ok =
      token-ok _ (λ _. seq (expect-ok _ _) (λ t. pure-ok _))
        (token-ok _ (λ _. seq (expect-ok _ _) (λ t. pure-ok _))
          (strict (expect-ok _ _) (λ t. pure-ok _)))

  param-ok : Ok n some_token (param expression)
  unfolding param
  param-ok = strict named_param-ok (λ p.
      seq (token-ok _ (λ _. less type_annotation-ok) (pure-ok _)) (λ ann.
        seq (token-ok _ (λ _. seq expression-ok (λ e. pure-ok _)) (pure-ok _)) (λ val. pure-ok _)))

  more_params-ok : (ps : List Param × Bool) → Ok n any (more_params expression ps)
  unfolding more_params
  more_params-ok = loop-ok _ (λ m l k h ps.
      if_token-ok _ (λ _. branch-ok _ (pure-ok _) (error-ok _))
        (behind (Ok-mono (omega (arith, l)) param-ok) (λ p. token-ok _ (λ _. h _) (pure-ok _))))

  pub parse_param_list-ok : Ok n any (parse_param_list expression)
  unfolding parse_param_list
  parse_param_list-ok = seq (expect-ok _ _) (λ _.
      seq (branch-ok _ (pure-ok _) (more_params-ok _)) (λ ps. seq (expect-ok _ _) (λ _. pure-ok _)))

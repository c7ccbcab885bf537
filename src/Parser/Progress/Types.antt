-- ===== src/Parser/Progress/Types.antt =====
-- parseTypeAnnotation in src/parser.cpp, and the tokens that it consumes.
use visuall.Base.{ℕ, zero, suc, Bytes, arith, length}
use visuall.Parser.Progress.{Ok, any, some_token, seq, behind, pure-ok, branch-ok, P, TokenType}
use visuall.Parser.Progress.Tokens.{if_token-ok, if_attempt-ok, expect-ok}
use visuall.Parser.Progress.Loops.{token-ok, matches-ok, two-ok, Ok-zero}
use visuall.Parser.Types.{
  type_at, type_annotation, function_type, named_type, parse_type_annotation, union_member,
  generic_arguments, base_name, suffix, type_list,
}

module _ (self : P Bytes) {n : ℕ} (self-ok : Ok n some_token self) where
  type_list-ok : Ok n any (type_list self)
  unfolding type_list
  type_list-ok = seq self-ok (λ t. matches-ok _ (λ r. seq self-ok (λ t'. pure-ok _)) _)

  function_type-ok : Ok n any (function_type self)
  unfolding function_type
  function_type-ok =
      seq (branch-ok _ (pure-ok _) type_list-ok)
        (λ ps. two-ok _ _ (λ _. seq self-ok (λ r. pure-ok _)) (pure-ok _))

  base_name-ok : Ok (suc n) some_token (base_name self)
  unfolding base_name
  base_name-ok = if_token-ok _ (λ _. pure-ok _) (behind (expect-ok _ _) (λ t. pure-ok _))

  generic_arguments-ok : Ok n any (generic_arguments self)
  unfolding generic_arguments
  generic_arguments-ok =
      token-ok _ (λ _. seq type_list-ok (λ ts. seq (expect-ok _ _) (λ _. pure-ok _))) (pure-ok _)

  union_member-ok : Ok n any (union_member self)
  unfolding union_member
  union_member-ok = token-ok _ (λ _. seq self-ok (λ t. pure-ok _)) (pure-ok _)

  suffix-ok : (type : TokenType) (mark : Bytes) → Ok n any (suffix self type mark)
  unfolding suffix
  suffix-ok type mark = token-ok _ (λ _. pure-ok _) (pure-ok _)

  named_type-ok : Ok (suc n) some_token (named_type self)
  unfolding named_type
  named_type-ok = behind base_name-ok (λ base. seq generic_arguments-ok (λ args.
      seq union_member-ok
        (λ other. seq (suffix-ok _ _) (λ nullable. seq (suffix-ok _ _) (λ pointer. pure-ok _)))))

  parse_type_annotation-ok : Ok (suc n) some_token (parse_type_annotation self)
  unfolding parse_type_annotation
  parse_type_annotation-ok =
      if_token-ok _ (λ _. seq self-ok (λ t. pure-ok _))
        (if_attempt-ok _ function_type-ok
          (if_token-ok _ (λ _. seq self-ok (λ t. pure-ok _)) named_type-ok))

type_at-ok : (f : ℕ) → Ok f some_token (type_at f)
unfolding type_at
type_at-ok zero = Ok-zero
type_at-ok (suc f) = record {
  at = λ s l. (parse_type_annotation-ok (type_at f) (type_at-ok f)).at s l;
}

pub type_annotation-ok : {n : ℕ} → Ok n some_token type_annotation
unfolding type_annotation
type_annotation-ok = record { at = λ s l. (type_at-ok (suc (length s.rest))).at s (omega arith) }

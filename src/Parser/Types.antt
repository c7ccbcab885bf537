-- ===== src/Parser/Types.antt =====
-- parseTypeAnnotation of src/parser.cpp: the text of a type, put together from its tokens.
use visuall.Base.{ℕ, zero, suc, [], ◌++◌, none, some, Option, Bytes, codes, length}
use visuall.Lexer.Token.{TokenType}
use visuall.Parser.Monad.{
  P, ◌>>=◌, ◌>>◌, pure, check, expect, if_match, if_two, branch, while_match, if_attempt,
  out_of_fuel,
}

module _ (self : P Bytes) where
  -- Types with commas between them.
  unfoldable pub type_list : P Bytes
  type_list = do
    t ← self
    while_match TokenType.comma (λ r. do t' ← self; pure (r ++ codes "," ++ t')) t

  -- `A, B) -> R`, behind the `(`.
  unfoldable pub function_type : P (Option Bytes)
  function_type = do
    ps ← branch (check TokenType.rparen) (pure []) type_list
    if_two TokenType.rparen TokenType.arrow
        (λ _. do r ← self; pure (some (codes "(" ++ ps ++ codes ")->" ++ r))) (pure none)

  unfoldable pub base_name : P Bytes
  base_name =
      if_match TokenType.null_literal (pure (codes "null"))
        (do t ← expect TokenType.identifier "Expected type name"; pure t.lexeme)

  unfoldable pub generic_arguments : P Bytes
  generic_arguments =
      if_match TokenType.lbracket
        (do
          ts ← type_list
          expect TokenType.rbracket "Expected ']' in type annotation"
          pure (codes "[" ++ ts ++ codes "]"))
        (pure [])

  unfoldable pub union_member : P Bytes
  union_member = if_match TokenType.pipe (do t ← self; pure (codes "|" ++ t)) (pure [])

  -- A text for a token, where it is there.
  unfoldable pub suffix : TokenType → Bytes → P Bytes
  suffix type mark = if_match type (pure mark) (pure [])

  unfoldable pub named_type : P Bytes
  named_type = do
    base ← base_name
    args ← generic_arguments
    other ← union_member
    nullable ← suffix TokenType.question (codes "|null")
    pointer ← suffix TokenType.star (codes "*")
    pure (base ++ args ++ other ++ nullable ++ pointer)

  unfoldable pub parse_type_annotation : P Bytes
  parse_type_annotation =
      if_match TokenType.question (do t ← self; pure (t ++ codes "|null"))
        (if_attempt TokenType.lparen function_type (
          if_match TokenType.kw_chan (do t ← self; pure (codes "chan[" ++ t ++ codes "]"))
            named_type))

-- The knot, on fuel.
unfoldable pub type_at : ℕ → P Bytes
type_at zero s = out_of_fuel
type_at (suc f) s = parse_type_annotation (type_at f) s

unfoldable pub type_annotation : P Bytes
type_annotation s = type_at (suc (length s.rest)) s

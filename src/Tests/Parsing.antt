-- ===== src/Tests/Parsing.antt =====
-- Runs of the parser of src/parser.cpp on concrete texts, and the theorems at concrete inputs.
use visuall.Base.{refl, codes, Bytes, List, [], ◌≢◌, none, arith, ◌∷◌, some, ◌≡◌}
use visuall.Ast.Expr.{Expr, exprs, BinOp}
use visuall.Lexer.Tokenize.{tokenize, Outcome, returned}
use visuall.Lexer.Cursor
use visuall.Lexer.Cursor.{first, step_over}
use visuall.Lexer.Token.{Token, TokenType}
use visuall.Parser.Monad.{
  State, Reply, fault, is_type, current_in, P, ok, ◌>>=◌, pure, if_token, if_two, if_op, loop,
  loop_on, and_then, check, advance, advance_in, next_in, ParseError, text,
}
use visuall.Parser.Expressions.{
  Stod, converted, expression_entry, chain, Entry, left_assoc, more_operands, if_comparison,
  if_generic_call, generic_call, generic_names, null_coalesce_ops, or_ops, and_ops, bit_or_ops,
  bit_xor_ops, bit_and_ops, shift_ops, comparison_ops, add_sub_ops, mul_div_ops,
}
use visuall.Parser.Levels.{
  parse_at, parse_ternary, parse_null_coalesce, parse_or, parse_and, parse_not, parse_bit_or,
  parse_bit_xor, parse_bit_and, parse_shift, parse_comparison, comparisons, one_comparison,
  parse_add_sub, parse_mul_div, parse_unary, parse_power,
}
use visuall.Parser.Program.{parse, unfinished, parse_statement_here, rounds}
use visuall.Parser.Progress.{Good, some_token}
use visuall.Parser.Ends.{parse_ends, parse_at-Good, parse_statement-Good}
use visuall.Ast.Clone.{clone_expr}
use visuall.Ast.Copies.{
  Plain, plain_index_expr, clone_expr-same, plain_call_expr, plain_identifier, plain_more_exprs,
  plain_int_literal, plain_no_exprs,
}
use visuall.Parser.Chains.{all_of, links, chain-conjunction, no_operand, later_operand}
use visuall.Parser.Returns.{parse_ternary-plain}
use visuall.Parser.AtEnd.{bare_statement-at_end, unexpected, before, behind}
use visuall.Ast.Stmt.{Stmt}
use visuall.Parser.Primary.{parse_postfix, parse_primary, more_postfix}
use visuall.Parser.Recovery.{Thrown, rounds-Thrown}

abbrev tokens_of : Outcome → List Token
tokens_of (returned ts es) = ts
tokens_of _ = []

-- Every float fits, and no text inside an f-string can be parsed.
abbrev any_float : Bytes → Stod
any_float cs = converted

abbrev no_embedded : Bytes → Reply Expr
no_embedded cs = fault

-- A recovery behind an error, and a block.
abbrev source : Bytes
source = codes "x = )\nif a < b:\n\treturn\n"

abbrev at_start : State
at_start = record { previous = none; rest = tokens_of (tokenize source) }

parse_ends_example : parse any_float no_embedded (tokens_of (tokenize source)) ≢ unfinished
parse_ends_example =
    parse_ends any_float no_embedded (λ t. ground arith) (tokens_of (tokenize source))

parse_statement-Good_example :
    Good some_token at_start (parse_statement_here any_float no_embedded at_start)
parse_statement-Good_example =
    parse_statement-Good any_float no_embedded (λ t. ground arith) at_start

-- `1 + x`.
abbrev sum_tokens : List Token
sum_tokens =
    record { type = TokenType.int_literal; lexeme = codes "1"; line = 1; column = 1 }
    ∷ record { type = TokenType.plus; lexeme = codes "+"; line = 1; column = 3 }
    ∷ record { type = TokenType.identifier; lexeme = codes "x"; line = 1; column = 5 }
    ∷ record { type = TokenType.end_of_file; lexeme = []; line = 1; column = 6 }
    ∷ []

abbrev at_sum : State
at_sum = record { previous = none; rest = sum_tokens }

parse_at-Good_example :
    Good some_token at_sum (parse_at any_float no_embedded 5 expression_entry at_sum)
parse_at-Good_example =
    parse_at-Good any_float no_embedded (λ t. ground arith) 5 expression_entry at_sum (omega arith)

-- `f(1)[x]`.
abbrev called : Expr
called =
    Expr.index_expr
      (Expr.call_expr (Expr.identifier (codes "f")) (exprs (Expr.int_literal 1 ∷ [])) [])
      (Expr.identifier (codes "x"))

called-Plain : Plain called
unfolding exprs
called-Plain =
    plain_index_expr _ _
      (plain_call_expr _ _ (plain_identifier _)
        (plain_more_exprs _ _ (plain_int_literal _) plain_no_exprs))
      (plain_identifier _)

clone_expr-same_example : clone_expr called ≡ called
clone_expr-same_example = clone_expr-same called called-Plain

-- `0 < f(1)[x] <= y`.
chain-conjunction_example :
    chain (Expr.int_literal 0) ((BinOp.lt, called) ∷ (BinOp.lte, Expr.identifier (codes "y")) ∷ [])
    ≡ all_of
        (Expr.binary_expr BinOp.lt (Expr.int_literal 0) called)
        (links called ((BinOp.lte, Expr.identifier (codes "y")) ∷ []))
chain-conjunction_example =
    chain-conjunction (Expr.int_literal 0) BinOp.lt called
      ((BinOp.lte, Expr.identifier (codes "y")) ∷ [])
      (later_operand _ _ called-Plain (later_operand _ _ (plain_identifier _) no_operand))

-- `x`, with no more behind it.
abbrev name_token : Token
name_token = record { type = TokenType.identifier; lexeme = codes "x"; line = 1; column = 1 }

abbrev last_token : Token
last_token = record { type = TokenType.end_of_file; lexeme = []; line = 1; column = 2 }

abbrev at_name : State
at_name = record { previous = none; rest = name_token ∷ last_token ∷ [] }

abbrev behind_name : State
behind_name = record { previous = some name_token; rest = last_token ∷ [] }

abbrev no_self : Entry → P Expr
no_self e s = fault

parse_name :
    parse_ternary any_float no_embedded no_self at_name
    ≡ ok (Expr.identifier (codes "x")) behind_name
unfolding parse_ternary parse_null_coalesce left_assoc more_operands parse_or parse_and parse_not
    parse_bit_or parse_bit_xor parse_bit_and parse_shift parse_comparison comparisons one_comparison
    if_comparison chain parse_add_sub parse_mul_div parse_unary parse_power parse_postfix
    parse_primary more_postfix if_token if_two if_op if_generic_call generic_call generic_names loop
    loop_on pure ◌>>=◌ and_then check advance advance_in current_in next_in is_type
    null_coalesce_ops or_ops and_ops bit_or_ops bit_xor_ops bit_and_ops shift_ops comparison_ops
    add_sub_ops mul_div_ops
parse_name = refl

parse_ternary-plain_example :
    parse_null_coalesce any_float no_embedded no_self at_name
    ≡ ok (Expr.identifier (codes "x")) behind_name
parse_ternary-plain_example =
    parse_ternary-plain any_float no_embedded no_self at_name (Expr.identifier (codes "x"))
      behind_name parse_name

abbrev return_token : Token
return_token = record { type = TokenType.kw_return; lexeme = codes "return"; line = 1; column = 1 }

abbrev end_behind_return : Token
end_behind_return = record { type = TokenType.end_of_file; lexeme = []; line = 1; column = 7 }

-- The tokens of a file that is a bare `return` without a line break.
tokenize-bare_return : tokens_of (tokenize (codes "return")) ≡ return_token ∷ end_behind_return ∷ []
unfolding tokenize first Cursor.advance_in step_over
tokenize-bare_return = refl

bare_statement-at_end_example :
    (parse_statement_here any_float no_embedded
        (before TokenType.kw_return return_token none (end_behind_return ∷ []))
      ≡ unexpected (behind TokenType.kw_return return_token (end_behind_return ∷ [])))
    × (parse_statement_here any_float no_embedded
          (before TokenType.kw_yield return_token none (end_behind_return ∷ []))
        ≡ unexpected (behind TokenType.kw_yield return_token (end_behind_return ∷ [])))
    × (parse_statement_here any_float no_embedded
          (before TokenType.kw_throw return_token none (end_behind_return ∷ []))
        ≡ ok
            (Stmt.throw_stmt none)
            (behind TokenType.kw_throw return_token (end_behind_return ∷ [])))
unfolding is_type current_in
bare_statement-at_end_example =
    bare_statement-at_end any_float no_embedded return_token none (end_behind_return ∷ []) refl

abbrev recorded : ParseError
recorded = record { message = text "Expected ':' after else"; line = 1; column = 5 }

rounds-Thrown_example :
    Thrown recorded
      (rounds (parse_statement_here any_float no_embedded) 6 [] (recorded ∷ []) at_sum)
rounds-Thrown_example =
    rounds-Thrown (parse_statement_here any_float no_embedded) 6 [] recorded [] at_sum

-- ===== src/Parser/Chains.antt =====
-- The chained comparisons of parseComparison in src/parser.cpp beside their reading as a
-- conjunction: `a < b <= c` is `a < b and b <= c`.
use visuall.Base.{refl, ◌≡◌, List, [], ◌∷◌}
use visuall.Ast.Expr.{Expr, BinOp}
use visuall.Ast.Copies.{Plain, clone_expr-same}
use visuall.Parser.Expressions.{chain, chain_from}

pub data PlainOperands : List (BinOp × Expr) → Type 0 where
  no_operand : PlainOperands []
  later_operand :
      (op : BinOp) (e : Expr) {ops : List (BinOp × Expr)}
      → Plain e
      → PlainOperands ops
      → PlainOperands ((op, e) ∷ ops)

-- Each operand compared with the one before it.
abbrev pub links : Expr → List (BinOp × Expr) → List Expr
links left [] = []
links left ((op, right) ∷ ops) = Expr.binary_expr op left right ∷ links right ops

abbrev pub all_of : Expr → List Expr → Expr
all_of e [] = e
all_of e (c ∷ cs) = all_of (Expr.binary_expr BinOp.and_op e c) cs

chain_from-links :
    (result left : Expr) (ops : List (BinOp × Expr))
    → PlainOperands ops
    → chain_from result left ops ≡ all_of result (links left ops)
unfolding chain_from
chain_from-links result left [] h = refl
chain_from-links result left ((op, right) ∷ []) h = refl
chain_from-links result left ((op, right) ∷ next ∷ rest) (later_operand _ _ p h) =
    rw (clone_expr-same right p) (chain_from-links _ right (next ∷ rest) h)

-- Where the operands behind the first have no f-strings, type arguments of calls and captures of
-- lambdas, a chain of comparisons is the conjunction, to the left, of the comparisons of each
-- operand with the one before it.
pub chain-conjunction :
    (first : Expr) (op : BinOp) (right : Expr) (ops : List (BinOp × Expr))
    → PlainOperands ((op, right) ∷ ops)
    → chain first ((op, right) ∷ ops) ≡ all_of (Expr.binary_expr op first right) (links right ops)
unfolding chain
chain-conjunction first op right [] h = refl
chain-conjunction first op right (next ∷ rest) (later_operand _ _ p h) =
    rw (clone_expr-same right p) (chain_from-links _ right (next ∷ rest) h)

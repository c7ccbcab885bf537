-- ===== src/Ast/Clone.antt =====
-- cloneExpr of src/parser.cpp.
use visuall.Base.{[]}
use visuall.Ast.Expr.{
  Expr, Exprs, OptExpr, Entries, int_literal, float_literal, string_literal, fstring_literal,
  fstring_expr, bool_literal, null_literal, identifier, this_expr, super_expr, binary_expr,
  unary_expr, call_expr, member_expr, index_expr, lambda_expr, list_expr, dict_expr, tuple_expr,
  ternary_expr, slice_expr, list_comprehension, dict_comprehension, spread_expr, dict_spread_expr,
  walrus_expr, go_expr, chan_recv_expr, no_exprs, more_exprs, absent, present, no_entries,
  more_entries,
}

-- A call loses its type arguments and a lambda its captures; an f-string is no case of the code, so
-- that its copy is the NullLiteral of the fallback.
unfoldable mutual
  pub clone_expr : Expr → Expr
  clone_expr (int_literal v) = int_literal v
  clone_expr (float_literal v) = float_literal v
  clone_expr (string_literal v) = string_literal v
  clone_expr (fstring_literal raw) = fstring_literal raw
  clone_expr (bool_literal v) = bool_literal v
  clone_expr null_literal = null_literal
  clone_expr (identifier n) = identifier n
  clone_expr this_expr = this_expr
  clone_expr super_expr = super_expr
  clone_expr (binary_expr op l r) = binary_expr op (clone_expr l) (clone_expr r)
  clone_expr (unary_expr op e) = unary_expr op (clone_expr e)
  clone_expr (call_expr f args types) = call_expr (clone_expr f) (clone_exprs args) []
  clone_expr (member_expr o m) = member_expr (clone_expr o) m
  clone_expr (index_expr o i) = index_expr (clone_expr o) (clone_expr i)
  clone_expr (list_expr es) = list_expr (clone_exprs es)
  clone_expr (dict_expr es) = dict_expr (clone_entries es)
  clone_expr (tuple_expr es) = tuple_expr (clone_exprs es)
  clone_expr (ternary_expr c t e) = ternary_expr (clone_expr c) (clone_expr t) (clone_expr e)
  clone_expr (lambda_expr ps b cs) = lambda_expr ps (clone_expr b) []
  clone_expr (slice_expr o start stop step) =
      slice_expr (clone_expr o) (clone_opt start) (clone_opt stop) (clone_opt step)
  clone_expr (list_comprehension b v i c) =
      list_comprehension (clone_expr b) v (clone_expr i) (clone_opt c)
  clone_expr (dict_comprehension k e v i c) =
      dict_comprehension (clone_expr k) (clone_expr e) v (clone_expr i) (clone_opt c)
  clone_expr (spread_expr e) = spread_expr (clone_expr e)
  clone_expr (dict_spread_expr e) = dict_spread_expr (clone_expr e)
  clone_expr (walrus_expr t e) = walrus_expr t (clone_expr e)
  clone_expr (go_expr f args) = go_expr (clone_expr f) (clone_exprs args)
  clone_expr (chan_recv_expr e) = chan_recv_expr (clone_expr e)
  clone_expr (fstring_expr parts) = null_literal

  pub clone_exprs : Exprs → Exprs
  clone_exprs no_exprs = no_exprs
  clone_exprs (more_exprs e es) = more_exprs (clone_expr e) (clone_exprs es)

  pub clone_opt : OptExpr → OptExpr
  clone_opt absent = absent
  clone_opt (present e) = present (clone_expr e)

  pub clone_entries : Entries → Entries
  clone_entries no_entries = no_entries
  clone_entries (more_entries k v es) =
      more_entries (clone_expr k) (clone_expr v) (clone_entries es)

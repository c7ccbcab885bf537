-- ===== src/Ast/Copies.antt =====
-- What cloneExpr of src/parser.cpp keeps of an expression.
use visuall.Base.{refl, ◌≡◌, [], List, ℕ, Bytes, Bool}
use visuall.Ast.Expr.{
  Expr, Exprs, OptExpr, Entries, int_literal, float_literal, string_literal, fstring_literal,
  bool_literal, null_literal, identifier, this_expr, super_expr, binary_expr, unary_expr, call_expr,
  member_expr, index_expr, lambda_expr, list_expr, dict_expr, tuple_expr, ternary_expr, slice_expr,
  list_comprehension, dict_comprehension, spread_expr, dict_spread_expr, walrus_expr, go_expr,
  chan_recv_expr, no_exprs, more_exprs, absent, present, no_entries, more_entries, BinOp, UnaryOp,
}
use visuall.Ast.Clone.{clone_expr, clone_exprs, clone_opt, clone_entries}

-- An expression without f-strings, without type arguments of calls and without captures of lambdas.
mutual
  pub data Plain : Expr → Type 0 where
    plain_int_literal : (a : ℕ) → Plain (int_literal a)
    plain_float_literal : (a : Bytes) → Plain (float_literal a)
    plain_string_literal : (a : Bytes) → Plain (string_literal a)
    plain_fstring_literal : (a : Bytes) → Plain (fstring_literal a)
    plain_bool_literal : (a : Bool) → Plain (bool_literal a)
    plain_null_literal : Plain null_literal
    plain_identifier : (a : Bytes) → Plain (identifier a)
    plain_this_expr : Plain this_expr
    plain_super_expr : Plain super_expr
    plain_binary_expr :
        (a : BinOp) (b : Expr) (c : Expr) → Plain b → Plain c → Plain (binary_expr a b c)
    plain_unary_expr : (a : UnaryOp) (b : Expr) → Plain b → Plain (unary_expr a b)
    plain_call_expr : (a : Expr) (b : Exprs) → Plain a → PlainList b → Plain (call_expr a b [])
    plain_member_expr : (a : Expr) (b : Bytes) → Plain a → Plain (member_expr a b)
    plain_index_expr : (a : Expr) (b : Expr) → Plain a → Plain b → Plain (index_expr a b)
    plain_lambda_expr : (a : List Bytes) (b : Expr) → Plain b → Plain (lambda_expr a b [])
    plain_list_expr : (a : Exprs) → PlainList a → Plain (list_expr a)
    plain_dict_expr : (a : Entries) → PlainEntries a → Plain (dict_expr a)
    plain_tuple_expr : (a : Exprs) → PlainList a → Plain (tuple_expr a)
    plain_ternary_expr :
        (a : Expr) (b : Expr) (c : Expr) → Plain a → Plain b → Plain c → Plain (ternary_expr a b c)
    plain_slice_expr :
        (a : Expr) (b : OptExpr) (c : OptExpr) (d : OptExpr)
        → Plain a
        → PlainOption b
        → PlainOption c
        → PlainOption d
        → Plain (slice_expr a b c d)
    plain_list_comprehension :
        (a : Expr) (b : Bytes) (c : Expr) (d : OptExpr)
        → Plain a
        → Plain c
        → PlainOption d
        → Plain (list_comprehension a b c d)
    plain_dict_comprehension :
        (a : Expr) (b : Expr) (c : Bytes) (d : Expr) (e : OptExpr)
        → Plain a
        → Plain b
        → Plain d
        → PlainOption e
        → Plain (dict_comprehension a b c d e)
    plain_spread_expr : (a : Expr) → Plain a → Plain (spread_expr a)
    plain_dict_spread_expr : (a : Expr) → Plain a → Plain (dict_spread_expr a)
    plain_walrus_expr : (a : Bytes) (b : Expr) → Plain b → Plain (walrus_expr a b)
    plain_go_expr : (a : Expr) (b : Exprs) → Plain a → PlainList b → Plain (go_expr a b)
    plain_chan_recv_expr : (a : Expr) → Plain a → Plain (chan_recv_expr a)

  pub data PlainList : Exprs → Type 0 where
    plain_no_exprs : PlainList no_exprs
    plain_more_exprs : (a : Expr) (b : Exprs) → Plain a → PlainList b → PlainList (more_exprs a b)

  pub data PlainOption : OptExpr → Type 0 where
    plain_absent : PlainOption absent
    plain_present : (a : Expr) → Plain a → PlainOption (present a)

  pub data PlainEntries : Entries → Type 0 where
    plain_no_entries : PlainEntries no_entries
    plain_more_entries :
        (a : Expr) (b : Expr) (c : Entries)
        → Plain a
        → Plain b
        → PlainEntries c
        → PlainEntries (more_entries a b c)

mutual
  unfolding clone_expr

  pub clone_expr-Plain : {e : Expr} → Plain e → clone_expr e ≡ e
  clone_expr-Plain (plain_int_literal a) = refl
  clone_expr-Plain (plain_float_literal a) = refl
  clone_expr-Plain (plain_string_literal a) = refl
  clone_expr-Plain (plain_fstring_literal a) = refl
  clone_expr-Plain (plain_bool_literal a) = refl
  clone_expr-Plain plain_null_literal = refl
  clone_expr-Plain (plain_identifier a) = refl
  clone_expr-Plain plain_this_expr = refl
  clone_expr-Plain plain_super_expr = refl
  clone_expr-Plain (plain_binary_expr a b c hb hc) =
      let eb = clone_expr-Plain hb in let ec = clone_expr-Plain hc in cc
  clone_expr-Plain (plain_unary_expr a b hb) = let eb = clone_expr-Plain hb in cc
  clone_expr-Plain (plain_call_expr a b ha hb) =
      let ea = clone_expr-Plain ha in let eb = clone_exprs-Plain hb in cc
  clone_expr-Plain (plain_member_expr a b ha) = let ea = clone_expr-Plain ha in cc
  clone_expr-Plain (plain_index_expr a b ha hb) =
      let ea = clone_expr-Plain ha in let eb = clone_expr-Plain hb in cc
  clone_expr-Plain (plain_lambda_expr a b hb) = let eb = clone_expr-Plain hb in cc
  clone_expr-Plain (plain_list_expr a ha) = let ea = clone_exprs-Plain ha in cc
  clone_expr-Plain (plain_dict_expr a ha) = let ea = clone_entries-Plain ha in cc
  clone_expr-Plain (plain_tuple_expr a ha) = let ea = clone_exprs-Plain ha in cc
  clone_expr-Plain (plain_ternary_expr a b c ha hb hc) =
      let ea = clone_expr-Plain ha in
      let eb = clone_expr-Plain hb in let ec = clone_expr-Plain hc in cc
  clone_expr-Plain (plain_slice_expr a b c d ha hb hc hd) =
      let ea = clone_expr-Plain ha in
      let eb = clone_opt-Plain hb in
      let ec = clone_opt-Plain hc in let ed = clone_opt-Plain hd in cc
  clone_expr-Plain (plain_list_comprehension a b c d ha hc hd) =
      let ea = clone_expr-Plain ha in
      let ec = clone_expr-Plain hc in let ed = clone_opt-Plain hd in cc
  clone_expr-Plain (plain_dict_comprehension a b c d e ha hb hd he) =
      let ea = clone_expr-Plain ha in
      let eb = clone_expr-Plain hb in
      let ed = clone_expr-Plain hd in let ee = clone_opt-Plain he in cc
  clone_expr-Plain (plain_spread_expr a ha) = let ea = clone_expr-Plain ha in cc
  clone_expr-Plain (plain_dict_spread_expr a ha) = let ea = clone_expr-Plain ha in cc
  clone_expr-Plain (plain_walrus_expr a b hb) = let eb = clone_expr-Plain hb in cc
  clone_expr-Plain (plain_go_expr a b ha hb) =
      let ea = clone_expr-Plain ha in let eb = clone_exprs-Plain hb in cc
  clone_expr-Plain (plain_chan_recv_expr a ha) = let ea = clone_expr-Plain ha in cc

  pub clone_exprs-Plain : {es : Exprs} → PlainList es → clone_exprs es ≡ es
  clone_exprs-Plain plain_no_exprs = refl
  clone_exprs-Plain (plain_more_exprs a b ha hb) =
      let ea = clone_expr-Plain ha in let eb = clone_exprs-Plain hb in cc

  pub clone_opt-Plain : {o : OptExpr} → PlainOption o → clone_opt o ≡ o
  clone_opt-Plain plain_absent = refl
  clone_opt-Plain (plain_present a ha) = let ea = clone_expr-Plain ha in cc

  pub clone_entries-Plain : {es : Entries} → PlainEntries es → clone_entries es ≡ es
  clone_entries-Plain plain_no_entries = refl
  clone_entries-Plain (plain_more_entries a b c ha hb hc) =
      let ea = clone_expr-Plain ha in
      let eb = clone_expr-Plain hb in let ec = clone_entries-Plain hc in cc

-- The copy of an expression without f-strings, type arguments of calls and captures of lambdas is
-- the expression itself.
pub clone_expr-same : (e : Expr) → Plain e → clone_expr e ≡ e
clone_expr-same e h = clone_expr-Plain h

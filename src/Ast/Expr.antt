-- ===== src/Ast/Expr.antt =====
-- The expressions of include/ast.h. Positions of nodes are left out. A number is its value, and a
-- float is the text of its literal. A pointer that may be null is an OptExpr.
use visuall.Base.{ℕ, Bool, List, [], ◌∷◌, Option, none, some, Bytes}

pub data BinOp : Type 0 where
  add sub mul div int_div mod_op pow eq neq lt gt lte gte and_op or_op in_op not_in : BinOp
  bit_and bit_or bit_xor shl shr null_coalesce : BinOp

pub data UnaryOp : Type 0 where
  neg not_op bit_not : UnaryOp

pub record CaptureInfo : Type 0 where
  pub name : Bytes
  pub by_reference : Bool

mutual
  pub data Expr : Type 0 where
    int_literal : ℕ → Expr
    float_literal : Bytes → Expr
    string_literal : Bytes → Expr
    fstring_literal : Bytes → Expr
    fstring_expr : FStringParts → Expr
    bool_literal : Bool → Expr
    null_literal : Expr
    identifier : Bytes → Expr
    this_expr : Expr
    super_expr : Expr
    binary_expr : BinOp → Expr → Expr → Expr
    unary_expr : UnaryOp → Expr → Expr
    call_expr : Expr → Exprs → List Bytes → Expr
    member_expr : Expr → Bytes → Expr
    index_expr : Expr → Expr → Expr
    lambda_expr : List Bytes → Expr → List CaptureInfo → Expr
    list_expr : Exprs → Expr
    dict_expr : Entries → Expr
    tuple_expr : Exprs → Expr
    ternary_expr : Expr → Expr → Expr → Expr
    slice_expr : Expr → OptExpr → OptExpr → OptExpr → Expr
    list_comprehension : Expr → Bytes → Expr → OptExpr → Expr
    dict_comprehension : Expr → Expr → Bytes → Expr → OptExpr → Expr
    spread_expr : Expr → Expr
    dict_spread_expr : Expr → Expr
    walrus_expr : Bytes → Expr → Expr
    go_expr : Expr → Exprs → Expr
    chan_recv_expr : Expr → Expr

  pub data Exprs : Type 0 where
    no_exprs : Exprs
    more_exprs : Expr → Exprs → Exprs

  pub data OptExpr : Type 0 where
    absent : OptExpr
    present : Expr → OptExpr

  pub data Entries : Type 0 where
    no_entries : Entries
    more_entries : Expr → Expr → Entries → Entries

  pub data FStringParts : Type 0 where
    no_parts : FStringParts
    literal_part : Bytes → FStringParts → FStringParts
    expr_part : Expr → FStringParts → FStringParts

-- A vector that the program fills, as the list inside a node.
unfoldable pub exprs : List Expr → Exprs
exprs [] = no_exprs
exprs (e ∷ es) = more_exprs e (exprs es)

unfoldable pub entries : List (Expr × Expr) → Entries
entries [] = no_entries
entries ((k, v) ∷ es) = more_entries k v (entries es)

unfoldable pub opt_expr : Option Expr → OptExpr
opt_expr none = absent
opt_expr (some e) = present e

-- ===== src/Ast/Stmt.antt =====
-- The statements of include/ast.h. Positions of nodes are left out. An empty list stands for a
-- branch that is not there, and an empty text for a name or a type that is not there.
use visuall.Base.{Bool, List, [], ◌∷◌, Option, Bytes}
use visuall.Ast.Expr.{Expr}

pub record Param : Type 0 where
  pub name : Bytes
  pub type_annotation : Bytes
  pub default_value : Option Expr
  pub is_variadic : Bool
  pub is_kwargs : Bool

pub record FuncHeader : Type 0 where
  pub name : Bytes
  pub type_params : List Bytes
  pub type_param_bounds : List (Bytes × Bytes)
  pub params : List Param
  pub return_type : Bytes
  pub decorators : List Expr
  pub is_extern : Bool
  pub extern_lib_name : Bytes
  pub is_variadic_c_func : Bool

pub record ClassHeader : Type 0 where
  pub name : Bytes
  pub base_class : Option Bytes
  pub extra_bases : List Bytes
  pub interfaces : List Bytes
  pub type_params : List Bytes
  pub type_param_bounds : List (Bytes × Bytes)

pub record MethodSignature : Type 0 where
  pub name : Bytes
  pub params : List Param
  pub return_type : Bytes

mutual
  pub data Stmt : Type 0 where
    expr_stmt : Expr → Stmt
    assign_stmt : Expr → Expr → List Expr → Bytes → Stmt
    const_stmt : Bytes → Expr → Bytes → Stmt
    tuple_unpack_stmt : List Bytes → Expr → Stmt
    return_stmt : Option Expr → Stmt
    break_stmt : Stmt
    continue_stmt : Stmt
    pass_stmt : Stmt
    chan_send_stmt : Expr → Expr → Stmt
    func_def : FuncHeader → Stmts → Stmt
    class_def : ClassHeader → Stmts → Stmt
    init_def : List Param → Stmts → Stmt
    enum_def : Bytes → List Bytes → Stmt
    if_stmt : Expr → Stmts → Branches → Stmts → Stmt
    for_stmt : Bytes → List Bytes → Expr → Stmts → Stmts → Stmt
    while_stmt : Expr → Stmts → Stmts → Stmt
    throw_stmt : Option Expr → Stmt
    yield_stmt : Option Expr → Stmt
    assert_stmt : Expr → Option Expr → Stmt
    del_stmt : Expr → Stmt
    with_stmt : Expr → Bytes → Stmts → Stmt
    try_stmt : Stmts → Catches → Stmts → Stmt
    import_stmt : Bytes → Stmt
    from_import_stmt : Bytes → List Bytes → Stmt
    match_stmt : Expr → Cases → Stmt
    interface_def : Bytes → List MethodSignature → Stmt

  pub data Stmts : Type 0 where
    no_stmts : Stmts
    more_stmts : Stmt → Stmts → Stmts

  -- The `elsif` branches.
  pub data Branches : Type 0 where
    no_branches : Branches
    more_branches : Expr → Stmts → Branches → Branches

  -- Each with the type of the exception and the variable.
  pub data Catches : Type 0 where
    no_catches : Catches
    more_catches : Bytes → Bytes → Stmts → Catches → Catches

  -- Each with the pattern, which the wildcard does not have, and the guard.
  pub data Cases : Type 0 where
    no_cases : Cases
    more_cases : Option Expr → Option Expr → Stmts → Cases → Cases

unfoldable pub stmts : List Stmt → Stmts
stmts [] = no_stmts
stmts (s ∷ ss) = more_stmts s (stmts ss)

unfoldable pub branches : List (Expr × Stmts) → Branches
branches [] = no_branches
branches ((e, b) ∷ bs) = more_branches e b (branches bs)

unfoldable pub catches : List (Bytes × Bytes × Stmts) → Catches
catches [] = no_catches
catches ((t, v, b) ∷ cs) = more_catches t v b (catches cs)

unfoldable pub cases : List (Option Expr × Option Expr × Stmts) → Cases
cases [] = no_cases
cases ((p, g, b) ∷ cs) = more_cases p g b (cases cs)

-- ===== src/Parser/Headers.antt =====
-- What stands in the headers of the definitions of src/parser.cpp, and the enums.
use visuall.Base.{
  [], ◌∷◌, ◌++◌, List, Bool, Bytes, Option, none, some, codes, if◌then◌else◌, ◌||◌, String, true,
}
use visuall.Ast.Expr.{Expr, identifier, call_expr, string_literal, more_exprs, no_exprs}
use visuall.Ast.Stmt.{Stmt}
use visuall.Lexer.Token.{TokenType, bytes_eq}
use visuall.Parser.Monad.{
  P, ◌>>=◌, ◌>>◌, pure, check, expect, if_match, branch, while_match, loop, skip_newlines,
}
use visuall.Parser.Types.{type_annotation}

-- Identifiers with commas between them; the first has a message of its own.
unfoldable pub identifiers : String → String → P (List Bytes)
identifiers first_message message = do
  t ← expect TokenType.identifier first_message
  while_match TokenType.comma
      (λ ns. do t' ← expect TokenType.identifier message; pure (ns ++ (t'.lexeme ∷ [])))
      (t.lexeme ∷ [])

-- `bounds[name] = bound`.
unfoldable pub set_bound : Bytes → Bytes → List (Bytes × Bytes) → List (Bytes × Bytes)
set_bound name bound [] = (name, bound) ∷ []
set_bound name bound ((n, b) ∷ bs) =
    if bytes_eq name n then (name, bound) ∷ bs else (n, b) ∷ set_bound name bound bs

abbrev pub TypeParams : Type 0
TypeParams = List Bytes × List (Bytes × Bytes)

unfoldable pub type_param : TypeParams → P TypeParams
type_param (names, bounds) = do
  t ← expect TokenType.identifier "Expected type parameter"
  if_match TokenType.colon
      (do
        b ← expect TokenType.identifier "Expected bound type"
        pure (names ++ (t.lexeme ∷ []), set_bound t.lexeme b.lexeme bounds))
      (pure (names ++ (t.lexeme ∷ []), bounds))

unfoldable pub type_params : P TypeParams
type_params =
    if_match TokenType.lt
      (do
        ps ← type_param ([], [])
        ps' ← while_match TokenType.comma type_param ps
        expect TokenType.gt "Expected '>' after type parameters"
        pure ps')
      (pure ([], []))

-- `-> type`, where it is there.
unfoldable pub return_annotation : P Bytes
return_annotation = if_match TokenType.arrow type_annotation (pure [])

-- What the decorators say of a function in C, and of its library.
unfoldable pub extern_of : List Expr → Bool × Bytes → Bool × Bytes
extern_of [] found = found
extern_of (identifier n ∷ ds) (is_extern, lib) =
    extern_of ds (if bytes_eq n (codes "extern") then (true, lib) else (is_extern, lib))
extern_of (call_expr (identifier n) (more_exprs (string_literal v) no_exprs) _ ∷ ds)
      (is_extern, lib) =
    extern_of ds (if bytes_eq n (codes "extern") then (true, v) else (is_extern, lib))
extern_of (_ ∷ ds) found = extern_of ds found

unfoldable pub enum_members : List Bytes → P (List Bytes)
enum_members = loop (λ again ms.
    branch (λ s. check TokenType.dedent s || check TokenType.end_of_file s) (pure ms)
      (do
        skip_newlines
        branch (λ s. check TokenType.dedent s || check TokenType.end_of_file s) (pure ms)
            (do
              t ← expect TokenType.identifier "Expected enum member name"
              skip_newlines
              again (ms ++ (t.lexeme ∷ [])))))

-- Behind `enum`.
unfoldable pub enum_def : P Stmt
enum_def = do
  name ← expect TokenType.identifier "Expected enum name"
  expect TokenType.colon "Expected ':' after enum name"
  expect TokenType.newline "Expected newline after ':'"
  expect TokenType.indent "Expected indented block for enum body"
  members ← enum_members []
  expect TokenType.dedent "Expected dedent after enum body"
  pure (Stmt.enum_def name.lexeme members)

-- The base classes of a class, the first apart.
unfoldable pub more_bases : List Bytes → P (List Bytes)
more_bases = loop (λ again bs.
    if_match TokenType.comma
      (branch (check TokenType.rparen) (pure bs) (do
        t ← expect TokenType.identifier "Expected base class name"
        again (bs ++ (t.lexeme ∷ []))))
      (pure bs))

unfoldable pub base_of : List Bytes → Option Bytes × List Bytes
base_of [] = (none, [])
base_of (b ∷ bs) = (some b, bs)

unfoldable pub base_classes : P (List Bytes)
base_classes =
    if_match TokenType.kw_extends
      (identifiers "Expected base class name" "Expected base class name")
      (if_match TokenType.lparen
        (do
          bs ← branch (check TokenType.rparen) (pure []) (do
            t ← expect TokenType.identifier "Expected base class name"
            more_bases (t.lexeme ∷ []))
          expect TokenType.rparen "Expected ')' after base classes"
          pure bs)
        (pure []))

unfoldable pub implemented : P (List Bytes)
implemented =
    if_match TokenType.kw_implements
      (identifiers "Expected interface name" "Expected interface name") (pure [])

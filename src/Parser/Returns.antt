-- ===== src/Parser/Returns.antt =====
-- What parseTernary of src/parser.cpp returns.
use visuall.Base.{◌≡◌, ◌≢◌, Bytes, Bool-cases, inl, inr, arith}
use visuall.Ast.Expr.{Expr}
use visuall.Lexer.Token.{TokenType}
use visuall.Parser.Monad.{
  P, State, Reply, ok, fail, lex_fail, fault, out_of_fuel, check, if_token, and_then, ◌>>=◌, pure,
  expect,
}
use visuall.Parser.Levels.{parse_ternary, parse_null_coalesce, faulted}
use visuall.Parser.Expressions.{Stod, Entry}

-- A routine that never returns a value.
Unreturned : {A : Type 0} → P A → Type 0
Unreturned {A} p = (s : State) (a : A) (s' : State) → p s ≢ ok a s'

and_then-Unreturned :
    {A B : Type 0} (r : Reply A) (k : A → P B)
    → ((a : A) → Unreturned (k a))
    → (b : B) (s' : State) → and_then r k ≢ ok b s'
unfolding and_then Unreturned
and_then-Unreturned (ok a s) k h b s' = h a s b s'
and_then-Unreturned (fail e s) k h b s' = ground arith
and_then-Unreturned (lex_fail e) k h b s' = ground arith
and_then-Unreturned fault k h b s' = ground arith
and_then-Unreturned out_of_fuel k h b s' = ground arith

behind-Unreturned :
    {A B : Type 0} (p : P A) (k : A → P B) → ((a : A) → Unreturned (k a)) → Unreturned (p >>= k)
unfolding ◌>>=◌ Unreturned
behind-Unreturned p k h s b s' = and_then-Unreturned (p s) k h b s'

faulted-Unreturned : Unreturned (faulted {A = Expr})
unfolding faulted Unreturned
faulted-Unreturned s a s' = ground arith

if_token-Unreturned :
    (type : TokenType) (x : P Expr) (e e' : Expr) (s s' : State)
    → Unreturned x
    → if_token type (λ _. x) (pure e) s ≡ ok e' s'
    → ok e s ≡ ok e' s'
unfolding if_token pure Unreturned
if_token-Unreturned type x e e' s s' h = elim (Bool-cases (check type s)) [
  | inl c ↦ rw c (λ k. elim (h _ e' s' k) [ ])
  | inr c ↦ rw c (λ k. k)
]

behind-returned :
    (type : TokenType) (x : Expr → P Expr) (r : Reply Expr) (e : Expr) (s' : State)
    → ((e' : Expr) → Unreturned (x e'))
    → and_then r (λ e'. if_token type (λ _. x e') (pure e')) ≡ ok e s'
    → r ≡ ok e s'
unfolding and_then
behind-returned type x (ok e' s) e s' h k = if_token-Unreturned type (x e') e' e s s' (h e') k
behind-returned type x (fail e' s) e s' h k = k
behind-returned type x (lex_fail e') e s' h k = k
behind-returned type x fault e s' h k = k
behind-returned type x out_of_fuel e s' h k = k

-- No conditional expression is ever returned: what parseTernary returns is what parseNullCoalesce
-- returns from the same state.
pub parse_ternary-plain :
    (stod : Bytes → Stod) (embedded : Bytes → Reply Expr) (self : Entry → P Expr)
    → (s : State) (e : Expr) (s' : State) → parse_ternary stod embedded self s ≡ ok e s'
    → parse_null_coalesce stod embedded self s ≡ ok e s'
unfolding parse_ternary ◌>>=◌
parse_ternary-plain stod embedded self s e s' h =
    let operand : P Expr = parse_null_coalesce stod embedded self in
    behind-returned TokenType.kw_if _ (operand s) e s'
      (λ e'. behind-Unreturned operand _ (λ cond.
        behind-Unreturned (expect TokenType.kw_else "Expected 'else' in ternary expression") _
          (λ _. behind-Unreturned operand _ (λ alt. faulted-Unreturned))))
      h

-- ===== src/Parser/Recovery.antt =====
-- The errors that parse in src/parser.cpp records and the one that it throws.
use visuall.Base.{List, [], ◌∷◌, ◌++◌, Bool-cases, inl, inr, ℕ, zero, suc}
use visuall.Ast.Stmt.{Stmt}
use visuall.Lexer.Run.{LexError}
use visuall.Parser.Monad.{
  P, State, Reply, ParseError, ok, fail, lex_fail, fault, out_of_fuel, is_at_end,
}
use visuall.Parser.Program.{
  Parsed, rejected, lexical, undefined, unfinished, rounds, handled, result,
}

-- No program: an error is thrown, the first of those that are recorded, or `parse` is left in
-- another way.
pub data Thrown (e : ParseError) : Parsed → Type 0 where
  threw_first : (es : List ParseError) → Thrown e (rejected e (e ∷ es))
  threw_lexical : (l : LexError) → Thrown e (lexical l)
  was_undefined : Thrown e undefined
  was_unfinished : Thrown e unfinished

handled-Thrown :
    (again : List Stmt → List ParseError → State → Parsed) (e : ParseError)
    → ((ss : List Stmt) (es : List ParseError) (s : State) → Thrown e (again ss (e ∷ es) s))
    → (ss : List Stmt) (es : List ParseError) (r : Reply Stmt)
    → Thrown e (handled again ss (e ∷ es) r)
unfolding handled
handled-Thrown again e h ss es (ok st s) = h _ es _
handled-Thrown again e h ss es (fail e' s) = h ss (es ++ (e' ∷ [])) _
handled-Thrown again e h ss es (lex_fail l) = threw_lexical l
handled-Thrown again e h ss es fault = was_undefined
handled-Thrown again e h ss es out_of_fuel = was_unfinished

-- Once an error is recorded, parse returns no program, whatever the statements behind the error
-- are, and the ParseError that it throws is the first that was recorded.
pub rounds-Thrown :
    (statement : P Stmt) (n : ℕ) (ss : List Stmt) (e : ParseError) (es : List ParseError)
    (s : State)
    → Thrown e (rounds statement n ss (e ∷ es) s)
unfolding rounds
rounds-Thrown statement zero ss e es s = was_unfinished
rounds-Thrown statement (suc n) ss e es s = elim (Bool-cases (is_at_end s)) [
  | inl h ↦ rw (h, result) (threw_first es)
  | inr h ↦ rw h (
      handled-Thrown (rounds statement n) e (λ ss' es' s'. rounds-Thrown statement n ss' e es' s')
        ss es (statement s))
]

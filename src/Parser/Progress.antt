-- ===== src/Parser/Progress.antt =====
-- What the routines of src/parser.cpp do to the number of tokens that are left, and their fuel: the
-- rules for the operations of Parser.Monad.
pub mod Tokens
pub mod Loops
pub mod Generics
pub mod Primary
pub mod Levels
pub mod Types
pub mod Headers
pub mod Blocks
pub mod Statements
use visuall.Base.{
  ℕ, zero, suc, Bool, true, false, List, [], ◌∷◌, Option, none, some, Bytes, length, ◌≤◌, ◌<◌, ◌+◌,
  ◌≡◌, Bool-cases, inl, inr, arith, String, refl,
}
use visuall.Lexer.Token.{TokenType, Token}
use visuall.Lexer.Run.{LexError}
use visuall.Parser.Monad.{
  P, State, Reply, ok, fail, lex_fail, fault, out_of_fuel, ParseMessage, ParseError, and_then,
  ◌>>=◌, pure, check, current, current_in, advance, advance_in, expect, if_token, if_two, branch,
  loop, loop_on, while_match, while_test, newlines_skipped, skip_newlines, match_any, error_with,
  skip, if_op, if_attempt, settle, is_type, is_at_end,
}

-- The tokens that are left.
abbrev pub left : State → ℕ
left s = length s.rest

-- What a value is returned with: any number of tokens less, or one token less at least.
pub data Gain : Type 0 where
  any some_token : Gain

abbrev pub gain : Gain → ℕ
gain any = 0
gain some_token = 1

-- A reply that a routine may give in a state.
pub data Good {ℓ} {A : Type ℓ} (g : Gain) (s : State) : Reply A → Type ℓ where
  returns : (a : A) (s' : State) → left s' + gain g ≤ left s → Good g s (ok a s')
  fails : (e : ParseError) (s' : State) → left s' ≤ left s → Good g s (fail e s')
  lexes : (e : LexError) → Good g s (lex_fail e)
  faults : Good g s fault

-- A routine on the states with fewer than `n` tokens.
pub record Ok {ℓ} {A : Type ℓ} (n : ℕ) (g : Gain) (p : P A) : Type ℓ where
  pub at : (s : State) → left s < n → Good g s (p s)

pub gain-one : (g : Gain) → gain g ≤ 1
gain-one any = omega arith
gain-one some_token = omega arith

-- From a state with as many tokens or more.
pub Good-from {ℓ} :
    {A : Type ℓ} {g g' : Gain} {s s' : State} {r : Reply A}
    → left s' ≤ left s
    → left s' + gain g ≤ left s + gain g'
    → Good g' s' r
    → Good g s r
Good-from h k (returns a s'' l) = returns a s'' (omega (arith, h, k, l))
Good-from h k (fails e s'' l) = fails e s'' (omega (arith, h, l))
Good-from h k (lexes e) = lexes e
Good-from h k faults = faults

module _ {ℓ} {A : Type ℓ} where
  pub Ok-mono : {m n : ℕ} {g : Gain} {p : P A} → m ≤ n → Ok n g p → Ok m g p
  Ok-mono h o = record { at = λ s l. o.at s (omega (arith, h, l)) }

  pub less : {n : ℕ} {g : Gain} {p : P A} → Ok n g p → Ok n any p
  less o = record { at = λ s l. Good-from (omega arith) (omega arith) (o.at s l) }

  pub pure-ok : {n : ℕ} (a : A) → Ok n any (pure a)
  unfolding pure
  pure-ok a = record { at = λ s l. returns a s (omega arith) }

  pub error-ok :
      {n : ℕ} {g : Gain} (message : Token → ParseMessage) → Ok n g (error_with {A = A} message)
  unfolding error_with
  error-ok message = record { at = λ s l. fails _ s (omega arith) }

  pub branch-ok :
      {n : ℕ} {g : Gain} (test : State → Bool) {x y : P A}
      → Ok n g x
      → Ok n g y
      → Ok n g (branch test x y)
  unfolding branch
  branch-ok test o o' = record {
    at = λ s l. elim (Bool-cases (test s)) [ inl h ↦ rw h (o.at s l) | inr h ↦ rw h (o'.at s l) ];
  }

and_then-Good {ℓ κ} :
    {A : Type ℓ} {B : Type κ} {m : ℕ} {g g' g'' : Gain} {s : State} (r : Reply A) (k : A → P B)
    → ((l : ℕ) → l + gain g ≤ left s → l < m)
    → gain g'' ≤ gain g + gain g'
    → Good g s r
    → ((a : A) → Ok m g' (k a))
    → Good g'' s (and_then r k)
unfolding and_then
and_then-Good _ k f h (returns a s' l) o =
    Good-from (omega (arith, l)) (omega (arith, l, h)) ((o a).at s' (f (left s') l))
and_then-Good _ k f h (fails e s' l) o = fails e s' l
and_then-Good _ k f h (lexes e) o = lexes e
and_then-Good _ k f h faults o = faults

module _ {ℓ κ} {A : Type ℓ} {B : Type κ} {n : ℕ} {g : Gain} {p : P A} {k : A → P B} where
  pub seq : {g' : Gain} → Ok n g' p → ((a : A) → Ok n g (k a)) → Ok n g (p >>= k)
  unfolding ◌>>=◌
  seq o o' = record {
    at = λ s l. and_then-Good (p s) k (λ l' h. omega (arith, l, h)) (omega arith) (o.at s l) o';
  }

  pub strict : Ok n some_token p → ((a : A) → Ok n any (k a)) → Ok n g (p >>= k)
  unfolding ◌>>=◌
  strict o o' = record {
    at = λ s l.
        and_then-Good (p s) k (λ l' h. omega (arith, l, h)) (omega (arith, gain-one g)) (o.at s l)
          o';
  }

  -- Behind a token the next routine has fewer tokens.
  pub behind : Ok (suc n) some_token p → ((a : A) → Ok n any (k a)) → Ok (suc n) g (p >>= k)
  unfolding ◌>>=◌
  behind o o' = record {
    at = λ s l.
        and_then-Good (p s) k (λ l' h. omega (arith, l, h)) (omega (arith, gain-one g)) (o.at s l)
          o';
  }

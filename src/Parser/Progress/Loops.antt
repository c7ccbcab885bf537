-- ===== src/Parser/Progress/Loops.antt =====
-- The rules for the loops of Parser.Monad: the tokens that are left bound the rounds.
use visuall.Base.{ℕ, zero, suc, Bool, ◌<◌, arith, Option}
use visuall.Lexer.Token.{TokenType, Token}
use visuall.Parser.Monad.{
  P, State, if_token, loop, loop_on, while_match, while_test, match_any, if_two, if_op,
}
use visuall.Parser.Progress.{
  left, Gain, any, some_token, Good, Ok, Ok-mono, seq, pure-ok, branch-ok, behind,
}
use visuall.Parser.Progress.Tokens.{if_token-ok, if_two-ok, if_op-ok}

module _ {ℓ} {A : Type ℓ} (body : (A → P A) → A → P A) {n : ℕ}
    (rounds : (m : ℕ)
      → m < n
      → (k : A → P A) → ((a : A) → Ok m any (k a))
      → (a : A) → Ok (suc m) any (body k a)) where
  loop_on-Good :
      (j : ℕ) (a : A) (s : State) → left s < j → left s < n → Good any s (loop_on body j a s)
  unfolding loop_on
  loop_on-Good zero a s h l = let absurd : ⊥ = omega (arith, h) in elim absurd [ ]
  loop_on-Good (suc j) a s h l =
      (rounds (left s) l (loop_on body j)
          (λ a'. record {
            at = λ s' l'. loop_on-Good j a' s' (omega (arith, l', h)) (omega (arith, l', l));
          })
          a).at
        s (omega arith)

  pub loop-ok : (a : A) → Ok n any (loop body a)
  unfolding loop
  loop-ok a = record { at = λ s l. loop_on-Good (suc (left s)) a s (omega arith) l }

-- There is no state with fewer tokens than none.
pub Ok-zero {ℓ} : {A : Type ℓ} {g : Gain} {p : P A} → Ok 0 g p
Ok-zero = record { at = λ s l. let absurd : ⊥ = omega (arith, l) in elim absurd [ ] }

pub while_match-ok {ℓ} :
    {A : Type ℓ} {n : ℕ} (type : TokenType) {round : A → P A}
    → ((a : A) → Ok n any (round a))
    → (a : A) → Ok (suc n) any (while_match type round a)
unfolding while_match
while_match-ok {n = n} type {round} o =
    loop-ok _
      (λ m l k h a. if_token-ok type (λ _. seq (Ok-mono (omega (arith, l)) (o a)) h) (pure-ok a))

pub while_test-ok {ℓ} :
    {A : Type ℓ} {n : ℕ} (test : State → Bool) {round : A → P A}
    → ((a : A) → Ok n some_token (round a))
    → (a : A) → Ok n any (while_test test round a)
unfolding while_test
while_test-ok test {round} o =
    loop-ok _
      (λ m l k h a. branch-ok test (behind (Ok-mono (omega (arith, l)) (o a)) h) (pure-ok a))

-- The rules of Parser.Progress.Tokens for every bound.
pub token-ok {ℓ} :
    {A : Type ℓ} {n : ℕ} {g : Gain} (type : TokenType) {x : Token → P A} {y : P A}
    → ((t : Token) → Ok n any (x t))
    → Ok n g y
    → Ok n g (if_token type x y)
token-ok {n = zero} type o o' = Ok-zero
token-ok {n = suc m} type o o' = if_token-ok type (λ t. Ok-mono (omega arith) (o t)) o'

pub op-ok {ℓ} :
    {A O : Type ℓ} {n : ℕ} {g : Gain} (table : TokenType → Option O) {x : O → P A} {y : P A}
    → ((o : O) → Ok n any (x o))
    → Ok n g y
    → Ok n g (if_op table x y)
op-ok {n = zero} table o o' = Ok-zero
op-ok {n = suc m} table o o' = if_op-ok table (λ t. Ok-mono (omega arith) (o t)) o'

pub two-ok {ℓ} :
    {A : Type ℓ} {n : ℕ} {g : Gain} (type type' : TokenType) {x : Token → P A} {y : P A}
    → ((t : Token) → Ok n any (x t))
    → Ok n g y
    → Ok n g (if_two type type' x y)
two-ok {n = zero} type type' o o' = Ok-zero
two-ok {n = suc m} type type' o o' = if_two-ok type type' (λ t. Ok-mono (omega arith) (o t)) o'

pub matches-ok {ℓ} :
    {A : Type ℓ} {n : ℕ} (type : TokenType) {round : A → P A}
    → ((a : A) → Ok n any (round a))
    → (a : A) → Ok n any (while_match type round a)
matches-ok {n = zero} type o a = Ok-zero
matches-ok {n = suc m} type o a = while_match-ok type (λ b. Ok-mono (omega arith) (o b)) a

pub match_any-ok : {n : ℕ} (type : TokenType) → Ok n any (match_any type)
unfolding match_any
match_any-ok type = token-ok type (λ _. pure-ok tt) (pure-ok tt)

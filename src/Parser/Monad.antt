-- ===== src/Parser/Monad.antt =====
-- The token helpers of src/parser.cpp, on the state that a Parser object has: the token that was
-- consumed last, and those that are left. The list ends with END_OF_FILE, behind which no routine
-- moves.
use visuall.Base.{
  ℕ, zero, suc, Bool, ◌&&◌, not, List, [], ◌∷◌, Option, none, some, ◌==◌, String, if◌then◌else◌,
  Bytes, length,
}
use visuall.Lexer.Token.{TokenType, Token}
use visuall.Lexer.Run.{LexError}
use visuall.Parser.Ordinal.{ordinal}

pub record State : Type 0 where
  pub previous : Option Token
  pub rest : List Token

-- `got` is the message that quotes the lexeme of the token at hand.
pub data ParseMessage : Type 0 where
  text : String → ParseMessage
  got : Bytes → ParseMessage

pub record ParseError : Type 0 where
  pub message : ParseMessage
  pub line : ℕ
  pub column : ℕ

-- How a routine ends: with a value, with a ParseError, with a LexError of the lexer that it runs on
-- the text inside an f-string, or by undefined behaviour. A ParseError is caught in `parse`, which
-- goes on from the state there. `out_of_fuel` has no counterpart in the program.
pub data Reply {ℓ} (A : Type ℓ) : Type ℓ where
  ok : A → State → Reply A
  fail : ParseError → State → Reply A
  lex_fail : LexError → Reply A
  fault : Reply A
  out_of_fuel : Reply A

abbrev pub P {ℓ} : Type ℓ → Type ℓ
P A = State → Reply A

-- The token at hand; past the end of the list one of type END_OF_FILE.
unfoldable pub current_in : List Token → Token
current_in [] = record { type = TokenType.end_of_file; lexeme = []; line = 0; column = 0 }
current_in (t ∷ _) = t

abbrev pub current : State → Token
current s = current_in s.rest

unfoldable pub is_type : TokenType → Token → Bool
unfolding ordinal
is_type type t = ordinal t.type == ordinal type

abbrev pub is_at_end : State → Bool
is_at_end s = is_type TokenType.end_of_file (current s)

unfoldable pub check : TokenType → State → Bool
unfolding current_in is_type
check type s = not (is_at_end s) && is_type type (current s)

unfoldable pub advance_in : State → List Token → State
unfolding is_type
advance_in s [] = s
advance_in s (t ∷ ts) =
    if is_type TokenType.end_of_file t then s else record { previous = some t; rest = ts }

unfoldable pub advance : State → State
unfolding advance_in
advance s = advance_in s s.rest

unfoldable pub pure {ℓ} : {A : Type ℓ} → A → P A
pure a s = ok a s

-- A routine behind a reply.
unfoldable pub and_then {ℓ κ} : {A : Type ℓ} {B : Type κ} → Reply A → (A → P B) → Reply B
and_then (ok a s) f = f a s
and_then (fail e s) f = fail e s
and_then (lex_fail e) f = lex_fail e
and_then fault f = fault
and_then out_of_fuel f = out_of_fuel

infixl 5 ◌>>=◌
unfoldable pub ◌>>=◌ {ℓ κ} : {A : Type ℓ} {B : Type κ} → P A → (A → P B) → P B
unfolding and_then
◌>>=◌ p f s = and_then (p s) f

infixl 5 ◌>>◌
abbrev pub ◌>>◌ {ℓ κ} : {A : Type ℓ} {B : Type κ} → P A → P B → P B
p >> q = p >>= λ _. q

-- `error`, at the token at hand.
unfoldable pub error_with {ℓ} : {A : Type ℓ} → (Token → ParseMessage) → P A
unfolding current_in
error_with message s =
    fail
      (record {
        message = message (current s);
        line = (current s).line;
        column = (current s).column;
      })
      s

abbrev pub error {ℓ} : {A : Type ℓ} → String → P A
error message = error_with (λ _. text message)

-- `expect`, with the token that it returns.
unfoldable pub expect : TokenType → String → P Token
unfolding check advance error_with
expect type message s =
    if check type s then ok (current s) (advance s) else error_with (λ _. text message) s

-- `if (match(type)) … else …`, with the token that is consumed, and the same with another test.
unfoldable pub if_token {ℓ} : {A : Type ℓ} → TokenType → (Token → P A) → P A → P A
unfolding check advance
if_token type x y s = if check type s then x (current s) (advance s) else y s

abbrev pub if_match {ℓ} : {A : Type ℓ} → TokenType → P A → P A → P A
if_match type x y = if_token type (λ _. x) y

unfoldable pub branch {ℓ} : {A : Type ℓ} → (State → Bool) → P A → P A → P A
branch test x y s = if test s then x s else y s

-- A loop, by its body and what the body does to go round again. Each round consumes a token, so the
-- tokens that are left bound the rounds.
unfoldable pub loop_on {ℓ} : {A : Type ℓ} → ((A → P A) → A → P A) → ℕ → A → P A
loop_on body zero a s = out_of_fuel
loop_on body (suc n) a s = body (loop_on body n) a s

unfoldable pub loop {ℓ} : {A : Type ℓ} → ((A → P A) → A → P A) → A → P A
unfolding loop_on
loop body a s = loop_on body (suc (length s.rest)) a s

-- `while (match(type)) …`.
unfoldable pub while_match {ℓ} : {A : Type ℓ} → TokenType → (A → P A) → A → P A
unfolding loop if_token pure ◌>>=◌
while_match type round = loop (λ again a. if_match type (round a >>= again) (pure a))

-- `while (test) …`.
unfoldable pub while_test {ℓ} : {A : Type ℓ} → (State → Bool) → (A → P A) → A → P A
unfolding loop branch pure ◌>>=◌
while_test test round = loop (λ again a. branch test (round a >>= again) (pure a))

unfoldable pub newlines_skipped : State → List Token → State
unfolding is_type
newlines_skipped s [] = s
newlines_skipped s (t ∷ ts) =
    let further = newlines_skipped (record { previous = some t; rest = ts }) ts in
    if is_type TokenType.newline t then further else s

unfoldable pub skip_newlines : P (Unit {0})
unfolding newlines_skipped
skip_newlines s = ok tt (newlines_skipped s s.rest)

-- `match(type);`, with no look at the result.
unfoldable pub match_any : TokenType → P (Unit {0})
unfolding if_token pure
match_any type = if_match type (pure tt) (pure tt)

-- What follows the token at hand; past the end of the list a token of type END_OF_FILE.
unfoldable pub next_in : List Token → Token
unfolding current_in
next_in [] = current_in []
next_in (_ ∷ ts) = current_in ts

-- Two tokens at once, with the first of them.
unfoldable pub if_two {ℓ} : {A : Type ℓ} → TokenType → TokenType → (Token → P A) → P A → P A
unfolding check advance next_in is_type
if_two type type' x y s =
    if check type s && is_type type' (next_in s.rest) && not (is_at_end (advance s))
    then x (current s) (advance (advance s))
    else y s

-- The operator that stands at hand, if a table has it.
unfoldable pub if_op {ℓ} : {A O : Type ℓ} → (TokenType → Option O) → (O → P A) → P A → P A
unfolding current_in is_type advance
if_op table x y s =
    if is_at_end s
    then y s
    else elim (table (current s).type) [ none ↦ y s | some op ↦ x op (advance s) ]

-- `advance();`, with no look at the token.
unfoldable pub skip : P (Unit {0})
unfolding advance
skip s = ok tt (advance s)

unfoldable pub settle {ℓ} : {A : Type ℓ} → Reply (Option A) → Reply A → Reply A
settle (ok (some a) s) r = ok a s
settle (ok none _) r = r
settle (fail e s) r = fail e s
settle (lex_fail e) r = lex_fail e
settle fault r = fault
settle out_of_fuel r = out_of_fuel

-- Behind a token of a type, a routine that may give up; the parser is then set back to that token.
unfoldable pub if_attempt {ℓ} : {A : Type ℓ} → TokenType → P (Option A) → P A → P A
unfolding check advance settle
if_attempt type x y s = if check type s then settle (x (advance s)) (y s) else y s

-- ===== src/Lexer/Landing/Kinds.antt =====
-- Tokens sorted by what the lexer of src/lexer.cpp makes them for, and counted.
use visuall.Base.{ℕ, ◌+◌, ◌≡◌, Bool, true, false, List, [], ◌∷◌, ◌++◌, arith}
use visuall.Lexer.Token.{TokenType, Token, error, indent, dedent, end_of_file}
use visuall.Lexer.Cursor.{Cursor}
use visuall.Lexer.Run.{Message, Run, Ends, spaces_in_indentation, unexpected, bind, returns, throws}
use visuall.Lexer.Span.{Span, Span-trans}

pub data Kind : Type 0 where
  ordinary opens closes failed ends : Kind

abbrev pub kind : TokenType → Kind
kind error = failed
kind indent = opens
kind dedent = closes
kind end_of_file = ends
kind _ = ordinary

abbrev pub is_opens : Kind → ℕ
is_opens opens = 1
is_opens _ = 0

abbrev pub is_closes : Kind → ℕ
is_closes closes = 1
is_closes _ = 0

abbrev pub is_failed : Kind → ℕ
is_failed failed = 1
is_failed _ = 0

abbrev pub is_ends : Kind → ℕ
is_ends ends = 1
is_ends _ = 0

abbrev pub count : (Kind → ℕ) → List Token → ℕ
count w [] = 0
count w (t ∷ ts) = w (kind t.type) + count w ts

pub count-append :
    (w : Kind → ℕ) (ts us : List Token) → count w (ts ++ us) ≡ count w ts + count w us
count-append w [] us = omega arith
count-append w (t ∷ ts) us = omega (arith, count-append w ts us)

-- The messages that a routine throws behind the indentation of a line, and that of a changed level.
abbrev pub is_thrown : Message → Bool
is_thrown spaces_in_indentation = false
is_thrown (unexpected _) = false
is_thrown _ = true

-- A routine that moves forward from `a`, and returns a token of kind `ordinary`.
abbrev pub Lexes : Cursor → Run Token → Type 0
Lexes a =
    Ends (λ t c. record { span : Span a c; plain : kind t.type ≡ ordinary })
      (λ e c. record { span : Span a c; plain : is_thrown e.message ≡ true })

-- The same of a routine with another result.
abbrev pub Moves : {A : Type 0} → Cursor → Run A → Type 0
Moves a =
    Ends (λ _ c. Span a c) (λ e c. record { span : Span a c; plain : is_thrown e.message ≡ true })

pub Moves-behind : {A : Type 0} {a b : Cursor} {r : Run A} → Span a b → Moves b r → Moves a r
Moves-behind s (returns h) = returns (Span-trans s h)
Moves-behind s (throws h) = throws (record { span = Span-trans s h.span; plain = h.plain })

-- A part, and then what makes the token, both behind `a`.
pub Lexes-bind :
    {A : Type 0} {a b : Cursor} {r : Run A} {k : A → Cursor → Run Token}
    → Span a b
    → Moves b r
    → ((x : A) (c : Cursor) → Span a c → Lexes a (k x c))
    → Lexes a (bind r k)
Lexes-bind s (returns {a = x} {c} h) k = k x c (Span-trans s h)
Lexes-bind s (throws h) k = throws (record { span = Span-trans s h.span; plain = h.plain })

pub Moves-bind :
    {A B : Type 0} {a : Cursor} {r : Run A} {k : A → Cursor → Run B}
    → Moves a r
    → ((x : A) (c : Cursor) → Span a c → Moves a (k x c))
    → Moves a (bind r k)
Moves-bind (returns {a = x} {c} h) k = k x c h
Moves-bind (throws h) k = throws h

-- What is read behind `a` is read behind an earlier cursor.
pub Lexes-behind : {a b : Cursor} {r : Run Token} → Span a b → Lexes b r → Lexes a r
Lexes-behind s (returns h) = returns (record { span = Span-trans s h.span; plain = h.plain })
Lexes-behind s (throws h) = throws (record { span = Span-trans s h.span; plain = h.plain })

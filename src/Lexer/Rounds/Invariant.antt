-- ===== src/Lexer/Rounds/Invariant.antt =====
-- What holds of a Lexer of src/lexer.cpp between two rounds of tokenize.
use visuall.Base.{
  ℕ, ◌+◌, ◌*◌, ◌≤◌, ◌<◌, ◌≡◌, refl, Bool, true, false, List, [], ◌∷◌, Option, none, some,
  if◌then◌else◌, Bytes, length,
}
use visuall.Lexer.Token.{Token}
use visuall.Lexer.Cursor.{cursor, start_pos, peek}
use visuall.Lexer.Run.{LexError, Message, unexpected, spaces_in_indentation}
use visuall.Lexer.Span.{Span}
use visuall.Lexer.Tokenize.{Lexer, Attempt, continued, fell_through, threw}
use visuall.Lexer.Landing.Kinds.{is_opens, is_closes, is_failed, is_ends, count, is_thrown}

-- The indentation levels, the top first: each above the next, down to 0.
abbrev pub Levels : List ℕ → Type 0
Levels [] = ⊥
Levels (t ∷ []) = t ≡ 0
Levels (t ∷ u ∷ st) = (u < t) × Levels (u ∷ st)

-- In no part of the stream, the newest token first, do more blocks end than have begun.
abbrev pub Nested : List Token → Type 0
Nested [] = Unit
Nested (t ∷ ts) = (count is_closes (t ∷ ts) ≤ count is_opens (t ∷ ts)) × Nested ts

abbrev pub is_unexpected : Message → Bool
is_unexpected (unexpected _) = true
is_unexpected _ = false

-- Of errors with the newest first, the oldest that a routine threw; a report of an unexpected
-- character throws nothing.
abbrev pub or_thrown : Option LexError → LexError → Option LexError
or_thrown (some first) e = some first
or_thrown none e = if is_unexpected e.message then none else some e

abbrev pub oldest_thrown : List LexError → Option LexError
oldest_thrown [] = none
oldest_thrown (e ∷ es) = or_thrown (oldest_thrown es) e

-- `slack` counts the tokens that may still be made of the bytes that are consumed.
pub record Inv (source : Bytes) (slack : ℕ) (s : Lexer) : Type 0 where
  pub placed : Span (cursor source start_pos) s.cur
  pub levels : Levels s.indent_stack
  pub balanced : count is_opens s.tokens + 1 ≡ count is_closes s.tokens + length s.indent_stack
  pub nested : Nested s.tokens
  pub unended : count is_ends s.tokens ≡ 0
  pub reported : count is_failed s.tokens ≡ length s.errors
  pub oldest : s.first_error ≡ oldest_thrown s.errors
  pub budget :
      length s.tokens + length s.indent_stack + 2 * length s.cur.rest + slack
      ≤ 2 * length source + 1

abbrev pub flag : Bool → ℕ
flag true = 1
flag false = 0

-- Each round makes this smaller.
abbrev pub measure : Lexer → ℕ
measure s = 2 * length s.cur.rest + flag s.at_line_start

-- What a round that begins in a state of measure `m` makes of the `try` block.
pub data Attempted (source : Bytes) (m : ℕ) : Attempt → Type 0 where
  going : {s : Lexer} → Inv source 0 s → measure s < m → Attempted source m (continued s)
  falling : {s : Lexer} → Inv source 0 s → measure s < m → Attempted source m (fell_through s)
  refused :
      {e : LexError} {s : Lexer}
      → e.message ≡ spaces_in_indentation
      → Inv source 0 s
      → peek s.cur ≡ b' '
      → measure s ≤ m
      → Attempted source m (threw e s)
  thrown :
      {e : LexError} {s : Lexer}
      → is_thrown e.message ≡ true
      → Inv source 1 s
      → measure s < m
      → Attempted source m (threw e s)

pub Attempted-if :
    {source : Bytes} {m : ℕ} (b : Bool) {x y : Attempt}
    → (b ≡ true → Attempted source m x)
    → (b ≡ false → Attempted source m y)
    → Attempted source m (if b then x else y)
Attempted-if true hx hy = hx refl
Attempted-if false hx hy = hy refl

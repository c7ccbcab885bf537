-- ===== src/Lexer/Run.antt =====
-- How a routine of src/lexer.cpp ends: with a value, or by throwing a LexError. Either way the
-- source state that it leaves behind is kept, since the handlers in `tokenize` go on from there.
use visuall.Base.{ℕ, ◌≡◌, refl, Bool, true, false, if◌then◌else◌}
use visuall.Lexer.Cursor.{Cursor}

-- The message of a LexError. `spaces_in_indentation` is that of an IndentationError.
pub data Message : Type 0 where
  spaces_in_indentation inconsistent_indentation unterminated_comment : Message
  unterminated_string unterminated_f_string unclosed_brace : Message
  malformed_hex malformed_unicode_4 malformed_unicode_8 : Message
  malformed_number missing_exponent : Message
  surrogate too_large unexpected : ℕ → Message

pub record LexError : Type 0 where
  pub message : Message
  pub line : ℕ
  pub column : ℕ

-- `out_of_fuel` has no counterpart in the program.
pub data Run {ℓ} (A : Type ℓ) : Type ℓ where
  done : A → Cursor → Run A
  throw : LexError → Cursor → Run A
  out_of_fuel : Run A

-- What follows a routine in the source text, from the state that the routine leaves.
abbrev pub bind {ℓ κ} : {A : Type ℓ} {B : Type κ} → Run A → (A → Cursor → Run B) → Run B
bind (done a c) k = k a c
bind (throw e c) k = throw e c
bind out_of_fuel k = out_of_fuel

-- A routine that ran to an end: with `P` of its value and cursor, or with `Q` of what it threw and
-- of the cursor there.
pub data Ends {ℓ κ} {A : Type ℓ} (P : A → Cursor → Type κ) (Q : LexError → Cursor → Type κ)
    : Run A → Type (ℓ ⊔ κ) where
  returns : {a : A} {c : Cursor} → P a c → Ends P Q (done a c)
  throws : {e : LexError} {c : Cursor} → Q e c → Ends P Q (throw e c)

module _ {ℓ κ} {A : Type ℓ} {P : A → Cursor → Type κ} {Q : LexError → Cursor → Type κ} where
  pub Ends-if :
      (b : Bool) {x y : Run A}
      → (b ≡ true → Ends P Q x)
      → (b ≡ false → Ends P Q y)
      → Ends P Q (if b then x else y)
  Ends-if true hx hy = hx refl
  Ends-if false hx hy = hy refl

  pub Ends-bind {ℓ'} :
      {B : Type ℓ'} {P' : B → Cursor → Type κ} {r : Run B} {k : B → Cursor → Run A}
      → Ends P' Q r
      → ((b : B) (c : Cursor) → P' b c → Ends P Q (k b c))
      → Ends P Q (bind r k)
  Ends-bind (returns {a} {c} h) k = k a c h
  Ends-bind (throws h) k = throws h

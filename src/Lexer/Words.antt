-- ===== src/Lexer/Words.antt =====
-- lexIdentifierOrKeyword and lexNumber of src/lexer.cpp. `c` is the byte that the caller has
-- consumed, `source_[pos_ - 1]`, and `start` is where it stood.
pub mod Reading
pub mod Numerals
use visuall.Base.{
  ℕ, Bool, true, false, ◌&&◌, ◌||◌, List, [], ◌∷◌, ◌++◌, Option, none, some, ◌==◌, if◌then◌else◌,
  Bytes,
}
use visuall.Lexer.Token.{
  TokenType, Token, keywords, find, int_literal, float_literal, bool_literal, null_literal,
  identifier, kw_true, kw_false, kw_null,
}
use visuall.Lexer.Cursor.{
  Pos, Cursor, cursor, step_over, advance, peek, peek_next, is_digit, is_alnum,
}
use visuall.Lexer.Run.{Message, Run, bind, done, throw, malformed_number, missing_exponent}

abbrev pub make_token : TokenType → Bytes → Pos → Token
make_token t lexeme start = record {
  type = t;
  lexeme = lexeme;
  line = start.line;
  column = start.column;
}

abbrev pub error_at {ℓ} : {A : Type ℓ} → Message → Pos → Cursor → Run A
error_at m start c = throw (record { message = m; line = start.line; column = start.column }) c

abbrev pub is_word : ℕ → Bool
is_word c = is_alnum c || c == b'_'

-- The bytes collected by a loop, and the cursor behind it.
pub record Scan : Type 0 where
  pub value : Bytes
  pub behind : Cursor

abbrev pub prepend : ℕ → Scan → Scan
prepend c s = record s { value = c ∷ s.value }

unfoldable pub word_bytes : Bytes → Pos → Scan
word_bytes [] p = record { value = []; behind = cursor [] p }
word_bytes (c ∷ cs) p =
    if is_word c
    then prepend c (word_bytes cs (step_over c p))
    else record { value = []; behind = cursor (c ∷ cs) p }

-- The type of a word, by what the keyword table says of it.
unfoldable pub word_type : Option TokenType → TokenType
word_type none = identifier
word_type (some kw_true) = bool_literal
word_type (some kw_false) = bool_literal
word_type (some kw_null) = null_literal
word_type (some t) = t

unfoldable pub lex_identifier_or_keyword : ℕ → Pos → Cursor → Run Token
unfolding word_bytes word_type find
lex_identifier_or_keyword c start cur =
    let s = word_bytes cur.rest cur.at in
    let value = c ∷ s.value in
    done (make_token (word_type (find value keywords)) value start) s.behind

-- Digits and `_`; the separators are dropped.
unfoldable pub digits_and_separators : Bytes → Pos → Scan
digits_and_separators [] p = record { value = []; behind = cursor [] p }
digits_and_separators (c ∷ cs) p =
    let more = digits_and_separators cs (step_over c p) in
    if c == b'_'
    then more
    else if is_digit c
    then prepend c more
    else record { value = []; behind = cursor (c ∷ cs) p }

unfoldable pub digits : Bytes → Pos → Scan
digits [] p = record { value = []; behind = cursor [] p }
digits (c ∷ cs) p =
    if is_digit c
    then prepend c (digits cs (step_over c p))
    else record { value = []; behind = cursor (c ∷ cs) p }

-- The value so far, with the flag `isFloat`.
pub record Numeral : Type 0 where
  pub text : Bytes
  pub is_float : Bool

-- The decimal part; `cur` stands behind the integer part.
unfoldable pub decimal_part : Bytes → Pos → Cursor → Run Numeral
unfolding digits_and_separators
decimal_part value start cur =
    if peek cur == b'.' && is_digit (peek_next cur)
    then (let dot = advance cur in
        let s = digits_and_separators dot.rest dot.at in
        if peek s.behind == b'.'
        then error_at malformed_number start s.behind
        else done (record { text = value ++ (b'.' ∷ s.value); is_float = true }) s.behind)
    else done (record { text = value; is_float = false }) cur

-- An optional sign behind the `e`.
unfoldable pub exponent_sign : Cursor → Scan
exponent_sign cur =
    if peek cur == b'+' || peek cur == b'-'
    then record { value = peek cur ∷ []; behind = advance cur }
    else record { value = []; behind = cur }

unfoldable pub exponent_part : Numeral → Pos → Cursor → Run Numeral
unfolding digits exponent_sign
exponent_part n start cur =
    if peek cur == b'e' || peek cur == b'E'
    then (let sign = exponent_sign (advance cur) in
        let s = digits sign.behind.rest sign.behind.at in
        if is_digit (peek sign.behind)
        then done
            (record { text = n.text ++ (peek cur ∷ (sign.value ++ s.value)); is_float = true })
            s.behind
        else error_at missing_exponent start sign.behind)
    else done n cur

unfoldable pub lex_number : ℕ → Pos → Cursor → Run Token
unfolding digits_and_separators decimal_part exponent_part
lex_number c start cur =
    let s = digits_and_separators cur.rest cur.at in
    bind (decimal_part (c ∷ s.value) start s.behind) λ n after_decimal.
      bind (exponent_part n start after_decimal) λ m after_exponent.
        done (make_token (if m.is_float then float_literal else int_literal) m.text start)
          after_exponent

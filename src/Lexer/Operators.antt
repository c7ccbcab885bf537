-- ===== src/Lexer/Operators.antt =====
-- lexOperator and match of src/lexer.cpp. `c` is the byte that the caller has consumed, `start`
-- is where it stood, and `cur` stands behind it.
use visuall.Base.{ℕ, Bool, ◌&&◌, ◌||◌, List, [], ◌∷◌, ◌==◌, if◌then◌else◌, codes, String}
use visuall.Lexer.Token.{TokenType, Token}
use visuall.Lexer.Cursor.{Pos, Cursor, advance, peek, peek_next}
use visuall.Lexer.Run.{LexError, unexpected}
use visuall.Lexer.Words.{make_token}

-- The token, the cursor behind it, and what was appended to `errors_`.
pub record Lexed : Type 0 where
  pub token : Token
  pub behind : Cursor
  pub reported : List LexError

abbrev pub make : TokenType → String → Pos → Cursor → Lexed
make t lexeme start cur = record {
  token = make_token t (codes lexeme) start;
  behind = cur;
  reported = [];
}

-- `if (match(expected)) … ; …`. Past the end the head of the source is 0, which no caller expects.
abbrev pub if_match : ℕ → Cursor → (Cursor → Lexed) → (Cursor → Lexed) → Lexed
if_match expected cur matched other =
    if peek cur == expected then matched (advance cur) else other cur

abbrev pub unexpected_character : ℕ → Pos → Cursor → Lexed
unexpected_character c start cur = record {
  token = make_token TokenType.error (c ∷ []) start;
  behind = cur;
  reported = record { message = unexpected c; line = start.line; column = start.column } ∷ [];
}

-- Two spellings: `c`, and `c` followed by `=`.
abbrev pub with_eq : TokenType → String → TokenType → String → Pos → Cursor → Lexed
with_eq t s t' s' start cur = if_match b'=' cur (make t s start) (make t' s' start)

-- The cases of `<` and `>`.
unfoldable pub lex_angle : ℕ → Pos → Cursor → Lexed
lex_angle c start cur =
    if c == b'<'
    then if_match b'<' cur (with_eq TokenType.lshift_eq "<<=" TokenType.lshift "<<" start) (λ d.
      if_match b'-' d (make TokenType.kw_send "<-" start)
        (with_eq TokenType.lte "<=" TokenType.lt "<" start))
    else if_match b'>' cur (with_eq TokenType.rshift_eq ">>=" TokenType.rshift ">>" start)
        (with_eq TokenType.gte ">=" TokenType.gt ">" start)

-- The cases of `+ - * / % = !`.
unfoldable pub lex_arithmetic : ℕ → Pos → Cursor → Lexed
lex_arithmetic c start cur =
    if c == b'+'
    then with_eq TokenType.plus_eq "+=" TokenType.plus "+" start cur
    else if c == b'-'
    then if_match b'>' cur (make TokenType.arrow "->" start)
        (with_eq TokenType.minus_eq "-=" TokenType.minus "-" start)
    else if c == b'*'
    then if_match b'*' cur (with_eq TokenType.double_star_eq "**=" TokenType.double_star "**" start)
        (with_eq TokenType.star_eq "*=" TokenType.star "*" start)
    else if c == b'/'
    then if_match b'/' cur
        (with_eq TokenType.double_slash_eq "//=" TokenType.double_slash "//" start)
        (with_eq TokenType.slash_eq "/=" TokenType.slash "/" start)
    else if c == b'%'
    then with_eq TokenType.percent_eq "%=" TokenType.percent "%" start cur
    else if c == b'='
    then with_eq TokenType.eq "==" TokenType.assign "=" start cur
    else if_match b'=' cur (make TokenType.neq "!=" start) (unexpected_character c start)

-- The brackets, `,` and `~`, with nothing to look ahead for.
unfoldable pub lex_single : ℕ → Pos → Cursor → Lexed
lex_single c start cur =
    if c == b'('
    then make TokenType.lparen "(" start cur
    else if c == b')'
    then make TokenType.rparen ")" start cur
    else if c == b'['
    then make TokenType.lbracket "[" start cur
    else if c == b']'
    then make TokenType.rbracket "]" start cur
    else if c == b'{'
    then make TokenType.lbrace "{" start cur
    else if c == b'}'
    then make TokenType.rbrace "}" start cur
    else if c == b','
    then make TokenType.comma "," start cur
    else if c == b'~'
    then make TokenType.tilde "~" start cur
    else if c == b'@'
    then make TokenType.at "@" start cur
    else unexpected_character c start cur

-- The cases of `: & | ^ . ?`, and then the rest.
unfoldable pub lex_other : ℕ → Pos → Cursor → Lexed
unfolding lex_single
lex_other c start cur =
    if c == b':'
    then with_eq TokenType.walrus ":=" TokenType.colon ":" start cur
    else if c == b'&'
    then with_eq TokenType.amp_eq "&=" TokenType.amp "&" start cur
    else if c == b'|'
    then with_eq TokenType.pipe_eq "|=" TokenType.pipe "|" start cur
    else if c == b'^'
    then with_eq TokenType.caret_eq "^=" TokenType.caret "^" start cur
    else if c == b'.'
    then (if peek cur == b'.' && peek_next cur == b'.'
        then make TokenType.ellipsis "..." start (advance (advance cur))
        else make TokenType.dot "." start cur)
    else if c == b'?'
    then if_match b'?' cur (make TokenType.double_question "??" start)
        (make TokenType.question "?" start)
    else lex_single c start cur

abbrev pub is_angle : ℕ → Bool
is_angle c = c == b'<' || c == b'>'

abbrev pub is_arithmetic : ℕ → Bool
is_arithmetic c =
    c == b'+' || c == b'-' || c == b'*' || c == b'/' || c == b'%' || c == b'=' || c == b'!'

unfoldable pub lex_operator : ℕ → Pos → Cursor → Lexed
unfolding lex_angle lex_arithmetic lex_other
lex_operator c start cur =
    if is_angle c
    then lex_angle c start cur
    else if is_arithmetic c
    then lex_arithmetic c start cur
    else lex_other c start cur

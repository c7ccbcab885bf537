-- ===== src/Lexer/Names.antt =====
-- tokenTypeToString and Token::toString of include/token.h.
use visuall.Base.{ℕ, [], ◌∷◌, ◌++◌, Bytes, codes, suc, ◌/◌, if◌then◌else◌, ltb, ◌+◌, ◌%◌, zero}
use visuall.Lexer.Token.{TokenType, Token}

unfoldable pub token_type_to_string : TokenType → Bytes
token_type_to_string TokenType.int_literal = codes "INT_LITERAL"
token_type_to_string TokenType.float_literal = codes "FLOAT_LITERAL"
token_type_to_string TokenType.string_literal = codes "STRING_LITERAL"
token_type_to_string TokenType.fstring_literal = codes "FSTRING_LITERAL"
token_type_to_string TokenType.bool_literal = codes "BOOL_LITERAL"
token_type_to_string TokenType.null_literal = codes "NULL_LITERAL"
token_type_to_string TokenType.identifier = codes "IDENTIFIER"
token_type_to_string TokenType.error = codes "ERROR"
token_type_to_string TokenType.kw_define = codes "KW_DEFINE"
token_type_to_string TokenType.kw_init = codes "KW_INIT"
token_type_to_string TokenType.kw_class = codes "KW_CLASS"
token_type_to_string TokenType.kw_if = codes "KW_IF"
token_type_to_string TokenType.kw_elsif = codes "KW_ELSIF"
token_type_to_string TokenType.kw_else = codes "KW_ELSE"
token_type_to_string TokenType.kw_for = codes "KW_FOR"
token_type_to_string TokenType.kw_while = codes "KW_WHILE"
token_type_to_string TokenType.kw_in = codes "KW_IN"
token_type_to_string TokenType.kw_return = codes "KW_RETURN"
token_type_to_string TokenType.kw_break = codes "KW_BREAK"
token_type_to_string TokenType.kw_continue = codes "KW_CONTINUE"
token_type_to_string TokenType.kw_pass = codes "KW_PASS"
token_type_to_string TokenType.kw_and = codes "KW_AND"
token_type_to_string TokenType.kw_or = codes "KW_OR"
token_type_to_string TokenType.kw_not = codes "KW_NOT"
token_type_to_string TokenType.kw_true = codes "KW_TRUE"
token_type_to_string TokenType.kw_false = codes "KW_FALSE"
token_type_to_string TokenType.kw_null = codes "KW_NULL"
token_type_to_string TokenType.kw_import = codes "KW_IMPORT"
token_type_to_string TokenType.kw_from = codes "KW_FROM"
token_type_to_string TokenType.kw_try = codes "KW_TRY"
token_type_to_string TokenType.kw_catch = codes "KW_CATCH"
token_type_to_string TokenType.kw_finally = codes "KW_FINALLY"
token_type_to_string TokenType.kw_throw = codes "KW_THROW"
token_type_to_string TokenType.kw_this = codes "KW_THIS"
token_type_to_string TokenType.kw_lambda = codes "KW_LAMBDA"
token_type_to_string TokenType.kw_extends = codes "KW_EXTENDS"
token_type_to_string TokenType.kw_implements = codes "KW_IMPLEMENTS"
token_type_to_string TokenType.kw_interface = codes "KW_INTERFACE"
token_type_to_string TokenType.kw_super = codes "KW_SUPER"
token_type_to_string TokenType.kw_assert = codes "KW_ASSERT"
token_type_to_string TokenType.kw_del = codes "KW_DEL"
token_type_to_string TokenType.kw_with = codes "KW_WITH"
token_type_to_string TokenType.kw_as = codes "KW_AS"
token_type_to_string TokenType.kw_match = codes "KW_MATCH"
token_type_to_string TokenType.kw_case = codes "KW_CASE"
token_type_to_string TokenType.kw_enum = codes "KW_ENUM"
token_type_to_string TokenType.kw_yield = codes "KW_YIELD"
token_type_to_string TokenType.kw_go = codes "KW_GO"
token_type_to_string TokenType.kw_chan = codes "KW_CHAN"
token_type_to_string TokenType.kw_const = codes "KW_CONST"
token_type_to_string TokenType.kw_send = codes "KW_SEND"
token_type_to_string TokenType.plus = codes "PLUS"
token_type_to_string TokenType.minus = codes "MINUS"
token_type_to_string TokenType.star = codes "STAR"
token_type_to_string TokenType.slash = codes "SLASH"
token_type_to_string TokenType.double_slash = codes "DOUBLE_SLASH"
token_type_to_string TokenType.percent = codes "PERCENT"
token_type_to_string TokenType.double_star = codes "DOUBLE_STAR"
token_type_to_string TokenType.assign = codes "ASSIGN"
token_type_to_string TokenType.eq = codes "EQ"
token_type_to_string TokenType.neq = codes "NEQ"
token_type_to_string TokenType.lt = codes "LT"
token_type_to_string TokenType.gt = codes "GT"
token_type_to_string TokenType.lte = codes "LTE"
token_type_to_string TokenType.gte = codes "GTE"
token_type_to_string TokenType.arrow = codes "ARROW"
token_type_to_string TokenType.dot = codes "DOT"
token_type_to_string TokenType.plus_eq = codes "PLUS_EQ"
token_type_to_string TokenType.minus_eq = codes "MINUS_EQ"
token_type_to_string TokenType.star_eq = codes "STAR_EQ"
token_type_to_string TokenType.slash_eq = codes "SLASH_EQ"
token_type_to_string TokenType.double_slash_eq = codes "DOUBLE_SLASH_EQ"
token_type_to_string TokenType.percent_eq = codes "PERCENT_EQ"
token_type_to_string TokenType.double_star_eq = codes "DOUBLE_STAR_EQ"
token_type_to_string TokenType.amp_eq = codes "AMP_EQ"
token_type_to_string TokenType.pipe_eq = codes "PIPE_EQ"
token_type_to_string TokenType.caret_eq = codes "CARET_EQ"
token_type_to_string TokenType.lshift_eq = codes "LSHIFT_EQ"
token_type_to_string TokenType.rshift_eq = codes "RSHIFT_EQ"
token_type_to_string TokenType.amp = codes "AMP"
token_type_to_string TokenType.pipe = codes "PIPE"
token_type_to_string TokenType.caret = codes "CARET"
token_type_to_string TokenType.tilde = codes "TILDE"
token_type_to_string TokenType.lshift = codes "LSHIFT"
token_type_to_string TokenType.rshift = codes "RSHIFT"
token_type_to_string TokenType.lparen = codes "LPAREN"
token_type_to_string TokenType.rparen = codes "RPAREN"
token_type_to_string TokenType.lbracket = codes "LBRACKET"
token_type_to_string TokenType.rbracket = codes "RBRACKET"
token_type_to_string TokenType.lbrace = codes "LBRACE"
token_type_to_string TokenType.rbrace = codes "RBRACE"
token_type_to_string TokenType.comma = codes "COMMA"
token_type_to_string TokenType.colon = codes "COLON"
token_type_to_string TokenType.ellipsis = codes "ELLIPSIS"
token_type_to_string TokenType.at = codes "AT"
token_type_to_string TokenType.question = codes "QUESTION"
token_type_to_string TokenType.newline = codes "NEWLINE"
token_type_to_string TokenType.indent = codes "INDENT"
token_type_to_string TokenType.dedent = codes "DEDENT"
token_type_to_string TokenType.end_of_file = codes "END_OF_FILE"
token_type_to_string _ = codes "UNKNOWN"

-- `std::to_string` of an int that is not negative: `f` bounds the number of digits.
unfoldable pub to_string_from : ℕ → ℕ → Bytes
to_string_from zero n = []
to_string_from (suc f) n =
    let more = to_string_from f (n / 10) in
    if ltb n 10 then (b'0' + n) ∷ [] else more ++ ((b'0' + n % 10) ∷ [])

abbrev pub to_string : ℕ → Bytes
to_string n = to_string_from 10 n

-- Counters below 2^31 have at most ten digits.
unfoldable pub token_to_string : Token → Bytes
unfolding token_type_to_string to_string_from
token_to_string t =
    token_type_to_string t.type
    ++ (codes " '"
        ++ (t.lexeme ++ (codes "' " ++ (to_string t.line ++ (codes ":" ++ to_string t.column)))))

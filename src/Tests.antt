-- ===== src/Tests.antt =====
-- Runs of the lexer of src/lexer.cpp on concrete texts, and the theorems at concrete inputs.
mod Collecting
mod Formatting
mod Packages
mod Parsing
mod Resolving
use visuall.Base.{
  ℕ, List, [], ◌∷◌, ◌++◌, ◌≡◌, refl, codes, Bytes, ◌≢◌, true, some, ◌≤◌, arith, ◌*◌, ◌+◌,
  if◌then◌else◌, ◌==◌, inr, false, map,
}
use visuall.Lexer.Cursor.{Pos, first, cursor, advance_in, start_pos, step_over}
use visuall.Lexer.Tokenize.{tokenize, returned, stuck, aborted}
use visuall.Lexer.Token.{
  Token, TokenType, newline, kw_if, identifier, dedent, end_of_file, colon, indent, error,
  float_literal, string_literal, find, keywords, walrus, kw_elsif, double_question,
}
use visuall.Lexer.Utf8.Decoding.{decode, decode-encode_full, decode-encode_bmp}
use visuall.Lexer.Landing.Kinds.{count, is_failed, is_opens, is_ends, is_closes}
use visuall.Lexer.Run.{
  LexError, unexpected, done, spaces_in_indentation, inconsistent_indentation, unterminated_string,
}
use visuall.Lexer.Indentation.{normalize_indentation, normalize_from, spaces}
use visuall.Lexer.Landing.Operators.{Spells, lex_operator-Spells}
use visuall.Lexer.Strings.{lex_string}
use visuall.Lexer.Reports.{exception, first_thrown, count-is_failed, reports, exception-tokenize}
use visuall.Lexer.Words.{lex_identifier_or_keyword, lex_number, make_token, word_type}
use visuall.Lexer.Indentation.Normal.{normalize_indentation_idem, tabs, normalize_from-spaces}
use visuall.Lexer.Strings.Quoting.{quote, lex_string-quote}
use visuall.Lexer.Utf8.{encode_bmp, encode_full}
use visuall.Lexer.Stream.{tokenize-blocks, tokenize-end_of_file, tokenize_ends, tokenize-nesting}
use visuall.Lexer.Operators.{lex_operator}
use visuall.Lexer.EmptyLine.{tokenize-empty_line}
use visuall.Lexer.Span.{over}
use visuall.Lexer.Words.Numerals.{lex_number-reads, fraction, exponent}
use visuall.Lexer.Words.Reading.{lex_identifier_or_keyword-longest}
use visuall.Formatter.Shown.{shown, normalize_commas-shown, normalize_operators-shown}
use visuall.Formatter.Layout.{format}
use visuall.Formatter.Spacing.{normalize_operators, normalize_commas}
use visuall.Formatter.Format.{format-shown}
use visuall.Lexer.Names.{token_to_string, token_type_to_string}
use visuall.Lexer.KeywordNames.{upper, token_type_to_string-keywords}

abbrev at_place : ℕ → ℕ → ℕ → Pos
at_place offset line column = record { offset = offset; line = line; column = column }

abbrev token_at : TokenType → Bytes → ℕ → ℕ → Token
token_at t lexeme line column = record { type = t; lexeme = lexeme; line = line; column = column }

abbrev block : Bytes
block = codes "if x:\n\ty\nz"

abbrev block_front : List Token
block_front =
    token_at kw_if (codes "if") 1 1
    ∷ token_at identifier (codes "x") 1 4
    ∷ token_at colon (codes ":") 1 5
    ∷ token_at newline (codes "\\n") 1 6
    ∷ token_at indent (codes "<INDENT>") 2 1
    ∷ token_at identifier (codes "y") 2 2
    ∷ []

abbrev block_back : List Token
block_back =
    token_at newline (codes "\\n") 2 3
    ∷ token_at dedent (codes "<DEDENT>") 3 1
    ∷ token_at identifier (codes "z") 3 1
    ∷ token_at end_of_file [] 3 2
    ∷ []

abbrev block_tokens : List Token
block_tokens = block_front ++ block_back

tokenize-block : tokenize block ≡ returned block_tokens []
unfolding tokenize first advance_in step_over
tokenize-block = refl

-- Two bytes that begin no token are kept as ERROR tokens, and nothing is thrown.
abbrev stray : Bytes
stray = codes "a ! $"

abbrev stray_tokens : List Token
stray_tokens =
    token_at identifier (codes "a") 1 1
    ∷ token_at error (codes "!") 1 3
    ∷ token_at error (codes "$") 1 5
    ∷ token_at end_of_file [] 1 6
    ∷ []

abbrev report : ℕ → ℕ → LexError
report c column = record { message = unexpected c; line = 1; column = column }

tokenize-stray : tokenize stray ≡ returned stray_tokens (report b'!' 3 ∷ report b'$' 5 ∷ [])
unfolding tokenize first advance_in step_over
tokenize-stray = refl

-- A string that is not closed throws, behind a report of a stray byte.
unclosed :
    exception (tokenize (codes "! 'a"))
    ≡ some (record { message = unterminated_string; line = 1; column = 3 })
unfolding tokenize first advance_in step_over
unclosed = refl

-- Levels that match no open block.
bad_level :
    exception (tokenize (codes "if x:\n\t\ty\n\tz"))
    ≡ some (record { message = inconsistent_indentation; line = 3; column = 1 })
unfolding tokenize first advance_in step_over
bad_level = refl

tokenize_ends_example : (tokenize block ≢ stuck) × (tokenize block ≢ aborted)
tokenize_ends_example = tokenize_ends block

tokenize-blocks_example : count is_opens block_tokens ≡ count is_closes block_tokens
tokenize-blocks_example = tokenize-blocks block tokenize-block

tokenize-nesting_example : count is_closes block_front ≤ count is_opens block_front
tokenize-nesting_example = tokenize-nesting block block_front block_back tokenize-block refl

tokenize-end_of_file_example :
    (body : List Token) × (eof : Token) × (block_tokens ≡ body ++ (eof ∷ []))
    × (eof.type ≡ end_of_file)
    × (count is_ends body ≡ 0)
tokenize-end_of_file_example = tokenize-end_of_file block tokenize-block

exception-tokenize_example :
    exception (tokenize (codes "! 'a")) ≡ first_thrown (reports (tokenize (codes "! 'a")))
exception-tokenize_example = exception-tokenize (codes "! 'a")

count-is_failed_example : count is_failed stray_tokens ≡ 2
count-is_failed_example = count-is_failed stray tokenize-stray

lex_string-quote_example :
    lex_string b'"' (quote b'"' (codes "a\"b\\\nc") ++ (b'"' ∷ codes " + d")) (at_place 1 1 2)
    ≡ done (make_token string_literal (codes "a\"b\\\nc") start_pos) (
        cursor
          (codes " + d")
          (over (quote b'"' (codes "a\"b\\\nc") ++ (b'"' ∷ [])) (at_place 1 1 2)))
lex_string-quote_example =
    lex_string-quote b'"' (codes "a\"b\\\nc") (codes " + d") (at_place 1 1 2) refl

lex_number-reads_example :
    lex_number b'1' start_pos (cursor (codes "_0.5e-3)") (at_place 1 1 2))
    ≡ done
        (make_token float_literal (codes "10.5e-3") start_pos)
        (cursor (codes ")") (at_place 8 1 9))
unfolding first step_over
lex_number-reads_example =
    lex_number-reads b'1' (codes "_0") (fraction b'5' []) (exponent b'e' (codes "-") b'3' [])
      (codes ")") start_pos (at_place 1 1 2) refl (refl, refl) (refl, inr (inr refl), refl, refl)
      refl

lex_identifier_or_keyword-longest_example :
    lex_identifier_or_keyword b'i' start_pos (cursor (codes "f_1 = 2") (at_place 1 1 2))
    ≡ done
        (make_token (word_type (find (codes "if_1") keywords)) (codes "if_1") start_pos)
        (cursor (codes " = 2") (over (codes "f_1") (at_place 1 1 2)))
unfolding first
lex_identifier_or_keyword-longest_example =
    lex_identifier_or_keyword-longest b'i' (codes "f_1") (codes " = 2") start_pos (at_place 1 1 2)
      refl refl

lex_operator-Spells_example :
    Spells b'*'
      (cursor (codes "*= 2") (at_place 1 1 2))
      (lex_operator b'*' start_pos (cursor (codes "*= 2") (at_place 1 1 2)))
lex_operator-Spells_example =
    lex_operator-Spells b'*' start_pos (cursor (codes "*= 2") (at_place 1 1 2))

decode-encode_full_example : decode (encode_full 0x1F600 ++ codes "!") ≡ some (0x1F600, codes "!")
decode-encode_full_example = decode-encode_full 0x1F600 (codes "!") refl

decode-encode_bmp_example : decode (encode_bmp 0x20AC ++ codes "!") ≡ some (0x20AC, codes "!")
decode-encode_bmp_example = decode-encode_bmp 0x20AC (codes "!") (omega arith) refl

normalize_from-spaces_example :
    normalize_from true 0 (spaces (4 * 1 + 2) ++ codes "x\n")
    ≡ tabs (1 + (if 2 == 0 then 0 else 1)) ++ (b'x' ∷ normalize_from false 0 (codes "\n"))
normalize_from-spaces_example = normalize_from-spaces 1 2 b'x' (codes "\n") (omega arith) refl

normalize_indentation_idem_example :
    normalize_indentation (normalize_indentation (codes "  \tx\n   y"))
    ≡ normalize_indentation (codes "  \tx\n   y")
normalize_indentation_idem_example = normalize_indentation_idem (codes "  \tx\n   y")

tokenize-empty_line_example :
    exception (tokenize (codes "\n    x = 1"))
    ≡ some (record { message = spaces_in_indentation; line = 2; column = 1 })
tokenize-empty_line_example = tokenize-empty_line (codes "   x = 1") refl

printed : token_to_string (token_at kw_if (codes "if") 12 1) ≡ codes "KW_IF 'if' 12:1"
unfolding token_to_string
printed = refl

-- Two types of tokens that the lexer makes have no name of their own.
unknown_names :
    (token_type_to_string walrus ≡ codes "UNKNOWN")
    × (token_type_to_string double_question ≡ codes "UNKNOWN")
unfolding token_type_to_string
unknown_names = (refl, refl)

token_type_to_string-keywords_example :
    token_type_to_string kw_elsif ≡ codes "KW_" ++ map upper (codes "elsif")
unfolding find
token_type_to_string-keywords_example = token_type_to_string-keywords (codes "elsif") refl

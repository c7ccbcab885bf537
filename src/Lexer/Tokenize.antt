-- ===== src/Lexer/Tokenize.antt =====
-- tokenize of src/lexer.cpp: the state of a Lexer object, one round of its loop with the two
-- handlers, the loop on fuel, and the end of the file.
use visuall.Base.{
  ℕ, zero, suc, ◌+◌, ◌*◌, Bool, true, false, ◌&&◌, ◌||◌, not, List, [], ◌∷◌, ◌++◌, reverse, Option,
  none, some, ◌==◌, leb, String, if◌then◌else◌, Bytes, codes, length,
}
use visuall.Lexer.Token.{TokenType, Token, error, newline, indent, dedent, end_of_file}
use visuall.Lexer.Cursor.{
  Pos, Cursor, cursor, start_pos, advance, is_at_end, peek, peek_next, is_digit, is_alpha,
}
use visuall.Lexer.Run.{Run, done, throw, out_of_fuel, LexError, Message, spaces_in_indentation}
use visuall.Lexer.Comments.{
  is_blank, skip_whitespace, skip_single_line_comment, skip_multi_line_comment,
}
use visuall.Lexer.Words.{make_token, lex_identifier_or_keyword, lex_number}
use visuall.Lexer.Operators.{lex_operator}
use visuall.Lexer.Strings.{lex_string}
use visuall.Lexer.FStrings.{lex_f_string}
use visuall.Lexer.Indentation.{handle_indentation, normalize_indentation}

-- `tokens` and `errors` have the newest first.
pub record Lexer : Type 0 where
  pub cur : Cursor
  pub at_line_start : Bool
  pub indent_stack : List ℕ
  pub tokens : List Token
  pub errors : List LexError
  pub first_error : Option LexError

-- How the `try` block of a round ends: by `continue` or `break`, by running to its end, or by a
-- throw. `stuck` has no counterpart in the program.
pub data Attempt : Type 0 where
  continued fell_through : Lexer → Attempt
  threw : LexError → Lexer → Attempt
  stuck : Attempt

abbrev pub emit : Token → Lexer → Lexer
emit t s = record s { tokens = t ∷ s.tokens }

-- `tokens.push_back(routine()); continue;`.
unfoldable pub push_token : Lexer → Run Token → Attempt
push_token s (done t c) = continued (record s { cur = c; tokens = t ∷ s.tokens })
push_token s (throw e c) = threw e (record s { cur = c })
push_token s out_of_fuel = stuck

unfoldable pub go_on : Lexer → Run (Unit {0}) → Attempt
go_on s (done _ c) = continued (record s { cur = c })
go_on s (throw e c) = threw e (record s { cur = c })
go_on s out_of_fuel = stuck

-- No NEWLINE stands at the head of the stream, nor behind one of these.
unfoldable pub ends_line : TokenType → Bool
ends_line newline = true
ends_line indent = true
ends_line dedent = true
ends_line _ = false

unfoldable pub suppresses_newline : List Token → Bool
unfolding ends_line
suppresses_newline [] = true
suppresses_newline (t ∷ _) = ends_line t.type

unfoldable pub scan_newline : Lexer → Attempt
unfolding suppresses_newline
scan_newline s = continued (record s {
  cur = advance s.cur;
  at_line_start = true;
  tokens =
      if suppresses_newline s.tokens
      then s.tokens
      else make_token newline (codes "\\n") s.cur.at ∷ s.tokens;
})

unfoldable pub scan_comment : Lexer → Attempt
unfolding go_on skip_single_line_comment skip_multi_line_comment
scan_comment s =
    let one = advance s.cur in
    let two = advance one in
    let three = advance two in
    if peek_next s.cur == b'#'
    then (if peek two == b'#'
        then go_on s (skip_multi_line_comment three.rest three.at)
        else continued (record s { cur = skip_single_line_comment two.rest two.at }))
    else continued (record s { cur = skip_single_line_comment one.rest one.at })

unfoldable pub scan_operator : Lexer → Attempt
unfolding lex_operator
scan_operator s =
    let l = lex_operator (peek s.cur) s.cur.at (advance s.cur) in
    fell_through
      (record s { cur = l.behind; tokens = l.token ∷ s.tokens; errors = l.reported ++ s.errors })

abbrev pub is_quote : ℕ → Bool
is_quote c = c == b'"' || c == b'\''

-- The round from the second step on; a byte is left.
unfoldable pub scan : Lexer → Attempt
unfolding scan_newline scan_comment scan_operator push_token skip_whitespace lex_f_string lex_string
    lex_number lex_identifier_or_keyword
scan s =
    let c = peek s.cur in
    let one = advance s.cur in
    let two = advance one in
    if is_blank c
    then continued (record s { cur = skip_whitespace s.cur.rest s.cur.at })
    else if c == b'\n'
    then scan_newline s
    else if c == b'#'
    then scan_comment s
    else if c == b'f' && is_quote (peek_next s.cur)
    then push_token s (lex_f_string (peek_next s.cur) two.rest two.at)
    else if is_quote c
    then push_token s (lex_string c one.rest one.at)
    else if is_digit c
    then push_token s (lex_number c s.cur.at one)
    else if is_alpha c || c == b'_'
    then push_token s (lex_identifier_or_keyword c s.cur.at one)
    else scan_operator s

-- Behind handleIndentation.
unfoldable pub after_layout : Lexer → Run (Unit {0}) → Attempt
unfolding scan
after_layout s (done _ c) =
    let s' = record s { cur = c } in
    if is_at_end c || peek c == b'\n' then continued s' else scan s'
after_layout s (throw e c) = threw e (record s { cur = c })
after_layout s out_of_fuel = stuck

unfoldable pub attempt : Lexer → Attempt
unfolding scan after_layout handle_indentation
attempt s =
    if s.at_line_start
    then (let l = handle_indentation s.indent_stack s.cur in
        after_layout
          (record s {
            at_line_start = false;
            indent_stack = l.stack;
            tokens = l.emitted ++ s.tokens;
          })
          l.outcome)
    else scan s

-- `if (!firstError) firstError = …`.
unfoldable pub or_first : Option LexError → LexError → Option LexError
or_first none e = some e
or_first (some e') e = some e'

abbrev pub error_token : LexError → String → Token
error_token e lexeme = record {
  type = error;
  lexeme = codes lexeme;
  line = e.line;
  column = e.column;
}

abbrev pub record_error : LexError → String → Lexer → Lexer
record_error e lexeme s = record s {
  tokens = error_token e lexeme ∷ s.tokens;
  errors = e ∷ s.errors;
  first_error = or_first s.first_error e;
}

-- The handlers. The first is that of an IndentationError, which skips to the end of the line by
-- the loop of skipSingleLineComment. `start` is where the round began.
unfoldable pub recover : Pos → Message → LexError → Lexer → Lexer
unfolding or_first skip_single_line_comment
recover start spaces_in_indentation e s =
    record_error e "<indent-error>"
      (record s { cur = skip_single_line_comment s.cur.rest s.cur.at })
recover start _ e s =
    let s' = record_error e "<lex-error>" s in
    if s.cur.at.offset == start.offset && not (is_at_end s.cur)
    then record s' { cur = advance s.cur }
    else s'

-- The guard at the end of a round.
unfoldable pub guard : Pos → Lexer → Lexer
guard start s =
    let p = s.cur.at in
    if p.offset == start.offset
      && p.line == start.line
      && p.column == start.column
      && not (is_at_end s.cur)
    then record s { cur = advance s.cur }
    else s

unfoldable pub end_round : Pos → Attempt → Option Lexer
unfolding recover guard
end_round start (continued s) = some s
end_round start (fell_through s) = some (guard start s)
end_round start (threw e s) = some (guard start (recover start e.message e s))
end_round start stuck = none

unfoldable pub round : Lexer → Option Lexer
unfolding attempt end_round
round s = end_round s.cur.at (attempt s)

-- The loop. The cases of an `elim` wait, so no round is run past the end.
unfoldable pub rounds : ℕ → Lexer → Option Lexer
unfolding round
rounds zero s = none
rounds (suc f) s = elim (is_at_end s.cur) [
  | true ↦ some s
  | false ↦ elim (round s) [ none ↦ none | some s' ↦ rounds f s' ]
]

-- The DEDENTs at the end of the file, newest first.
unfoldable pub flush_dedents : Pos → List ℕ → List Token
flush_dedents p [] = []
flush_dedents p (zero ∷ st) = []
flush_dedents p (suc n ∷ st) = flush_dedents p st ++ (make_token dedent (codes "<DEDENT>") p ∷ [])

-- `aborted` is a failed assertion; the errors are those of `errors()`, oldest first.
pub data Outcome : Type 0 where
  returned : List Token → List LexError → Outcome
  rethrown : LexError → List LexError → Outcome
  aborted stuck : Outcome

unfoldable pub all_tokens : Lexer → List Token
unfolding flush_dedents
all_tokens s =
    reverse
      (make_token end_of_file [] s.cur.at ∷ (flush_dedents s.cur.at s.indent_stack ++ s.tokens))

-- `if (firstError) std::rethrow_exception(firstError); return tokens;`.
unfoldable pub outcome : Option LexError → Lexer → Outcome
unfolding all_tokens
outcome none s = returned (all_tokens s) (reverse s.errors)
outcome (some e) s = rethrown e (reverse s.errors)

-- Behind the loop, with the size of the source.
unfoldable pub finish : ℕ → Option Lexer → Outcome
unfolding outcome
finish size none = stuck
finish size (some s) =
    if leb (length s.tokens) (size * 2 + 1) then outcome s.first_error s else aborted

-- The constructor, on the normalised source.
unfoldable pub initial : Bytes → Lexer
initial source = record {
  cur = cursor source start_pos;
  at_line_start = true;
  indent_stack = 0 ∷ [];
  tokens = [];
  errors = [];
  first_error = none;
}

-- Two rounds for each byte and one to see the end.
unfoldable pub run : Bytes → Option Lexer
unfolding rounds initial
run source = rounds (2 * length source + 2) (initial source)

-- `Lexer(source, filename).tokenize()`.
unfoldable pub tokenize : Bytes → Outcome
unfolding run finish normalize_indentation
tokenize text = let source = normalize_indentation text in finish (length source) (run source)

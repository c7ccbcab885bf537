-- ===== src/Lexer/Comments.antt =====
-- skipWhitespace, skipSingleLineComment and skipMultiLineComment of src/lexer.cpp.
use visuall.Base.{ℕ, ◌-◌, Bool, ◌&&◌, ◌||◌, [], ◌∷◌, ◌==◌, if◌then◌else◌, Bytes}
use visuall.Lexer.Cursor.{Pos, Cursor, cursor, step_over}
use visuall.Lexer.Run.{Run, done, throw, unterminated_comment}

abbrev pub is_blank : ℕ → Bool
is_blank c = c == b' ' || c == b'\t' || c == b'\r'

unfoldable pub skip_whitespace : Bytes → Pos → Cursor
skip_whitespace [] p = cursor [] p
skip_whitespace (c ∷ cs) p =
    if is_blank c then skip_whitespace cs (step_over c p) else cursor (c ∷ cs) p

unfoldable pub skip_single_line_comment : Bytes → Pos → Cursor
skip_single_line_comment [] p = cursor [] p
skip_single_line_comment (c ∷ cs) p =
    if c == b'\n' then cursor (c ∷ cs) p else skip_single_line_comment cs (step_over c p)

-- The loop: at `###` three bytes are consumed and the routine returns.
unfoldable pub skip_to_close : Pos → Bytes → Pos → Run (Unit {0})
skip_to_close start [] p =
    throw (record { message = unterminated_comment; line = start.line; column = start.column - 3 })
      (cursor [] p)
skip_to_close start (a ∷ b ∷ c ∷ cs) p =
    if a == b'#' && b == b'#' && c == b'#'
    then done tt (cursor cs (step_over c (step_over b (step_over a p))))
    else skip_to_close start (b ∷ c ∷ cs) (step_over a p)
skip_to_close start (a ∷ cs) p = skip_to_close start cs (step_over a p)

-- `start` is where the bytes behind the opening `###` begin.
unfoldable pub skip_multi_line_comment : Bytes → Pos → Run (Unit {0})
unfolding skip_to_close
skip_multi_line_comment cs p = skip_to_close p cs p

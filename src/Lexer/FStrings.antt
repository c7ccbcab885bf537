-- ===== src/Lexer/FStrings.antt =====
-- lexFString of src/lexer.cpp. The prefix `f` and the opening quote have been consumed; `start`
-- is where the `f` stood. The first routine is the outer loop, the second the loop inside braces.
use visuall.Base.{ℕ, ◌-◌, ◌||◌, [], ◌∷◌, ◌++◌, ◌==◌, if◌then◌else◌, Bytes}
use visuall.Lexer.Token.{Token, fstring_literal}
use visuall.Lexer.Cursor.{Pos, cursor, step_over}
use visuall.Lexer.Run.{Run, done, unterminated_f_string, unclosed_brace}
use visuall.Lexer.Words.{make_token, error_at}

unfoldable mutual
  pub fstring_text : ℕ → Pos → Bytes → Bytes → Pos → Run Token
  fstring_text delimiter start raw [] p = error_at unterminated_f_string start (cursor [] p)
  fstring_text delimiter start raw (c ∷ []) p =
      if c == delimiter
      then done (make_token fstring_literal (raw ++ (c ∷ [])) start) (cursor [] (step_over c p))
      else if c == b'\n'
      then error_at unterminated_f_string start (cursor (c ∷ []) p)
      else if c == b'{'
      then error_at unclosed_brace p (cursor [] (step_over c p))
      else error_at unterminated_f_string start (cursor [] (step_over c p))
  fstring_text delimiter start raw (c ∷ e ∷ es) p =
      let q = step_over c p in
      let escaped = fstring_text delimiter start (raw ++ (c ∷ e ∷ [])) es (step_over e q) in
      let brace = fstring_brace delimiter start p (raw ++ (c ∷ [])) (e ∷ es) q in
      let plain = fstring_text delimiter start (raw ++ (c ∷ [])) (e ∷ es) q in
      if c == delimiter
      then done (make_token fstring_literal (raw ++ (c ∷ [])) start) (cursor (e ∷ es) q)
      else if c == b'\n'
      then error_at unterminated_f_string start (cursor (c ∷ e ∷ es) p)
      else if c == b'\\'
      then escaped
      else if c == b'{'
      then brace
      else plain

  pub fstring_brace : ℕ → Pos → Pos → Bytes → Bytes → Pos → Run Token
  fstring_brace delimiter start brace_start raw [] p =
      error_at unclosed_brace brace_start (cursor [] p)
  fstring_brace delimiter start brace_start raw (c ∷ cs) p =
      let close = fstring_text delimiter start (raw ++ (c ∷ [])) cs (step_over c p) in
      let more = fstring_brace delimiter start brace_start (raw ++ (c ∷ [])) cs (step_over c p) in
      if c == b'}'
      then close
      else if c == b'\n' || c == delimiter
      then error_at unclosed_brace brace_start (cursor (c ∷ cs) p)
      else more

unfoldable pub lex_f_string : ℕ → Bytes → Pos → Run Token
unfolding fstring_text
lex_f_string delimiter cs p =
    fstring_text delimiter (record p { column = p.column - 2 }) (b'f' ∷ delimiter ∷ []) cs p

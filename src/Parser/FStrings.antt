-- ===== src/Parser/FStrings.antt =====
-- The case of an f-string in parsePrimary of src/parser.cpp: its lexeme is cut into literal text and
-- the texts between braces, and each of these is parsed by a parser of its own.
use visuall.Base.{ℕ, zero, suc, List, [], ◌∷◌, ◌++◌, ◌==◌, if◌then◌else◌, Bytes, length, ◌||◌, ◌-◌}
use visuall.Ast.Expr.{Expr, FStringParts, no_parts, literal_part, expr_part}
use visuall.Parser.Monad.{P, Reply, ok, fail, lex_fail, fault, out_of_fuel, ◌>>=◌, pure}

pub data Piece : Type 0 where
  literal_piece code_piece : Bytes → Piece

unfoldable pub fstring_escape : ℕ → Bytes
fstring_escape c =
    if c == b'n'
    then 10 ∷ []
    else if c == b't'
    then 9 ∷ []
    else if c == b'\\' || c == b'\'' || c == b'"' || c == b'{' || c == b'}'
    then c ∷ []
    else b'\\' ∷ c ∷ []

-- The literal text so far, unless it is empty.
unfoldable pub flush : Bytes → List Piece → List Piece
flush [] ps = ps
flush (c ∷ cs) ps = literal_piece (c ∷ cs) ∷ ps

unfoldable mutual
  pub pieces : Bytes → Bytes → List Piece
  pieces current_literal [] = flush current_literal []
  pieces current_literal (c ∷ []) =
      if c == b'{'
      then flush current_literal (code_piece [] ∷ [])
      else flush (current_literal ++ (c ∷ [])) []
  pieces current_literal (c ∷ d ∷ cs) =
      let escaped = pieces (current_literal ++ fstring_escape d) cs in
      let code = flush current_literal (code_pieces [] (d ∷ cs)) in
      let plain = pieces (current_literal ++ (c ∷ [])) (d ∷ cs) in
      if c == b'\\' then escaped else if c == b'{' then code else plain

  pub code_pieces : Bytes → Bytes → List Piece
  code_pieces expr_text [] = code_piece expr_text ∷ []
  code_pieces expr_text (c ∷ cs) =
      let closed = code_piece expr_text ∷ pieces [] cs in
      let more = code_pieces (expr_text ++ (c ∷ [])) cs in if c == b'}' then closed else more

unfoldable pub take_bytes : ℕ → Bytes → Bytes
take_bytes zero cs = []
take_bytes (suc n) [] = []
take_bytes (suc n) (c ∷ cs) = c ∷ take_bytes n cs

-- `raw.substr(2, raw.size() - 3)`; a lexeme has the `f` and two quotes at least.
unfoldable pub content : Bytes → Bytes
content (f ∷ q ∷ cs) = take_bytes (length cs - 1) cs
content _ = []

-- The parser of the text between braces, by how it ends. Its ParseError leaves this parser where it
-- is.
unfoldable pub parse_embedded : Reply Expr → P Expr
parse_embedded (ok e _) s = ok e s
parse_embedded (fail e _) s = fail e s
parse_embedded (lex_fail e) s = lex_fail e
parse_embedded fault s = fault
parse_embedded out_of_fuel s = out_of_fuel

unfoldable pub parse_parts : (Bytes → Reply Expr) → List Piece → P FStringParts
parse_parts embedded [] = pure no_parts
parse_parts embedded (literal_piece t ∷ ps) = do
  parts ← parse_parts embedded ps
  pure (literal_part t parts)
parse_parts embedded (code_piece t ∷ ps) = do
  e ← parse_embedded (embedded t)
  parts ← parse_parts embedded ps
  pure (expr_part e parts)

unfoldable pub fstring_of : (Bytes → Reply Expr) → Bytes → P Expr
fstring_of embedded raw = do
  parts ← parse_parts embedded (pieces [] (content raw))
  pure (Expr.fstring_expr parts)

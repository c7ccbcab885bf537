-- ===== src/Lexer/Token.antt =====
-- include/token.h and the keyword table at the top of src/lexer.cpp. A constructor is named like
-- the enumerator, in lower case.
use visuall.Base.{
  ℕ, Bool, true, false, ◌&&◌, List, [], ◌∷◌, Option, none, some, ◌==◌, if◌then◌else◌, Bytes, codes,
}

pub data TokenType : Type 0 where
  int_literal float_literal string_literal fstring_literal bool_literal null_literal : TokenType
  identifier error kw_define kw_init kw_class kw_if kw_elsif kw_else kw_for kw_while kw_in :
      TokenType
  kw_return kw_break kw_continue kw_pass kw_and kw_or kw_not kw_true kw_false kw_null : TokenType
  kw_import kw_from kw_try kw_catch kw_finally kw_throw kw_this kw_lambda kw_extends : TokenType
  kw_implements kw_interface kw_super kw_assert kw_del kw_with kw_as kw_match kw_case : TokenType
  kw_enum kw_yield kw_go kw_chan kw_const kw_send plus minus star slash double_slash : TokenType
  percent double_star assign eq neq lt gt lte gte arrow dot plus_eq minus_eq star_eq : TokenType
  slash_eq double_slash_eq percent_eq double_star_eq amp_eq pipe_eq caret_eq lshift_eq : TokenType
  rshift_eq amp pipe caret tilde lshift rshift lparen rparen lbracket rbracket lbrace : TokenType
  rbrace comma colon ellipsis at question double_question walrus newline indent dedent : TokenType
  end_of_file : TokenType

-- `lexeme` holds the bytes of the token's text; `line` and `column` count from 1.
pub record Token : Type 0 where
  pub type : TokenType
  pub lexeme : Bytes
  pub line : ℕ
  pub column : ℕ

abbrev pub keywords : List (Bytes × TokenType)
keywords =
    (codes "define", kw_define)
    ∷ (codes "init", kw_init)
    ∷ (codes "class", kw_class)
    ∷ (codes "if", kw_if)
    ∷ (codes "elsif", kw_elsif)
    ∷ (codes "else", kw_else)
    ∷ (codes "for", kw_for)
    ∷ (codes "while", kw_while)
    ∷ (codes "in", kw_in)
    ∷ (codes "return", kw_return)
    ∷ (codes "break", kw_break)
    ∷ (codes "continue", kw_continue)
    ∷ (codes "pass", kw_pass)
    ∷ (codes "and", kw_and)
    ∷ (codes "or", kw_or)
    ∷ (codes "not", kw_not)
    ∷ (codes "true", kw_true)
    ∷ (codes "false", kw_false)
    ∷ (codes "null", kw_null)
    ∷ (codes "import", kw_import)
    ∷ (codes "from", kw_from)
    ∷ (codes "try", kw_try)
    ∷ (codes "catch", kw_catch)
    ∷ (codes "finally", kw_finally)
    ∷ (codes "throw", kw_throw)
    ∷ (codes "this", kw_this)
    ∷ (codes "extends", kw_extends)
    ∷ (codes "implements", kw_implements)
    ∷ (codes "interface", kw_interface)
    ∷ (codes "super", kw_super)
    ∷ (codes "assert", kw_assert)
    ∷ (codes "del", kw_del)
    ∷ (codes "with", kw_with)
    ∷ (codes "as", kw_as)
    ∷ (codes "match", kw_match)
    ∷ (codes "case", kw_case)
    ∷ (codes "enum", kw_enum)
    ∷ (codes "yield", kw_yield)
    ∷ (codes "go", kw_go)
    ∷ (codes "chan", kw_chan)
    ∷ (codes "const", kw_const)
    ∷ []

-- `std::string` equality.
unfoldable pub bytes_eq : Bytes → Bytes → Bool
bytes_eq [] [] = true
bytes_eq (x ∷ xs) (y ∷ ys) = x == y && bytes_eq xs ys
bytes_eq _ _ = false

-- `keywords.find`.
unfoldable pub find : Bytes → List (Bytes × TokenType) → Option TokenType
unfolding bytes_eq
find w [] = none
find w ((k, t) ∷ table) = if bytes_eq k w then some t else find w table

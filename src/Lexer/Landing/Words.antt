-- ===== src/Lexer/Landing/Words.antt =====
-- Comments, words and numbers of src/lexer.cpp.
use visuall.Base.{
  ℕ, ◌≡◌, refl, Bool, true, false, ◌&&◌, ◌||◌, List, [], ◌∷◌, ◌==◌, some, inl, inr, arith,
  if◌then◌else◌, Bytes, Bool-cases,
}
use visuall.Lexer.Token.{TokenType, int_literal, float_literal, keywords, bytes_eq, find}
use visuall.Lexer.Cursor.{Pos, Cursor, cursor, step_over, advance, peek, peek_next, is_digit}
use visuall.Lexer.Run.{returns, throws, Ends-if}
use visuall.Lexer.Span.{Span, Span-refl, Span-trans, Span-cons, Span-if, Span-advance, Span-step}
use visuall.Lexer.Comments.{
  is_blank, skip_whitespace, skip_single_line_comment, skip_to_close, skip_multi_line_comment,
}
use visuall.Lexer.Words.{
  Numeral, is_word, word_bytes, word_type, lex_identifier_or_keyword, digits_and_separators, digits,
  decimal_part, exponent_sign, exponent_part, lex_number,
}
use visuall.Lexer.Landing.Kinds.{Kind, ordinary, kind, Lexes, Moves, Lexes-bind, Moves-behind}

pub skip_whitespace-Span : (cs : Bytes) (p : Pos) → Span (cursor cs p) (skip_whitespace cs p)
unfolding skip_whitespace
skip_whitespace-Span [] p = Span-refl
skip_whitespace-Span (c ∷ cs) p =
    Span-if (is_blank c) (Span-cons (skip_whitespace-Span cs (step_over c p))) Span-refl

pub skip_single_line_comment-Span :
    (cs : Bytes) (p : Pos) → Span (cursor cs p) (skip_single_line_comment cs p)
unfolding skip_single_line_comment
skip_single_line_comment-Span [] p = Span-refl
skip_single_line_comment-Span (c ∷ cs) p =
    Span-if (c == b'\n') Span-refl (Span-cons (skip_single_line_comment-Span cs (step_over c p)))

skip_to_close-Moves :
    (start : Pos) (cs : Bytes) (p : Pos) → Moves (cursor cs p) (skip_to_close start cs p)
unfolding skip_to_close
skip_to_close-Moves start [] p = throws (record { span = Span-refl; plain = refl })
skip_to_close-Moves start (a ∷ []) p =
    Moves-behind (Span-step _ _ _) (skip_to_close-Moves start [] (step_over a p))
skip_to_close-Moves start (a ∷ b ∷ []) p =
    Moves-behind (Span-step _ _ _) (skip_to_close-Moves start (b ∷ []) (step_over a p))
skip_to_close-Moves start (a ∷ b ∷ c ∷ cs) p =
    Ends-if (a == b'#' && b == b'#' && c == b'#')
      (λ _. returns (Span-cons (Span-cons (Span-step c cs _))))
      (λ _. Moves-behind (Span-step _ _ _) (skip_to_close-Moves start (b ∷ c ∷ cs) (step_over a p)))

pub skip_multi_line_comment-Moves :
    (cs : Bytes) (p : Pos) → Moves (cursor cs p) (skip_multi_line_comment cs p)
unfolding skip_multi_line_comment
skip_multi_line_comment-Moves cs p = skip_to_close-Moves p cs p

word_bytes-Span : (cs : Bytes) (p : Pos) → Span (cursor cs p) (word_bytes cs p).behind
unfolding word_bytes
word_bytes-Span [] p = Span-refl
word_bytes-Span (c ∷ cs) p = elim (Bool-cases (is_word c)) [
  | inl e ↦ rw e (Span-cons (word_bytes-Span cs (step_over c p)))
  | inr e ↦ rw e Span-refl
]

digits-Span : (cs : Bytes) (p : Pos) → Span (cursor cs p) (digits cs p).behind
unfolding digits
digits-Span [] p = Span-refl
digits-Span (c ∷ cs) p = elim (Bool-cases (is_digit c)) [
  | inl e ↦ rw e (Span-cons (digits-Span cs (step_over c p)))
  | inr e ↦ rw e Span-refl
]

digits_and_separators-Span :
    (cs : Bytes) (p : Pos) → Span (cursor cs p) (digits_and_separators cs p).behind
unfolding digits_and_separators
digits_and_separators-Span [] p = Span-refl
digits_and_separators-Span (c ∷ cs) p =
    let ih = Span-cons (digits_and_separators-Span cs (step_over c p)) in
    elim (Bool-cases (c == b'_')) [
      | inl e ↦ rw e ih
      | inr e ↦ rw e (elim (Bool-cases (is_digit c)) [ inl d ↦ rw d ih | inr d ↦ rw d Span-refl ])
    ]

-- Every word of the table has an ordinary type.
abbrev is_ordinary : Kind → Bool
is_ordinary ordinary = true
is_ordinary _ = false

abbrev is_plain_table : List (Bytes × TokenType) → Bool
is_plain_table [] = true
is_plain_table ((k, t) ∷ table) = is_ordinary (kind t) && is_plain_table table

is_ordinary→eq : (k : Kind) → is_ordinary k ≡ true → k ≡ ordinary
is_ordinary→eq k h = ground arith

and-left : (a b : Bool) → (a && b) ≡ true → a ≡ true
and-left a b h = ground arith

and-right : (a b : Bool) → (a && b) ≡ true → b ≡ true
and-right a b h = ground arith

word_type-plain : (t : TokenType) → kind t ≡ ordinary → kind (word_type (some t)) ≡ ordinary
unfolding word_type
word_type-plain TokenType.kw_true h = refl
word_type-plain TokenType.kw_false h = refl
word_type-plain TokenType.kw_null h = refl
word_type-plain _ h = h

word_type-find :
    (w : Bytes) (table : List (Bytes × TokenType))
    → is_plain_table table ≡ true
    → kind (word_type (find w table)) ≡ ordinary
unfolding find
word_type-find w [] h = unfold word_type in refl
word_type-find w ((k, t) ∷ table) h = elim (Bool-cases (bytes_eq k w)) [
  | inl e ↦ rw e (word_type-plain t (is_ordinary→eq (kind t) (and-left _ (is_plain_table table) h)))
  | inr e ↦ rw e (word_type-find w table (and-right (is_ordinary (kind t)) _ h))
]

pub lex_identifier_or_keyword-Lexes :
    (c : ℕ) (start : Pos) (cur : Cursor) → Lexes cur (lex_identifier_or_keyword c start cur)
unfolding lex_identifier_or_keyword
lex_identifier_or_keyword-Lexes c start cur = returns (record {
  span = word_bytes-Span cur.rest cur.at;
  plain = word_type-find (c ∷ (word_bytes cur.rest cur.at).value) keywords refl;
})

decimal_part-Moves :
    (value : Bytes) (start : Pos) (cur : Cursor) → Moves cur (decimal_part value start cur)
unfolding decimal_part
decimal_part-Moves value start cur =
    let dot = advance cur in
    let s = digits_and_separators dot.rest dot.at in
    let past = Span-trans (Span-advance cur) (digits_and_separators-Span dot.rest dot.at) in
    Ends-if (peek cur == b'.' && is_digit (peek_next cur))
      (λ _.
        Ends-if (peek s.behind == b'.') (λ _. throws (record { span = past; plain = refl }))
          (λ _. returns past))
      (λ _. returns Span-refl)

exponent_sign-Span : (cur : Cursor) → Span cur (exponent_sign cur).behind
unfolding exponent_sign
exponent_sign-Span cur = elim (Bool-cases (peek cur == b'+' || peek cur == b'-')) [
  | inl e ↦ rw e (Span-advance cur)
  | inr e ↦ rw e Span-refl
]

exponent_part-Moves :
    (n : Numeral) (start : Pos) (cur : Cursor) → Moves cur (exponent_part n start cur)
unfolding exponent_part
exponent_part-Moves n start cur =
    let sign = exponent_sign (advance cur) in
    let to_sign = Span-trans (Span-advance cur) (exponent_sign-Span (advance cur)) in
    Ends-if (peek cur == b'e' || peek cur == b'E')
      (λ _.
        Ends-if (is_digit (peek sign.behind))
          (λ _. returns (Span-trans to_sign (digits-Span sign.behind.rest sign.behind.at)))
          (λ _. throws (record { span = to_sign; plain = refl })))
      (λ _. returns Span-refl)

number_type-plain : (b : Bool) → kind (if b then float_literal else int_literal) ≡ ordinary
number_type-plain true = refl
number_type-plain false = refl

pub lex_number-Lexes : (c : ℕ) (start : Pos) (cur : Cursor) → Lexes cur (lex_number c start cur)
unfolding lex_number
lex_number-Lexes c start cur =
    let s = digits_and_separators cur.rest cur.at in
    let whole = digits_and_separators-Span cur.rest cur.at in
    Lexes-bind whole (decimal_part-Moves (c ∷ s.value) start s.behind) λ n d to_decimal.
      Lexes-bind to_decimal (exponent_part-Moves n start d) λ m e to_exponent.
        returns (record { span = to_exponent; plain = number_type-plain m.is_float })

-- ===== src/Lexer/Words/Reading.antt =====
-- What lexIdentifierOrKeyword of src/lexer.cpp makes of a text, described by the text.
use visuall.Base.{ℕ, [], ◌∷◌, ◌≡◌, refl, Bytes, Bool, ◌++◌, true, ◌||◌, ◌&&◌, arith, false, ap}
use visuall.Lexer.Words.{
  word_bytes, lex_identifier_or_keyword, is_word, done, make_token, word_type, prepend, find,
  keywords,
}
use visuall.Lexer.Cursor.{first, Pos, cursor, step_over}
use visuall.Lexer.Span.{over}

-- A test that holds of every byte.
abbrev pub all_bytes : (ℕ → Bool) → Bytes → Bool
all_bytes f [] = true
all_bytes f (c ∷ cs) = f c && all_bytes f cs

pub and-cases : (a b : Bool) → (a && b) ≡ true → (a ≡ true) × (b ≡ true)
and-cases a b h = ground arith

pub or-cases : (a b : Bool) → (a || b) ≡ false → (a ≡ false) × (b ≡ false)
or-cases a b h = ground arith

pub or_right : (a b : Bool) → (a || b) ≡ true → a ≡ false → b ≡ true
or_right a b h e = ground arith

word_bytes-longest :
    (w rest : Bytes) (p : Pos)
    → all_bytes is_word w ≡ true
    → is_word (first rest) ≡ false
    → word_bytes (w ++ rest) p ≡ record { value = w; behind = cursor rest (over w p) }
unfolding word_bytes first
word_bytes-longest [] [] p h e = refl
word_bytes-longest [] (c ∷ rest) p h e = rw e refl
word_bytes-longest (c ∷ w) rest p h e =
    let (hc, hw) = and-cases (is_word c) (all_bytes is_word w) h in
    rw hc (ap (prepend c) (word_bytes-longest w rest (step_over c p) hw e))

-- A word is read to its last byte: behind the byte `c`, all of `w` and no more, where `w` holds
-- letters, digits and `_` and none of these follows. The keyword table gives the type.
pub lex_identifier_or_keyword-longest :
    (c : ℕ) (w rest : Bytes) (start p : Pos)
    → all_bytes is_word w ≡ true
    → is_word (first rest) ≡ false
    → lex_identifier_or_keyword c start (cursor (w ++ rest) p)
      ≡ done (make_token (word_type (find (c ∷ w) keywords)) (c ∷ w) start) (cursor rest (over w p))
unfolding lex_identifier_or_keyword
lex_identifier_or_keyword-longest c w rest start p h e = rw (word_bytes-longest w rest p h e) refl

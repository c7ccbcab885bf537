-- ===== src/Lexer/KeywordNames.antt =====
-- The keyword table of src/lexer.cpp beside the printed names of include/token.h.
use visuall.Base.{
  refl, List, [], ◌∷◌, ◌++◌, Bytes, codes, ℕ, Option, Bool, ◌≡◌, none, subst, if◌then◌else◌, map,
  true, some, ◌-◌, false, ◌==◌, ap, ==_iff, ◌∙◌, ◌&&◌,
}
use visuall.Lexer.Names.{token_type_to_string}
use visuall.Lexer.Token.{bytes_eq, find, TokenType, keywords}
use visuall.Lexer.Cursor.{within}
use visuall.Lexer.Words.Reading.{and-cases}

-- `std::toupper` in the C locale.
abbrev pub upper : ℕ → ℕ
upper c = if within b'a' b'z' c then c - 32 else c

abbrev Named : (Bytes × TokenType) → Type 0
Named e = token_type_to_string e.1 ≡ codes "KW_" ++ map upper e.0

pub bytes_eq_sound : (xs ys : Bytes) → bytes_eq xs ys ≡ true → xs ≡ ys
unfolding bytes_eq
bytes_eq_sound [] [] h = refl
bytes_eq_sound [] (y ∷ ys) h = cc
bytes_eq_sound (x ∷ xs) [] h = cc
bytes_eq_sound (x ∷ xs) (y ∷ ys) h =
    let (hx, hxs) = and-cases (x == y) (bytes_eq xs ys) h in
    ap (λ z. z ∷ xs) ((==_iff x y).0 hx) ∙ ap (◌∷◌ y) (bytes_eq_sound xs ys hxs)

data Found (w : Bytes) : Option TokenType → Type 0 where
  missing : Found w none
  found : {t : TokenType} → Named (w, t) → Found w (some t)

Found-if :
    (w : Bytes) (b : Bool) {x y : Option TokenType}
    → (b ≡ true → Found w x)
    → Found w y
    → Found w (if b then x else y)
Found-if w true hx hy = hx refl
Found-if w false hx hy = hy

-- The same as a test, of every entry of a table.
is_named : (Bytes × TokenType) → Bool
is_named e = bytes_eq (token_type_to_string e.1) (codes "KW_" ++ map upper e.0)

all_named : List (Bytes × TokenType) → Bool
all_named [] = true
all_named (e ∷ table) = is_named e && all_named table

keywords-named : all_named keywords ≡ true
unfolding all_named is_named token_type_to_string bytes_eq
keywords-named = refl

is_named_sound : (e : Bytes × TokenType) → is_named e ≡ true → Named e
unfolding is_named
is_named_sound e h = bytes_eq_sound (token_type_to_string e.1) (codes "KW_" ++ map upper e.0) h

find-Found :
    (w : Bytes) (table : List (Bytes × TokenType)) → all_named table ≡ true → Found w (find w table)
unfolding find all_named
find-Found w [] h = missing
find-Found w ((k, t) ∷ table) h =
    let (here, there) = and-cases (is_named (k, t)) (all_named table) h in
    Found-if w (bytes_eq k w)
      (λ e. found (subst (λ x. Named (x, t)) (bytes_eq_sound k w e) (is_named_sound (k, t) here)))
      (find-Found w table there)

found_inv :
    (w : Bytes) {o : Option TokenType} {t : TokenType} → Found w o → o ≡ some t → Named (w, t)
found_inv w missing e = cc
found_inv w (found {t = u} n) e = let same : u ≡ _ = cc in subst (λ x. Named (w, x)) same n

-- The printed name of a keyword's type is `KW_` and the keyword in capital letters.
pub token_type_to_string-keywords :
    (w : Bytes) {t : TokenType}
    → find w keywords ≡ some t
    → token_type_to_string t ≡ codes "KW_" ++ map upper w
token_type_to_string-keywords w h = found_inv w (find-Found w keywords keywords-named) h

-- ===== src/Lexer/Words/Numerals.antt =====
-- What lexNumber of src/lexer.cpp makes of a numeral.
use visuall.Base.{
  ℕ, [], ◌∷◌, ◌≡◌, refl, sym, Bytes, ◌==◌, Bool, ◌⊎◌, ◌||◌, if◌then◌else◌, true, false, not, ◌++◌,
  arith, ◌&&◌, ap, inl, Bool-cases, inr, append-nil, append_assoc,
}
use visuall.Lexer.Words.{
  digits, lex_number, decimal_part, is_digit, digits_and_separators, exponent_sign, exponent_part,
  Numeral, is_word, done, make_token, prepend, float_literal, int_literal,
}
use visuall.Lexer.Words.Reading.{all_bytes, and-cases, or-cases, or_right}
use visuall.Lexer.Cursor.{first, advance_in, Pos, cursor, step_over, second}
use visuall.Lexer.Span.{over, over-append}

-- A run of digits and separators, and the digits in it.
abbrev pub is_digit_or_separator : ℕ → Bool
is_digit_or_separator c = c == b'_' || is_digit c

abbrev pub drop_separators : Bytes → Bytes
drop_separators [] = []
drop_separators (c ∷ cs) = if c == b'_' then drop_separators cs else c ∷ drop_separators cs

digits_and_separators-longest :
    (w rest : Bytes) (p : Pos)
    → all_bytes is_digit_or_separator w ≡ true
    → is_digit_or_separator (first rest) ≡ false
    → digits_and_separators (w ++ rest) p
      ≡ record { value = drop_separators w; behind = cursor rest (over w p) }
unfolding digits_and_separators first
digits_and_separators-longest [] [] p h e = refl
digits_and_separators-longest [] (c ∷ rest) p h e =
    let (u, d) = or-cases (c == b'_') (is_digit c) e in rw u (rw d refl)
digits_and_separators-longest (c ∷ w) rest p h e =
    let (hc, hw) = and-cases (is_digit_or_separator c) (all_bytes is_digit_or_separator w) h in
    let ih = digits_and_separators-longest w rest (step_over c p) hw e in
    elim (Bool-cases (c == b'_')) [
      | inl u ↦ rw u ih
      | inr u ↦
          let d : is_digit c ≡ true = or_right (c == b'_') (is_digit c) hc u in
          rw u (rw d (ap (prepend c) ih))
    ]

digits-longest :
    (w rest : Bytes) (p : Pos)
    → all_bytes is_digit w ≡ true
    → is_digit (first rest) ≡ false
    → digits (w ++ rest) p ≡ record { value = w; behind = cursor rest (over w p) }
unfolding digits first
digits-longest [] [] p h e = refl
digits-longest [] (c ∷ rest) p h e = rw e refl
digits-longest (c ∷ w) rest p h e =
    let (hc, hw) = and-cases (is_digit c) (all_bytes is_digit w) h in
    rw hc (ap (prepend c) (digits-longest w rest (step_over c p) hw e))

-- A numeral as it is written: digits, perhaps a fraction, perhaps an exponent.
pub data Exponent : Type 0 where
  no_exponent : Exponent
  exponent : ℕ → Bytes → ℕ → Bytes → Exponent

abbrev pub print_exponent : Exponent → Bytes
print_exponent no_exponent = []
print_exponent (exponent e sign d ds) = e ∷ (sign ++ (d ∷ ds))

abbrev pub IsSign : Bytes → Type 0
IsSign sign = (sign ≡ []) ⊎ (sign ≡ b'+' ∷ []) ⊎ (sign ≡ b'-' ∷ [])

-- The mark, at most one sign, and at least one digit.
abbrev pub IsExponent : Exponent → Type 0
IsExponent no_exponent = Unit
IsExponent (exponent e sign d ds) =
    ((e == b'e' || e == b'E') ≡ true)
    × IsSign sign
    × (is_digit d ≡ true)
    × (all_bytes is_digit ds ≡ true)

-- What may not follow a numeral: a byte that would be read on.
abbrev pub ends_numeral : Bytes → Bool
ends_numeral rest = not (is_word (first rest)) && not (first rest == b'.')

exponent_sign-reads :
    (sign : Bytes) (d : ℕ) (tl : Bytes) (p : Pos)
    → IsSign sign
    → is_digit d ≡ true
    → exponent_sign (cursor (sign ++ (d ∷ tl)) p)
      ≡ record { value = sign; behind = cursor (d ∷ tl) (over sign p) }
unfolding exponent_sign first advance_in
exponent_sign-reads sign d tl p (inl e) h =
    let none_there : (d == b'+' || d == b'-') ≡ false = ground arith in rw e (rw none_there refl)
exponent_sign-reads sign d tl p (inr (inl e)) h = rw e refl
exponent_sign-reads sign d tl p (inr (inr e)) h = rw e refl

-- An exponent makes the numeral a float.
abbrev pub has_exponent : Exponent → Bool
has_exponent no_exponent = false
has_exponent (exponent _ _ _ _) = true

Numeral_path :
    {s t : Bytes} {b c : Bool}
    → s ≡ t
    → b ≡ c
    → ◌≡◌ {A = Numeral} (record { text = s; is_float = b }) (record { text = t; is_float = c })
Numeral_path p q = λ i. record { text = p i; is_float = q i }

or-false : (b : Bool) → (b || false) ≡ b
or-false b = ground arith

or-true : (b : Bool) → (b || true) ≡ true
or-true b = ground arith

exponent_part-reads :
    (n : Numeral) (x : Exponent) (rest : Bytes) (start p : Pos)
    → IsExponent x
    → ends_numeral rest ≡ true
    → exponent_part n start (cursor (print_exponent x ++ rest) p)
      ≡ done
          (record { text = n.text ++ print_exponent x; is_float = n.is_float || has_exponent x })
          (cursor rest (over (print_exponent x) p))
unfolding exponent_part
exponent_part-reads n no_exponent rest start p h e =
    let other : (first rest == b'e' || first rest == b'E') ≡ false = ground arith in
    rw other (
      ap (λ t. done t (cursor rest p))
        (Numeral_path (sym (append-nil n.text)) (sym (or-false n.is_float))))
exponent_part-reads n (exponent m sign d ds) rest start p (hm, hs, hd, hds) e =
    let stop : is_digit (first rest) ≡ false = ground arith in
    let all_digits : all_bytes is_digit (d ∷ ds) ≡ true = rw (hd, hds) in
    let s = exponent_sign-reads sign d (ds ++ rest) (step_over m p) hs hd in
    let g = digits-longest (d ∷ ds) rest (over sign (step_over m p)) all_digits stop in
    unfold first advance_in in
    rw hm (
      rw append_assoc (
        rw s
          (rw g (rw hd rw (or-true n.is_float, over-append sign (d ∷ ds) (step_over m p)) refl))))

pub data Fraction : Type 0 where
  no_fraction : Fraction
  fraction : ℕ → Bytes → Fraction

abbrev pub print_fraction : Fraction → Bytes
print_fraction no_fraction = []
print_fraction (fraction d ds) = b'.' ∷ d ∷ ds

-- The point is followed by a digit.
abbrev pub IsFraction : Fraction → Type 0
IsFraction no_fraction = Unit
IsFraction (fraction d ds) = (is_digit d ≡ true) × (all_bytes is_digit_or_separator ds ≡ true)

abbrev pub has_fraction : Fraction → Bool
has_fraction no_fraction = false
has_fraction (fraction _ _) = true

-- The fraction as it stands in the lexeme.
abbrev pub fraction_text : Fraction → Bytes
fraction_text no_fraction = []
fraction_text (fraction d ds) = b'.' ∷ drop_separators (d ∷ ds)

decimal_part-reads :
    (value : Bytes) (f : Fraction) (rest : Bytes) (start p : Pos)
    → IsFraction f
    → is_digit_or_separator (first rest) ≡ false
    → (first rest == b'.') ≡ false
    → decimal_part value start (cursor (print_fraction f ++ rest) p)
      ≡ done
          (record { text = value ++ fraction_text f; is_float = has_fraction f })
          (cursor rest (over (print_fraction f) p))
unfolding decimal_part
decimal_part-reads value no_fraction rest start p h stop point =
    rw point (ap (λ t. done t (cursor rest p)) (Numeral_path (sym (append-nil value)) refl))
decimal_part-reads value (fraction d ds) rest start p (hd, hds) stop point =
    let digit_only : (d == b'_') ≡ false = ground arith in
    let g = digits_and_separators-longest ds rest (step_over d (step_over b'.' p)) hds stop in
    unfold first second advance_in in rw hd (rw digit_only (rw g (rw point refl)))

-- Behind a numeral's digits stands its exponent, or a byte that ends it.
after_digits :
    (x : Exponent) (rest : Bytes)
    → IsExponent x
    → ends_numeral rest ≡ true
    → (is_digit_or_separator (first (print_exponent x ++ rest)) ≡ false)
      × ((first (print_exponent x ++ rest) == b'.') ≡ false)
unfolding first
after_digits no_exponent rest h e = (unfold first in ground arith, unfold first in ground arith)
after_digits (exponent m sign d ds) rest (hm, hs, hd, hds) e = (ground arith, ground arith)

-- The same with the fraction in front.
after_whole :
    (f : Fraction) (tl : Bytes)
    → is_digit_or_separator (first tl) ≡ false
    → is_digit_or_separator (first (print_fraction f ++ tl)) ≡ false
unfolding first
after_whole no_fraction tl h = h
after_whole (fraction d ds) tl h = refl

-- A numeral is read to its end: digits with separators, a fraction and an exponent, each where it
-- is written. The lexeme is the text with the separators dropped, and the token is a float where
-- there is a fraction or an exponent. Behind the numeral stands no letter, digit, `_` or point.
pub lex_number-reads :
    (c : ℕ) (w : Bytes) (f : Fraction) (x : Exponent) (rest : Bytes) (start p : Pos)
    → all_bytes is_digit_or_separator w ≡ true
    → IsFraction f
    → IsExponent x
    → ends_numeral rest ≡ true
    → lex_number c start (cursor (w ++ (print_fraction f ++ (print_exponent x ++ rest))) p)
      ≡ done
          (make_token
            (if has_fraction f || has_exponent x then float_literal else int_literal)
            (((c ∷ drop_separators w) ++ fraction_text f) ++ print_exponent x)
            start)
          (cursor rest (over (print_exponent x) (over (print_fraction f) (over w p))))
unfolding lex_number
lex_number-reads c w f x rest start p hw hf hx e =
    let (stop, point) = after_digits x rest hx e in
    let whole =
      digits_and_separators-longest w (print_fraction f ++ (print_exponent x ++ rest)) p hw
        (after_whole f (print_exponent x ++ rest) stop) in
    let dec =
      decimal_part-reads (c ∷ drop_separators w) f (print_exponent x ++ rest) start (over w p) hf
        stop point in
    let n : Numeral = record {
      text = (c ∷ drop_separators w) ++ fraction_text f;
      is_float = has_fraction f;
    } in
    let ex = exponent_part-reads n x rest start (over (print_fraction f) (over w p)) hx e in
    rw whole (rw dec (rw ex refl))

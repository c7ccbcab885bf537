-- ===== src/Lexer/Strings/Quoting.antt =====
-- lexString of src/lexer.cpp reads back what is written between quotes with escapes.
use visuall.Base.{
  ℕ, [], ◌∷◌, ◌≡◌, refl, sym, Bytes, ◌++◌, if◌then◌else◌, true, ◌==◌, suc, length, ◌⊎◌, ◌<◌, false,
  arith, inl, inr, append-nil, zero, ◌≤◌, ◌-◌, length-append, ◌∙◌, ap, append_assoc, Bool-cases,
  ==_iff,
}
use visuall.Lexer.Strings.{
  escape, string_from, lex_string, Pos, step_over, done, make_token, cursor, string_literal,
}
use visuall.Lexer.Tokenize.{is_quote}
use visuall.Lexer.Span.{over}

-- One byte inside quotes: a backslash in front of the quote and of a backslash, and `\n` for a line
-- break.
abbrev pub quote_byte : ℕ → ℕ → Bytes
quote_byte d b =
    if b == b'\n'
    then b'\\' ∷ b'n' ∷ []
    else if b == b'\\'
    then b'\\' ∷ b'\\' ∷ []
    else if b == d
    then b'\\' ∷ d ∷ []
    else b ∷ []

abbrev pub quote : ℕ → Bytes → Bytes
quote d [] = []
quote d (b ∷ bs) = quote_byte d b ++ quote d bs

quote_cases : (d : ℕ) → is_quote d ≡ true → (d ≡ b'"') ⊎ (d ≡ b'\'')
quote_cases d h = ground arith

escape-quote :
    (d : ℕ) (es : Bytes) (p : Pos) → is_quote d ≡ true → escape d es p ≡ done (d ∷ []) (cursor es p)
unfolding escape
escape-quote d es p h = elim (quote_cases d h) [ inl e ↦ rw e refl | inr e ↦ rw e refl ]

-- The escapes that `quote_byte` writes, at the byte that they stand for.
escape-newline :
    (b : ℕ) (es : Bytes) (p : Pos)
    → (b == b'\n') ≡ true
    → escape b'n' es p ≡ done (b ∷ []) (cursor es p)
unfolding escape
escape-newline b es p h = ap (λ x. done (x ∷ []) (cursor es p)) (sym ((==_iff _ _).0 h))

escape-backslash :
    (b : ℕ) (es : Bytes) (p : Pos)
    → (b == b'\\') ≡ true
    → escape b'\\' es p ≡ done (b ∷ []) (cursor es p)
unfolding escape
escape-backslash b es p h = ap (λ x. done (x ∷ []) (cursor es p)) (sym ((==_iff _ _).0 h))

escape-same :
    (d b : ℕ) (es : Bytes) (p : Pos)
    → is_quote d ≡ true
    → (b == d) ≡ true
    → escape d es p ≡ done (b ∷ []) (cursor es p)
escape-same d b es p h e =
    escape-quote d es p h ∙ ap (λ x. done (x ∷ []) (cursor es p)) (sym ((==_iff _ _).0 e))

module _ (d : ℕ) (h : is_quote d ≡ true) (start : Pos) where
  -- A byte that stands for itself, in front of more.
  plain_step :
      (f : ℕ) (value : Bytes) (c : ℕ) (tl : Bytes) (p : Pos)
      → 0 < length tl
      → (c == d) ≡ false
      → (c == b'\n') ≡ false
      → (c == b'\\') ≡ false
      → string_from (suc f) d start value (c ∷ tl) p
        ≡ string_from f d start (value ++ (c ∷ [])) tl (step_over c p)
  unfolding string_from
  plain_step f value c [] p l hd hn hb = absurd (omega arith)
  plain_step f value c (e ∷ es) p l hd hn hb = rw hd (rw hn (rw hb refl))

  -- An escape that stands for one byte.
  escape_step :
      (f : ℕ) (value : Bytes) (e b : ℕ) (es : Bytes) (p : Pos)
      → escape e es (step_over e (step_over b'\\' p))
        ≡ done (b ∷ []) (cursor es (step_over e (step_over b'\\' p)))
      → string_from (suc f) d start value (b'\\' ∷ e ∷ es) p
        ≡ string_from f d start (value ++ (b ∷ [])) es (step_over e (step_over b'\\' p))
  unfolding string_from
  escape_step f value e b es p r =
      let other : (b'\\' == d) ≡ false = ground arith in rw other (rw r refl)

  close_step :
      (f : ℕ) (value rest : Bytes) (p : Pos)
      → string_from (suc f) d start value (d ∷ rest) p
        ≡ done (make_token string_literal value start) (cursor rest (step_over d p))
  unfolding string_from
  close_step f value [] p = let same : (d == d) ≡ true = ground arith in rw same refl
  close_step f value (e ∷ es) p = let same : (d == d) ≡ true = ground arith in rw same refl

  quote_byte-pos : (b : ℕ) → 1 ≤ length (quote_byte d b)
  quote_byte-pos b = ground arith

  shorter :
      (b : ℕ) (bs rest : Bytes) (f : ℕ)
      → length (quote d (b ∷ bs) ++ (d ∷ rest)) < suc f
      → length (quote d bs ++ (d ∷ rest)) < f
  shorter b bs rest f lt = omega (
    arith,
    quote_byte-pos b,
    length-append (quote_byte d b) (quote d bs),
    length-append (quote d (b ∷ bs)) (d ∷ rest),
    length-append (quote d bs) (d ∷ rest),
  )

  nonempty : (bs rest : Bytes) → 0 < length (quote d bs ++ (d ∷ rest))
  nonempty bs rest = omega (arith, length-append (quote d bs) (d ∷ rest))

  string_from-quote :
      (bs rest : Bytes) (f : ℕ) (value : Bytes) (p : Pos)
      → length (quote d bs ++ (d ∷ rest)) < f
      → string_from f d start value (quote d bs ++ (d ∷ rest)) p
        ≡ done
            (make_token string_literal (value ++ bs) start)
            (cursor rest (over (quote d bs ++ (d ∷ [])) p))
  string_from-quote bs rest zero value p lt = absurd (omega arith)
  string_from-quote [] rest (suc f) value p lt = rw append-nil (close_step f value rest p)
  string_from-quote (b ∷ bs) rest (suc f) value p lt =
      let tl = quote d bs ++ (d ∷ rest) in
      let later : (q : Pos)
          → string_from f d start (value ++ (b ∷ [])) tl q
            ≡ done (make_token string_literal (value ++ (b ∷ bs)) start)
                (cursor rest (over (quote d bs ++ (d ∷ [])) q)) =
        λ q.
          string_from-quote bs rest f (value ++ (b ∷ [])) q (shorter b bs rest f lt)
          ∙ ap
              (λ v.
                done (make_token string_literal v start)
                  (cursor rest (over (quote d bs ++ (d ∷ [])) q)))
              (append_assoc value (b ∷ []) bs) in
      let escaped : (e : ℕ)
          → escape e tl (step_over e (step_over b'\\' p))
            ≡ done (b ∷ []) (cursor tl (step_over e (step_over b'\\' p)))
          → string_from (suc f) d start value (b'\\' ∷ e ∷ tl) p
            ≡ done (make_token string_literal (value ++ (b ∷ bs)) start)
                (cursor rest (over (quote d bs ++ (d ∷ [])) (step_over e (step_over b'\\' p)))) =
        λ e r. escape_step f value e b tl p r ∙ later (step_over e (step_over b'\\' p)) in
      elim (Bool-cases (b == b'\n')) [
        | inl n ↦ rw n (escaped b'n' (escape-newline b tl _ n))
        | inr n ↦ rw n (elim (Bool-cases (b == b'\\')) [
          | inl s ↦ rw s (escaped b'\\' (escape-backslash b tl _ s))
          | inr s ↦ rw s (elim (Bool-cases (b == d)) [
            | inl q ↦ rw q (escaped d (escape-same d b tl _ h q))
            | inr q ↦
                rw q (plain_step f value b tl p (nonempty bs rest) q n s ∙ later (step_over b p))
          ])
        ])
      ]

-- Any bytes, written between single or double quotes with escapes, are read back as they were, and
-- the lexer goes on behind the closing quote.
pub lex_string-quote :
    (d : ℕ) (bs rest : Bytes) (p : Pos)
    → is_quote d ≡ true
    → lex_string d (quote d bs ++ (d ∷ rest)) p
      ≡ done
          (make_token string_literal bs (record p { column = p.column - 1 }))
          (cursor rest (over (quote d bs ++ (d ∷ [])) p))
unfolding lex_string
lex_string-quote d bs rest p h =
    string_from-quote d h (record p { column = p.column - 1 }) bs rest
      (suc (length (quote d bs ++ (d ∷ rest)))) [] p (omega arith)

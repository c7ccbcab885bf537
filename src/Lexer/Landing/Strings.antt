-- ===== src/Lexer/Landing/Strings.antt =====
-- String and f-string literals of src/lexer.cpp. The fuel of the loop over a string suffices.
use visuall.Base.{
  ℕ, zero, suc, ◌<◌, ◌≡◌, refl, true, ◌||◌, [], ◌∷◌, ◌++◌, ◌==◌, ltb, inl, inr, arith, Bytes,
  length, Bool-cases,
}
use visuall.Lexer.Cursor.{Pos, cursor, step_over, is_xdigit, within}
use visuall.Lexer.Run.{Message, returns, throws, Ends-if, malformed_unicode_4, malformed_unicode_8}
use visuall.Lexer.Span.{Span, Span-refl, Span-cons, Span-step, Span-length}
use visuall.Lexer.Strings.{
  hex_run, hex_exactly, hex_escape, unicode_4_escape, unicode_8_escape, strtoul, escape,
  string_from, lex_string,
}
use visuall.Lexer.FStrings.{fstring_text, fstring_brace, lex_f_string}
use visuall.Lexer.Landing.Kinds.{is_thrown, Lexes, Moves, Lexes-behind, Moves-bind, Lexes-bind}

hex_run-Span : (n : ℕ) (cs : Bytes) (p : Pos) → Span (cursor cs p) (hex_run n cs p).behind
unfolding hex_run
hex_run-Span zero cs p = Span-refl
hex_run-Span (suc n) [] p = Span-refl
hex_run-Span (suc n) (c ∷ cs) p = elim (Bool-cases (is_xdigit c)) [
  | inl e ↦ rw e (Span-cons (hex_run-Span n cs (step_over c p)))
  | inr e ↦ rw e Span-refl
]

hex_exactly-Moves :
    (n : ℕ) (m : Message) (cs : Bytes) (p : Pos)
    → is_thrown m ≡ true
    → Moves (cursor cs p) (hex_exactly n m cs p)
unfolding hex_exactly
hex_exactly-Moves n m cs p h =
    Ends-if (length (hex_run n cs p).value == n) (λ _. returns (hex_run-Span n cs p))
      (λ _. throws (record { span = hex_run-Span n cs p; plain = h }))

hex_escape-Moves : (cs : Bytes) (p : Pos) → Moves (cursor cs p) (hex_escape cs p)
unfolding hex_escape
hex_escape-Moves cs p =
    Ends-if (length (hex_run 2 cs p).value == 0)
      (λ _. throws (record { span = hex_run-Span 2 cs p; plain = refl }))
      (λ _. returns (hex_run-Span 2 cs p))

unicode_4_escape-Moves : (cs : Bytes) (p : Pos) → Moves (cursor cs p) (unicode_4_escape cs p)
unfolding unicode_4_escape
unicode_4_escape-Moves cs p =
    Moves-bind (hex_exactly-Moves 4 malformed_unicode_4 cs p refl) λ hex c s.
      Ends-if (within 0xD800 0xDFFF (strtoul hex)) (λ _. throws (record { span = s; plain = refl }))
        (λ _. returns s)

unicode_8_escape-Moves : (cs : Bytes) (p : Pos) → Moves (cursor cs p) (unicode_8_escape cs p)
unfolding unicode_8_escape
unicode_8_escape-Moves cs p =
    Moves-bind (hex_exactly-Moves 8 malformed_unicode_8 cs p refl) λ hex c s.
      Ends-if (ltb 0x10FFFF (strtoul hex)) (λ _. throws (record { span = s; plain = refl }))
        (λ _.
          Ends-if (within 0xD800 0xDFFF (strtoul hex))
            (λ _. throws (record { span = s; plain = refl })) (λ _. returns s))

pub escape-Moves : (e : ℕ) (cs : Bytes) (p : Pos) → Moves (cursor cs p) (escape e cs p)
unfolding escape
escape-Moves e cs p =
    Ends-if (e == b'x') (λ _. hex_escape-Moves cs p)
      (λ _.
        Ends-if (e == b'u') (λ _. unicode_4_escape-Moves cs p)
          (λ _. Ends-if (e == b'U') (λ _. unicode_8_escape-Moves cs p) (λ _. returns Span-refl)))

string_from-Lexes :
    (f delimiter : ℕ) (start : Pos) (value cs : Bytes) (p : Pos)
    → length cs < f
    → Lexes (cursor cs p) (string_from f delimiter start value cs p)
unfolding string_from
string_from-Lexes zero d start value cs p h = absurd (omega arith)
string_from-Lexes (suc f) d start value [] p h = throws (record { span = Span-refl; plain = refl })
string_from-Lexes (suc f) d start value (c ∷ []) p h =
    Ends-if (c == d) (λ _. returns (record { span = Span-step c [] p; plain = refl }))
      (λ _.
        Ends-if (c == b'\n') (λ _. throws (record { span = Span-refl; plain = refl }))
          (λ _. throws (record { span = Span-step c [] p; plain = refl })))
string_from-Lexes (suc f) d start value (c ∷ e ∷ es) p h =
    let q = step_over c p in
    let r = step_over e q in
    Ends-if (c == d) (λ _. returns (record { span = Span-step c (e ∷ es) p; plain = refl }))
      (λ _.
        Ends-if (c == b'\n') (λ _. throws (record { span = Span-refl; plain = refl }))
          (λ _.
            Ends-if (c == b'\\')
              (λ _. Lexes-behind (Span-cons (Span-step e es q)) (
                Lexes-bind Span-refl (escape-Moves e es r) λ bytes b s. Lexes-behind s (
                  string_from-Lexes f d start (value ++ bytes) b.rest b.at
                    (omega (arith, Span-length s)))))
              (λ _.
                Lexes-behind (Span-step c (e ∷ es) p)
                  (string_from-Lexes f d start (value ++ (c ∷ [])) (e ∷ es) q (omega arith)))))

pub lex_string-Lexes : (d : ℕ) (cs : Bytes) (p : Pos) → Lexes (cursor cs p) (lex_string d cs p)
unfolding lex_string
lex_string-Lexes d cs p = string_from-Lexes (suc (length cs)) d _ [] cs p (omega arith)

mutual
  unfolding fstring_text

  fstring_text-Lexes :
      (d : ℕ) (start : Pos) (raw cs : Bytes) (p : Pos)
      → Lexes (cursor cs p) (fstring_text d start raw cs p)
  fstring_text-Lexes d start raw [] p = throws (record { span = Span-refl; plain = refl })
  fstring_text-Lexes d start raw (c ∷ []) p =
      Ends-if (c == d) (λ _. returns (record { span = Span-step c [] p; plain = refl }))
        (λ _.
          Ends-if (c == b'\n') (λ _. throws (record { span = Span-refl; plain = refl }))
            (λ _.
              Ends-if (c == b'{') (λ _. throws (record { span = Span-step c [] p; plain = refl }))
                (λ _. throws (record { span = Span-step c [] p; plain = refl }))))
  fstring_text-Lexes d start raw (c ∷ e ∷ es) p =
      let q = step_over c p in
      let one = Span-step c (e ∷ es) p in
      Ends-if (c == d) (λ _. returns (record { span = one; plain = refl }))
        (λ _.
          Ends-if (c == b'\n') (λ _. throws (record { span = Span-refl; plain = refl }))
            (λ _.
              Ends-if (c == b'\\')
                (λ _.
                  Lexes-behind (Span-cons (Span-step e es q))
                    (fstring_text-Lexes d start (raw ++ (c ∷ e ∷ [])) es (step_over e q)))
                (λ _.
                  Ends-if (c == b'{')
                    (λ _.
                      Lexes-behind one (fstring_brace-Lexes d start p (raw ++ (c ∷ [])) (e ∷ es) q))
                    (λ _.
                      Lexes-behind one (fstring_text-Lexes d start (raw ++ (c ∷ [])) (e ∷ es) q)))))

  fstring_brace-Lexes :
      (d : ℕ) (start brace : Pos) (raw cs : Bytes) (p : Pos)
      → Lexes (cursor cs p) (fstring_brace d start brace raw cs p)
  fstring_brace-Lexes d start brace raw [] p = throws (record { span = Span-refl; plain = refl })
  fstring_brace-Lexes d start brace raw (c ∷ cs) p =
      let one = Span-step c cs p in
      Ends-if (c == b'}')
        (λ _. Lexes-behind one (fstring_text-Lexes d start (raw ++ (c ∷ [])) cs (step_over c p)))
        (λ _.
          Ends-if (c == b'\n' || c == d) (λ _. throws (record { span = Span-refl; plain = refl }))
            (λ _.
              Lexes-behind one
                (fstring_brace-Lexes d start brace (raw ++ (c ∷ [])) cs (step_over c p))))

pub lex_f_string-Lexes : (d : ℕ) (cs : Bytes) (p : Pos) → Lexes (cursor cs p) (lex_f_string d cs p)
unfolding lex_f_string
lex_f_string-Lexes d cs p = fstring_text-Lexes d _ (b'f' ∷ d ∷ []) cs p

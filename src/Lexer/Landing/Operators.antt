-- ===== src/Lexer/Landing/Operators.antt =====
-- lexOperator of src/lexer.cpp: the token spells the bytes that it consumed.
use visuall.Base.{
  ℕ, suc, ◌≡◌, refl, Bool, true, false, List, [], ◌∷◌, ◌++◌, ◌==◌, inl, inr, if◌then◌else◌, Bytes,
  Bool-cases, sym, ap, ◌∙◌, codes, ==_iff, ◌⊎◌, append_assoc, String, ◌||◌, ◌&&◌, arith,
}
use visuall.Lexer.Token.{TokenType}
use visuall.Lexer.Cursor.{
  Pos, Cursor, cursor, step_over, advance, advance_in, peek, first, second, peek_next,
}
use visuall.Lexer.Run.{LexError, unexpected}
use visuall.Lexer.Span.{over, over-append}
use visuall.Lexer.Operators.{
  Lexed, make, lex_other, unexpected_character, lex_angle, with_eq, lex_single, lex_operator,
  lex_arithmetic, is_arithmetic, is_angle,
}
use visuall.Lexer.Landing.Kinds.{ordinary, failed, kind}

-- The bytes `read` lie between two cursors.
record Between (a : Cursor) (read : Bytes) (b : Cursor) : Type 0 where
  splits : a.rest ≡ read ++ b.rest
  counted : b.at ≡ over read a.at

-- What is reported for a byte that starts no token.
abbrev pub Reports : ℕ → List LexError → Type 0
Reports c rs =
    (line column : ℕ) × (rs ≡ record { message = unexpected c; line = line; column = column } ∷ [])

-- Behind the byte `c`, the rest of the lexeme is what lies between the cursors. A token of kind
-- `failed` comes with one report, and an ordinary one with none.
pub record Spells (c : ℕ) (a : Cursor) (l : Lexed) : Type 0 where
  pub tail : Bytes
  pub spelled : l.token.lexeme ≡ c ∷ tail
  pub splits : a.rest ≡ tail ++ l.behind.rest
  pub counted : l.behind.at ≡ over tail a.at
  pub sorted :
      ((kind l.token.type ≡ ordinary) × (l.reported ≡ []))
      ⊎ ((kind l.token.type ≡ failed) × Reports c l.reported)

Between-advance :
    (cs : Bytes) (p : Pos) (e : ℕ)
    → first cs ≡ suc e
    → Between (cursor cs p) (suc e ∷ []) (advance_in cs p)
unfolding first advance_in
Between-advance [] p e h = cc
Between-advance (c ∷ cs) p e h = record {
  splits = ap (λ x. x ∷ cs) h;
  counted = ap (λ x. step_over x p) h;
}

Between-snoc :
    {a b d : Cursor} (pre : Bytes) {e : ℕ}
    → Between a pre b
    → Between b (e ∷ []) d
    → Between a (pre ++ e ∷ []) d
Between-snoc {a} {b} {d} pre {e} s t = record {
  splits = s.splits ∙ ap (◌++◌ pre) t.splits ∙ sym (append_assoc pre (e ∷ []) d.rest);
  counted = t.counted ∙ ap (step_over e) s.counted ∙ sym (over-append pre (e ∷ []) a.at);
}

module _ {c : ℕ} {a : Cursor} where
  Spells-make :
      (start : Pos) {t : TokenType} (s : String) {cur : Cursor} (pre : Bytes)
      → Between a pre cur
      → codes s ≡ c ∷ pre
      → kind t ≡ ordinary
      → Spells c a (make t s start cur)
  Spells-make start s pre b e k = record {
    tail = pre;
    spelled = e;
    splits = b.splits;
    counted = b.counted;
    sorted = inl (k, refl);
  }

  Spells-if_match :
      (e : ℕ) {cur : Cursor} {x y : Lexed} (pre : Bytes)
      → Between a pre cur
      → (Between a (pre ++ suc e ∷ []) (advance cur) → Spells c a x)
      → Spells c a y
      → Spells c a (if peek cur == suc e then x else y)
  Spells-if_match e {cur} pre b hm ho = elim (Bool-cases (peek cur == suc e)) [
    | inl h ↦ rw h (hm (Between-snoc pre b (Between-advance cur.rest cur.at e ((==_iff _ _).0 h))))
    | inr h ↦ rw h ho
  ]

  Spells-if :
      (t : Bool) {x y : Lexed}
      → (t ≡ true → Spells c a x)
      → (t ≡ false → Spells c a y)
      → Spells c a (if t then x else y)
  Spells-if true hx hy = hx refl
  Spells-if false hx hy = hy refl

  Spells-with_eq :
      (start : Pos) (t t' : TokenType) (s s' : String) {cur : Cursor} (pre : Bytes)
      → Between a pre cur
      → codes s ≡ c ∷ (pre ++ b'=' ∷ [])
      → codes s' ≡ c ∷ pre
      → kind t ≡ ordinary
      → kind t' ≡ ordinary
      → Spells c a (with_eq t s t' s' start cur)
  Spells-with_eq start t t' s s' pre b e e' k k' =
      Spells-if_match 60 pre b (λ bd. Spells-make start s (pre ++ b'=' ∷ []) bd e k)
        (Spells-make start s' pre b e' k')

  Spells-unexpected :
      (start : Pos) {cur : Cursor}
      → Between a [] cur
      → Spells c a (unexpected_character c start cur)
  Spells-unexpected start b = record {
    tail = [];
    spelled = refl;
    splits = b.splits;
    counted = b.counted;
    sorted = inr (refl, (start.line, start.column, refl));
  }

here : (cur : Cursor) → Between cur [] cur
here cur = record { splits = refl; counted = refl }

-- A literal lexeme, from the equation of the byte that was tested.
starts : {c k : ℕ} (cs : Bytes) → (c == k) ≡ true → k ∷ cs ≡ c ∷ cs
starts {c} {k} cs h = ap (λ x. x ∷ cs) (sym ((==_iff c k).0 h))

or_else : (a b : Bool) → (a || b) ≡ true → a ≡ false → b ≡ true
or_else a b h e = ground arith

lex_angle-Spells :
    (c : ℕ) (start : Pos) (cur : Cursor) → is_angle c ≡ true → Spells c cur (lex_angle c start cur)
unfolding lex_angle
lex_angle-Spells c start cur h =
    Spells-if (c == b'<')
      (λ e.
        Spells-if_match 59 [] (here cur)
          (λ b.
            Spells-with_eq start _ _ "<<=" "<<" (b'<' ∷ []) b (starts _ e) (starts _ e) refl refl)
          (Spells-if_match 44 [] (here cur)
            (λ b. Spells-make start "<-" (b'-' ∷ []) b (starts _ e) refl)
            (Spells-with_eq start _ _ "<=" "<" [] (here cur) (starts _ e) (starts _ e) refl refl)))
      (λ n.
        let e = or_else (c == b'<') (c == b'>') h n in
        Spells-if_match 61 [] (here cur)
          (λ b.
            Spells-with_eq start _ _ ">>=" ">>" (b'>' ∷ []) b (starts _ e) (starts _ e) refl refl)
          (Spells-with_eq start _ _ ">=" ">" [] (here cur) (starts _ e) (starts _ e) refl refl))

last_arithmetic :
    (c : ℕ)
    → is_arithmetic c ≡ true
    → (c == b'+') ≡ false
    → (c == b'-') ≡ false
    → (c == b'*') ≡ false
    → (c == b'/') ≡ false
    → (c == b'%') ≡ false
    → (c == b'=') ≡ false
    → (c == b'!') ≡ true
last_arithmetic c h p m s d r e = ground arith

lex_arithmetic-Spells :
    (c : ℕ) (start : Pos) (cur : Cursor)
    → is_arithmetic c ≡ true
    → Spells c cur (lex_arithmetic c start cur)
unfolding lex_arithmetic
lex_arithmetic-Spells c start cur h =
    let at = here cur in
    Spells-if (c == b'+')
      (λ e. Spells-with_eq start _ _ "+=" "+" [] at (starts _ e) (starts _ e) refl refl)
      λ n1.
        Spells-if (c == b'-')
          (λ e.
            Spells-if_match 61 [] at (λ b. Spells-make start "->" (b'>' ∷ []) b (starts _ e) refl)
              (Spells-with_eq start _ _ "-=" "-" [] at (starts _ e) (starts _ e) refl refl))
          λ n2.
            Spells-if (c == b'*')
              (λ e.
                Spells-if_match 41 [] at
                  (λ b.
                    Spells-with_eq start _ _ "**=" "**" (b'*' ∷ []) b (starts _ e) (starts _ e) refl
                      refl)
                  (Spells-with_eq start _ _ "*=" "*" [] at (starts _ e) (starts _ e) refl refl))
              λ n3.
                Spells-if (c == b'/')
                  (λ e.
                    Spells-if_match 46 [] at
                      (λ b.
                        Spells-with_eq start _ _ "//=" "//" (b'/' ∷ []) b (starts _ e) (starts _ e)
                          refl refl)
                      (Spells-with_eq start _ _ "/=" "/" [] at (starts _ e) (starts _ e) refl refl))
                  λ n4.
                    Spells-if (c == b'%')
                      (λ e.
                        Spells-with_eq start _ _ "%=" "%" [] at (starts _ e) (starts _ e) refl refl)
                      λ n5.
                        Spells-if (c == b'=')
                          (λ e.
                            Spells-with_eq start _ _ "==" "=" [] at (starts _ e) (starts _ e) refl
                              refl)
                          λ n6.
                            Spells-if_match 60 [] at
                              (λ b.
                                Spells-make start "!=" (b'=' ∷ []) b
                                  (starts _ (last_arithmetic c h n1 n2 n3 n4 n5 n6)) refl)
                              (Spells-unexpected start at)

lex_single-Spells : (c : ℕ) (start : Pos) (cur : Cursor) → Spells c cur (lex_single c start cur)
unfolding lex_single
lex_single-Spells c start cur =
    let one = here cur in
    Spells-if (c == b'(') (λ e. Spells-make start "(" [] one (starts _ e) refl)
      λ _.
        Spells-if (c == b')') (λ e. Spells-make start ")" [] one (starts _ e) refl)
          λ _.
            Spells-if (c == b'[') (λ e. Spells-make start "[" [] one (starts _ e) refl)
              λ _.
                Spells-if (c == b']') (λ e. Spells-make start "]" [] one (starts _ e) refl)
                  λ _.
                    Spells-if (c == b'{') (λ e. Spells-make start "{" [] one (starts _ e) refl)
                      λ _.
                        Spells-if (c == b'}') (λ e. Spells-make start "}" [] one (starts _ e) refl)
                          λ _.
                            Spells-if (c == b',')
                              (λ e. Spells-make start "," [] one (starts _ e) refl)
                              λ _.
                                Spells-if (c == b'~')
                                  (λ e. Spells-make start "~" [] one (starts _ e) refl)
                                  λ _.
                                    Spells-if (c == b'@')
                                      (λ e. Spells-make start "@" [] one (starts _ e) refl)
                                      λ _. Spells-unexpected start one

-- Two more dots, where both bytes looked at are dots.
Between-dots :
    (cs : Bytes) (p : Pos)
    → (first cs == b'.' && second cs == b'.') ≡ true
    → Between (cursor cs p) (b'.' ∷ b'.' ∷ []) (advance (advance_in cs p))
unfolding first second advance_in
Between-dots [] p h = cc
Between-dots (c ∷ []) p h = ground arith
Between-dots (c ∷ d ∷ cs) p h =
    let ec : c ≡ b'.' = ground arith in
    let ed : d ≡ b'.' = ground arith in
    record {
      splits = ap (λ x. x ∷ d ∷ cs) ec ∙ ap (λ x. b'.' ∷ x ∷ cs) ed;
      counted =
          ap (λ x. step_over d (step_over x p)) ec ∙ ap (λ x. step_over x (step_over b'.' p)) ed;
    }

lex_other-Spells : (c : ℕ) (start : Pos) (cur : Cursor) → Spells c cur (lex_other c start cur)
unfolding lex_other
lex_other-Spells c start cur =
    let one = here cur in
    Spells-if (c == b':')
      (λ e. Spells-with_eq start _ _ ":=" ":" [] one (starts _ e) (starts _ e) refl refl)
      λ _.
        Spells-if (c == b'&')
          (λ e. Spells-with_eq start _ _ "&=" "&" [] one (starts _ e) (starts _ e) refl refl)
          λ _.
            Spells-if (c == b'|')
              (λ e. Spells-with_eq start _ _ "|=" "|" [] one (starts _ e) (starts _ e) refl refl)
              λ _.
                Spells-if (c == b'^')
                  (λ e.
                    Spells-with_eq start _ _ "^=" "^" [] one (starts _ e) (starts _ e) refl refl)
                  λ _.
                    Spells-if (c == b'.')
                      (λ e.
                        Spells-if (peek cur == b'.' && peek_next cur == b'.')
                          (λ h.
                            Spells-make start "..." (b'.' ∷ b'.' ∷ [])
                              (Between-dots cur.rest cur.at h) (starts _ e) refl)
                          (λ _. Spells-make start "." [] one (starts _ e) refl))
                      λ _.
                        Spells-if (c == b'?')
                          (λ e.
                            Spells-if_match 62 [] one
                              (λ b. Spells-make start "??" (b'?' ∷ []) b (starts _ e) refl)
                              (Spells-make start "?" [] one (starts _ e) refl))
                          λ _. lex_single-Spells c start cur

-- The operator's lexeme is `c` and the bytes that lie between the cursor before and the one behind,
-- and the counters behind are those of these bytes. The token is ERROR exactly where one report is
-- made, and else it is an ordinary one with no report: never an INDENT, DEDENT or END_OF_FILE.
pub lex_operator-Spells :
    (c : ℕ) (start : Pos) (cur : Cursor) → Spells c cur (lex_operator c start cur)
unfolding lex_operator
lex_operator-Spells c start cur =
    Spells-if (is_angle c) (λ h. lex_angle-Spells c start cur h)
      λ _.
        Spells-if (is_arithmetic c) (λ h. lex_arithmetic-Spells c start cur h)
          λ _. lex_other-Spells c start cur

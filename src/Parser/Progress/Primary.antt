-- ===== src/Parser/Progress/Primary.antt =====
-- parsePrimary and parsePostfix in src/parser.cpp, and the tokens that they consume.
use visuall.Parser.Progress.{
  some_token, Ok, less, seq, strict, pure-ok, branch-ok, Reply, P, out_of_fuel, any, State,
  TokenType, Ok-mono, Token, ok, fails, fail, error-ok, lex_fail, lexes, faults, returns, behind,
}
use visuall.Parser.Progress.Tokens.{expect-ok, if_token-ok}
use visuall.Parser.Progress.Loops.{matches-ok, token-ok, loop-ok}
use visuall.Parser.Primary.{
  expression_list, arguments, more_elements, comprehension, more_dict_entries, dict_of, list_of,
  optional_expression, dict_entry, comprehension_condition, paren_of, subscript, index_of,
  member_name, parse_primary, more_postfix, parse_postfix,
}
use visuall.Base.{
  refl, ℕ, Bytes, ◌≢◌, List, String, Bool, arith, Option, suc, ◌∷◌, Bool-cases, some, not, none, [],
  inl, inr, leb,
}
use visuall.Parser.Expressions.{
  Stod, Entry, throw_at, float_literal_of, int_literal_of, converted, out_of_range,
  invalid_argument,
}
use visuall.Ast.Expr.{Expr}
use visuall.Parser.FStrings.{
  parse_parts, parse_embedded, fstring_of, Piece, literal_piece, code_piece,
}
use visuall.Lexer.Cursor.{is_digit, first}
use visuall.Parser.Monad.{fault}
use visuall.Packages.Versions.{extract_digits}
use visuall.Parser.Progress.Generics.{if_generic_call-ok}

module _ (stod : Bytes → Stod) (embedded : Bytes → Reply Expr) (self : Entry → P Expr) {n : ℕ}
    (returned : (t : Bytes) → embedded t ≢ out_of_fuel)
    (self-ok : (e : Entry) → Ok n some_token (self e)) where
  expression_list-ok : Ok n some_token (expression_list stod embedded self)
  unfolding expression_list
  expression_list-ok =
      strict (self-ok _) (λ e. matches-ok _ (λ es. seq (self-ok _) (λ e'. pure-ok _)) _)

  arguments-ok : Ok n some_token (arguments stod embedded self)
  unfolding arguments
  arguments-ok =
      seq (branch-ok _ (pure-ok _) (less expression_list-ok))
        (λ args. strict (expect-ok _ _) (λ _. pure-ok _))

  optional_expression-ok :
      (ends : State → Bool) → Ok n any (optional_expression stod embedded self ends)
  unfolding optional_expression
  optional_expression-ok ends = branch-ok ends (pure-ok _) (seq (self-ok _) (λ e. pure-ok _))

  more_elements-ok :
      (close : TokenType) (es : List Expr) → Ok n any (more_elements stod embedded self close es)
  unfolding more_elements
  more_elements-ok close = loop-ok _ (λ m l k h es.
      if_token-ok _
        (λ _. branch-ok _ (pure-ok _) (seq (Ok-mono (omega (arith, l)) (self-ok _)) (λ e. h _)))
        (pure-ok _))

  dict_entry-ok : Ok n some_token (dict_entry stod embedded self)
  unfolding dict_entry
  dict_entry-ok =
      strict (self-ok _) (λ key. strict (expect-ok _ _) (λ _. seq (self-ok _) (λ val. pure-ok _)))

  more_dict_entries-ok :
      (es : List (Expr × Expr)) → Ok n any (more_dict_entries stod embedded self es)
  unfolding more_dict_entries
  more_dict_entries-ok = loop-ok _ (λ m l k h es.
      if_token-ok _
        (λ _. branch-ok _ (pure-ok _) (seq (Ok-mono (omega (arith, l)) dict_entry-ok) (λ e. h _)))
        (pure-ok _))

  comprehension_condition-ok : Ok n any (comprehension_condition stod embedded self)
  unfolding comprehension_condition
  comprehension_condition-ok = token-ok _ (λ _. seq (self-ok _) (λ c. pure-ok _)) (pure-ok _)

  comprehension-ok :
      (close : TokenType) (message : String)
      → Ok n any (comprehension stod embedded self close message)
  unfolding comprehension
  comprehension-ok close message = seq (expect-ok _ _) (λ var. seq (expect-ok _ _) (λ _.
      seq (self-ok _) (λ iterable.
        seq comprehension_condition-ok (λ condition. seq (expect-ok _ _) (λ _. pure-ok _)))))

  paren_of-ok : Ok n any (paren_of stod embedded self)
  unfolding paren_of
  paren_of-ok =
      token-ok _ (λ _. pure-ok _)
        (seq (self-ok _) (λ first.
          token-ok _
            (λ _.
              seq (branch-ok _ (pure-ok _) (less expression_list-ok))
                (λ rest. seq (expect-ok _ _) (λ _. pure-ok _)))
            (seq (expect-ok _ _) (λ _. pure-ok _))))

  list_of-ok : Ok n any (list_of stod embedded self)
  unfolding list_of
  list_of-ok =
      token-ok _ (λ _. pure-ok _)
        (seq (self-ok _) (λ first.
          token-ok _ (λ _. seq (comprehension-ok _ _) (λ c. pure-ok _))
            (seq (more_elements-ok _ _) (λ es. seq (expect-ok _ _) (λ _. pure-ok _)))))

  dict_of-ok : Ok n any (dict_of stod embedded self)
  unfolding dict_of
  dict_of-ok =
      token-ok _ (λ _. pure-ok _)
        (seq dict_entry-ok (λ e.
          token-ok _ (λ _. seq (comprehension-ok _ _) (λ c. pure-ok _))
            (seq (more_dict_entries-ok _) (λ es. seq (expect-ok _ _) (λ _. pure-ok _)))))

  member_name-ok : Ok n any (member_name stod embedded self)
  unfolding member_name
  member_name-ok = token-ok _ (λ _. pure-ok _) (seq (expect-ok _ _) (λ t. pure-ok _))

  index_of-ok : (e : Expr) (i : Option Expr) → Ok n any (index_of stod embedded self e i)
  unfolding index_of
  index_of-ok e none = error-ok _
  index_of-ok e (some i) = seq (expect-ok _ _) (λ _. pure-ok _)

  subscript-ok : (e : Expr) → Ok n any (subscript stod embedded self e)
  unfolding subscript
  subscript-ok e = seq (optional_expression-ok _) (λ start.
      token-ok _
        (λ _. seq (optional_expression-ok _) (λ stop.
          seq (token-ok _ (λ _. optional_expression-ok _) (pure-ok _))
            (λ step. seq (expect-ok _ _) (λ _. pure-ok _))))
        (index_of-ok e start))

  parse_embedded-ok : (r : Reply Expr) → r ≢ out_of_fuel → Ok n any (parse_embedded r)
  unfolding parse_embedded
  parse_embedded-ok (ok e _) h = record { at = λ s l. returns e s (omega arith) }
  parse_embedded-ok (fail e _) h = record { at = λ s l. fails e s (omega arith) }
  parse_embedded-ok (lex_fail e) h = record { at = λ s l. lexes e }
  parse_embedded-ok fault h = record { at = λ s l. faults }
  parse_embedded-ok out_of_fuel h = let absurd : ⊥ = h refl in elim absurd [ ]

  parse_parts-ok : (ps : List Piece) → Ok n any (parse_parts embedded ps)
  unfolding parse_parts
  parse_parts-ok [] = pure-ok _
  parse_parts-ok (literal_piece t ∷ ps) = seq (parse_parts-ok ps) (λ parts. pure-ok _)
  parse_parts-ok (code_piece t ∷ ps) =
      seq (parse_embedded-ok (embedded t) (returned t))
        (λ e. seq (parse_parts-ok ps) (λ parts. pure-ok _))

  fstring_of-ok : (raw : Bytes) → Ok n any (fstring_of embedded raw)
  unfolding fstring_of
  fstring_of-ok raw = seq (parse_parts-ok _) (λ parts. pure-ok _)

  throw_at-ok : {A : Type 0} (t : Token) (message : String) → Ok n any (throw_at {A = A} t message)
  unfolding throw_at
  throw_at-ok t message = record { at = λ s l. fails _ s (omega arith) }

  int_literal_of-ok : (t : Token) → Ok n any (int_literal_of t)
  unfolding int_literal_of
  int_literal_of-ok t = elim (Bool-cases (not (is_digit (first t.lexeme)))) [
    | inl h ↦ rw h (throw_at-ok t _)
    | inr h ↦ rw h (elim (Bool-cases (leb (extract_digits 0 t.lexeme).value 0x7FFFFFFFFFFFFFFF)) [
      | inl h' ↦ rw h' (pure-ok _)
      | inr h' ↦ rw h' (throw_at-ok t _)
    ])
  ]

  float_literal_of-ok : (r : Stod) (t : Token) → Ok n any (float_literal_of r t)
  unfolding float_literal_of
  float_literal_of-ok converted t = pure-ok _
  float_literal_of-ok out_of_range t = throw_at-ok t _
  float_literal_of-ok invalid_argument t = throw_at-ok t _

  parse_primary-ok : Ok (suc n) some_token (parse_primary stod embedded self)
  unfolding parse_primary
  parse_primary-ok = if_token-ok _ int_literal_of-ok (
      if_token-ok _ (λ t. float_literal_of-ok _ t)
        (if_token-ok _ (λ t. pure-ok _)
          (if_token-ok _ (λ t. fstring_of-ok _)
            (if_token-ok _ (λ t. pure-ok _)
              (if_token-ok _ (λ t. pure-ok _)
                (if_token-ok _ (λ t. seq (self-ok _) (λ e. pure-ok _))
                  (if_token-ok _ (λ t. seq (self-ok _) (λ e. pure-ok _))
                    (if_token-ok _ (λ t. pure-ok _)
                      (if_token-ok _ (λ t. pure-ok _)
                        (if_token-ok _ (λ t. pure-ok _)
                          (if_token-ok _ (λ t. paren_of-ok)
                            (if_token-ok _ (λ t. list_of-ok)
                              (if_token-ok _ (λ t. dict_of-ok) (error-ok _))))))))))))))

  more_postfix-ok : (e : Expr) → Ok n any (more_postfix stod embedded self e)
  unfolding more_postfix
  more_postfix-ok = loop-ok _ (λ m l k h e.
      if_token-ok _ (λ _. seq (Ok-mono (omega (arith, l)) arguments-ok) (λ args. h _))
        (if_token-ok _ (λ _. seq (Ok-mono (omega (arith, l)) member_name-ok) (λ x. h _))
          (if_generic_call-ok (λ types. seq (Ok-mono (omega (arith, l)) arguments-ok) (λ args. h _))
            (if_token-ok _ (λ _. seq (Ok-mono (omega (arith, l)) (subscript-ok e)) (λ e'. h _))
              (pure-ok e)))))

  pub parse_postfix-ok : Ok (suc n) some_token (parse_postfix stod embedded self)
  unfolding parse_postfix
  parse_postfix-ok = behind parse_primary-ok (λ e. more_postfix-ok e)

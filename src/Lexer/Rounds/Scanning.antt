-- ===== src/Lexer/Rounds/Scanning.antt =====
-- The part of a round of tokenize in src/lexer.cpp from its second step on.
use visuall.Base.{
  ℕ, ◌≡◌, refl, Bytes, false, is_nil, ◌≤◌, length, true, ◌+◌, ◌∷◌, codes, ◌==◌, ◌*◌, arith, inl,
  ◌&&◌, inr, ◌<◌, ◌||◌, [], Bool-cases,
}
use visuall.Lexer.Landing.Words.{
  skip_whitespace-Span, skip_single_line_comment-Span, skip_multi_line_comment-Moves,
  lex_identifier_or_keyword-Lexes, lex_number-Lexes,
}
use visuall.Lexer.Landing.Strings.{lex_string-Lexes, lex_f_string-Lexes}
use visuall.Lexer.Landing.Operators.{lex_operator-Spells}
use visuall.Lexer.Rounds.Invariant.{
  Inv, measure, Attempted, going, falling, thrown, Attempted-if, flag,
}
use visuall.Lexer.Rounds.Steps.{Inv-weaken, Inv-move, Inv-token, Inv-report, Inv-at_line_start}
use visuall.Lexer.Cursor.{
  advance_in, Pos, is_at_end, first, advance, Cursor, peek, step_over, peek_next, is_digit,
  is_alpha,
}
use visuall.Lexer.Comments.{skip_whitespace, is_blank}
use visuall.Lexer.Tokenize.{
  Lexer, go_on, scan_comment, scan_operator, push_token, scan_newline, scan, continued, is_quote,
  suppresses_newline,
}
use visuall.Lexer.Run.{Run, returns, throws}
use visuall.Lexer.Span.{Span, Span-trans, Span-advance, Span-length, Span-refl}
use visuall.Lexer.Operators.{lex_operator}
use visuall.Lexer.Token.{Token, newline}
use visuall.Lexer.Landing.Kinds.{Lexes, Moves, Lexes-behind}
use visuall.Lexer.Words.{make_token}

advance_in-shorter :
    (cs : Bytes) (p : Pos) → is_nil cs ≡ false → length (advance_in cs p).rest + 1 ≡ length cs
unfolding advance_in
advance_in-shorter [] p h = cc
advance_in-shorter (c ∷ cs) p h = omega arith

-- At a blank the loop over blanks takes a step.
skip_whitespace_step :
    (cs : Bytes) (p : Pos)
    → is_nil cs ≡ false
    → is_blank (first cs) ≡ true
    → Span (advance_in cs p) (skip_whitespace cs p)
unfolding skip_whitespace advance_in first
skip_whitespace_step [] p h b = cc
skip_whitespace_step (c ∷ cs) p h b = rw b (skip_whitespace-Span cs (step_over c p))

-- The state in which the scan begins: past the indentation, with a byte left.
module _ {source : Bytes} {m : ℕ} (s : Lexer) (i : Inv source 0 s) (left : is_at_end s.cur ≡ false)
    (inside : s.at_line_start ≡ false) (le : measure s ≤ m) where
  shorter : length (advance s.cur).rest + 1 ≡ length s.cur.rest
  shorter = advance_in-shorter s.cur.rest s.cur.at left

  moved : {c : Cursor} → Span (advance s.cur) c → Inv source 2 (record s { cur = c })
  moved sp =
      Inv-move 1 i (Span-trans (Span-advance s.cur) sp) (omega (arith, shorter, Span-length sp))

  less : {c : Cursor} → Span (advance s.cur) c → 2 * length c.rest + flag s.at_line_start < m
  less sp = omega (arith, shorter, Span-length sp)

  going_to :
      {c : Cursor} → Span (advance s.cur) c → Attempted source m (continued (record s { cur = c }))
  going_to sp = going (Inv-weaken 0 (omega arith) (moved sp)) (less sp)

  push_token-Attempted :
      {r : Run Token} → Lexes (advance s.cur) r → Attempted source m (push_token s r)
  unfolding push_token
  push_token-Attempted (returns {a = t} h) =
      going (Inv-token t h.plain (Inv-weaken 1 (omega arith) (moved h.span))) (less h.span)
  push_token-Attempted (throws h) =
      thrown h.plain (Inv-weaken 1 (omega arith) (moved h.span)) (less h.span)

  go_on-Attempted :
      {a : Cursor} {r : Run (Unit {0})}
      → Span (advance s.cur) a
      → Moves a r
      → Attempted source m (go_on s r)
  unfolding go_on
  go_on-Attempted sp (returns h) = going_to (Span-trans sp h)
  go_on-Attempted sp (throws h) =
      let past = Span-trans sp h.span in
      thrown h.plain (Inv-weaken 1 (omega arith) (moved past)) (less past)

  scan_newline-Attempted : Attempted source m (scan_newline s)
  unfolding scan_newline
  scan_newline-Attempted = elim (Bool-cases (suppresses_newline s.tokens)) [
    | inl e ↦ rw e (
        going (Inv-at_line_start true (Inv-weaken 0 (omega arith) (moved Span-refl)))
          (omega (arith, shorter)))
    | inr e ↦ rw e (
        going
          (Inv-at_line_start true (
            Inv-token (make_token newline (codes "\\n") s.cur.at) refl
              (Inv-weaken 1 (omega arith) (moved Span-refl))))
          (omega (arith, shorter)))
  ]

  scan_comment-Attempted : Attempted source m (scan_comment s)
  unfolding scan_comment
  scan_comment-Attempted =
      let one = advance s.cur in
      let two = advance one in
      let three = advance two in
      let to_three = Span-trans (Span-advance one) (Span-advance two) in
      Attempted-if (peek_next s.cur == b'#')
        (λ _.
          Attempted-if (peek two == b'#')
            (λ _. go_on-Attempted to_three (skip_multi_line_comment-Moves three.rest three.at))
            (λ _.
              going_to
                (Span-trans (Span-advance one) (skip_single_line_comment-Span two.rest two.at))))
        (λ _. going_to (skip_single_line_comment-Span one.rest one.at))

  scan_operator-Attempted : Attempted source m (scan_operator s)
  unfolding scan_operator
  scan_operator-Attempted =
      let c = peek s.cur in
      let l = lex_operator c s.cur.at (advance s.cur) in
      let h = lex_operator-Spells c s.cur.at (advance s.cur) in
      let sp : Span (advance s.cur) l.behind = record {
        consumed = h.tail;
        splits = h.splits;
        counted = h.counted;
      } in
      elim h.sorted [
        | inl (k, e) ↦
            falling (rw e (Inv-token l.token k (Inv-weaken 1 (omega arith) (moved sp)))) (less sp)
        | inr (k, e) ↦
            falling (Inv-report c l.token l.reported k e (Inv-weaken 1 (omega arith) (moved sp)))
              (less sp)
      ]

  pub scan-Attempted : Attempted source m (scan s)
  unfolding scan
  scan-Attempted =
      let c = peek s.cur in
      let one = advance s.cur in
      let two = advance one in
      Attempted-if (is_blank c) (λ b. going_to (skip_whitespace_step s.cur.rest s.cur.at left b))
        λ _.
          Attempted-if (c == b'\n') (λ _. scan_newline-Attempted)
            λ _.
              Attempted-if (c == b'#') (λ _. scan_comment-Attempted)
                λ _.
                  Attempted-if (c == b'f' && is_quote (peek_next s.cur))
                    (λ _. push_token-Attempted (
                      Lexes-behind (Span-advance one)
                        (lex_f_string-Lexes (peek_next s.cur) two.rest two.at)))
                    λ _.
                      Attempted-if (is_quote c)
                        (λ _. push_token-Attempted (lex_string-Lexes c one.rest one.at))
                        λ _.
                          Attempted-if (is_digit c)
                            (λ _. push_token-Attempted (lex_number-Lexes c s.cur.at one))
                            λ _.
                              Attempted-if (is_alpha c || c == b'_')
                                (λ _.
                                  push_token-Attempted
                                    (lex_identifier_or_keyword-Lexes c s.cur.at one))
                                λ _. scan_operator-Attempted

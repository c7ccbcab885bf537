-- ===== src/Lexer/EmptyLine.antt =====
-- A text of src/lexer.cpp's tokenize that begins with an empty line and goes on with one that is
-- indented by spaces.
use visuall.Base.{
  ℕ, [], ◌∷◌, ◌≡◌, refl, Bytes, true, Bool, not, List, ◌==◌, false, suc, Option, some, arith, none,
  ap, ◌*◌, length, ◌+◌, ◌∙◌, leb,
}
use visuall.Lexer.Words.Reading.{all_bytes, and-cases}
use visuall.Lexer.Reports.{exception}
use visuall.Lexer.Comments.{skip_single_line_comment}
use visuall.Lexer.Cursor.{Pos, Cursor, is_at_end, cursor, first, start_pos, step_over, advance_in}
use visuall.Lexer.Run.{LexError, spaces_in_indentation}
use visuall.Lexer.Tokenize.{
  rounds, round, Lexer, initial, guard, tokenize, error_token, run, finish,
}
use visuall.Lexer.Span.{over}
use visuall.Lexer.Token.{Token}
use visuall.Lexer.Indentation.{leading_tabs, normalize_indentation}
use visuall.Lexer.Indentation.Normal.{normalize_indentation-empty_line}

abbrev is_text : Bytes → Bool
is_text = all_bytes (λ c. not (c == b'\n'))

skip_single_line_comment-line :
    (line : Bytes) (p : Pos)
    → is_text line ≡ true
    → skip_single_line_comment line p ≡ cursor [] (over line p)
unfolding skip_single_line_comment
skip_single_line_comment-line [] p h = refl
skip_single_line_comment-line (c ∷ cs) p h =
    let (hc, hcs) = and-cases (not (c == b'\n')) (is_text cs) h in
    let other : (c == b'\n') ≡ false = ground arith in
    rw other (skip_single_line_comment-line cs (step_over c p) hcs)

rounds_step :
    (f : ℕ) (s t : Lexer)
    → is_at_end s.cur ≡ false
    → round s ≡ some t
    → rounds (suc f) s ≡ rounds f t
unfolding rounds
rounds_step f s t e r = rw (e, rounds) (rw (r, rounds) refl)

rounds_end : (f : ℕ) (s : Lexer) → is_at_end s.cur ≡ true → rounds (suc f) s ≡ some s
unfolding rounds
rounds_end f s e = rw (e, rounds) refl

abbrev refused_at_2 : LexError
refused_at_2 = record { message = spaces_in_indentation; line = 2; column = 1 }

abbrev second_line : Pos
second_line = record { offset = 1; line = 2; column = 1 }

module _ (line : Bytes) where
  abbrev source : Bytes
  source = b'\n' ∷ b' ' ∷ line

  abbrev state : Cursor → Bool → List Token → List LexError → Option LexError → Lexer
  state c b ts es o = record {
    cur = c;
    at_line_start = b;
    indent_stack = 0 ∷ [];
    tokens = ts;
    errors = es;
    first_error = o;
  }

  round_1 : round (initial source) ≡ some (state (cursor source start_pos) false [] [] none)
  unfolding round initial leading_tabs first
  round_1 = refl

  round_2 :
      round (state (cursor source start_pos) false [] [] none)
      ≡ some (state (cursor (b' ' ∷ line) second_line) true [] [] none)
  unfolding round initial leading_tabs first advance_in step_over
  round_2 = refl

guard-at_end : (start : Pos) (s : Lexer) → is_at_end s.cur ≡ true → guard start s ≡ s
unfolding guard
guard-at_end start s e = ground arith

module _ (line : Bytes) (h : is_text line ≡ true) where
  abbrev last : Lexer
  last =
      state line (cursor [] (over line (step_over b' ' second_line))) false
        (error_token refused_at_2 "<indent-error>" ∷ []) (refused_at_2 ∷ []) (some refused_at_2)

  round_3 : round (state line (cursor (b' ' ∷ line) second_line) true [] [] none) ≡ some last
  unfolding round leading_tabs first
  round_3 =
      rw (skip_single_line_comment-line line (step_over b' ' second_line) h)
        (ap some (guard-at_end second_line last refl))

  run-empty_line : run (source line) ≡ some last
  unfolding run
  run-empty_line =
      let fuel : 2 * length (source line) + 2 ≡ suc (suc (suc (suc (2 * length line + 2)))) =
        omega arith in
      let f = 2 * length line + 2 in
      let first_state = state line (cursor (source line) start_pos) false [] [] none in
      let second_state = state line (cursor (b' ' ∷ line) second_line) true [] [] none in
      rw fuel (
        rounds_step (suc (suc (suc f))) (initial (source line)) first_state (unfold initial in refl)
          (round_1 line)
        ∙ rounds_step (suc (suc f)) first_state second_state refl (round_2 line)
        ∙ rounds_step (suc f) second_state last refl round_3
        ∙ rounds_end f last refl)

  finish-empty_line : exception (finish (length (source line)) (some last)) ≡ some refused_at_2
  unfolding finish
  finish-empty_line =
      let fits : leb 1 (length (source line) * 2 + 1) ≡ true = ground arith in rw fits refl

tokenize_lem :
    (text : Bytes)
    → tokenize text
      ≡ finish (length (normalize_indentation text)) (run (normalize_indentation text))
unfolding tokenize
tokenize_lem text = refl

-- On a text of two lines, the first empty and the second beginning with a space, tokenize throws an
-- IndentationError at the first byte of the second line, however many spaces begin it.
pub tokenize-empty_line :
    (line : Bytes)
    → is_text line ≡ true
    → exception (tokenize (b'\n' ∷ b' ' ∷ line)) ≡ some refused_at_2
tokenize-empty_line line h =
    ap exception (tokenize_lem (source line))
    ∙ rw (normalize_indentation-empty_line (b' ' ∷ line) h)
        (rw (run-empty_line line h) (finish-empty_line line h))

-- ===== src/Lexer/Indentation.antt =====
-- normalizeIndentation and handleIndentation of src/lexer.cpp.
pub mod Normal
use visuall.Base.{
  ℕ, zero, suc, ◌+◌, Bool, true, false, ◌||◌, List, [], ◌∷◌, ◌++◌, ◌==◌, leb, ltb, if◌then◌else◌,
  Bytes, codes,
}
use visuall.Lexer.Token.{Token, indent, dedent}
use visuall.Lexer.Cursor.{Pos, Cursor, cursor, step_over, is_at_end, peek}
use visuall.Lexer.Run.{Run, done, spaces_in_indentation, inconsistent_indentation}
use visuall.Lexer.Words.{make_token, error_at}
use visuall.Lexer.Strings.{error_here}

-- `std::string(n, ' ')`.
unfoldable pub spaces : ℕ → Bytes
spaces zero = []
spaces (suc n) = b' ' ∷ spaces n

-- What stands in the result for `n` pending spaces in front of a tab.
unfoldable pub flush_before_tab : ℕ → Bytes
unfolding spaces
flush_before_tab n = if n == 0 then [] else if leb n 2 then spaces n else b'\t' ∷ []

-- The same in front of any other byte.
unfoldable pub flush_before_text : ℕ → Bytes
flush_before_text n = if n == 0 then [] else b'\t' ∷ []

-- The loop over the source: the first flag is `atLineStart`, the number `spaces`. A line break is
-- looked for in the `else` of the test of `atLineStart` only.
unfoldable pub normalize_from : Bool → ℕ → Bytes → Bytes
unfolding flush_before_tab flush_before_text
normalize_from at_line_start n [] = []
normalize_from true n (c ∷ cs) =
    if c == b' '
    then if n + 1 == 4 then b'\t' ∷ normalize_from true 0 cs else normalize_from true (n + 1) cs
    else if c == b'\t'
    then flush_before_tab n ++ (b'\t' ∷ normalize_from true 0 cs)
    else flush_before_text n ++ (c ∷ normalize_from false 0 cs)
normalize_from false n (c ∷ cs) =
    if c == b'\n' then c ∷ normalize_from true 0 cs else c ∷ normalize_from false n cs

unfoldable pub normalize_indentation : Bytes → Bytes
unfolding normalize_from
normalize_indentation = normalize_from true 0

-- `indentStack_.top()`; the stack is never empty.
unfoldable pub top : List ℕ → ℕ
top [] = 0
top (t ∷ _) = t

-- The tabs at the head, and the cursor at the first byte that is none.
pub record Tabs : Type 0 where
  pub count : ℕ
  pub behind : Cursor

unfoldable pub leading_tabs : Bytes → Pos → Tabs
leading_tabs [] p = record { count = 0; behind = cursor [] p }
leading_tabs (c ∷ cs) p =
    let more = leading_tabs cs (step_over c p) in
    if c == b'\t'
    then record { count = more.count + 1; behind = more.behind }
    else record { count = 0; behind = cursor (c ∷ cs) p }

-- The stack and the tokens that the routine leaves, also where it throws. `emitted` has the newest
-- token first.
pub record Layout : Type 0 where
  pub stack : List ℕ
  pub emitted : List Token
  pub outcome : Run (Unit {0})

-- The loop that pops the levels above `n`, with a DEDENT for each.
pub record Popped : Type 0 where
  pub left : List ℕ
  pub dedents : List Token

unfoldable pub pop_above : ℕ → Pos → List ℕ → Popped
pop_above n start [] = record { left = []; dedents = [] }
pop_above n start (t ∷ st) =
    let more = pop_above n start st in
    if ltb n t
    then record {
      left = more.left;
      dedents = make_token dedent (codes "<DEDENT>") start ∷ more.dedents;
    }
    else record { left = t ∷ st; dedents = [] }

-- The comparison of the tab count with the stack.
unfoldable pub change_level : ℕ → List ℕ → Pos → Cursor → Layout
unfolding top pop_above
change_level n st start behind =
    let p = pop_above n start st in
    if ltb (top st) n
    then record {
      stack = n ∷ st;
      emitted = make_token indent (codes "<INDENT>") start ∷ [];
      outcome = done tt behind;
    }
    else if ltb n (top st)
    then record {
      stack = p.left;
      emitted = p.dedents;
      outcome =
          if top p.left == n
          then done tt behind
          else error_at inconsistent_indentation start behind;
    }
    else record { stack = st; emitted = []; outcome = done tt behind }

unfoldable pub handle_indentation : List ℕ → Cursor → Layout
unfolding leading_tabs change_level
handle_indentation st cur =
    let t = leading_tabs cur.rest cur.at in
    if peek t.behind == b' '
    then record { stack = st; emitted = []; outcome = error_here spaces_in_indentation t.behind }
    else if is_at_end t.behind || peek t.behind == b'\n' || peek t.behind == b'#'
    then record { stack = st; emitted = []; outcome = done tt t.behind }
    else change_level t.count st cur.at t.behind

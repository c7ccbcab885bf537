-- ===== src/Formatter/Spacing.antt =====
-- normalizeOperators and normalizeCommas of tools/visuall-lsp/src/formatter.cpp. Both go through a
-- line in rounds; `result` is written newest byte first.
use visuall.Base.{
  ℕ, Bool, true, false, ◌&&◌, ◌||◌, not, [], ◌∷◌, ◌==◌, if◌then◌else◌, Bytes, is_nil, reverse,
}
use visuall.Lexer.Cursor.{first, is_alnum}
use visuall.Lexer.Tokenize.{is_quote}
use visuall.Formatter.Lines.{is_indent}

pub record Spacing : Type 0 where
  pub in_string : Bool
  pub string_delim : ℕ
  pub result : Bytes

-- How far a round moves: over the byte at hand, over the next one too, over the byte and the spaces
-- behind it, or to the end of the line.
pub data Consumed : Type 0 where
  one two one_and_spaces everything : Consumed

pub record Round : Type 0 where
  pub state : Spacing
  pub consumed : Consumed

abbrev pub put : Bytes → Consumed → Spacing → Round
put result n s = record { state = record s { result = result }; consumed = n }

unfoldable pub push_all : Bytes → Bytes → Bytes
push_all [] r = r
push_all (c ∷ cs) r = push_all cs (c ∷ r)

-- The start of a string, and a round inside one.
abbrev pub open_string : Spacing → ℕ → Round
open_string s c = record {
  state = record { in_string = true; string_delim = c; result = c ∷ s.result };
  consumed = one;
}

unfoldable pub string_round : Spacing → ℕ → Bytes → Round
unfolding first
string_round s c cs =
    if c == b'\\' && not (is_nil cs) then put (first cs ∷ c ∷ s.result) two s else record {
      state = record s { in_string = not (c == s.string_delim); result = c ∷ s.result };
      consumed = one;
    }

-- `if (!result.empty() && result.back() != ' ') result += ' ';`.
unfoldable pub space_before : Bytes → Bytes
space_before [] = []
space_before (b ∷ r) = if b == b' ' then b ∷ r else b' ' ∷ b ∷ r

-- A space, where a byte follows that is none of two.
unfoldable pub space_unless : ℕ → ℕ → Bytes → Bytes → Bytes
space_unless x y [] r = r
space_unless x y (c ∷ cs) r = if c == x || c == y then r else b' ' ∷ r

unfoldable pub behind_next : Bytes → Bytes
behind_next [] = []
behind_next (c ∷ cs) = cs

abbrev pub is_operator : ℕ → Bool
is_operator c =
    c == b'+'
    || c == b'-'
    || c == b'*'
    || c == b'/'
    || c == b'%'
    || c == b'='
    || c == b'!'
    || c == b'<'
    || c == b'>'
    || c == b'|'
    || c == b'&'
    || c == b'^'

-- The two-byte operators: one of twelve bytes and `=`, or one of four twice.
abbrev pub is_compound : ℕ → ℕ → Bool
is_compound c d =
    (d == b'='
      && (c == b'='
          || c == b'!'
          || c == b'<'
          || c == b'>'
          || c == b'+'
          || c == b'-'
          || c == b'*'
          || c == b'/'
          || c == b'%'
          || c == b'&'
          || c == b'|'
          || c == b'^'))
    || (d == c && (c == b'*' || c == b'/' || c == b'<' || c == b'>'))

-- Whether the last byte written makes an operator binary.
unfoldable pub is_binary : Bytes → Bool
is_binary [] = false
is_binary (b ∷ r) = is_alnum b || b == b')' || b == b']' || b == b'\'' || b == b'"' || b == b'_'

-- The round at an operator; past the end the next byte is 0.
unfoldable pub operator_round : Spacing → ℕ → Bytes → Round
unfolding first space_before space_unless behind_next is_binary
operator_round s c cs =
    let d = first cs in
    let spaced = space_before s.result in
    if c == b'-' && d == b'>'
    then put (space_unless b' ' b' ' (behind_next cs) (d ∷ c ∷ spaced)) two s
    else if is_compound c d
    then put (space_unless b' ' b'\n' (behind_next cs) (d ∷ c ∷ spaced)) two s
    else if c == b'='
    then put (space_unless b' ' b'=' cs (c ∷ spaced)) one s
    else if is_binary s.result
    then put (space_unless b' ' b' ' cs (c ∷ spaced)) one s
    else put (c ∷ s.result) one s

unfoldable pub operators_round : Spacing → ℕ → Bytes → Round
unfolding first string_round push_all operator_round
operators_round s c cs =
    if not s.in_string && is_quote c
    then open_string s c
    else if s.in_string
    then string_round s c cs
    else if c == b'#' && first cs == b'#'
    then put (push_all (c ∷ cs) s.result) everything s
    else if is_operator c
    then operator_round s c cs
    else put (c ∷ s.result) one s

-- `while (!result.empty() && result.back() == ' ') result.pop_back();`.
unfoldable pub pop_spaces : Bytes → Bytes
pop_spaces [] = []
pop_spaces (b ∷ r) = if b == b' ' then pop_spaces r else b ∷ r

unfoldable pub comma_round : Spacing → ℕ → Bytes → Round
unfolding first pop_spaces
comma_round s c cs =
    let r = c ∷ pop_spaces s.result in
    if not (is_nil cs) && not (first cs == b' ') && not (first cs == b'\n')
    then put (b' ' ∷ r) one s
    else if not (is_nil cs) && first cs == b' '
    then put (b' ' ∷ r) one_and_spaces s
    else put r one s

unfoldable pub commas_round : Spacing → ℕ → Bytes → Round
unfolding first string_round push_all comma_round
commas_round s c cs =
    if not s.in_string && is_quote c
    then open_string s c
    else if s.in_string
    then string_round s c cs
    else if c == b'#' && first cs == b'#'
    then put (push_all (c ∷ cs) s.result) everything s
    else if c == b','
    then comma_round s c cs
    else put (c ∷ s.result) one s

-- The loop, by what a round does. The flag says that spaces are skipped first.
unfoldable pub loop : (Spacing → ℕ → Bytes → Round) → Bool → Spacing → Bytes → Bytes
loop round skip s [] = s.result
loop round skip s (c ∷ []) = if skip && c == b' ' then s.result else (round s c []).state.result
loop round skip s (c ∷ d ∷ rest) =
    let skipped = loop round true s (d ∷ rest) in
    let r = round s c (d ∷ rest) in
    let next : Bytes = elim r.consumed [
      | one ↦ loop round false r.state (d ∷ rest)
      | two ↦ loop round false r.state rest
      | one_and_spaces ↦ loop round true r.state (d ∷ rest)
      | everything ↦ r.state.result
    ] in
    if skip && c == b' ' then skipped else next

abbrev pub outside : Bytes → Spacing
outside result = record { in_string = false; string_delim = 0; result = result }

-- The head of the line is copied first.
unfoldable pub operators_from : Bytes → Bytes → Bytes
unfolding loop operators_round
operators_from r [] = r
operators_from r (c ∷ cs) =
    let copied = operators_from (c ∷ r) cs in
    if is_indent c then copied else loop operators_round false (outside r) (c ∷ cs)

unfoldable pub normalize_operators : Bytes → Bytes
unfolding operators_from
normalize_operators line = reverse (operators_from [] line)

unfoldable pub normalize_commas : Bytes → Bytes
unfolding loop commas_round
normalize_commas line = reverse (loop commas_round false (outside []) line)

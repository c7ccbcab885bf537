-- ===== src/Formatter/Lines.antt =====
-- The routines of tools/visuall-lsp/src/formatter.cpp on one line: stripTrailingWhitespace,
-- normalizeIndentation, isTopLevelDef, isClassDef, isComment and isBlank.
use visuall.Base.{
  ℕ, zero, suc, ◌+◌, ◌/◌, ◌%◌, Bool, true, false, ◌&&◌, ◌||◌, not, [], ◌∷◌, ◌++◌, ◌==◌, ltb,
  if◌then◌else◌, Bytes, codes, is_nil,
}
use visuall.Lexer.Cursor.{first, second}

-- The bytes of " \t" and of " \t\r".
abbrev pub is_indent : ℕ → Bool
is_indent c = c == b' ' || c == b'\t'

abbrev pub is_white : ℕ → Bool
is_white c = c == b' ' || c == b'\t' || c == b'\r'

-- Up to the last byte that is not white.
unfoldable pub strip_trailing_whitespace : Bytes → Bytes
strip_trailing_whitespace [] = []
strip_trailing_whitespace (c ∷ cs) =
    let rest = strip_trailing_whitespace cs in if is_nil rest && is_white c then [] else c ∷ rest

-- The loop that counts: the spaces, the tabs, and what stands behind them.
pub record Leading : Type 0 where
  pub spaces : ℕ
  pub tabs : ℕ
  pub behind : Bytes

unfoldable pub leading : Bytes → Leading
leading [] = record { spaces = 0; tabs = 0; behind = [] }
leading (c ∷ cs) =
    let more = leading cs in
    if c == b' '
    then record { spaces = more.spaces + 1; tabs = more.tabs; behind = more.behind }
    else if c == b'\t'
    then record { spaces = more.spaces; tabs = more.tabs + 1; behind = more.behind }
    else record { spaces = 0; tabs = 0; behind = c ∷ cs }

-- `std::string(n, '\t')`.
unfoldable pub tab_string : ℕ → Bytes
tab_string zero = []
tab_string (suc n) = b'\t' ∷ tab_string n

abbrev pub total_tabs : Leading → ℕ
total_tabs l = l.tabs + l.spaces / 4 + (if ltb 0 (l.spaces % 4) then 1 else 0)

unfoldable pub normalize_indentation : Bytes → Bytes
unfolding leading tab_string
normalize_indentation line =
    let l = leading line in if is_nil l.behind then [] else tab_string (total_tabs l) ++ l.behind

-- `line.find(word) == 0`.
unfoldable pub starts_with : Bytes → Bytes → Bool
starts_with [] line = true
starts_with (w ∷ ws) [] = false
starts_with (w ∷ ws) (c ∷ cs) = w == c && starts_with ws cs

unfoldable pub is_class_def : Bytes → Bool
unfolding starts_with first
is_class_def line = not (is_nil line || is_indent (first line)) && starts_with (codes "class ") line

unfoldable pub is_top_level_def : Bytes → Bool
unfolding starts_with first
is_top_level_def line =
    not (is_nil line || is_indent (first line))
    && (starts_with (codes "define ") line
        || starts_with (codes "class ") line
        || starts_with (codes "interface ") line)

unfoldable pub is_comment : Bytes → Bool
unfolding leading first second
is_comment line = let text = (leading line).behind in first text == b'#' && second text == b'#'

unfoldable pub is_blank : Bytes → Bool
is_blank [] = true
is_blank (c ∷ cs) = is_white c && is_blank cs

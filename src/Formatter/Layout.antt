-- ===== src/Formatter/Layout.antt =====
-- format of tools/visuall-lsp/src/formatter.cpp: the lines of a source, the blank lines between
-- them, and the output. The lines of a result are kept newest first.
use visuall.Base.{
  ℕ, Bool, true, false, ◌&&◌, ◌||◌, not, List, [], ◌∷◌, ◌++◌, ◌==◌, if◌then◌else◌, Bytes, reverse,
  map, Option, none, some,
}
use visuall.Formatter.Lines.{
  strip_trailing_whitespace, normalize_indentation, is_class_def, is_top_level_def, is_comment,
  is_blank,
}
use visuall.Formatter.Spacing.{normalize_operators, normalize_commas}

-- The `std::getline` loop.
abbrev pub add_front : ℕ → List Bytes → List Bytes
add_front c [] = (c ∷ []) ∷ []
add_front c (l ∷ ls) = (c ∷ l) ∷ ls

unfoldable pub split_lines : Bytes → List Bytes
split_lines [] = []
split_lines (c ∷ cs) =
    let rest = split_lines cs in if c == b'\n' then [] ∷ rest else add_front c rest

-- The first phase, on one line.
unfoldable pub normalize_line : Bytes → Bytes
unfolding strip_trailing_whitespace normalize_indentation is_comment is_blank normalize_operators
    normalize_commas
normalize_line line =
    let l = normalize_indentation (strip_trailing_whitespace line) in
    if is_comment l || is_blank l then l else normalize_commas (normalize_operators l)

unfoldable pub pop_blanks : List Bytes → List Bytes
unfolding is_blank
pop_blanks [] = []
pop_blanks (l ∷ ls) = if is_blank l then pop_blanks ls else l ∷ ls

-- A round of the second phase.
unfoldable pub place : List Bytes → Bytes → List Bytes
unfolding is_blank is_class_def is_top_level_def is_comment pop_blanks
place [] l = if is_blank l then [] else l ∷ []
place (back ∷ ls) l =
    if is_class_def l
    then l ∷ [] ∷ [] ∷ pop_blanks (back ∷ ls)
    else if is_top_level_def l && not (is_blank back) && not (is_comment back)
    then l ∷ [] ∷ back ∷ ls
    else l ∷ back ∷ ls

unfoldable pub place_all : List Bytes → List Bytes → List Bytes
unfolding place
place_all result [] = result
place_all result (l ∷ ls) = place_all (place result l) ls

unfoldable pub ends_with_colon : Bytes → Bool
ends_with_colon [] = false
ends_with_colon (c ∷ []) = c == b':'
ends_with_colon (_ ∷ d ∷ cs) = ends_with_colon (d ∷ cs)

-- `i > 0` and the line before opens a block.
unfoldable pub opens_block : Option Bytes → Bool
unfolding strip_trailing_whitespace ends_with_colon
opens_block none = false
opens_block (some l) = ends_with_colon (strip_trailing_whitespace l)

unfoldable pub is_blank_back : List Bytes → Bool
unfolding is_blank
is_blank_back [] = false
is_blank_back (l ∷ _) = is_blank l

unfoldable pub has_text_front : List Bytes → Bool
unfolding is_blank
has_text_front [] = false
has_text_front (l ∷ _) = not (is_blank l)

abbrev pub is_some : Option Bytes → Bool
is_some none = false
is_some (some _) = true

-- Whether the third phase leaves a line out: by the line before it, what is kept so far, and the
-- lines that follow.
unfoldable pub is_dropped : Option Bytes → List Bytes → Bytes → List Bytes → Bool
unfolding is_blank opens_block is_blank_back has_text_front
is_dropped before cleaned l ls =
    is_blank l
    && (opens_block before || (has_text_front ls && is_some before && is_blank_back cleaned))

unfoldable pub clean : Option Bytes → List Bytes → List Bytes → List Bytes
unfolding is_dropped
clean before cleaned [] = cleaned
clean before cleaned (l ∷ ls) =
    let without = clean (some l) cleaned ls in
    let kept = clean (some l) (l ∷ cleaned) ls in
    if is_dropped before cleaned l ls then without else kept

unfoldable pub join : List Bytes → Bytes
join [] = []
join (l ∷ []) = l
join (l ∷ m ∷ ls) = l ++ (b'\n' ∷ join (m ∷ ls))

-- `if (!output.empty() && output.back() != '\n') output += '\n';`.
unfoldable pub end_line : Bytes → Bytes
end_line [] = []
end_line (c ∷ []) = if c == b'\n' then c ∷ [] else c ∷ b'\n' ∷ []
end_line (c ∷ d ∷ cs) = c ∷ end_line (d ∷ cs)

unfoldable pub format : Bytes → Bytes
unfolding split_lines normalize_line place_all pop_blanks clean join end_line
format source =
    let lines = map normalize_line (split_lines source) in
    let result = reverse (pop_blanks (place_all [] lines)) in
    end_line (join (reverse (clean none [] result)))

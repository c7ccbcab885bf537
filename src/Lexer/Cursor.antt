-- ===== src/Lexer/Cursor.antt =====
-- The source state of the lexer in src/lexer.cpp: `source_` with `pos_`, `line_` and `column_`.
-- A cursor holds the bytes from `pos_` on, and where they start. `advance` is called in the
-- source only where a byte is left.
use visuall.Base.{ℕ, ◌+◌, Bool, ◌&&◌, ◌||◌, [], ◌∷◌, ◌==◌, leb, if◌then◌else◌, Bytes, is_nil}

pub record Pos : Type 0 where
  pub offset : ℕ
  pub line : ℕ
  pub column : ℕ

pub record Cursor : Type 0 where
  pub rest : Bytes
  pub at : Pos

abbrev pub cursor : Bytes → Pos → Cursor
cursor rest at = record { rest = rest; at = at }

abbrev pub start_pos : Pos
start_pos = record { offset = 0; line = 1; column = 1 }

-- What `advance` does to the counters, by the byte that it consumes.
unfoldable pub step_over : ℕ → Pos → Pos
step_over c p =
    if c == b'\n'
    then record { offset = p.offset + 1; line = p.line + 1; column = 1 }
    else record { offset = p.offset + 1; line = p.line; column = p.column + 1 }

unfoldable pub advance_in : Bytes → Pos → Cursor
advance_in [] p = cursor [] p
advance_in (c ∷ cs) p = cursor cs (step_over c p)

abbrev pub advance : Cursor → Cursor
advance c = advance_in c.rest c.at

abbrev pub is_at_end : Cursor → Bool
is_at_end c = is_nil c.rest

-- The byte at the head, and `\0` past the end.
unfoldable pub first : Bytes → ℕ
first [] = 0
first (c ∷ _) = c

unfoldable pub second : Bytes → ℕ
unfolding first
second [] = 0
second (_ ∷ cs) = first cs

abbrev pub peek : Cursor → ℕ
peek c = first c.rest

abbrev pub peek_next : Cursor → ℕ
peek_next c = second c.rest

-- The <cctype> tests in the C locale.
abbrev pub within : ℕ → ℕ → ℕ → Bool
within lo hi c = leb lo c && leb c hi

abbrev pub is_digit : ℕ → Bool
is_digit c = within b'0' b'9' c

abbrev pub is_alpha : ℕ → Bool
is_alpha c = within b'a' b'z' c || within b'A' b'Z' c

abbrev pub is_alnum : ℕ → Bool
is_alnum c = is_alpha c || is_digit c

abbrev pub is_xdigit : ℕ → Bool
is_xdigit c = is_digit c || within b'a' b'f' c || within b'A' b'F' c

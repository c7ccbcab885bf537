-- ===== src/Lexer/Strings.antt =====
-- lexString of src/lexer.cpp, with its escape sequences. The opening quote has been consumed.
pub mod Quoting
use visuall.Base.{
  ℕ, zero, suc, ◌+◌, ◌-◌, ◌*◌, ◌%◌, Bool, ◌&&◌, [], ◌∷◌, ◌++◌, ◌==◌, leb, ltb, if◌then◌else◌, Bytes,
  length,
}
use visuall.Lexer.Token.{Token, string_literal}
use visuall.Lexer.Cursor.{Pos, Cursor, cursor, step_over, is_digit, is_xdigit, within}
use visuall.Lexer.Run.{
  Message, Run, done, throw, out_of_fuel, bind, unterminated_string, malformed_hex,
  malformed_unicode_4, malformed_unicode_8, surrogate, too_large,
}
use visuall.Lexer.Utf8.{to_char, encode_bmp, encode_full}
use visuall.Lexer.Words.{make_token, error_at, Scan, prepend}

-- The value of a hexadecimal digit, and what `strtoul` with base 16 makes of a run of them.
unfoldable pub hex_digit : ℕ → ℕ
hex_digit c =
    if is_digit c then c - b'0' else if within b'a' b'f' c then c - b'a' + 10 else c - b'A' + 10

unfoldable pub strtoul_onto : ℕ → Bytes → ℕ
unfolding hex_digit
strtoul_onto acc [] = acc
strtoul_onto acc (c ∷ cs) = strtoul_onto (acc * 16 + hex_digit c) cs

abbrev pub strtoul : Bytes → ℕ
strtoul = strtoul_onto 0

-- `error`, at the cursor.
abbrev pub error_here {ℓ} : {A : Type ℓ} → Message → Cursor → Run A
error_here m c = error_at m c.at c

-- At most `n` hexadecimal digits.
unfoldable pub hex_run : ℕ → Bytes → Pos → Scan
hex_run zero cs p = record { value = []; behind = cursor cs p }
hex_run (suc n) [] p = record { value = []; behind = cursor [] p }
hex_run (suc n) (c ∷ cs) p =
    if is_xdigit c
    then prepend c (hex_run n cs (step_over c p))
    else record { value = []; behind = cursor (c ∷ cs) p }

-- Exactly `n` of them, or the error `m`.
unfoldable pub hex_exactly : ℕ → Message → Bytes → Pos → Run Bytes
unfolding hex_run
hex_exactly n m cs p =
    let s = hex_run n cs p in
    if length s.value == n then done s.value s.behind else error_here m s.behind

-- `\xNN`.
unfoldable pub hex_escape : Bytes → Pos → Run Bytes
unfolding hex_run strtoul_onto
hex_escape cs p =
    let s = hex_run 2 cs p in
    if length s.value == 0
    then error_here malformed_hex s.behind
    else done (to_char (strtoul s.value) ∷ []) s.behind

-- `\uNNNN`.
unfoldable pub unicode_4_escape : Bytes → Pos → Run Bytes
unfolding hex_exactly strtoul_onto encode_bmp
unicode_4_escape cs p = bind (hex_exactly 4 malformed_unicode_4 cs p) λ hex behind.
    let scalar = strtoul hex in
    if within 0xD800 0xDFFF scalar
    then error_here (surrogate scalar) behind
    else done (encode_bmp scalar) behind

-- `\UNNNNNNNN`.
unfoldable pub unicode_8_escape : Bytes → Pos → Run Bytes
unfolding hex_exactly strtoul_onto encode_full
unicode_8_escape cs p = bind (hex_exactly 8 malformed_unicode_8 cs p) λ hex behind.
    let scalar = strtoul hex in
    if ltb 0x10FFFF scalar
    then error_here (too_large scalar) behind
    else if within 0xD800 0xDFFF scalar
    then error_here (surrogate scalar) behind
    else done (encode_full scalar) behind

-- The one-byte cases of the switch on the byte behind the backslash, and its default.
unfoldable pub simple_escape : ℕ → Bytes
simple_escape e =
    if e == b'n'
    then 10 ∷ []
    else if e == b't'
    then 9 ∷ []
    else if e == b'r'
    then 13 ∷ []
    else if e == b'\\'
    then b'\\' ∷ []
    else if e == b'\''
    then b'\'' ∷ []
    else if e == b'"'
    then b'"' ∷ []
    else if e == b'0'
    then 0 ∷ []
    else if e == b'a'
    then 7 ∷ []
    else if e == b'b'
    then 8 ∷ []
    else if e == b'f'
    then 12 ∷ []
    else if e == b'v'
    then 11 ∷ []
    else if e == b'e'
    then 0x1B ∷ []
    else b'\\' ∷ e ∷ []

-- The switch; the cursor stands behind the byte `e`.
unfoldable pub escape : ℕ → Bytes → Pos → Run Bytes
unfolding hex_escape unicode_4_escape unicode_8_escape simple_escape
escape e cs p =
    if e == b'x'
    then hex_escape cs p
    else if e == b'u'
    then unicode_4_escape cs p
    else if e == b'U'
    then unicode_8_escape cs p
    else done (simple_escape e) (cursor cs p)

-- The loop, with the value so far. An escape consumes several bytes, so it runs on fuel.
unfoldable pub string_from : ℕ → ℕ → Pos → Bytes → Bytes → Pos → Run Token
unfolding escape
string_from zero delimiter start value cs p = out_of_fuel
string_from (suc f) delimiter start value [] p = error_at unterminated_string start (cursor [] p)
string_from (suc f) delimiter start value (c ∷ []) p =
    if c == delimiter
    then done (make_token string_literal value start) (cursor [] (step_over c p))
    else if c == b'\n'
    then error_at unterminated_string start (cursor (c ∷ []) p)
    else error_at unterminated_string start (cursor [] (step_over c p))
string_from (suc f) delimiter start value (c ∷ e ∷ es) p =
    let escaped =
      bind (escape e es (step_over e (step_over c p)))
        λ bytes behind. string_from f delimiter start (value ++ bytes) behind.rest behind.at in
    let plain = string_from f delimiter start (value ++ (c ∷ [])) (e ∷ es) (step_over c p) in
    if c == delimiter
    then done (make_token string_literal value start) (cursor (e ∷ es) (step_over c p))
    else if c == b'\n'
    then error_at unterminated_string start (cursor (c ∷ e ∷ es) p)
    else if c == b'\\'
    then escaped
    else plain

-- `p` is behind the opening quote.
unfoldable pub lex_string : ℕ → Bytes → Pos → Run Token
unfolding string_from
lex_string delimiter cs p =
    string_from (suc (length cs)) delimiter (record p { column = p.column - 1 }) [] cs p

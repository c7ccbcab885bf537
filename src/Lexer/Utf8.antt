-- ===== src/Lexer/Utf8.antt =====
-- The UTF-8 encoders in the cases `u` and `U` of lexString, src/lexer.cpp. `code >> k` is
-- `code / 2 ^ k`, `x & 0x3F` is `x % 64`, and the cast to `char` keeps a byte.
pub mod Decoding
use visuall.Base.{ℕ, ◌/◌, ◌%◌, [], ◌∷◌, bit_or, leb, if◌then◌else◌, Bytes}

abbrev pub to_char : ℕ → ℕ
to_char x = x % 256

-- `0x80 | (x & 0x3F)`.
abbrev pub continuation : ℕ → ℕ
continuation x = to_char (bit_or 0x80 (x % 64))

unfoldable pub encode_bmp : ℕ → Bytes
encode_bmp code =
    if leb code 0x7F
    then to_char code ∷ []
    else if leb code 0x7FF
    then to_char (bit_or 0xC0 (code / 64)) ∷ continuation code ∷ []
    else to_char (bit_or 0xE0 (code / 4096)) ∷ continuation (code / 64) ∷ continuation code ∷ []

unfoldable pub encode_full : ℕ → Bytes
encode_full code =
    if leb code 0x7F
    then to_char code ∷ []
    else if leb code 0x7FF
    then to_char (bit_or 0xC0 (code / 64)) ∷ continuation code ∷ []
    else if leb code 0xFFFF
    then to_char (bit_or 0xE0 (code / 4096)) ∷ continuation (code / 64) ∷ continuation code ∷ []
    else to_char (bit_or 0xF0 (code / 262144))
      ∷ continuation (code / 4096)
      ∷ continuation (code / 64)
      ∷ continuation code
      ∷ []

-- ===== src/Lexer/Utf8/Decoding.antt =====
-- What the encoders of lexString in src/lexer.cpp write is well-formed UTF-8.
use visuall.Base.{
  ℕ, [], ◌∷◌, ◌≡◌, refl, true, Bytes, ◌+◌, Bool, ◌<◌, bit_or, ◌%◌, Option, suc, leb, some, none,
  ◌==◌, ◌&&◌, arith, zero, not, if◌then◌else◌, ◌≤◌, ◌*◌, ◌-◌, ltb, ◌++◌, ◌/◌, false, ◌∙◌, ap,
}
use visuall.Lexer.Utf8.{continuation, to_char, encode_full, encode_bmp}

-- Bitwise or, where the bits of the two sides are apart.
agrees : ℕ → ℕ → Bool
agrees mark zero = true
agrees mark (suc n) = bit_or mark n == mark + n && agrees mark n

agrees_sound : (mark n x : ℕ) → agrees mark n ≡ true → x < n → bit_or mark x ≡ mark + x
unfolding agrees
agrees_sound mark zero x h lt = absurd (omega arith)
agrees_sound mark (suc n) x h lt = ground (arith, agrees_sound mark n x)

or_80 : (x : ℕ) → x < 64 → bit_or 0x80 x ≡ 0x80 + x
or_80 x h = agrees_sound 0x80 64 x (unfold agrees in refl) h

or_C0 : (x : ℕ) → x < 32 → bit_or 0xC0 x ≡ 0xC0 + x
or_C0 x h = agrees_sound 0xC0 32 x (unfold agrees in refl) h

or_E0 : (x : ℕ) → x < 16 → bit_or 0xE0 x ≡ 0xE0 + x
or_E0 x h = agrees_sound 0xE0 16 x (unfold agrees in refl) h

or_F0 : (x : ℕ) → x < 8 → bit_or 0xF0 x ≡ 0xF0 + x
or_F0 x h = agrees_sound 0xF0 8 x (unfold agrees in refl) h

continuation_lem : (x : ℕ) → continuation x ≡ 0x80 + x % 64
continuation_lem x = omega (arith, or_80 (x % 64) (omega arith))

-- A scalar value: a code point that is no surrogate.
abbrev pub is_scalar : ℕ → Bool
is_scalar code = leb code 0x10FFFF && not (leb 0xD800 code && leb code 0xDFFF)

abbrev is_continuation : ℕ → Bool
is_continuation b = leb 0x80 b && leb b 0xBF

-- A code point that its sequence may stand for: not below the shortest form's range, and scalar.
accept : ℕ → ℕ → Bytes → Option (ℕ × Bytes)
accept least code rest = if leb least code && is_scalar code then some (code, rest) else none

-- Sequences of two, three and four bytes, behind the lead byte.
decode_2 : ℕ → Bytes → Option (ℕ × Bytes)
decode_2 a (b ∷ rest) =
    if is_continuation b then accept 0x80 ((a - 0xC0) * 64 + (b - 0x80)) rest else none
decode_2 a _ = none

decode_3 : ℕ → Bytes → Option (ℕ × Bytes)
decode_3 a (b ∷ c ∷ rest) =
    if is_continuation b && is_continuation c
    then accept 0x800 ((a - 0xE0) * 4096 + (b - 0x80) * 64 + (c - 0x80)) rest
    else none
decode_3 a _ = none

decode_4 : ℕ → Bytes → Option (ℕ × Bytes)
decode_4 a (b ∷ c ∷ d ∷ rest) =
    if is_continuation b && is_continuation c && is_continuation d
    then accept 0x10000 ((a - 0xF0) * 262144 + (b - 0x80) * 4096 + (c - 0x80) * 64 + (d - 0x80))
        rest
    else none
decode_4 a _ = none

-- The first code point of well-formed UTF-8, as the Unicode standard has it.
unfoldable pub decode : Bytes → Option (ℕ × Bytes)
unfolding accept decode_2 decode_3 decode_4
decode [] = none
decode (a ∷ rest) =
    if ltb a 0x80
    then some (a, rest)
    else if ltb a 0xC0
    then none
    else if ltb a 0xE0
    then decode_2 a rest
    else if ltb a 0xF0
    then decode_3 a rest
    else if ltb a 0xF8
    then decode_4 a rest
    else none

decode_one : (code : ℕ) (rest : Bytes) → code < 0x80 → decode (code ∷ rest) ≡ some (code, rest)
unfolding decode
decode_one code rest h = ground arith

-- Two bytes, from the parts of a code point.
decode_two :
    (h l : ℕ) (rest : Bytes)
    → 2 ≤ h
    → h < 32
    → l < 64
    → decode ((0xC0 + h) ∷ (0x80 + l) ∷ rest) ≡ some (h * 64 + l, rest)
unfolding decode
decode_two h l rest h2 h32 l64 = ground arith

decode_three :
    (h m l : ℕ) (rest : Bytes)
    → h < 16
    → m < 64
    → l < 64
    → 0x800 ≤ h * 4096 + m * 64 + l
    → is_scalar (h * 4096 + m * 64 + l) ≡ true
    → decode ((0xE0 + h) ∷ (0x80 + m) ∷ (0x80 + l) ∷ rest) ≡ some (h * 4096 + m * 64 + l, rest)
unfolding decode
decode_three h m l rest h16 m64 l64 least scalar = ground arith

decode_four :
    (h m n l : ℕ) (rest : Bytes)
    → h < 8
    → m < 64
    → n < 64
    → l < 64
    → 0x10000 ≤ h * 262144 + m * 4096 + n * 64 + l
    → is_scalar (h * 262144 + m * 4096 + n * 64 + l) ≡ true
    → decode ((0xF0 + h) ∷ (0x80 + m) ∷ (0x80 + n) ∷ (0x80 + l) ∷ rest)
      ≡ some (h * 262144 + m * 4096 + n * 64 + l, rest)
unfolding decode
decode_four h m n l rest h8 m64 n64 l64 least scalar = ground arith

abbrev Decodes : Bytes → ℕ → Bytes → Type 0
Decodes bytes code rest = decode (bytes ++ rest) ≡ some (code, rest)

lead_2 : (code : ℕ) → code ≤ 0x7FF → to_char (bit_or 0xC0 (code / 64)) ≡ 0xC0 + code / 64
lead_2 code h = omega (arith, or_C0 (code / 64) (omega arith))

lead_3 : (code : ℕ) → code ≤ 0xFFFF → to_char (bit_or 0xE0 (code / 4096)) ≡ 0xE0 + code / 4096
lead_3 code h = omega (arith, or_E0 (code / 4096) (omega arith))

lead_4 : (code : ℕ) → code ≤ 0x10FFFF → to_char (bit_or 0xF0 (code / 262144)) ≡ 0xF0 + code / 262144
lead_4 code h = omega (arith, or_F0 (code / 262144) (omega arith))

two_Decodes :
    (code : ℕ) (rest : Bytes)
    → 0x80 ≤ code
    → code ≤ 0x7FF
    → Decodes (to_char (bit_or 0xC0 (code / 64)) ∷ continuation code ∷ []) code rest
two_Decodes code rest lo hi =
    let parts : code / 64 * 64 + code % 64 ≡ code = omega arith in
    rw (lead_2 code hi, continuation_lem code)
      (decode_two (code / 64) (code % 64) rest (omega arith) (omega arith) (omega arith)
        ∙ ap (λ n. some (n, rest)) parts)

three_Decodes :
    (code : ℕ) (rest : Bytes)
    → 0x800 ≤ code
    → code ≤ 0xFFFF
    → is_scalar code ≡ true
    → Decodes
        (to_char (bit_or 0xE0 (code / 4096)) ∷ continuation (code / 64) ∷ continuation code ∷ [])
        code
        rest
three_Decodes code rest lo hi scalar =
    let parts : code / 4096 * 4096 + code / 64 % 64 * 64 + code % 64 ≡ code = omega arith in
    rw (lead_3 code hi, continuation_lem (code / 64), continuation_lem code)
      (decode_three (code / 4096) (code / 64 % 64) (code % 64) rest (omega arith) (omega arith)
          (omega arith) (omega arith) (ap is_scalar parts ∙ scalar)
        ∙ ap (λ n. some (n, rest)) parts)

four_Decodes :
    (code : ℕ) (rest : Bytes)
    → 0x10000 ≤ code
    → code ≤ 0x10FFFF
    → is_scalar code ≡ true
    → Decodes
        (to_char (bit_or 0xF0 (code / 262144))
          ∷ continuation (code / 4096)
          ∷ continuation (code / 64)
          ∷ continuation code
          ∷ [])
        code
        rest
four_Decodes code rest lo hi scalar =
    let parts : code / 262144 * 262144 + code / 4096 % 64 * 4096 + code / 64 % 64 * 64 + code % 64
        ≡ code =
      omega arith in
    rw
      (
        lead_4 code hi,
        continuation_lem (code / 4096),
        continuation_lem (code / 64),
        continuation_lem code,
      )
      (decode_four (code / 262144) (code / 4096 % 64) (code / 64 % 64) (code % 64) rest
          (omega arith) (omega arith) (omega arith) (omega arith) (omega arith)
          (ap is_scalar parts ∙ scalar)
        ∙ ap (λ n. some (n, rest)) parts)

-- The same as a family, so that a test can be taken apart.
data Reads (code : ℕ) (rest : Bytes) (bytes : Bytes) : Type 0 where
  reads : Decodes bytes code rest → Reads code rest bytes

Reads-if :
    {code : ℕ} {rest : Bytes} (b : Bool) {x y : Bytes}
    → (b ≡ true → Reads code rest x)
    → (b ≡ false → Reads code rest y)
    → Reads code rest (if b then x else y)
Reads-if true hx hy = hx refl
Reads-if false hx hy = hy refl

Reads-one : (code : ℕ) (rest : Bytes) → leb code 0x7F ≡ true → Reads code rest (to_char code ∷ [])
Reads-one code rest h =
    let e : to_char code ≡ code = ground arith in reads (rw e (decode_one code rest (ground arith)))

scalar_bound : (code : ℕ) → is_scalar code ≡ true → code ≤ 0x10FFFF
scalar_bound code h = ground arith

encode_full-Reads :
    (code : ℕ) (rest : Bytes) → is_scalar code ≡ true → Reads code rest (encode_full code)
unfolding encode_full
encode_full-Reads code rest scalar = Reads-if (leb code 0x7F) (Reads-one code rest) λ h1.
    Reads-if (leb code 0x7FF) (λ h. reads (two_Decodes code rest (ground arith) (ground arith)))
      λ h2.
        Reads-if (leb code 0xFFFF)
          (λ h. reads (three_Decodes code rest (ground arith) (ground arith) scalar))
          λ h3. reads (four_Decodes code rest (ground arith) (scalar_bound code scalar) scalar)

encode_bmp-Reads :
    (code : ℕ) (rest : Bytes)
    → code ≤ 0xFFFF
    → is_scalar code ≡ true
    → Reads code rest (encode_bmp code)
unfolding encode_bmp
encode_bmp-Reads code rest hi scalar = Reads-if (leb code 0x7F) (Reads-one code rest) λ h1.
    Reads-if (leb code 0x7FF) (λ h. reads (two_Decodes code rest (ground arith) (ground arith)))
      λ h2. reads (three_Decodes code rest (ground arith) hi scalar)

-- The bytes that `\U` writes for a scalar value are the well-formed UTF-8 for it, in front of any
-- other bytes.
pub decode-encode_full :
    (code : ℕ) (rest : Bytes)
    → is_scalar code ≡ true
    → decode (encode_full code ++ rest) ≡ some (code, rest)
decode-encode_full code rest scalar = elim (encode_full-Reads code rest scalar) [ reads h ↦ h ]

-- The bytes that `\u` writes for a scalar value of at most 0xFFFF are the well-formed UTF-8 for it,
-- in front of any other bytes.
pub decode-encode_bmp :
    (code : ℕ) (rest : Bytes)
    → code ≤ 0xFFFF
    → is_scalar code ≡ true
    → decode (encode_bmp code ++ rest) ≡ some (code, rest)
decode-encode_bmp code rest hi scalar = elim (encode_bmp-Reads code rest hi scalar) [ reads h ↦ h ]

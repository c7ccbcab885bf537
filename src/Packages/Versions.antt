-- ===== src/Packages/Versions.antt =====
-- The versions of src/vsl_resolver.cpp: Semver, parseSemver, semverGreater, and how a requirement is
-- merged into the version that is resolved so far. An int is kept as its distance from INT_MIN.
use visuall.Base.{
  ℕ, ◌+◌, ◌-◌, ◌*◌, Bool, true, false, ◌&&◌, ◌||◌, not, [], ◌∷◌, ◌==◌, ltb, leb, if◌then◌else◌,
  Bytes, Option, none, some,
}
use visuall.Lexer.Cursor.{is_digit, first}

pub record Semver : Type 0 where
  pub major : ℕ
  pub minor : ℕ
  pub patch : ℕ

abbrev pub and_then {ℓ κ} : {A : Type ℓ} {B : Type κ} → Option A → (A → Option B) → Option B
and_then none f = none
and_then (some a) f = f a

-- What `>>` leaves of a stream behind a value.
pub record Extracted : Type 0 where
  pub value : ℕ
  pub rest : Bytes

-- `std::isspace` in the C locale.
abbrev pub is_space : ℕ → Bool
is_space c = c == b' ' || (leb 9 c && leb c 13)

unfoldable pub skip_space : Bytes → Bytes
skip_space [] = []
skip_space (c ∷ cs) = if is_space c then skip_space cs else c ∷ cs

unfoldable pub extract_digits : ℕ → Bytes → Extracted
extract_digits n [] = record { value = n; rest = [] }
extract_digits n (c ∷ cs) =
    let more = extract_digits (n * 10 + (c - b'0')) cs in
    if is_digit c then more else record { value = n; rest = c ∷ cs }

-- The digits behind a sign, where there are some and the number fits an int.
unfoldable pub extract_signed : Bool → Bytes → Option Extracted
unfolding extract_digits first
extract_signed negative cs =
    let x = extract_digits 0 cs in
    if not (is_digit (first cs))
    then none
    else if negative
    then if leb x.value 0x80000000
      then some (record { value = 0x80000000 - x.value; rest = x.rest })
      else none
    else if leb x.value 0x7FFFFFFF
    then some (record { value = 0x80000000 + x.value; rest = x.rest })
    else none

unfoldable pub extract_unspaced : Bytes → Option Extracted
unfolding extract_signed
extract_unspaced [] = none
extract_unspaced (c ∷ cs) =
    if c == b'-'
    then extract_signed true cs
    else if c == b'+'
    then extract_signed false cs
    else extract_signed false (c ∷ cs)

-- `ss >> n` for an int, and `ss >> c` for a char.
unfoldable pub extract_int : Bytes → Option Extracted
unfolding extract_unspaced skip_space
extract_int cs = extract_unspaced (skip_space cs)

abbrev pub extract_head : Bytes → Option Extracted
extract_head [] = none
extract_head (c ∷ cs) = some (record { value = c; rest = cs })

unfoldable pub extract_char : Bytes → Option Extracted
unfolding skip_space
extract_char cs = extract_head (skip_space cs)

unfoldable pub parse_semver : Bytes → Option Semver
unfolding extract_int extract_char
parse_semver s = and_then (extract_int s) λ major. and_then (extract_char major.rest) λ sep1.
    and_then (extract_int sep1.rest) λ minor. and_then (extract_char minor.rest) λ sep2.
      and_then (extract_int sep2.rest) λ patch.
        if not (sep1.value == b'.') || not (sep2.value == b'.')
        then none
        else some (record { major = major.value; minor = minor.value; patch = patch.value })

unfoldable pub semver_greater : Semver → Semver → Bool
semver_greater a b =
    if not (a.major == b.major)
    then ltb b.major a.major
    else if not (a.minor == b.minor)
    then ltb b.minor a.minor
    else ltb b.patch a.patch

-- The version that is kept, or what is thrown.
pub data Merged : Type 0 where
  kept : Bytes → Merged
  invalid_semver : Bytes → Merged
  major_conflict : Bytes → Bytes → Merged

unfoldable pub merge_parsed : Bytes → Bytes → Option Semver → Option Semver → Merged
unfolding semver_greater
merge_parsed old ver none incoming = invalid_semver old
merge_parsed old ver (some existing) none = invalid_semver ver
merge_parsed old ver (some existing) (some incoming) =
    if not (existing.major == incoming.major)
    then major_conflict old ver
    else if semver_greater incoming existing
    then kept ver
    else kept old

-- `resolvedVersion[url]`, if it is there, and the version that is required.
unfoldable pub merge_version : Option Bytes → Bytes → Merged
unfolding merge_parsed parse_semver
merge_version none ver = kept ver
merge_version (some old) ver = merge_parsed old ver (parse_semver old) (parse_semver ver)

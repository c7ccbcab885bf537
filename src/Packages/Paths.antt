-- ===== src/Packages/Paths.antt =====
-- sanitizeUrlForCache of src/vsl_paths.cpp, which names the directory of a package in the cache.
use visuall.Base.{
  refl, ℕ, zero, suc, Bool, ◌&&◌, ◌||◌, [], ◌∷◌, ◌++◌, ◌==◌, if◌then◌else◌, Bytes, codes, length,
  map, Option, none, some, ◌≤◌, ◌≡◌, arith, true, not, Bool-cases, false, length-append, inl, inr,
}
use visuall.Lexer.Cursor.{first, second, is_alnum}
use visuall.Lexer.Words.Reading.{all_bytes, and-cases}

-- What stands behind the first `://`, if there is one.
unfoldable pub behind_scheme : Bytes → Option Bytes
unfolding first second
behind_scheme [] = none
behind_scheme (c ∷ []) = none
behind_scheme (c ∷ d ∷ []) = none
behind_scheme (c ∷ d ∷ e ∷ cs) =
    let later = behind_scheme (d ∷ e ∷ cs) in
    if c == b':' && d == b'/' && e == b'/' then some cs else later

unfoldable pub strip_scheme : Bytes → Option Bytes → Bytes
strip_scheme url none = url
strip_scheme url (some rest) = rest

abbrev pub is_safe : ℕ → Bool
is_safe c = is_alnum c || c == b'.' || c == b'_' || c == b'-'

unfoldable pub replace_unsafe : ℕ → ℕ
replace_unsafe c = if is_safe c then c else b'_'

-- `s.resize(n)`, on a longer string.
unfoldable pub take : ℕ → Bytes → Bytes
take zero cs = []
take (suc n) [] = []
take (suc n) (c ∷ cs) = c ∷ take n cs

unfoldable pub sanitize_url_for_cache : Bytes → Bytes
unfolding behind_scheme strip_scheme replace_unsafe take
sanitize_url_for_cache url =
    take 200 (map replace_unsafe (strip_scheme url (behind_scheme url))) ++ codes ".git"

replace_unsafe_lem : (c : ℕ) → is_safe (replace_unsafe c) ≡ true
unfolding replace_unsafe
replace_unsafe_lem c = elim (Bool-cases (is_safe c)) [ inl h ↦ rw h h | inr h ↦ rw h refl ]

map-safe : (cs : Bytes) → all_bytes is_safe (map replace_unsafe cs) ≡ true
map-safe [] = refl
map-safe (c ∷ cs) = rw (replace_unsafe_lem c) (map-safe cs)

take-safe :
    (n : ℕ) (cs : Bytes) → all_bytes is_safe cs ≡ true → all_bytes is_safe (take n cs) ≡ true
unfolding take
take-safe zero cs h = refl
take-safe (suc n) [] h = refl
take-safe (suc n) (c ∷ cs) h =
    let (hc, hcs) = and-cases (is_safe c) (all_bytes is_safe cs) h in rw hc (take-safe n cs hcs)

append-safe :
    (xs ys : Bytes)
    → all_bytes is_safe xs ≡ true
    → all_bytes is_safe ys ≡ true
    → all_bytes is_safe (xs ++ ys) ≡ true
append-safe [] ys hx hy = hy
append-safe (x ∷ xs) ys hx hy =
    let (hc, hcs) = and-cases (is_safe x) (all_bytes is_safe xs) hx in
    rw hc (append-safe xs ys hcs hy)

length-take : (n : ℕ) (cs : Bytes) → length (take n cs) ≤ n
unfolding take
length-take zero cs = omega arith
length-take (suc n) [] = omega arith
length-take (suc n) (c ∷ cs) = omega (arith, length-take n cs)

-- For every URL the name in the cache holds letters, digits, `.`, `_` and `-` only, and it has at most
-- 204 bytes.
pub sanitize_url_for_cache-safe :
    (url : Bytes)
    → (all_bytes is_safe (sanitize_url_for_cache url) ≡ true)
      × (length (sanitize_url_for_cache url) ≤ 204)
unfolding sanitize_url_for_cache
sanitize_url_for_cache-safe url =
    let cs = map replace_unsafe (strip_scheme url (behind_scheme url)) in
    (
      append-safe (take 200 cs) (codes ".git")
          (take-safe 200 cs (map-safe (strip_scheme url (behind_scheme url)))) refl,
      omega (arith, length-append (take 200 cs) (codes ".git"), length-take 200 cs),
    )

behind_scheme-found :
    (scheme path : Bytes)
    → all_bytes (λ c. not (c == b':')) scheme ≡ true
    → behind_scheme (scheme ++ (b':' ∷ b'/' ∷ b'/' ∷ path)) ≡ some path
unfolding behind_scheme
behind_scheme-found [] path h = refl
behind_scheme-found (c ∷ []) path h =
    let other : (c == b':') ≡ false = ground arith in rw other refl
behind_scheme-found (c ∷ d ∷ []) path h =
    let (hc, hd) = and-cases (not (c == b':')) (all_bytes (λ c. not (c == b':')) (d ∷ [])) h in
    let other : (c == b':') ≡ false = ground arith in
    rw other (behind_scheme-found (d ∷ []) path hd)
behind_scheme-found (c ∷ d ∷ e ∷ cs) path h =
    let (hc, hd) = and-cases (not (c == b':')) (all_bytes (λ c. not (c == b':')) (d ∷ e ∷ cs)) h in
    let other : (c == b':') ≡ false = ground arith in
    rw other (behind_scheme-found (d ∷ e ∷ cs) path hd)

-- Two URLs that differ in the scheme in front of `://` only have the same name in the cache.
pub sanitize_url_for_cache-scheme :
    (scheme other path : Bytes)
    → all_bytes (λ c. not (c == b':')) scheme ≡ true
    → all_bytes (λ c. not (c == b':')) other ≡ true
    → sanitize_url_for_cache (scheme ++ (b':' ∷ b'/' ∷ b'/' ∷ path))
      ≡ sanitize_url_for_cache (other ++ (b':' ∷ b'/' ∷ b'/' ∷ path))
unfolding sanitize_url_for_cache strip_scheme
sanitize_url_for_cache-scheme scheme other path h h' =
    rw (behind_scheme-found scheme path h) (rw (behind_scheme-found other path h') refl)

-- ===== src/Lexer/Indentation/Normal.antt =====
-- normalizeIndentation of src/lexer.cpp: what becomes of the blanks at the head of a line.
use visuall.Base.{
  ℕ, [], ◌∷◌, ◌≡◌, refl, Bytes, Bool, ◌==◌, false, true, ◌<◌, suc, arith, zero, ◌*◌, ◌||◌, ◌++◌,
  ◌+◌, if◌then◌else◌, ap, not, Bool-cases, ◌∙◌, inl, inr,
}
use visuall.Lexer.Indentation.{
  spaces, normalize_from, normalize_indentation, flush_before_text, flush_before_tab,
}
use visuall.Lexer.Words.Reading.{all_bytes, and-cases, or-cases}

unfoldable pub tabs : ℕ → Bytes
tabs zero = []
tabs (suc n) = b'\t' ∷ tabs n

abbrev pub is_indent : ℕ → Bool
is_indent c = c == b' ' || c == b'\t'

-- Fewer than four spaces in front of text are rounded up.
remainder :
    (r c : ℕ) (cs : Bytes)
    → r < 4
    → (c == b' ') ≡ false
    → (c == b'\t') ≡ false
    → normalize_from true 0 (spaces r ++ (c ∷ cs))
      ≡ tabs (if r == 0 then 0 else 1) ++ (c ∷ normalize_from false 0 cs)
unfolding normalize_from spaces tabs
remainder zero c cs h s t = rw s (rw t refl)
remainder (suc zero) c cs h s t = rw s (rw t refl)
remainder (suc (suc zero)) c cs h s t = rw s (rw t refl)
remainder (suc (suc (suc zero))) c cs h s t = rw s (rw t refl)
remainder (suc (suc (suc (suc r)))) c cs h s t = absurd (omega arith)

four_spaces :
    (n : ℕ) (rest : Bytes)
    → normalize_from true 0 (spaces (suc (suc (suc (suc n)))) ++ rest)
      ≡ b'\t' ∷ normalize_from true 0 (spaces n ++ rest)
unfolding normalize_from spaces
four_spaces n rest = refl

one_tab : (n : ℕ) (rest : Bytes) → b'\t' ∷ (tabs n ++ rest) ≡ tabs (suc n) ++ rest
unfolding tabs
one_tab n rest = refl

-- A line that begins with `4 * k + r` spaces and then a byte that is no blank gets a tab for each
-- four spaces, and one more for the `r` that are left, if there are any. The text goes on behind.
pub normalize_from-spaces :
    (k r c : ℕ) (cs : Bytes)
    → r < 4
    → is_indent c ≡ false
    → normalize_from true 0 (spaces (4 * k + r) ++ (c ∷ cs))
      ≡ tabs (k + (if r == 0 then 0 else 1)) ++ (c ∷ normalize_from false 0 cs)
normalize_from-spaces zero r c cs h blank =
    let (s, t) = or-cases (c == b' ') (c == b'\t') blank in
    let e : 4 * 0 + r ≡ r = omega arith in
    let e' : 0 + (if r == 0 then 0 else 1) ≡ (if r == 0 then 0 else 1) = omega arith in
    rw (e, e') (remainder r c cs h s t)
normalize_from-spaces (suc k) r c cs h blank =
    let e : 4 * suc k + r ≡ suc (suc (suc (suc (4 * k + r)))) = omega arith in
    let e' : suc k + (if r == 0 then 0 else 1) ≡ suc (k + (if r == 0 then 0 else 1)) =
      omega arith in
    rw (e, e')
      (four_spaces (4 * k + r) (c ∷ cs)
        ∙ ap (◌∷◌ b'\t') (normalize_from-spaces k r c cs h blank)
        ∙ one_tab (k + (if r == 0 then 0 else 1)) (c ∷ normalize_from false 0 cs))

-- In front of a tab one or two spaces stay, and three become one more tab.
flush_stays :
    (n : ℕ) (rest : Bytes)
    → normalize_from true 0 (flush_before_tab n ++ (b'\t' ∷ rest))
      ≡ flush_before_tab n ++ (b'\t' ∷ normalize_from true 0 rest)
unfolding normalize_from
flush_stays zero rest = refl
flush_stays (suc zero) rest = refl
flush_stays (suc (suc zero)) rest = refl
flush_stays (suc (suc (suc n))) rest =
    let more : flush_before_tab (suc (suc (suc n))) ≡ b'\t' ∷ [] = ground arith in rw more refl

text_stays :
    (n c : ℕ) (rest : Bytes)
    → (c == b' ') ≡ false
    → (c == b'\t') ≡ false
    → normalize_from true 0 (flush_before_text n ++ (c ∷ rest))
      ≡ flush_before_text n ++ (c ∷ normalize_from false 0 rest)
unfolding normalize_from
text_stays zero c rest s t = rw s (rw t refl)
text_stays (suc n) c rest s t =
    let e : (suc n == 0) ≡ false = ground arith in rw e (rw s (rw t refl))

-- Once behind the head of a line the number of pending spaces is not read.
spaces_unread : (m n : ℕ) (cs : Bytes) → normalize_from false m cs ≡ normalize_from false n cs
unfolding normalize_from
spaces_unread m n [] = refl
spaces_unread m n (c ∷ cs) = ground (arith, spaces_unread m n cs)

again :
    (start : Bool) (n : ℕ) (cs : Bytes)
    → normalize_from start 0 (normalize_from start n cs) ≡ normalize_from start n cs
unfolding normalize_from
again true n [] = refl
again false n [] = refl
again false n (c ∷ cs) = elim (Bool-cases (c == b'\n')) [
  | inl e ↦ rw e (rw e (ap (◌∷◌ c) (again true 0 cs)))
  | inr e ↦ rw e (rw e (ap (◌∷◌ c) (again false n cs)))
]
again true n (c ∷ cs) = elim (Bool-cases (c == b' ')) [
  | inl s ↦ rw s (elim (Bool-cases (n + 1 == 4)) [
    | inl f ↦ rw f (ap (◌∷◌ b'\t') (again true 0 cs))
    | inr f ↦ rw f (again true (n + 1) cs)
  ])
  | inr s ↦ rw s (elim (Bool-cases (c == b'\t')) [
    | inl t ↦ rw t (
        flush_stays n (normalize_from true 0 cs)
        ∙ ap (λ r. flush_before_tab n ++ (b'\t' ∷ r)) (again true 0 cs))
    | inr t ↦ rw t (
        text_stays n c (normalize_from false 0 cs) s t
        ∙ ap (λ r. flush_before_text n ++ (c ∷ r)) (again false 0 cs))
  ])
]

-- Normalising a text again changes nothing.
pub normalize_indentation_idem :
    (text : Bytes) → normalize_indentation (normalize_indentation text) ≡ normalize_indentation text
unfolding normalize_indentation
normalize_indentation_idem text = again true 0 text

-- Behind the head of a line the text is copied, up to the line break.
pub normalize_from-line :
    (n : ℕ) (line : Bytes)
    → all_bytes (λ c. not (c == b'\n')) line ≡ true
    → normalize_from false n line ≡ line
unfolding normalize_from
normalize_from-line n [] h = refl
normalize_from-line n (c ∷ cs) h =
    let (hc, hcs) = and-cases (not (c == b'\n')) (all_bytes (λ b. not (b == b'\n')) cs) h in
    let other : (c == b'\n') ≡ false = ground arith in
    rw other (ap (◌∷◌ c) (normalize_from-line n cs hcs))

-- The line behind an empty first line is copied as it stands, leading spaces included: the loop
-- looks for a line break only where it is not at the head of a line.
pub normalize_indentation-empty_line :
    (line : Bytes)
    → all_bytes (λ c. not (c == b'\n')) line ≡ true
    → normalize_indentation (b'\n' ∷ line) ≡ b'\n' ∷ line
unfolding normalize_indentation normalize_from
normalize_indentation-empty_line line h = ap (◌∷◌ b'\n') (normalize_from-line 0 line h)

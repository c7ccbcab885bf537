-- ===== src/Formatter/Kept.antt =====
-- What format of tools/visuall-lsp/src/formatter.cpp leaves of a source.
use visuall.Formatter.Shown.{
  shown, shown-append, if-same, is_layout, normalize_commas-shown, normalize_operators-shown,
}
use visuall.Base.{
  refl, Bytes, ℕ, List, ◌≡◌, reverse, if◌then◌else◌, ◌∷◌, ◌++◌, is_nil, map, ◌==◌, true, sym, suc,
  [], ap, ◌&&◌, ◌∙◌, reverse-cons, append_assoc, zero, reverse-reverse, arith, append-nil, ◌||◌,
}
use visuall.Formatter.Lines.{
  strip_trailing_whitespace, tab_string, leading, normalize_indentation, is_white, total_tabs,
  is_comment, is_blank, Leading,
}
use visuall.Formatter.Layout.{normalize_line, split_lines, add_front}
use visuall.Formatter.Spacing.{normalize_commas, normalize_operators}

-- The text of lines, and of lines that are kept newest first.
abbrev pub shown_lines : List Bytes → Bytes
shown_lines [] = []
shown_lines (l ∷ ls) = shown l ++ shown_lines ls

abbrev pub shown_lines_back : List Bytes → Bytes
shown_lines_back [] = []
shown_lines_back (l ∷ ls) = shown_lines_back ls ++ shown l

shown_lines-append :
    (xs ys : List Bytes) → shown_lines (xs ++ ys) ≡ shown_lines xs ++ shown_lines ys
shown_lines-append [] ys = refl
shown_lines-append (x ∷ xs) ys =
    ap (◌++◌ (shown x)) (shown_lines-append xs ys)
    ∙ sym (append_assoc (shown x) (shown_lines xs) (shown_lines ys))

pub shown_lines-reverse : (ls : List Bytes) → shown_lines (reverse ls) ≡ shown_lines_back ls
shown_lines-reverse [] = refl
shown_lines-reverse (l ∷ ls) =
    ap shown_lines (reverse-cons l ls)
    ∙ shown_lines-append (reverse ls) (l ∷ [])
    ∙ ap (◌++◌ (shown_lines (reverse ls))) (append-nil (shown l))
    ∙ ap (λ x. x ++ shown l) (shown_lines-reverse ls)

pub shown_lines_back-reverse : (ls : List Bytes) → shown_lines_back (reverse ls) ≡ shown_lines ls
shown_lines_back-reverse ls =
    sym (shown_lines-reverse (reverse ls)) ∙ ap shown_lines (reverse-reverse ls)

-- The lines of a source hold its text.
shown_lines-add_front :
    (c : ℕ) (ls : List Bytes) → shown_lines (add_front c ls) ≡ shown (c ∷ []) ++ shown_lines ls
shown_lines-add_front c [] = refl
shown_lines-add_front c (l ∷ ls) =
    ap (λ x. x ++ shown_lines ls) (shown-append (c ∷ []) l)
    ∙ append_assoc (shown (c ∷ [])) (shown l) (shown_lines ls)

pub shown-newline : (c : ℕ) (cs : Bytes) → (c == b'\n') ≡ true → shown (c ∷ cs) ≡ shown cs
shown-newline c cs h = let e : is_layout c ≡ true = ground arith in rw e refl

pub shown_lines-split_lines : (cs : Bytes) → shown_lines (split_lines cs) ≡ shown cs
unfolding split_lines
shown_lines-split_lines [] = refl
shown_lines-split_lines (c ∷ cs) =
    if-same shown_lines (c == b'\n') ([] ∷ split_lines cs) (add_front c (split_lines cs))
      (λ h. shown_lines-split_lines cs ∙ sym (shown-newline c cs h))
      (λ _.
        shown_lines-add_front c (split_lines cs)
        ∙ ap (◌++◌ (shown (c ∷ []))) (shown_lines-split_lines cs)
        ∙ sym (shown-append (c ∷ []) cs))

-- White space only goes at the end of a line and at its head.
pub shown-white : (c : ℕ) (cs : Bytes) → is_white c ≡ true → shown (c ∷ cs) ≡ shown cs
shown-white c cs h = let e : is_layout c ≡ true = ground arith in rw e refl

strip_step :
    (c : ℕ) (rest : Bytes)
    → shown (if is_nil rest && is_white c then [] else c ∷ rest) ≡ shown (c ∷ rest)
strip_step c [] = if-same shown (is_white c) [] (c ∷ []) (λ h. sym (shown-white c [] h)) (λ _. refl)
strip_step c (d ∷ rest) = refl

strip_trailing_whitespace-shown :
    (line : Bytes) → shown (strip_trailing_whitespace line) ≡ shown line
unfolding strip_trailing_whitespace
strip_trailing_whitespace-shown [] = refl
strip_trailing_whitespace-shown (c ∷ cs) =
    strip_step c (strip_trailing_whitespace cs)
    ∙ shown-append (c ∷ []) (strip_trailing_whitespace cs)
    ∙ ap (◌++◌ (shown (c ∷ []))) (strip_trailing_whitespace-shown cs)
    ∙ sym (shown-append (c ∷ []) cs)

leading-shown : (line : Bytes) → shown (leading line).behind ≡ shown line
unfolding leading
leading-shown [] = refl
leading-shown (c ∷ cs) =
    let more = leading cs in
    if-same (λ (l : Leading). shown l.behind) (c == b' ') _ _
      (λ h. leading-shown cs ∙ sym (shown-white c cs (ground arith)))
      (λ _.
        if-same (λ (l : Leading). shown l.behind) (c == b'\t') _ _
          (λ h. leading-shown cs ∙ sym (shown-white c cs (ground arith))) (λ _. refl))

tab_string-shown : (n : ℕ) (cs : Bytes) → shown (tab_string n ++ cs) ≡ shown cs
unfolding tab_string
tab_string-shown zero cs = refl
tab_string-shown (suc n) cs = tab_string-shown n cs

shown-nil : (cs : Bytes) → is_nil cs ≡ true → shown cs ≡ []
shown-nil [] h = refl
shown-nil (c ∷ cs) h = cc

normalize_indentation-shown : (line : Bytes) → shown (normalize_indentation line) ≡ shown line
unfolding normalize_indentation
normalize_indentation-shown line =
    let l = leading line in
    if-same shown (is_nil l.behind) [] (tab_string (total_tabs l) ++ l.behind)
      (λ h. sym (shown-nil l.behind h) ∙ leading-shown line)
      (λ _. tab_string-shown (total_tabs l) l.behind ∙ leading-shown line)

normalize_line-shown : (line : Bytes) → shown (normalize_line line) ≡ shown line
unfolding normalize_line
normalize_line-shown line =
    let l = normalize_indentation (strip_trailing_whitespace line) in
    let same =
      normalize_indentation-shown (strip_trailing_whitespace line)
      ∙ strip_trailing_whitespace-shown line in
    if-same shown (is_comment l || is_blank l) l (normalize_commas (normalize_operators l))
      (λ _. same)
      (λ _. normalize_commas-shown (normalize_operators l) ∙ normalize_operators-shown l ∙ same)

pub shown_lines-normalize : (ls : List Bytes) → shown_lines (map normalize_line ls) ≡ shown_lines ls
shown_lines-normalize [] = refl
shown_lines-normalize (l ∷ ls) =
    ap (λ x. x ++ shown_lines (map normalize_line ls)) (normalize_line-shown l)
    ∙ ap (◌++◌ (shown l)) (shown_lines-normalize ls)

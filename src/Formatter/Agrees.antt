-- ===== src/Formatter/Agrees.antt =====
-- normalizeIndentation of tools/visuall-lsp/src/formatter.cpp beside the routine of the same name
-- in src/lexer.cpp.
use visuall.Base.{
  refl, sym, ◌∷◌, ◌++◌, ℕ, Bytes, ◌≡◌, suc, ◌/◌, ◌+◌, false, ap, ◌∙◌, zero, if◌then◌else◌, ◌%◌,
  ◌==◌, arith, not, true, ◌*◌,
}
use visuall.Lexer.Indentation.{spaces, normalize_from}
use visuall.Lexer.Indentation
use visuall.Lexer.Indentation.Normal.{tabs, normalize_from-spaces, normalize_from-line}
use visuall.Formatter.Lines.{
  leading, Leading, tab_string, total_tabs, normalize_indentation, is_indent,
}
use visuall.Lexer.Words.Reading.{or-cases, all_bytes}

pub leading-text :
    (c : ℕ) (cs : Bytes)
    → is_indent c ≡ false
    → leading (c ∷ cs) ≡ record { spaces = 0; tabs = 0; behind = c ∷ cs }
unfolding leading
leading-text c cs h = let (s, t) = or-cases (c == b' ') (c == b'\t') h in rw s (rw t refl)

abbrev spaced : ℕ → ℕ → Bytes → Leading
spaced n c cs = record { spaces = n; tabs = 0; behind = c ∷ cs }

leading-spaces :
    (n c : ℕ) (cs : Bytes) → is_indent c ≡ false → leading (spaces n ++ (c ∷ cs)) ≡ spaced n c cs
unfolding leading spaces
leading-spaces zero c cs h = leading-text c cs h
leading-spaces (suc n) c cs h =
    ap (λ (l : Leading). record { spaces = l.spaces + 1; tabs = l.tabs; behind = l.behind })
      (leading-spaces n c cs h)
    ∙ ap (λ m. spaced m c cs) (omega arith)

tab_string-tabs : (n : ℕ) → tab_string n ≡ tabs n
unfolding tab_string tabs
tab_string-tabs zero = refl
tab_string-tabs (suc n) = ap (◌∷◌ b'\t') (tab_string-tabs n)

-- The count of tabs of the formatter, in the form of the lexer's.
total_tabs-spaced :
    (n c : ℕ) (cs : Bytes) → total_tabs (spaced n c cs) ≡ n / 4 + (if n % 4 == 0 then 0 else 1)
total_tabs-spaced n c cs = ground arith

formatter_tabs :
    (n c : ℕ) (cs : Bytes)
    → is_indent c ≡ false
    → normalize_indentation (spaces n ++ (c ∷ cs))
      ≡ tabs (n / 4 + (if n % 4 == 0 then 0 else 1)) ++ (c ∷ cs)
unfolding normalize_indentation
formatter_tabs n c cs h = rw (leading-spaces n c cs h) (
    ap (λ m. tab_string m ++ (c ∷ cs)) (total_tabs-spaced n c cs)
    ∙ ap (λ t. t ++ (c ∷ cs)) (tab_string-tabs _))

lexer_tabs :
    (n c : ℕ) (cs : Bytes)
    → is_indent c ≡ false
    → all_bytes (λ b. not (b == b'\n')) cs ≡ true
    → Indentation.normalize_indentation (spaces n ++ (c ∷ cs))
      ≡ tabs (n / 4 + (if n % 4 == 0 then 0 else 1)) ++ (c ∷ cs)
unfolding Indentation.normalize_indentation
lexer_tabs n c cs h line =
    let e : 4 * (n / 4) + n % 4 ≡ n = omega arith in
    ap (λ m. normalize_from true 0 (spaces m ++ (c ∷ cs))) (sym e)
    ∙ normalize_from-spaces (n / 4) (n % 4) c cs (omega arith) h
    ∙ ap (λ t. tabs (n / 4 + (if n % 4 == 0 then 0 else 1)) ++ (c ∷ t))
        (normalize_from-line 0 cs line)

-- A line that is indented by spaces only, any number of them, gets the same tabs from the lexer and
-- from the formatter.
pub normalize_indentation-agrees :
    (n c : ℕ) (cs : Bytes)
    → is_indent c ≡ false
    → all_bytes (λ b. not (b == b'\n')) cs ≡ true
    → Indentation.normalize_indentation (spaces n ++ (c ∷ cs))
      ≡ normalize_indentation (spaces n ++ (c ∷ cs))
normalize_indentation-agrees n c cs h line =
    lexer_tabs n c cs h line ∙ sym (formatter_tabs n c cs h)

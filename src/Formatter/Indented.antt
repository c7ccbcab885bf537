-- ===== src/Formatter/Indented.antt =====
-- normalizeIndentation of tools/visuall-lsp/src/formatter.cpp on its own result.
use visuall.Base.{
  refl, ℕ, zero, suc, [], ◌∷◌, ◌++◌, Bytes, false, if◌then◌else◌, Bool-cases, ◌≡◌, ◌+◌, ap, is_nil,
  ◌==◌, ◌∙◌, inl, ◌/◌, inr, arith, sym,
}
use visuall.Formatter.Agrees.{leading-text}
use visuall.Formatter.Lines.{
  Leading, leading, normalize_indentation, tab_string, is_indent, total_tabs,
}

-- What stands behind the leading blanks is nothing, or begins with another byte.
data Text : Bytes → Type 0 where
  empty : Text []
  text : {c : ℕ} {cs : Bytes} → is_indent c ≡ false → Text (c ∷ cs)

leading-Text : (line : Bytes) → Text (leading line).behind
unfolding leading
leading-Text [] = empty
leading-Text (c ∷ cs) = elim (Bool-cases (c == b' ')) [
  | inl s ↦ rw s (leading-Text cs)
  | inr s ↦ rw s (elim (Bool-cases (c == b'\t')) [
    | inl t ↦ rw t (leading-Text cs)
    | inr t ↦ rw t (text (rw (s, t) refl))
  ])
]

leading-tabs :
    (n c : ℕ) (cs : Bytes)
    → is_indent c ≡ false
    → leading (tab_string n ++ (c ∷ cs)) ≡ record { spaces = 0; tabs = n; behind = c ∷ cs }
unfolding leading tab_string
leading-tabs zero c cs h = leading-text c cs h
leading-tabs (suc n) c cs h =
    ap (λ (l : Leading). record { spaces = l.spaces; tabs = l.tabs + 1; behind = l.behind })
      (leading-tabs n c cs h)
    ∙ ap (λ m. record { spaces = 0; tabs = m; behind = c ∷ cs }) (omega arith)

with_tabs : ℕ → Bytes → Bytes
with_tabs n behind = if is_nil behind then [] else tab_string n ++ behind

normalize_indentation-with_tabs :
    (n : ℕ) (behind : Bytes)
    → Text behind
    → normalize_indentation (with_tabs n behind) ≡ with_tabs n behind
unfolding normalize_indentation with_tabs leading
normalize_indentation-with_tabs n [] h = refl
normalize_indentation-with_tabs n (c ∷ cs) (text h) =
    let e : n + 0 / 4 + 0 ≡ n = omega arith in
    rw (leading-tabs n c cs h) (ap (λ m. tab_string m ++ (c ∷ cs)) e)

normalize_indentation_lem :
    (line : Bytes)
    → normalize_indentation line ≡ with_tabs (total_tabs (leading line)) (leading line).behind
unfolding normalize_indentation with_tabs
normalize_indentation_lem line = refl

-- Normalising the indentation of a line again changes nothing.
pub normalize_indentation-twice :
    (line : Bytes) → normalize_indentation (normalize_indentation line) ≡ normalize_indentation line
normalize_indentation-twice line =
    let e = normalize_indentation_lem line in
    ap normalize_indentation e
    ∙ normalize_indentation-with_tabs (total_tabs (leading line)) (leading line).behind
        (leading-Text line)
    ∙ sym e

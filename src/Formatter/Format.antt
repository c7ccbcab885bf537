-- ===== src/Formatter/Format.antt =====
-- format of tools/visuall-lsp/src/formatter.cpp changes nothing but white space.
use visuall.Base.{
  refl, sym, List, [], ◌∷◌, ◌++◌, Bytes, Option, ◌≡◌, true, ◌==◌, map, ◌∙◌, append-nil, arith, ap,
  append_assoc, some, reverse, ◌&&◌, not, none,
}
use visuall.Formatter.Shown.{shown, shown-append, if-same}
use visuall.Formatter.Layout.{
  clean, pop_blanks, join, format, place_all, end_line, place, is_dropped, normalize_line,
  split_lines,
}
use visuall.Formatter.Lines.{is_blank, is_class_def, is_white, is_top_level_def, is_comment}
use visuall.Formatter.Kept.{
  shown_lines_back, shown_lines, shown-white, shown_lines-reverse, shown_lines-normalize,
  shown_lines-split_lines,
}
use visuall.Lexer.Words.Reading.{and-cases}

shown-blank : (l : Bytes) → is_blank l ≡ true → shown l ≡ []
unfolding is_blank
shown-blank [] h = refl
shown-blank (c ∷ cs) h =
    let (hc, hcs) = and-cases (is_white c) (is_blank cs) h in
    shown-white c cs hc ∙ shown-blank cs hcs

-- A line without text, behind others.
drop_blank : (x : Bytes) (l : Bytes) → is_blank l ≡ true → x ≡ x ++ shown l
drop_blank x l h = sym (append-nil x) ∙ ap (◌++◌ x) (sym (shown-blank l h))

pop_blanks-shown : (ls : List Bytes) → shown_lines_back (pop_blanks ls) ≡ shown_lines_back ls
unfolding pop_blanks
pop_blanks-shown [] = refl
pop_blanks-shown (l ∷ ls) =
    if-same shown_lines_back (is_blank l) (pop_blanks ls) (l ∷ ls)
      (λ h. pop_blanks-shown ls ∙ drop_blank (shown_lines_back ls) l h) (λ _. refl)

place-shown :
    (ls : List Bytes) (l : Bytes) → shown_lines_back (place ls l) ≡ shown_lines_back ls ++ shown l
unfolding place
place-shown [] l =
    if-same shown_lines_back (is_blank l) [] (l ∷ []) (λ h. drop_blank [] l h) (λ _. refl)
place-shown (back ∷ ls) l =
    let old = shown_lines_back (back ∷ ls) in
    if-same shown_lines_back (is_class_def l) (l ∷ [] ∷ [] ∷ pop_blanks (back ∷ ls)) _
      (λ _. ap (λ x. x ++ shown l) (append-nil _ ∙ append-nil _ ∙ pop_blanks-shown (back ∷ ls)))
      (λ _.
        if-same shown_lines_back
          (is_top_level_def l && not (is_blank back) && not (is_comment back)) (l ∷ [] ∷ back ∷ ls)
          (l ∷ back ∷ ls) (λ _. ap (λ x. x ++ shown l) (append-nil old)) (λ _. refl))

place_all-shown :
    (result ls : List Bytes)
    → shown_lines_back (place_all result ls) ≡ shown_lines_back result ++ shown_lines ls
unfolding place_all
place_all-shown result [] = sym (append-nil (shown_lines_back result))
place_all-shown result (l ∷ ls) =
    place_all-shown (place result l) ls
    ∙ ap (λ x. x ++ shown_lines ls) (place-shown result l)
    ∙ append_assoc (shown_lines_back result) (shown l) (shown_lines ls)

dropped-blank :
    (before : Option Bytes) (cleaned : List Bytes) (l : Bytes) (ls : List Bytes)
    → is_dropped before cleaned l ls ≡ true
    → is_blank l ≡ true
unfolding is_dropped
dropped-blank before cleaned l ls h = ground arith

clean-shown :
    (before : Option Bytes) (cleaned ls : List Bytes)
    → shown_lines_back (clean before cleaned ls) ≡ shown_lines_back cleaned ++ shown_lines ls
unfolding clean
clean-shown before cleaned [] = sym (append-nil (shown_lines_back cleaned))
clean-shown before cleaned (l ∷ ls) =
    if-same shown_lines_back (is_dropped before cleaned l ls) (clean (some l) cleaned ls) _
      (λ h.
        clean-shown (some l) cleaned ls
        ∙ ap (λ x. shown_lines_back cleaned ++ (x ++ shown_lines ls))
            (sym (shown-blank l (dropped-blank before cleaned l ls h))))
      (λ _.
        clean-shown (some l) (l ∷ cleaned) ls
        ∙ append_assoc (shown_lines_back cleaned) (shown l) (shown_lines ls))

join-shown : (ls : List Bytes) → shown (join ls) ≡ shown_lines ls
unfolding join
join-shown [] = refl
join-shown (l ∷ []) = sym (append-nil (shown l))
join-shown (l ∷ m ∷ ls) =
    shown-append l (b'\n' ∷ join (m ∷ ls)) ∙ ap (◌++◌ (shown l)) (join-shown (m ∷ ls))

end_line-shown : (cs : Bytes) → shown (end_line cs) ≡ shown cs
unfolding end_line
end_line-shown [] = refl
end_line-shown (c ∷ []) =
    if-same shown (c == b'\n') (c ∷ []) (c ∷ b'\n' ∷ []) (λ _. refl)
      (λ _. shown-append (c ∷ []) (b'\n' ∷ []) ∙ append-nil (shown (c ∷ [])))
end_line-shown (c ∷ d ∷ cs) =
    shown-append (c ∷ []) (end_line (d ∷ cs))
    ∙ ap (◌++◌ (shown (c ∷ []))) (end_line-shown (d ∷ cs))
    ∙ sym (shown-append (c ∷ []) (d ∷ cs))

-- Without its spaces, tabs, line breaks and carriage returns, a formatted source is the source
-- without its own.
pub format-shown : (source : Bytes) → shown (format source) ≡ shown source
unfolding format
format-shown source =
    let lines = map normalize_line (split_lines source) in
    let placed = place_all [] lines in
    let result = reverse (pop_blanks placed) in
    let cleaned = clean none [] result in
    end_line-shown (join (reverse cleaned))
    ∙ join-shown (reverse cleaned)
    ∙ shown_lines-reverse cleaned
    ∙ clean-shown none [] result
    ∙ shown_lines-reverse (pop_blanks placed)
    ∙ pop_blanks-shown placed
    ∙ place_all-shown [] lines
    ∙ shown_lines-normalize (split_lines source)
    ∙ shown_lines-split_lines source

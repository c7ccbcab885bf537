-- ===== src/Lexer/Span.antt =====
-- Which bytes lie between two cursors of the lexer of src/lexer.cpp. Every routine only moves
-- forward over the source, and keeps the counters in step with what it consumes.
use visuall.Base.{
  ℕ, ◌≤◌, ◌≡◌, refl, sym, ap, ◌∙◌, Bool, true, false, [], ◌∷◌, ◌++◌, append_assoc, arith,
  if◌then◌else◌, Bytes, length, length-append,
}
use visuall.Lexer.Cursor.{Pos, Cursor, cursor, step_over, advance_in, advance}

-- The counters behind a run of bytes.
abbrev pub over : Bytes → Pos → Pos
over [] p = p
over (c ∷ cs) p = over cs (step_over c p)

pub over-append : (xs ys : Bytes) (p : Pos) → over (xs ++ ys) p ≡ over ys (over xs p)
over-append [] ys p = refl
over-append (x ∷ xs) ys p = over-append xs ys (step_over x p)

-- `b` lies behind `a` on the same source.
pub record Span (a b : Cursor) : Type 0 where
  pub consumed : Bytes
  pub splits : a.rest ≡ consumed ++ b.rest
  pub counted : b.at ≡ over consumed a.at

pub Span-refl : {a : Cursor} → Span a a
Span-refl = record { consumed = []; splits = refl; counted = refl }

pub Span-trans : {a b c : Cursor} → Span a b → Span b c → Span a c
Span-trans {a} {b} {c} s t = record {
  consumed = s.consumed ++ t.consumed;
  splits =
      s.splits ∙ ap (◌++◌ s.consumed) t.splits ∙ sym (append_assoc s.consumed t.consumed c.rest);
  counted =
      t.counted ∙ ap (over t.consumed) s.counted ∙ sym (over-append s.consumed t.consumed a.at);
}

pub Span-step :
    (c : ℕ) (cs : Bytes) (p : Pos) → Span (cursor (c ∷ cs) p) (cursor cs (step_over c p))
Span-step c cs p = record { consumed = c ∷ []; splits = refl; counted = refl }

pub Span-cons :
    {c : ℕ} {cs : Bytes} {p : Pos} {b : Cursor}
    → Span (cursor cs (step_over c p)) b
    → Span (cursor (c ∷ cs) p) b
Span-cons {c} {cs} {p} s = Span-trans (Span-step c cs p) s

pub Span-if :
    {a : Cursor} (t : Bool) {x y : Cursor} → Span a x → Span a y → Span a (if t then x else y)
Span-if true hx hy = hx
Span-if false hx hy = hy

Span-advance_in : (cs : Bytes) (p : Pos) → Span (cursor cs p) (advance_in cs p)
unfolding advance_in
Span-advance_in [] p = Span-refl
Span-advance_in (c ∷ cs) p = Span-step c cs p

pub Span-advance : (a : Cursor) → Span a (advance a)
Span-advance a = Span-advance_in a.rest a.at

pub Span-length : {a b : Cursor} → Span a b → length b.rest ≤ length a.rest
Span-length {a} {b} s = omega (arith, ap length s.splits, length-append s.consumed b.rest)

-- ===== src/Lexer/Rounds/Progress.antt =====
-- A whole round of tokenize in src/lexer.cpp, with its handlers, and the loop.
use visuall.Base.{
  ℕ, [], ◌∷◌, ◌≡◌, refl, sym, subst, Bytes, Bool, true, ◌<◌, some, arith, if◌then◌else◌, ◌≤◌, ◌*◌,
  false, suc, Bool-cases, length, ◌+◌, inl, ◌==◌, inr, zero,
}
use visuall.Lexer.Rounds.Invariant.{
  Inv, measure, Attempted, going, falling, refused, thrown, Attempted-if, is_unexpected, flag,
}
use visuall.Lexer.Rounds.Steps.{Inv-weaken, Inv-move, Inv-record_error}
use visuall.Lexer.Rounds.Scanning.{scan-Attempted}
use visuall.Lexer.Rounds.Layout.{handle_indentation-Lays, after_layout-Attempted, lays}
use visuall.Lexer.Tokenize.{
  end_round, round, rounds, initial, recover, guard, attempt, run, Attempt, Lexer, record_error,
}
use visuall.Lexer.Run.{LexError, Message, spaces_in_indentation, unexpected}
use visuall.Lexer.Comments.{skip_single_line_comment}
use visuall.Lexer.Span.{Span-refl, Span-advance, Span, Span-length, Span-trans}
use visuall.Lexer.Cursor.{advance_in, Pos, peek, first, is_at_end, advance, step_over}
use visuall.Lexer.Landing.Kinds.{is_thrown}
use visuall.Lexer.Landing.Words.{skip_single_line_comment-Span}

at_start :
    {source : Bytes} {a : Attempt} (s : Lexer)
    → s.at_line_start ≡ true
    → Attempted source (2 * length s.cur.rest + 1) a
    → Attempted source (measure s) a
at_start {source} {a} s e h =
    subst (λ b. Attempted source (2 * length s.cur.rest + flag b) a) (sym e) h

attempt-Attempted :
    {source : Bytes} (s : Lexer)
    → Inv source 0 s
    → is_at_end s.cur ≡ false
    → Attempted source (measure s) (attempt s)
unfolding attempt
attempt-Attempted s i left =
    Attempted-if s.at_line_start
      (λ e. elim (handle_indentation-Lays s i) [
        | lays o ↦ at_start s e (after_layout-Attempted s o)
      ])
      (λ e. scan-Attempted s i left e (omega arith))

-- At a blank the handler's loop takes a step.
skip_single_line_comment_step :
    (cs : Bytes) (p : Pos)
    → first cs ≡ b' '
    → Span (advance_in cs p) (skip_single_line_comment cs p)
      × (length (advance_in cs p).rest + 1 ≡ length cs)
unfolding skip_single_line_comment advance_in first
skip_single_line_comment_step [] p h = absurd (omega arith)
skip_single_line_comment_step (c ∷ cs) p h =
    let e : (c == b'\n') ≡ false = ground arith in
    (rw e (skip_single_line_comment-Span cs (step_over c p)), omega arith)

-- A state that a round may leave, of measure below `m`.
pub record Leaves (source : Bytes) (m : ℕ) (s : Lexer) : Type 0 where
  pub kept : Inv source 0 s
  pub less : measure s < m

spaces-expected :
    (e : LexError) → e.message ≡ spaces_in_indentation → is_unexpected e.message ≡ false
spaces-expected e h = rw h refl

recover-refused :
    {source : Bytes} {m : ℕ} (start : Pos) (e : LexError) (s : Lexer)
    → e.message ≡ spaces_in_indentation
    → Inv source 0 s
    → peek s.cur ≡ b' '
    → measure s ≤ m
    → Leaves source m (recover start e.message e s)
unfolding recover
recover-refused {source} {m} start e s h i blank le =
    let (sp, one) = skip_single_line_comment_step s.cur.rest s.cur.at blank in
    let shorter = Span-length sp in
    let moved = Inv-move 1 i (Span-trans (Span-advance s.cur) sp) (omega arith) in
    subst (λ k. Leaves source m (recover start k e s)) (sym h)
      (record {
        kept =
            Inv-record_error e "<indent-error>" (spaces-expected e h)
              (Inv-weaken 1 (omega arith) moved);
        less = omega arith;
      })

thrown-expected : (m : Message) → is_thrown m ≡ true → is_unexpected m ≡ false
thrown-expected spaces_in_indentation h = refl
thrown-expected (unexpected c) h = sym h
thrown-expected _ h = refl

Leaves-advance :
    {source : Bytes} {m : ℕ} (s : Lexer)
    → Leaves source m s
    → Leaves source m (record s { cur = advance s.cur })
Leaves-advance s l =
    let sp = Span-advance s.cur in
    let shorter = Span-length sp in
    record {
      kept = Inv-weaken 0 (omega arith) (Inv-move 0 l.kept sp (omega arith));
      less = omega (arith, l.less);
    }

Leaves-if :
    {source : Bytes} {m : ℕ} (b : Bool) {x y : Lexer}
    → Leaves source m x
    → Leaves source m y
    → Leaves source m (if b then x else y)
Leaves-if true hx hy = hx
Leaves-if false hx hy = hy

recover-thrown :
    {source : Bytes} {m : ℕ} (start : Pos) (k : Message) (e : LexError) (s : Lexer)
    → is_thrown k ≡ true
    → Leaves source m (record_error e "<lex-error>" s)
    → Leaves source m (recover start k e s)
unfolding recover
recover-thrown start spaces_in_indentation e s h l = cc
recover-thrown start _ e s h l = Leaves-if _ (Leaves-advance (record_error e "<lex-error>" s) l) l

guard-Leaves :
    {source : Bytes} {m : ℕ} (start : Pos) (s : Lexer)
    → Leaves source m s
    → Leaves source m (guard start s)
unfolding guard
guard-Leaves start s l = Leaves-if _ (Leaves-advance s l) l

end_round-Leaves :
    {source : Bytes} {m : ℕ} {a : Attempt} (start : Pos)
    → Attempted source m a
    → (s : Lexer) × (end_round start a ≡ some s) × Leaves source m s
unfolding end_round
end_round-Leaves start (going {s} i lt) = (s, refl, record { kept = i; less = lt })
end_round-Leaves start (falling {s} i lt) =
    (guard start s, refl, guard-Leaves start s (record { kept = i; less = lt }))
end_round-Leaves start (refused {e} {s} h i blank le) =
    (_, refl, guard-Leaves start _ (recover-refused start e s h i blank le))
end_round-Leaves start (thrown {e} {s} h i lt) =
    let recorded = Inv-record_error e "<lex-error>" (thrown-expected e.message h) i in
    (
      _,
      refl,
      guard-Leaves start _
          (recover-thrown start e.message e s h (record { kept = recorded; less = lt })),
    )

pub round-Leaves :
    {source : Bytes} (s : Lexer)
    → Inv source 0 s
    → is_at_end s.cur ≡ false
    → (t : Lexer) × (round s ≡ some t) × Leaves source (measure s) t
unfolding round
round-Leaves s i left = end_round-Leaves s.cur.at (attempt-Attempted s i left)

-- With more fuel than the measure the loop ends, at the end of the source.
pub rounds-Inv :
    {source : Bytes} (fuel : ℕ) (s : Lexer)
    → Inv source 0 s
    → measure s < fuel
    → (t : Lexer) × (rounds fuel s ≡ some t) × Inv source 0 t × (is_at_end t.cur ≡ true)
unfolding rounds
rounds-Inv zero s i lt = absurd (omega arith)
rounds-Inv (suc f) s i lt = elim (Bool-cases (is_at_end s.cur)) [
  | inl e ↦ (s, rw (e, rounds) refl, i, e)
  | inr e ↦
      let (t, r, l) = round-Leaves s i e in
      let (u, run_on, j, ended) = rounds-Inv f t l.kept (omega (arith, l.less)) in
      (u, rw (e, rounds) (rw (r, rounds) run_on), j, ended)
]

initial-Inv : (source : Bytes) → Inv source 0 (initial source)
unfolding initial
initial-Inv source = record {
  placed = Span-refl;
  levels = refl;
  balanced = omega arith;
  nested = tt;
  unended = refl;
  reported = refl;
  oldest = refl;
  budget = omega arith;
}

pub run-Inv :
    (source : Bytes)
    → (t : Lexer) × (run source ≡ some t) × Inv source 0 t × (is_at_end t.cur ≡ true)
unfolding run
run-Inv source =
    rounds-Inv (2 * length source + 2) (initial source) (initial-Inv source)
      (unfold initial in omega arith)

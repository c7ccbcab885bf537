-- ===== src/Formatter/Shown.antt =====
-- What the loops of normalizeOperators and normalizeCommas in tools/visuall-lsp/src/formatter.cpp
-- leave of a line.
use visuall.Base.{
  refl, ℕ, Bool, true, false, ◌&&◌, ◌||◌, [], ◌∷◌, ◌++◌, ◌==◌, if◌then◌else◌, Bytes, reverse, ◌≡◌,
  Bool-cases, sym, arith, append-nil, append_assoc, ap, ◌∙◌, inl, reverse-cons, inr, not, is_nil,
}
use visuall.Formatter.Spacing.{
  pop_spaces, Spacing, space_before, string_round, push_all, Consumed, space_unless, Round, one,
  one_and_spaces, two, everything, loop, commas_round, comma_round, operator_round, operators_round,
  put, behind_next, is_compound, is_binary, operators_from, normalize_commas, normalize_operators,
  outside, is_operator,
}
use visuall.Lexer.Cursor.{first}
use visuall.Lexer.Tokenize.{is_quote}
use visuall.Formatter.Lines.{is_indent}

-- White space, and a text without it.
abbrev pub is_layout : ℕ → Bool
is_layout c = c == b' ' || c == b'\t' || c == b'\r' || c == b'\n'

abbrev pub shown : Bytes → Bytes
shown [] = []
shown (c ∷ cs) = if is_layout c then shown cs else c ∷ shown cs

pub shown-append : (xs ys : Bytes) → shown (xs ++ ys) ≡ shown xs ++ shown ys
shown-append [] ys = refl
shown-append (x ∷ xs) ys = elim (Bool-cases (is_layout x)) [
  | inl h ↦ rw h (shown-append xs ys)
  | inr h ↦ rw h (ap (◌∷◌ x) (shown-append xs ys))
]

-- The same of a text that is kept newest byte first.
abbrev pub shown_back : Bytes → Bytes
shown_back [] = []
shown_back (c ∷ r) = shown_back r ++ shown (c ∷ [])

pub shown-reverse : (r : Bytes) → shown (reverse r) ≡ shown_back r
shown-reverse [] = refl
shown-reverse (c ∷ r) =
    ap shown (reverse-cons c r)
    ∙ shown-append (reverse r) (c ∷ [])
    ∙ ap (λ x. x ++ shown (c ∷ [])) (shown-reverse r)

shown_back-space : (r : Bytes) → shown_back (b' ' ∷ r) ≡ shown_back r
shown_back-space r = append-nil (shown_back r)

shown_back-two : (c d : ℕ) (r : Bytes) → shown_back (d ∷ c ∷ r) ≡ shown_back r ++ shown (c ∷ d ∷ [])
shown_back-two c d r =
    append_assoc (shown_back r) (shown (c ∷ [])) (shown (d ∷ []))
    ∙ ap (◌++◌ (shown_back r)) (sym (shown-append (c ∷ []) (d ∷ [])))

shown_back-push_all : (cs r : Bytes) → shown_back (push_all cs r) ≡ shown_back r ++ shown cs
unfolding push_all
shown_back-push_all [] r = sym (append-nil (shown_back r))
shown_back-push_all (c ∷ cs) r =
    shown_back-push_all cs (c ∷ r)
    ∙ append_assoc (shown_back r) (shown (c ∷ [])) (shown cs)
    ∙ ap (◌++◌ (shown_back r)) (sym (shown-append (c ∷ []) cs))

-- A function of an `if`.
pub if-same {ℓ κ} :
    {A : Type ℓ} {B : Type κ} (f : A → B) (t : Bool) (x y : A) {z : B}
    → (t ≡ true → f x ≡ z)
    → (t ≡ false → f y ≡ z)
    → f (if t then x else y) ≡ z
if-same f true x y hx hy = hx refl
if-same f false x y hx hy = hy refl

shown_back-space_before : (r : Bytes) → shown_back (space_before r) ≡ shown_back r
unfolding space_before
shown_back-space_before [] = refl
shown_back-space_before (b ∷ r) =
    if-same shown_back (b == b' ') (b ∷ r) (b' ' ∷ b ∷ r) (λ _. refl)
      (λ _. shown_back-space (b ∷ r))

shown_back-space_unless :
    (x y : ℕ) (cs r : Bytes) → shown_back (space_unless x y cs r) ≡ shown_back r
unfolding space_unless
shown_back-space_unless x y [] r = refl
shown_back-space_unless x y (c ∷ cs) r =
    if-same shown_back (c == x || c == y) r (b' ' ∷ r) (λ _. refl) (λ _. shown_back-space r)

shown-space : (b : ℕ) (cs : Bytes) → (b == b' ') ≡ true → shown (b ∷ cs) ≡ shown cs
shown-space b cs h = rw h refl

shown_back-pop_spaces : (r : Bytes) → shown_back (pop_spaces r) ≡ shown_back r
unfolding pop_spaces
shown_back-pop_spaces [] = refl
shown_back-pop_spaces (b ∷ r) =
    if-same shown_back (b == b' ') (pop_spaces r) (b ∷ r)
      (λ h.
        shown_back-pop_spaces r
        ∙ sym (append-nil (shown_back r))
        ∙ ap (◌++◌ (shown_back r)) (sym (shown-space b [] h)))
      (λ _. refl)

-- The bytes that a round takes, at a byte in front of others.
abbrev pub taken : Consumed → ℕ → Bytes → Bytes
taken one c cs = c ∷ []
taken two c [] = c ∷ []
taken two c (d ∷ cs) = c ∷ d ∷ []
taken one_and_spaces c cs = c ∷ []
taken everything c cs = c ∷ cs

-- A round adds what it takes, up to white space.
pub record Shows (s : Spacing) (c : ℕ) (cs : Bytes) (r : Round) : Type 0 where
  pub same : shown_back r.state.result ≡ shown_back s.result ++ shown (taken r.consumed c cs)

module _ {s : Spacing} {c : ℕ} {cs : Bytes} where
  Shows-if :
      (b : Bool) {x y : Round}
      → (b ≡ true → Shows s c cs x)
      → (b ≡ false → Shows s c cs y)
      → Shows s c cs (if b then x else y)
  Shows-if true hx hy = hx refl
  Shows-if false hx hy = hy refl

string_round-Shows : (s : Spacing) (c : ℕ) (cs : Bytes) → Shows s c cs (string_round s c cs)
unfolding string_round first
string_round-Shows s c [] =
    Shows-if (c == b'\\' && false) (λ h. record { same = absurd (ground arith) })
      (λ h. record { same = refl })
string_round-Shows s c (d ∷ cs) =
    Shows-if (c == b'\\' && true) (λ h. record { same = shown_back-two c d s.result })
      (λ h. record { same = refl })

everything_Shows :
    (s : Spacing) (c : ℕ) (cs : Bytes)
    → Shows s c cs (put (push_all (c ∷ cs) s.result) everything s)
everything_Shows s c cs = record { same = shown_back-push_all (c ∷ cs) s.result }

-- One operator byte with a space before it, and perhaps one behind.
spaced_one :
    (s : Spacing) (x y c : ℕ) (cs : Bytes)
    → Shows s c cs (put (space_unless x y cs (c ∷ space_before s.result)) one s)
spaced_one s x y c cs = record {
  same =
      shown_back-space_unless x y cs (c ∷ space_before s.result)
      ∙ ap (λ r. r ++ shown (c ∷ [])) (shown_back-space_before s.result);
}

-- Two of them. Where the line ends behind the first, the second byte is 0.
spaced_two :
    (s : Spacing) (x y c d : ℕ) (cs : Bytes)
    → Shows s c (d ∷ cs) (put (space_unless x y cs (d ∷ c ∷ space_before s.result)) two s)
spaced_two s x y c d cs = record {
  same =
      shown_back-space_unless x y cs (d ∷ c ∷ space_before s.result)
      ∙ shown_back-two c d (space_before s.result)
      ∙ ap (λ r. r ++ shown (c ∷ d ∷ [])) (shown_back-space_before s.result);
}

operator_round-Shows : (s : Spacing) (c : ℕ) (cs : Bytes) → Shows s c cs (operator_round s c cs)
unfolding operator_round first behind_next
operator_round-Shows s c [] =
    Shows-if (c == b'-' && 0 == b'>') (λ h. absurd (ground arith))
      λ _.
        Shows-if (is_compound c 0) (λ h. absurd (ground arith))
          λ _.
            Shows-if (c == b'=') (λ _. spaced_one s b' ' b'=' c [])
              λ _.
                Shows-if (is_binary s.result) (λ _. spaced_one s b' ' b' ' c [])
                  λ _. record { same = refl }
operator_round-Shows s c (d ∷ cs) =
    Shows-if (c == b'-' && d == b'>') (λ _. spaced_two s b' ' b' ' c d cs)
      λ _.
        Shows-if (is_compound c d) (λ _. spaced_two s b' ' b'\n' c d cs)
          λ _.
            Shows-if (c == b'=') (λ _. spaced_one s b' ' b'=' c (d ∷ cs))
              λ _.
                Shows-if (is_binary s.result) (λ _. spaced_one s b' ' b' ' c (d ∷ cs))
                  λ _. record { same = refl }

pub operators_round-Shows :
    (s : Spacing) (c : ℕ) (cs : Bytes) → Shows s c cs (operators_round s c cs)
unfolding operators_round
operators_round-Shows s c cs =
    Shows-if (not s.in_string && is_quote c) (λ _. record { same = refl })
      λ _.
        Shows-if s.in_string (λ _. string_round-Shows s c cs)
          λ _.
            Shows-if (c == b'#' && first cs == b'#') (λ _. everything_Shows s c cs)
              λ _.
                Shows-if (is_operator c) (λ _. operator_round-Shows s c cs)
                  λ _. record { same = refl }

comma_same :
    (s : Spacing) (c : ℕ)
    → shown_back (c ∷ pop_spaces s.result) ≡ shown_back s.result ++ shown (c ∷ [])
comma_same s c = ap (λ r. r ++ shown (c ∷ [])) (shown_back-pop_spaces s.result)

comma_round-Shows : (s : Spacing) (c : ℕ) (cs : Bytes) → Shows s c cs (comma_round s c cs)
unfolding comma_round
comma_round-Shows s c cs =
    Shows-if (not (is_nil cs) && not (first cs == b' ') && not (first cs == b'\n'))
      (λ _. record { same = shown_back-space (c ∷ pop_spaces s.result) ∙ comma_same s c })
      λ _.
        Shows-if (not (is_nil cs) && first cs == b' ')
          (λ _. record { same = shown_back-space (c ∷ pop_spaces s.result) ∙ comma_same s c })
          λ _. record { same = comma_same s c }

pub commas_round-Shows : (s : Spacing) (c : ℕ) (cs : Bytes) → Shows s c cs (commas_round s c cs)
unfolding commas_round
commas_round-Shows s c cs =
    Shows-if (not s.in_string && is_quote c) (λ _. record { same = refl })
      λ _.
        Shows-if s.in_string (λ _. string_round-Shows s c cs)
          λ _.
            Shows-if (c == b'#' && first cs == b'#') (λ _. everything_Shows s c cs)
              λ _. Shows-if (c == b',') (λ _. comma_round-Shows s c cs) λ _. record { same = refl }

taken_last : (k : Consumed) (c : ℕ) → taken k c [] ≡ c ∷ []
taken_last one c = refl
taken_last two c = refl
taken_last one_and_spaces c = refl
taken_last everything c = refl

skips-space : (skip : Bool) (c : ℕ) → (skip && c == b' ') ≡ true → (c == b' ') ≡ true
skips-space skip c h = ground arith

shown-after :
    (before taken_bytes rest x : Bytes)
    → x ≡ shown_back before ++ shown taken_bytes
    → x ++ shown rest ≡ shown_back before ++ shown (taken_bytes ++ rest)
shown-after before taken_bytes rest x e =
    ap (λ y. y ++ shown rest) e
    ∙ append_assoc (shown_back before) (shown taken_bytes) (shown rest)
    ∙ ap (◌++◌ (shown_back before)) (sym (shown-append taken_bytes rest))

-- A loop of such rounds.
module _ (round : Spacing → ℕ → Bytes → Round)
    (h : (s : Spacing) (c : ℕ) (cs : Bytes) → Shows s c cs (round s c cs)) where
  abbrev Loops : Bytes → Type 0
  Loops cs =
      (skip : Bool) (s : Spacing)
      → shown_back (loop round skip s cs) ≡ shown_back s.result ++ shown cs

  resume-shown :
      (before : Bytes) (c d : ℕ) (rest : Bytes) (k : Consumed) (t : Spacing)
      → Loops (d ∷ rest)
      → Loops rest
      → shown_back t.result ≡ shown_back before ++ shown (taken k c (d ∷ rest))
      → shown_back (elim k as (λ x. Bytes) [
        | one ↦ loop round false t (d ∷ rest)
        | two ↦ loop round false t rest
        | one_and_spaces ↦ loop round true t (d ∷ rest)
        | everything ↦ t.result
      ])
        ≡ shown_back before ++ shown (c ∷ d ∷ rest)
  resume-shown before c d rest one t one_on two_on e =
      one_on false t ∙ shown-after before (c ∷ []) (d ∷ rest) (shown_back t.result) e
  resume-shown before c d rest two t one_on two_on e =
      two_on false t ∙ shown-after before (c ∷ d ∷ []) rest (shown_back t.result) e
  resume-shown before c d rest one_and_spaces t one_on two_on e =
      one_on true t ∙ shown-after before (c ∷ []) (d ∷ rest) (shown_back t.result) e
  resume-shown before c d rest everything t one_on two_on e = e

  pub loop-shown : (cs : Bytes) → Loops cs
  unfolding loop
  loop-shown [] skip s = sym (append-nil (shown_back s.result))
  loop-shown (c ∷ []) skip s =
      let r = round s c [] in
      if-same shown_back (skip && c == b' ') s.result r.state.result
        (λ e.
          sym (append-nil (shown_back s.result))
          ∙ ap (◌++◌ (shown_back s.result)) (sym (shown-space c [] (skips-space skip c e))))
        (λ _. (h s c []).same ∙ ap (λ x. shown_back s.result ++ shown x) (taken_last r.consumed c))
  loop-shown (c ∷ d ∷ rest) skip s =
      let r = round s c (d ∷ rest) in
      if-same shown_back (skip && c == b' ') (loop round true s (d ∷ rest)) _
        (λ e.
          loop-shown (d ∷ rest) true s
          ∙ ap (◌++◌ (shown_back s.result)) (sym (shown-space c (d ∷ rest) (skips-space skip c e))))
        (λ _.
          resume-shown s.result c d rest r.consumed r.state (λ b t. loop-shown (d ∷ rest) b t)
            (λ b t. loop-shown rest b t) (h s c (d ∷ rest)).same)

operators_from-shown : (r cs : Bytes) → shown_back (operators_from r cs) ≡ shown_back r ++ shown cs
unfolding operators_from
operators_from-shown r [] = sym (append-nil (shown_back r))
operators_from-shown r (c ∷ cs) =
    if-same shown_back (is_indent c) (operators_from (c ∷ r) cs) _
      (λ _. operators_from-shown (c ∷ r) cs ∙ shown-after r (c ∷ []) cs (shown_back (c ∷ r)) refl)
      (λ _. loop-shown operators_round operators_round-Shows (c ∷ cs) false (outside r))

-- normalizeOperators changes nothing but white space: without it, the line is the same as before.
pub normalize_operators-shown : (line : Bytes) → shown (normalize_operators line) ≡ shown line
unfolding normalize_operators
normalize_operators-shown line =
    shown-reverse (operators_from [] line) ∙ operators_from-shown [] line

-- normalizeCommas changes nothing but white space: without it, the line is the same as before.
pub normalize_commas-shown : (line : Bytes) → shown (normalize_commas line) ≡ shown line
unfolding normalize_commas
normalize_commas-shown line =
    shown-reverse (loop commas_round false (outside []) line)
    ∙ loop-shown commas_round commas_round-Shows line false (outside [])

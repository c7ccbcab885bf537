-- ===== src/Parser/Progress/Tokens.antt =====
-- The rules for the routines of Parser.Monad that look at a token.
use visuall.Base.{
  ℕ, suc, true, false, List, [], ◌∷◌, length, ◌≤◌, ◌≡◌, Bool-cases, inl, inr, arith, refl, Option,
  ◌<◌, ◌&&◌, some, String, not, none, Bool,
}
use visuall.Lexer.Token.{TokenType, Token}
use visuall.Parser.Monad.{
  P, State, Reply, check, current_in, advance, advance_in, if_token, is_type, is_at_end, settle,
  expect, skip, if_two, skip_newlines, if_attempt, if_op, newlines_skipped, error_with, current,
  next_in,
}
use visuall.Parser.Progress.{
  left, Gain, gain-one, Good, Ok, Good-from, any, returns, fails, some_token, lexes, faults,
}

-- A token that is not the last is consumed.
advance_in-left :
    (s : State) (ts : List Token)
    → is_type TokenType.end_of_file (current_in ts) ≡ false
    → suc (left (advance_in s ts)) ≡ length ts
unfolding advance_in current_in is_type
advance_in-left s [] h = ground arith
advance_in-left s (t ∷ ts) h = rw h refl

pub advance-left : (s : State) → is_at_end s ≡ false → suc (left (advance s)) ≡ left s
unfolding advance
advance-left s h = advance_in-left s s.rest h

advance_in-at_end :
    (s : State) (ts : List Token)
    → is_type TokenType.end_of_file (current_in ts) ≡ true
    → advance_in s ts ≡ s
unfolding advance_in current_in
advance_in-at_end s [] h = refl
advance_in-at_end s (t ∷ ts) h = rw h refl

pub advance-fewer : (s : State) → left (advance s) ≤ left s
unfolding advance
advance-fewer s = elim (Bool-cases (is_at_end s)) [
  | inl h ↦ rw (advance_in-at_end s s.rest h) (omega arith)
  | inr h ↦ let e = advance_in-left s s.rest h in omega (arith, e)
]

pub check-left :
    (type : TokenType) (s : State) → check type s ≡ true → suc (left (advance s)) ≡ left s
unfolding check
check-left type s h = elim (Bool-cases (is_at_end s)) [ inl e ↦ cc | inr e ↦ advance-left s e ]

-- What is read behind a consumed token.
behind-Good {ℓ} :
    {A : Type ℓ} {g g' : Gain} {r : Reply A} {s s' : State}
    → suc (left s') ≤ left s
    → Good g' s' r
    → Good g s r
behind-Good {g = g} h r = Good-from (omega (arith, h)) (omega (arith, h, gain-one g)) r

both_hold : (x y z : Bool) → x && y && z ≡ true → x ≡ true
both_hold true y z h = refl
both_hold false y z h = cc

settle-Good {ℓ} :
    {A : Type ℓ} {g g' : Gain} {r : Reply (Option A)} {r' : Reply A} {s s' : State}
    → suc (left s') ≤ left s
    → Good g' s' r
    → Good g s r'
    → Good g s (settle r r')
unfolding settle
settle-Good {g = g} h (returns (some a) s'' l) k = returns a s'' (omega (arith, h, l, gain-one g))
settle-Good h (returns none s'' l) k = k
settle-Good h (fails e s'' l) k = fails e s'' (omega (arith, h, l))
settle-Good h (lexes e) k = lexes e
settle-Good h faults k = faults

module _ {ℓ} {A : Type ℓ} {n : ℕ} {g : Gain} where
  pub if_token-ok :
      (type : TokenType) {x : Token → P A} {y : P A}
      → ((t : Token) → Ok n any (x t))
      → Ok (suc n) g y
      → Ok (suc n) g (if_token type x y)
  unfolding if_token
  if_token-ok type o o' = record {
    at = λ s l. elim (Bool-cases (check type s)) [
      | inl h ↦
          let e = check-left type s h in
          rw h (behind-Good (omega (arith, e)) ((o _).at (advance s) (omega (arith, e, l))))
      | inr h ↦ rw h (o'.at s l)
    ];
  }

  pub if_two-ok :
      (type type' : TokenType) {x : Token → P A} {y : P A}
      → ((t : Token) → Ok n any (x t))
      → Ok (suc n) g y
      → Ok (suc n) g (if_two type type' x y)
  unfolding if_two
  if_two-ok type type' {x} {y} o o' = record {
    at = λ s l.
        elim (Bool-cases
          (check type s && is_type type' (next_in s.rest) && not (is_at_end (advance s)))) [
            | inl h ↦
                let e = check-left type s (both_hold _ _ _ h) in
                let f = advance-fewer (advance s) in
                rw h (
                  behind-Good (omega (arith, e, f))
                    ((o _).at (advance (advance s)) (omega (arith, e, f, l))))
            | inr h ↦ rw h (o'.at s l)
          ];
  }

  pub if_attempt-ok :
      (type : TokenType) {x : P (Option A)} {y : P A}
      → Ok n any x
      → Ok (suc n) g y
      → Ok (suc n) g (if_attempt type x y)
  unfolding if_attempt
  if_attempt-ok type {x} {y} o o' = record {
    at = λ s l. elim (Bool-cases (check type s)) [
      | inl h ↦
          let e = check-left type s h in
          rw h (settle-Good (omega (arith, e)) (o.at (advance s) (omega (arith, e, l))) (o'.at s l))
      | inr h ↦ rw h (o'.at s l)
    ];
  }

module _ {ℓ} {A O : Type ℓ} {n : ℕ} {g : Gain} where
  if_op-Good :
      (s : State) (o : Option O) {x : O → P A} {r : Reply A}
      → is_at_end s ≡ false
      → left s < suc n
      → ((o : O) → Ok n any (x o))
      → Good g s r
      → Good g s (elim o [ none ↦ r | some op ↦ x op (advance s) ])
  if_op-Good s none h l k r = r
  if_op-Good s (some op) h l k r =
      let e = advance-left s h in
      behind-Good (omega (arith, e)) ((k op).at (advance s) (omega (arith, e, l)))

  pub if_op-ok :
      (table : TokenType → Option O) {x : O → P A} {y : P A}
      → ((o : O) → Ok n any (x o))
      → Ok (suc n) g y
      → Ok (suc n) g (if_op table x y)
  unfolding if_op
  if_op-ok table {x} {y} o o' = record {
    at = λ s l. elim (Bool-cases (is_at_end s)) [
      | inl h ↦ rw h (o'.at s l)
      | inr h ↦ rw h (if_op-Good s (table (current s).type) h l o (o'.at s l))
    ];
  }

pub expect-ok :
    {n : ℕ} (type : TokenType) (message : String) → Ok n some_token (expect type message)
unfolding expect error_with
expect-ok type message = record {
  at = λ s l. elim (Bool-cases (check type s)) [
    | inl h ↦ let e = check-left type s h in rw h (returns _ (advance s) (omega (arith, e)))
    | inr h ↦ rw h (fails _ s (omega arith))
  ];
}

pub newlines_skipped-fewer :
    (s : State) (ts : List Token) → length ts ≤ left s → left (newlines_skipped s ts) ≤ left s
unfolding newlines_skipped
newlines_skipped-fewer s [] h = omega arith
newlines_skipped-fewer s (t ∷ ts) h = elim (Bool-cases (is_type TokenType.newline t)) [
  | inl e ↦
      let k = newlines_skipped-fewer (record { previous = some t; rest = ts }) ts (omega arith) in
      rw e (omega (arith, k, h))
  | inr e ↦ rw e (omega arith)
]

pub skip_newlines-ok : {n : ℕ} → Ok n any skip_newlines
unfolding skip_newlines
skip_newlines-ok = record {
  at = λ s l.
      let e = newlines_skipped-fewer s s.rest (omega arith) in returns _ _ (omega (arith, e));
}

pub skip-ok : {n : ℕ} → Ok n any skip
unfolding skip
skip-ok = record { at = λ s l. let e = advance-fewer s in returns _ _ (omega (arith, e)) }

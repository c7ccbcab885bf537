-- ===== src/Parser/Progress/Generics.antt =====
-- The lookahead for a generic call in src/parser.cpp, and the tokens that it consumes.
use visuall.Base.{
  refl, ℕ, suc, List, [], ◌∷◌, Option, none, some, arith, ◌≤◌, ◌<◌, length, Bytes, ◌≡◌, Bool,
  if◌then◌else◌, true, false, ◌++◌,
}
use visuall.Lexer.Token.{Token}
use visuall.Parser.Monad.{P, State, Reply}
use visuall.Parser.Expressions.{generic_names, generic_call, if_generic_call}
use visuall.Parser.Progress.{left, Gain, gain-one, any, Good, Good-from, Ok}

-- Where names are found, so many tokens at most are left.
data Found (n : ℕ) : Option (List Bytes × State) → Type 0 where
  nothing : Found n none
  found : (names : List Bytes) (s : State) → left s ≤ n → Found n (some (names, s))

found-if :
    (n : ℕ) (b : Bool) (x y : Option (List Bytes × State))
    → Found n x
    → Found n y
    → Found n (if b then x else y)
found-if n true x y h k = h
found-if n false x y h k = k

found-more : {m n : ℕ} {o : Option (List Bytes × State)} → m ≤ n → Found m o → Found n o
found-more h nothing = nothing
found-more h (found names s k) = found names s (omega (arith, h, k))

generic_names-Found :
    (names : List Bytes) (ts : List Token) → Found (length ts) (generic_names names ts)
unfolding generic_names
generic_names-Found names [] = nothing
generic_names-Found names (a ∷ []) = nothing
generic_names-Found names (a ∷ b ∷ ts) =
    found-if (length (a ∷ b ∷ ts)) _ _ _
      (found-more (omega arith) (generic_names-Found (names ++ (b.lexeme ∷ [])) ts))
      (found-if (length (a ∷ b ∷ ts)) _ _ _ (found _ _ (omega arith)) nothing)

generic_call-Found : (t : Token) (ts : List Token) → Found (length ts) (generic_call (t ∷ ts))
unfolding generic_call
generic_call-Found a [] = nothing
generic_call-Found a (b ∷ ts) =
    found-if (length (b ∷ ts)) _ _ _
      (found-more (omega arith) (generic_names-Found (b.lexeme ∷ []) ts)) nothing

module _ {ℓ} {A : Type ℓ} {n : ℕ} {g : Gain} where
  found-Good :
      (s : State) (ts : List Token) (o : Option (List Bytes × State)) {x : List Bytes → P A}
      {r : Reply A}
      → suc (length ts) ≡ left s
      → left s < suc n
      → Found (length ts) o
      → ((names : List Bytes) → Ok n any (x names))
      → Good g s r
      → Good g s (elim o [ none ↦ r | some (names, s') ↦ x names s' ])
  found-Good s ts o e l nothing h r = r
  found-Good s ts o e l (found names s' f) h r =
      Good-from (omega (arith, e, f)) (omega (arith, e, f, gain-one g))
        ((h names).at s' (omega (arith, e, f, l)))

  call-Good :
      (s : State) (ts : List Token) {x : List Bytes → P A} {r : Reply A}
      → length ts ≡ left s
      → left s < suc n
      → ((names : List Bytes) → Ok n any (x names))
      → Good g s r
      → Good g s (elim (generic_call ts) [ none ↦ r | some (names, s') ↦ x names s' ])
  unfolding generic_call
  call-Good s [] e l h r = r
  call-Good s (t ∷ ts) e l h r =
      found-Good s ts (generic_call (t ∷ ts)) e l (generic_call-Found t ts) h r

  pub if_generic_call-ok :
      {x : List Bytes → P A} {y : P A}
      → ((names : List Bytes) → Ok n any (x names))
      → Ok (suc n) g y
      → Ok (suc n) g (if_generic_call x y)
  unfolding if_generic_call
  if_generic_call-ok h o = record { at = λ s l. call-Good s s.rest refl l h (o.at s l) }

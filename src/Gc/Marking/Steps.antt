-- ===== src/Gc/Marking/Steps.antt =====
-- What a call of mark_internal in src/stdlib/gc.c does to the marks, for a set `Live` of words that
-- marking does not leave.
use visuall.Base.{
  ℕ, suc, true, false, List, [], ◌∷◌, some, ◌==◌, if◌then◌else◌, ◌≤◌, ◌+◌, ◌≡◌, ◌⊎◌, inl, inr,
  arith, Bool-cases, none,
}
use mathlib.Core.List.{Memᴰ}
use visuall.Gc.Object.{Object, children, starting_at, find_gc_header}
use visuall.Gc.Marking.{Marks, Marked, marks_are, set_mark, stray}

-- How many of the objects have no mark.
unfoldable pub unmarked : Marks → List Object → ℕ
unmarked m [] = 0
unmarked m (o ∷ os) = (if m o.user then 0 else 1) + unmarked m os

pub unmarked_le :
    (m m' : Marks) (os : List Object)
    → ((q : ℕ) → m q ≡ true → m' q ≡ true)
    → unmarked m' os ≤ unmarked m os
unfolding unmarked
unmarked_le m m' [] h = omega arith
unmarked_le m m' (o ∷ os) h = let r = unmarked_le m m' os h in ground (arith, h o.user, r)

pub set_mark-kept : (p : ℕ) (m : Marks) (q : ℕ) → m q ≡ true → set_mark p m q ≡ true
unfolding set_mark
set_mark-kept p m q h = ground (arith, h)

pub unmarked-set_mark :
    (p : ℕ) (m : Marks) (os : List Object) (o : Object)
    → starting_at os p ≡ some o
    → m p ≡ false
    → suc (unmarked (set_mark p m) os) ≤ unmarked m os
unfolding unmarked starting_at set_mark
unmarked-set_mark p m [] o h k = cc
unmarked-set_mark p m (x ∷ os) o h k = elim (Bool-cases (x.user == p)) [
  | inl e ↦ let r = unmarked_le m (set_mark p m) os (set_mark-kept p m) in ground (arith, e, k, r)
  | inr e ↦ let r = unmarked-set_mark p m os o (ground (arith, h, e)) k in ground (arith, e, k, r)
]

module _ (objects : List Object) (heap_lo heap_hi : ℕ) where
  -- A word that `find_gc_header` knows.
  abbrev pub Found : ℕ → Type 0
  Found w = (o : Object) × (find_gc_header objects heap_lo heap_hi w ≡ some o)

-- A word that an object begins at.
abbrev pub Begins : List Object → ℕ → Type 0
Begins objects w = (o : Object) × (starting_at objects w ≡ some o)

module _ (objects : List Object) (heap_lo heap_hi : ℕ) (Live : ℕ → Type 0) where
  -- From marks to more marks.
  pub record Grown (m m' : Marks) : Type 0 where
    pub kept : (q : ℕ) → m q ≡ true → m' q ≡ true
    pub reached : (q : ℕ) → m' q ≡ true → (m q ≡ true) ⊎ (Live q × Begins objects q)
    pub closed :
        (q : ℕ) (o : Object) (c : ℕ)
        → m' q ≡ true
        → m q ≡ false
        → starting_at objects q ≡ some o
        → Memᴰ c (children o)
        → Found objects heap_lo heap_hi c
        → m' c ≡ true

  pub Grown-refl : (m : Marks) → Grown m m
  Grown-refl m = record { kept = λ q h. h; reached = λ q h. inl h; closed = λ q o c h k s i f. cc }

  pub Grown-trans : {m m' m'' : Marks} → Grown m m' → Grown m' m'' → Grown m m''
  Grown-trans {m} {m'} {m''} g g' = record {
    kept = λ q h. g'.kept q (g.kept q h);
    reached = λ q h. elim (g'.reached q h) [ inl k ↦ g.reached q k | inr l ↦ inr l ];
    closed = λ q o c h k s i f. elim (Bool-cases (m' q)) [
      | inl e ↦ g'.kept c (g.closed q o c e k s i f)
      | inr e ↦ g'.closed q o c h e s i f
    ];
  }

  -- Marking that ends, with a property of the marks it leaves, or strays.
  pub data Runs (m : Marks) (Goal : Marks → Type 0) : Marked → Type 0 where
    runs : (m' : Marks) → Grown m m' → Goal m' → Runs m Goal (marks_are m')
    strays : (p : ℕ) → Live p → starting_at objects p ≡ none → Runs m Goal (stray p)

-- ===== src/Gc/Marking/Reach.antt =====
-- What mark_roots of src/stdlib/gc.c marks, beside the words that the roots lead to.
use visuall.Base.{
  ℕ, zero, suc, true, false, List, [], ◌∷◌, ◌++◌, some, ◌<◌, ◌≡◌, ◌↔◌, inl, inr, arith, length,
  refl, ◌⊎◌, none,
}
use mathlib.Core.List.{Memᴰ}
use mathlib.Core.List.Memᴰ
use visuall.Gc.Object.{Object, children, starting_at, find_gc_header}
use visuall.Gc.Marking.{
  Marks, Marked, marks_are, mark_roots, mark_internal, mark_each, behind_marking, stray,
}
use visuall.Gc.Marking.Steps.{
  Grown-refl, Grown-trans, unmarked, unmarked_le, Found, Grown, Runs, runs, Begins, strays,
}
use visuall.Gc.Marking.Walk.{AllMarked, each-Runs, behind-Runs, mark_internal-Runs}

-- The words that the roots lead to, by the children of the objects that begin there.
pub data Reach (objects : List Object) (heap_lo heap_hi : ℕ) (roots : List ℕ) : ℕ → Type 0 where
  root :
      {w : ℕ}
      → Memᴰ w roots
      → Found objects heap_lo heap_hi w
      → Reach objects heap_lo heap_hi roots w
  step :
      {w c : ℕ} (o : Object)
      → Reach objects heap_lo heap_hi roots w
      → starting_at objects w ≡ some o
      → Memᴰ c (children o)
      → Found objects heap_lo heap_hi c
      → Reach objects heap_lo heap_hi roots c

-- No object has a mark.
abbrev pub no_marks : Marks
no_marks q = false

unmarked-no_marks : (os : List Object) → unmarked no_marks os ≡ length os
unfolding unmarked
unmarked-no_marks [] = refl
unmarked-no_marks (o ∷ os) = let r = unmarked-no_marks os in omega (arith, r)

Found-positive :
    (objects : List Object) (heap_lo heap_hi w : ℕ) → Found objects heap_lo heap_hi w → 0 < w
unfolding find_gc_header
Found-positive objects heap_lo heap_hi zero (o, e) = cc
Found-positive objects heap_lo heap_hi (suc w) (o, e) = omega arith

module _ (objects : List Object) (heap_lo heap_hi : ℕ) (globals stack ready : List ℕ) where
  abbrev pub roots : List ℕ
  roots = globals ++ (stack ++ ready)

  abbrev pub Reached : ℕ → Type 0
  Reached = Reach objects heap_lo heap_hi roots

  Reach-positive : (w : ℕ) → Reached w → 0 < w
  Reach-positive w (root i f) = Found-positive objects heap_lo heap_hi w f
  Reach-positive w (step o r e i f) = Found-positive objects heap_lo heap_hi w f

  abbrev Marking : Marks → (Marks → Type 0) → Marked → Type 0
  Marking = Runs objects heap_lo heap_hi Reached

  list-Runs :
      (ws : List ℕ)
      → ((c : ℕ) → Memᴰ c ws → Memᴰ c roots)
      → (m : Marks) → unmarked m objects < suc (length objects)
      → Marking m
          (AllMarked objects heap_lo heap_hi Reached Reach-positive
            (λ w o c l e i f. step o l e i f)
            ws)
          (mark_each objects heap_lo heap_hi
            (mark_internal objects heap_lo heap_hi (suc (length objects)))
            ws
            m)
  list-Runs ws within m l =
      each-Runs objects heap_lo heap_hi Reached Reach-positive (λ w o c l' e i f. step o l' e i f)
        (suc (length objects)) (mark_internal objects heap_lo heap_hi (suc (length objects)))
        (λ p m' live l'.
          mark_internal-Runs objects heap_lo heap_hi Reached Reach-positive
            (λ w o c l'' e i f. step o l'' e i f) (suc (length objects)) p m' live l')
        ws (λ c i f. root (within c i) f) m l

  -- The words of a list have their marks.
  abbrev Covered : List ℕ → Marks → Type 0
  Covered ws m = (c : ℕ) → Memᴰ c ws → Found objects heap_lo heap_hi c → m c ≡ true

  Covered-append : (ws vs : List ℕ) (m : Marks) → Covered ws m → Covered vs m → Covered (ws ++ vs) m
  Covered-append ws vs m h k c i f = elim (Memᴰ.append_cases ws i) [
    | inl j ↦ h c j f
    | inr j ↦ k c j f
  ]

  enough :
      (m : Marks)
      → Grown objects heap_lo heap_hi Reached no_marks m
      → unmarked m objects < suc (length objects)
  enough m g =
      let u = unmarked_le no_marks m objects g.kept in
      let e = unmarked-no_marks objects in omega (arith, u, e)

  seq-Runs :
      {m : Marks} {r : Marked} (k : Marks → Marked) (ws vs : List ℕ)
      → Marking m (Covered ws) r
      → ((m' : Marks) → Grown objects heap_lo heap_hi Reached m m' → Marking m' (Covered vs) (k m'))
      → Marking m (Covered (ws ++ vs)) (behind_marking r k)
  seq-Runs k ws vs h f =
      behind-Runs objects heap_lo heap_hi Reached Reach-positive (λ w o c l e i f. step o l e i f) k
        h f (λ m' m'' g t t'. Covered-append ws vs m'' (λ c i f. g.kept c (t c i f)) t')

  roots-Runs :
      Marking no_marks
        (Covered roots)
        (mark_roots objects heap_lo heap_hi (suc (length objects)) globals stack ready no_marks)
  unfolding mark_roots
  roots-Runs =
      seq-Runs _ globals (stack ++ ready)
        (list-Runs globals (λ c i. Memᴰ.append_left _ i) no_marks
          (enough no_marks (Grown-refl objects heap_lo heap_hi Reached no_marks)))
        (λ m₁ g₁.
          seq-Runs _ stack ready
            (list-Runs stack (λ c i. Memᴰ.append_right globals (Memᴰ.append_left _ i)) m₁
              (enough m₁ g₁))
            (λ m₂ g₂.
              list-Runs ready (λ c i. Memᴰ.append_right globals (Memᴰ.append_right stack i)) m₂
                (enough m₂ (Grown-trans objects heap_lo heap_hi Reached g₁ g₂))))

  marked-Reach :
      (m : Marks)
      → Grown objects heap_lo heap_hi Reached no_marks m
      → (q : ℕ) → m q ≡ true
      → Reached q
  marked-Reach m g q h = elim (g.reached q h) [ inl k ↦ cc | inr r ↦ r.0 ]

  Reach-marked :
      (m : Marks)
      → Grown objects heap_lo heap_hi Reached no_marks m
      → Covered roots m
      → (q : ℕ) → Reached q
      → m q ≡ true
  Reach-marked m g t q (root i f) = t q i f
  Reach-marked m g t q (step {w} o r e i f) = g.closed w o q (Reach-marked m g t w r) refl e i f

  marked-Begins :
      (m : Marks)
      → Grown objects heap_lo heap_hi Reached no_marks m
      → Covered roots m
      → (q : ℕ) → Reached q
      → Begins objects q
  marked-Begins m g t q l = elim (g.reached q (Reach-marked m g t q l)) [ inl k ↦ cc | inr r ↦ r.1 ]

  -- How marking from no marks ends: an address has a mark exactly when the roots lead to it, and an
  -- object begins there; or a word that the roots lead to is no beginning of an object.
  abbrev pub Outcome : Marked → Type 0
  Outcome r =
      ((m : Marks) × (r ≡ marks_are m)
        × ((q : ℕ) → (m q ≡ true) ↔ Reached q)
        × ((q : ℕ) → Reached q → Begins objects q))
      ⊎ ((w : ℕ) × (r ≡ stray w) × Reached w × (starting_at objects w ≡ none))

  outcome_of : {r : Marked} → Marking no_marks (Covered roots) r → Outcome r
  outcome_of (runs m g t) =
      inl (m, refl, (λ q. (marked-Reach m g q, Reach-marked m g t q)), marked-Begins m g t)
  outcome_of (strays w l e) = inr (w, refl, l, e)

  -- Marking from no marks ends, with fuel of one more than the objects. Either an address has a mark
  -- exactly when the roots lead to it, and an object begins there; or marking strays at a word that
  -- the roots lead to and that no object begins at.
  pub mark_roots-Reach :
      Outcome
        (mark_roots objects heap_lo heap_hi (suc (length objects)) globals stack ready no_marks)
  mark_roots-Reach = outcome_of roots-Runs

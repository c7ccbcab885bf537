-- ===== src/Gc/Marking/Walk.antt =====
-- mark_internal of src/stdlib/gc.c, from a word of the set `Live`.
use visuall.Base.{
  refl, ==_iff, subst, ℕ, zero, suc, true, false, List, [], ◌∷◌, none, some, ◌==◌, ◌<◌, ◌≡◌, inl,
  inr, arith, Bool-cases, Option-cases,
}
use mathlib.Core.List.{Memᴰ}
use mathlib.Core.List.Memᴰ
use visuall.Gc.Object.{Object, children, starting_at, find_gc_header}
use visuall.Gc.Marking.{
  Marks, Marked, set_mark, behind_marking, mark_each, mark_object, mark_internal,
}
use visuall.Gc.Marking.Steps.{
  unmarked, unmarked_le, unmarked-set_mark, set_mark-kept, Found, Grown, Grown-refl, Grown-trans,
  Runs, runs, strays, Begins,
}

same_option {ℓ} : {A : Type ℓ} {a b : A} → some a ≡ some b → a ≡ b
same_option h = cc

same_object :
    (objects : List Object) (p q : ℕ) (a b : Object)
    → p ≡ q
    → starting_at objects q ≡ some a
    → starting_at objects p ≡ some b
    → a ≡ b
same_object objects p q a b h s e = cc

module _ (objects : List Object) (heap_lo heap_hi : ℕ) (Live : ℕ → Type 0)
    (positive : (w : ℕ) → Live w → 0 < w)
    (enclosed : (w : ℕ) (o : Object) (c : ℕ)
      → Live w
      → starting_at objects w ≡ some o
      → Memᴰ c (children o)
      → Found objects heap_lo heap_hi c
      → Live c) where
  abbrev pub Goal : Marks → (Marks → Type 0) → Marked → Type 0
  Goal = Runs objects heap_lo heap_hi Live

  -- All the words of a list that `find_gc_header` knows have a mark.
  abbrev pub AllMarked : List ℕ → Marks → Type 0
  AllMarked ws m = (c : ℕ) → Memᴰ c ws → Found objects heap_lo heap_hi c → m c ≡ true

  AllMarked-skip :
      (w : ℕ) (ws : List ℕ) (m : Marks)
      → find_gc_header objects heap_lo heap_hi w ≡ none
      → AllMarked ws m
      → AllMarked (w ∷ ws) m
  AllMarked-skip w ws m e t c i g = elim (Memᴰ.cases_cons i) [
    | inl k ↦ let (o, e') = g in cc
    | inr j ↦ t c j g
  ]

  AllMarked-cons :
      (w : ℕ) (ws : List ℕ) (m : Marks) → m w ≡ true → AllMarked ws m → AllMarked (w ∷ ws) m
  AllMarked-cons w ws m h t c i g = elim (Memᴰ.cases_cons i) [ inl k ↦ cc | inr j ↦ t c j g ]

  -- Behind the mark of an object, marking its children leaves the object as it should.
  enter-Runs :
      (p : ℕ) (o : Object) (m : Marks) {r : Marked}
      → Live p
      → starting_at objects p ≡ some o
      → m p ≡ false
      → Goal (set_mark p m) (AllMarked (children o)) r
      → Goal m (λ m'. m' p ≡ true) r
  unfolding set_mark
  enter-Runs p o m live e k (runs m' g t) =
      runs m'
        (record {
          kept = λ q h. g.kept q (set_mark-kept p m q h);
          reached = λ q h. elim (g.reached q h) [
            | inl j ↦ elim (Bool-cases (p == q)) [
              | inl s ↦
                  inr (subst (λ x. Live x × Begins objects x) ((==_iff p q).0 s) (live, (o, e)))
              | inr s ↦ inl (ground (arith, j, s))
            ]
            | inr j ↦ inr j
          ];
          closed = λ q o' c h n s i f. elim (Bool-cases (p == q)) [
            | inl j ↦
                t c
                  (subst (λ x. Memᴰ c (children x))
                    (same_object objects p q o' o ((==_iff p q).0 j) s e) i)
                  f
            | inr j ↦ g.closed q o' c h (ground (arith, j, n)) s i f
          ];
        })
        (g.kept p (ground arith))
  enter-Runs p o m live e k (strays q l n) = strays q l n

  resume-Runs :
      {m m' : Marks} {G G' : Marks → Type 0} {r : Marked}
      → Grown objects heap_lo heap_hi Live m m'
      → Goal m' G r
      → ((m'' : Marks) → Grown objects heap_lo heap_hi Live m' m'' → G m'' → G' m'')
      → Goal m G' r
  resume-Runs g (runs m'' g' t) h =
      runs m'' (Grown-trans objects heap_lo heap_hi Live g g') (h m'' g' t)
  resume-Runs g (strays q l n) h = strays q l n

  pub behind-Runs :
      {m : Marks} {G G' G'' : Marks → Type 0} {r : Marked} (k : Marks → Marked)
      → Goal m G r
      → ((m' : Marks) → Grown objects heap_lo heap_hi Live m m' → Goal m' G' (k m'))
      → ((m' m'' : Marks) → Grown objects heap_lo heap_hi Live m' m'' → G m' → G' m'' → G'' m'')
      → Goal m G'' (behind_marking r k)
  unfolding behind_marking
  behind-Runs k (runs m' g t) f c = resume-Runs g (f m' g) (λ m'' g' t'. c m' m'' g' t t')
  behind-Runs k (strays q l n) f c = strays q l n

  pub each-Runs :
      (f : ℕ) (mark : ℕ → Marks → Marked)
      → ((p : ℕ) (m : Marks)
          → Live p
          → unmarked m objects < f
          → Goal m (λ m'. m' p ≡ true) (mark p m))
      → (ws : List ℕ) → ((c : ℕ) → Memᴰ c ws → Found objects heap_lo heap_hi c → Live c)
      → (m : Marks) → unmarked m objects < f
      → Goal m (AllMarked ws) (mark_each objects heap_lo heap_hi mark ws m)
  unfolding mark_each
  each-Runs f mark h [] live m l =
      runs m (Grown-refl objects heap_lo heap_hi Live m) (λ c i. elim i [ ])
  each-Runs f mark h (w ∷ ws) live m l =
      let later = λ (c : ℕ) (i : Memᴰ c ws). live c (Memᴰ.tail i) in
      elim (Option-cases (find_gc_header objects heap_lo heap_hi w)) [
        | inl e ↦
            rw (e, mark_each)
              (resume-Runs (Grown-refl objects heap_lo heap_hi Live m)
                (each-Runs f mark h ws later m l) (λ m'' g t. AllMarked-skip w ws m'' e t))
        | inr (o, e) ↦
            rw (e, mark_each)
              (behind-Runs (mark_each objects heap_lo heap_hi mark ws)
                (h w m (live w (Memᴰ.head refl) (o, e)) l)
                (λ m' g.
                  let u = unmarked_le m m' objects g.kept in
                  each-Runs f mark h ws later m' (omega (arith, u, l)))
                (λ m' m'' g t t'. AllMarked-cons w ws m'' (g.kept w t) t'))
      ]

  object-Runs :
      (f : ℕ) (each : List ℕ → Marks → Marked) (p : ℕ) (o : Object)
      → Live p
      → starting_at objects p ≡ some o
      → ((m : Marks)
          → unmarked m objects < f
          → Goal m (AllMarked (children o)) (each (children o) m))
      → (m : Marks) → unmarked m objects < suc f
      → Goal m (λ m'. m' p ≡ true) (mark_object objects heap_lo heap_hi each p (some o) m)
  unfolding mark_object
  object-Runs f each p o live e h m l = elim (Bool-cases (m p)) [
    | inl k ↦ rw (k, mark_object) (runs m (Grown-refl objects heap_lo heap_hi Live m) k)
    | inr k ↦
        let u = unmarked-set_mark p m objects o e k in
        rw (k, mark_object) (enter-Runs p o m live e k (h (set_mark p m) (omega (arith, u, l))))
  ]

  -- A word that stands for an object is marked, with what it leads to.
  pub mark_internal-Runs :
      (f p : ℕ) (m : Marks)
      → Live p
      → unmarked m objects < f
      → Goal m (λ m'. m' p ≡ true) (mark_internal objects heap_lo heap_hi f p m)
  unfolding mark_internal mark_object
  mark_internal-Runs zero p m live l = let absurd : ⊥ = omega (arith, l) in elim absurd [ ]
  mark_internal-Runs (suc f) zero m live l =
      let absurd : ⊥ = omega (arith, positive 0 live) in elim absurd [ ]
  mark_internal-Runs (suc f) (suc n) m live l = elim (Option-cases (starting_at objects (suc n))) [
    | inl e ↦ rw (e, mark_object) (strays (suc n) live e)
    | inr (o, e) ↦ rw e (
        object-Runs f (mark_each objects heap_lo heap_hi (mark_internal objects heap_lo heap_hi f))
          (suc n) o live e
          (each-Runs f (mark_internal objects heap_lo heap_hi f)
            (λ p m' live' l'. mark_internal-Runs f p m' live' l') (children o)
            (λ c i g. enclosed (suc n) o c live e i g))
          m l)
  ]

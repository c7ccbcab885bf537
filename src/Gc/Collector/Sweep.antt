-- ===== src/Gc/Collector/Sweep.antt =====
-- What the sweep of src/stdlib/gc.c keeps, and what a collection keeps.
use visuall.Base.{
  subst, refl, ℕ, true, false, List, [], ◌∷◌, ◌+◌, ◌≡◌, ◌↔◌, inl, inr, arith, Bool-cases, sym, ◌≤◌,
  ◌∙◌, ap, ◌⊎◌, none,
}
use mathlib.Core.List.{Memᴰ}
use mathlib.Core.List.Memᴰ
use visuall.Gc.Object.{Object, starting_at}
use visuall.Gc.Marking.{Marks}
use visuall.Gc.Marking.Reach.{Reached, no_marks, mark_roots-Reach}
use visuall.Gc.Collector.{
  Gc, Roots, Swept, sweep_object, sweep_objects, sweep_from, sweep, adjusted, collected, collect,
  ended, strayed,
}
use visuall.Gc.Marking.Steps.{Begins}

-- The objects with a mark.
unfoldable pub kept : Marks → List Object → List Object
kept m [] = []
kept m (o ∷ os) = elim (m o.user) [ true ↦ o ∷ kept m os | false ↦ kept m os ]

unfoldable pub total_size : List Object → ℕ
total_size [] = 0
total_size (o ∷ os) = o.size + total_size os

pub survivors-kept :
    (m : Marks) (os : List Object) (s : Swept)
    → s.survivors ≡ []
    → (sweep_objects m os s).survivors ≡ kept m os
unfolding sweep_objects kept sweep_object
survivors-kept m [] s h = h
survivors-kept m (o ∷ os) s h = elim (Bool-cases (m o.user)) [
  | inl e ↦ rw (e, sweep_objects, kept) (ap (◌∷◌ o) (survivors-kept m os s h))
  | inr e ↦ rw (e, sweep_objects, kept) (survivors-kept m os (sweep_object o s) h)
]

pub heap_bytes-kept :
    (m : Marks) (os : List Object) (s : Swept) (rest : ℕ)
    → s.heap_bytes ≡ rest + total_size os
    → (sweep_objects m os s).heap_bytes ≡ rest + total_size (kept m os)
unfolding sweep_objects kept sweep_object total_size
heap_bytes-kept m [] s rest h = h
heap_bytes-kept m (o ∷ os) s rest h = elim (Bool-cases (m o.user)) [
  | inl e ↦
      let r = heap_bytes-kept m os s (rest + o.size) (omega (arith, h)) in
      rw (e, sweep_objects, kept) (omega (arith, r))
  | inr e ↦
      rw (e, sweep_objects, kept) (heap_bytes-kept m os (sweep_object o s) rest (omega (arith, h)))
]

pub total_size-kept : (m : Marks) (os : List Object) → total_size (kept m os) ≤ total_size os
unfolding total_size kept
total_size-kept m [] = omega arith
total_size-kept m (o ∷ os) =
    let r = total_size-kept m os in
    elim (Bool-cases (m o.user)) [
      | inl e ↦ rw (e, kept) (omega (arith, r))
      | inr e ↦ rw (e, kept) (omega (arith, r))
    ]

kept_marked :
    (m : Marks) (x : Object) (os : List Object) → m x.user ≡ true → kept m (x ∷ os) ≡ x ∷ kept m os
unfolding kept
kept_marked m x os e = rw (e, kept) refl

kept_unmarked :
    (m : Marks) (x : Object) (os : List Object) → m x.user ≡ false → kept m (x ∷ os) ≡ kept m os
unfolding kept
kept_unmarked m x os e = rw (e, kept) refl

pub kept-Mem :
    (m : Marks) (os : List Object) (o : Object) → Memᴰ o (kept m os) → Memᴰ o os × (m o.user ≡ true)
unfolding kept
kept-Mem m [] o i = elim i [ ]
kept-Mem m (x ∷ os) o i = elim (Bool-cases (m x.user)) [
  | inl e ↦ elim (Memᴰ.cases_cons (subst (Memᴰ o) (kept_marked m x os e) i)) [
    | inl k ↦ (Memᴰ.head k, subst (λ y. m y.user ≡ true) (sym k) e)
    | inr j ↦ let (a, b) = kept-Mem m os o j in (Memᴰ.tail a, b)
  ]
  | inr e ↦
      let (a, b) = kept-Mem m os o (subst (Memᴰ o) (kept_unmarked m x os e) i) in (Memᴰ.tail a, b)
]

Mem-kept :
    (m : Marks) (os : List Object) (o : Object) → Memᴰ o os → m o.user ≡ true → Memᴰ o (kept m os)
unfolding kept
Mem-kept m [] o i h = elim i [ ]
Mem-kept m (x ∷ os) o i h = elim (Bool-cases (m x.user)) [
  | inl e ↦
      subst (Memᴰ o) (sym (kept_marked m x os e))
        (elim (Memᴰ.cases_cons i) [ inl k ↦ Memᴰ.head k | inr j ↦ Memᴰ.tail (Mem-kept m os o j h) ])
  | inr e ↦
      subst (Memᴰ o) (sym (kept_unmarked m x os e))
        (elim (Memᴰ.cases_cons i) [ inl k ↦ cc | inr j ↦ Mem-kept m os o j h ])
]

module _ (g : Gc) (r : Roots) where
  abbrev pub Live : ℕ → Type 0
  Live = Reached g.objects g.heap_lo g.heap_hi r.globals r.stack r.ready

  -- The collector behind a collection that has marked by `m`.
  behind : Marks → Gc
  behind m = adjusted (sweep (record g { marked = m }))

  -- What is left has its marks cleared and its bytes counted, and is what the roots lead to.
  pub record IsCollected (g' : Gc) : Type 0 where
    pub objects : (o : Object) → Memᴰ o g'.objects ↔ (Memᴰ o g.objects × Live o.user)
    pub heap_bytes : g'.heap_bytes ≡ total_size g'.objects
    pub marked : g'.marked ≡ no_marks
    pub begins : (w : ℕ) → Live w → Begins g.objects w

  behind-IsCollected :
      (m : Marks)
      → g.heap_bytes ≡ total_size g.objects
      → ((q : ℕ) → (m q ≡ true) ↔ Live q)
      → ((w : ℕ) → Live w → Begins g.objects w)
      → IsCollected (behind m)
  unfolding behind adjusted sweep sweep_from
  behind-IsCollected m counted live begins =
      let s : Swept = record {
        survivors = [];
        pools = g.pools;
        heap_bytes = g.heap_bytes;
        collected = g.total_bytes_collected;
      } in
      let k = survivors-kept m g.objects s refl in
      let b = heap_bytes-kept m g.objects s 0 (omega (arith, counted)) in
      let b' : (sweep_objects m g.objects s).heap_bytes ≡ total_size (kept m g.objects) =
        omega (arith, b) in
      record {
        objects = λ o. (
          (λ i. let (a, h) = kept-Mem m g.objects o (subst (Memᴰ o) k i) in (a, (live o.user).0 h)),
          (λ (i, h). subst (Memᴰ o) (sym k) (Mem-kept m g.objects o i ((live o.user).1 h))),
        );
        heap_bytes = b' ∙ ap total_size (sym k);
        marked = refl;
        begins = begins;
      }

  -- Where no mark is set and `heap_bytes` counts the bytes of the objects, a collection ends, and
  -- leaves exactly the objects that the roots lead to, counted, with no mark; each word that the roots
  -- lead to is then the beginning of an object. Or marking follows a word that the roots lead to and
  -- that no object begins at; nothing is said of what the collection does from there.
  pub collect-keeps :
      g.marked ≡ no_marks
      → g.heap_bytes ≡ total_size g.objects
      → ((g' : Gc) × (collect r g ≡ ended g') × IsCollected g')
        ⊎ ((w : ℕ) × (collect r g ≡ strayed w) × Live w × (starting_at g.objects w ≡ none))
  unfolding collect collected behind
  collect-keeps clear counted =
      elim (mark_roots-Reach g.objects g.heap_lo g.heap_hi r.globals r.stack r.ready) [
        | inl (m, e, live, begins) ↦
            inl (behind m, rw (clear, e) refl, behind-IsCollected m counted live begins)
        | inr (w, e, l, n) ↦ inr (w, rw (clear, e) refl, l, n)
      ]

-- ===== src/Gc/PtrMap/Refines.antt =====
-- The hash table of src/stdlib/gc.c beside the list of the objects.
use visuall.Base.{
  ℕ, zero, suc, Option, none, some, ◌==◌, ◌≤◌, ◌<◌, ◌≡◌, inl, inr, arith, Bool-cases, refl, sym, ap,
  List, [], ◌∷◌, length,
}
use visuall.Gc.Object.{Object, starting_at}
use visuall.Gc.PtrMap.{PtrMap, ptr_map_lookup, if_some}
use visuall.Gc.PtrMap.Tables.{updated, ptr_map_lookup-Models}
use visuall.Gc.PtrMap.Moves.{Holds, blank-Holds, Gives-map}
use visuall.Gc.PtrMap.{ptr_map_insert, ptr_map_rebuild, initial_cap, ptr_map_init}
use visuall.Gc.PtrMap.Methods.{Returns, IsDistinct, ptr_map_insert-Returns, ptr_map_rebuild-Returns}
use visuall.Gc.Marking.{Marks}
use visuall.Gc.Collector.Sweep.{kept}

-- What happens to the table: an object is allocated, or a sweep keeps the objects with a mark.
pub data TableStep : Type 0 where
  inserted : Object → TableStep
  swept : Marks → TableStep

-- The objects behind some steps, the last step first.
unfoldable pub objects_after : List TableStep → List Object
objects_after [] = []
objects_after (inserted o ∷ ss) = o ∷ objects_after ss
objects_after (swept m ∷ ss) = kept m (objects_after ss)

-- The table behind some steps, the last step first.
unfoldable pub table_after : List TableStep → Option PtrMap
table_after [] = some ptr_map_init
table_after (inserted o ∷ ss) = if_some (table_after ss) (ptr_map_insert o.user o)
table_after (swept m ∷ ss) = if_some (table_after ss) (ptr_map_rebuild (kept m (objects_after ss)))

-- Each object is allocated where there is none.
unfoldable pub AreFresh : List TableStep → Type 0
AreFresh [] = Unit {0}
AreFresh (inserted o ∷ ss) =
    (0 < o.user) × (starting_at (objects_after ss) o.user ≡ none) × AreFresh ss
AreFresh (swept m ∷ ss) = AreFresh ss

starting_at-kept :
    (m : Marks) (os : List Object) (q : ℕ)
    → starting_at os q ≡ none
    → starting_at (kept m os) q ≡ none
unfolding kept starting_at
starting_at-kept m [] q e = refl
starting_at-kept m (o ∷ os) q e = elim (Bool-cases (o.user == q)) [
  | inl h ↦ let absurd : ⊥ = cc in elim absurd [ ]
  | inr h ↦
      let r = starting_at-kept m os q (rw (h, starting_at) at e) in
      elim (Bool-cases (m o.user)) [ inl k ↦ rw (k, kept, h) r | inr k ↦ rw (k, kept) r ]
]

kept-IsDistinct : (m : Marks) (os : List Object) → IsDistinct os → IsDistinct (kept m os)
unfolding kept IsDistinct
kept-IsDistinct m [] d = tt
kept-IsDistinct m (o ∷ os) (p, e, d) = elim (Bool-cases (m o.user)) [
  | inl k ↦ rw (k, kept) (p, starting_at-kept m os o.user e, kept-IsDistinct m os d)
  | inr k ↦ rw (k, kept) (kept-IsDistinct m os d)
]

length-kept : (m : Marks) (os : List Object) → length (kept m os) ≤ length os
unfolding kept
length-kept m [] = omega arith
length-kept m (o ∷ os) =
    let r = length-kept m os in
    elim (Bool-cases (m o.user)) [
      | inl k ↦ rw (k, kept) (omega (arith, r))
      | inr k ↦ rw (k, kept) (omega (arith, r))
    ]

starting_at-zero : (os : List Object) → IsDistinct os → starting_at os 0 ≡ none
unfolding starting_at IsDistinct
starting_at-zero [] d = refl
starting_at-zero (o ∷ os) (p, e, d) = let r = starting_at-zero os d in ground (arith, p, r)

objects_after-IsDistinct : (ss : List TableStep) → AreFresh ss → IsDistinct (objects_after ss)
unfolding objects_after AreFresh IsDistinct
objects_after-IsDistinct [] f = tt
objects_after-IsDistinct (inserted o ∷ ss) (p, e, f) = (p, e, objects_after-IsDistinct ss f)
objects_after-IsDistinct (swept m ∷ ss) f =
    kept-IsDistinct m (objects_after ss) (objects_after-IsDistinct ss f)

abbrev Represents : List Object → Option PtrMap → Type 0
Represents os r = Returns (starting_at os) (length os) r

starting_at_nil : (q : ℕ) → starting_at [] q ≡ none
unfolding starting_at
starting_at_nil q = refl

updated-starting_at :
    (o : Object) (os : List Object) (q : ℕ)
    → updated o.user (some o) (starting_at os) q ≡ starting_at (o ∷ os) q
unfolding starting_at
updated-starting_at o os q = refl

lookup_at :
    (os : List Object) (m : PtrMap)
    → IsDistinct os
    → ((q : ℕ) → 0 < q → ptr_map_lookup m q ≡ some (starting_at os q))
    → (q : ℕ) → ptr_map_lookup m q ≡ some (starting_at os q)
unfolding ptr_map_lookup
lookup_at os m d h zero = ap (λ x. some x) (sym (starting_at-zero os d))
lookup_at os m d h (suc q) = h (suc q) (omega arith)

insert-Represents :
    (o : Object) (os : List Object) (w : ℕ) (m : PtrMap)
    → Holds (starting_at os) (length os) w m
    → 0 < o.user
    → starting_at os o.user ≡ none
    → Represents (o ∷ os) (ptr_map_insert o.user o m)
insert-Represents o os w m h p e =
    let (w', g) = ptr_map_insert-Returns (starting_at os) (length os) w m o.user o h p e in
    (w', Gives-map (λ q p'. updated-starting_at o os q) g)

table_after-Represents :
    (ss : List TableStep) → AreFresh ss → Represents (objects_after ss) (table_after ss)
unfolding table_after objects_after AreFresh if_some
table_after-Represents [] f = (
  initial_cap,
  Gives-map (λ q p. sym (starting_at_nil q))
      (ptr_map_init, refl, blank-Holds initial_cap (omega arith)),
)
table_after-Represents (inserted o ∷ ss) (p, e, f) =
    let (w, (m, r, h)) = table_after-Represents ss f in
    rw r (insert-Represents o (objects_after ss) w m h p e)
table_after-Represents (swept k ∷ ss) f =
    let (w, (m, r, h)) = table_after-Represents ss f in
    let l = length-kept k (objects_after ss) in
    let t = h.table in
    rw r (
      ptr_map_rebuild-Returns (kept k (objects_after ss)) m t.roomy
        (omega (arith, l, h.sized, t.spare))
        (kept-IsDistinct k (objects_after ss) (objects_after-IsDistinct ss f)))

-- Behind allocations at fresh addresses and sweeps, in any order, each of which returns, a lookup in
-- the table ends, and finds the object that begins at the address, or nothing where there is none.
pub ptr_map_lookup-starting_at :
    (ss : List TableStep)
    → AreFresh ss
    → (m : PtrMap) × (table_after ss ≡ some m)
      × ((p : ℕ) → ptr_map_lookup m p ≡ some (starting_at (objects_after ss) p))
ptr_map_lookup-starting_at ss f =
    let (w, (m, r, h)) = table_after-Represents ss f in
    let d = objects_after-IsDistinct ss f in
    (
      m,
      r,
      lookup_at (objects_after ss) m d
          (λ q p. ptr_map_lookup-Models (starting_at (objects_after ss)) m h.table h.models q p),
    )

-- ===== src/Gc/PtrMap/Methods.antt =====
-- Insertion and rebuilding of the hash table of src/stdlib/gc.c.
use visuall.Base.{
  ℕ, zero, suc, false, Option, none, some, ◌==◌, ◌≤◌, ◌<◌, ◌+◌, ◌*◌, ◌≡◌, inl, inr, arith,
  Bool-cases, refl, subst, ==_iff, leb, ◌&&◌, ◌/◌, List, [], ◌∷◌, length, ltb,
}
use visuall.Gc.Object.{Object, starting_at}
use visuall.Gc.PtrMap.{
  Slot, PtrMap, blank, ptr_hash, find_slot, set_slot, move_slot, rehash, put, if_some,
}
use visuall.Gc.PtrMap.Slots.{occupied-new}
use visuall.Gc.PtrMap.Tables.{updated, search, absent, set-IsTable, set-Models}
use visuall.Gc.PtrMap.Moves.{
  Holds, Gives, nothing, blank-Holds, move_slot-Gives, Gives-if_some, Gives-map,
}
use visuall.Gc.PtrMap.Rehash.{rehash-Gives}
use visuall.Gc.PtrMap.{
  ptr_map_insert, grown, ptr_map_grow, shrink, ptr_map_rebuild, move_objects, initial_cap,
}

-- A result that is a table for a map, of some capacity.
abbrev pub Returns : (ℕ → Option Object) → ℕ → Option PtrMap → Type 0
Returns f size r = (cap : ℕ) × Gives f size cap r

-- A table that is not so full that it grows.
abbrev HasSpace : (ℕ → Option Object) → ℕ → Option PtrMap → Type 0
HasSpace f size r = (cap : ℕ) × (suc size < cap) × Gives f size cap r

grown-HasSpace :
    (f : ℕ → Option Object) (size width : ℕ) (m : PtrMap)
    → Holds f size width m
    → HasSpace f size (grown m)
unfolding grown ptr_map_grow
grown-HasSpace f size width m h =
    let t = h.table in
    elim (Bool-cases (leb (m.cap * 3) (m.size * 4))) [
      | inl e ↦
          let r =
            rehash-Gives f m t h.models (m.cap * 2) (blank (m.cap * 2))
              (blank-Holds (m.cap * 2) (omega (arith, t.roomy))) (omega (arith, t.spare)) in
          rw (e, grown)
            (
              m.cap * 2,
              omega (arith, h.sized, t.spare, t.roomy),
              subst (λ x. Gives f x (m.cap * 2) (rehash m.cap m.slots (blank (m.cap * 2)))) h.sized
                  r,
            )
      | inr e ↦
          let n : m.size * 4 < m.cap * 3 = ground (arith, e) in
          rw (e, grown) (width, omega (arith, n, h.sized, h.wide, t.roomy, t.spare), (m, refl, h))
    ]

put-Gives :
    (f : ℕ → Option Object) (size width : ℕ) (m : PtrMap) (k : ℕ) (o : Object)
    → Holds f size width m
    → suc size < width
    → 0 < k
    → f k ≡ none
    → Gives
        (updated k (some o) f)
        (suc size)
        width
        (if_some (find_slot m.slots m.cap m.cap k (ptr_hash k m.cap)) (λ i. some (put k o m i)))
unfolding if_some put
put-Gives f size width m k o h l p free =
    let t = h.table in
    let (i, e, w, stops, b) = search m k t in
    let z : (m.slots i).key ≡ 0 = elim stops [
      | inl y ↦ y
      | inr y ↦ let n = absent f m k h.models p free i b in ground (arith, y, n)
    ] in
    let s : Slot = record { key = k; value = some o } in
    let n = occupied-new m.slots i s m.cap b z p in
    (
      record m { slots = set_slot i s m.slots; size = m.size + 1 },
      rw (e, z) refl,
      record {
        table =
            set-IsTable f m t h.models s o i (m.size + 1) p refl w stops b
              (omega (arith, n, t.counted)) (omega (arith, l, h.sized, h.wide));
        models = set-Models f m t h.models s o i (m.size + 1) p refl w stops b;
        sized = omega (arith, h.sized);
        wide = h.wide;
      },
    )

-- A new key is added.
pub ptr_map_insert-Returns :
    (f : ℕ → Option Object) (size width : ℕ) (m : PtrMap) (k : ℕ) (o : Object)
    → Holds f size width m
    → 0 < k
    → f k ≡ none
    → Returns (updated k (some o) f) (suc size) (ptr_map_insert k o m)
unfolding ptr_map_insert
ptr_map_insert-Returns f size width m k o h p free =
    let (w, l, g) = grown-HasSpace f size width m h in
    (w, Gives-if_some _ g (λ m' h'. put-Gives f size w m' k o h' l p free))

-- A sparse table is halved, as often as it is sparse.
shrink-Returns :
    (f : ℕ → Option Object) (size fuel width : ℕ) (m : PtrMap)
    → Holds f size width m
    → m.cap ≤ fuel
    → Returns f size (shrink fuel m)
unfolding shrink if_some
shrink-Returns f size zero width m h l =
    let absurd : ⊥ = omega (arith, l, h.table.roomy) in elim absurd [ ]
shrink-Returns f size (suc fuel) width m h l =
    elim (Bool-cases (ltb initial_cap m.cap && ltb (m.size * 8) m.cap)) [
      | inr e ↦ rw (e, shrink) (width, (m, refl, h))
      | inl e ↦
          let t = h.table in
          let big : initial_cap < m.cap = ground (arith, e) in
          let sparse : m.size * 8 < m.cap = ground (arith, e) in
          let (m', q, h') =
            rehash-Gives f m t h.models (m.cap / 2) (blank (m.cap / 2))
              (blank-Holds (m.cap / 2) (omega (arith, big))) (omega (arith, sparse, big)) in
          let (w, r) =
            shrink-Returns f m.size fuel (m.cap / 2) m' h' (omega (arith, h'.wide, l, big)) in
          rw (e, shrink, q) (w, subst (λ x. Gives f x w (shrink fuel m')) h.sized r)
    ]

-- Objects at different addresses, none of them 0.
unfoldable pub IsDistinct : List Object → Type 0
IsDistinct [] = Unit {0}
IsDistinct (o ∷ os) = (0 < o.user) × (starting_at os o.user ≡ none) × IsDistinct os

unfoldable first_of : Option Object → Option Object → Option Object
first_of (some o) v = some o
first_of none v = v

-- The objects of a list, or those of a map.
abbrev or_else : List Object → (ℕ → Option Object) → ℕ → Option Object
or_else os f q = first_of (starting_at os q) (f q)

or_else-cons :
    (o : Object) (os : List Object) (f : ℕ → Option Object) (q : ℕ)
    → starting_at os o.user ≡ none
    → or_else os (updated o.user (some o) f) q ≡ or_else (o ∷ os) f q
unfolding starting_at first_of
or_else-cons o os f q e = elim (Bool-cases (o.user == q)) [
  | inl h ↦
      let e' : starting_at os q ≡ none =
        subst (λ x. starting_at os x ≡ none) ((==_iff o.user q).0 h) e in
      rw (e', h, first_of, starting_at) refl
  | inr h ↦ rw (h, starting_at) refl
]

or_nothing : (v : Option Object) → first_of v none ≡ v
unfolding first_of
or_nothing none = refl
or_nothing (some o) = refl

starting_at-head : (o : Object) (os : List Object) → starting_at (o ∷ os) o.user ≡ some o
unfolding starting_at
starting_at-head o os = ground arith

starting_at_tail :
    (o : Object) (os : List Object) (q : ℕ) (x : Object)
    → starting_at os o.user ≡ none
    → starting_at os q ≡ some x
    → ((o.user == q) ≡ false) × (starting_at (o ∷ os) q ≡ some x)
unfolding starting_at
starting_at_tail o os q x e s = elim (Bool-cases (o.user == q)) [
  | inr h ↦ (h, rw (h, s) refl)
  | inl h ↦
      let e' : starting_at os q ≡ none =
        subst (λ y. starting_at os y ≡ none) ((==_iff o.user q).0 h) e in
      cc
]

move_objects-Gives :
    (f : ℕ → Option Object) (size width : ℕ) (os : List Object) (m : PtrMap)
    → Holds f size width m
    → IsDistinct os
    → ((q : ℕ) (x : Object) → starting_at os q ≡ some x → f q ≡ none)
    → size + length os < width
    → Gives (or_else os f) (size + length os) width (move_objects os m)
unfolding move_objects IsDistinct first_of starting_at
move_objects-Gives f size width [] m h d free l =
    let e : size ≡ size + 0 = omega arith in (m, refl, subst (λ x. Holds f x width m) e h)
move_objects-Gives f size width (o ∷ os) m h (p, fresh, d) free l =
    let e : suc size + length os ≡ size + suc (length os) = omega arith in
    let s : Slot = record { key = o.user; value = some o } in
    Gives-map (λ q p'. or_else-cons o os f q fresh)
      (subst
        (λ x.
          Gives (or_else os (updated o.user (some o) f)) x width
            (if_some (move_slot s m) (move_objects os)))
        e
        (Gives-if_some (move_objects os)
          (move_slot-Gives f size width m s o h (omega (arith, l)) p refl
            (free o.user o (starting_at-head o os)))
          (λ m' h'.
            move_objects-Gives (updated o.user (some o) f) (suc size) width os m' h' d
              (λ q x k. let (n, a) = starting_at_tail o os q x fresh k in rw n (free q x a))
              (omega (arith, l)))))

-- The table behind a collection has the objects that are left.
pub ptr_map_rebuild-Returns :
    (os : List Object) (m : PtrMap)
    → 4 ≤ m.cap
    → length os < m.cap
    → IsDistinct os
    → Returns (starting_at os) (length os) (ptr_map_rebuild os m)
unfolding ptr_map_rebuild if_some
ptr_map_rebuild-Returns os m r l d =
    let (m', e, h) =
      move_objects-Gives nothing 0 m.cap os (blank m.cap) (blank-Holds m.cap r) d (λ q x k. refl)
        (omega (arith, l)) in
    let n : 0 + length os ≡ length os = omega arith in
    let (w, g) =
      shrink-Returns (or_else os nothing) (length os) m'.cap m.cap m'
        (subst (λ x. Holds (or_else os nothing) x m.cap m') n h) (omega arith) in
    (w, rw (e, if_some) (Gives-map (λ q p. or_nothing (starting_at os q)) g))

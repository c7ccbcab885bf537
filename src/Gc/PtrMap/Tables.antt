-- ===== src/Gc/PtrMap/Tables.antt =====
-- The invariant of the hash table of src/stdlib/gc.c, and the map that a table stands for.
use visuall.Base.{
  ℕ, zero, suc, false, Option, Option-cases, none, some, ◌==◌, if◌then◌else◌, ◌≤◌, ◌<◌, ◌≡◌, inl,
  inr, arith, Bool-cases, sym, ap, subst, ◌∙◌, ==_iff,
}
use native.Mathlib.Nat.{mod-lt}
use visuall.Gc.Object.{Object}
use visuall.Gc.PtrMap.{
  Slot, PtrMap, ptr_hash, find_slot, set_slot, ptr_map_lookup, value_in, if_some,
}
use visuall.Gc.PtrMap.Slots.{occupied, find_slot-ends}
use visuall.Gc.PtrMap.Walks.{Walk, Stops, Walk-unique, find_slot-Walk, Walk-set_slot, key-set_slot}

-- The slots in use are counted, and not all; each of them is found by its key.
pub record IsTable (m : PtrMap) : Type 0 where
  pub roomy : 4 ≤ m.cap
  pub counted : occupied m.slots m.cap ≡ m.size
  pub spare : m.size < m.cap
  pub placed :
      (j : ℕ)
      → j < m.cap
      → 0 < (m.slots j).key
      → Walk m.cap m.slots (m.slots j).key (ptr_hash (m.slots j).key m.cap) j

-- The slots in use stand for a map.
pub record Models (f : ℕ → Option Object) (m : PtrMap) : Type 0 where
  pub valued :
      (j : ℕ)
      → j < m.cap
      → 0 < (m.slots j).key
      → (o : Object) × ((m.slots j).value ≡ some o) × (f (m.slots j).key ≡ some o)
  pub found :
      (k : ℕ) (o : Object) → 0 < k → f k ≡ some o → (j : ℕ) × (j < m.cap) × ((m.slots j).key ≡ k)

abbrev pub updated : ℕ → Option Object → (ℕ → Option Object) → ℕ → Option Object
updated k v f q = if k == q then v else f q

pub ptr_hash-lt : (k cap : ℕ) → 0 < cap → ptr_hash k cap < cap
unfolding ptr_hash
ptr_hash-lt k cap l = mod-lt _ l

pub absent :
    (f : ℕ → Option Object) (m : PtrMap) (k : ℕ)
    → Models f m
    → 0 < k
    → f k ≡ none
    → (j : ℕ) → j < m.cap
    → ((m.slots j).key == k) ≡ false
absent f m k v p e j l = elim (Bool-cases ((m.slots j).key == k)) [
  | inr h ↦ h
  | inl h ↦
      let h' = (==_iff (m.slots j).key k).0 h in
      let (o, a, b) = v.valued j l (omega (arith, h', p)) in cc
]

-- The slot at which a search for a key stops.
pub search :
    (m : PtrMap) (k : ℕ)
    → IsTable m
    → (i : ℕ) × (find_slot m.slots m.cap m.cap k (ptr_hash k m.cap) ≡ some i)
      × Walk m.cap m.slots k (ptr_hash k m.cap) i
      × Stops m.cap m.slots k i
      × (i < m.cap)
search m k t =
    let h = ptr_hash-lt k m.cap (omega (arith, t.roomy)) in
    let (i, e) =
      find_slot-ends m.cap m.slots k (ptr_hash k m.cap) h (omega (arith, t.counted, t.spare)) in
    let (w, s, l) = find_slot-Walk m.cap m.slots k m.cap (ptr_hash k m.cap) i h e in (i, e, w, s, l)

-- Where a slot in use has a key, a search for the key stops there.
pub search-Stops :
    (m : PtrMap) (k : ℕ)
    → IsTable m
    → 0 < k
    → (i j : ℕ) → Walk m.cap m.slots k (ptr_hash k m.cap) i
    → Stops m.cap m.slots k i
    → j < m.cap
    → (m.slots j).key ≡ k
    → i ≡ j
search-Stops m k t p i j w s l e =
    Walk-unique m.cap m.slots k w
      (subst (λ x. Walk m.cap m.slots x (ptr_hash x m.cap) j) e
        (t.placed j l (omega (arith, e, p))))
      s (inr e)

module _ (f : ℕ → Option Object) (m : PtrMap) (t : IsTable m) (v : Models f m) where
  value_at_stop :
      (k i : ℕ)
      → 0 < k
      → Walk m.cap m.slots k (ptr_hash k m.cap) i
      → Stops m.cap m.slots k i
      → i < m.cap
      → value_in (m.slots i) ≡ f k
  unfolding value_in
  value_at_stop k i p w (inr e) l =
      let (o, a, b) = v.valued i l (omega (arith, e, p)) in
      let b' = subst (λ x. f x ≡ some o) e b in ground (arith, e, p, a, b')
  value_at_stop k i p w (inl e) l = elim (Option-cases (f k)) [
    | inl n ↦ ground (arith, e, n)
    | inr (o, n) ↦
        let (j, a, b) = v.found k o p n in
        let q = search-Stops m k t p i j w (inl e) a b in
        let e' : (m.slots j).key ≡ 0 = subst (λ x. (m.slots x).key ≡ 0) q e in
        let absurd : ⊥ = omega (arith, e', b, p) in elim absurd [ ]
  ]

  -- A lookup gives what the map has.
  pub ptr_map_lookup-Models : (k : ℕ) → 0 < k → ptr_map_lookup m k ≡ some (f k)
  unfolding ptr_map_lookup if_some
  ptr_map_lookup-Models zero p = let absurd : ⊥ = omega (arith, p) in elim absurd [ ]
  ptr_map_lookup-Models (suc k) p =
      let (i, e, w, s, l) = search m (suc k) t in
      rw e (ap (λ x. some x) (value_at_stop (suc k) i p w s l))

  module _ (s : Slot) (o : Object) (i n : ℕ) (used : 0 < s.key) (full : s.value ≡ some o)
      (walk : Walk m.cap m.slots s.key (ptr_hash s.key m.cap) i)
      (stops : Stops m.cap m.slots s.key i) (within : i < m.cap) where
    abbrev after_set : PtrMap
    after_set = record m { slots = set_slot i s m.slots; size = n }

    set-placed :
        (j : ℕ)
        → j < m.cap
        → 0 < (set_slot i s m.slots j).key
        → Walk m.cap m.slots
            (set_slot i s m.slots j).key
            (ptr_hash (set_slot i s m.slots j).key m.cap)
            j
    unfolding set_slot
    set-placed j l p = elim (Bool-cases (i == j)) [
      | inl e ↦
          rw (e, set_slot)
            (subst (Walk m.cap m.slots s.key (ptr_hash s.key m.cap)) ((==_iff i j).0 e) walk)
      | inr e ↦ rw (e, set_slot) (t.placed j l (rw (e, set_slot) at p))
    ]

    pub set-IsTable : occupied (set_slot i s m.slots) m.cap ≡ n → n < m.cap → IsTable after_set
    set-IsTable e l = record {
      roomy = t.roomy;
      counted = e;
      spare = l;
      placed = λ j b p. Walk-set_slot m.cap m.slots s i stops _ (set-placed j b p);
    }

    other_key : (j : ℕ) → j < m.cap → (i == j) ≡ false → (s.key == (m.slots j).key) ≡ false
    other_key j l e = elim (Bool-cases (s.key == (m.slots j).key)) [
      | inr h ↦ h
      | inl h ↦
          let h' = (==_iff s.key (m.slots j).key).0 h in
          let q = search-Stops m s.key t used i j walk stops l (sym h') in ground (arith, q, e)
    ]

    set-valued :
        (j : ℕ)
        → j < m.cap
        → 0 < (set_slot i s m.slots j).key
        → (x : Object) × ((set_slot i s m.slots j).value ≡ some x)
          × (updated s.key s.value f (set_slot i s m.slots j).key ≡ some x)
    unfolding set_slot
    set-valued j l p = elim (Bool-cases (i == j)) [
      | inl e ↦ rw (e, set_slot) (o, full, ground (arith, full))
      | inr e ↦
          let (x, a, b) = v.valued j l (rw (e, set_slot) at p) in
          rw (e, set_slot) (x, a, ground (arith, other_key j l e, b))
    ]

    set-found :
        (k : ℕ) (x : Object)
        → 0 < k
        → updated s.key s.value f k ≡ some x
        → (j : ℕ) × (j < m.cap) × ((set_slot i s m.slots j).key ≡ k)
    unfolding set_slot
    set-found k x p e = elim (Bool-cases (s.key == k)) [
      | inl h ↦ (i, within, ground (arith, h))
      | inr h ↦
          let (j, a, b) = v.found k x p (ground (arith, h, e)) in
          (j, a, key-set_slot m.cap m.slots s i j stops (omega (arith, b, p)) ∙ b)
    ]

    -- A slot that is set updates the map.
    pub set-Models : Models (updated s.key s.value f) after_set
    set-Models = record { valued = set-valued; found = set-found }

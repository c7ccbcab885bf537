-- ===== src/Gc/PtrMap/Walks.antt =====
-- What a search in the hash table of src/stdlib/gc.c passes, and a table in which each key is found.
use visuall.Base.{
  ℕ, zero, suc, false, some, ◌==◌, ◌<◌, ◌+◌, ◌%◌, ◌≡◌, ◌⊎◌, inl, inr, arith, Bool-cases, refl, sym,
  ap, subst, ◌∙◌, ==_iff,
}
use native.Mathlib.Nat.{mod-lt}
use visuall.Gc.PtrMap.{Slot, find_slot, set_slot}

module _ (cap : ℕ) where
  -- From one slot to another, over slots with other keys.
  pub data Walk (slots : ℕ → Slot) (k : ℕ) : ℕ → ℕ → Type 0 where
    here : {i : ℕ} → Walk slots k i i
    next :
        {i j : ℕ}
        → 0 < (slots i).key
        → ((slots i).key == k) ≡ false
        → Walk slots k ((i + 1) % cap) j
        → Walk slots k i j

  -- A slot at which a search for a key stops.
  abbrev pub Stops : (ℕ → Slot) → ℕ → ℕ → Type 0
  Stops slots k j = ((slots j).key ≡ 0) ⊎ ((slots j).key ≡ k)

  stop_passed :
      (slots : ℕ → Slot) (k i : ℕ)
      → Stops slots k i
      → 0 < (slots i).key
      → ((slots i).key == k) ≡ false
      → ⊥
  stop_passed slots k i (inl e) p n = omega (arith, e, p)
  stop_passed slots k i (inr e) p n = ground (arith, e, n)

  pub Walk-unique :
      (slots : ℕ → Slot) (k : ℕ) {i j j' : ℕ}
      → Walk slots k i j
      → Walk slots k i j'
      → Stops slots k j
      → Stops slots k j'
      → j ≡ j'
  Walk-unique slots k here here s s' = refl
  Walk-unique slots k here (next p n w) s s' = elim (stop_passed slots k _ s p n) [ ]
  Walk-unique slots k (next p n w) here s s' = elim (stop_passed slots k _ s' p n) [ ]
  Walk-unique slots k (next p n w) (next p' n' w') s s' = Walk-unique slots k w w' s s'

  Stops-at :
      (slots : ℕ → Slot) (k : ℕ) {i j : ℕ}
      → i < cap
      → Stops slots k i
      → some i ≡ some j
      → Walk slots k i j × Stops slots k j × (j < cap)
  Stops-at slots k {i} {j} l s e =
      let q : i ≡ j = cc in
      subst (λ x. Walk slots k i x × Stops slots k x × (x < cap)) q (here, s, l)

  Stops-key :
      (slots : ℕ → Slot) (s : Slot) (i : ℕ)
      → Stops slots s.key i
      → 0 < (slots i).key
      → s.key ≡ (slots i).key
  Stops-key slots s i (inl e) p = let absurd : ⊥ = omega (arith, e, p) in elim absurd [ ]
  Stops-key slots s i (inr e) p = sym e

  pub find_slot-Walk :
      (slots : ℕ → Slot) (k f i j : ℕ)
      → i < cap
      → find_slot slots cap f k i ≡ some j
      → Walk slots k i j × Stops slots k j × (j < cap)
  unfolding find_slot
  find_slot-Walk slots k zero i j l e = cc
  find_slot-Walk slots k (suc f) i j l e = elim (Bool-cases ((slots i).key == 0)) [
    | inl z ↦
        let e' : some i ≡ some j = rw (z, find_slot) at e in
        Stops-at slots k l (inl ((==_iff (slots i).key 0).0 z)) e'
    | inr z ↦ elim (Bool-cases ((slots i).key == k)) [
      | inl y ↦
          let e' : some i ≡ some j = rw (z, y, find_slot) at e in
          Stops-at slots k l (inr ((==_iff (slots i).key k).0 y)) e'
      | inr y ↦
          let e' : find_slot slots cap f k ((i + 1) % cap) ≡ some j = rw (z, y, find_slot) at e in
          let (w, s, b) =
            find_slot-Walk slots k f ((i + 1) % cap) j (mod-lt (i + 1) (omega (arith, l))) e' in
          (next (ground (arith, z)) y w, s, b)
    ]
  ]

  pub key-set_slot :
      (slots : ℕ → Slot) (s : Slot) (t i : ℕ)
      → Stops slots s.key t
      → 0 < (slots i).key
      → (set_slot t s slots i).key ≡ (slots i).key
  unfolding set_slot
  key-set_slot slots s t i h p = elim (Bool-cases (t == i)) [
    | inl e ↦
        rw (e, set_slot) (Stops-key slots s i (subst (Stops slots s.key) ((==_iff t i).0 e) h) p)
    | inr e ↦ rw (e, set_slot) refl
  ]

  -- A slot that is empty or has the key gets the key.
  pub Walk-set_slot :
      (slots : ℕ → Slot) (s : Slot) (t : ℕ)
      → Stops slots s.key t
      → (k : ℕ) {i j : ℕ} → Walk slots k i j
      → Walk (set_slot t s slots) k i j
  Walk-set_slot slots s t h k here = here
  Walk-set_slot slots s t h k (next {i} p n w) =
      let e = key-set_slot slots s t i h p in
      next (omega (arith, e, p)) (ap (λ x. x == k) e ∙ n) (Walk-set_slot slots s t h k w)

-- ===== src/Gc/PtrMap/Slots.antt =====
-- The slots of the hash table of src/stdlib/gc.c: how many are in use, and how far a search goes.
use visuall.Base.{
  ℕ, zero, suc, false, some, ◌==◌, if◌then◌else◌, ◌≤◌, ◌<◌, ◌+◌, ◌-◌, ◌%◌, ◌≡◌, inl, inr, arith,
  Bool-cases, refl, sym, ap, subst, ◌∙◌, ◌||◌, ==_iff, leb,
}
use native.Mathlib.Nat.{mod-lt, mod-eq_of_lt, mod_self}
use visuall.Gc.PtrMap.{Slot, find_slot, free_slot, set_slot}

unfoldable pub occupied : (ℕ → Slot) → ℕ → ℕ
occupied slots zero = 0
occupied slots (suc n) = (if (slots n).key == 0 then 0 else 1) + occupied slots n

occupied-above :
    (slots : ℕ → Slot) (i : ℕ) (s : Slot) (n : ℕ)
    → n ≤ i
    → occupied (set_slot i s slots) n ≡ occupied slots n
unfolding occupied set_slot
occupied-above slots i s zero l = refl
occupied-above slots i s (suc n) l =
    let r = occupied-above slots i s n (omega (arith, l)) in ground (arith, l, r)

pub occupied-new :
    (slots : ℕ → Slot) (i : ℕ) (s : Slot) (n : ℕ)
    → i < n
    → (slots i).key ≡ 0
    → 0 < s.key
    → occupied (set_slot i s slots) n ≡ suc (occupied slots n)
unfolding occupied set_slot
occupied-new slots i s zero l e p = let absurd : ⊥ = omega (arith, l) in elim absurd [ ]
occupied-new slots i s (suc n) l e p = elim (Bool-cases (i == n)) [
  | inl k ↦
      let r = occupied-above slots i s n (ground (arith, k)) in
      let e' : (slots n).key ≡ 0 = subst (λ x. (slots x).key ≡ 0) ((==_iff i n).0 k) e in
      ground (arith, k, r, e', p)
  | inr k ↦ let r = occupied-new slots i s n (ground (arith, k, l)) e p in ground (arith, k, r)
]

pub occupied-same :
    (slots : ℕ → Slot) (i : ℕ) (s : Slot) (n : ℕ)
    → s.key ≡ (slots i).key
    → occupied (set_slot i s slots) n ≡ occupied slots n
unfolding occupied set_slot
occupied-same slots i s zero e = refl
occupied-same slots i s (suc n) e =
    let r = occupied-same slots i s n e in
    elim (Bool-cases (i == n)) [
      | inl k ↦
          let e' : s.key ≡ (slots n).key =
            subst (λ x. s.key ≡ (slots x).key) ((==_iff i n).0 k) e in
          ground (arith, k, r, e')
      | inr k ↦ ground (arith, k, r)
    ]

-- A table that is not full has an empty slot.
pub empty_below :
    (slots : ℕ → Slot) (n : ℕ) → occupied slots n < n → (e : ℕ) × (e < n) × ((slots e).key ≡ 0)
unfolding occupied
empty_below slots zero l = let absurd : ⊥ = omega (arith, l) in elim absurd [ ]
empty_below slots (suc n) l = elim (Bool-cases ((slots n).key == 0)) [
  | inl k ↦ (n, omega arith, ground (arith, k))
  | inr k ↦ let (e, a, b) = empty_below slots n (ground (arith, k, l)) in (e, omega (arith, a), b)
]

module _ (cap : ℕ) where
  steps : ℕ → ℕ → ℕ
  steps zero i = i
  steps (suc d) i = steps d ((i + 1) % cap)

  steps-add : (d d' i : ℕ) → steps (d + d') i ≡ steps d' (steps d i)
  unfolding steps
  steps-add zero d' i = let e : 0 + d' ≡ d' = omega arith in ap (λ n. steps n i) e
  steps-add (suc d) d' i =
      let e : suc d + d' ≡ suc (d + d') = omega arith in
      ap (λ n. steps n i) e ∙ steps-add d d' ((i + 1) % cap)

  steps-within : (d i : ℕ) → i + d < cap → steps d i ≡ i + d
  unfolding steps
  steps-within zero i l = omega arith
  steps-within (suc d) i l =
      let m : (i + 1) % cap ≡ i + 1 = mod-eq_of_lt (omega (arith, l)) in
      let r = steps-within d (i + 1) (omega (arith, l)) in rw m (r ∙ omega arith)

  steps-wrap : (i : ℕ) → i < cap → steps (cap - i) i ≡ 0
  unfolding steps
  steps-wrap i l =
      let a = steps-add (cap - 1 - i) 1 i in
      let b = steps-within (cap - 1 - i) i (omega (arith, l)) in
      let c : cap - i ≡ cap - 1 - i + 1 = omega (arith, l) in
      let d : i + (cap - 1 - i) + 1 ≡ cap = omega (arith, l) in
      ap (λ n. steps n i) c ∙ a ∙ ap (λ n. (n + 1) % cap) b ∙ ap (λ n. n % cap) d ∙ mod_self cap

  -- From each slot, a search comes to each other slot.
  steps-reaches : (i e : ℕ) → i < cap → e < cap → (d : ℕ) × (d < cap) × (steps d i ≡ e)
  steps-reaches i e l k = elim (Bool-cases (leb i e)) [
    | inl h ↦
        let h' : i ≤ e = ground (arith, h) in
        (
          e - i,
          omega (arith, k, l),
          steps-within (e - i) i (omega (arith, h', k)) ∙ omega (arith, h'),
        )
    | inr h ↦
        let h' : e < i = ground (arith, h) in
        (
          cap - i + e,
          omega (arith, h', l),
          steps-add (cap - i) e i
              ∙ ap (steps e) (steps-wrap i l)
              ∙ steps-within e 0 (omega (arith, k))
              ∙ omega arith,
        )
  ]

  module _ (slots : ℕ → Slot) (k : ℕ) where
    find_slot-steps :
        (f d i : ℕ)
        → d < f
        → (slots (steps d i)).key ≡ 0
        → (j : ℕ) × (find_slot slots cap f k i ≡ some j)
    unfolding find_slot steps
    find_slot-steps zero d i l e = let absurd : ⊥ = omega (arith, l) in elim absurd [ ]
    find_slot-steps (suc f) zero i l e = (i, ground (arith, e))
    find_slot-steps (suc f) (suc d) i l e =
        let (j, r) = find_slot-steps f d ((i + 1) % cap) (omega (arith, l)) e in
        elim (Bool-cases ((slots i).key == 0 || (slots i).key == k)) [
          | inl h ↦ (i, rw (h, find_slot) refl)
          | inr h ↦ (j, rw (h, find_slot) r)
        ]

    -- In a table with an empty slot, a search ends.
    pub find_slot-ends :
        (i : ℕ)
        → i < cap
        → occupied slots cap < cap
        → (j : ℕ) × (find_slot slots cap cap k i ≡ some j)
    find_slot-ends i l h =
        let (e, a, b) = empty_below slots cap h in
        let (d, c, s) = steps-reaches i e l a in
        find_slot-steps cap d i c (subst (λ x. (slots x).key ≡ 0) (sym s) b)

    -- Where no slot has the key, a search for it is one for an empty slot.
    pub free_slot-find_slot :
        (f i : ℕ)
        → i < cap
        → ((j : ℕ) → j < cap → ((slots j).key == k) ≡ false)
        → free_slot slots cap f i ≡ find_slot slots cap f k i
    unfolding find_slot free_slot
    free_slot-find_slot zero i l h = refl
    free_slot-find_slot (suc f) i l h =
        let r = free_slot-find_slot f ((i + 1) % cap) (mod-lt (i + 1) (omega (arith, l))) h in
        let n = h i l in ground (arith, r, n)

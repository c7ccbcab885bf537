-- ===== src/Gc/PtrMap/Rehash.antt =====
-- Growing and shrinking the hash table of src/stdlib/gc.c.
use visuall.Base.{
  ℕ, zero, suc, true, false, Option, Option-cases, none, some, ◌==◌, if◌then◌else◌, ◌≤◌, ◌<◌, ◌+◌,
  ◌-◌, ◌≡◌, ◌⊎◌, inl, inr, arith, Bool-cases, refl, sym, subst, ◌∙◌, ==_iff,
}
use visuall.Gc.Object.{Object}
use visuall.Gc.PtrMap.{Slot, PtrMap, move_slot, rehash}
use visuall.Gc.PtrMap.Slots.{occupied}
use visuall.Gc.PtrMap.Tables.{IsTable, Models, updated}
use visuall.Gc.PtrMap.Tables.{search-Stops}
use visuall.Gc.PtrMap.Moves.{Holds, Gives, nothing, move_slot-Gives, Gives-if_some, Gives-map}

-- What the first slots hold for a key.
unfoldable pub among : (ℕ → Slot) → ℕ → ℕ → Option Object
among slots zero q = none
among slots (suc n) q =
    if (slots n).key == 0
    then among slots n q
    else updated (slots n).key (slots n).value (among slots n) q

among-none :
    (slots : ℕ → Slot) (n k : ℕ)
    → ((i : ℕ) → i < n → ((slots i).key == k) ≡ false)
    → among slots n k ≡ none
unfolding among
among-none slots zero k h = refl
among-none slots (suc n) k h =
    let r = among-none slots n k (λ i l. h i (omega (arith, l))) in
    let e = h n (omega arith) in ground (arith, r, e)

occupied_le : (slots : ℕ → Slot) (n d : ℕ) → occupied slots n ≤ occupied slots (d + n)
unfolding occupied
occupied_le slots n zero =
    let e : n ≡ 0 + n = omega arith in
    subst (λ x. occupied slots n ≤ occupied slots x) e (omega arith)
occupied_le slots n (suc d) =
    let r = occupied_le slots n d in
    let e : suc (d + n) ≡ suc d + n = omega arith in
    subst (λ x. occupied slots n ≤ occupied slots x) e (ground (arith, r))

start :
    (slots : ℕ → Slot) {cap : ℕ} {m : PtrMap}
    → Holds nothing 0 cap m
    → Holds (among slots 0) (occupied slots 0) cap m
unfolding among occupied
start slots h = h

move_empty : (s : Slot) (to : PtrMap) → (s.key == 0) ≡ true → move_slot s to ≡ some to
unfolding move_slot
move_empty s to z = rw (z, move_slot) refl

among-empty :
    (slots : ℕ → Slot) (n q : ℕ)
    → ((slots n).key == 0) ≡ true
    → among slots (suc n) q ≡ among slots n q
unfolding among
among-empty slots n q z = rw z refl

among-used :
    (slots : ℕ → Slot) (n q : ℕ)
    → ((slots n).key == 0) ≡ false
    → among slots (suc n) q ≡ updated (slots n).key (slots n).value (among slots n) q
unfolding among
among-used slots n q z = rw z refl

module _ (f : ℕ → Option Object) (m : PtrMap) (t : IsTable m) (v : Models f m) where
  distinct :
      (i j : ℕ)
      → i < m.cap
      → j < m.cap
      → 0 < (m.slots i).key
      → (m.slots j).key ≡ (m.slots i).key
      → i ≡ j
  distinct i j l l' p e = search-Stops m (m.slots i).key t p i j (t.placed i l p) (inr refl) l' e

  -- The first slots hold what the map has, or do not have the key.
  among-cases :
      (n q : ℕ)
      → n ≤ m.cap
      → 0 < q
      → (among m.slots n q ≡ f q)
        ⊎ ((among m.slots n q ≡ none) × ((i : ℕ) → i < n → ((m.slots i).key == q) ≡ false))
  unfolding among
  among-cases zero q l p = inr (refl, λ i b. let absurd : ⊥ = omega (arith, b) in elim absurd [ ])
  among-cases (suc n) q l p = elim (Bool-cases ((m.slots n).key == q)) [
    | inl h ↦
        let h' = (==_iff (m.slots n).key q).0 h in
        let (o, a, b) = v.valued n (omega (arith, l)) (omega (arith, h', p)) in
        let b' = subst (λ x. f x ≡ some o) h' b in inl (ground (arith, h, p, a, b'))
    | inr h ↦ elim (among-cases n q (omega (arith, l)) p) [
      | inl r ↦ inl (ground (arith, h, r))
      | inr (r, k) ↦ inr (
        ground (arith, h, r),
        λ i b. elim (Bool-cases (i == n)) [
          | inl e ↦ subst (λ x. ((m.slots x).key == q) ≡ false) (sym ((==_iff i n).0 e)) h
          | inr e ↦ k i (ground (arith, e, b))
        ],
      )
    ]
  ]

  pub among-all : (q : ℕ) → 0 < q → among m.slots m.cap q ≡ f q
  among-all q p = elim (among-cases m.cap q (omega arith) p) [
    | inl r ↦ r
    | inr (r, k) ↦ elim (Option-cases (f q)) [
      | inl e ↦ r ∙ sym e
      | inr (o, e) ↦ let (j, l, h) = v.found q o p e in let n = k j l in ground (arith, h, n)
    ]
  ]

  apart : (n : ℕ) → n < m.cap → 0 < (m.slots n).key → among m.slots n (m.slots n).key ≡ none
  apart n l p = among-none m.slots n (m.slots n).key (λ i b.
      elim (Bool-cases ((m.slots i).key == (m.slots n).key)) [
        | inr h ↦ h
        | inl h ↦
            let q =
              distinct n i l (omega (arith, b, l)) p
                ((==_iff (m.slots i).key (m.slots n).key).0 h) in
            let absurd : ⊥ = omega (arith, q, b) in elim absurd [ ]
      ])

  within : (n : ℕ) → n ≤ m.cap → occupied m.slots n ≤ m.size
  within n l =
      let e : m.cap - n + n ≡ m.cap = omega (arith, l) in
      let r =
        subst (λ x. occupied m.slots n ≤ occupied m.slots x) e
          (occupied_le m.slots n (m.cap - n)) in
      omega (arith, r, t.counted)

  move-among :
      (cap : ℕ)
      → m.size < cap
      → (n : ℕ) → n < m.cap
      → (to : PtrMap) → Holds (among m.slots n) (occupied m.slots n) cap to
      → Gives (among m.slots (suc n)) (occupied m.slots (suc n)) cap (move_slot (m.slots n) to)
  unfolding occupied
  move-among cap l n b to h = elim (Bool-cases ((m.slots n).key == 0)) [
    | inl z ↦
        let e : occupied m.slots n ≡ occupied m.slots (suc n) = ground (arith, z) in
        Gives-map (λ q p. sym (among-empty m.slots n q z))
          (to, move_empty (m.slots n) to z, subst (λ x. Holds (among m.slots n) x cap to) e h)
    | inr z ↦
        let p : 0 < (m.slots n).key = ground (arith, z) in
        let (o, a, c) = v.valued n b p in
        let e : suc (occupied m.slots n) ≡ occupied m.slots (suc n) = ground (arith, z) in
        let w = within (suc n) b in
        let r =
          move_slot-Gives (among m.slots n) (occupied m.slots n) cap to (m.slots n) o h
            (omega (arith, e, w, l)) p a (apart n b p) in
        Gives-map (λ q p'. sym (among-used m.slots n q z))
          (subst
            (λ x.
              Gives (updated (m.slots n).key (m.slots n).value (among m.slots n)) x cap
                (move_slot (m.slots n) to))
            e r)
  ]

  rehash-among :
      (cap : ℕ) (to : PtrMap)
      → Holds nothing 0 cap to
      → m.size < cap
      → (n : ℕ) → n ≤ m.cap
      → Gives (among m.slots n) (occupied m.slots n) cap (rehash n m.slots to)
  unfolding rehash
  rehash-among cap to h l zero b = (to, refl, start m.slots h)
  rehash-among cap to h l (suc n) b =
      Gives-if_some (move_slot (m.slots n)) (rehash-among cap to h l n (omega (arith, b)))
        (λ to' h'. move-among cap l n b to' h')

  -- All the slots of a table, moved to an empty one with room for them, stand for the same map.
  pub rehash-Gives :
      (cap : ℕ) (to : PtrMap)
      → Holds nothing 0 cap to
      → m.size < cap
      → Gives f m.size cap (rehash m.cap m.slots to)
  rehash-Gives cap to h l = Gives-map among-all (
      subst (λ x. Gives (among m.slots m.cap) x cap (rehash m.cap m.slots to)) t.counted
        (rehash-among cap to h l m.cap (omega arith)))

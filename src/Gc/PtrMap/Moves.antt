-- ===== src/Gc/PtrMap/Moves.antt =====
-- Moving slots to another table in src/stdlib/gc.c, as growing and rebuilding do.
use visuall.Base.{
  ℕ, zero, suc, false, Option, none, some, ◌==◌, ◌≤◌, ◌<◌, ◌+◌, ◌≡◌, inl, inr, arith, refl, sym,
  ◌∙◌,
}
use visuall.Gc.Object.{Object}
use visuall.Gc.PtrMap.{Slot, PtrMap, blank, empty_slot, ptr_hash, set_slot, move_slot, if_some}
use visuall.Gc.PtrMap.Slots.{occupied, occupied-new, free_slot-find_slot}
use visuall.Gc.PtrMap.Tables.{
  IsTable, Models, updated, search, absent, ptr_hash-lt, set-IsTable, set-Models,
}

-- A table that stands for a map, with a number of slots in use.
pub record Holds (f : ℕ → Option Object) (size cap : ℕ) (m : PtrMap) : Type 0 where
  pub table : IsTable m
  pub models : Models f m
  pub sized : m.size ≡ size
  pub wide : m.cap ≡ cap

-- A result that is a table for a map.
abbrev pub Gives : (ℕ → Option Object) → ℕ → ℕ → Option PtrMap → Type 0
Gives f size cap r = (m : PtrMap) × (r ≡ some m) × Holds f size cap m

occupied-blank : (n : ℕ) → occupied (λ i. empty_slot) n ≡ 0
unfolding occupied
occupied-blank zero = refl
occupied-blank (suc n) = let r = occupied-blank n in omega (arith, r)

abbrev pub nothing : ℕ → Option Object
nothing q = none

pub blank-Holds : (cap : ℕ) → 4 ≤ cap → Holds nothing 0 cap (blank cap)
blank-Holds cap l = record {
  table = record {
    roomy = l;
    counted = occupied-blank cap;
    spare = omega (arith, l);
    placed = λ j b p. let absurd : ⊥ = omega (arith, p) in elim absurd [ ];
  };
  models = record {
    valued = λ j b p. let absurd : ⊥ = omega (arith, p) in elim absurd [ ];
    found = λ k o p e. cc;
  };
  sized = refl;
  wide = refl;
}

pub move_slot-Gives :
    (f : ℕ → Option Object) (size cap : ℕ) (m : PtrMap) (s : Slot) (o : Object)
    → Holds f size cap m
    → suc size < cap
    → 0 < s.key
    → s.value ≡ some o
    → f s.key ≡ none
    → Gives (updated s.key s.value f) (suc size) cap (move_slot s m)
unfolding move_slot if_some
move_slot-Gives f size cap m s o h l p full free =
    let t = h.table in
    let a = absent f m s.key h.models p free in
    let (i, e, w, stops, b) = search m s.key t in
    let e' =
      free_slot-find_slot m.cap m.slots s.key m.cap (ptr_hash s.key m.cap)
        (ptr_hash-lt s.key m.cap (omega (arith, t.roomy))) a
      ∙ e in
    let z : (m.slots i).key ≡ 0 = elim stops [ inl y ↦ y | inr y ↦ ground (arith, y, a i b) ] in
    let n = occupied-new m.slots i s m.cap b z p in
    let q : (s.key == 0) ≡ false = ground (arith, p) in
    (
      record m { slots = set_slot i s m.slots; size = m.size + 1 },
      rw (q, e') refl,
      record {
        table =
            set-IsTable f m t h.models s o i (m.size + 1) p full w stops b
              (omega (arith, n, t.counted)) (omega (arith, l, h.sized, h.wide));
        models = set-Models f m t h.models s o i (m.size + 1) p full w stops b;
        sized = omega (arith, h.sized);
        wide = h.wide;
      },
    )

pub Gives-if_some :
    {f g : ℕ → Option Object} {size size' cap : ℕ} {r : Option PtrMap} (k : PtrMap → Option PtrMap)
    → Gives f size cap r
    → ((m : PtrMap) → Holds f size cap m → Gives g size' cap (k m))
    → Gives g size' cap (if_some r k)
unfolding if_some
Gives-if_some k (m, e, h) c = let (m', e', h') = c m h in (m', rw (e, if_some) e', h')

pub Gives-map :
    {f g : ℕ → Option Object} {size cap : ℕ} {r : Option PtrMap}
    → ((q : ℕ) → 0 < q → f q ≡ g q)
    → Gives f size cap r
    → Gives g size cap r
Gives-map same (m, e, h) = (
  m,
  e,
  record {
    table = h.table;
    models = record {
      valued = λ j l p.
          let (o, a, b) = h.models.valued j l p in (o, a, sym (same (m.slots j).key p) ∙ b);
      found = λ k o p e. h.models.found k o p (same k p ∙ e);
    };
    sized = h.sized;
    wide = h.wide;
  },
)

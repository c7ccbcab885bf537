-- ===== src/Gc/Collector/Runs.antt =====
-- The runs of the collector of src/stdlib/gc.c from __visuall_gc_init on, as long as it is not shut
-- down and marking follows no word that no object begins at, and the invariants of their states.
use visuall.Base.{
  ℕ, List, [], ◌∷◌, some, ◌+◌, ◌≡◌, inl, inr, arith, refl, sym, ap, subst, ◌∙◌, length,
}
use mathlib.Core.List.{Memᴰ}
use mathlib.Core.List.Memᴰ
use visuall.Gc.Allocator.{Memory, rounded, object_in, alloc, object_total, alloc_object}
use visuall.Gc.Object.{Object, Payload, header_size, class_object}
use visuall.Gc.Pool.{Block, SizeClass, class_size, fl_class_for}
use visuall.Gc.Pool.Counts.{ArePools, IsPool}
use visuall.Gc.Collector.{Gc, Roots, Ended, ended, collect, block_of}
use visuall.Gc.Collector.Sweep.{total_size}
use visuall.Gc.Collector.Ends.{holds, Ends}
use visuall.Gc.Collector.{gc_init, static_state, no_blocks}
use visuall.Gc.Pool.{pool_of, class_32, class_64, class_128, class_256}
use visuall.Gc.Collector.Sound.{IsSound, IsWithin, collect-Ends}
use visuall.Gc.Collector.Allocation.{alloc-Ends, alloc_object-Ends, new_block}

-- What the program writes to the payloads of the objects.
unfoldable pub write_payloads : (Object → Payload) → List Object → List Object
write_payloads f [] = []
write_payloads f (o ∷ os) = record o { payload = f o } ∷ write_payloads f os

-- The states that the program comes to behind its one call of __visuall_gc_init and before that of
-- __visuall_gc_shutdown, where no collection so far has followed a word that no object begins at, and
-- the program has written to nothing but the payloads of the objects. An operation that a collection
-- strays in has no state here, and what a write past the end of a block does has none either: both
-- depend on bytes that are not modelled. `Allowed` holds of the sizes of the objects that
-- `alloc_object` makes.
pub data Unstrayed (Allowed : ℕ → Type 0) : Gc → Type 0 where
  begins : Unstrayed Allowed (gc_init static_state)
  writes :
      {g : Gc} (f : Object → Payload)
      → Unstrayed Allowed g
      → Unstrayed Allowed (record g { objects = write_payloads f g.objects })
  collects :
      {g g' : Gc} (r : Roots) → Unstrayed Allowed g → collect r g ≡ ended g' → Unstrayed Allowed g'
  allocates :
      {g g' : Gc} {a : ℕ} (r : Roots) (mem : Memory) (size : ℕ) (p : Payload)
      → Unstrayed Allowed g
      → alloc r mem size p g ≡ ended (a, g')
      → Unstrayed Allowed g'
  allocates_object :
      {g g' : Gc} {a : ℕ} (r : Roots) (mem : Memory) (payload : ℕ) (offsets : List ℕ)
      → Unstrayed Allowed g
      → Allowed (header_size + object_total payload (length offsets))
      → alloc_object r mem payload offsets g ≡ ended (a, g')
      → Unstrayed Allowed g'

total_size-write_payloads :
    (f : Object → Payload) (os : List Object) → total_size (write_payloads f os) ≡ total_size os
unfolding total_size write_payloads
total_size-write_payloads f [] = refl
total_size-write_payloads f (o ∷ os) = ap (◌+◌ o.size) (total_size-write_payloads f os)

Mem-write_payloads :
    (f : Object → Payload) (os : List Object) (o : Object)
    → Memᴰ o (write_payloads f os)
    → (x : Object) × (o ≡ record x { payload = f x }) × Memᴰ x os
unfolding write_payloads
Mem-write_payloads f [] o i = elim i [ ]
Mem-write_payloads f (x ∷ os) o i = elim (Memᴰ.cases_cons i) [
  | inl k ↦ (x, k, Memᴰ.head refl)
  | inr j ↦ let (y, k, m) = Mem-write_payloads f os o j in (y, k, Memᴰ.tail m)
]

no_blocks-IsPool : (Fits : SizeClass → Block → Type 0) (c : SizeClass) → IsPool Fits c no_blocks
no_blocks-IsPool Fits c = record { counted = refl; few = omega arith; fits = λ b i. elim i [ ] }

start-ArePools : (Fits : SizeClass → Block → Type 0) → ArePools Fits static_state.pools
unfolding pool_of
start-ArePools Fits class_32 = no_blocks-IsPool Fits class_32
start-ArePools Fits class_64 = no_blocks-IsPool Fits class_64
start-ArePools Fits class_128 = no_blocks-IsPool Fits class_128
start-ArePools Fits class_256 = no_blocks-IsPool Fits class_256

module _ (Fits : SizeClass → Block → Type 0) (Good : Object → Type 0) (Allowed : ℕ → Type 0)
    (dead : (o : Object) (c : SizeClass)
      → Good o
      → fl_class_for o.size ≡ some c
      → Fits c (block_of o))
    (reuse : (c : SizeClass) (b : Block) (p : Payload)
      → Fits c b
      → Good (object_in (class_size c) p b))
    (fresh : (t a : ℕ) (p : Payload)
      → let total = rounded (fl_class_for t) t in Good (object_in total p (new_block total a)))
    (allowed : (t a : ℕ) (p : Payload) → Allowed t → Good (object_in t p (new_block t a)))
    (written : (o : Object) (p : Payload) → Good o → Good (record o { payload = p })) where
  init-IsSound : IsSound Fits Good (gc_init static_state)
  unfolding gc_init total_size
  init-IsSound = record {
    bytes = refl;
    live = refl;
    peak = omega arith;
    floor = omega arith;
    clear = refl;
    pools = start-ArePools Fits;
    within = λ o i. elim i [ ];
    good = λ o i. elim i [ ];
  }

  write-IsSound :
      (g : Gc) (f : Object → Payload)
      → IsSound Fits Good g
      → IsSound Fits Good (record g { objects = write_payloads f g.objects })
  write-IsSound g f v = record {
    bytes = v.bytes ∙ sym (total_size-write_payloads f g.objects);
    live = v.live;
    peak = v.peak;
    floor = v.floor;
    clear = v.clear;
    pools = v.pools;
    within = λ o i.
        let (x, e, j) = Mem-write_payloads f g.objects o i in
        let w = v.within x j in
        subst (IsWithin g.heap_lo g.heap_hi) (sym e) (record { low = w.low; high = w.high });
    good = λ o i.
        let (x, e, j) = Mem-write_payloads f g.objects o i in
        subst Good (sym e) (written x (f x) (v.good x j));
  }

  left : {P : ℕ × Gc → Type 0} {e : Ended (ℕ × Gc)} {t : ℕ × Gc} → Ends P e → e ≡ ended t → P t
  left h k = holds (subst (Ends _) k h)

  pub Unstrayed-IsSound : (g : Gc) → Unstrayed Allowed g → IsSound Fits Good g
  Unstrayed-IsSound g begins = init-IsSound
  Unstrayed-IsSound g (writes {g = h} f r) = write-IsSound h f (Unstrayed-IsSound h r)
  Unstrayed-IsSound g (collects {g = h} r s e) =
      holds (subst (Ends _) e (collect-Ends Fits Good dead r h (Unstrayed-IsSound h s)))
  Unstrayed-IsSound g (allocates {g = h} r mem size p s e) =
      left
        (alloc-Ends Fits Good dead reuse r mem size p (λ a. fresh (header_size + size) a p) h
          (Unstrayed-IsSound h s))
        e
  Unstrayed-IsSound g (allocates_object {g = h} r mem payload offsets s w e) =
      left
        (alloc_object-Ends Fits Good dead r mem payload offsets
          (λ a.
            allowed (header_size + object_total payload (length offsets)) a
              (class_object offsets (λ o. 0)) w)
          h (Unstrayed-IsSound h s))
        e

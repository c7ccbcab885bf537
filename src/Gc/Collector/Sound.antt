-- ===== src/Gc/Collector/Sound.antt =====
-- An invariant of the collector of src/stdlib/gc.c, for a predicate `Good` of the objects and a
-- predicate `Fits` of the blocks in the pools.
use visuall.Base.{
  ℕ, List, [], ◌∷◌, Option, some, ◌≤◌, ◌+◌, ◌-◌, ◌≡◌, inl, inr, arith, Bool-cases, refl, sym, ap,
  subst, ◌∙◌,
}
use mathlib.Core.List.{Memᴰ}
use mathlib.Core.List.Memᴰ
use visuall.Gc.Allocator.{maybe_collect}
use visuall.Gc.Object.{Object, header_size}
use visuall.Gc.Pool.{Block, Pools, SizeClass, fl_class_for, fl_push}
use visuall.Gc.Pool.Counts
use visuall.Gc.Pool.Counts.{
  ArePools, IsPool, Popped, Pushed, fl_pop-Popped, push_class-Pushed, popped, empty,
}
use visuall.Gc.Marking.{Marks, Marked, marks_are, stray}
use visuall.Gc.Marking
use visuall.Gc.Marking.Reach.{no_marks}
use visuall.Gc.Collector.{
  Gc, Roots, Swept, sweep_object, sweep_objects, sweep_from, sweep, adjusted, collected, collect,
  block_of, recycled, lowest, highest, min_threshold,
}
use visuall.Gc.Collector.Sweep.{
  kept, total_size, survivors-kept, heap_bytes-kept, kept-Mem, total_size-kept,
}
use visuall.Gc.Collector.Ends.{Ends, ends, strays, stops, Ends-if}

pub lowest_le : (os : List Object) (o : Object) → Memᴰ o os → lowest os ≤ o.user - header_size
unfolding lowest
lowest_le [] o i = elim i [ ]
lowest_le (x ∷ os) o i = elim (Memᴰ.cases_cons i) [
  | inl k ↦ let e = ap (λ (y : Object). y.user) k in ground (arith, e)
  | inr j ↦ let r = lowest_le os o j in ground (arith, r)
]

abbrev end_of : Object → ℕ
end_of o = o.user - header_size + o.size

pub highest_le : (os : List Object) (o : Object) → Memᴰ o os → end_of o ≤ highest os
unfolding highest
highest_le [] o i = elim i [ ]
highest_le (x ∷ os) o i = elim (Memᴰ.cases_cons i) [
  | inl k ↦ let e = ap end_of k in ground (arith, e)
  | inr j ↦ let r = highest_le os o j in ground (arith, r)
]

-- The bounds of the heap hold an object.
pub record IsWithin (lo hi : ℕ) (o : Object) : Type 0 where
  pub low : lo ≤ o.user - header_size
  pub high : end_of o ≤ hi

module _ (Fits : SizeClass → Block → Type 0) (Good : Object → Type 0) where
  pub record IsSound (g : Gc) : Type 0 where
    pub bytes : g.heap_bytes ≡ total_size g.objects
    pub live : g.current_live_bytes ≡ g.heap_bytes
    pub peak : g.heap_bytes ≤ g.peak_heap_bytes
    pub floor : min_threshold ≤ g.threshold
    pub clear : g.marked ≡ no_marks
    pub pools : ArePools Fits g.pools
    pub within : (o : Object) → Memᴰ o g.objects → IsWithin g.heap_lo g.heap_hi o
    pub good : (o : Object) → Memᴰ o g.objects → Good o

  module _
      (dead : (o : Object) (c : SizeClass)
        → Good o
        → fl_class_for o.size ≡ some c
        → Fits c (block_of o)) where
    recycled-ArePools :
        {o : Option Pools} (ps : Pools)
        → Pushed Fits o
        → ArePools Fits ps
        → ArePools Fits (recycled o ps)
    unfolding recycled
    recycled-ArePools ps (Counts.kept a) b = a
    recycled-ArePools ps Counts.full b = b

    sweep_objects-ArePools :
        (m : Marks) (os : List Object) (s : Swept)
        → ((o : Object) → Memᴰ o os → Good o)
        → ArePools Fits s.pools
        → ArePools Fits (sweep_objects m os s).pools
    unfolding sweep_objects sweep_object fl_push
    sweep_objects-ArePools m [] s h a = a
    sweep_objects-ArePools m (o ∷ os) s h a =
        let later = λ (x : Object) (i : Memᴰ x os). h x (Memᴰ.tail i) in
        elim (Bool-cases (m o.user)) [
          | inl e ↦ rw (e, sweep_objects) (sweep_objects-ArePools m os s later a)
          | inr e ↦
              rw (e, sweep_objects)
                (sweep_objects-ArePools m os (sweep_object o s) later (
                  recycled-ArePools s.pools
                    (push_class-Pushed Fits (fl_class_for o.size) (block_of o) s.pools
                      (λ c k. dead o c (h o (Memᴰ.head refl)) k) a)
                    a))
        ]

    behind-IsSound :
        (g : Gc) (m : Marks) → IsSound g → IsSound (adjusted (sweep (record g { marked = m })))
    unfolding adjusted sweep sweep_from
    behind-IsSound g m v =
        let s : Swept = record {
          survivors = [];
          pools = g.pools;
          heap_bytes = g.heap_bytes;
          collected = g.total_bytes_collected;
        } in
        let k = survivors-kept m g.objects s refl in
        let b = heap_bytes-kept m g.objects s 0 (omega (arith, v.bytes)) in
        let b' : (sweep_objects m g.objects s).heap_bytes ≡ total_size (kept m g.objects) =
          omega (arith, b) in
        let left = (sweep_objects m g.objects s).survivors in
        record {
          bytes = b' ∙ ap total_size (sym k);
          live = refl;
          peak = omega (arith, b', total_size-kept m g.objects, v.bytes, v.peak);
          floor = ground arith;
          clear = refl;
          pools = sweep_objects-ArePools m g.objects s v.good v.pools;
          within = λ o i. record { low = lowest_le left o i; high = highest_le left o i };
          good = λ o i. v.good o (kept-Mem m g.objects o (subst (Memᴰ o) k i)).0;
        }

    collected-Ends : (g : Gc) (x : Marked) → IsSound g → Ends IsSound (collected g x)
    unfolding collected
    collected-Ends g (marks_are m) v = ends (behind-IsSound g m v)
    collected-Ends g (stray p) v = strays
    collected-Ends g Marking.out_of_fuel v = stops

    pub collect-Ends : (r : Roots) (g : Gc) → IsSound g → Ends IsSound (collect r g)
    unfolding collect
    collect-Ends r g v = collected-Ends g _ v

    pub maybe_collect-Ends :
        (r : Roots) (size : ℕ) (g : Gc) → IsSound g → Ends IsSound (maybe_collect r size g)
    unfolding maybe_collect
    maybe_collect-Ends r size g v = Ends-if _ (λ e. collect-Ends r g v) (λ e. ends v)

-- ===== src/Gc/Collector/Allocation.antt =====
-- What __visuall_alloc and __visuall_alloc_object of src/stdlib/gc.c keep of the collector.
use visuall.Base.{
  ℕ, List, Option, none, some, ◌+◌, ◌-◌, ◌≡◌, inl, inr, arith, Option-cases, refl, sym, ap, subst,
  ◌∙◌, ltb, length, ◌||◌,
}
use mathlib.Core.Path.{fun_ext}
use mathlib.Core.List.Memᴰ
use visuall.Gc.Allocator.{
  link, Memory, fresh_block, take_block, rounded, object_in, linked, alloc_in, alloc, object_total,
  alloc_object, clear_mark,
}
use visuall.Gc.Object.{Object, Payload, header_size, class_object}
use visuall.Gc.Pool.{Block, Pools, SizeClass, class_size, fl_class_for}
use visuall.Gc.Pool.Counts.{Popped, fl_pop-Popped, popped, empty}
use visuall.Gc.Marking.Reach.{no_marks}
use visuall.Gc.Collector.{Gc, Roots, ended, exited, block_of, uint32_max, size_max}
use visuall.Gc.Collector.Sweep.{total_size}
use visuall.Gc.Collector.Ends.{Ends, ends, exits, after-Ends, Ends-if}
use visuall.Gc.Collector.Sound.{IsSound, IsWithin, collect-Ends, maybe_collect-Ends}

clear_mark-no_marks : (p : ℕ) → clear_mark p no_marks ≡ no_marks
unfolding clear_mark
clear_mark-no_marks p = fun_ext λ q. ground arith

abbrev pub new_block : ℕ → ℕ → Block
new_block total a = record { address = a; size = total; capacity = total }

module _ (Fits : SizeClass → Block → Type 0) (Good : Object → Type 0)
    (dead : (o : Object) (c : SizeClass)
      → Good o
      → fl_class_for o.size ≡ some c
      → Fits c (block_of o)) where
  abbrev Sound : Gc → Type 0
  Sound = IsSound Fits Good

  link-IsSound : (o : Object) (g : Gc) → Good o → Sound g → Sound (link o g)
  unfolding link total_size
  link-IsSound o g h v = record {
    bytes = omega (arith, v.bytes);
    live = refl;
    peak = ground arith;
    floor = v.floor;
    clear = ap (clear_mark o.user) v.clear ∙ clear_mark-no_marks o.user;
    pools = v.pools;
    within = λ x i. elim (Memᴰ.cases_cons i) [
      | inl k ↦ subst (IsWithin _ _) (sym k) (record { low = ground arith; high = ground arith })
      | inr j ↦
          let w = v.within x j in
          let l = w.low in
          let h' = w.high in record { low = ground (arith, l); high = ground (arith, h') }
    ];
    good = λ x i. elim (Memᴰ.cases_cons i) [ inl k ↦ subst Good (sym k) h | inr j ↦ v.good x j ];
  }

  -- A block that may become an object, beside a collector.
  abbrev Taken : ℕ → Payload → Block × Gc → Type 0
  Taken total p (b, g) = Good (object_in total p b) × Sound g

  abbrev pub Allocated : ℕ × Gc → Type 0
  Allocated (a, g) = Sound g

  linked-Ends :
      (total : ℕ) (p : Payload) (t : Block × Gc)
      → Taken total p t
      → Ends Allocated (linked total p t)
  unfolding linked
  linked-Ends total p (b, g) (h, v) =
      Ends-if (ltb uint32_max total) (λ e. exits)
        (λ e. ends (link-IsSound (object_in total p b) g h v))

  module _ (r : Roots) (mem : Memory) (total : ℕ) (p : Payload)
      (fresh : (a : ℕ) → Good (object_in total p (new_block total a))) where
    second-Ends :
        (g : Gc) (o : Option ℕ)
        → Sound g
        → Ends (Taken total p) (elim o [ some a ↦ ended (new_block total a, g) | none ↦ exited ])
    second-Ends g (some a) v = ends (fresh a, v)
    second-Ends g none v = exits

    fresh_block-Ends : (g : Gc) → Sound g → Ends (Taken total p) (fresh_block r mem total g)
    unfolding fresh_block
    fresh_block-Ends g v = elim (Option-cases mem.first_try) [
      | inr (a, e) ↦ rw (e, fresh_block) (ends (fresh a, v))
      | inl e ↦
          rw (e, fresh_block)
            (after-Ends _ (collect-Ends Fits Good dead r g v)
              (λ g' v'. second-Ends g' mem.second_try v'))
    ]

  -- A block of a pool becomes an object, and so does a new one.
  module _
      (reuse : (c : SizeClass) (b : Block) (p : Payload)
        → Fits c b
        → Good (object_in (class_size c) p b)) where
    module _ (r : Roots) (mem : Memory) (size : ℕ) (p : Payload)
        (fresh : (a : ℕ)
          → let total = rounded (fl_class_for (header_size + size)) (header_size + size) in
            Good (object_in total p (new_block total a))) where
      take_block-Ends :
          (c : Option SizeClass) (t : ℕ)
          → ((a : ℕ) → Good (object_in (rounded c t) p (new_block (rounded c t) a)))
          → {o : Option (Block × Pools)} → Popped Fits c o
          → (g : Gc) → Sound g
          → Ends (Taken (rounded c t) p) (take_block r mem (rounded c t) o g)
      unfolding take_block rounded
      take_block-Ends (some c) t f (popped {b = b} h a) g v = ends (
        reuse c b p h,
        record {
          bytes = v.bytes;
          live = v.live;
          peak = v.peak;
          floor = v.floor;
          clear = v.clear;
          pools = a;
          within = v.within;
          good = v.good;
        },
      )
      take_block-Ends c t f empty g v = fresh_block-Ends r mem (rounded c t) p f g v

      alloc_in-Ends : (g : Gc) → Sound g → Ends Allocated (alloc_in r mem size p g)
      unfolding alloc_in
      alloc_in-Ends g v =
          let c = fl_class_for (header_size + size) in
          after-Ends (linked (rounded c (header_size + size)) p)
            (take_block-Ends c (header_size + size) fresh (fl_pop-Popped Fits c g.pools v.pools) g
              v)
            (λ t w. linked-Ends (rounded c (header_size + size)) p t w)

      pub alloc-Ends : (g : Gc) → Sound g → Ends Allocated (alloc r mem size p g)
      unfolding alloc
      alloc-Ends g v = after-Ends _ (maybe_collect-Ends Fits Good dead r size g v) (λ g' v'.
          Ends-if (ltb (size_max - header_size) size) (λ e. exits) (λ e. alloc_in-Ends g' v'))

  module _ (r : Roots) (mem : Memory) (payload : ℕ) (offsets : List ℕ)
      (fresh : (a : ℕ)
        → let total = header_size + object_total payload (length offsets) in
          Good (object_in total (class_object offsets (λ o. 0)) (new_block total a))) where
    pub alloc_object-Ends :
        (g : Gc) → Sound g → Ends Allocated (alloc_object r mem payload offsets g)
    unfolding alloc_object
    alloc_object-Ends g v =
        let n = object_total payload (length offsets) in
        after-Ends _ (maybe_collect-Ends Fits Good dead r n g v) (λ g' v'.
          Ends-if (ltb (size_max - header_size) n || ltb uint32_max (header_size + n)) (λ e. exits)
            (λ e.
              after-Ends _
                (fresh_block-Ends r mem (header_size + n) (class_object offsets (λ o. 0)) fresh g'
                  v')
                (λ t w. linked-Ends (header_size + n) (class_object offsets (λ o. 0)) t w)))

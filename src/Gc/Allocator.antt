-- ===== src/Gc/Allocator.antt =====
-- Allocation in src/stdlib/gc.c.
use visuall.Base.{
  ◌==◌, ◌||◌, ℕ, ◌+◌, ◌-◌, ◌*◌, ◌%◌, false, List, ◌∷◌, Option, none, some, ltb, if◌then◌else◌,
  length,
}
use visuall.Gc.Object.{Object, Payload, header_size, class_object}
use visuall.Gc.Pool.{Block, Pools, SizeClass, class_size, fl_class_for, fl_pop}
use visuall.Gc.Marking.{Marks}
use visuall.Gc.Collector.{
  Gc, Roots, Ended, ended, exited, after, collect, min, max, size_max, uint32_max,
}

-- `if (heap_bytes + sizeof(GCHeader) + size > gc_threshold) __visuall_collect();`.
unfoldable pub maybe_collect : Roots → ℕ → Gc → Ended Gc
maybe_collect r size g =
    if ltb g.threshold ((g.heap_bytes + header_size + size) % 0x10000000000000000)
    then collect r g
    else ended g

-- `hdr->marked = 0`.
unfoldable pub clear_mark : ℕ → Marks → Marks
clear_mark p m q = if p == q then false else m q

-- The new object at the head of the list.
unfoldable pub link : Object → Gc → Gc
link o g = record g {
  objects = o ∷ g.objects;
  marked = clear_mark o.user g.marked;
  heap_bytes = g.heap_bytes + o.size;
  peak_heap_bytes = max (g.heap_bytes + o.size) g.peak_heap_bytes;
  current_live_bytes = g.heap_bytes + o.size;
  heap_lo = min g.heap_lo (o.user - header_size);
  heap_hi = max (o.user - header_size + o.size) g.heap_hi;
}

-- What malloc returns: at the first call, and behind a collection. An address of a header.
pub record Memory : Type 0 where
  pub first_try : Option ℕ
  pub second_try : Option ℕ

-- `malloc`, and once more behind a collection.
unfoldable pub fresh_block : Roots → Memory → ℕ → Gc → Ended (Block × Gc)
fresh_block r mem total g = elim mem.first_try [
  | some a ↦ ended (record { address = a; size = total; capacity = total }, g)
  | none ↦ after (collect r g) (λ g'. elim mem.second_try [
    | some a ↦ ended (record { address = a; size = total; capacity = total }, g')
    | none ↦ exited
  ])
]

-- A block of the pool, or a new one.
unfoldable pub take_block : Roots → Memory → ℕ → Option (Block × Pools) → Gc → Ended (Block × Gc)
take_block r mem total (some (b, ps)) g = ended (b, record g { pools = ps })
take_block r mem total none g = fresh_block r mem total g

unfoldable pub rounded : Option SizeClass → ℕ → ℕ
rounded none total = total
rounded (some c) total = class_size c

abbrev pub object_in : ℕ → Payload → Block → Object
object_in total p b = record {
  user = b.address + header_size;
  size = total;
  capacity = b.capacity;
  payload = p;
}

-- The new object, with a mark that is cleared, unless its size does not fit the header.
unfoldable pub linked : ℕ → Payload → Block × Gc → Ended (ℕ × Gc)
linked total p (b, g) =
    if ltb uint32_max total
    then exited
    else ended (b.address + header_size, link (object_in total p b) g)

unfoldable pub alloc_in : Roots → Memory → ℕ → Payload → Gc → Ended (ℕ × Gc)
alloc_in r mem size p g =
    let c = fl_class_for (header_size + size) in
    let total = rounded c (header_size + size) in
    after (take_block r mem total (fl_pop c g.pools) g) (linked total p)

-- `__visuall_alloc`, with the payload that zeroed memory is for the type tag.
unfoldable pub alloc : Roots → Memory → ℕ → Payload → Gc → Ended (ℕ × Gc)
alloc r mem size p g =
    after (maybe_collect r size g)
      (λ g'. if ltb (size_max - header_size) size then exited else alloc_in r mem size p g')

unfoldable pub object_total : ℕ → ℕ → ℕ
object_total payload field_count = (payload + field_count * 4) % 0x10000000000000000

-- `__visuall_alloc_object`: with the offsets of the traced fields, and never from a pool.
unfoldable pub alloc_object : Roots → Memory → ℕ → List ℕ → Gc → Ended (ℕ × Gc)
alloc_object r mem payload offsets g =
    let total = header_size + object_total payload (length offsets) in
    after (maybe_collect r (object_total payload (length offsets)) g) (λ g'.
      if ltb (size_max - header_size) (object_total payload (length offsets))
        || ltb uint32_max total
      then exited
      else after (fresh_block r mem total g') (linked total (class_object offsets (λ o. 0))))

-- ===== src/Gc/Collector.antt =====
-- The state of the collector of src/stdlib/gc.c, the sweep and a collection. The
-- statistics on time, the lock and the finalizers, which free arrays outside the heap, are left out.
pub mod Sweep
pub mod Ends
pub mod Sound
pub mod Allocation
pub mod Runs
pub mod Room
pub mod Reuse
use visuall.Base.{
  ◌==◌, ◌||◌, ℕ, suc, ◌+◌, ◌-◌, ◌*◌, ◌%◌, true, false, List, [], ◌∷◌, Option, none, some, ltb,
  if◌then◌else◌, length,
}
use visuall.Gc.Object.{Object, Payload, header_size, class_object}
use visuall.Gc.Pool.{Block, Pool, Pools, SizeClass, class_size, fl_class_for, fl_pop, fl_push}
use visuall.Gc.Marking.{Marks, Marked, marks_are, stray, mark_roots}
use visuall.Gc.Marking

-- `objects` is the list that `heap_head` begins. `heap_lo` and `heap_hi` bound it.
pub record Gc : Type 0 where
  pub objects : List Object
  pub marked : Marks
  pub pools : Pools
  pub heap_bytes : ℕ
  pub threshold : ℕ
  pub heap_lo : ℕ
  pub heap_hi : ℕ
  pub total_collections : ℕ
  pub total_bytes_collected : ℕ
  pub current_live_bytes : ℕ
  pub peak_heap_bytes : ℕ

abbrev pub size_max : ℕ
size_max = 0xFFFFFFFFFFFFFFFF

abbrev pub uint32_max : ℕ
uint32_max = 0xFFFFFFFF

abbrev pub min_threshold : ℕ
min_threshold = 1048576

-- `__visuall_gc_init`, but for the roots. The pools stay as they are.
unfoldable pub gc_init : Gc → Gc
gc_init g = record g {
  objects = [];
  heap_bytes = 0;
  threshold = min_threshold;
  heap_lo = size_max;
  heap_hi = 0;
  total_collections = 0;
  total_bytes_collected = 0;
  current_live_bytes = 0;
  peak_heap_bytes = 0;
}

abbrev pub no_blocks : Pool
no_blocks = record { blocks = []; count = 0 }

-- The variables at the start of the program.
abbrev pub static_state : Gc
static_state = record {
  objects = [];
  marked = λ q. false;
  pools = record {
    pool_32 = no_blocks;
    pool_64 = no_blocks;
    pool_128 = no_blocks;
    pool_256 = no_blocks;
  };
  heap_bytes = 0;
  threshold = min_threshold;
  heap_lo = size_max;
  heap_hi = 0;
  total_collections = 0;
  total_bytes_collected = 0;
  current_live_bytes = 0;
  peak_heap_bytes = 0;
}

-- The words that hold the roots when a collection begins.
pub record Roots : Type 0 where
  pub globals : List ℕ
  pub stack : List ℕ
  pub ready : List ℕ

-- How an operation ends: the program goes on, or exits with a message, or marking has followed an
-- address that no object begins at. What marking and the rest of the program do from there depends on
-- the bytes in front of that address, which are not modelled: the model stops. `unfinished` has no
-- counterpart in the program.
pub data Ended {ℓ} (A : Type ℓ) : Type ℓ where
  ended : A → Ended A
  exited : Ended A
  strayed : ℕ → Ended A
  unfinished : Ended A

unfoldable pub after {ℓ κ} : {A : Type ℓ} {B : Type κ} → Ended A → (A → Ended B) → Ended B
after (ended a) k = k a
after exited k = exited
after (strayed p) k = strayed p
after unfinished k = unfinished

abbrev pub block_of : Object → Block
block_of o = record { address = o.user - header_size; size = o.size; capacity = o.capacity }

-- The pools behind `if (!fl_push(hdr)) free(hdr);`.
unfoldable pub recycled : Option Pools → Pools → Pools
recycled none ps = ps
recycled (some ps') ps = ps'

-- What the loop of `sweep` keeps and counts.
pub record Swept : Type 0 where
  pub survivors : List Object
  pub pools : Pools
  pub heap_bytes : ℕ
  pub collected : ℕ

unfoldable pub sweep_object : Object → Swept → Swept
sweep_object o s = record {
  survivors = s.survivors;
  pools = recycled (fl_push (block_of o) s.pools) s.pools;
  heap_bytes = s.heap_bytes - o.size;
  collected = s.collected + o.size;
}

-- The survivors so far are in the order of the list, newest last.
unfoldable pub sweep_objects : Marks → List Object → Swept → Swept
sweep_objects m [] s = s
sweep_objects m (o ∷ os) s = elim (m o.user) [
  | true ↦ let r = sweep_objects m os s in record r { survivors = o ∷ r.survivors }
  | false ↦ sweep_objects m os (sweep_object o s)
]

abbrev pub min : ℕ → ℕ → ℕ
min a b = if ltb b a then b else a

abbrev pub max : ℕ → ℕ → ℕ
max a b = if ltb b a then a else b

-- The bounds of the heap that is left.
unfoldable pub lowest : List Object → ℕ
lowest [] = size_max
lowest (o ∷ os) = min (o.user - header_size) (lowest os)

unfoldable pub highest : List Object → ℕ
highest [] = 0
highest (o ∷ os) = max (o.user - header_size + o.size) (highest os)

unfoldable pub sweep_from : Gc → Swept → Gc
sweep_from g s = record g {
  objects = s.survivors;
  marked = λ q. false;
  pools = s.pools;
  heap_bytes = s.heap_bytes;
  total_bytes_collected = s.collected;
  current_live_bytes = s.heap_bytes;
  heap_lo = lowest s.survivors;
  heap_hi = highest s.survivors;
}

unfoldable pub sweep : Gc → Gc
sweep g = sweep_from g (
    sweep_objects g.marked g.objects (record {
      survivors = [];
      pools = g.pools;
      heap_bytes = g.heap_bytes;
      collected = g.total_bytes_collected;
    }))

unfoldable pub adjusted : Gc → Gc
adjusted g = record g {
  threshold = max (g.heap_bytes * 2) min_threshold;
  total_collections = g.total_collections + 1;
}

-- Behind `mark_roots()`, as far as marking is modelled.
unfoldable pub collected : Gc → Marked → Ended Gc
collected g (marks_are m) = ended (adjusted (sweep (record g { marked = m })))
collected g (stray p) = strayed p
collected g Marking.out_of_fuel = unfinished

unfoldable pub collect : Roots → Gc → Ended Gc
collect r g = collected g (
    mark_roots g.objects g.heap_lo g.heap_hi (suc (length g.objects)) r.globals r.stack r.ready
      g.marked)

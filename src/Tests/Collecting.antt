-- ===== src/Tests/Collecting.antt =====
-- Runs of the collector of src/stdlib/gc.c on small heaps, and the theorems at concrete inputs.
use visuall.Base.{ℕ, List, [], ◌∷◌, ◌≡◌, ◌==◌, ◌⊎◌, ◌<◌, ◌≤◌, refl, some, none, arith}
use mathlib.Core.List.{Memᴰ}
use visuall.Gc.Allocator.{
  maybe_collect, object_total, fresh_block, linked, rounded, link, Memory, alloc_in, alloc_object,
}
use visuall.Gc.Object.{
  find_gc_header, inside, containing, children, Object, Payload, starting_at, class_object,
  list_object, boxed_object, string_object,
}
use visuall.Gc.PtrMap.{PtrMap, ptr_map_lookup}
use visuall.Gc.PtrMap.Refines.{
  TableStep, inserted, swept, table_after, objects_after, AreFresh, ptr_map_lookup-starting_at,
}
use visuall.Gc.Pool.{
  push_class, push_block, put_in, set_pool, Block, SizeClass, class_size, fl_class_for, pool_of,
  class_64, fl_push,
}
use visuall.Gc.Marking.{behind_marking, mark_each, mark_internal, mark_object, set_mark, mark_roots}
use visuall.Gc.Marking.Reach.{no_marks, Outcome, mark_roots-Reach}
use visuall.Gc.Collector.{
  collected, adjusted, sweep, sweep_from, sweep_objects, sweep_object, after, Gc, Roots, Ended,
  ended, strayed, collect, block_of, gc_init, static_state,
}
use visuall.Gc.Collector.Sweep.{total_size, collect-keeps, Live, IsCollected}
use visuall.Gc.Collector.Sound.{IsSound}
use visuall.Gc.Collector.Room.{
  Unstrayed-IsCounted, Unstrayed-HasRoom, AnyBlock, AnyObject, AnySize, Roomy, FillsClass,
}
use visuall.Gc.Collector.Runs.{Unstrayed, begins, allocates_object}
use visuall.Gc.Collector.Reuse.{alloc_in-overruns}

abbrev object_at : ℕ → ℕ → Payload → Object
object_at user size p = record { user = user; size = size; capacity = size; payload = p }

-- A list that holds itself and a box, and an object that nothing leads to.
abbrev heap : List Object
heap =
    object_at 3024 64 string_object
    ∷ object_at 2024 32 boxed_object
    ∷ object_at 1024 64 (list_object (2024 ∷ 1024 ∷ 7 ∷ []))
    ∷ []

abbrev heap_state : Gc
heap_state = record (gc_init static_state) {
  objects = heap;
  heap_bytes = 160;
  current_live_bytes = 160;
  peak_heap_bytes = 160;
  heap_lo = 1000;
  heap_hi = 3064;
}

abbrev roots_of : List ℕ → Roots
roots_of stack = record { globals = []; stack = stack; ready = [] }

abbrev objects_of : Ended Gc → List Object
objects_of (ended g) = g.objects
objects_of e = []

-- The list, its children and what no root leads to.
collect-cycle :
    objects_of (collect (roots_of (5 ∷ 1024 ∷ [])) heap_state)
    ≡ object_at 2024 32 boxed_object ∷ object_at 1024 64 (list_object (2024 ∷ 1024 ∷ 7 ∷ [])) ∷ []
unfolding collect gc_init collected mark_roots behind_marking mark_each find_gc_header starting_at
    inside mark_internal mark_object children set_mark adjusted sweep sweep_from sweep_objects
    sweep_object
collect-cycle = refl

-- An address inside an object is found, and taken for the beginning of one.
collect-inside : collect (roots_of (1032 ∷ [])) heap_state ≡ strayed 1032
unfolding collect gc_init collected mark_roots behind_marking mark_each find_gc_header starting_at
    inside mark_internal mark_object containing
collect-inside = refl

mark_roots-Reach_example :
    Outcome heap 1000 3064 []
      (5 ∷ 1024 ∷ [])
      []
      (mark_roots heap 1000 3064 4 [] (5 ∷ 1024 ∷ []) [] no_marks)
mark_roots-Reach_example = mark_roots-Reach heap 1000 3064 [] (5 ∷ 1024 ∷ []) []

collect-keeps_example :
    ((g' : Gc) × (collect (roots_of (1024 ∷ [])) heap_state ≡ ended g')
      × IsCollected heap_state (roots_of (1024 ∷ [])) g')
    ⊎ ((w : ℕ) × (collect (roots_of (1024 ∷ [])) heap_state ≡ strayed w)
        × Live heap_state (roots_of (1024 ∷ [])) w
        × (starting_at heap w ≡ none))
unfolding gc_init total_size
collect-keeps_example = collect-keeps heap_state (roots_of (1024 ∷ [])) refl refl

abbrev memory : ℕ → Memory
memory a = record { first_try = some a; second_try = none }

abbrev instance_of : ℕ → Object
instance_of size = object_at 1024 size (class_object [] (λ o. 0))

-- The collector behind the allocation of a class instance of some bytes.
abbrev first_state : ℕ → Gc
first_state size = link (instance_of size) (gc_init static_state)

first-Unstrayed : Unstrayed AnySize (first_state 40)
unfolding alloc_object after maybe_collect gc_init object_total fresh_block linked
first-Unstrayed = allocates_object (roots_of []) (memory 1000) 16 [] begins tt refl

Unstrayed-IsCounted_example : IsSound AnyBlock AnyObject (first_state 40)
Unstrayed-IsCounted_example = Unstrayed-IsCounted (first_state 40) first-Unstrayed

full-Unstrayed : Unstrayed FillsClass (first_state 64)
unfolding alloc_object after maybe_collect gc_init object_total fresh_block linked rounded
    fl_class_for class_size
full-Unstrayed = allocates_object (roots_of []) (memory 1000) 40 [] begins refl refl

Unstrayed-HasRoom_example :
    ((o : Object) → Memᴰ o (first_state 64).objects → o.size ≤ o.capacity)
    × ((c : SizeClass) (b : Block) → Memᴰ b (pool_of c (first_state 64).pools).blocks → Roomy c b)
Unstrayed-HasRoom_example = Unstrayed-HasRoom (first_state 64) full-Unstrayed

-- The collector once the instance of 40 bytes is dead and its block in a pool.
abbrev reusing : Gc
reusing = record static_state {
  pools = record static_state.pools {
    pool_64 = record { blocks = block_of (instance_of 40) ∷ []; count = 1 };
  };
}

alloc_in-overruns_example :
    (x : Object) × (alloc_in (roots_of []) (memory 2000) 40 string_object reusing
      ≡ ended (x.user, link x (record reusing { pools = static_state.pools })))
    × (x.capacity < 64)
unfolding fl_class_for fl_push push_class push_block put_in set_pool pool_of
alloc_in-overruns_example =
    alloc_in-overruns (roots_of []) (memory 2000) 40 string_object reusing (instance_of 40) class_64
      static_state.pools refl refl refl (omega arith)

-- Two objects, of which a sweep keeps the first.
abbrev table_steps : List TableStep
table_steps =
    swept (λ q. q == 1024)
    ∷ inserted (object_at 2024 32 boxed_object)
    ∷ inserted (object_at 1024 64 string_object)
    ∷ []

ptr_map_lookup-starting_at_example :
    (m : PtrMap) × (table_after table_steps ≡ some m)
    × ((p : ℕ) → ptr_map_lookup m p ≡ some (starting_at (objects_after table_steps) p))
unfolding AreFresh starting_at objects_after
ptr_map_lookup-starting_at_example =
    ptr_map_lookup-starting_at table_steps (omega arith, refl, (omega arith, refl, tt))

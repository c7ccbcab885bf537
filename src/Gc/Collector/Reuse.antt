-- ===== src/Gc/Collector/Reuse.antt =====
-- The block of a dead object, from a pool of src/stdlib/gc.c to the next object.
use visuall.Base.{ℕ, ◌∷◌, some, ◌<◌, ◌+◌, ◌≡◌, inl, inr, arith, Bool-cases, refl, ap, ◌∙◌, leb}
use visuall.Gc.Allocator.{link, Memory, take_block, rounded, object_in, linked, alloc_in}
use visuall.Gc.Object.{Object, Payload, header_size}
use visuall.Gc.Pool.{Block, Pools, SizeClass, class_size, fl_class_for, fl_pop, fl_push, push_class}
use visuall.Gc.Collector.{Gc, Roots, ended, after, block_of}
use visuall.Gc.Pool.{
  Pool, pool_of, set_pool, push_block, put_in, pop_block, put_back, max_per_class, class_32,
  class_64, class_128, class_256,
}

pool_of-set_pool : (c : SizeClass) (p : Pool) (ps : Pools) → pool_of c (set_pool c p ps) ≡ p
unfolding pool_of set_pool
pool_of-set_pool class_32 p ps = refl
pool_of-set_pool class_64 p ps = refl
pool_of-set_pool class_128 p ps = refl
pool_of-set_pool class_256 p ps = refl

set_pool-set_pool :
    (c : SizeClass) (p : Pool) (ps : Pools) → set_pool c (pool_of c ps) (set_pool c p ps) ≡ ps
unfolding pool_of set_pool
set_pool-set_pool class_32 p ps = refl
set_pool-set_pool class_64 p ps = refl
set_pool-set_pool class_128 p ps = refl
set_pool-set_pool class_256 p ps = refl

abbrev pushed : Block → Pool → Pool
pushed b p = record { blocks = b ∷ p.blocks; count = p.count + 1 }

put_in-some :
    (c : SizeClass) (b : Block) (ps ps' : Pools)
    → put_in c ps (push_block b (pool_of c ps)) ≡ some ps'
    → ps' ≡ set_pool c (pushed b (pool_of c ps)) ps
unfolding put_in push_block
put_in-some c b ps ps' h = elim (Bool-cases (leb max_per_class (pool_of c ps).count)) [
  | inl e ↦ let h' = rw (e, put_in) at h in cc
  | inr e ↦ let h' = rw (e, put_in) at h in cc
]

pop_pushed :
    (c : SizeClass) (b : Block) (p : Pool) (ps : Pools)
    → put_back c ps (pop_block (pushed b p)) ≡ some (b, set_pool c p ps)
unfolding put_back pop_block
pop_pushed c b p ps =
    ap (λ n. some (b, set_pool c (record { blocks = p.blocks; count = n }) ps)) (omega arith)

-- What was pushed last is popped first, and leaves the pools as they were.
pub fl_pop-fl_push :
    (c : SizeClass) (b : Block) (ps ps' : Pools)
    → fl_class_for b.size ≡ some c
    → fl_push b ps ≡ some ps'
    → fl_pop (some c) ps' ≡ some (b, ps)
unfolding fl_push push_class fl_pop
fl_pop-fl_push c b ps ps' e h =
    let h' = rw (e, push_class) at h in
    let k = put_in-some c b ps ps' h' in
    rw (k, pool_of-set_pool c (pushed b (pool_of c ps)) ps)
      (pop_pushed c b (pool_of c ps) _ ∙ ap (λ x. some (b, x)) (set_pool-set_pool c _ ps))

linked_small :
    (c : SizeClass) (p : Payload) (b : Block) (g : Gc)
    → linked (class_size c) p (b, g)
      ≡ ended (b.address + header_size, link (object_in (class_size c) p b) g)
unfolding linked class_size
linked_small class_32 p b g = refl
linked_small class_64 p b g = refl
linked_small class_128 p b g = refl
linked_small class_256 p b g = refl

-- Where the block of an object was pushed last, and its class is that of an allocation, the allocation
-- gives the block again, whatever the bytes that it has: where these are fewer than the header and the
-- bytes asked for, the new object overruns its block.
pub alloc_in-overruns :
    (r : Roots) (mem : Memory) (size : ℕ) (p : Payload) (g : Gc) (o : Object) (c : SizeClass)
    (ps : Pools)
    → fl_class_for o.size ≡ some c
    → fl_class_for (header_size + size) ≡ some c
    → fl_push (block_of o) ps ≡ some g.pools
    → o.capacity < header_size + size
    → (x : Object) × (alloc_in r mem size p g ≡ ended (x.user, link x (record g { pools = ps })))
      × (x.capacity < header_size + size)
unfolding alloc_in take_block rounded after
alloc_in-overruns r mem size p g o c ps e f h l =
    let k = fl_pop-fl_push c (block_of o) ps g.pools e h in
    (object_in (class_size c) p (block_of o), rw (f, k) (linked_small c p (block_of o) _), l)

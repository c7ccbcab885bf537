-- ===== src/Gc/Pool.antt =====
-- The pools of free blocks in src/stdlib/gc.c: one for each of four size classes.
pub mod Counts
use visuall.Base.{ℕ, ◌+◌, ◌-◌, List, [], ◌∷◌, Option, none, some, leb, if◌then◌else◌}

-- A block in a pool: the address of its header, the size that the header had when the block was
-- pushed, and the bytes that malloc was asked for.
pub record Block : Type 0 where
  pub address : ℕ
  pub size : ℕ
  pub capacity : ℕ

-- A pool, and its element of `fl_counts`.
pub record Pool : Type 0 where
  pub blocks : List Block
  pub count : ℕ

pub record Pools : Type 0 where
  pub pool_32 : Pool
  pub pool_64 : Pool
  pub pool_128 : Pool
  pub pool_256 : Pool

pub data SizeClass : Type 0 where
  class_32 class_64 class_128 class_256 : SizeClass

unfoldable pub class_size : SizeClass → ℕ
class_size class_32 = 32
class_size class_64 = 64
class_size class_128 = 128
class_size class_256 = 256

abbrev pub max_per_class : ℕ
max_per_class = 32768

-- The smallest class that fits.
unfoldable pub fl_class_for : ℕ → Option SizeClass
fl_class_for total =
    if leb total 32
    then some class_32
    else if leb total 64
    then some class_64
    else if leb total 128
    then some class_128
    else if leb total 256
    then some class_256
    else none

unfoldable pub pool_of : SizeClass → Pools → Pool
pool_of class_32 ps = ps.pool_32
pool_of class_64 ps = ps.pool_64
pool_of class_128 ps = ps.pool_128
pool_of class_256 ps = ps.pool_256

unfoldable pub set_pool : SizeClass → Pool → Pools → Pools
set_pool class_32 p ps = record ps { pool_32 = p }
set_pool class_64 p ps = record ps { pool_64 = p }
set_pool class_128 p ps = record ps { pool_128 = p }
set_pool class_256 p ps = record ps { pool_256 = p }

unfoldable pub pop_block : Pool → Option (Block × Pool)
pop_block p = elim p.blocks [
  | [] ↦ none
  | b ∷ bs ↦ some (b, record { blocks = bs; count = p.count - 1 })
]

unfoldable pub put_back : SizeClass → Pools → Option (Block × Pool) → Option (Block × Pools)
put_back c ps none = none
put_back c ps (some (b, p)) = some (b, set_pool c p ps)

unfoldable pub fl_pop : Option SizeClass → Pools → Option (Block × Pools)
fl_pop none ps = none
fl_pop (some c) ps = put_back c ps (pop_block (pool_of c ps))

unfoldable pub push_block : Block → Pool → Option Pool
push_block b p =
    if leb max_per_class p.count
    then none
    else some (record { blocks = b ∷ p.blocks; count = p.count + 1 })

unfoldable pub put_in : SizeClass → Pools → Option Pool → Option Pools
put_in c ps none = none
put_in c ps (some p) = some (set_pool c p ps)

unfoldable pub push_class : Option SizeClass → Block → Pools → Option Pools
push_class none b ps = none
push_class (some c) b ps = put_in c ps (push_block b (pool_of c ps))

-- `none` where the block is not kept, but given back to the system.
unfoldable pub fl_push : Block → Pools → Option Pools
fl_push b ps = push_class (fl_class_for b.size) b ps

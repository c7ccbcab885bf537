-- ===== src/Gc/Collector/Room.antt =====
-- The invariant of the collector of src/stdlib/gc.c, for the runs in which no collection strays, and
-- the room of the blocks, for those of them whose class instances fill their size class.
use visuall.Base.{ℕ, none, some, ◌≤◌, ◌≡◌, inl, inr, arith, Option-cases, refl, sym, ap, subst}
use mathlib.Core.List.{Memᴰ}
use visuall.Gc.Allocator.{rounded}
use visuall.Gc.Object.{Object}
use visuall.Gc.Pool.{Block, SizeClass, class_size, fl_class_for}
use visuall.Gc.Collector.{Gc}
use visuall.Gc.Pool.{pool_of, class_32, class_64, class_128, class_256}
use visuall.Gc.Collector.Sound.{IsSound}
use visuall.Gc.Collector.Runs.{Unstrayed, Unstrayed-IsSound}

abbrev pub AnyBlock : SizeClass → Block → Type 0
AnyBlock c b = Unit {0}

abbrev pub AnyObject : Object → Type 0
AnyObject o = Unit {0}

abbrev pub AnySize : ℕ → Type 0
AnySize n = Unit {0}

-- In each state of a run with one call of __visuall_gc_init, before it shuts the collector down and as
-- long as no collection has followed a word that no object begins at and nothing was written outside
-- of the payloads of objects, `heap_bytes` and `current_live_bytes` are the sum of
-- the sizes of the objects, no more than the peak; the threshold is a MiB at least; no mark is set; the
-- bounds of the heap hold each object; and each pool counts its blocks, no more than its limit.
pub Unstrayed-IsCounted : (g : Gc) → Unstrayed AnySize g → IsSound AnyBlock AnyObject g
Unstrayed-IsCounted =
    Unstrayed-IsSound AnyBlock AnyObject AnySize (λ o c h e. tt) (λ c b p h. tt) (λ t a p. tt)
      (λ t a p h. tt) (λ o p h. tt)

-- A block with room for the class of its pool.
abbrev pub Roomy : SizeClass → Block → Type 0
Roomy c b = class_size c ≤ b.capacity

-- An object with room for the class of its size.
abbrev HasRoom : Object → Type 0
HasRoom o = rounded (fl_class_for o.size) o.size ≤ o.capacity

-- A size that fills its class, or has none.
abbrev pub FillsClass : ℕ → Type 0
FillsClass n = rounded (fl_class_for n) n ≡ n

class_size-FillsClass : (c : SizeClass) → FillsClass (class_size c)
unfolding rounded fl_class_for class_size
class_size-FillsClass class_32 = refl
class_size-FillsClass class_64 = refl
class_size-FillsClass class_128 = refl
class_size-FillsClass class_256 = refl

rounded-some :
    (t : ℕ) (c : SizeClass) → fl_class_for t ≡ some c → rounded (fl_class_for t) t ≡ class_size c
unfolding rounded
rounded-some t c e = ap (λ o. rounded o t) e

rounded-none : (t : ℕ) → fl_class_for t ≡ none → FillsClass t
unfolding rounded
rounded-none t e = ap (λ o. rounded o t) e

rounded-FillsClass : (t : ℕ) → FillsClass (rounded (fl_class_for t) t)
rounded-FillsClass t = elim (Option-cases (fl_class_for t)) [
  | inl e ↦ subst FillsClass (sym (rounded-none t e)) (rounded-none t e)
  | inr (c, e) ↦ subst FillsClass (sym (rounded-some t c e)) (class_size-FillsClass c)
]

le_rounded : (t : ℕ) → t ≤ rounded (fl_class_for t) t
unfolding rounded fl_class_for class_size
le_rounded t = ground arith

-- Where the class instances fill their size class or are too large for one, in each state of a run
-- with one call of __visuall_gc_init, before it shuts the collector down and as long as no collection
-- has followed a word that no object begins at and nothing was written outside of the payloads of
-- objects, each object has the bytes of its size, and each block of a pool those of
-- its class.
pub Unstrayed-HasRoom :
    (g : Gc)
    → Unstrayed FillsClass g
    → ((o : Object) → Memᴰ o g.objects → o.size ≤ o.capacity)
      × ((c : SizeClass) (b : Block) → Memᴰ b (pool_of c g.pools).blocks → Roomy c b)
Unstrayed-HasRoom g r =
    let v =
      Unstrayed-IsSound Roomy HasRoom FillsClass
        (λ o c h e. let k = rounded-some o.size c e in omega (arith, h, k))
        (λ c b p h. let k = class_size-FillsClass c in omega (arith, h, k))
        (λ t a p. let k = rounded-FillsClass t in omega (arith, k)) (λ t a p h. omega (arith, h))
        (λ o p h. h) g r in
    (
      (λ o i. let h = v.good o i in omega (arith, h, le_rounded o.size)),
      (λ c b i. (v.pools c).fits b i),
    )

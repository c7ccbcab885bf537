-- ===== src/Gc/Pool/Counts.antt =====
-- What pushing and popping keep of the pools of src/stdlib/gc.c.
use visuall.Base.{
  ℕ, ◌+◌, ◌≤◌, List, [], ◌∷◌, some, none, ◌≡◌, refl, arith, length, Bool-cases, leb, Option, inl,
  false, inr, subst, sym,
}
use mathlib.Core.List.{Memᴰ}
use mathlib.Core.List.Memᴰ
use visuall.Gc.Pool.{
  Block, Pool, Pools, SizeClass, pool_of, set_pool, fl_pop, class_32, class_64, class_128,
  class_256, max_per_class, pop_block, put_back, push_block, put_in, push_class,
}

-- A predicate of the pool of each class.
abbrev pub AllPools : (SizeClass → Pool → Type 0) → Pools → Type 0
AllPools Q ps = (c : SizeClass) → Q c (pool_of c ps)

set_pool-AllPools :
    (Q : SizeClass → Pool → Type 0) (c : SizeClass) (p : Pool) (ps : Pools)
    → Q c p
    → AllPools Q ps
    → AllPools Q (set_pool c p ps)
unfolding set_pool pool_of
set_pool-AllPools Q class_32 p ps h a class_32 = h
set_pool-AllPools Q class_32 p ps h a class_64 = a class_64
set_pool-AllPools Q class_32 p ps h a class_128 = a class_128
set_pool-AllPools Q class_32 p ps h a class_256 = a class_256
set_pool-AllPools Q class_64 p ps h a class_32 = a class_32
set_pool-AllPools Q class_64 p ps h a class_64 = h
set_pool-AllPools Q class_64 p ps h a class_128 = a class_128
set_pool-AllPools Q class_64 p ps h a class_256 = a class_256
set_pool-AllPools Q class_128 p ps h a class_32 = a class_32
set_pool-AllPools Q class_128 p ps h a class_64 = a class_64
set_pool-AllPools Q class_128 p ps h a class_128 = h
set_pool-AllPools Q class_128 p ps h a class_256 = a class_256
set_pool-AllPools Q class_256 p ps h a class_32 = a class_32
set_pool-AllPools Q class_256 p ps h a class_64 = a class_64
set_pool-AllPools Q class_256 p ps h a class_128 = a class_128
set_pool-AllPools Q class_256 p ps h a class_256 = h

-- The number of the blocks is counted, and bounded; each has room for its class.
pub record IsPool (Fits : SizeClass → Block → Type 0) (c : SizeClass) (p : Pool) : Type 0 where
  pub counted : p.count ≡ length p.blocks
  pub few : p.count ≤ max_per_class
  pub fits : (b : Block) → Memᴰ b p.blocks → Fits c b

module _ (Fits : SizeClass → Block → Type 0) where
  abbrev pub ArePools : Pools → Type 0
  ArePools = AllPools (IsPool Fits)

  -- What a push leaves: the pools with one block more, or nothing where the pool is full.
  pub data Pushed : Option Pools → Type 0 where
    kept : {ps : Pools} → ArePools ps → Pushed (some ps)
    full : Pushed none

  pub data Popped : Option SizeClass → Option (Block × Pools) → Type 0 where
    popped :
        {c : SizeClass} {b : Block} {ps : Pools}
        → Fits c b
        → ArePools ps
        → Popped (some c) (some (b, ps))
    empty : {c : Option SizeClass} → Popped c none

  leb-false : (n : ℕ) → leb max_per_class n ≡ false → n + 1 ≤ max_per_class
  leb-false n e = ground arith

  put_in-Pushed :
      (c : SizeClass) (b : Block) (ps : Pools)
      → Fits c b
      → ArePools ps
      → Pushed (put_in c ps (push_block b (pool_of c ps)))
  unfolding push_block put_in
  put_in-Pushed c b ps f a =
      let p = a c in
      elim (Bool-cases (leb max_per_class (pool_of c ps).count)) [
        | inl e ↦ rw (e, put_in) full
        | inr e ↦
            rw (e, put_in)
              (kept (
                set_pool-AllPools (IsPool Fits) c _ ps
                  (record {
                    counted = omega (arith, p.counted);
                    few = leb-false _ e;
                    fits = λ x i. elim (Memᴰ.cases_cons i) [
                      | inl k ↦ subst (Fits c) (sym k) f
                      | inr j ↦ p.fits x j
                    ];
                  })
                  a))
      ]

  pub push_class-Pushed :
      (o : Option SizeClass) (b : Block) (ps : Pools)
      → ((c : SizeClass) → o ≡ some c → Fits c b)
      → ArePools ps
      → Pushed (push_class o b ps)
  unfolding push_class
  push_class-Pushed none b ps f a = full
  push_class-Pushed (some c) b ps f a = put_in-Pushed c b ps (f c refl) a

  pop_blocks-Popped :
      (c : SizeClass) (ps : Pools)
      → ArePools ps
      → (bs : List Block) (n : ℕ) → IsPool Fits c (record { blocks = bs; count = n })
      → Popped (some c) (put_back c ps (pop_block (record { blocks = bs; count = n })))
  unfolding pop_block put_back
  pop_blocks-Popped c ps a [] n p = empty
  pop_blocks-Popped c ps a (b ∷ bs) n p =
      let e = p.counted in
      let l = p.few in
      popped (p.fits b (Memᴰ.head refl)) (
        set_pool-AllPools (IsPool Fits) c _ ps
          (record {
            counted = omega (arith, e);
            few = omega (arith, l);
            fits = λ x i. p.fits x (Memᴰ.tail i);
          })
          a)

  pub fl_pop-Popped : (o : Option SizeClass) (ps : Pools) → ArePools ps → Popped o (fl_pop o ps)
  unfolding fl_pop
  fl_pop-Popped none ps a = empty
  fl_pop-Popped (some c) ps a =
      let p = pool_of c ps in pop_blocks-Popped c ps a p.blocks p.count (a c)

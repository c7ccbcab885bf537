-- ===== src/Gc/PtrMap.antt =====
-- The hash table of src/stdlib/gc.c, from the addresses of objects to their headers. Its capacity is
-- a power of two, so that `& mask` is the remainder. `none` stands for a loop that does not end.
pub mod Slots
pub mod Walks
pub mod Tables
pub mod Moves
pub mod Rehash
pub mod Methods
pub mod Refines
use visuall.Base.{
  ℕ, zero, suc, List, [], ◌∷◌, Option, none, some, ◌+◌, ◌*◌, ◌/◌, ◌%◌, ◌==◌, leb, ltb, ◌||◌, ◌&&◌,
  if◌then◌else◌,
}
use Prim.Native.Nat.{bit_xor}
use visuall.Gc.Object.{Object}

-- An empty slot has the key 0.
pub record Slot : Type 0 where
  pub key : ℕ
  pub value : Option Object

pub record PtrMap : Type 0 where
  pub slots : ℕ → Slot
  pub cap : ℕ
  pub size : ℕ

abbrev pub empty_slot : Slot
empty_slot = record { key = 0; value = none }

abbrev pub initial_cap : ℕ
initial_cap = 1024

-- What calloc returns.
abbrev pub blank : ℕ → PtrMap
blank cap = record { slots = λ i. empty_slot; cap = cap; size = 0 }

abbrev pub ptr_map_init : PtrMap
ptr_map_init = blank initial_cap

-- `h ^= h >> 16;`.
mix : ℕ → ℕ
mix h = bit_xor h (h / 0x10000)

unfoldable pub ptr_hash : ℕ → ℕ → ℕ
unfolding mix
ptr_hash p cap = mix ((mix p * 0x45D9F3B) % 0x10000000000000000) % cap

unfoldable pub if_some {ℓ κ} : {A : Type ℓ} {B : Type κ} → Option A → (A → Option B) → Option B
if_some none k = none
if_some (some a) k = k a

-- The first slot, from a slot on, that is empty or has the key.
unfoldable pub find_slot : (ℕ → Slot) → ℕ → ℕ → ℕ → ℕ → Option ℕ
find_slot slots cap zero k i = none
find_slot slots cap (suc f) k i =
    let later = find_slot slots cap f k ((i + 1) % cap) in
    if (slots i).key == 0 || (slots i).key == k then some i else later

-- The first slot, from a slot on, that is empty.
unfoldable pub free_slot : (ℕ → Slot) → ℕ → ℕ → ℕ → Option ℕ
free_slot slots cap zero i = none
free_slot slots cap (suc f) i =
    let later = free_slot slots cap f ((i + 1) % cap) in
    if (slots i).key == 0 then some i else later

unfoldable pub set_slot : ℕ → Slot → (ℕ → Slot) → ℕ → Slot
set_slot i s slots j = if i == j then s else slots j

-- A slot with a key, in a table without the key.
unfoldable pub move_slot : Slot → PtrMap → Option PtrMap
move_slot s m =
    if s.key == 0
    then some m
    else if_some (free_slot m.slots m.cap m.cap (ptr_hash s.key m.cap))
        (λ i. some (record m { slots = set_slot i s m.slots; size = m.size + 1 }))

-- The first slots of a table, moved to another.
unfoldable pub rehash : ℕ → (ℕ → Slot) → PtrMap → Option PtrMap
rehash zero old m = some m
rehash (suc n) old m = if_some (rehash n old m) (move_slot (old n))

unfoldable pub ptr_map_grow : PtrMap → Option PtrMap
ptr_map_grow m = rehash m.cap m.slots (blank (m.cap * 2))

unfoldable pub grown : PtrMap → Option PtrMap
grown m = if leb (m.cap * 3) (m.size * 4) then ptr_map_grow m else some m

unfoldable pub put : ℕ → Object → PtrMap → ℕ → PtrMap
put k o m i = record m {
  slots = set_slot i (record { key = k; value = some o }) m.slots;
  size = if (m.slots i).key == 0 then m.size + 1 else m.size;
}

unfoldable pub ptr_map_insert : ℕ → Object → PtrMap → Option PtrMap
ptr_map_insert k o m = if_some (grown m) (λ m'.
    if_some (find_slot m'.slots m'.cap m'.cap k (ptr_hash k m'.cap)) (λ i. some (put k o m' i)))

unfoldable pub value_in : Slot → Option Object
value_in s = if s.key == 0 then none else s.value

unfoldable pub ptr_map_lookup : PtrMap → ℕ → Option (Option Object)
ptr_map_lookup m zero = some none
ptr_map_lookup m (suc k) =
    if_some (find_slot m.slots m.cap m.cap (suc k) (ptr_hash (suc k) m.cap))
      (λ i. some (value_in (m.slots i)))

unfoldable pub move_objects : List Object → PtrMap → Option PtrMap
move_objects [] m = some m
move_objects (o ∷ os) m =
    if_some (move_slot (record { key = o.user; value = some o }) m) (move_objects os)

-- Halves the table while it is sparse; on fuel for the halvings.
unfoldable pub shrink : ℕ → PtrMap → Option PtrMap
shrink zero m = none
shrink (suc f) m =
    if ltb initial_cap m.cap && ltb (m.size * 8) m.cap
    then if_some (rehash m.cap m.slots (blank (m.cap / 2))) (shrink f)
    else some m

unfoldable pub ptr_map_rebuild : List Object → PtrMap → Option PtrMap
ptr_map_rebuild os m = if_some (move_objects os (blank m.cap)) (λ m'. shrink m'.cap m')

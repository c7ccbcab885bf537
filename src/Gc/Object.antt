-- ===== src/Gc/Object.antt =====
-- GCHeader of src/stdlib/gc.h, what marking reads of the memory behind it, and the search for the
-- object that an address points into. The list of objects stands for the list that `heap_head`
-- begins, and for the two tables in src/stdlib/gc.c that index it. Sizes are those of a 64-bit
-- machine.
use visuall.Base.{
  ℕ, zero, suc, Bool, List, [], ◌∷◌, ◌++◌, Option, none, some, ◌==◌, leb, ltb, if◌then◌else◌, ◌+◌,
  ◌-◌, ◌*◌, ◌/◌, ◌&&◌, ◌||◌, map,
}

-- `sizeof(GCHeader)`.
abbrev pub header_size : ℕ
header_size = 24

-- A slot of the array of a dict; `used` is `state == DICT_ENTRY_STATE_USED`.
pub record DictSlot : Type 0 where
  pub key : ℕ
  pub value : ℕ
  pub used : Bool

-- The payload, by the type tag. Words are addresses or numbers; a class instance has its memory by
-- byte offsets, and the offsets of its traced fields; a channel has the `env` of the tasks in its
-- two queues.
pub data Payload : Type 0 where
  string_object boxed_object set_object other_object : Payload
  list_object tuple_object generator_object : List ℕ → Payload
  dict_object : List DictSlot → Payload
  closure_object task_object : ℕ → Payload
  class_object : List ℕ → (ℕ → ℕ) → Payload
  channel_object : List ℕ → List ℕ → Payload

-- `user` is the address behind the header. `size` is the field of the header, `capacity` the number
-- of bytes that malloc was asked for when it returned the block.
pub record Object : Type 0 where
  pub user : ℕ
  pub size : ℕ
  pub capacity : ℕ
  pub payload : Payload

-- `words[0]`, …, `words[n - 1]`, each eight bytes.
unfoldable pub words : (ℕ → ℕ) → ℕ → List ℕ
words load zero = []
words load (suc n) = words load n ++ (load (8 * n) ∷ [])

unfoldable pub dict_words : List DictSlot → List ℕ
dict_words [] = []
dict_words (e ∷ es) = if e.used then e.key ∷ e.value ∷ dict_words es else dict_words es

unfoldable pub class_words : ℕ → List ℕ → (ℕ → ℕ) → List ℕ
class_words size [] load = words load ((size - header_size) / 8)
class_words size (o ∷ os) load = map load (o ∷ os)

-- The words that marking follows.
unfoldable pub children : Object → List ℕ
children o = elim o.payload [
  | string_object ↦ []
  | boxed_object ↦ []
  | set_object ↦ []
  | other_object ↦ []
  | list_object ws ↦ ws
  | tuple_object ws ↦ ws
  | generator_object ws ↦ ws
  | dict_object es ↦ dict_words es
  | closure_object env ↦ env ∷ []
  | task_object env ↦ env ∷ []
  | class_object offsets load ↦ class_words o.size offsets load
  | channel_object senders receivers ↦ senders ++ receivers
]

-- The object that begins at an address: `ptr_map_lookup`.
unfoldable pub starting_at : List Object → ℕ → Option Object
starting_at [] p = none
starting_at (o ∷ os) p = if o.user == p then some o else starting_at os p

-- The object whose payload has an address: `chunk_table_lookup`.
unfoldable pub containing : List Object → ℕ → Option Object
containing [] p = none
containing (o ∷ os) p =
    if leb o.user p && ltb p (o.user + (o.size - header_size)) then some o else containing os p

module _ (objects : List Object) (heap_lo heap_hi : ℕ) where
  unfoldable pub inside : ℕ → Option Object
  inside p = if ltb p heap_lo || leb heap_hi p then none else containing objects p

  unfoldable pub find_gc_header : ℕ → Option Object
  find_gc_header zero = none
  find_gc_header (suc n) = elim (starting_at objects (suc n)) [
    | some o ↦ some o
    | none ↦ inside (suc n)
  ]

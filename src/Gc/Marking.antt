-- ===== src/Gc/Marking.antt =====
-- mark_internal, mark_global_roots, mark_stack and mark_roots of src/stdlib/gc.c. The bits `marked`
-- of the headers are a function of the address of an object.
pub mod Steps
pub mod Walk
pub mod Reach
use visuall.Base.{
  ℕ, zero, suc, Bool, true, false, List, [], ◌∷◌, Option, none, some, ◌==◌, if◌then◌else◌,
}
use visuall.Gc.Object.{Object, children, starting_at, find_gc_header}

abbrev pub Marks : Type 0
Marks = ℕ → Bool

-- How marking ends. It is `stray` where a word is followed that no object begins at. The program
-- takes the bytes in front of it for a header: it returns where the byte it takes for `marked` is not
-- zero, and else writes a one there and goes on by the tag that it reads. These bytes are not modelled,
-- and the model stops there. `out_of_fuel` has no counterpart in the program.
pub data Marked : Type 0 where
  marks_are : Marks → Marked
  stray : ℕ → Marked
  out_of_fuel : Marked

unfoldable pub set_mark : ℕ → Marks → Marks
set_mark p m q = if p == q then true else m q

unfoldable pub behind_marking : Marked → (Marks → Marked) → Marked
behind_marking (marks_are m) k = k m
behind_marking (stray p) k = stray p
behind_marking out_of_fuel k = out_of_fuel

module _ (objects : List Object) (heap_lo heap_hi : ℕ) where
  -- `if (find_gc_header(word)) mark_internal(word);` for each word.
  unfoldable pub mark_each : (ℕ → Marks → Marked) → List ℕ → Marks → Marked
  mark_each mark [] m = marks_are m
  mark_each mark (w ∷ ws) m = elim (find_gc_header objects heap_lo heap_hi w) [
    | none ↦ mark_each mark ws m
    | some o ↦ behind_marking (mark w m) (mark_each mark ws)
  ]

  -- What mark_internal does with the object behind the header.
  unfoldable pub mark_object : (List ℕ → Marks → Marked) → ℕ → Option Object → Marks → Marked
  mark_object each p none m = stray p
  mark_object each p (some o) m = elim (m p) [
    | true ↦ marks_are m
    | false ↦ each (children o) (set_mark p m)
  ]

  -- On fuel for the depth of the recursion.
  unfoldable pub mark_internal : ℕ → ℕ → Marks → Marked
  mark_internal zero p m = out_of_fuel
  mark_internal (suc f) zero m = marks_are m
  mark_internal (suc f) (suc n) m =
      mark_object (mark_each (mark_internal f)) (suc n) (starting_at objects (suc n)) m

  -- The roots: the values of the registered globals, the words of the stack, and the tasks of the
  -- ready queue.
  unfoldable pub mark_roots : ℕ → List ℕ → List ℕ → List ℕ → Marks → Marked
  mark_roots fuel globals stack ready m =
      behind_marking (mark_each (mark_internal fuel) globals m) (λ m₁.
        behind_marking (mark_each (mark_internal fuel) stack m₁)
          (λ m₂. mark_each (mark_internal fuel) ready m₂))

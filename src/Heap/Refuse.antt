-- ===== src/Heap/Refuse.antt =====
-- The calls of `malloc` that return `nullptr`.
use pros.Prelude.{
  ℕ, ◌+◌, ◌^◌, ◌≤◌, ◌<◌, ◌≡◌, ◌⊎◌, inl, inr, arith, ◌∙◌, ap, List, Option, none, some, leb,
  leb_of_le, Bool-cases, u32,
}
use mathlib.Core.Path.{sym}
use pros.Memory.{Mem}
use pros.Heap.{Heap, chunk_size, null, find_chunk, malloc}
use pros.Heap.Blocks.{Block, IsHeap, find_block}
use pros.Heap.Search.{find_chunk-find_block}
use pros.Heap.Malloc.{link-ne_nil}

-- On a well-formed heap, where the total of the memory in use, the request and a header reaches the
-- size of the heap with no overflow, or where first fit finds no block, the call returns `nullptr`
-- and changes neither the heap nor memory.
pub malloc-refuses :
    (h : Heap) (m : Mem) (bs : List Block) (size : ℕ)
    → IsHeap h m bs
    → h.used_memory + size + chunk_size < 2 ^ 32
    → (h.memory_size ≤ h.used_memory + size + chunk_size) ⊎ (find_block size bs ≡ none)
    → malloc h m size ≡ some (null, h, m)
unfolding malloc
malloc-refuses h m bs size v small (inl full) =
    let total : h.memory_size ≤ u32 (h.used_memory + size + chunk_size) = omega arith in
    rw (leb_of_le h.memory_size _ total)
malloc-refuses h m bs size v small (inr missing) =
    let search : find_chunk m size (h.memory_size + 1) h.first ≡ some null =
      ap (find_chunk m size (h.memory_size + 1)) (sym (link-ne_nil h.first bs v.ne_nil))
      ∙ find_chunk-find_block m null h.first size (h.memory_size + 1) bs (omega arith) (omega arith)
          v.chain
      ∙ ap (λ (o : Option ℕ). some (elim o as (λ _. ℕ) [ none ↦ null | some e ↦ h.first + e ]))
          missing in
    elim (Bool-cases (leb h.memory_size (u32 (h.used_memory + size + chunk_size)))) [
      | inl full ↦ rw full
      | inr passes ↦ rw (passes, search)
    ]

-- ===== src/Heap/Release.antt =====
-- What `free` makes of the list of blocks that the heap holds.
pub mod Alone
pub mod Joins
pub mod Any
use mathlib.Core.Path.{subst}
use pros.Prelude.{
  ℕ, ◌+◌, ◌^◌, ◌≤◌, ◌<◌, ◌≡◌, ◌⊎◌, inl, inr, refl, arith, Bool, true, false, if◌then◌else◌, ◌∙◌, ap,
  sym, List, [], ◌∷◌, ◌++◌, Bool-cases, true_ne_false,
}
use pros.Memory.{Mem, load8}
use pros.Heap.{MemoryChunk, chunk_size, null, read_chunk, set_allocated, free}
use pros.Heap.Chunk.{Apart, Outside, read_chunk-ext}
use pros.Heap.Blocks.{Block, block, span, link, header, Chain}
use pros.Heap.Carve.{Chain-ext, IsData, IsData-le}
use pros.Heap.Single.{
  free-stops, free-last, read_chunk-marked, load8-marked, read_chunk-grown, load8-grown,
}
use pros.Heap.Joined.{joined, free-joined, read_chunk-joined, load8-joined, read_chunk-joined_next}

-- A block takes the one behind it if that is free.
abbrev pub absorb : Block → List Block → List Block
absorb b [] = b ∷ []
absorb b (n ∷ rest) =
    if n.allocated then b ∷ n ∷ rest else block (b.size + (n.size + chunk_size)) b.allocated ∷ rest

-- What `free` makes of a block of `y` bytes between `before` and `after`: it joins an allocated block
-- before it, and then a free one behind it.
abbrev pub release : (before : List Block) → (y : ℕ) → (after : List Block) → List Block
release [] y after = absorb (block y false) after
release (p ∷ []) y after =
    if p.allocated
    then absorb (block (p.size + (y + chunk_size)) true) after
    else p ∷ absorb (block y false) after
release (p ∷ q ∷ r) y after = p ∷ release (q ∷ r) y after

-- Whether the last block is allocated.
abbrev pub ends_used : List Block → Bool
ends_used [] = false
ends_used (p ∷ []) = p.allocated
ends_used (p ∷ q ∷ r) = ends_used (q ∷ r)

-- The block behind is allocated, or it is the last one and the block before is not allocated.
abbrev pub IsSafe : (before after : List Block) → Type 0
IsSafe before [] = Unit {0}
IsSafe before (n ∷ rest) =
    (n.allocated ≡ true) ⊎ ((rest ≡ []) × (ends_used before ≡ false) × (n.allocated ≡ false))

-- The chain in the memory that `free` leaves, and what it spares.
pub record IsFreed (m m' : Mem) (prev a : ℕ) (before : List Block) (y : ℕ) (after : List Block)
    : Type 0 where
  pub chain : Chain m' prev a (release before y after)
  pub spares :
      (b : ℕ) → (b < a) ⊎ IsData a (before ++ (block y false ∷ after)) b → load8 m' b ≡ load8 m b

pub absorb-used :
    (b n : Block) (rest : List Block) → n.allocated ≡ true → absorb b (n ∷ rest) ≡ b ∷ n ∷ rest
absorb-used b n rest used = rw used refl

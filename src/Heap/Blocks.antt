-- ===== src/Heap/Blocks.antt =====
-- The heap as a list of blocks: what the chain of headers in memory stands for.
use pros.Prelude.{
  ℕ, ◌+◌, ◌-◌, ◌^◌, ◌≤◌, ◌<◌, ◌≡◌, ◌≢◌, Bool, true, false, not, ◌&&◌, List, [], ◌∷◌, Option, none,
  some, ltb, if◌then◌else◌,
}
use pros.Memory.{Mem}
use pros.Heap.{MemoryChunk, Heap, read_chunk, chunk_size, heap_magic, null}

-- A block: the bytes behind one header.
pub record Block : Type 0 where
  pub size : ℕ
  pub allocated : Bool

abbrev pub block : ℕ → Bool → Block
block size allocated = record { size = size; allocated = allocated }

-- The bytes that the blocks and their headers take.
abbrev pub span : List Block → ℕ
span [] = 0
span (b ∷ bs) = chunk_size + b.size + span bs

-- The bytes of the allocated blocks, headers included.
abbrev pub in_use : List Block → ℕ
in_use [] = 0
in_use (b ∷ bs) = (if b.allocated then chunk_size + b.size else 0) + in_use bs

-- The address of the blocks `bs` if they stand at `a`, and `nullptr` if there are none.
abbrev pub link : ℕ → List Block → ℕ
link a [] = null
link a (b ∷ bs) = a

abbrev pub header : (next prev : ℕ) → Block → MemoryChunk
header next prev b = record {
  next = next;
  prev = prev;
  magic = heap_magic;
  allocated = b.allocated;
  size = b.size;
}

-- From address `a` on stand the headers of the blocks, one behind the bytes of the other, linked
-- both ways; `prev` is the header before them.
abbrev pub Chain : Mem → (prev a : ℕ) → List Block → Type 0
Chain m prev a [] = Unit {0}
Chain m prev a (b ∷ bs) =
    (read_chunk m a ≡ header (link (a + chunk_size + b.size) bs) prev b)
    × Chain m a (a + chunk_size + b.size) bs

-- The heap in memory `m` holds exactly the blocks `bs`, which fill it from its first address on.
pub record IsHeap (h : Heap) (m : Mem) (bs : List Block) : Type 0 where
  pub ne_null : h.first ≢ null
  pub ne_nil : bs ≢ []
  pub chain : Chain m null h.first bs
  pub fills : span bs ≡ h.memory_size
  pub fits : h.first + h.memory_size < 2 ^ 32
  pub counts : in_use bs ≤ h.used_memory
  pub count_fits : h.used_memory < 2 ^ 32

-- First fit, on the list of blocks: a free block larger than `size` gives its first bytes, and the
-- rest, less a header, is a free block. The distance of the block found, and the blocks after.
abbrev pub fits_in : ℕ → Block → Bool
fits_in size b = ltb size b.size && not b.allocated

unfoldable pub find_block : ℕ → List Block → Option ℕ
find_block size [] = none
find_block size (b ∷ bs) =
    if fits_in size b
    then some 0
    else elim (find_block size bs) [ none ↦ none | some d ↦ some (chunk_size + b.size + d) ]

unfoldable pub allocate : ℕ → List Block → List Block
allocate size [] = []
allocate size (b ∷ bs) =
    if fits_in size b
    then block size true ∷ block (b.size - chunk_size - size) false ∷ bs
    else b ∷ allocate size bs

-- The block that first fit takes has room for a header and one byte more.
abbrev pub HasRoom : ℕ → List Block → Type 0
HasRoom size [] = Unit {0}
HasRoom size (b ∷ bs) = if fits_in size b then (size + chunk_size < b.size) else HasRoom size bs

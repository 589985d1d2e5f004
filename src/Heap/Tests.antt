-- ===== src/Heap/Tests.antt =====
-- A heap of 200 bytes at address 4096, as the constructor leaves it, and a request to it.
use pros.Prelude.{
  ℕ, ◌-◌, ◌≡◌, inl, refl, arith, true, false, some, List, [], ◌∷◌, ◌++◌, ◌+◌, ◌<◌, ◌⊎◌,
}
use pros.Memory.{Mem, load8, load32, store8, store32}
use pros.Heap.{
  MemoryChunk, Heap, chunk_size, null, construct, malloc, free, read_chunk, set_next, set_prev,
  set_magic, set_allocated, set_size,
}
use pros.Heap.Blocks.{Block, block, header, IsHeap, find_block}
use pros.Heap.Carve.{IsData}
use pros.Heap.Release.{release}
use pros.Heap.Released.{free-IsHeap, malloc-free}
use pros.Heap.Malloc.{IsMalloc, malloc-IsMalloc}
use pros.Heap.Refuse.{malloc-refuses}
use pros.Heap.Construct.{construct-IsHeap}

abbrev zeros : Mem
zeros a = 0

abbrev heap : Heap
heap = record { memory_size = 200; used_memory = 0; first = 4096 }

abbrev blocks : List Block
blocks = block 180 false ∷ []

construct-heap : (construct zeros 4096 200).0 ≡ heap
unfolding construct
construct-heap = refl

heap-IsHeap : IsHeap heap (construct zeros 4096 200).1 blocks
unfolding construct
heap-IsHeap = construct-IsHeap zeros 4096 200 (omega arith) (omega arith) (omega arith)

construct-IsHeap_example :
    IsHeap
      (construct zeros 4096 200).0
      (construct zeros 4096 200).1
      (block (200 - chunk_size) false ∷ [])
construct-IsHeap_example = construct-IsHeap zeros 4096 200 (omega arith) (omega arith) (omega arith)

malloc-IsMalloc_example :
    let m = (construct zeros 4096 200).1 in
    (ptr : ℕ) × (h' : Heap) × (m' : Mem) × (malloc heap m 16 ≡ some (ptr, h', m'))
    × IsMalloc heap m blocks 16 0 ptr h' m'
unfolding find_block
malloc-IsMalloc_example =
    malloc-IsMalloc heap (construct zeros 4096 200).1 blocks 16 0 heap-IsHeap (omega arith)
      (omega arith) refl

malloc-refuses_example :
    malloc heap (construct zeros 4096 200).1 180 ≡ some (null, heap, (construct zeros 4096 200).1)
malloc-refuses_example =
    malloc-refuses heap (construct zeros 4096 200).1 blocks 180 heap-IsHeap (omega arith)
      (inl (omega arith))

abbrev put_header : Mem → ℕ → MemoryChunk → Mem
put_header m c k =
    set_size
      (set_allocated (set_magic (set_prev (set_next m c k.next) c k.prev) c k.magic) c k.allocated)
      c k.size

-- Two allocated blocks of 16 and 24 bytes and a free one of 100.
abbrev three_blocks : Mem
three_blocks =
    put_header
      (put_header (put_header zeros 4096 (header 4132 0 (block 16 true))) 4132
        (header 4176 4096 (block 24 true)))
      4176 (header 0 4132 (block 100 false))

first_block : read_chunk three_blocks 4096 ≡ header 4132 0 (block 16 true)
unfolding read_chunk load32 load8 set_next set_prev set_magic set_allocated set_size store32 store8
first_block = refl

second_block : read_chunk three_blocks 4132 ≡ header 4176 4096 (block 24 true)
unfolding read_chunk load32 load8 set_next set_prev set_magic set_allocated set_size store32 store8
second_block = refl

third_block : read_chunk three_blocks 4176 ≡ header 0 4132 (block 100 false)
unfolding read_chunk load32 load8 set_next set_prev set_magic set_allocated set_size store32 store8
third_block = refl

abbrev three_heap : Heap
three_heap = record { memory_size = 200; used_memory = 80; first = 4096 }

three_heap-IsHeap :
    IsHeap three_heap three_blocks (block 16 true ∷ block 24 true ∷ block 100 false ∷ [])
three_heap-IsHeap = record {
  ne_null = omega arith;
  ne_nil = λ e. cc;
  chain = (first_block, (second_block, (third_block, tt)));
  fills = refl;
  fits = omega arith;
  counts = omega arith;
  count_fits = omega arith;
}

-- The first block is given back, and the second one stays.
free-IsHeap_example :
    let m = free three_blocks (4096 + 0 + chunk_size) in
    let after = block 24 true ∷ block 100 false ∷ [] in
    IsHeap three_heap m (release [] 16 after)
    × ((b : ℕ)
        → (b < 4096) ⊎ IsData 4096 ([] ++ (block 16 false ∷ after)) b
        → load8 m b ≡ load8 three_blocks b)
free-IsHeap_example =
    free-IsHeap three_heap three_blocks [] 16 (block 24 true ∷ block 100 false ∷ [])
      three_heap-IsHeap (inl refl)

malloc-free_example :
    let m = (construct zeros 4096 200).1 in
    (ptr : ℕ) × (h' : Heap) × (m' : Mem) × (malloc heap m 16 ≡ some (ptr, h', m'))
    × IsHeap h' (free m' ptr) ([] ++ blocks)
    × (h'.used_memory ≡ 0 + 16 + chunk_size)
    × ((b : ℕ) → (b < 4096) ⊎ IsData 4096 ([] ++ blocks) b → load8 (free m' ptr) b ≡ load8 m b)
unfolding find_block
malloc-free_example =
    malloc-free heap (construct zeros 4096 200).1 [] 16 180 heap-IsHeap (omega arith) refl
      (omega arith) refl

-- ===== src/Heap/Construct.antt =====
-- The constructor of the heap.
use pros.Prelude.{
  ℕ, ◌+◌, ◌-◌, ◌^◌, ◌≤◌, ◌<◌, ◌≡◌, arith, ◌∙◌, ap, false, [], ◌∷◌, u32, sub32, ltb_of_le,
}
use pros.Memory.{Mem}
use pros.Heap.{
  MemoryChunk, chunk_size, heap_magic, null, read_chunk, set_next, set_prev, set_magic,
  set_allocated, set_size, construct,
}
use pros.Heap.Chunk.{
  read_chunk-set_next, read_chunk-set_prev, read_chunk-set_magic, read_chunk-set_size,
  read_chunk-set_allocated,
}
use pros.Heap.Blocks.{block, header, IsHeap}

-- The header that the five writes leave, whatever memory held.
first_header :
    (m : Mem) (start size : ℕ)
    → read_chunk
        (set_magic
          (set_size
            (set_next (set_prev (set_allocated m start false) start null) start null)
            start
            size)
          start
          heap_magic)
        start
      ≡ record { next = null; prev = null; magic = heap_magic; allocated = false; size = u32 size }
first_header m start size =
    let m1 = set_allocated m start false in
    let m2 = set_prev m1 start null in
    let m3 = set_next m2 start null in
    let m4 = set_size m3 start size in
    read_chunk-set_magic m4 start heap_magic
    ∙ ap (λ (c : MemoryChunk). record c { magic = heap_magic })
        (read_chunk-set_size m3 start size
          ∙ ap (λ (c : MemoryChunk). record c { size = u32 size })
              (read_chunk-set_next m2 start null
                ∙ ap (λ (c : MemoryChunk). record c { next = null })
                    (read_chunk-set_prev m1 start null
                      ∙ ap (λ (c : MemoryChunk). record c { prev = null })
                          (read_chunk-set_allocated m start false))))

-- The constructor, for a region that is not at address 0, ends within 4 GB and has place for a
-- header: the heap is well formed and holds one free block, which takes the region but its header.
pub construct-IsHeap :
    (m : Mem) (start size : ℕ)
    → 0 < start
    → chunk_size ≤ size
    → start + size < 2 ^ 32
    → let (h, m') = construct m start size in IsHeap h m' (block (size - chunk_size) false ∷ [])
unfolding construct
construct-IsHeap m start size pos room fits =
    let left : sub32 size chunk_size ≡ size - chunk_size = omega arith in
    rw (ltb_of_le size chunk_size room) (record {
      ne_null = omega arith;
      ne_nil = λ e. cc;
      chain = (
        first_header m start (sub32 size chunk_size)
            ∙ ap (λ n. header null null (block n false)) {x = u32 (sub32 size chunk_size)}
                {y = size - chunk_size} (omega arith),
        tt,
      );
      fills = omega arith;
      fits = fits;
      counts = omega arith;
      count_fits = omega arith;
    })

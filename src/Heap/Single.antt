-- ===== src/Heap/Single.antt =====
-- `free` of a chunk that does not join the one before it.
use pros.Prelude.{
  ℕ, ◌+◌, ◌^◌, ◌<◌, ◌≡◌, ◌≢◌, ◌⊎◌, inl, inr, refl, arith, true, false, u32, sub32, ◌∙◌, ap,
  ==_of_ne, ==_of_eq,
}
use pros.Memory.{Mem, load8}
use pros.Heap.{
  MemoryChunk, chunk_size, null, read_chunk, set_next, set_allocated, set_size, join_prev,
  join_next, free,
}
use pros.Heap.Chunk.{
  Apart, Outside, read_chunk-set_next, read_chunk-set_size, read_chunk-set_allocated,
  read_chunk-set_size_apart, read_chunk-set_allocated_apart, load8-set_next, load8-set_size,
  load8-set_allocated,
}
use pros.Heap.Blocks.{block, header}

module _ (m : Mem) (prev c next y : ℕ) (pos : 0 < c) (fits : c + chunk_size < 2 ^ 32)
    (at : read_chunk m c ≡ header next prev (block y true))
    (alone : (prev ≡ null) ⊎ (Apart c prev × ((read_chunk m prev).allocated ≡ false))) where
  abbrev pub marked : Mem
  marked = set_allocated m c false

  pub read_chunk-marked : read_chunk marked c ≡ header next prev (block y false)
  read_chunk-marked =
      read_chunk-set_allocated m c false
      ∙ ap (λ (k : MemoryChunk). record k { allocated = false }) at

  join_prev-marked : join_prev marked c ≡ (c, marked)
  unfolding join_prev
  join_prev-marked = elim alone [
    | inl e ↦ rw (read_chunk-marked, ==_of_eq prev null e) refl
    | inr (apart, unused) ↦
        let same =
          ap (λ (k : MemoryChunk). k.allocated)
            (read_chunk-set_allocated_apart m c prev apart false)
          ∙ unused in
        rw (read_chunk-marked, same) (ground arith)
  ]

  start : sub32 (c + chunk_size) chunk_size ≡ c
  start = omega arith

  free-marked : free m (c + chunk_size) ≡ join_next marked c
  unfolding free
  free-marked = rw (start, join_prev-marked) refl

  -- The chunk after it is in use, or there is none.
  pub free-stops :
      (next ≡ null) ⊎ (Apart c next × ((read_chunk m next).allocated ≡ true))
      → free m (c + chunk_size) ≡ marked
  unfolding join_next
  free-stops stops = free-marked ∙ elim stops [
    | inl e ↦ rw (read_chunk-marked, ==_of_eq next null e) refl
    | inr (apart, used) ↦
        let same =
          ap (λ (k : MemoryChunk). k.allocated)
            (read_chunk-set_allocated_apart m c next apart false)
          ∙ used in
        rw (read_chunk-marked, same) (ground arith)
  ]

  -- The chunk after it is free, and is the last one.
  pub free-last :
      (z : ℕ)
      → next ≢ null
      → Apart c next
      → y + (z + chunk_size) < 2 ^ 32
      → read_chunk m next ≡ header null c (block z false)
      → free m (c + chunk_size) ≡ set_next (set_size marked c (y + (z + chunk_size))) c null
  unfolding join_next
  free-last z ne apart small last =
      let total = y + (z + chunk_size) in
      let grown : u32 total ≡ total = omega arith in
      let m2 = set_size marked c total in
      let next1 : read_chunk marked next ≡ header null c (block z false) =
        read_chunk-set_allocated_apart m c next apart false ∙ last in
      let c2 : read_chunk m2 c ≡ header next prev (block total false) =
        read_chunk-set_size marked c total
        ∙ ap (λ (k : MemoryChunk). record k { size = u32 total }) read_chunk-marked
        ∙ ap (λ t. header next prev (block t false)) grown in
      let next2 : read_chunk m2 next ≡ header null c (block z false) =
        read_chunk-set_size_apart marked c next apart total ∙ next1 in
      let c3 : read_chunk (set_next m2 c null) c ≡ header null prev (block total false) =
        read_chunk-set_next m2 c null ∙ ap (λ (k : MemoryChunk). record k { next = null }) c2 in
      free-marked ∙ rw (read_chunk-marked, next1, ==_of_ne next null ne, grown, c2, next2, c3) refl

  pub load8-marked : (b : ℕ) → Outside c b → load8 marked b ≡ load8 m b
  load8-marked b out = load8-set_allocated m c b false out

  -- The header that the join with the last chunk leaves, and the bytes outside it.
  abbrev pub grown : ℕ → Mem
  grown z = set_next (set_size marked c (y + (z + chunk_size))) c null

  pub read_chunk-grown :
      (z : ℕ)
      → y + (z + chunk_size) < 2 ^ 32
      → read_chunk (grown z) c ≡ header null prev (block (y + (z + chunk_size)) false)
  read_chunk-grown z small =
      let total = y + (z + chunk_size) in
      let same : u32 total ≡ total = omega arith in
      read_chunk-set_next (set_size marked c total) c null
      ∙ ap (λ (k : MemoryChunk). record k { next = null })
          (read_chunk-set_size marked c total
            ∙ ap (λ (k : MemoryChunk). record k { size = u32 total }) read_chunk-marked
            ∙ ap (λ t. header next prev (block t false)) same)

  pub load8-grown : (z b : ℕ) → Outside c b → load8 (grown z) b ≡ load8 m b
  load8-grown z b out =
      load8-set_next (set_size marked c (y + (z + chunk_size))) c b null out
      ∙ load8-set_size marked c b (y + (z + chunk_size)) out
      ∙ load8-marked b out

-- ===== src/Heap/Free.antt =====
-- `free` of a chunk between an allocated one and the free one at the end of the heap.
use pros.Prelude.{
  ◌*◌, ℕ, ◌+◌, ◌^◌, ◌<◌, ◌≡◌, ◌≢◌, inl, inr, refl, arith, true, false, u32, sub32, ◌∙◌, ap,
  ==_of_ne,
}
use pros.Memory.{Mem}
use pros.Heap.{
  MemoryChunk, chunk_size, null, read_chunk, set_next, set_prev, set_allocated, set_size, join_prev,
  join_next, free,
}
use pros.Heap.Chunk.{
  Apart, read_chunk-set_next, read_chunk-set_prev, read_chunk-set_size, read_chunk-set_allocated,
  read_chunk-set_next_apart, read_chunk-set_prev_apart, read_chunk-set_size_apart,
  read_chunk-set_allocated_apart,
}
use pros.Heap.Blocks.{block, header}

-- The chunks `p`, `c` and `n`, one behind the other, the last of the heap.
module _ (m : Mem) (before p x y z : ℕ) (pos : 0 < p)
    (fits : p + x + y + z + 3 * chunk_size < 2 ^ 32) where
  abbrev c : ℕ
  c = p + chunk_size + x

  abbrev n : ℕ
  n = c + chunk_size + y

  p_c : Apart c p
  p_c = inl (omega arith)

  c_p : Apart p c
  c_p = inr (omega arith)

  p_n : Apart p n
  p_n = inr (omega arith)

  n_p : Apart n p
  n_p = inl (omega arith)

  n_c : Apart n c
  n_c = inl (omega arith)

  c_n : Apart c n
  c_n = inr (omega arith)

  -- The first half, on a memory in which `c` is marked as free.
  abbrev joined : Mem
  joined = set_prev (set_size (set_next m p n) p (x + (y + chunk_size))) n p

  join_prev-joined :
      read_chunk m p ≡ header c before (block x true)
      → read_chunk m c ≡ header n p (block y false)
      → join_prev m c ≡ (p, joined)
  unfolding join_prev
  join_prev-joined at_p at_c =
      let m2 = set_next m p n in
      let p2 : read_chunk m2 p ≡ header n before (block x true) =
        read_chunk-set_next m p n
        ∙ ap (λ (k : MemoryChunk). record k { next = u32 n }) at_p
        ∙ ap (λ t. header t before (block x true)) {x = u32 n} {y = n} (omega arith) in
      let c2 : read_chunk m2 c ≡ header n p (block y false) =
        read_chunk-set_next_apart m p c c_p n ∙ at_c in
      let grown : u32 (x + (y + chunk_size)) ≡ x + (y + chunk_size) = omega arith in
      let m3 = set_size m2 p (x + (y + chunk_size)) in
      let c3 : read_chunk m3 c ≡ header n p (block y false) =
        read_chunk-set_size_apart m2 p c c_p _ ∙ c2 in
      let c4 : read_chunk joined c ≡ header n p (block y false) =
        read_chunk-set_prev_apart m3 n c n_c p ∙ c3 in
      rw
        (
          at_c,
          at_p,
          ==_of_ne p null (omega arith),
          c2,
          p2,
          grown,
          c3,
          ==_of_ne n null (omega arith),
          c4,
        )
        refl

  read_chunk-joined :
      read_chunk m p ≡ header c before (block x true)
      → read_chunk m n ≡ header null c (block z false)
      → (read_chunk joined p ≡ header n before (block (x + (y + chunk_size)) true))
        × (read_chunk joined n ≡ header null p (block z false))
  read_chunk-joined at_p at_n =
      let m2 = set_next m p n in
      let m3 = set_size m2 p (x + (y + chunk_size)) in
      let p2 =
        read_chunk-set_next m p n ∙ ap (λ (k : MemoryChunk). record k { next = u32 n }) at_p in
      let p3 =
        read_chunk-set_size m2 p (x + (y + chunk_size))
        ∙ ap (λ (k : MemoryChunk). record k { size = u32 (x + (y + chunk_size)) }) p2 in
      let n3 =
        read_chunk-set_size_apart m2 p n p_n (x + (y + chunk_size))
        ∙ read_chunk-set_next_apart m p n p_n n
        ∙ at_n in
      (
        read_chunk-set_prev_apart m3 n p n_p p
            ∙ p3
            ∙ ap (λ t. header t before (block (u32 (x + (y + chunk_size))) true)) {x = u32 n}
                {y = n} (omega arith)
            ∙ ap (λ t. header n before (block t true)) {x = u32 (x + (y + chunk_size))}
                {y = x + (y + chunk_size)} (omega arith),
        read_chunk-set_prev m3 n p
            ∙ ap (λ (k : MemoryChunk). record k { prev = u32 p }) n3
            ∙ ap (λ t. header null t (block z false)) {x = u32 p} {y = p} (omega arith),
      )

-- The second half: a chunk takes the free one that is the last.
join_next-last :
    (m : Mem) (before p n size z : ℕ)
    → n ≢ null
    → Apart p n
    → size + z + chunk_size < 2 ^ 32
    → read_chunk m p ≡ header n before (block size true)
    → read_chunk m n ≡ header null p (block z false)
    → read_chunk (join_next m p) p ≡ header null before (block (size + (z + chunk_size)) true)
unfolding join_next
join_next-last m before p n size z ne apart fits at_p at_n =
    let total = size + (z + chunk_size) in
    let grown : u32 total ≡ total = omega arith in
    let m2 = set_size m p total in
    let p2 : read_chunk m2 p ≡ header n before (block total true) =
      read_chunk-set_size m p total
      ∙ ap (λ (k : MemoryChunk). record k { size = u32 total }) at_p
      ∙ ap (λ t. header n before (block t true)) grown in
    let n2 : read_chunk m2 n ≡ header null p (block z false) =
      read_chunk-set_size_apart m p n apart total ∙ at_n in
    let m3 = set_next m2 p null in
    let p3 : read_chunk m3 p ≡ header null before (block total true) =
      read_chunk-set_next m2 p null ∙ ap (λ (k : MemoryChunk). record k { next = null }) p2 in
    rw (at_p, at_n, ==_of_ne n null ne, grown, p2, n2, p3) p3

-- Three chunks stand one behind the other at the end of the heap, all below 4 GB: an allocated one,
-- one to be freed, and a free one, the last. Freeing the middle one leaves one chunk that takes all
-- three, and that chunk is allocated: neither the bytes given back nor those that were free before
-- can be handed out again.
pub free-joins_allocated :
    (m : Mem) (before p x y z : ℕ)
    → 0 < p
    → p + x + y + z + 3 * chunk_size < 2 ^ 32
    → read_chunk m p ≡ header (p + chunk_size + x) before (block x true)
    → read_chunk m (p + chunk_size + x)
      ≡ header (p + chunk_size + x + chunk_size + y) p (block y true)
    → read_chunk m (p + chunk_size + x + chunk_size + y)
      ≡ header null (p + chunk_size + x) (block z false)
    → read_chunk (free m (p + chunk_size + x + chunk_size)) p
      ≡ header null before (block (x + y + z + 2 * chunk_size) true)
unfolding free
free-joins_allocated m before p x y z pos fits at_p at_c at_n =
    let c = p + chunk_size + x in
    let n = c + chunk_size + y in
    let m1 = set_allocated m c false in
    let p1 = read_chunk-set_allocated_apart m c p (inl (omega arith)) false ∙ at_p in
    let n1 = read_chunk-set_allocated_apart m c n (inr (omega arith)) false ∙ at_n in
    let c1 : read_chunk m1 c ≡ header n p (block y false) =
      read_chunk-set_allocated m c false
      ∙ ap (λ (k : MemoryChunk). record k { allocated = false }) at_c in
    let start : sub32 (c + chunk_size) chunk_size ≡ c = omega arith in
    let first = join_prev-joined m1 before p x y z pos fits p1 c1 in
    let (pj, nj) = read_chunk-joined m1 before p x y z pos fits p1 n1 in
    let whole =
      join_next-last (joined m1 before p x y z pos fits) before p n (x + (y + chunk_size)) z
        (omega arith) (inr (omega arith)) (omega arith) pj nj in
    rw (start, first)
      (whole
        ∙ ap (λ t. header null before (block t true)) {x = x + (y + chunk_size) + (z + chunk_size)}
            {y = x + y + z + 2 * chunk_size} (omega arith))

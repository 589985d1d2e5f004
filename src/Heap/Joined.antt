-- ===== src/Heap/Joined.antt =====
-- `free` of a chunk behind one that is allocated: the two become one allocated chunk.
use pros.Prelude.{
  ℕ, ◌+◌, ◌^◌, ◌≤◌, ◌<◌, ◌≡◌, ◌≢◌, ◌⊎◌, inl, inr, refl, arith, true, false, ◌==◌, if◌then◌else◌,
  u32, sub32, ◌∙◌, ap, ==_of_ne, ==_of_eq, ℕ_discrete,
}
use pros.Memory.{Mem, load8}
use pros.Heap.{
  MemoryChunk, chunk_size, null, read_chunk, set_next, set_prev, set_allocated, set_size, join_prev,
  join_next, free,
}
use pros.Heap.Chunk.{
  Outside, read_chunk-set_next, read_chunk-set_prev, read_chunk-set_size, read_chunk-set_allocated,
  read_chunk-set_next_apart, read_chunk-set_prev_apart, read_chunk-set_size_apart,
  read_chunk-set_allocated_apart, load8-set_next, load8-set_prev, load8-set_size,
  load8-set_allocated,
}
use pros.Heap.Blocks.{block, header}

-- The chunks at `p` and `c`, one behind the other, and the one after them, if there is one.
module _ (m : Mem) (before p next x y : ℕ) (pos : 0 < p)
    (fits : p + x + y + chunk_size + chunk_size < 2 ^ 32)
    (at_p : read_chunk m p ≡ header (p + chunk_size + x) before (block x true))
    (at_c : read_chunk m (p + chunk_size + x) ≡ header next p (block y true))
    (small : next < 2 ^ 32)
    (stops : (next ≡ null)
      ⊎ ((p + chunk_size + x + chunk_size ≤ next) × ((read_chunk m next).allocated ≡ true))) where
  abbrev c : ℕ
  c = p + chunk_size + x

  abbrev marked : Mem
  marked = set_allocated m c false

  abbrev widened : Mem
  widened = set_size (set_next marked p next) p (x + (y + chunk_size))

  abbrev pub joined : Mem
  joined = if next == null then widened else set_prev widened next p

  p1 : read_chunk marked p ≡ header c before (block x true)
  p1 = read_chunk-set_allocated_apart m c p (inl (omega arith)) false ∙ at_p

  c1 : read_chunk marked c ≡ header next p (block y false)
  c1 =
      read_chunk-set_allocated m c false
      ∙ ap (λ (k : MemoryChunk). record k { allocated = false }) at_c

  p2 : read_chunk (set_next marked p next) p ≡ header next before (block x true)
  p2 =
      read_chunk-set_next marked p next
      ∙ ap (λ (k : MemoryChunk). record k { next = u32 next }) p1
      ∙ ap (λ t. header t before (block x true)) {x = u32 next} {y = next} (omega arith)

  c2 : read_chunk (set_next marked p next) c ≡ header next p (block y false)
  c2 = read_chunk-set_next_apart marked p c (inr (omega arith)) next ∙ c1

  total : u32 (x + (y + chunk_size)) ≡ x + (y + chunk_size)
  total = omega arith

  p3 : read_chunk widened p ≡ header next before (block (x + (y + chunk_size)) true)
  p3 =
      read_chunk-set_size (set_next marked p next) p (x + (y + chunk_size))
      ∙ ap (λ (k : MemoryChunk). record k { size = u32 (x + (y + chunk_size)) }) p2
      ∙ ap (λ t. header next before (block t true)) total

  c3 : read_chunk widened c ≡ header next p (block y false)
  c3 =
      read_chunk-set_size_apart (set_next marked p next) p c (inr (omega arith))
        (x + (y + chunk_size))
      ∙ c2

  c4 : read_chunk joined c ≡ header next p (block y false)
  c4 = elim stops [
    | inl e ↦ rw (==_of_eq next null e) c3
    | inr (far, used) ↦
        rw (==_of_ne next null (omega arith))
          (read_chunk-set_prev_apart widened next c (inl (omega arith)) p ∙ c3)
  ]

  pub read_chunk-joined :
      read_chunk joined p ≡ header next before (block (x + (y + chunk_size)) true)
  read_chunk-joined = elim stops [
    | inl e ↦ rw (==_of_eq next null e) p3
    | inr (far, used) ↦
        rw (==_of_ne next null (omega arith))
          (read_chunk-set_prev_apart widened next p (inl (omega arith)) p ∙ p3)
  ]

  join_prev-joined : join_prev marked c ≡ (p, joined)
  unfolding join_prev
  join_prev-joined = rw (c1, p1, ==_of_ne p null (omega arith), c2, p2, total, c3, c4) refl

  -- The header after them points back to the joined chunk.
  pub read_chunk-joined_next :
      next ≢ null
      → c + chunk_size ≤ next
      → read_chunk joined next ≡ record (read_chunk m next) { prev = p }
  read_chunk-joined_next ne far =
      let same : u32 p ≡ p = omega arith in
      rw (==_of_ne next null ne) (
        read_chunk-set_prev widened next p
        ∙ ap (λ (k : MemoryChunk). record k { prev = u32 p })
            (read_chunk-set_size_apart (set_next marked p next) p next (inr (omega arith))
                (x + (y + chunk_size))
              ∙ read_chunk-set_next_apart marked p next (inr (omega arith)) next
              ∙ read_chunk-set_allocated_apart m c next (inr far) false)
        ∙ ap (λ t. record (read_chunk m next) { prev = t }) same)

  -- The chunk after them stays allocated.
  next-joined : (next ≡ null) ⊎ ((read_chunk joined next).allocated ≡ true)
  next-joined = elim stops [
    | inl e ↦ inl e
    | inr (far, used) ↦
        inr
          (ap (λ (k : MemoryChunk). k.allocated) (read_chunk-joined_next (omega arith) far) ∙ used)
  ]

  pub free-joined : free m (c + chunk_size) ≡ joined
  unfolding free join_next
  free-joined =
      let start : sub32 (c + chunk_size) chunk_size ≡ c = omega arith in
      rw (start, join_prev-joined)
        (elim next-joined [
          | inl e ↦ rw (read_chunk-joined, ==_of_eq next null e) refl
          | inr used ↦ rw (read_chunk-joined, used) (ground arith)
        ])

  pub load8-joined :
      (b : ℕ)
      → Outside p b
      → Outside c b
      → (next ≡ null) ⊎ Outside next b
      → load8 joined b ≡ load8 m b
  load8-joined b out_p out_c out_n =
      let before =
        load8-set_size (set_next marked p next) p b (x + (y + chunk_size)) out_p
        ∙ load8-set_next marked p b next out_p
        ∙ load8-set_allocated m c b false out_c in
      elim out_n [
        | inl e ↦ rw (==_of_eq next null e) before
        | inr out ↦ elim (ℕ_discrete next null) [
          | yes e ↦ rw (==_of_eq next null e) before
          | no ne ↦ rw (==_of_ne next null ne) (load8-set_prev widened next b p out ∙ before)
        ]
      ]

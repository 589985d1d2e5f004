-- ===== src/Heap/Write.antt =====
-- Writes to the bytes that `malloc` has handed out.
use pros.Prelude.{
  ℕ, ◌+◌, ◌-◌, ◌≤◌, ◌<◌, ◌≡◌, ◌⊎◌, inl, inr, arith, false, ◌∙◌, List, [], ◌∷◌, some, Bool-cases,
}
use pros.Memory.{Mem, load8}
use pros.Heap.{Heap, chunk_size, null}
use pros.Heap.Chunk.{read_chunk-ext}
use pros.Heap.Blocks.{Block, block, Chain, IsHeap, fits_in, find_block, allocate, HasRoom}
use pros.Heap.Carve.{Chain-ext}
use pros.Heap.Fit.{some-later}

-- The chain does not depend on the bytes of the block that first fit has taken.
Chain-written :
    (m m' : Mem) (prev a size d : ℕ) (bs : List Block)
    → HasRoom size bs
    → find_block size bs ≡ some d
    → ((y : ℕ)
        → (y < a + d + chunk_size) ⊎ (a + d + chunk_size + size ≤ y)
        → load8 m' y ≡ load8 m y)
    → Chain m prev a (allocate size bs)
    → Chain m' prev a (allocate size bs)
unfolding find_block allocate
Chain-written m m' prev a size d [] room found same c = cc
Chain-written m m' prev a size d (b ∷ bs) room found same c = elim (Bool-cases (fits_in size b)) [
  | inl fit ↦
      let zero_d : d ≡ 0 = ground arith in
      let c' = rw fit at c in
      rw fit (
        read_chunk-ext m' m a (λ y lo hi. same y (inl (omega arith))) ∙ c'.0,
        Chain-ext m m' a (a + chunk_size + size) (block (b.size - chunk_size - size) false ∷ bs)
            (λ y lo hi. same y (inr (omega arith))) c'.1,
      )
  | inr full ↦
      let (e, later, sum) =
        some-later (chunk_size + b.size) d (find_block size bs) (rw full at found) in
      let c' = rw full at c in
      let room' : HasRoom size bs = rw full at room in
      rw full (
        read_chunk-ext m' m a (λ y lo hi. same y (inl (omega arith))) ∙ c'.0,
        Chain-written m m' a (a + chunk_size + b.size) size e bs room' later
            (λ y out. same y (omega arith)) c'.1,
      )
]

-- A heap keeps its shape when only these bytes change.
pub IsHeap-written :
    (h h' : Heap) (m m' : Mem) (size d : ℕ) (bs : List Block)
    → HasRoom size bs
    → find_block size bs ≡ some d
    → h'.first ≡ h.first
    → ((y : ℕ)
        → (y < h.first + d + chunk_size) ⊎ (h.first + d + chunk_size + size ≤ y)
        → load8 m' y ≡ load8 m y)
    → IsHeap h' m (allocate size bs)
    → IsHeap h' m' (allocate size bs)
IsHeap-written h h' m m' size d bs room found e same v = record {
  ne_null = v.ne_null;
  ne_nil = v.ne_nil;
  chain =
      Chain-written m m' null h'.first size d bs room found (λ y out. same y (omega arith)) v.chain;
  fills = v.fills;
  fits = v.fits;
  counts = v.counts;
  count_fits = v.count_fits;
}
